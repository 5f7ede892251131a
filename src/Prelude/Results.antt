-- ===== src/Prelude/Results.antt =====
-- Results through pointers: `uint8_t **out, size_t *out_len`.
use Prim.Native.Nat.{ℕ}
use mathlib.Core.Bool.{Bool, true, false}
use mathlib.Core.Option.{Option, none, some}
use hybrid_pqc_cert.Prelude.Buffers.{Bytes, length}
use hybrid_pqc_cert.Prelude.Calls.{Prog}

-- An out parameter: NULL, or a variable with its value.
abbrev pub Out : Type 0 → Type 0
Out A = Option A

pub record Returned (W : Type 0) : Type 0 where
  pub ok : Bool
  pub buffer : Out (Option Bytes)
  pub buffer_length : Out ℕ
  pub world : W

-- The convention of the functions that allocate a result: nothing happens when a pointer is
-- missing; else both variables are cleared, and set when the work succeeds.
unfoldable pub export : {W : Type 0} → Out (Option Bytes) → Out ℕ → Prog W Bytes → W → Returned W
export none len m w = record { ok = false; buffer = none; buffer_length = len; world = w }
export (some b) none m w = record { ok = false; buffer = some b; buffer_length = none; world = w }
export (some b) (some n) m w =
    let r = m w in
    elim r.0 [
      | none ↦ record { ok = false; buffer = some none; buffer_length = some 0; world = r.1 }
      | some out ↦ record {
        ok = true;
        buffer = some (some out);
        buffer_length = some (length out);
        world = r.1;
      }
    ]
