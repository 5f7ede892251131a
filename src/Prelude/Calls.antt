-- ===== src/Prelude/Calls.antt =====
-- A call that may fail and that changes the world outside the program: the heap, the entropy pool,
-- the provider. `none` is a failure; the world goes on in both cases.
use mathlib.Core.Path.{◌≡◌, refl, sym, ap, ◌∙◌}
use mathlib.Core.Logic.{◌⊎◌, inl, inr}
use native.Mathlib.Omega.{arith}
use hybrid_pqc_cert.Prelude.Tests.{Option-cases}
use mathlib.Core.Bool.{Bool, true, false}
use mathlib.Core.Option.{Option, none, some}
use hybrid_pqc_cert.Prelude.Buffers.{Bytes, Slice, null, bytes}

abbrev pub Prog : Type 0 → Type 0 → Type 0
Prog W A = W → Option A × W

abbrev pub and_then : {W A B : Type 0} → Option A × W → (A → Prog W B) → Option B × W
and_then (none, w) f = (none, w)
and_then (some a, w) f = f a w

infixl 5 ◌>>=◌ ◌>>◌
abbrev pub ◌>>=◌ : {W A B : Type 0} → Prog W A → (A → Prog W B) → Prog W B
◌>>=◌ m f w = and_then (m w) f

abbrev pub ◌>>◌ : {W B : Type 0} → Prog W (Unit {0}) → Prog W B → Prog W B
m >> k = m >>= λ _. k

abbrev pub pure : {W A : Type 0} → A → Prog W A
pure a w = (some a, w)

abbrev pub guard : {W : Type 0} → Bool → Prog W (Unit {0})
guard true w = (some tt, w)
guard false w = (none, w)

-- A value that is already there, or a NULL.
abbrev pub from_option : {W A : Type 0} → Option A → Prog W A
from_option o w = (o, w)

-- The bytes behind a pointer that is not NULL.
abbrev pub present : {W : Type 0} → Slice → Prog W Bytes
present (null n) w = (none, w)
present (bytes b) w = (some b, w)

abbrev pub is_some {ℓ} : {A : Type ℓ} → Option A → Bool
is_some none = false
is_some (some a) = true

-- A call whose failure is looked at later.
abbrev pub attempt : {W A : Type 0} → Prog W A → Prog W (Option A)
attempt m w = (some (m w).0, (m w).1)

-- A call that is made for its verdict only.
abbrev pub test : {W A : Type 0} → Prog W A → Prog W Bool
test m w = (some (is_some (m w).0), (m w).1)

-- `goto error`: the clean-up runs when the call fails.
abbrev pub or_cleanup : {W A : Type 0} → Prog W A → (W → W) → Prog W A
or_cleanup m cleanup w = elim (m w).0 [
  | none ↦ (none, cleanup (m w).1)
  | some a ↦ (some a, (m w).1)
]

-- A block of calls in which none fails, with a value that stands for the missing one.
abbrev pub or_default : {W A : Type 0} → A → Option A × W → A × W
or_default d (none, w) = (d, w)
or_default d (some a, w) = (a, w)

-- Some run of the call gives `a`.
abbrev pub CanReturn : {W A : Type 0} → Prog W A → A → Type 0
CanReturn {W} m a = (w : W) × ((m w).0 ≡ some a)

-- Every run of the call gives `a`, in whatever world.
abbrev pub AlwaysReturns : {W A : Type 0} → Prog W A → A → Type 0
AlwaysReturns {W} m a = (w : W) → (m w).0 ≡ some a

-- A sequence that succeeds: the first call does, and the rest is the run of the sequence.
pub >>=-some :
    {W A B : Type 0} (m : Prog W A) (f : A → Prog W B) (w : W) {b : B}
    → ((m >>= f) w).0 ≡ some b
    → (a : A) × ((m w).0 ≡ some a) × ((m >>= f) w ≡ f a (m w).1)
>>=-some m f w h = elim (Option-cases (m w).0) [
  | inl e ↦ absurd (ground arith)
  | inr (a, e) ↦ (a, e, rw (e, ◌>>=◌) refl)
]

-- A call with a clean-up fails and has cleaned up, or succeeds as without it.
pub or_cleanup-cases :
    {W A : Type 0} (m : Prog W A) (cleanup : W → W) (w : W)
    → (((m w).0 ≡ none) × (or_cleanup m cleanup w ≡ (none, cleanup (m w).1)))
      ⊎ ((a : A) × ((m w).0 ≡ some a) × (or_cleanup m cleanup w ≡ (some a, (m w).1)))
or_cleanup-cases m cleanup w = elim (Option-cases (m w).0) [
  | inl e ↦ inl (e, rw (e, or_cleanup) refl)
  | inr (a, e) ↦ inr (a, e, rw (e, or_cleanup) refl)
]

-- A sequence that can return a value: so can the first call, and then the rest.
pub >>=-CanReturn :
    {W A B : Type 0} (m : Prog W A) (f : A → Prog W B) {b : B}
    → CanReturn (m >>= f) b
    → (a : A) × CanReturn m a × CanReturn (f a) b
>>=-CanReturn m f (w, h) =
    let (a, e, r) = >>=-some m f w h in (a, (w, e), ((m w).1, sym (ap (λ x. x.0) r) ∙ h))

pub guard-CanReturn : {W : Type 0} (b : Bool) → CanReturn (guard {W = W} b) tt → b ≡ true
guard-CanReturn true h = refl
guard-CanReturn false (w, h) = absurd (ground arith)

pub pure-CanReturn : {W A : Type 0} (a : A) {b : A} → CanReturn (pure {W = W} a) b → a ≡ b
pure-CanReturn a (w, h) = ground arith
