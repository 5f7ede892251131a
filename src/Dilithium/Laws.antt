-- ===== src/Dilithium/Laws.antt =====
-- What the checks around Dilithium2 let through.
use hybrid_pqc_cert.Prelude.{◌≡◌, true, Slice, bytes, some, Bytes, length, arith}
use hybrid_pqc_cert.Crypto.{Crypto}
use hybrid_pqc_cert.Crypto.Laws.{IsSteady}
use hybrid_pqc_cert.Dilithium.{
  public_key_bytes, secret_key_bytes, signature_bytes, dilithium_sign, dilithium_verify,
}

-- A key pair: every message can be signed, with a signature of the fixed length that verifies.
pub record DilithiumPair (C : Crypto) (sk pk : Bytes) : Type 0 where
  pub sk_length : length sk ≡ secret_key_bytes
  pub pk_length : length pk ≡ public_key_bytes
  pub signature : Bytes → C.World → Bytes
  pub signs :
      (message : Bytes) (w : C.World)
      → (C.dilithium_ref_signature message sk w).0 ≡ some (signature message w)
  pub signature_length :
      (message : Bytes) (w : C.World) → length (signature message w) ≡ signature_bytes
  pub verifies :
      (message : Bytes) (w : C.World)
      → C.dilithium_ref_verify (signature message w) message pk ≡ true

module _ (C : Crypto) where
  pub dilithium_verify_lem :
      (pk message signature : Bytes)
      → dilithium_verify C (bytes pk) (bytes message) (bytes signature) ≡ true
      → C.dilithium_ref_verify signature message pk ≡ true
  unfolding dilithium_verify
  dilithium_verify_lem pk message signature h = ground arith

  pub dilithium_sign-length :
      (secret_key message : Slice) (w : C.World) {out : Bytes}
      → (dilithium_sign C secret_key message w).0 ≡ some out
      → length out ≡ signature_bytes
  unfolding dilithium_sign
  dilithium_sign-length secret_key message w h = ground arith

module _ (C : Crypto) (steady : IsSteady C) {sk pk : Bytes} (pair : DilithiumPair C sk pk) where
  -- The wrapper signs with the pair's secret key whatever the reference implementation signs.
  pub dilithium_sign-total :
      (message : Bytes) (w : C.World)
      → (dilithium_sign C (bytes sk) (bytes message) w).0
        ≡ some (pair.signature message (C.malloc signature_bytes w).1)
  unfolding dilithium_sign
  dilithium_sign-total message w = ground (
    arith,
    pair.sk_length,
    steady.malloc_steady signature_bytes w,
    pair.signs message (C.malloc signature_bytes w).1,
    pair.signature_length message (C.malloc signature_bytes w).1,
  )

  pub dilithium_verify-sign :
      (message : Bytes) (w : C.World)
      → dilithium_verify C (bytes pk) (bytes message) (bytes (pair.signature message w)) ≡ true
  unfolding dilithium_verify
  dilithium_verify-sign message w =
      ground (arith, pair.pk_length, pair.signature_length message w, pair.verifies message w)
