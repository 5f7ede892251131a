-- ===== src/CompositeSig/Der.antt =====
-- What `sm2_signature_der_is_valid` accepts.
use hybrid_pqc_cert.Prelude.{
  null, none, refl, inl, inr, Option-cases, ℕ, ◌≤◌, ◌<◌, ◌≡◌, true, some, arith, Bytes, bytes,
  length, CanReturn, bytes_eq→eq, bytes_eq_refl, AlwaysReturns,
}
use hybrid_pqc_cert.Crypto.{Crypto, EcdsaSig}
use hybrid_pqc_cert.Crypto.Laws.{IsSteady}
use hybrid_pqc_cert.CompositeSig.{sm2_signature_der_is_valid, is_positive, long_max}

-- A complete, canonical DER signature with positive r and s.
pub record IsCanonical (C : Crypto) (der : Bytes) : Type 0 where
  pub signature : EcdsaSig
  pub decoded : CanReturn (C.d2i_ecdsa_sig der) (signature, length der)
  pub r_positive : is_positive signature.r ≡ true
  pub s_positive : is_positive signature.s ≡ true
  pub encoded : CanReturn (C.i2d_ecdsa_sig signature) der
  pub not_empty : 0 < length der
  pub not_long : length der ≤ long_max

module _ (C : Crypto) where
  pub der_is_valid-null : (n : ℕ) (w : C.World) → (sm2_signature_der_is_valid C (null n) w).0 ≡ none
  unfolding sm2_signature_der_is_valid
  der_is_valid-null n w = refl

  -- The re-encoded signature is the input.
  encoded_lem :
      (der : Bytes) (w : C.World) {signature : EcdsaSig} {consumed : ℕ}
      → (sm2_signature_der_is_valid C (bytes der) w).0 ≡ some tt
      → (C.d2i_ecdsa_sig der w).0 ≡ some (signature, consumed)
      → (C.i2d_ecdsa_sig signature (C.d2i_ecdsa_sig der w).1).0 ≡ some der
  unfolding sm2_signature_der_is_valid
  encoded_lem der w {signature} h e =
      elim (Option-cases (C.i2d_ecdsa_sig signature (C.d2i_ecdsa_sig der w).1).0) [
        | inl i ↦ absurd (ground arith)
        | inr (canonical, i) ↦ ground (arith, bytes_eq→eq canonical der)
      ]

  -- Only canonical signatures are accepted.
  pub der_is_valid-IsCanonical :
      (der : Bytes) (w : C.World)
      → (sm2_signature_der_is_valid C (bytes der) w).0 ≡ some tt
      → IsCanonical C der
  unfolding sm2_signature_der_is_valid
  der_is_valid-IsCanonical der w h = elim (Option-cases (C.d2i_ecdsa_sig der w).0) [
    | inl e ↦ absurd (ground arith)
    | inr ((signature, consumed), e) ↦ record {
      signature = signature;
      decoded = (w, ground arith);
      r_positive = ground arith;
      s_positive = ground arith;
      encoded = ((C.d2i_ecdsa_sig der w).1, encoded_lem der w h e);
      not_empty = ground arith;
      not_long = ground arith;
    }
  ]

-- Where libcrypto answers alike in every world, all canonical signatures are accepted.
module _ (C : Crypto) (steady : IsSteady C) where
  pub IsCanonical-der_is_valid :
      (der : Bytes)
      → IsCanonical C der
      → AlwaysReturns (sm2_signature_der_is_valid C (bytes der)) tt
  unfolding sm2_signature_der_is_valid
  IsCanonical-der_is_valid der c w = ground (
    arith,
    steady.d2i_steady der w c.decoded.0,
    steady.i2d_steady c.signature (C.d2i_ecdsa_sig der w).1 c.encoded.0,
    c.decoded.1,
    c.encoded.1,
    bytes_eq_refl der,
  )

  -- A signature has no second encoding: two strings that are accepted, and from which libcrypto
  -- reads the same signature, are the same string.
  pub der_unique :
      (x y : Bytes) (v w : C.World) {signature : EcdsaSig} {m n : ℕ}
      → (sm2_signature_der_is_valid C (bytes x) v).0 ≡ some tt
      → (sm2_signature_der_is_valid C (bytes y) w).0 ≡ some tt
      → (C.d2i_ecdsa_sig x v).0 ≡ some (signature, m)
      → (C.d2i_ecdsa_sig y w).0 ≡ some (signature, n)
      → x ≡ y
  der_unique x y v w {signature} h k e d = cc (
    encoded_lem C x v h e,
    encoded_lem C y w k d,
    steady.i2d_steady signature (C.d2i_ecdsa_sig x v).1 (C.d2i_ecdsa_sig y w).1,
  )
