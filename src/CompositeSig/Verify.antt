-- ===== src/CompositeSig/Verify.antt =====
-- What a successful verification means, and the report on every branch.
use hybrid_pqc_cert.Prelude.{
  Option, is_some, ◌≡◌, true, ◌&&◌, some, arith, ◌++◌, Bytes, Slice, bytes, length, CanReturn,
  Option-cases, inl, inr,
}
use hybrid_pqc_cert.Crypto.{Crypto, Pkey}
use hybrid_pqc_cert.Sm2.{default_user_id, hybrid_sm2_verify}
use hybrid_pqc_cert.Dilithium.{signature_bytes, dilithium_verify}
use hybrid_pqc_cert.Dilithium.Laws.{dilithium_verify_lem}
use hybrid_pqc_cert.Sm2.Laws.{hybrid_sm2_verify_lem}
use hybrid_pqc_cert.CompositeKey.{HybridPublicKey}
use hybrid_pqc_cert.CompositeSig.{
  VerifyResult, build_message, parse_signature, parse_inputs, composite_verify_detailed,
  composite_verify,
}
use hybrid_pqc_cert.CompositeSig.Der.{IsCanonical}
use hybrid_pqc_cert.CompositeSig.Format.{parse_signature_layout}

-- A report whose parts fit: the verdict is the conjunction, and no component is valid without the
-- format.
pub record IsConsistent (r : VerifyResult) : Type 0 where
  pub both : r.composite_valid ≡ (r.dilithium_valid && r.sm2_valid)
  pub dilithium_parsed : r.dilithium_valid ≡ (r.format_valid && r.dilithium_valid)
  pub sm2_parsed : r.sm2_valid ≡ (r.format_valid && r.sm2_valid)

-- Evidence that a signature verifies: two parts, both accepted over one composite message.
pub record Verified (C : Crypto) (public_key : HybridPublicKey C.Key) (message ctx : Slice)
    (signature : Slice) : Type 0 where
  pub sm2_public_key : Pkey C.Key
  pub m_prime : Bytes
  pub dilithium : Bytes
  pub sm2 : Bytes
  pub has_sm2 : public_key.sm2_public_key ≡ some sm2_public_key
  pub built : CanReturn (build_message C message ctx) m_prime
  pub split : signature ≡ bytes (dilithium ++ sm2)
  pub dilithium_length : length dilithium ≡ signature_bytes
  pub canonical : IsCanonical C sm2
  pub dilithium_accepts :
      C.dilithium_ref_verify dilithium m_prime public_key.dilithium_public_key ≡ true
  pub sm2_accepts :
      CanReturn (C.evp_digest_verify sm2_public_key.key default_user_id m_prime sm2) tt

module _ (C : Crypto) where
  -- Whatever the input, the verdict is the conjunction of the two component verdicts, and a component
  -- is valid only where the format is.
  pub verify_detailed-IsConsistent :
      (key : Option (HybridPublicKey C.Key)) (message ctx signature : Slice) (w : C.World)
      → IsConsistent (composite_verify_detailed C key message ctx signature w).0
  unfolding composite_verify_detailed
  verify_detailed-IsConsistent key message ctx signature w = ground arith

  parse_inputs_lem :
      (key : Option (HybridPublicKey C.Key)) (signature : Slice) (w : C.World)
      {public_key : HybridPublicKey C.Key} {pkey : Pkey C.Key} {d s : Bytes}
      → (parse_inputs C key signature w).0 ≡ some (public_key, pkey, d, s)
      → (key ≡ some public_key)
        × (public_key.sm2_public_key ≡ some pkey)
        × ((parse_signature C signature w).0 ≡ some (d, s))
  unfolding parse_inputs
  parse_inputs_lem key signature w h = ground arith

  -- The runs of the two calls that precede the component checks, when the verdict is positive.
  verify_stages :
      (key : Option (HybridPublicKey C.Key)) (message ctx signature : Slice) (w : C.World)
      → (composite_verify_detailed C key message ctx signature w).0.composite_valid ≡ true
      → (public_key : HybridPublicKey C.Key) × (pkey : Pkey C.Key) × (d : Bytes) × (s : Bytes)
        × (m_prime : Bytes) × (v : C.World) × ((parse_inputs C key signature w).0
            ≡ some (public_key, pkey, d, s))
        × CanReturn (build_message C message ctx) m_prime
        × (dilithium_verify C (bytes public_key.dilithium_public_key) (bytes m_prime) (bytes d)
            ≡ true)
        × (is_some (hybrid_sm2_verify C (some pkey) (bytes m_prime) (bytes s) v).0 ≡ true)
  unfolding composite_verify_detailed
  verify_stages key message ctx signature w h =
      elim (Option-cases (parse_inputs C key signature w).0) [
        | inl e ↦ absurd (ground arith)
        | inr ((public_key, pkey, d, s), e) ↦
            elim (Option-cases (build_message C message ctx (parse_inputs C key signature w).1).0) [
              | inl b ↦ absurd (ground arith)
              | inr (m_prime, b) ↦ (
                public_key,
                pkey,
                d,
                s,
                m_prime,
                (build_message C message ctx (parse_inputs C key signature w).1).1,
                e,
                ((parse_inputs C key signature w).1, b),
                ground arith,
                ground arith,
              )
            ]
      ]

  verify_key-Verified :
      (key : Option (HybridPublicKey C.Key)) (message ctx signature : Slice) (w : C.World)
      → (composite_verify_detailed C key message ctx signature w).0.composite_valid ≡ true
      → (public_key : HybridPublicKey C.Key) × (key ≡ some public_key)
        × Verified C public_key message ctx signature
  verify_key-Verified key message ctx signature w h =
      let (public_key, pkey, d, s, m_prime, v, p, b, dv, sv) =
        verify_stages key message ctx signature w h in
      let (e, k, q) = parse_inputs_lem key signature w p in
      let (f, l, c) = parse_signature_layout C signature w q in
      (
        public_key,
        e,
        record {
          sm2_public_key = pkey;
          m_prime = m_prime;
          dilithium = d;
          sm2 = s;
          has_sm2 = k;
          built = b;
          split = f;
          dilithium_length = l;
          canonical = c;
          dilithium_accepts = dilithium_verify_lem C public_key.dilithium_public_key m_prime d dv;
          sm2_accepts = hybrid_sm2_verify_lem C pkey m_prime s v sv;
        },
      )

  pub verify_detailed-Verified :
      (key : HybridPublicKey C.Key) (message ctx signature : Slice) (w : C.World)
      → (composite_verify_detailed C (some key) message ctx signature w).0.composite_valid ≡ true
      → Verified C key message ctx signature
  verify_detailed-Verified key message ctx signature w h =
      let (public_key, e, v) = verify_key-Verified (some key) message ctx signature w h in
      let same : key ≡ public_key = ground arith in rw same v

  -- A signature that `composite_verify` accepts is a Dilithium2 signature followed by a canonical
  -- SM2 signature, and each component accepts its part over the same composite message. Neither
  -- component can be left out.
  pub composite_verify-Verified :
      (key : Option (HybridPublicKey C.Key)) (message ctx signature : Slice) (w : C.World)
      → (composite_verify C key message ctx signature w).0 ≡ true
      → (public_key : HybridPublicKey C.Key) × (key ≡ some public_key)
        × Verified C public_key message ctx signature
  unfolding composite_verify
  composite_verify-Verified key message ctx signature w h =
      verify_key-Verified key message ctx signature w h
