-- ===== src/CompositeSig/Complete.antt =====
-- Signing succeeds, and what it signs verifies, where libcrypto has memory and the key halves
-- belong together.
use hybrid_pqc_cert.Prelude.{
  ℕ, zero, suc, ◌+◌, ◌≤◌, ◌≡◌, refl, true, false, some, arith, ◌∷◌, ◌++◌, Bytes, Slice, null, bytes,
  length, slice_length, contents, AlwaysReturns, length-append,
}
use hybrid_pqc_cert.Crypto.{Crypto, Pkey}
use hybrid_pqc_cert.Crypto.Laws.{IsSteady}
use hybrid_pqc_cert.Dilithium.{signature_bytes, is_missing, dilithium_sign}
use hybrid_pqc_cert.Dilithium.Laws.{DilithiumPair, dilithium_sign-total, dilithium_verify-sign}
use hybrid_pqc_cert.Sm2.{hybrid_sm2_sign}
use hybrid_pqc_cert.Sm2.Laws.{Sm2Pair, signing_world, hybrid_sm2_sign-total, hybrid_sm2_verify-sign}
use hybrid_pqc_cert.CompositeKey.{HybridPrivateKey, HybridPublicKey}
use hybrid_pqc_cert.CompositeSig.{
  signature_prefix, signature_label, max_context_bytes, build_message, serialize_signature,
  sm2_signature_der_is_valid, sign, parse_signature, composite_verify, composite_verify_detailed,
}
use hybrid_pqc_cert.CompositeSig.Der.{IsCanonical, IsCanonical-der_is_valid}
use hybrid_pqc_cert.CompositeSig.Format.{parse-append}

slice_length-contents : (s : Slice) → is_missing s ≡ false → slice_length s ≡ length (contents s)
slice_length-contents (null zero) h = refl
slice_length-contents (null (suc n)) h = absurd (ground arith)
slice_length-contents (bytes b) h = refl

length-layout :
    (p l c d : Bytes) (n : ℕ)
    → length (p ++ l ++ (n ∷ c) ++ d) ≡ length p + length l + 1 + length c + length d
length-layout p l c d n =
    omega (
      arith,
      length-append (p ++ l ++ (n ∷ c)) d,
      length-append (p ++ l) (n ∷ c),
      length-append p l,
    )

module _ (C : Crypto) (steady : IsSteady C) where
  -- M' = prefix || label || len(ctx) || ctx || SM3(message)
  pub composite_message : Slice → Slice → Bytes
  composite_message message ctx =
      signature_prefix
      ++ signature_label
      ++ (slice_length ctx ∷ contents ctx)
      ++ steady.sm3 (contents message)

  pub build_message-total :
      (message ctx : Slice)
      → is_missing message ≡ false
      → is_missing ctx ≡ false
      → slice_length ctx ≤ max_context_bytes
      → AlwaysReturns (build_message C message ctx) (composite_message message ctx)
  unfolding build_message composite_message
  build_message-total message ctx m c l w = ground (
    arith,
    steady.sm3_steady (contents message) w,
    steady.sm3_length (contents message),
    steady.malloc_steady (59 + slice_length ctx + 32) (C.evp_digest_sm3 (contents message) w).1,
    slice_length-contents ctx c,
    length-layout signature_prefix signature_label (contents ctx) (steady.sm3 (contents message))
        (slice_length ctx),
  )

  pub serialize_signature-total :
      (d s : Bytes)
      → length d ≡ signature_bytes
      → IsCanonical C s
      → AlwaysReturns (serialize_signature C (bytes d) (bytes s)) (d ++ s)
  unfolding serialize_signature
  serialize_signature-total d s l c w = ground (
    arith,
    IsCanonical-der_is_valid C steady s c w,
    c.not_long,
    steady.malloc_steady (signature_bytes + length s) (sm2_signature_der_is_valid C (bytes s) w).1,
  )

-- A key pair in its two halves, whose SM2 signatures are canonical DER.
pub record KeyPair (C : Crypto) (private : HybridPrivateKey C.Key) (public : HybridPublicKey C.Key)
    : Type 0 where
  pub private_pkey : Pkey C.Key
  pub public_pkey : Pkey C.Key
  pub has_private : private.sm2_private_key ≡ some private_pkey
  pub has_public : public.sm2_public_key ≡ some public_pkey
  pub dilithium : DilithiumPair C private.dilithium_secret_key public.dilithium_public_key
  pub sm2 : Sm2Pair C private_pkey.key public_pkey.key
  pub canonical : (message : Bytes) (w : C.World) → IsCanonical C (sm2.signature message w)

module _ (C : Crypto) (steady : IsSteady C) (private : HybridPrivateKey C.Key)
    (public : HybridPublicKey C.Key) (pair : KeyPair C private public) where
  -- Both halves accept a signature made of theirs.
  verify-append :
      (message ctx : Slice) (u v : C.World)
      → is_missing message ≡ false
      → is_missing ctx ≡ false
      → slice_length ctx ≤ max_context_bytes
      → let m_prime = composite_message C steady message ctx in
        (w : C.World)
        → (composite_verify C
            (some public)
            message
            ctx
            (bytes (pair.dilithium.signature m_prime u ++ pair.sm2.signature m_prime v))
            w).0
          ≡ true
  unfolding composite_verify composite_verify_detailed
  verify-append message ctx u v m c l w =
      let m_prime = composite_message C steady message ctx in
      let d = pair.dilithium.signature m_prime u in
      let s = pair.sm2.signature m_prime v in
      let signature = bytes (d ++ s) in
      let w1 = (parse_signature C signature w).1 in
      let w2 = (build_message C message ctx w1).1 in
      ground (
        arith,
        pair.has_public,
        parse-append C steady d s (pair.dilithium.signature_length m_prime u)
            (pair.canonical m_prime v) w,
        build_message-total C steady message ctx m c l w1,
        dilithium_verify-sign C steady pair.dilithium m_prime u,
        hybrid_sm2_verify-sign C steady pair.private_pkey pair.public_pkey pair.sm2 m_prime v w2,
      )

  -- With a key pair, memory to spare and a context of at most 255 bytes, every message is signed, and
  -- every run of the verification accepts the signature.
  pub sign_verifies :
      (message ctx : Slice) (w : C.World)
      → is_missing message ≡ false
      → is_missing ctx ≡ false
      → slice_length ctx ≤ max_context_bytes
      → (signature : Bytes) × ((sign C (some private) message ctx w).0 ≡ some signature)
        × ((v : C.World)
            → (composite_verify C (some public) message ctx (bytes signature) v).0 ≡ true)
  unfolding sign
  sign_verifies message ctx w m c l =
      let m_prime = composite_message C steady message ctx in
      let w1 = (build_message C message ctx w).1 in
      let w2 = (dilithium_sign C (bytes private.dilithium_secret_key) (bytes m_prime) w1).1 in
      let w3 = (hybrid_sm2_sign C (some pair.private_pkey) (bytes m_prime) w2).1 in
      let u = (C.malloc signature_bytes w1).1 in
      let v = signing_world C steady pair.private_pkey pair.public_pkey pair.sm2 m_prime w2 in
      let d = pair.dilithium.signature m_prime u in
      let s = pair.sm2.signature m_prime v in
      (
        d ++ s,
        ground (
          arith,
          pair.has_private,
          build_message-total C steady message ctx m c l w,
          dilithium_sign-total C steady pair.dilithium m_prime w1,
          hybrid_sm2_sign-total C steady pair.private_pkey pair.public_pkey pair.sm2 m_prime w2,
          serialize_signature-total C steady d s (pair.dilithium.signature_length m_prime u)
              (pair.canonical m_prime v) w3,
        ),
        verify-append message ctx u v m c l,
      )
