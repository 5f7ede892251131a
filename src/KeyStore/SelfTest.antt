-- ===== src/KeyStore/SelfTest.antt =====
-- Signing, verifying and the self-test of a key pair change no file.
use hybrid_pqc_cert.Prelude.{Option, some, Bytes, Slice, bytes, arith, Option-cases, inl, inr}
use hybrid_pqc_cert.Dilithium.{dilithium_sign}
use hybrid_pqc_cert.Sm2.{hybrid_sm2_sign, hybrid_sm2_verify}
use hybrid_pqc_cert.CompositeKey.{HybridPrivateKey, HybridPublicKey}
use hybrid_pqc_cert.CompositeSig.{
  sm2_signature_der_is_valid, build_message, serialize_signature, parse_signature, sign,
  composite_verify, composite_verify_detailed, parse_inputs, check_components,
}
use hybrid_pqc_cert.Crypto.{Crypto, Pkey}
use hybrid_pqc_cert.Os.{Os}
use hybrid_pqc_cert.Os.Laws.{KeepsAt, IsFileSystem}
use hybrid_pqc_cert.KeyStore.Save.{keypair_self_test}
use hybrid_pqc_cert.KeyStore.Keeps.{keeping, keeps_present}

module _ (C : Crypto) (O : Os C) (fs : IsFileSystem C O) (p : Bytes) where
  sm2_sign_keeps :
      (k : Option (Pkey C.Key)) (message : Slice)
      → KeepsAt fs.present p (hybrid_sm2_sign C k message)
  unfolding hybrid_sm2_sign
  sm2_sign_keeps k message =
      search
        (
          keeping, fs.crypto.keeps_md_ctx, fs.crypto.keeps_sign_init, fs.crypto.keeps_set1_id,
          fs.crypto.keeps_sign_size, fs.crypto.keeps_malloc, fs.crypto.keeps_sign,
        )
        depth 20

  sm2_verify_keeps :
      (k : Option (Pkey C.Key)) (message signature : Slice)
      → KeepsAt fs.present p (hybrid_sm2_verify C k message signature)
  unfolding hybrid_sm2_verify
  sm2_verify_keeps k message signature =
      search
        (
          keeping, keeps_present, fs.crypto.keeps_md_ctx, fs.crypto.keeps_verify_init,
          fs.crypto.keeps_set1_id, fs.crypto.keeps_verify,
        )
        depth 20

  dilithium_sign_keeps : (sk message : Slice) → KeepsAt fs.present p (dilithium_sign C sk message)
  unfolding dilithium_sign
  dilithium_sign_keeps sk message =
      search (keeping, keeps_present, fs.crypto.keeps_malloc, fs.crypto.keeps_dilithium) depth 20

  der_keeps : (der : Slice) → KeepsAt fs.present p (sm2_signature_der_is_valid C der)
  unfolding sm2_signature_der_is_valid
  der_keeps der = search (keeping, keeps_present, fs.crypto.keeps_d2i, fs.crypto.keeps_i2d) depth 20

  build_keeps : (message ctx : Slice) → KeepsAt fs.present p (build_message C message ctx)
  unfolding build_message
  build_keeps message ctx = search (keeping, fs.crypto.keeps_sm3, fs.crypto.keeps_malloc) depth 20

  serialize_keeps : (d s : Slice) → KeepsAt fs.present p (serialize_signature C d s)
  unfolding serialize_signature
  serialize_keeps d s = search (keeping, keeps_present, der_keeps, fs.crypto.keeps_malloc) depth 20

  parse_keeps : (s : Slice) → KeepsAt fs.present p (parse_signature C s)
  unfolding parse_signature
  parse_keeps s = search (keeping, keeps_present, der_keeps) depth 20

  sign_keeps :
      (k : Option (HybridPrivateKey C.Key)) (message ctx : Slice)
      → KeepsAt fs.present p (sign C k message ctx)
  unfolding sign
  sign_keeps k message ctx =
      search (keeping, build_keeps, dilithium_sign_keeps, sm2_sign_keeps, serialize_keeps) depth 20

  inputs_keep :
      (k : Option (HybridPublicKey C.Key)) (signature : Slice)
      → KeepsAt fs.present p (parse_inputs C k signature)
  unfolding parse_inputs
  inputs_keep k signature = search (keeping, parse_keeps) depth 20

  components_keep :
      (k : HybridPublicKey C.Key) (pkey : Pkey C.Key) (d s m : Bytes)
      → KeepsAt fs.present p (check_components C k pkey d s m)
  unfolding check_components
  components_keep k pkey d s m = record {
    same = (sm2_verify_keeps (some pkey) (bytes m) (bytes s)).same;
  }

  verify_keeps :
      (k : Option (HybridPublicKey C.Key)) (message ctx signature : Slice)
      → KeepsAt fs.present p (composite_verify C k message ctx signature)
  unfolding composite_verify composite_verify_detailed
  verify_keeps k message ctx signature = record {
    same = λ w.
        let parsed = parse_inputs C k signature w in
        let built = build_message C message ctx parsed.1 in
        let i = (inputs_keep k signature).same w in
        let b = (build_keeps message ctx).same parsed.1 in
        elim (Option-cases parsed.0) [
          | inl e ↦ ground (arith, i)
          | inr ((q, pkey, d, s), e) ↦ elim (Option-cases built.0) [
            | inl f ↦ ground (arith, i, b)
            | inr (m, f) ↦ ground (arith, i, b, (components_keep q pkey d s m).same built.1)
          ]
        ];
  }

  pub self_test_keeps :
      (private_key : HybridPrivateKey C.Key) (public_key : HybridPublicKey C.Key)
      → KeepsAt fs.present p (keypair_self_test C O private_key public_key)
  unfolding keypair_self_test
  self_test_keeps private_key public_key = search (keeping, sign_keeps, verify_keeps) depth 20
