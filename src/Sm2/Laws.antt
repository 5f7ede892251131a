-- ===== src/Sm2/Laws.antt =====
-- What the SM2 wrapper does when its calls succeed.
use hybrid_pqc_cert.Prelude.{
  ℕ, ◌≡◌, true, some, bytes, Bytes, arith, CanReturn, AlwaysReturns, is_some,
}
use hybrid_pqc_cert.Crypto.{Crypto, Pkey}
use hybrid_pqc_cert.Crypto.Laws.{IsSteady}
use hybrid_pqc_cert.Sm2.{default_user_id, hybrid_sm2_sign, hybrid_sm2_verify}

-- A private and a public key that belong together: every message can be signed, and every such
-- signature verifies.
pub record Sm2Pair (C : Crypto) (private public : C.Key) : Type 0 where
  pub size : Bytes → ℕ
  pub sizes :
      (message : Bytes)
      → AlwaysReturns (C.evp_digest_sign_size private default_user_id message) (size message)
  pub signature : Bytes → C.World → Bytes
  pub signs :
      (message : Bytes) (w : C.World)
      → (C.evp_digest_sign private default_user_id message (size message) w).0
        ≡ some (signature message w)
  pub verifies :
      (message : Bytes) (w : C.World)
      → AlwaysReturns (C.evp_digest_verify public default_user_id message (signature message w)) tt

module _ (C : Crypto) where
  pub hybrid_sm2_verify_lem :
      (pkey : Pkey C.Key) (message signature : Bytes) (w : C.World)
      → is_some (hybrid_sm2_verify C (some pkey) (bytes message) (bytes signature) w).0 ≡ true
      → CanReturn (C.evp_digest_verify pkey.key default_user_id message signature) tt
  unfolding hybrid_sm2_verify
  hybrid_sm2_verify_lem pkey message signature w h = (
    (C.evp_pkey_ctx_set1_id default_user_id
        (C.evp_digest_verify_init pkey.key (C.evp_md_ctx_new w).1).1).1,
    ground arith,
  )

module _ (C : Crypto) (steady : IsSteady C) (private public : Pkey C.Key)
    (pair : Sm2Pair C private.key public.key) where
  -- The world in which the second call of EVP_DigestSign runs.
  abbrev pub signing_world : Bytes → C.World → C.World
  signing_world message w =
      (C.malloc (pair.size message)
        (C.evp_digest_sign_size private.key default_user_id message
          (C.evp_pkey_ctx_set1_id default_user_id
            (C.evp_digest_sign_init private.key (C.evp_md_ctx_new w).1).1).1).1).1

  pub hybrid_sm2_sign-total :
      (message : Bytes) (w : C.World)
      → (hybrid_sm2_sign C (some private) (bytes message) w).0
        ≡ some (pair.signature message (signing_world message w))
  unfolding hybrid_sm2_sign
  hybrid_sm2_sign-total message w =
      let w1 = (C.evp_md_ctx_new w).1 in
      let w2 = (C.evp_digest_sign_init private.key w1).1 in
      let w3 = (C.evp_pkey_ctx_set1_id default_user_id w2).1 in
      let w4 = (C.evp_digest_sign_size private.key default_user_id message w3).1 in
      ground (
        arith,
        steady.md_ctx_steady w,
        steady.sign_init_steady private.key w1,
        steady.set1_id_steady default_user_id w2,
        pair.sizes message w3,
        steady.malloc_steady (pair.size message) w4,
        pair.signs message (signing_world message w),
      )

  pub hybrid_sm2_verify-sign :
      (message : Bytes) (v : C.World)
      → AlwaysReturns
          (hybrid_sm2_verify C (some public) (bytes message) (bytes (pair.signature message v)))
          tt
  unfolding hybrid_sm2_verify
  hybrid_sm2_verify-sign message v w =
      let w1 = (C.evp_md_ctx_new w).1 in
      let w2 = (C.evp_digest_verify_init public.key w1).1 in
      let w3 = (C.evp_pkey_ctx_set1_id default_user_id w2).1 in
      ground (
        arith,
        steady.md_ctx_steady w,
        steady.verify_init_steady public.key w1,
        steady.set1_id_steady default_user_id w2,
        pair.verifies message v w3,
      )
