-- ===== src/Sm2.antt =====
-- src/sm2_wrapper.c: SM2 key generation, signing and verifying through EVP, with SM3 and the
-- default user id.
pub mod Laws
use hybrid_pqc_cert.Prelude.{
  ℕ, not, Option, Bytes, Slice, codes, contents, Prog, ◌>>=◌, ◌>>◌, pure, guard, from_option,
  present,
}
use hybrid_pqc_cert.Crypto.{Crypto, Pkey}
use hybrid_pqc_cert.Dilithium.{is_missing}

-- SM2_DEFAULT_USER_ID
abbrev pub default_user_id : Bytes
default_user_id = codes "1234567812345678"

module _ (C : Crypto) where
  open C use {World, Key}

  unfoldable pub hybrid_sm2_generate_keypair : Prog World (Pkey Key)
  hybrid_sm2_generate_keypair = do
    C.evp_pkey_ctx_new_from_name
    C.evp_pkey_keygen_init
    C.evp_pkey_generate

  unfoldable pub hybrid_sm2_sign : Option (Pkey Key) → Slice → Prog World Bytes
  hybrid_sm2_sign private_key message = do
    pkey ← from_option private_key
    guard (not (is_missing message))
    C.evp_md_ctx_new
    C.evp_digest_sign_init pkey.key
    C.evp_pkey_ctx_set1_id default_user_id
    size ← C.evp_digest_sign_size pkey.key default_user_id (contents message)
    C.malloc size
    output ← C.evp_digest_sign pkey.key default_user_id (contents message) size
    pure output

  -- Success is the return value 1.
  unfoldable pub hybrid_sm2_verify : Option (Pkey Key) → Slice → Slice → Prog World (Unit {0})
  hybrid_sm2_verify public_key message signature = do
    pkey ← from_option public_key
    sig ← present signature
    guard (not (is_missing message))
    C.evp_md_ctx_new
    C.evp_digest_verify_init pkey.key
    C.evp_pkey_ctx_set1_id default_user_id
    C.evp_digest_verify pkey.key default_user_id (contents message) sig
