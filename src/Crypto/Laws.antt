-- ===== src/Crypto/Laws.antt =====
-- What the theorems on success assume of libcrypto and of Dilithium: documented behaviour, with
-- memory to spare.
use hybrid_pqc_cert.Prelude.{ℕ, ◌≡◌, Bytes, length, Prog, AlwaysReturns}
use hybrid_pqc_cert.Crypto.{Crypto, EcdsaSig}

-- Two runs of a call give the same result.
abbrev pub Agree : {W A : Type 0} → Prog W A → Type 0
Agree {W} m = (v w : W) → (m v).0 ≡ (m w).0

-- Memory is to be had, contexts can be set up, and digests and DER functions answer by
-- their arguments alone.
pub record IsSteady (C : Crypto) : Type 0 where
  pub malloc_steady : (n : ℕ) → AlwaysReturns (C.malloc n) tt
  pub sm3 : Bytes → Bytes
  pub sm3_steady : (message : Bytes) → AlwaysReturns (C.evp_digest_sm3 message) (sm3 message)
  pub sm3_length : (message : Bytes) → length (sm3 message) ≡ 32
  pub d2i_steady : (der : Bytes) → Agree (C.d2i_ecdsa_sig der)
  pub i2d_steady : (signature : EcdsaSig) → Agree (C.i2d_ecdsa_sig signature)
  pub md_ctx_steady : AlwaysReturns C.evp_md_ctx_new tt
  pub sign_init_steady : (k : C.Key) → AlwaysReturns (C.evp_digest_sign_init k) tt
  pub verify_init_steady : (k : C.Key) → AlwaysReturns (C.evp_digest_verify_init k) tt
  pub set1_id_steady : (user : Bytes) → AlwaysReturns (C.evp_pkey_ctx_set1_id user) tt
