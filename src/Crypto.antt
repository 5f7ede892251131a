-- ===== src/Crypto.antt =====
-- The code that the program calls and does not contain: libcrypto's digest, SM2, DER and memory
-- functions and the Dilithium2 reference implementation. They are fields of a record that every
-- definition takes as a parameter. A call may fail whenever it likes and may change the world.
pub mod Laws
use hybrid_pqc_cert.Prelude.{ℕ, Bool, Option, Bytes, Prog}

-- An EVP_PKEY pointer: the object's address, and what the object holds.
pub record Pkey (K : Type 0) : Type 0 where
  pub address : ℕ
  pub key : K

-- A BIGNUM.
pub record BigNum : Type 0 where
  pub is_negative : Bool
  pub magnitude : ℕ

-- What ECDSA_SIG_get0 gives of an ECDSA_SIG.
pub record EcdsaSig : Type 0 where
  pub r : Option BigNum
  pub s : Option BigNum

pub record Crypto : Type 1 where
  -- The heap, the entropy source and the provider's state.
  pub World : Type 0
  -- The content of an EVP_PKEY.
  pub Key : Type 0
  -- `malloc` and `OPENSSL_malloc` of so many bytes.
  pub malloc : ℕ → Prog World (Unit {0})
  -- `EVP_Digest` with `EVP_sm3()` and with `EVP_sha256()`: the digest.
  pub evp_digest_sm3 : Bytes → Prog World Bytes
  pub evp_digest_sha256 : Bytes → Prog World Bytes
  -- The signature read, and how far the cursor went.
  pub d2i_ecdsa_sig : Bytes → Prog World (EcdsaSig × ℕ)
  pub i2d_ecdsa_sig : EcdsaSig → Prog World Bytes
  -- `pqcrystals_dilithium2_ref_keypair`: public key and secret key.
  pub dilithium_ref_keypair : Prog World (Bytes × Bytes)
  -- `pqcrystals_dilithium2_ref_signature` of a message under a secret key.
  pub dilithium_ref_signature : Bytes → Bytes → Prog World Bytes
  -- `pqcrystals_dilithium2_ref_verify(...) == 0` of signature, message and public key.
  pub dilithium_ref_verify : Bytes → Bytes → Bytes → Bool
  -- `EVP_PKEY_CTX_new_from_name(NULL, "SM2", NULL)`, and from a key.
  pub evp_pkey_ctx_new_from_name : Prog World (Unit {0})
  pub evp_pkey_ctx_new_from_pkey : Key → Prog World (Unit {0})
  pub evp_pkey_keygen_init : Prog World (Unit {0})
  pub evp_pkey_generate : Prog World (Pkey Key)
  -- `EVP_PKEY_fromdata` with the group SM2 and these public-key octets.
  pub evp_pkey_fromdata_init : Prog World (Unit {0})
  pub evp_pkey_fromdata : Bytes → Prog World (Pkey Key)
  pub evp_pkey_public_check : Key → Prog World (Unit {0})
  pub evp_pkey_up_ref : Pkey Key → Prog World (Unit {0})
  -- `EVP_PKEY_is_a(key, "SM2")`.
  pub evp_pkey_is_sm2 : Key → Bool
  -- `EVP_PKEY_get_octet_string_param` of the public key into a buffer of so many bytes.
  pub evp_pkey_get_public_octets : Key → ℕ → Prog World Bytes
  pub evp_md_ctx_new : Prog World (Unit {0})
  -- `EVP_DigestSignInit_ex` and `EVP_DigestVerifyInit_ex` with "SM3".
  pub evp_digest_sign_init : Key → Prog World (Unit {0})
  pub evp_digest_verify_init : Key → Prog World (Unit {0})
  pub evp_pkey_ctx_set1_id : Bytes → Prog World (Unit {0})
  -- `EVP_DigestSign` of key, user id and message: first the size, then the signature.
  pub evp_digest_sign_size : Key → Bytes → Bytes → Prog World ℕ
  pub evp_digest_sign : Key → Bytes → Bytes → ℕ → Prog World Bytes
  -- `EVP_DigestVerify(...) == 1` of key, user id, message and signature.
  pub evp_digest_verify : Key → Bytes → Bytes → Bytes → Prog World (Unit {0})
