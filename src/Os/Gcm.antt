-- ===== src/Os/Gcm.antt =====
-- Documented behaviour of the calls of EVP on a context for AES-256-GCM, with memory to spare: what
-- each call does to the context, in the order in which the calls are allowed. A length is an int.
use hybrid_pqc_cert.Prelude.{ℕ, ◌<◌, ◌≤◌, ◌^◌, ◌≡◌, ◌≢◌, none, some, [], ◌++◌, Bytes, length, Prog}
use hybrid_pqc_cert.Crypto.{Crypto}
use hybrid_pqc_cert.Os.{Os}

pub data Direction : Type 0 where
  encrypting decrypting : Direction

-- What was put into a context: the direction and the length of the iv; key, iv and authenticated
-- bytes; the ciphertext too; the tag that is expected.
pub data Context : Type 0 where
  fresh : Context
  selected : Direction → ℕ → Context
  keyed : Direction → Bytes → Bytes → Bytes → Context
  running : Direction → Bytes → Bytes → Bytes → Bytes → Context
  ended : Bytes → Bytes → Bytes → Bytes → Context
  tagged : Bytes → Bytes → Bytes → Bytes → Bytes → Context

-- Every run of the call gives a result, of which `P` holds.
abbrev pub Gives : {W A : Type 0} → Prog W A → (A → Type 0) → Type 0
Gives {W} {A} m P = (w : W) → (a : A) × ((m w).0 ≡ some a) × P a

pub record IsGcm (C : Crypto) (O : Os C) : Type 0 where
  pub context : O.Cipher → Context
  -- The stream cipher and the tag of GCM, under a key and an iv.
  pub gctr : Bytes → Bytes → Bytes → Bytes
  pub gcm_tag : Bytes → Bytes → Bytes → Bytes → Bytes
  pub gctr_twice : (key iv b : Bytes) → gctr key iv (gctr key iv b) ≡ b
  pub gctr_length : (key iv b : Bytes) → length (gctr key iv b) ≡ length b
  pub gcm_tag_length : (key iv aad b : Bytes) → length (gcm_tag key iv aad b) ≡ 16
  pub new : Gives O.cipher_ctx_new (λ c. context c ≡ fresh)
  -- The default length of the iv is 12.
  pub selects_encrypt :
      (c : O.Cipher)
      → context c ≡ fresh
      → Gives (O.encrypt_init c) (λ d. context d ≡ selected encrypting 12)
  pub selects_decrypt :
      (c : O.Cipher)
      → context c ≡ fresh
      → Gives (O.decrypt_init c) (λ d. context d ≡ selected decrypting 12)
  pub sizes :
      (n : ℕ) (c : O.Cipher) (way : Direction) (m : ℕ)
      → 0 < n
      → n ≤ 16
      → context c ≡ selected way m
      → Gives (O.gcm_set_ivlen n c) (λ d. context d ≡ selected way n)
  -- The key has 32 bytes, and as many bytes of the iv are read as its length says.
  pub keys_encrypt :
      (key iv : Bytes) (c : O.Cipher)
      → length key ≡ 32
      → context c ≡ selected encrypting (length iv)
      → Gives (O.encrypt_init_key key iv c) (λ d. context d ≡ keyed encrypting key iv [])
  pub keys_decrypt :
      (key iv : Bytes) (c : O.Cipher)
      → length key ≡ 32
      → context c ≡ selected decrypting (length iv)
      → Gives (O.decrypt_init_key key iv c) (λ d. context d ≡ keyed decrypting key iv [])
  pub authenticates_encrypt :
      (b : Bytes) (c : O.Cipher) {key iv aad : Bytes}
      → length b < 2 ^ 31
      → context c ≡ keyed encrypting key iv aad
      → Gives (O.encrypt_update_aad b c) (λ d. context d ≡ keyed encrypting key iv (aad ++ b))
  pub authenticates_decrypt :
      (b : Bytes) (c : O.Cipher) {key iv aad : Bytes}
      → length b < 2 ^ 31
      → context c ≡ keyed decrypting key iv aad
      → Gives (O.decrypt_update_aad b c) (λ d. context d ≡ keyed decrypting key iv (aad ++ b))
  -- GCM holds no bytes back.
  pub encrypts :
      (b : Bytes) (c : O.Cipher) {key iv aad : Bytes}
      → length b < 2 ^ 31
      → context c ≡ keyed encrypting key iv aad
      → Gives (O.encrypt_update b c) (λ d.
        (d.1 ≡ gctr key iv b) × (context d.0 ≡ running encrypting key iv aad (gctr key iv b)))
  pub decrypts :
      (b : Bytes) (c : O.Cipher) {key iv aad : Bytes}
      → length b < 2 ^ 31
      → context c ≡ keyed decrypting key iv aad
      → Gives
          (O.decrypt_update b c)
          (λ d. (d.1 ≡ gctr key iv b) × (context d.0 ≡ running decrypting key iv aad b))
  pub ends_encrypt :
      (c : O.Cipher) {key iv aad b : Bytes}
      → context c ≡ running encrypting key iv aad b
      → Gives (O.encrypt_final c) (λ d. (d.1 ≡ []) × (context d.0 ≡ ended key iv aad b))
  pub tags :
      (c : O.Cipher) {key iv aad b : Bytes}
      → context c ≡ ended key iv aad b
      → Gives (O.gcm_get_tag 16 c) (λ t. t ≡ gcm_tag key iv aad b)
  pub expects :
      (tag : Bytes) (c : O.Cipher) {key iv aad b : Bytes}
      → length tag ≡ 16
      → context c ≡ running decrypting key iv aad b
      → Gives (O.gcm_set_tag tag c) (λ d. context d ≡ tagged key iv aad b tag)
  -- Decryption ends well with the right tag, and with no other.
  pub accepts :
      (c : O.Cipher) {key iv aad b : Bytes}
      → context c ≡ tagged key iv aad b (gcm_tag key iv aad b)
      → Gives (O.decrypt_final c) (λ d. d.1 ≡ [])
  pub rejects :
      (c : O.Cipher) {key iv aad b tag : Bytes} (w : C.World)
      → context c ≡ tagged key iv aad b tag
      → tag ≢ gcm_tag key iv aad b
      → (O.decrypt_final c w).0 ≡ none
