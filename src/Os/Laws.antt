-- ===== src/Os/Laws.antt =====
-- Documented behaviour of the file calls on what stands at a path: only `open` with O_CREAT and
-- `unlink` change it for an ordinary file.
use hybrid_pqc_cert.Prelude.{ℕ, ◌≡◌, ◌≢◌, Bool, true, false, some, none, Bytes}
use hybrid_pqc_cert.Crypto.{Crypto, EcdsaSig}
use hybrid_pqc_cert.Os.{Os, is_found}

-- A call after which a path is there if it was there before; the same for every path.
pub record KeepsAt {W A : Type 0} (present : W → Bytes → Bool) (p : Bytes) (m : W → A × W)
    : Type 0 where
  pub same : (w : W) → present (m w).1 p ≡ present w p

abbrev pub Keeps : {W A : Type 0} → (W → Bytes → Bool) → (W → A × W) → Type 0
Keeps present m = (p : Bytes) → KeepsAt present p m

-- The calls of libcrypto and Dilithium change no file.
pub record KeepsFiles (C : Crypto) (present : C.World → Bytes → Bool) : Type 0 where
  pub keeps_malloc : (n : ℕ) → Keeps present (C.malloc n)
  pub keeps_sm3 : (b : Bytes) → Keeps present (C.evp_digest_sm3 b)
  pub keeps_d2i : (b : Bytes) → Keeps present (C.d2i_ecdsa_sig b)
  pub keeps_i2d : (s : EcdsaSig) → Keeps present (C.i2d_ecdsa_sig s)
  pub keeps_dilithium : (m sk : Bytes) → Keeps present (C.dilithium_ref_signature m sk)
  pub keeps_md_ctx : Keeps present C.evp_md_ctx_new
  pub keeps_sign_init : (k : C.Key) → Keeps present (C.evp_digest_sign_init k)
  pub keeps_verify_init : (k : C.Key) → Keeps present (C.evp_digest_verify_init k)
  pub keeps_set1_id : (b : Bytes) → Keeps present (C.evp_pkey_ctx_set1_id b)
  pub keeps_sign_size : (k : C.Key) (u m : Bytes) → Keeps present (C.evp_digest_sign_size k u m)
  pub keeps_sign : (k : C.Key) (u m : Bytes) (n : ℕ) → Keeps present (C.evp_digest_sign k u m n)
  pub keeps_verify : (k : C.Key) (u m s : Bytes) → Keeps present (C.evp_digest_verify k u m s)

-- A file system without other users.
pub record IsFileSystem (C : Crypto) (O : Os C) : Type 0 where
  pub present : C.World → Bytes → Bool
  pub access_tells : (p : Bytes) (w : C.World) → is_found (O.access p w).0 ≡ present w p
  -- O_EXCL creates a file that was not there, or nothing.
  pub open_new_fails :
      (p : Bytes) (w : C.World)
      → (O.open_new p w).0 ≡ none
      → (q : Bytes) → present (O.open_new p w).1 q ≡ present w q
  pub open_new_creates :
      (p : Bytes) (w : C.World) {fd : O.Descriptor}
      → (O.open_new p w).0 ≡ some fd
      → (present w p ≡ false) × (present (O.open_new p w).1 p ≡ true)
  pub open_new_keeps : (p q : Bytes) → p ≢ q → KeepsAt present q (O.open_new p)
  pub unlink_keeps : (p q : Bytes) (w : C.World) → p ≢ q → present (O.unlink p w) q ≡ present w q
  pub crypto : KeepsFiles C present
  pub mkdir_keeps : (p q : Bytes) → p ≢ q → KeepsAt present q (O.mkdir p)
  pub keeps_lstat : (p : Bytes) → Keeps present (O.lstat p)
  pub keeps_access : (p : Bytes) → Keeps present (O.access p)
  pub keeps_write : (fd : O.Descriptor) (b : Bytes) → Keeps present (O.write fd b)
  pub keeps_fsync : (fd : O.Descriptor) → Keeps present (O.fsync fd)
  pub keeps_close : (fd : O.Descriptor) → Keeps present (O.close fd)
  pub keeps_fdopen : (fd : O.Descriptor) → Keeps present (O.fdopen fd)
  pub keeps_fflush : (f : O.Stream) → Keeps present (O.fflush f)
  pub keeps_fsync_stream : (f : O.Stream) → Keeps present (O.fsync_stream f)
  pub keeps_fclose : (f : O.Stream) → Keeps present (O.fclose f)
  pub keeps_pem_write :
      (f : O.Stream) (k : C.Key) (b : Bytes) → Keeps present (O.pem_write_private_key f k b)
  pub keeps_rand : (n : ℕ) → Keeps present (O.rand_bytes n)
  pub keeps_pbkdf2 : (t s : Bytes) (n : ℕ) → Keeps present (O.pbkdf2 t s n)
  pub keeps_cipher_new : Keeps present O.cipher_ctx_new
  pub keeps_encrypt_init : (c : O.Cipher) → Keeps present (O.encrypt_init c)
  pub keeps_ivlen : (n : ℕ) (c : O.Cipher) → Keeps present (O.gcm_set_ivlen n c)
  pub keeps_init_key : (k i : Bytes) (c : O.Cipher) → Keeps present (O.encrypt_init_key k i c)
  pub keeps_aad : (b : Bytes) (c : O.Cipher) → Keeps present (O.encrypt_update_aad b c)
  pub keeps_update : (b : Bytes) (c : O.Cipher) → Keeps present (O.encrypt_update b c)
  pub keeps_final : (c : O.Cipher) → Keeps present (O.encrypt_final c)
  pub keeps_tag : (n : ℕ) (c : O.Cipher) → Keeps present (O.gcm_get_tag n c)

-- The file at a path can be removed: `unlink`, whose result the program ignores, does not fail.
abbrev pub Removes : (C : Crypto) (O : Os C) → IsFileSystem C O → Bytes → Type 0
Removes C O fs p = (w : C.World) → fs.present (O.unlink p w) p ≡ false
