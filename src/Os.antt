-- ===== src/Os.antt =====
-- The code behind the key store that the program calls and does not contain: file calls, PEM files,
-- random bytes, PBKDF2 and AES-256-GCM. They are fields of a record like those of Crypto, and change
-- the same world.
pub mod Laws
pub mod Gcm
use hybrid_pqc_cert.Prelude.{ℕ, Bool, true, false, Option, Bytes, Prog}
use hybrid_pqc_cert.Crypto.{Crypto, Pkey}

-- A call that looks a path up: errno is ENOENT, or another error, or there is a result.
pub data Found (A : Type 0) : Type 0 where
  found : A → Found A
  absent failed : Found A

abbrev pub is_found : {A : Type 0} → Found A → Bool
is_found (found a) = true
is_found absent = false
is_found failed = false

-- The fields of a struct stat that the program reads: S_ISDIR, S_ISREG and S_ISLNK of the mode, and
-- the nine permission bits of it.
pub record Stat : Type 0 where
  pub is_directory : Bool
  pub is_regular : Bool
  pub is_link : Bool
  pub permissions : ℕ
  pub size : ℕ

pub record Os (C : Crypto) : Type 1 where
  -- A file descriptor, a FILE, and an EVP_CIPHER_CTX with what was put into it.
  pub Descriptor : Type 0
  pub Stream : Type 0
  pub Cipher : Type 0
  pub lstat : Bytes → C.World → Found Stat × C.World
  -- `access(path, F_OK)`.
  pub access : Bytes → C.World → Found (Unit {0}) × C.World
  -- `mkdir(path, 0700)`.
  pub mkdir : Bytes → Prog C.World (Unit {0})
  -- `open` with O_WRONLY | O_CREAT | O_EXCL | O_NOFOLLOW and mode 0600, and with O_RDONLY |
  -- O_NOFOLLOW.
  pub open_new : Bytes → Prog C.World Descriptor
  pub open_read : Bytes → Prog C.World Descriptor
  -- `write` of a buffer: how many bytes, 0 for an error too. `read` of at most so many bytes: none
  -- for an error too.
  pub write : Descriptor → Bytes → C.World → ℕ × C.World
  pub read : Descriptor → ℕ → C.World → Bytes × C.World
  pub fsync : Descriptor → Prog C.World (Unit {0})
  pub close : Descriptor → Prog C.World (Unit {0})
  pub unlink : Bytes → C.World → C.World
  -- `fdopen(descriptor, "wb")` and `fopen(path, "rb")`.
  pub fdopen : Descriptor → Prog C.World Stream
  pub fopen : Bytes → Prog C.World Stream
  pub fflush : Stream → Prog C.World (Unit {0})
  -- `fsync(fileno(stream))`.
  pub fsync_stream : Stream → Prog C.World (Unit {0})
  pub fclose : Stream → Prog C.World (Unit {0})
  -- PEM_write_PKCS8PrivateKey with AES-256-CBC under a passphrase.
  pub pem_write_private_key : Stream → C.Key → Bytes → Prog C.World (Unit {0})
  -- PEM_read_PrivateKey with a callback, which gets whether there is a buffer and its size.
  pub pem_read_private_key : Stream → (Bool → ℕ → Bytes) → Prog C.World (Pkey C.Key)
  pub evp_pkey_private_check : C.Key → Prog C.World (Unit {0})
  pub rand_bytes : ℕ → Prog C.World Bytes
  -- PKCS5_PBKDF2_HMAC with SHA-256 of passphrase, salt and iterations: a key of 32 bytes.
  pub pbkdf2 : Bytes → Bytes → ℕ → Prog C.World Bytes
  pub cipher_ctx_new : Prog C.World Cipher
  -- EVP_EncryptInit_ex and EVP_DecryptInit_ex, first with EVP_aes_256_gcm() and then with a key and
  -- an iv, and the control EVP_CTRL_GCM_SET_IVLEN.
  pub encrypt_init : Cipher → Prog C.World Cipher
  pub decrypt_init : Cipher → Prog C.World Cipher
  pub gcm_set_ivlen : ℕ → Cipher → Prog C.World Cipher
  pub encrypt_init_key : Bytes → Bytes → Cipher → Prog C.World Cipher
  pub decrypt_init_key : Bytes → Bytes → Cipher → Prog C.World Cipher
  -- EVP_EncryptUpdate and EVP_DecryptUpdate, of bytes to authenticate, and of a text.
  pub encrypt_update_aad : Bytes → Cipher → Prog C.World Cipher
  pub decrypt_update_aad : Bytes → Cipher → Prog C.World Cipher
  pub encrypt_update : Bytes → Cipher → Prog C.World (Cipher × Bytes)
  pub decrypt_update : Bytes → Cipher → Prog C.World (Cipher × Bytes)
  -- EVP_EncryptFinal_ex and EVP_DecryptFinal_ex: what is left of the text.
  pub encrypt_final : Cipher → Prog C.World (Cipher × Bytes)
  pub decrypt_final : Cipher → Prog C.World (Cipher × Bytes)
  pub gcm_get_tag : ℕ → Cipher → Prog C.World Bytes
  pub gcm_set_tag : Bytes → Cipher → Prog C.World Cipher
