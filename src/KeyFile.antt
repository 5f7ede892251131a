-- ===== src/KeyFile.antt =====
-- src/hybrid_key_store.c: the encrypted file of the Dilithium2 key, and the loops that write and
-- read it.
pub mod Gcm
pub mod Laws
pub mod Authentic
pub mod Loops
use Prim.Native.Nat.{◌/◌, ◌*◌}
use mathlib.Core.Option
use hybrid_pqc_cert.Prelude.{
  ℕ, zero, suc, ◌+◌, ◌-◌, ◌%◌, ◌^◌, Bool, true, false, ◌&&◌, Option, none, some, [], ◌∷◌, ◌++◌,
  Bytes, codes, length, take, drop, bytes_eq, leb, ◌==◌, if◌then◌else◌, Prog, ◌>>=◌, ◌>>◌, pure,
  guard, from_option,
}
use hybrid_pqc_cert.Crypto.{Crypto}
use hybrid_pqc_cert.Os.{Os}
use hybrid_pqc_cert.Dilithium.{public_key_bytes, secret_key_bytes}

abbrev pub store_magic : Bytes
store_magic = codes "HPQCDK01"

abbrev pub plaintext_magic : Bytes
plaintext_magic = codes "DIL2K001"

abbrev pub store_iterations : ℕ
store_iterations = 200000

abbrev pub store_header_bytes : ℕ
store_header_bytes = 8 + 4 + 16 + 12 + 4

abbrev pub store_plaintext_bytes : ℕ
store_plaintext_bytes = 8 + public_key_bytes + secret_key_bytes

abbrev pub store_file_bytes : ℕ
store_file_bytes = store_header_bytes + store_plaintext_bytes + 16

-- INT_MAX
abbrev pub int_max : ℕ
int_max = 2 ^ 31 - 1

abbrev pub passphrase_valid : Option Bytes → Bool
passphrase_valid none = false
passphrase_valid (some text) = leb 12 (length text) && leb (length text) int_max

abbrev pub put_u32_be : ℕ → Bytes
put_u32_be value =
    (value / 2 ^ 24) % 256 ∷ (value / 2 ^ 16) % 256 ∷ (value / 2 ^ 8) % 256 ∷ value % 256 ∷ []

-- The bytes do not overlap, so `|` is a sum. There are four of them.
abbrev pub get_u32_be : Bytes → ℕ
get_u32_be (a ∷ b ∷ c ∷ d ∷ rest) = (a * 2 ^ 24 + b * 2 ^ 16 + c * 2 ^ 8 + d) % 2 ^ 32
get_u32_be [] = 0
get_u32_be (a ∷ []) = 0
get_u32_be (a ∷ b ∷ []) = 0
get_u32_be (a ∷ b ∷ c ∷ []) = 0

module _ (C : Crypto) (O : Os C) where
  open C use {World}
  open O use {Descriptor}

  -- The loop of `write_all` on the bytes that are left, for so many rounds.
  unfoldable pub write_loop : Descriptor → ℕ → Bytes → World → Bool × World
  write_loop fd zero buf w = (length buf == 0, w)
  write_loop fd (suc rounds) buf w =
      let r = O.write fd buf w in
      let rest = write_loop fd rounds (drop r.0 buf) r.1 in
      if length buf == 0 then (true, w) else if r.0 == 0 then (false, r.1) else rest

  -- Every round writes a byte or stops.
  unfoldable pub write_all : Descriptor → Bytes → World → Bool × World
  unfolding write_loop
  write_all fd buf = write_loop fd (length buf) buf

  -- The loop of `read_all` for the bytes that are missing, for so many rounds.
  unfoldable pub read_loop : Descriptor → ℕ → ℕ → Prog World Bytes
  read_loop fd zero missing w = (if missing == 0 then some [] else none, w)
  read_loop fd (suc rounds) missing w =
      let r = O.read fd missing w in
      let rest = read_loop fd rounds (missing - length r.0) r.1 in
      if missing == 0
      then (some [], w)
      else if length r.0 == 0
      then (none, r.1)
      else (Option.map (λ back. r.0 ++ back) rest.0, rest.1)

  -- Every round reads a byte or stops.
  unfoldable pub read_all : Descriptor → ℕ → Prog World Bytes
  unfolding read_loop
  read_all fd missing = read_loop fd missing missing

  unfoldable pub derive_encryption_key : Option Bytes → Bytes → Prog World Bytes
  derive_encryption_key passphrase salt = do
    guard (passphrase_valid passphrase)
    text ← from_option passphrase
    O.pbkdf2 text salt store_iterations

  abbrev pub header : Bytes → Bytes → Bytes
  header salt iv =
      store_magic ++ put_u32_be store_iterations ++ salt ++ iv ++ put_u32_be store_plaintext_bytes

  -- The calls of EVP in `encrypt_dilithium_payload`: ciphertext and tag.
  unfoldable pub gcm_encrypt : Bytes → Bytes → Bytes → Bytes → Prog World (Bytes × Bytes)
  gcm_encrypt key iv aad text = do
    empty ← O.cipher_ctx_new
    aes ← O.encrypt_init empty
    sized ← O.gcm_set_ivlen 12 aes
    keyed ← O.encrypt_init_key key iv sized
    begun ← O.encrypt_update_aad aad keyed
    (running, ciphertext) ← O.encrypt_update text begun
    guard (length ciphertext == store_plaintext_bytes)
    (ended, rest) ← O.encrypt_final running
    guard (length rest == 0)
    tag ← O.gcm_get_tag 16 ended
    pure (ciphertext, tag)

  -- The calls of EVP in `decrypt_dilithium_payload`: the text.
  unfoldable pub gcm_decrypt : Bytes → Bytes → Bytes → Bytes → Bytes → Prog World Bytes
  gcm_decrypt key iv aad ciphertext tag = do
    empty ← O.cipher_ctx_new
    aes ← O.decrypt_init empty
    sized ← O.gcm_set_ivlen 12 aes
    keyed ← O.decrypt_init_key key iv sized
    begun ← O.decrypt_update_aad aad keyed
    (running, text) ← O.decrypt_update ciphertext begun
    guard (length text == store_plaintext_bytes)
    tagged ← O.gcm_set_tag tag running
    (ended, rest) ← O.decrypt_final tagged
    guard (length rest == 0)
    pure text

  -- The file for a secret and a public key.
  unfoldable pub encrypt_dilithium_payload : Bytes → Bytes → Option Bytes → Prog World Bytes
  encrypt_dilithium_payload secret_key public_key passphrase = do
    salt ← O.rand_bytes 16
    iv ← O.rand_bytes 12
    key ← derive_encryption_key passphrase salt
    (ciphertext, tag) ←
        gcm_encrypt key iv (header salt iv) (plaintext_magic ++ public_key ++ secret_key)
    pure (header salt iv ++ ciphertext ++ tag)

  -- The public and the secret key in a file.
  unfoldable pub decrypt_dilithium_payload : Bytes → Option Bytes → Prog World (Bytes × Bytes)
  decrypt_dilithium_payload input passphrase = do
    let salt = take 16 (drop 12 input)
    let iv = take 12 (drop 28 input)
    let body = drop store_header_bytes input
    guard (bytes_eq (take 8 input) store_magic)
    guard (get_u32_be (take 4 (drop 8 input)) == store_iterations)
    guard (get_u32_be (take 4 (drop 40 input)) == store_plaintext_bytes)
    key ← derive_encryption_key passphrase salt
    plaintext ←
        gcm_decrypt key iv (take store_header_bytes input) (take store_plaintext_bytes body)
          (take 16 (drop store_plaintext_bytes body))
    guard (bytes_eq (take 8 plaintext) plaintext_magic)
    pure (
      take public_key_bytes (drop 8 plaintext),
      take secret_key_bytes (drop public_key_bytes (drop 8 plaintext)),
    )
