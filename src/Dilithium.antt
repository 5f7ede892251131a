-- ===== src/Dilithium.antt =====
-- src/dilithium_wrapper.c: the checks around the Dilithium2 reference implementation.
pub mod Laws
use hybrid_pqc_cert.Prelude.{
  ℕ, Bool, false, not, ◌&&◌, ◌||◌, Bytes, Slice, null, bytes, length, slice_length, contents,
  is_null, leb, ◌==◌, Prog, ◌>>=◌, ◌>>◌, pure, guard, present,
}
use hybrid_pqc_cert.Crypto.{Crypto}

abbrev pub public_key_bytes : ℕ
public_key_bytes = 1312

abbrev pub secret_key_bytes : ℕ
secret_key_bytes = 2560

abbrev pub signature_bytes : ℕ
signature_bytes = 2420

-- `message == NULL && message_len != 0`.
abbrev pub is_missing : Slice → Bool
is_missing s = is_null s && not (slice_length s == 0)

module _ (C : Crypto) where
  open C use {World, malloc, dilithium_ref_keypair, dilithium_ref_signature, dilithium_ref_verify}

  -- The buffers are given by whether they are there and by their capacities.
  unfoldable pub dilithium_generate_keypair : Bool → ℕ → Bool → ℕ → Prog World (Bytes × Bytes)
  dilithium_generate_keypair has_public public_capacity has_secret secret_capacity = do
    guard (has_public && has_secret)
    guard (leb public_key_bytes public_capacity && leb secret_key_bytes secret_capacity)
    dilithium_ref_keypair

  unfoldable pub dilithium_sign : Slice → Slice → Prog World Bytes
  dilithium_sign secret_key message = do
    sk ← present secret_key
    guard (length sk == secret_key_bytes)
    guard (not (is_missing message))
    malloc signature_bytes
    output ← dilithium_ref_signature (contents message) sk
    guard (length output == signature_bytes)
    pure output

  unfoldable pub dilithium_verify : Slice → Slice → Slice → Bool
  dilithium_verify (null n) message signature = false
  dilithium_verify (bytes pk) message (null n) = false
  dilithium_verify (bytes pk) message (bytes sig) =
      length pk == public_key_bytes
      && length sig == signature_bytes
      && not (is_missing message)
      && dilithium_ref_verify sig (contents message) pk
