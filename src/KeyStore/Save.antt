-- ===== src/KeyStore/Save.antt =====
-- src/hybrid_key_store.c: saving of one key and of both. A file that could not be written whole is
-- removed.
use hybrid_pqc_cert.Prelude.{
  Bool, ◌&&◌, Option, none, some, Bytes, null, bytes, Prog, ◌>>=◌, ◌>>◌, guard, from_option,
  attempt, or_cleanup, is_some,
}
use hybrid_pqc_cert.Crypto.{Crypto, Pkey}
use hybrid_pqc_cert.Os.{Os}
use hybrid_pqc_cert.CompositeKey.{HybridPrivateKey, HybridPublicKey}
use hybrid_pqc_cert.CompositeSig.{sign, composite_verify}
use hybrid_pqc_cert.KeyFile.{
  passphrase_valid, write_all, encrypt_dilithium_payload, store_file_bytes,
}
use hybrid_pqc_cert.KeyStore.{
  sm2_file, dilithium_file, challenge, holds, is_missing_store, join_path, ensure_private_directory,
  hybrid_key_store_status, hybrid_sm2_key_store_status,
}

module _ (C : Crypto) (O : Os C) where
  open C use {World, Key}

  -- A status that was asked for is the one wanted.
  abbrev pub status_is : {S : Type 0} → (S → Bool) → (World → S × World) → Prog World (Unit {0})
  status_is p m w = guard (p (m w).0) (m w).1

  -- What is written to the new file, whose descriptor goes into a stream.
  unfoldable pub write_stream : O.Descriptor → Key → Bytes → Prog World (Unit {0})
  write_stream fd key text = do
    output ← or_cleanup (O.fdopen fd) (λ w. (O.close fd w).1)
    or_cleanup (do O.pem_write_private_key output key text; O.fflush output; O.fsync_stream output)
        (λ w. (O.fclose output w).1)
    O.fclose output

  unfoldable pub save_sm2_private_key :
      Bytes → Option (Pkey Key) → Option Bytes → Prog World (Unit {0})
  save_sm2_private_key path private_key passphrase = do
    key ← from_option private_key
    guard (passphrase_valid passphrase)
    text ← from_option passphrase
    fd ← O.open_new path
    or_cleanup (write_stream fd key.key text) (O.unlink path)

  -- What is written to the new file of the Dilithium2 key.
  unfoldable pub write_file : O.Descriptor → Bytes → Prog World (Unit {0})
  write_file fd file = do
    or_cleanup (do holds (write_all C O fd file); O.fsync fd) (λ w. (O.close fd w).1)
    O.close fd

  -- The work of `save_dilithium_private_key`.
  unfoldable pub make_dilithium_file :
      Bytes → HybridPrivateKey Key → HybridPublicKey Key → Option Bytes → Prog World (Unit {0})
  make_dilithium_file path private_key public_key passphrase = do
    C.malloc store_file_bytes
    file ←
        encrypt_dilithium_payload C O private_key.dilithium_secret_key
          public_key.dilithium_public_key passphrase
    fd ← O.open_new path
    write_file fd file

  -- The path is removed on every failure, also where the file could not be made.
  unfoldable pub save_dilithium_private_key :
      Bytes → HybridPrivateKey Key → HybridPublicKey Key → Option Bytes → Prog World (Unit {0})
  save_dilithium_private_key path private_key public_key passphrase =
      or_cleanup (make_dilithium_file path private_key public_key passphrase) (O.unlink path)

  unfoldable pub hybrid_sm2_key_store_save :
      Option Bytes → Option (Pkey Key) → Option Bytes → Prog World (Unit {0})
  hybrid_sm2_key_store_save directory private_key passphrase = do
    guard (is_some directory)
    key ← from_option private_key
    guard (C.evp_pkey_is_sm2 key.key && passphrase_valid passphrase)
    status_is is_missing_store (hybrid_sm2_key_store_status C O directory)
    ensure_private_directory C O directory
    path ← join_path C O directory sm2_file
    save_sm2_private_key path (some key) passphrase

  -- Success where a signature of the private key verifies under the public key.
  unfoldable pub keypair_self_test :
      HybridPrivateKey Key → HybridPublicKey Key → Prog World (Unit {0})
  keypair_self_test private_key public_key = do
    signature ← sign C (some private_key) (bytes challenge) (null 0)
    holds (composite_verify C (some public_key) (bytes challenge) (null 0) (bytes signature))

  abbrev pub unlink_path : Option Bytes → World → World
  unlink_path none w = w
  unlink_path (some path) w = O.unlink path w

  -- Both files, given both paths. After a failure the Dilithium2 path is removed, and the SM2 path
  -- if its file was saved.
  unfoldable pub save_at :
      Option Bytes
      → Option Bytes
      → HybridPrivateKey Key
      → HybridPublicKey Key
      → Option Bytes
      → Prog World (Unit {0})
  save_at sm2 dilithium private_key public_key passphrase =
      or_cleanup
        (do
          sm2_path ← from_option sm2
          dilithium_path ← from_option dilithium
          save_sm2_private_key sm2_path private_key.sm2_private_key passphrase
          or_cleanup (save_dilithium_private_key dilithium_path private_key public_key passphrase)
              (O.unlink sm2_path))
        (unlink_path dilithium)

  -- `hybrid_key_store_save` from the point on where the status was found to be right.
  unfoldable pub save_files :
      Option Bytes
      → HybridPrivateKey Key
      → HybridPublicKey Key
      → Option Bytes
      → Prog World (Unit {0})
  save_files directory private_key public_key passphrase = do
    sm2 ← attempt (join_path C O directory sm2_file)
    dilithium ← attempt (join_path C O directory dilithium_file)
    save_at sm2 dilithium private_key public_key passphrase

  unfoldable pub hybrid_key_store_save :
      Option Bytes
      → Option (HybridPrivateKey Key)
      → Option (HybridPublicKey Key)
      → Option Bytes
      → Prog World (Unit {0})
  hybrid_key_store_save directory private_key public_key passphrase = do
    p ← from_option private_key
    q ← from_option public_key
    guard (passphrase_valid passphrase)
    keypair_self_test p q
    ensure_private_directory C O directory
    status_is is_missing_store (hybrid_key_store_status C O directory)
    save_files directory p q passphrase
