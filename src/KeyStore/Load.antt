-- ===== src/KeyStore/Load.antt =====
-- src/hybrid_key_store.c: loading of one key and of both, and the comparison of public keys.
use hybrid_pqc_cert.Prelude.{
  Bool, true, false, Option, none, some, Bytes, length, bytes_eq, ◌==◌, Prog, ◌>>=◌, ◌>>◌, pure,
  guard, from_option, attempt, or_cleanup, is_some, Out,
}
use hybrid_pqc_cert.Crypto.{Crypto, Pkey}
use hybrid_pqc_cert.Os.{Os}
use hybrid_pqc_cert.CompositeKey.{
  HybridPrivateKey, HybridPublicKey, State, in_world, gain, lose, hybrid_private_key_cleanup,
  hybrid_public_key_cleanup, serialize_public_key,
}
use hybrid_pqc_cert.KeyFile.{
  passphrase_valid, read_all, decrypt_dilithium_payload, store_file_bytes,
}
use hybrid_pqc_cert.KeyStore.{
  sm2_file, dilithium_file, finally, is_complete_store, password_callback, join_path,
  ensure_private_directory, secure_regular_file, hybrid_key_store_status,
  hybrid_sm2_key_store_status,
}
use hybrid_pqc_cert.KeyStore.Save.{status_is, keypair_self_test}

module _ (C : Crypto) (O : Os C) where
  open C use {World, Key}

  -- A key that fails a test is freed at once, so only success leaves a reference.
  unfoldable pub load_sm2_private_key : Bytes → Option Bytes → Prog World (Pkey Key)
  load_sm2_private_key path passphrase = do
    secure_regular_file C O path none
    guard (passphrase_valid passphrase)
    text ← from_option passphrase
    input ← O.fopen path
    private_key ←
        finally (O.pem_read_private_key input (password_callback text)) (λ w. (O.fclose input w).1)
    guard (C.evp_pkey_is_sm2 private_key.key)
    C.evp_pkey_ctx_new_from_pkey private_key.key
    O.evp_pkey_private_check private_key.key
    pure private_key

  unfoldable pub hybrid_sm2_key_store_load : Option Bytes → Option Bytes → Prog World (Pkey Key)
  hybrid_sm2_key_store_load directory passphrase = do
    status_is C O is_complete_store (hybrid_sm2_key_store_status C O directory)
    guard (passphrase_valid passphrase)
    path ← join_path C O directory sm2_file
    load_sm2_private_key path passphrase

  -- The public and the secret key. The buffer and the file are asked for before either is looked at.
  unfoldable pub load_dilithium_private_key : Bytes → Option Bytes → Prog World (Bytes × Bytes)
  load_dilithium_private_key path passphrase = do
    secure_regular_file C O path (some store_file_bytes)
    buffer ← attempt (C.malloc store_file_bytes)
    fd ← O.open_read path
    finally
        (do
          guard (is_some buffer)
          file ← read_all C O fd store_file_bytes
          decrypt_dilithium_payload C O file passphrase)
        (λ w. (O.close fd w).1)

  -- Success is the return value 1.
  unfoldable pub composite_public_keys_equal :
      Option (HybridPublicKey Key) → Option (HybridPublicKey Key) → Prog World (Unit {0})
  composite_public_keys_equal left right = do
    left_bytes ← serialize_public_key C left
    right_bytes ← serialize_public_key C right
    guard (length left_bytes == length right_bytes)
    guard (bytes_eq left_bytes right_bytes)

  -- What `hybrid_key_store_load` reads. A failure gives back what was held until then.
  unfoldable pub load_files :
      Option Bytes → Option Bytes → Prog (State C) (Pkey Key × Bytes × Bytes)
  load_files directory passphrase = do
    guard (passphrase_valid passphrase)
    in_world C (ensure_private_directory C O directory)
    in_world C (status_is C O is_complete_store (hybrid_key_store_status C O directory))
    sm2 ← in_world C (attempt (join_path C O directory sm2_file))
    dilithium ← in_world C (attempt (join_path C O directory dilithium_file))
    sm2_path ← from_option sm2
    dilithium_path ← from_option dilithium
    k ← in_world C (load_sm2_private_key sm2_path passphrase)
    gain C k
    (pk, sk) ←
        or_cleanup (in_world C (load_dilithium_private_key dilithium_path passphrase))
          (lose C (some k))
    pure (k, pk, sk)

  -- The keys from there on, which share the SM2 key.
  unfoldable pub tested_keys :
      Pkey Key × Bytes × Bytes → Prog (State C) (HybridPrivateKey Key × HybridPublicKey Key)
  tested_keys (k, pk, sk) = do
    or_cleanup (in_world C (C.evp_pkey_up_ref k)) (lose C (some k))
    gain C k
    let p : HybridPrivateKey Key = record { sm2_private_key = some k; dilithium_secret_key = sk }
    let q : HybridPublicKey Key = record { sm2_public_key = some k; dilithium_public_key = pk }
    or_cleanup (in_world C (keypair_self_test C O p q)) (λ s. lose C (some k) (lose C (some k) s))
    pure (p, q)

  unfoldable pub load_keys :
      Option Bytes → Option Bytes → Prog (State C) (HybridPrivateKey Key × HybridPublicKey Key)
  load_keys directory passphrase = load_files directory passphrase >>= tested_keys

  -- The return value, the two structures and the state after a call.
  pub record Loaded : Type 0 where
    pub ok : Bool
    pub private_key : Out (HybridPrivateKey Key)
    pub public_key : Out (HybridPublicKey Key)
    pub state : State C

  unfoldable pub hybrid_key_store_load :
      Option Bytes
      → Option Bytes
      → Out (HybridPrivateKey Key)
      → Out (HybridPublicKey Key)
      → State C
      → Loaded
  hybrid_key_store_load directory passphrase none public s = record {
    ok = false;
    private_key = none;
    public_key = public;
    state = s;
  }
  hybrid_key_store_load directory passphrase (some private) none s = record {
    ok = false;
    private_key = some private;
    public_key = none;
    state = s;
  }
  hybrid_key_store_load directory passphrase (some private) (some public) s =
      let g = load_keys directory passphrase s in
      elim g.0 [
        | none ↦ record {
          ok = false;
          private_key = some private;
          public_key = some public;
          state = g.1;
        }
        | some (p, q) ↦
            let refs = (hybrid_private_key_cleanup (some private) (g.1).references).1 in
            record {
              ok = true;
              private_key = some p;
              public_key = some q;
              state = record {
                world = (g.1).world;
                references = (hybrid_public_key_cleanup (some public) refs).1;
              };
            }
      ]
