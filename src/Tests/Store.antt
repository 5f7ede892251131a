-- ===== src/Tests/Store.antt =====
-- The theorems on the key store at one disk, key pair and passphrase.
use hybrid_pqc_cert.Prelude.{
  ◌≡◌, refl, true, false, Option, some, none, [], ◌∷◌, ◌++◌, Bytes, codes, take, drop, replicate,
  bytes_eq, arith, is_some,
}
use hybrid_pqc_cert.CompositeKey.{
  HybridPrivateKey, HybridPublicKey, References, State, zero_private_key, zero_public_key,
}
use hybrid_pqc_cert.CompositeKey.References.{Accounted}
use hybrid_pqc_cert.KeyFile.{plaintext_magic, header}
use hybrid_pqc_cert.KeyStore.{missing, complete, incomplete, sm2_file, dilithium_file}
use hybrid_pqc_cert.KeyStore.Save.{hybrid_key_store_save, save_files}
use hybrid_pqc_cert.KeyStore.Load.{
  hybrid_key_store_load, load_files, load_keys, tested_keys, load_sm2_private_key,
  load_dilithium_private_key,
}
use hybrid_pqc_cert.KeyStore.Machine.{Step, can_remove, view, path_in}
use hybrid_pqc_cert.KeyStore.Step.{hybrid_key_store_save-Step}
use hybrid_pqc_cert.KeyStore.Race.{save_files_race}
use hybrid_pqc_cert.KeyStore.Loading.{
  Match, hybrid_key_store_load-Accounted, hybrid_key_store_load_failed,
  hybrid_key_store_load_tested,
}
use hybrid_pqc_cert.KeyStore.Succeeds.{IsSafe, hybrid_key_store_save_works}
use hybrid_pqc_cert.Tests.ToyDisk.{has_slash, disk_blank, disk-Removes, disk-Works}
use hybrid_pqc_cert.Tests.Toy.{toy_in-IsSteady, toy_in-KeyPair, toy_private, toy_public}
use hybrid_pqc_cert.Tests.ToyDisk.{Disk, disk, disk_crypto, disk-IsFileSystem}
use hybrid_pqc_cert.KeyStore.Save.{
  write_stream, write_file, save_sm2_private_key, make_dilithium_file, save_dilithium_private_key,
  save_at, keypair_self_test,
}
use hybrid_pqc_cert.KeyStore.{
  join_path, stat_directory, ensure_private_directory, secure_regular_file, hybrid_key_store_status,
  password_callback,
}
use hybrid_pqc_cert.KeyFile.{
  write_all, derive_encryption_key, gcm_encrypt, gcm_decrypt, read_all, decrypt_dilithium_payload,
  encrypt_dilithium_payload,
}
use hybrid_pqc_cert.CompositeSig.{
  sign, composite_verify, composite_verify_detailed, build_message, parse_signature,
  serialize_signature, sm2_signature_der_is_valid,
}
use hybrid_pqc_cert.Dilithium.{dilithium_sign, dilithium_verify}
use hybrid_pqc_cert.Sm2.{hybrid_sm2_sign, hybrid_sm2_verify}
use hybrid_pqc_cert.Tests.ToyDisk.{has_path}

abbrev directory : Bytes
directory = codes "keys"

abbrev phrase : Option Bytes
phrase = some (codes "correct horse")

abbrev blank : Disk
blank = record { content = []; paths = [] }

hybrid_key_store_save-Step_example :
    let r =
      hybrid_key_store_save disk_crypto disk
        (some directory)
        (some toy_private)
        (some toy_public)
        phrase
        blank in
    Step true
      (view disk_crypto disk disk-IsFileSystem directory blank)
      (is_some r.0)
      (view disk_crypto disk disk-IsFileSystem directory r.1)
hybrid_key_store_save-Step_example =
    hybrid_key_store_save-Step disk_crypto disk disk-IsFileSystem true directory (some toy_private)
      (some toy_public) phrase blank
      (can_remove (disk-Removes (path_in directory sm2_file))
        (disk-Removes (path_in directory dilithium_file)))

saved :
    (hybrid_key_store_save disk_crypto disk
      (some directory)
      (some toy_private)
      (some toy_public)
      phrase
      blank).0
    ≡ some tt
unfolding hybrid_key_store_save keypair_self_test sign build_message dilithium_sign hybrid_sm2_sign
    serialize_signature sm2_signature_der_is_valid composite_verify composite_verify_detailed
    parse_signature dilithium_verify hybrid_sm2_verify ensure_private_directory stat_directory
    hybrid_key_store_status join_path save_files save_at save_sm2_private_key write_stream
    save_dilithium_private_key make_dilithium_file write_file write_all encrypt_dilithium_payload
    derive_encryption_key gcm_encrypt take drop replicate bytes_eq has_path has_slash
saved = refl

save_files_race_example :
    let first =
      hybrid_key_store_save disk_crypto disk
        (some directory)
        (some toy_private)
        (some toy_public)
        phrase
        blank in
    let second =
      save_files disk_crypto disk (some directory) toy_private toy_public phrase first.1 in
    (view disk_crypto disk disk-IsFileSystem directory first.1 ≡ complete)
    × (second.0 ≡ none)
    × (view disk_crypto disk disk-IsFileSystem directory second.1 ≡ incomplete)
save_files_race_example =
    save_files_race disk_crypto disk disk-IsFileSystem directory (some toy_private)
      (some toy_public) phrase toy_private toy_public phrase blank (λ n w. refl)
      (omega arith, omega arith) (disk-Removes (path_in directory dilithium_file)) saved

-- The disk after the save, with the file of the Dilithium2 key opened.
abbrev stored : Disk
stored = record {
  content =
      header disk_crypto disk (replicate 16 7) (replicate 12 7)
      ++ (plaintext_magic ++ replicate 1312 5 ++ replicate 2560 6)
      ++ replicate 16 44;
  paths =
      (directory ++ codes "/dilithium2_private.enc") ∷ (directory ++ codes "/sm2_private.pem") ∷ [];
}

abbrev nothing_held : References
nothing_held a = 0

abbrev start : State disk_crypto
start = record { world = stored; references = nothing_held }

hybrid_key_store_load-Accounted_example :
    let r =
      hybrid_key_store_load disk_crypto disk
        (some directory)
        phrase
        (some zero_private_key)
        (some zero_public_key)
        start in
    Accounted nothing_held r.private_key r.public_key r.state.references
hybrid_key_store_load-Accounted_example =
    hybrid_key_store_load-Accounted disk_crypto disk nothing_held (some directory) phrase
      (some zero_private_key) (some zero_public_key) start (λ a. refl)

refused_load :
    (hybrid_key_store_load disk_crypto disk
      (some directory)
      (some (codes "short"))
      (some toy_private)
      (some toy_public)
      start).ok
    ≡ false
unfolding hybrid_key_store_load load_keys load_files
refused_load = refl

hybrid_key_store_load_failed_example :
    let r =
      hybrid_key_store_load disk_crypto disk
        (some directory)
        (some (codes "short"))
        (some toy_private)
        (some toy_public)
        start in
    (r.private_key ≡ some toy_private) × (r.public_key ≡ some toy_public)
hybrid_key_store_load_failed_example =
    hybrid_key_store_load_failed disk_crypto disk (some directory) (some (codes "short"))
      (some toy_private) (some toy_public) start refused_load

loaded :
    (hybrid_key_store_load disk_crypto disk
      (some directory)
      phrase
      (some zero_private_key)
      (some zero_public_key)
      start).ok
    ≡ true
unfolding hybrid_key_store_load load_keys load_files tested_keys load_sm2_private_key
    load_dilithium_private_key secure_regular_file password_callback read_all
    decrypt_dilithium_payload derive_encryption_key gcm_decrypt keypair_self_test sign build_message
    dilithium_sign hybrid_sm2_sign serialize_signature sm2_signature_der_is_valid composite_verify
    composite_verify_detailed parse_signature dilithium_verify hybrid_sm2_verify
    ensure_private_directory stat_directory hybrid_key_store_status join_path take drop replicate
    bytes_eq has_path has_slash
loaded = refl

hybrid_key_store_load_tested_example :
    let r =
      hybrid_key_store_load disk_crypto disk
        (some directory)
        phrase
        (some zero_private_key)
        (some zero_public_key)
        start in
    (k : HybridPrivateKey Bytes) × (l : HybridPublicKey Bytes) × (r.private_key ≡ some k)
    × (r.public_key ≡ some l)
    × Match disk_crypto disk k l
hybrid_key_store_load_tested_example =
    hybrid_key_store_load_tested disk_crypto disk (some directory) phrase (some zero_private_key)
      (some zero_public_key) start loaded

safe : IsSafe disk_crypto disk disk-IsFileSystem disk-Works directory
unfolding has_slash
safe w = (
  record { is_directory = true; is_regular = false; is_link = false; permissions = 448; size = 0 },
  refl,
  refl,
  refl,
  refl,
)

no_keys : view disk_crypto disk disk-IsFileSystem directory blank ≡ missing
no_keys =
    rw
      (disk_blank [] (path_in directory sm2_file), disk_blank [] (path_in directory dilithium_file))
      refl

hybrid_key_store_save_works_example :
    let r =
      hybrid_key_store_save disk_crypto disk
        (some directory)
        (some toy_private)
        (some toy_public)
        phrase
        blank in
    (r.0 ≡ some tt) × (view disk_crypto disk disk-IsFileSystem directory r.1 ≡ complete)
hybrid_key_store_save_works_example =
    hybrid_key_store_save_works disk_crypto disk disk-IsFileSystem disk-Works (toy_in-IsSteady Disk)
      directory toy_private toy_public (toy_in-KeyPair Disk) (codes "correct horse") blank
      (omega arith, omega arith) refl safe no_keys
