-- ===== src/KeyStore.antt =====
-- src/hybrid_key_store.c: the directory that holds the SM2 key and the Dilithium2 key. The file of
-- the latter is in KeyFile. A path and a directory are C strings, without their closing zero.
pub mod Save
pub mod Load
pub mod Keeps
pub mod SelfTest
pub mod Files
pub mod Machine
pub mod Step
pub mod Race
pub mod Working
pub mod Succeeds
pub mod Loading
use hybrid_pqc_cert.Prelude.{
  ℕ, zero, suc, ◌+◌, ◌-◌, ◌%◌, Bool, true, false, not, ◌&&◌, Option, none, some, [], ◌∷◌, ◌++◌,
  Bytes, Slice, null, bytes, codes, length, bytes_eq, leb, ◌==◌, if◌then◌else◌, Prog, ◌>>=◌, ◌>>◌,
  pure, guard, from_option, attempt, or_cleanup, is_some, Out,
}
use hybrid_pqc_cert.Crypto.{Crypto, Pkey}
use hybrid_pqc_cert.Os.{Os, Found, is_found, found, absent, failed, Stat}
use hybrid_pqc_cert.CompositeKey.{
  HybridPrivateKey, HybridPublicKey, serialize_public_key, State, in_world, gain, lose,
  hybrid_private_key_cleanup, hybrid_public_key_cleanup,
}
use hybrid_pqc_cert.CompositeSig.{size_max, sign, composite_verify}
use hybrid_pqc_cert.KeyFile.{
  passphrase_valid, write_all, read_all, encrypt_dilithium_payload, decrypt_dilithium_payload,
  store_file_bytes,
}

-- HYBRID_SM2_PRIVATE_KEY_FILE and HYBRID_DILITHIUM_PRIVATE_KEY_FILE.
abbrev pub sm2_file : Bytes
sm2_file = codes "sm2_private.pem"

abbrev pub dilithium_file : Bytes
dilithium_file = codes "dilithium2_private.enc"

-- HYBRID_KEY_STORE_STATUS
pub data Status : Type 0 where
  incomplete missing complete : Status

abbrev pub is_missing_store : Status → Bool
is_missing_store incomplete = false
is_missing_store missing = true
is_missing_store complete = false

abbrev pub is_complete_store : Status → Bool
is_complete_store incomplete = false
is_complete_store missing = false
is_complete_store complete = true

-- `status.st_mode & 0077` is zero.
abbrev pub is_private : Stat → Bool
is_private s = s.permissions % 64 == 0

abbrev pub size_fits : Option ℕ → Stat → Bool
size_fits none s = true
size_fits (some n) s = s.size == n

-- The callback that PEM_read_PrivateKey gets: the bytes that it stores, none for a failure.
unfoldable pub password_callback : Bytes → Bool → ℕ → Bytes
password_callback text has_buffer size =
    if has_buffer && not (size == 0) && leb (length text) size then text else []

-- The challenge of `keypair_self_test`.
abbrev pub challenge : Bytes
challenge = codes "hybrid-key-store-self-test"

-- A function that returns 0 or 1, as a step that fails on 0.
abbrev pub holds : {W : Type 0} → (W → Bool × W) → Prog W (Unit {0})
holds m w = (if (m w).0 then some tt else none, (m w).1)

-- The clean-up runs in both cases.
abbrev pub finally : {W A : Type 0} → Prog W A → (W → W) → Prog W A
finally m cleanup w = ((m w).0, cleanup (m w).1)

-- The status by whether the two files are there.
abbrev pub both_or_neither : Bool → Bool → Status
both_or_neither true true = complete
both_or_neither false false = missing
both_or_neither true false = incomplete
both_or_neither false true = incomplete

module _ (C : Crypto) (O : Os C) where
  open C use {World, Key}

  unfoldable pub join_path : Option Bytes → Bytes → Prog World Bytes
  join_path directory name = do
    d ← from_option directory
    guard (not (length d == 0) && not (length name == 0))
    guard (leb (length d) (size_max - length name - 2))
    C.malloc (length d + length name + 2)
    pure (d ++ (47 ∷ name))

  -- `lstat` after a `mkdir` where nothing was there.
  unfoldable pub stat_directory : Bytes → Prog World Stat
  stat_directory directory w =
      let first = O.lstat directory w in
      let made = O.mkdir directory first.1 in
      let second = O.lstat directory made.1 in
      elim first.0 [
        | found s ↦ (some s, first.1)
        | failed ↦ (none, first.1)
        | absent ↦ elim made.0 [
          | none ↦ (none, made.1)
          | some _ ↦ elim second.0 [
            | found s ↦ (some s, second.1)
            | failed ↦ (none, second.1)
            | absent ↦ (none, second.1)
          ]
        ]
      ]

  unfoldable pub ensure_private_directory : Option Bytes → Prog World (Unit {0})
  ensure_private_directory directory = do
    d ← from_option directory
    guard (not (length d == 0))
    status ← stat_directory d
    guard (status.is_directory && not status.is_link && is_private status)

  unfoldable pub secure_regular_file : Bytes → Option ℕ → Prog World (Unit {0})
  secure_regular_file path expected_size w =
      let r = O.lstat path w in
      elim r.0 [
        | found s ↦
            guard (s.is_regular && not s.is_link && is_private s && size_fits expected_size s) r.1
        | absent ↦ (none, r.1)
        | failed ↦ (none, r.1)
      ]

  abbrev pub exists_at : Bytes → World → Bool × World
  exists_at path w = let r = O.access path w in (is_found r.0, r.1)

  -- The status where both paths can be formed.
  abbrev pub status_at : Option Bytes → Option Bytes → World → Status × World
  status_at none dilithium w = (incomplete, w)
  status_at (some sm2) none w = (incomplete, w)
  status_at (some sm2) (some dilithium) w =
      let s = exists_at sm2 w in let d = exists_at dilithium s.1 in (both_or_neither s.0 d.0, d.1)

  unfoldable pub hybrid_key_store_status : Option Bytes → World → Status × World
  hybrid_key_store_status directory w =
      let sm2 = join_path directory sm2_file w in
      let dilithium = join_path directory dilithium_file sm2.1 in
      status_at sm2.0 dilithium.0 dilithium.1

  unfoldable pub hybrid_sm2_key_store_status : Option Bytes → World → Status × World
  hybrid_sm2_key_store_status directory w =
      let path = join_path directory sm2_file w in
      elim path.0 [
        | none ↦ (incomplete, path.1)
        | some p ↦
            let r = O.access p path.1 in
            let secure = (ensure_private_directory directory >> secure_regular_file p none) r.1 in
            elim r.0 [
              | absent ↦ (missing, r.1)
              | failed ↦ (incomplete, r.1)
              | found _ ↦ (if is_some secure.0 then complete else incomplete, secure.1)
            ]
      ]
