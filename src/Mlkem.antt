-- ===== src/Mlkem.antt =====
-- src/mlkem.c: ML-KEM-768 through liboqs, whose functions are a parameter. The version string of
-- the provider is not modelled.
pub mod Laws
use mathlib.Core.Option
use hybrid_pqc_cert.Prelude.{
  ℕ, Bool, true, false, not, ◌&&◌, Option, none, some, ◌++◌, Bytes, Slice, null, bytes, codes,
  length, drop, replicate, slice_length, contents, is_null, bytes_eq, leb, ◌==◌, if◌then◌else◌,
  Prog, ◌>>=◌, ◌>>◌, pure, guard, attempt, is_some, Out,
}

abbrev pub encapsulation_key_bytes : ℕ
encapsulation_key_bytes = 1184

abbrev pub decapsulation_key_bytes : ℕ
decapsulation_key_bytes = 2400

abbrev pub ciphertext_bytes : ℕ
ciphertext_bytes = 1088

abbrev pub shared_secret_bytes : ℕ
shared_secret_bytes = 32

-- The fields of an OQS_KEM that the program reads.
pub record Kem : Type 0 where
  pub method_name : Option Bytes
  pub alg_version : Option Bytes
  pub length_public_key : ℕ
  pub length_secret_key : ℕ
  pub length_ciphertext : ℕ
  pub length_shared_secret : ℕ

-- What the program calls of liboqs.
pub record Oqs : Type 1 where
  pub World : Type 0
  -- OQS_KEM_alg_ml_kem_768
  pub alg_ml_kem_768 : Bytes
  pub kem_alg_is_enabled : Bytes → Bool
  pub kem_new : Bytes → Prog World Kem
  pub mem_malloc : ℕ → Prog World (Unit {0})
  -- Public key and secret key.
  pub kem_keypair : Kem → Prog World (Bytes × Bytes)
  -- Ciphertext and shared secret for a public key.
  pub kem_encaps : Kem → Bytes → Prog World (Bytes × Bytes)
  -- The shared secret in a ciphertext for a secret key.
  pub kem_decaps : Kem → Bytes → Bytes → Prog World Bytes

-- MLKEM_KEYPAIR
pub record Keypair : Type 0 where
  pub encapsulation_key : Option Bytes
  pub encapsulation_key_len : ℕ
  pub decapsulation_key : Option Bytes
  pub decapsulation_key_len : ℕ

abbrev pub empty_keypair : Keypair
empty_keypair = record {
  encapsulation_key = none;
  encapsulation_key_len = 0;
  decapsulation_key = none;
  decapsulation_key_len = 0;
}

abbrev pub is_empty : Keypair → Bool
is_empty k =
    not (is_some k.encapsulation_key)
    && not (is_some k.decapsulation_key)
    && k.encapsulation_key_len == 0
    && k.decapsulation_key_len == 0

-- `s != NULL && strcmp(s, text) == 0`.
abbrev pub text_is : Option Bytes → Bytes → Bool
text_is none text = false
text_is (some s) text = bytes_eq s text

-- OQS_MEM_cleanse of the shared secret, where it is there.
abbrev pub cleanse : Out Bytes → Out Bytes
cleanse none = none
cleanse (some old) = some (replicate shared_secret_bytes 0)

-- The front of a buffer is written, and the rest is kept.
abbrev pub overwrite : Slice → Bytes → Slice
overwrite (null n) new = null n
overwrite (bytes old) new = bytes (new ++ drop (length new) old)

-- What `mlkem768_encaps` returns and leaves in its out parameters.
pub record Encapsulated (W : Type 0) : Type 0 where
  pub ok : Bool
  pub ciphertext : Slice
  pub ciphertext_len : Out ℕ
  pub shared_secret : Out Bytes
  pub world : W

abbrev pub encaps_fits : Slice → Slice → Out ℕ → Out Bytes → Bool
encaps_fits encapsulation_key ciphertext ciphertext_len shared_secret =
    not (is_null encapsulation_key)
    && slice_length encapsulation_key == encapsulation_key_bytes
    && not (is_null ciphertext)
    && leb ciphertext_bytes (slice_length ciphertext)
    && is_some ciphertext_len
    && is_some shared_secret

abbrev pub decaps_fits : Slice → Slice → Out Bytes → Bool
decaps_fits decapsulation_key ciphertext shared_secret =
    not (is_null decapsulation_key)
    && slice_length decapsulation_key == decapsulation_key_bytes
    && not (is_null ciphertext)
    && slice_length ciphertext == ciphertext_bytes
    && is_some shared_secret

unfoldable pub mlkem_keypair_cleanup : Out Keypair → Out Keypair
mlkem_keypair_cleanup none = none
mlkem_keypair_cleanup (some k) = some empty_keypair

module _ (O : Oqs) where
  open O use {World}

  unfoldable pub mlkem768_new_checked : Prog World Kem
  mlkem768_new_checked = do
    guard (O.kem_alg_is_enabled O.alg_ml_kem_768)
    kem ← O.kem_new O.alg_ml_kem_768
    guard (text_is kem.method_name O.alg_ml_kem_768 && text_is kem.alg_version (codes "FIPS203"))
    guard (kem.length_public_key == encapsulation_key_bytes)
    guard (kem.length_secret_key == decapsulation_key_bytes)
    guard (kem.length_ciphertext == ciphertext_bytes)
    guard (kem.length_shared_secret == shared_secret_bytes)
    pure kem

  pub mlkem768_provider_check : World → Bool × World
  mlkem768_provider_check w = let r = mlkem768_new_checked w in (is_some r.0, r.1)

  -- The keys of `mlkem768_keygen`. Both buffers are asked for before the first is looked at.
  unfoldable pub keygen_keys : Prog World (Bytes × Bytes)
  keygen_keys = do
    kem ← mlkem768_new_checked
    ek ← attempt (O.mem_malloc encapsulation_key_bytes)
    dk ← attempt (O.mem_malloc decapsulation_key_bytes)
    guard (is_some ek && is_some dk)
    O.kem_keypair kem

  unfoldable pub mlkem768_keygen : Out Keypair → World → Bool × Out Keypair × World
  mlkem768_keygen none w = (false, none, w)
  mlkem768_keygen (some keypair) w =
      if is_empty keypair
      then (let r = keygen_keys w in
          elim r.0 [
            | none ↦ (false, some keypair, r.1)
            | some (ek, dk) ↦ (
              true,
              some (record {
                encapsulation_key = some ek;
                encapsulation_key_len = encapsulation_key_bytes;
                decapsulation_key = some dk;
                decapsulation_key_len = decapsulation_key_bytes;
              }),
              r.1,
            )
          ])
      else (false, some keypair, w)

  -- The end of `mlkem768_encaps` without a result: length and secret are cleared.
  abbrev encaps_failed : Slice → Out ℕ → Out Bytes → World → Encapsulated World
  encaps_failed ciphertext ciphertext_len shared_secret w = record {
    ok = false;
    ciphertext = ciphertext;
    ciphertext_len = Option.map (λ n. 0) ciphertext_len;
    shared_secret = cleanse shared_secret;
    world = w;
  }

  unfoldable pub mlkem768_encaps : Slice → Slice → Out ℕ → Out Bytes → World → Encapsulated World
  mlkem768_encaps encapsulation_key ciphertext ciphertext_len shared_secret w =
      let kem = mlkem768_new_checked w in
      if encaps_fits encapsulation_key ciphertext ciphertext_len shared_secret
      then (elim kem.0 [
        | none ↦ encaps_failed ciphertext ciphertext_len shared_secret kem.1
        | some k ↦
            let r = O.kem_encaps k (contents encapsulation_key) kem.1 in
            elim r.0 [
              | none ↦
                  encaps_failed (overwrite ciphertext (replicate ciphertext_bytes 0)) ciphertext_len
                    shared_secret r.1
              | some (c, s) ↦ record {
                ok = true;
                ciphertext = overwrite ciphertext c;
                ciphertext_len = some ciphertext_bytes;
                shared_secret = some s;
                world = r.1;
              }
            ]
      ])
      else encaps_failed ciphertext ciphertext_len shared_secret w

  -- The return value, the shared secret and the world.
  unfoldable pub mlkem768_decaps : Slice → Slice → Out Bytes → World → Bool × Out Bytes × World
  mlkem768_decaps decapsulation_key ciphertext shared_secret w =
      let kem = mlkem768_new_checked w in
      if decaps_fits decapsulation_key ciphertext shared_secret
      then (elim kem.0 [
        | none ↦ (false, cleanse shared_secret, kem.1)
        | some k ↦
            let r = O.kem_decaps k (contents decapsulation_key) (contents ciphertext) kem.1 in
            elim r.0 [ none ↦ (false, cleanse shared_secret, r.1) | some s ↦ (true, some s, r.1) ]
      ])
      else (false, cleanse shared_secret, w)
