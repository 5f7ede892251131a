-- ===== src/Tests/Kem.antt =====
-- The theorems on ML-KEM-768 at a provider with short patterns.
use hybrid_pqc_cert.Prelude.{
  ℕ, ◌≡◌, ◌⊎◌, refl, true, false, some, [], ◌∷◌, ◌++◌, Bytes, bytes, codes, length, drop, replicate,
  length-replicate, bytes_eq, pure, CanReturn, ap, ◌∙◌,
}
use hybrid_pqc_cert.Mlkem.{
  Oqs, Kem, empty_keypair, is_empty, cleanse, overwrite, encapsulation_key_bytes,
  decapsulation_key_bytes, ciphertext_bytes, mlkem768_new_checked, keygen_keys, mlkem768_keygen,
  mlkem768_encaps, mlkem768_decaps,
}
use hybrid_pqc_cert.Mlkem.Laws.{IsKem, keygen_outcome, encaps_failed_lem, encaps_decaps}

abbrev kem768 : Kem
kem768 = record {
  method_name = some (codes "ML-KEM-768");
  alg_version = some (codes "FIPS203");
  length_public_key = 1184;
  length_secret_key = 2400;
  length_ciphertext = 1088;
  length_shared_secret = 32;
}

-- The secret is written all over the ciphertext.
abbrev toy_decaps : Bytes → Bytes
toy_decaps [] = []
toy_decaps (x ∷ c) = replicate 32 x

abbrev provider : Oqs
provider = record {
  World = Unit {0};
  alg_ml_kem_768 = codes "ML-KEM-768";
  kem_alg_is_enabled = λ name. true;
  kem_new = λ name. pure kem768;
  mem_malloc = λ n. pure tt;
  kem_keypair = λ kem. pure (replicate 1184 1, replicate 2400 2);
  kem_encaps = λ kem ek. pure (replicate 1088 3, replicate 32 3);
  kem_decaps = λ kem dk c. pure (toy_decaps c);
}

provider-IsKem : IsKem provider
unfolding mlkem768_new_checked bytes_eq replicate
provider-IsKem = record {
  kem = kem768;
  new_steady = λ w. refl;
  ek_length = λ h. cc (h.1, length-replicate {A = ℕ} 1184 1);
  dk_length = λ h. cc (h.1, length-replicate {A = ℕ} 2400 2);
  ciphertext_length = λ ek h. cc (h.1, length-replicate {A = ℕ} 1088 3);
  decapsulates = λ {ek} {dk} {c} {s} h k w.
      let whole : c ≡ replicate 1088 3 = cc (k.1) in
      let secret : replicate 32 3 ≡ s = cc (k.1) in ap some (ap toy_decaps whole ∙ secret);
}

keygen_outcome_example :
    let r = mlkem768_keygen provider (some empty_keypair) tt in
    ((r.0 ≡ false) × (r.1 ≡ some empty_keypair))
    ⊎ ((ek : Bytes) × (dk : Bytes) × (r.0 ≡ true)
        × (is_empty empty_keypair ≡ true)
        × CanReturn (keygen_keys provider) (ek, dk)
        × (r.1
            ≡ some (record {
              encapsulation_key = some ek;
              encapsulation_key_len = encapsulation_key_bytes;
              decapsulation_key = some dk;
              decapsulation_key_len = decapsulation_key_bytes;
            })))
keygen_outcome_example = keygen_outcome provider empty_keypair tt

too_small :
    (mlkem768_encaps provider (bytes (replicate 1184 1)) (bytes []) (some 7) (some (9 ∷ [])) tt).ok
    ≡ false
unfolding mlkem768_encaps replicate
too_small = refl

encaps_failed_lem_example :
    let r =
      mlkem768_encaps provider (bytes (replicate 1184 1)) (bytes []) (some 7) (some (9 ∷ [])) tt in
    (r.ciphertext_len ≡ some 0)
    × (r.shared_secret ≡ cleanse (some (9 ∷ [])))
    × ((r.ciphertext ≡ bytes [])
        ⊎ (r.ciphertext ≡ overwrite (bytes []) (replicate ciphertext_bytes 0)))
encaps_failed_lem_example =
    encaps_failed_lem provider (bytes (replicate 1184 1)) (bytes []) (some 7) (some (9 ∷ [])) tt
      too_small

abbrev room : Bytes
room = replicate 1100 0

keys : CanReturn (keygen_keys provider) (replicate 1184 1, replicate 2400 2)
unfolding keygen_keys mlkem768_new_checked bytes_eq
keys = (tt, refl)

encapsulated :
    (mlkem768_encaps provider (bytes (replicate 1184 1)) (bytes room) (some 0) (some []) tt).ok
    ≡ true
unfolding mlkem768_encaps mlkem768_new_checked bytes_eq replicate
encapsulated = refl

encaps_decaps_example :
    let r =
      mlkem768_encaps provider (bytes (replicate 1184 1)) (bytes room) (some 0) (some []) tt in
    (c : Bytes) × (s : Bytes) × (r.ciphertext ≡ bytes (c ++ drop ciphertext_bytes room))
    × (r.ciphertext_len ≡ some (length c))
    × (r.shared_secret ≡ some s)
    × ((v : Unit {0})
        → ((mlkem768_decaps provider (bytes (replicate 2400 2)) (bytes c) (some []) v).0 ≡ true)
          × ((mlkem768_decaps provider (bytes (replicate 2400 2)) (bytes c) (some []) v).1
              ≡ some s))
encaps_decaps_example =
    encaps_decaps provider provider-IsKem (replicate 1184 1) (replicate 2400 2) room 0 [] [] tt keys
      encapsulated
