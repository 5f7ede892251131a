-- ===== src/Mlkem/Laws.antt =====
-- What ML-KEM-768 leaves behind when it fails, and that the two sides agree when it does not.
use mathlib.Core.Option
use hybrid_pqc_cert.Prelude.{
  ℕ, ◌≡◌, ◌⊎◌, inl, inr, true, false, some, none, ◌++◌, Bytes, Slice, bytes, arith, length, drop,
  replicate, CanReturn, AlwaysReturns, Option-cases, Bool-cases, Out,
}
use hybrid_pqc_cert.Mlkem.{
  Oqs, Kem, Keypair, is_empty, cleanse, overwrite, encapsulation_key_bytes, decapsulation_key_bytes,
  ciphertext_bytes, mlkem768_new_checked, keygen_keys, mlkem768_keygen, mlkem768_encaps,
  mlkem768_decaps,
}

-- Documented behaviour of a provider: a new object is always the same, its outputs have the lengths
-- that it states, and a ciphertext carries its secret to the holder of the secret key.
pub record IsKem (O : Oqs) : Type 0 where
  pub kem : Kem
  pub new_steady : AlwaysReturns (mlkem768_new_checked O) kem
  pub ek_length :
      {ek dk : Bytes} → CanReturn (O.kem_keypair kem) (ek, dk) → length ek ≡ encapsulation_key_bytes
  pub dk_length :
      {ek dk : Bytes} → CanReturn (O.kem_keypair kem) (ek, dk) → length dk ≡ decapsulation_key_bytes
  pub ciphertext_length :
      (ek : Bytes) {c s : Bytes}
      → CanReturn (O.kem_encaps kem ek) (c, s)
      → length c ≡ ciphertext_bytes
  pub decapsulates :
      {ek dk c s : Bytes}
      → CanReturn (O.kem_keypair kem) (ek, dk)
      → CanReturn (O.kem_encaps kem ek) (c, s)
      → AlwaysReturns (O.kem_decaps kem dk c) s

module _ (O : Oqs) where
  -- A failed key generation leaves the structure alone, and a successful one found it empty and
  -- leaves keys with the two fixed lengths in it.
  pub keygen_outcome :
      (keypair : Keypair) (w : O.World)
      → let r = mlkem768_keygen O (some keypair) w in
        ((r.0 ≡ false) × (r.1 ≡ some keypair))
        ⊎ ((ek : Bytes) × (dk : Bytes) × (r.0 ≡ true)
            × (is_empty keypair ≡ true)
            × CanReturn (keygen_keys O) (ek, dk)
            × (r.1
                ≡ some (record {
                  encapsulation_key = some ek;
                  encapsulation_key_len = encapsulation_key_bytes;
                  decapsulation_key = some dk;
                  decapsulation_key_len = decapsulation_key_bytes;
                })))
  unfolding mlkem768_keygen
  keygen_outcome keypair w = elim (Bool-cases (is_empty keypair)) [
    | inr e ↦ inl (ground arith, ground arith)
    | inl e ↦ elim (Option-cases (keygen_keys O w).0) [
      | inl f ↦ inl (ground arith, ground arith)
      | inr ((ek, dk), f) ↦ inr (ek, dk, ground arith, e, (w, f), ground arith)
    ]
  ]

  -- Keys are never overwritten: on the structure that a successful key generation leaves, the next
  -- one fails and changes nothing.
  keygen_once :
      (keypair : Out Keypair) (w v : O.World)
      → (mlkem768_keygen O keypair w).0 ≡ true
      → ((mlkem768_keygen O (mlkem768_keygen O keypair w).1 v).0 ≡ false)
        × ((mlkem768_keygen O (mlkem768_keygen O keypair w).1 v).1
            ≡ (mlkem768_keygen O keypair w).1)
  unfolding mlkem768_keygen
  keygen_once none w v h = cc
  keygen_once (some keypair) w v h = ground arith

  -- Without a result, encapsulation leaves the length 0 and a secret of zeros, wherever these are
  -- given, and the ciphertext buffer as it was or with zeros in the place of a ciphertext.
  pub encaps_failed_lem :
      (ek ciphertext : Slice) (len : Out ℕ) (secret : Out Bytes) (w : O.World)
      → let r = mlkem768_encaps O ek ciphertext len secret w in
        r.ok ≡ false
        → (r.ciphertext_len ≡ Option.map (λ n. 0) len)
          × (r.shared_secret ≡ cleanse secret)
          × ((r.ciphertext ≡ ciphertext)
              ⊎ (r.ciphertext ≡ overwrite ciphertext (replicate ciphertext_bytes 0)))
  unfolding mlkem768_encaps
  encaps_failed_lem ek ciphertext len secret w h = ground arith

  -- Without a result, decapsulation leaves a secret of zeros, wherever one is given.
  decaps_failed_lem :
      (dk ciphertext : Slice) (secret : Out Bytes) (w : O.World)
      → (mlkem768_decaps O dk ciphertext secret w).0 ≡ false
      → (mlkem768_decaps O dk ciphertext secret w).1 ≡ cleanse secret
  unfolding mlkem768_decaps
  decaps_failed_lem dk ciphertext secret w h = ground arith

module _ (O : Oqs) (provider : IsKem O) where
  keygen_keys_lem :
      {ek dk : Bytes}
      → CanReturn (keygen_keys O) (ek, dk)
      → CanReturn (O.kem_keypair provider.kem) (ek, dk)
  unfolding keygen_keys
  keygen_keys_lem {ek} {dk} (w, h) =
      let w1 = (mlkem768_new_checked O w).1 in
      let w2 = (O.mem_malloc encapsulation_key_bytes w1).1 in
      ((O.mem_malloc decapsulation_key_bytes w2).1, ground (arith, h, provider.new_steady w))

  decaps_lem :
      (dk c : Bytes) {s : Bytes} (old : Bytes) (w : O.World)
      → length dk ≡ decapsulation_key_bytes
      → length c ≡ ciphertext_bytes
      → AlwaysReturns (O.kem_decaps provider.kem dk c) s
      → ((mlkem768_decaps O (bytes dk) (bytes c) (some old) w).0 ≡ true)
        × ((mlkem768_decaps O (bytes dk) (bytes c) (some old) w).1 ≡ some s)
  unfolding mlkem768_decaps
  decaps_lem dk c old w l m h =
      let again = h (mlkem768_new_checked O w).1 in
      (ground (arith, provider.new_steady w, again), ground (arith, provider.new_steady w, again))

  -- With a provider that behaves as documented: what is encapsulated for a generated key is a
  -- ciphertext of 1088 bytes at the front of the buffer, and its decapsulation with the other key of
  -- the pair succeeds in every world and gives the same secret.
  pub encaps_decaps :
      (ek dk buffer : Bytes) (n : ℕ) (secret secret' : Bytes) (w : O.World)
      → CanReturn (keygen_keys O) (ek, dk)
      → let r = mlkem768_encaps O (bytes ek) (bytes buffer) (some n) (some secret) w in
        r.ok ≡ true
        → (c : Bytes) × (s : Bytes) × (r.ciphertext ≡ bytes (c ++ drop ciphertext_bytes buffer))
          × (r.ciphertext_len ≡ some (length c))
          × (r.shared_secret ≡ some s)
          × ((v : O.World)
              → ((mlkem768_decaps O (bytes dk) (bytes c) (some secret') v).0 ≡ true)
                × ((mlkem768_decaps O (bytes dk) (bytes c) (some secret') v).1 ≡ some s))
  unfolding mlkem768_encaps
  encaps_decaps ek dk buffer n secret secret' w k h =
      let pair = keygen_keys_lem k in
      let w1 = (mlkem768_new_checked O w).1 in
      elim (Option-cases (O.kem_encaps provider.kem ek w1).0) [
        | inl e ↦ absurd (ground (arith, h, provider.new_steady w))
        | inr ((c, s), e) ↦
            let l = provider.ciphertext_length ek (w1, e) in
            (
              c,
              s,
              ground (arith, provider.new_steady w, l),
              ground (arith, provider.new_steady w, l),
              ground (arith, provider.new_steady w),
              λ v.
                  decaps_lem dk c secret' v (provider.dk_length pair) l
                    (provider.decapsulates pair (w1, e)),
            )
      ]
