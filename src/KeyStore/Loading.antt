-- ===== src/KeyStore/Loading.antt =====
-- What `hybrid_key_store_load` does to the two structures, and to the references they own.
use hybrid_pqc_cert.Prelude.{
  sym, ◌∙◌, ap, inl, inr, Option-cases, >>=-some, ℕ, ◌+◌, ◌≡◌, refl, false, true, Option, none,
  some, arith, Out, Bytes, Prog, CanReturn, bytes, null,
}
use hybrid_pqc_cert.Crypto.{Crypto, Pkey}
use hybrid_pqc_cert.Os.{Os}
use hybrid_pqc_cert.CompositeKey.{
  HybridPrivateKey, HybridPublicKey, References, State, hold, free_pkey, hybrid_private_key_cleanup,
  hybrid_public_key_cleanup,
}
use hybrid_pqc_cert.CompositeKey.References.{Accounted, owned, owned_by}
use hybrid_pqc_cert.CompositeSig.{sign, composite_verify}
use hybrid_pqc_cert.KeyStore.{challenge, holds}
use hybrid_pqc_cert.KeyStore.Save.{keypair_self_test}
use hybrid_pqc_cert.KeyStore.Load.{load_files, tested_keys, load_keys, hybrid_key_store_load}

module _ (C : Crypto) (O : Os C) where
  -- What the file of an SM2 key that was read owns, and what a loaded pair does.
  abbrev held_file : Option (Pkey C.Key × Bytes × Bytes) → ℕ → ℕ
  held_file none a = 0
  held_file (some (k, pk, sk)) a = owned_by (some k) a

  abbrev held : Option (HybridPrivateKey C.Key × HybridPublicKey C.Key) → ℕ → ℕ
  held none a = 0
  held (some (p, q)) a = owned (some p) (some q) a

  load_files_references :
      (directory passphrase : Option Bytes) (s : State C) (a : ℕ)
      → let r = load_files C O directory passphrase s in
        (r.1).references a ≡ s.references a + held_file r.0 a
  unfolding load_files hold free_pkey
  load_files_references directory passphrase s a = ground arith

  tested_keys_references :
      (k : Pkey C.Key) (pk sk : Bytes) (s : State C) (a before : ℕ)
      → s.references a ≡ before + owned_by (some k) a
      → let r = tested_keys C O (k, pk, sk) s in (r.1).references a ≡ before + held r.0 a
  unfolding tested_keys hold free_pkey
  tested_keys_references k pk sk s a before h = ground arith

  load_keys_references :
      (directory passphrase : Option Bytes) (s : State C) (a : ℕ)
      → let r = load_keys C O directory passphrase s in
        (r.1).references a ≡ s.references a + held r.0 a
  unfolding load_keys
  load_keys_references directory passphrase s a =
      let first = load_files C O directory passphrase s in
      elim (Option-cases first.0) [
        | inl e ↦ ground (arith, e, load_files_references directory passphrase s a)
        | inr ((k, pk, sk), e) ↦ ground (
          arith,
          e,
          load_files_references directory passphrase s a,
          tested_keys_references k pk sk first.1 a (s.references a),
        )
      ]

  -- Loading loses no reference to an EVP_PKEY and frees none twice: where every reference has one
  -- owner before, every reference has one owner after, on success and on every failure.
  pub hybrid_key_store_load-Accounted :
      (others : References) (directory passphrase : Option Bytes) (p : Out (HybridPrivateKey C.Key))
      (q : Out (HybridPublicKey C.Key)) (s : State C)
      → Accounted others p q s.references
      → let r = hybrid_key_store_load C O directory passphrase p q s in
        Accounted others r.private_key r.public_key r.state.references
  unfolding hybrid_key_store_load free_pkey hybrid_private_key_cleanup hybrid_public_key_cleanup
  hybrid_key_store_load-Accounted others directory passphrase none q s h a = h a
  hybrid_key_store_load-Accounted others directory passphrase (some p) none s h a = h a
  hybrid_key_store_load-Accounted others directory passphrase (some p) (some q) s h a =
      ground (arith, h a, load_keys_references directory passphrase s a)

  -- A load that fails leaves both structures as they were.
  pub hybrid_key_store_load_failed :
      (directory passphrase : Option Bytes) (p : Out (HybridPrivateKey C.Key))
      (q : Out (HybridPublicKey C.Key)) (s : State C)
      → let r = hybrid_key_store_load C O directory passphrase p q s in
        r.ok ≡ false → (r.private_key ≡ p) × (r.public_key ≡ q)
  unfolding hybrid_key_store_load
  hybrid_key_store_load_failed directory passphrase none q s h = (refl, refl)
  hybrid_key_store_load_failed directory passphrase (some p) none s h = (refl, refl)
  hybrid_key_store_load_failed directory passphrase (some p) (some q) s h = ground arith

  tested_keys_tested :
      (f : Pkey C.Key × Bytes × Bytes) (s : State C) (p : HybridPrivateKey C.Key)
      (q : HybridPublicKey C.Key)
      → (tested_keys C O f s).0 ≡ some (p, q)
      → CanReturn (keypair_self_test C O p q) tt
  unfolding tested_keys
  tested_keys_tested (k, pk, sk) s p q h =
      let p' : HybridPrivateKey C.Key = record {
        sm2_private_key = some k;
        dilithium_secret_key = sk;
      } in
      let q' : HybridPublicKey C.Key = record {
        sm2_public_key = some k;
        dilithium_public_key = pk;
      } in
      let w = (C.evp_pkey_up_ref k s.world).1 in
      elim (Option-cases (keypair_self_test C O p' q' w).0) [
        | inl e ↦ absurd (ground arith)
        | inr (u, e) ↦
            let same_p : p' ≡ p = ground arith in
            let same_q : q' ≡ q = ground arith in (w, rw (sym same_p, sym same_q) e)
      ]

  load_keys_tested :
      (directory passphrase : Option Bytes) (s : State C) (p : HybridPrivateKey C.Key)
      (q : HybridPublicKey C.Key)
      → (load_keys C O directory passphrase s).0 ≡ some (p, q)
      → CanReturn (keypair_self_test C O p q) tt
  unfolding load_keys
  load_keys_tested directory passphrase s p q h =
      let load : Prog (State C) (Pkey C.Key × Bytes × Bytes) =
        load_files C O directory passphrase in
      let (f, _, r) = >>=-some load (tested_keys C O) s h in
      tested_keys_tested f (load s).1 p q (sym (ap (λ x. x.0) r) ∙ h)

  -- A signature that one key can give over the challenge was verified under the other.
  abbrev pub Match : HybridPrivateKey C.Key → HybridPublicKey C.Key → Type 0
  Match p q =
      (signature : Bytes) × CanReturn (sign C (some p) (bytes challenge) (null 0)) signature
      × ((w : C.World) × ((composite_verify C (some q) (bytes challenge) (null 0) (bytes signature)
              w).0
            ≡ true))

  self_test_signs :
      (p : HybridPrivateKey C.Key) (q : HybridPublicKey C.Key)
      → CanReturn (keypair_self_test C O p q) tt
      → Match p q
  unfolding keypair_self_test
  self_test_signs p q (w, h) =
      let signs : Prog C.World Bytes = sign C (some p) (bytes challenge) (null 0) in
      let check : Bytes → Prog C.World (Unit {0}) = λ signature.
        holds (composite_verify C (some q) (bytes challenge) (null 0) (bytes signature)) in
      let (signature, e, r) = >>=-some signs check w h in
      let passed : (check signature (signs w).1).0 ≡ some tt = sym (ap (λ x. x.0) r) ∙ h in
      (signature, (w, e), ((signs w).1, ground arith))

  -- A load that succeeds leaves a private and a public key in the structures such that a signature
  -- of the private key was verified under the public key.
  pub hybrid_key_store_load_tested :
      (directory passphrase : Option Bytes) (p : Out (HybridPrivateKey C.Key))
      (q : Out (HybridPublicKey C.Key)) (s : State C)
      → let r = hybrid_key_store_load C O directory passphrase p q s in
        r.ok ≡ true
        → (k : HybridPrivateKey C.Key) × (l : HybridPublicKey C.Key) × (r.private_key ≡ some k)
          × (r.public_key ≡ some l)
          × Match k l
  unfolding hybrid_key_store_load
  hybrid_key_store_load_tested directory passphrase none q s h = absurd (ground arith)
  hybrid_key_store_load_tested directory passphrase (some p) none s h = absurd (ground arith)
  hybrid_key_store_load_tested directory passphrase (some p) (some q) s h =
      elim (Option-cases (load_keys C O directory passphrase s).0) [
        | inl e ↦ absurd (ground arith)
        | inr ((k, l), e) ↦ (
          k,
          l,
          ground arith,
          ground arith,
          self_test_signs k l (load_keys_tested directory passphrase s k l e),
        )
      ]
