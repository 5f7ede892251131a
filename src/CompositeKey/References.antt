-- ===== src/CompositeKey/References.antt =====
-- The references to EVP_PKEY objects that the key structures own.
use hybrid_pqc_cert.Prelude.{
  ℕ, ◌+◌, ◌≡◌, false, Option, none, some, arith, ◌==◌, if◌then◌else◌, Out, Slice, refl,
}
use hybrid_pqc_cert.Crypto.{Crypto, Pkey}
use hybrid_pqc_cert.CompositeKey.{
  HybridPrivateKey, HybridPublicKey, References, State, hold, free_pkey, composite_key_generate,
  composite_parse_public_key, hybrid_private_key_cleanup, hybrid_public_key_cleanup,
}

module _ {K : Type 0} where
  -- The references at an address that a pointer, and a pair of structures, own.
  abbrev pub owned_by : Option (Pkey K) → ℕ → ℕ
  owned_by none a = 0
  owned_by (some k) a = if a == k.address then 1 else 0

  abbrev pub owned : Out (HybridPrivateKey K) → Out (HybridPublicKey K) → ℕ → ℕ
  owned none none a = 0
  owned none (some q) a = owned_by q.sm2_public_key a
  owned (some p) none a = owned_by p.sm2_private_key a
  owned (some p) (some q) a = owned_by p.sm2_private_key a + owned_by q.sm2_public_key a

  -- Every reference is owned by the structures or by `others`, and by one owner only.
  abbrev pub Accounted :
      References → Out (HybridPrivateKey K) → Out (HybridPublicKey K) → References → Type 0
  Accounted others p q refs = (a : ℕ) → refs a ≡ others a + owned p q a

module _ (C : Crypto) where
  -- Generating a key pair loses no reference to an EVP_PKEY and frees none twice: where every
  -- reference has one owner before, every reference has one owner after, on success and on failure.
  pub composite_key_generate-Accounted :
      (others : References) (p : Out (HybridPrivateKey C.Key)) (q : Out (HybridPublicKey C.Key))
      (s : State C)
      → Accounted others p q s.references
      → let g = composite_key_generate C p q s in
        Accounted others g.private_key g.public_key g.state.references
  unfolding composite_key_generate hold free_pkey hybrid_private_key_cleanup
      hybrid_public_key_cleanup
  composite_key_generate-Accounted others none q s h a = h a
  composite_key_generate-Accounted others (some p) none s h a = h a
  composite_key_generate-Accounted others (some p) (some q) s h a = ground (arith, h a)

  -- Parsing a public key into a structure keeps every reference owned once, on every branch.
  composite_parse_public_key-Accounted :
      (others : References) (p : Out (HybridPrivateKey C.Key)) (q : Out (HybridPublicKey C.Key))
      (slice : Slice) (s : State C)
      → Accounted others p q s.references
      → let r = composite_parse_public_key C slice q s in Accounted others p r.1 (r.2).references
  unfolding composite_parse_public_key hold free_pkey hybrid_public_key_cleanup
  composite_parse_public_key-Accounted others p none slice s h a = h a
  composite_parse_public_key-Accounted others none (some q) slice s h a = ground (arith, h a)
  composite_parse_public_key-Accounted others (some p) (some q) slice s h a = ground (arith, h a)

  -- A generation that fails leaves both structures as they were.
  composite_key_generate_failed :
      (p : Out (HybridPrivateKey C.Key)) (q : Out (HybridPublicKey C.Key)) (s : State C)
      → (composite_key_generate C p q s).ok ≡ false
      → ((composite_key_generate C p q s).private_key ≡ p)
        × ((composite_key_generate C p q s).public_key ≡ q)
  unfolding composite_key_generate
  composite_key_generate_failed none q s h = (refl, refl)
  composite_key_generate_failed (some p) none s h = (refl, refl)
  composite_key_generate_failed (some p) (some q) s h = ground arith
