-- ===== src/CompositeKey.antt =====
-- src/composite_key.c: the key structures with the references that they own, and the serialized
-- public key.

pub mod References
pub mod RoundTrip
use hybrid_pqc_cert.Prelude.{
  ℕ, ◌+◌, ◌-◌, Bool, true, false, ◌&&◌, Option, none, some, List, [], ◌∷◌, ◌++◌, Bytes, Slice,
  bytes, length, take, drop, replicate, ◌==◌, if◌then◌else◌, Prog, ◌>>=◌, ◌>>◌, pure, guard,
  from_option, present, or_cleanup, is_some, Out, Returned, export,
}
use hybrid_pqc_cert.Crypto.{Crypto, Pkey}
use hybrid_pqc_cert.Dilithium.{public_key_bytes, secret_key_bytes, dilithium_generate_keypair}
use hybrid_pqc_cert.Sm2.{hybrid_sm2_generate_keypair}

-- SM2_UNCOMPRESSED_PUBLIC_KEY_BYTES
abbrev pub sm2_octets : ℕ
sm2_octets = 65

-- COMPOSITE_PUBLIC_KEY_BYTES
abbrev pub composite_public_key_bytes : ℕ
composite_public_key_bytes = public_key_bytes + sm2_octets

-- HYBRID_PRIVATE_KEY
pub record HybridPrivateKey (K : Type 0) : Type 0 where
  pub sm2_private_key : Option (Pkey K)
  pub dilithium_secret_key : Bytes

-- HYBRID_PUBLIC_KEY
pub record HybridPublicKey (K : Type 0) : Type 0 where
  pub sm2_public_key : Option (Pkey K)
  pub dilithium_public_key : Bytes

-- `output[0] == 0x04` of an encoding that is not empty.
abbrev pub is_uncompressed : Bytes → Bool
is_uncompressed [] = false
is_uncompressed (x ∷ xs) = x == 4

-- How many references the program holds to the EVP_PKEY at each address.
abbrev pub References : Type 0
References = ℕ → ℕ

module _ {K : Type 0} where
  -- `EVP_PKEY_up_ref` that succeeded, and a new object with its first reference.
  unfoldable pub hold : Pkey K → References → References
  hold k refs a = if a == k.address then refs a + 1 else refs a

  -- `EVP_PKEY_free`, which ignores NULL.
  unfoldable pub free_pkey : Option (Pkey K) → References → References
  free_pkey none refs a = refs a
  free_pkey (some k) refs a = if a == k.address then refs a - 1 else refs a

  abbrev pub zero_private_key : HybridPrivateKey K
  zero_private_key = record {
    sm2_private_key = none;
    dilithium_secret_key = replicate secret_key_bytes 0;
  }

  abbrev pub zero_public_key : HybridPublicKey K
  zero_public_key = record {
    sm2_public_key = none;
    dilithium_public_key = replicate public_key_bytes 0;
  }

  unfoldable pub hybrid_private_key_init : Out (HybridPrivateKey K) → Out (HybridPrivateKey K)
  hybrid_private_key_init none = none
  hybrid_private_key_init (some k) = some zero_private_key

  unfoldable pub hybrid_private_key_cleanup :
      Out (HybridPrivateKey K) → References → Out (HybridPrivateKey K) × References
  unfolding hybrid_private_key_init
  hybrid_private_key_cleanup none refs = (none, refs)
  hybrid_private_key_cleanup (some k) refs =
      (hybrid_private_key_init (some k), free_pkey k.sm2_private_key refs)

  unfoldable pub hybrid_public_key_init : Out (HybridPublicKey K) → Out (HybridPublicKey K)
  hybrid_public_key_init none = none
  hybrid_public_key_init (some k) = some zero_public_key

  unfoldable pub hybrid_public_key_cleanup :
      Out (HybridPublicKey K) → References → Out (HybridPublicKey K) × References
  unfolding hybrid_public_key_init
  hybrid_public_key_cleanup none refs = (none, refs)
  hybrid_public_key_cleanup (some k) refs =
      (hybrid_public_key_init (some k), free_pkey k.sm2_public_key refs)

-- The world, and the references held in it.
pub record KeyState (W : Type 0) : Type 0 where
  pub world : W
  pub references : References

module _ (C : Crypto) where
  open C use {World, Key}

  abbrev pub State : Type 0
  State = KeyState World

  abbrev pub in_world : {A : Type 0} → Prog World A → Prog State A
  in_world m s = ((m s.world).0, record s { world = (m s.world).1 })

  abbrev pub gain : Pkey Key → Prog State (Unit {0})
  gain k s = (some tt, record s { references = hold k s.references })

  abbrev pub lose : Option (Pkey Key) → State → State
  lose k s = record s { references = free_pkey k s.references }

  -- The new keys. A failure gives back what was held until then.
  generate_keys : Prog State (HybridPrivateKey Key × HybridPublicKey Key)
  generate_keys = do
    k ← in_world (hybrid_sm2_generate_keypair C)
    gain k
    or_cleanup (in_world (C.evp_pkey_up_ref k)) (lose (some k))
    gain k
    (pk, sk) ←
        or_cleanup
          (in_world (dilithium_generate_keypair C true public_key_bytes true secret_key_bytes))
          (λ s. lose (some k) (lose (some k) s))
    pure (
      record { sm2_private_key = some k; dilithium_secret_key = sk },
      record { sm2_public_key = some k; dilithium_public_key = pk },
    )

  -- The return value, the two structures and the state after a call.
  pub record Generated : Type 0 where
    pub ok : Bool
    pub private_key : Out (HybridPrivateKey Key)
    pub public_key : Out (HybridPublicKey Key)
    pub state : State

  unfoldable pub composite_key_generate :
      Out (HybridPrivateKey Key) → Out (HybridPublicKey Key) → State → Generated
  unfolding generate_keys
  composite_key_generate none public s = record {
    ok = false;
    private_key = none;
    public_key = public;
    state = s;
  }
  composite_key_generate (some private) none s = record {
    ok = false;
    private_key = some private;
    public_key = none;
    state = s;
  }
  composite_key_generate (some private) (some public) s =
      let g = generate_keys s in
      elim g.0 [
        | none ↦ record {
          ok = false;
          private_key = some private;
          public_key = some public;
          state = g.1;
        }
        | some (new_private, new_public) ↦
            let refs = (hybrid_private_key_cleanup (some private) (g.1).references).1 in
            record {
              ok = true;
              private_key = some new_private;
              public_key = some new_public;
              state = record {
                world = (g.1).world;
                references = (hybrid_public_key_cleanup (some public) refs).1;
              };
            }
      ]

  unfoldable pub serialize_sm2_public_key : Option (Pkey Key) → Prog World Bytes
  serialize_sm2_public_key key = do
    k ← from_option key
    guard (C.evp_pkey_is_sm2 k.key)
    output ← C.evp_pkey_get_public_octets k.key sm2_octets
    guard (length output == sm2_octets && is_uncompressed output)
    pure output

  -- The work of `composite_serialize_public_key`.
  unfoldable pub serialize_public_key : Option (HybridPublicKey Key) → Prog World Bytes
  serialize_public_key key = do
    k ← from_option key
    guard (is_some k.sm2_public_key)
    C.malloc composite_public_key_bytes
    sm2 ← serialize_sm2_public_key k.sm2_public_key
    pure (k.dilithium_public_key ++ sm2)

  pub composite_serialize_public_key :
      Option (HybridPublicKey Key) → Out (Option Bytes) → Out ℕ → World → Returned World
  composite_serialize_public_key key serialized serialized_len =
      export serialized serialized_len (serialize_public_key key)

  -- A key that fails its check is freed at once, so only success leaves a reference.
  unfoldable pub parse_sm2_public_key : Slice → Prog World (Pkey Key)
  parse_sm2_public_key slice = do
    encoded ← present slice
    guard (length encoded == sm2_octets && is_uncompressed encoded)
    C.evp_pkey_ctx_new_from_name
    C.evp_pkey_fromdata_init
    key ← C.evp_pkey_fromdata encoded
    C.evp_pkey_ctx_new_from_pkey key.key
    C.evp_pkey_public_check key.key
    pure key

  -- The work of `composite_parse_public_key`: the key, with a reference of its own.
  unfoldable pub parse_public_key : Slice → Prog World (HybridPublicKey Key)
  parse_public_key slice = do
    serialized ← present slice
    guard (length serialized == composite_public_key_bytes)
    key ← parse_sm2_public_key (bytes (drop public_key_bytes serialized))
    pure (record {
      sm2_public_key = some key;
      dilithium_public_key = take public_key_bytes serialized;
    })

  -- The reference that a parsed key brings.
  abbrev hold_public : HybridPublicKey Key → References → References
  hold_public key refs = elim key.sm2_public_key [ none ↦ refs | some k ↦ hold k refs ]

  unfoldable pub composite_parse_public_key :
      Slice → Out (HybridPublicKey Key) → State → Bool × Out (HybridPublicKey Key) × State
  composite_parse_public_key slice none s = (false, none, s)
  composite_parse_public_key slice (some key) s =
      let r = parse_public_key slice s.world in
      elim r.0 [
        | none ↦ (false, some key, record s { world = r.1 })
        | some parsed ↦
            let refs = hold_public parsed s.references in
            (
              true,
              some parsed,
              record { world = r.1; references = (hybrid_public_key_cleanup (some key) refs).1 },
            )
      ]

  unfoldable pub composite_get_sm2_public_key_octets :
      Option (HybridPublicKey Key) → Bool → Prog World Bytes
  composite_get_sm2_public_key_octets key has_output = do
    k ← from_option key
    guard has_output
    serialize_sm2_public_key k.sm2_public_key
