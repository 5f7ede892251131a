-- ===== src/Tests/Toy.antt =====
-- External functions that always have memory, sign with short patterns and know three
-- certificates.
use hybrid_pqc_cert.Prelude.{
  ℕ, suc, ◌≡◌, refl, Bool, true, false, Option, some, none, [], ◌∷◌, Bytes, length, replicate,
  length-replicate, bytes_eq, bytes_eq_refl, ◌==◌, pure, guard, Prog, arith,
}
use hybrid_pqc_cert.Crypto.{Crypto, Pkey, BigNum, EcdsaSig}
use hybrid_pqc_cert.Crypto.Laws.{IsSteady}
use hybrid_pqc_cert.Dilithium.Laws.{DilithiumPair}
use hybrid_pqc_cert.Sm2.Laws.{Sm2Pair}
use hybrid_pqc_cert.CompositeKey.{HybridPrivateKey, HybridPublicKey}
use hybrid_pqc_cert.CompositeKey.RoundTrip.{HasSm2Points}
use hybrid_pqc_cert.CompositeSig.Der.{IsCanonical}
use hybrid_pqc_cert.CompositeSig.Complete.{KeyPair}

abbrev pub point : Bytes
point = 4 ∷ replicate 64 9

abbrev pub toy_sm2_key : Pkey Bytes
toy_sm2_key = record { address = 1; key = point }

abbrev positive : ℕ → Option BigNum
positive n = some (record { is_negative = false; magnitude = n })

-- Two numbers of one byte each.
abbrev toy_d2i : {W : Type 0} → Bytes → Prog W (EcdsaSig × ℕ)
toy_d2i (r ∷ s ∷ rest) = pure (record { r = positive r; s = positive s }, 2)
toy_d2i [] = λ w. (none, w)
toy_d2i (r ∷ []) = λ w. (none, w)

abbrev toy_i2d : {W : Type 0} → EcdsaSig → Prog W Bytes
toy_i2d signature w = elim signature.r [
  | none ↦ (none, w)
  | some a ↦ elim signature.s [
    | none ↦ (none, w)
    | some b ↦ (some (a.magnitude ∷ b.magnitude ∷ []), w)
  ]
]

abbrev pub toy_sm2_signature : Bytes → Bytes
toy_sm2_signature message = 1 ∷ suc (length message) ∷ []

abbrev starts_with : Bytes → ℕ → Bool
starts_with [] n = false
starts_with (x ∷ xs) n = x == n

-- In a world that these functions do not look at.
abbrev pub toy_in : Type 0 → Crypto
toy_in W = record {
  World = W;
  Key = Bytes;
  malloc = λ n. pure tt;
  evp_digest_sm3 = λ message. pure (replicate 32 (length message));
  evp_digest_sha256 = λ message. pure (replicate 32 (length message));
  d2i_ecdsa_sig = toy_d2i;
  i2d_ecdsa_sig = toy_i2d;
  dilithium_ref_keypair = pure (replicate 1312 5, replicate 2560 6);
  dilithium_ref_signature = λ message sk. pure (replicate 2420 (length message));
  dilithium_ref_verify = λ signature message pk. starts_with signature (length message);
  evp_pkey_ctx_new_from_name = pure tt;
  evp_pkey_ctx_new_from_pkey = λ k. pure tt;
  evp_pkey_keygen_init = pure tt;
  evp_pkey_generate = pure toy_sm2_key;
  evp_pkey_fromdata_init = pure tt;
  evp_pkey_fromdata = λ encoded. pure (record { address = 2; key = encoded });
  evp_pkey_public_check = λ k. pure tt;
  evp_pkey_up_ref = λ k. pure tt;
  evp_pkey_is_sm2 = λ k. true;
  evp_pkey_get_public_octets = λ k n. pure k;
  evp_md_ctx_new = pure tt;
  evp_digest_sign_init = λ k. pure tt;
  evp_digest_verify_init = λ k. pure tt;
  evp_pkey_ctx_set1_id = λ user. pure tt;
  evp_digest_sign_size = λ k user message. pure 2;
  evp_digest_sign = λ k user message size. pure (toy_sm2_signature message);
  evp_digest_verify =
      λ k user message signature. guard (bytes_eq signature (toy_sm2_signature message));
}

abbrev pub toy : Crypto
toy = toy_in (Unit {0})

toy_d2i-same :
    (W : Type 0) (der : Bytes) (v w : W)
    → ((toy_in W).d2i_ecdsa_sig der v).0 ≡ ((toy_in W).d2i_ecdsa_sig der w).0
toy_d2i-same W [] v w = refl
toy_d2i-same W (r ∷ []) v w = refl
toy_d2i-same W (r ∷ s ∷ rest) v w = refl

toy_i2d-same :
    (W : Type 0) (signature : EcdsaSig) (v w : W)
    → ((toy_in W).i2d_ecdsa_sig signature v).0 ≡ ((toy_in W).i2d_ecdsa_sig signature w).0
toy_i2d-same W signature v w = ground arith

pub toy_in-IsSteady : (W : Type 0) → IsSteady (toy_in W)
toy_in-IsSteady W = record {
  malloc_steady = λ n w. refl;
  sm3 = λ message. replicate 32 (length message);
  sm3_steady = λ message w. refl;
  sm3_length = λ message. length-replicate 32 (length message);
  d2i_steady = toy_d2i-same W;
  i2d_steady = toy_i2d-same W;
  md_ctx_steady = λ w. refl;
  sign_init_steady = λ k w. refl;
  verify_init_steady = λ k w. refl;
  set1_id_steady = λ user w. refl;
}

abbrev pub toy_private : HybridPrivateKey Bytes
toy_private = record { sm2_private_key = some toy_sm2_key; dilithium_secret_key = replicate 2560 6 }

abbrev pub toy_public : HybridPublicKey Bytes
toy_public = record { sm2_public_key = some toy_sm2_key; dilithium_public_key = replicate 1312 5 }

toy-DilithiumPair : (W : Type 0) → DilithiumPair (toy_in W) (replicate 2560 6) (replicate 1312 5)
unfolding replicate
toy-DilithiumPair W = record {
  sk_length = length-replicate {A = ℕ} 2560 6;
  pk_length = length-replicate {A = ℕ} 1312 5;
  signature = λ message w. replicate 2420 (length message);
  signs = λ message w. refl;
  signature_length = λ message w. length-replicate 2420 (length message);
  verifies = λ message w. ground arith;
}

toy_signature_verifies :
    (W : Type 0) (message : Bytes) (w : W)
    → ((toy_in W).evp_digest_verify point [] message (toy_sm2_signature message) w).0 ≡ some tt
toy_signature_verifies W message w = rw (bytes_eq_refl (toy_sm2_signature message)) refl

toy-Sm2Pair : (W : Type 0) → Sm2Pair (toy_in W) point point
toy-Sm2Pair W = record {
  size = λ message. 2;
  sizes = λ message w. refl;
  signature = λ message w. toy_sm2_signature message;
  signs = λ message w. refl;
  verifies = λ message v w. toy_signature_verifies W message w;
}

toy-IsCanonical : (W : Type 0) → W → (n : ℕ) → IsCanonical (toy_in W) (1 ∷ suc n ∷ [])
toy-IsCanonical W w n = record {
  signature = record { r = positive 1; s = positive (suc n) };
  decoded = (w, refl);
  r_positive = refl;
  s_positive = ground arith;
  encoded = (w, refl);
  not_empty = omega arith;
  not_long = omega arith;
}

pub toy_in-KeyPair : (W : Type 0) → KeyPair (toy_in W) toy_private toy_public
unfolding toy-Sm2Pair
toy_in-KeyPair W = record {
  private_pkey = toy_sm2_key;
  public_pkey = toy_sm2_key;
  has_private = refl;
  has_public = refl;
  dilithium = toy-DilithiumPair W;
  sm2 = toy-Sm2Pair W;
  canonical = λ message w. toy-IsCanonical W w (length message);
}

pub toy-IsSteady : IsSteady toy
toy-IsSteady = toy_in-IsSteady (Unit {0})

pub toy-KeyPair : KeyPair toy toy_private toy_public
toy-KeyPair = toy_in-KeyPair (Unit {0})

pub toy-HasSm2Points : HasSm2Points toy
toy-HasSm2Points = record {
  malloc_steady = λ n w. refl;
  ctx_from_name_steady = λ w. refl;
  ctx_from_pkey_steady = λ k w. refl;
  fromdata_init_steady = λ w. refl;
  imported_is_sm2 = λ encoded w e. refl;
  imported_octets = λ encoded v w n u e. ground arith;
  import = λ encoded w. record { address = 2; key = encoded };
  exported_imports = λ k v w a e. refl;
  exported_checks = λ k v w u a e. refl;
}
