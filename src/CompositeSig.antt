-- ===== src/CompositeSig.antt =====
-- src/composite_sig.c: the composite message, the serialized signature, signing and verifying.
pub mod Der
pub mod Message
pub mod Format
pub mod Verify
pub mod Complete
use hybrid_pqc_cert.Prelude.{
  ℕ, ◌+◌, ◌-◌, ◌%◌, ◌^◌, Bool, true, false, not, ◌&&◌, Option, none, some, ◌∷◌, ◌++◌, Bytes, Slice,
  null, bytes, codes, length, take, drop, slice_length, contents, bytes_eq, ltb, leb, ◌==◌, Prog,
  ◌>>=◌, ◌>>◌, pure, guard, from_option, present, is_some, if◌then◌else◌, Out, Returned, export,
}
use hybrid_pqc_cert.Crypto.{Crypto, Pkey, BigNum}
use hybrid_pqc_cert.Dilithium.{signature_bytes, is_missing, dilithium_sign, dilithium_verify}
use hybrid_pqc_cert.Sm2.{hybrid_sm2_sign, hybrid_sm2_verify}
use hybrid_pqc_cert.CompositeKey.{HybridPrivateKey, HybridPublicKey}

-- COMPOSITE_SIGNATURE_PREFIX
abbrev pub signature_prefix : Bytes
signature_prefix = codes "CompositeAlgorithmSignatures2025"

-- COMPOSITE_SIGNATURE_LABEL
abbrev pub signature_label : Bytes
signature_label = codes "COMPSIG-DILITHIUM2-SM2-SM3"

abbrev pub max_context_bytes : ℕ
max_context_bytes = 255

-- SIZE_MAX and LONG_MAX on a 64-bit platform.
abbrev pub size_max : ℕ
size_max = 2 ^ 64 - 1

abbrev pub long_max : ℕ
long_max = 2 ^ 63 - 1

-- COMPOSITE_VERIFY_RESULT
pub record VerifyResult : Type 0 where
  pub format_valid : Bool
  pub dilithium_valid : Bool
  pub sm2_valid : Bool
  pub composite_valid : Bool

abbrev pub no_result : VerifyResult
no_result = record {
  format_valid = false;
  dilithium_valid = false;
  sm2_valid = false;
  composite_valid = false;
}

-- `r != NULL && !BN_is_negative(r) && !BN_is_zero(r)`.
abbrev pub is_positive : Option BigNum → Bool
is_positive none = false
is_positive (some b) = not b.is_negative && not (b.magnitude == 0)

-- The four out parameters of `composite_parse_signature`.
pub record SignatureParts : Type 0 where
  pub dilithium_signature : Out (Option Bytes)
  pub dilithium_signature_len : Out ℕ
  pub sm2_signature_der : Out (Option Bytes)
  pub sm2_signature_der_len : Out ℕ

abbrev pub all_present : SignatureParts → Bool
all_present o =
    is_some o.dilithium_signature
    && is_some o.dilithium_signature_len
    && is_some o.sm2_signature_der
    && is_some o.sm2_signature_der_len

abbrev pub cleared : SignatureParts
cleared = record {
  dilithium_signature = some none;
  dilithium_signature_len = some 0;
  sm2_signature_der = some none;
  sm2_signature_der_len = some 0;
}

abbrev pub parts : Bytes → Bytes → SignatureParts
parts dilithium sm2 = record {
  dilithium_signature = some (some dilithium);
  dilithium_signature_len = some signature_bytes;
  sm2_signature_der = some (some sm2);
  sm2_signature_der_len = some (length sm2);
}

module _ (C : Crypto) where
  open C use {World, Key, malloc, evp_digest_sm3, d2i_ecdsa_sig, i2d_ecdsa_sig}

  -- Success is the return value 1.
  unfoldable pub sm2_signature_der_is_valid : Slice → Prog World (Unit {0})
  sm2_signature_der_is_valid slice = do
    der ← present slice
    guard (not (length der == 0) && leb (length der) long_max)
    (signature, consumed) ← d2i_ecdsa_sig der
    guard (consumed == length der)
    guard (is_positive signature.r && is_positive signature.s)
    canonical ← i2d_ecdsa_sig signature
    guard (not (length canonical == 0) && length canonical == length der)
    guard (bytes_eq canonical der)

  -- The work of `composite_build_message` once its out parameters are there.
  unfoldable pub build_message : Slice → Slice → Prog World Bytes
  build_message message ctx = do
    guard (not (is_missing message))
    guard (not (is_missing ctx) && leb (slice_length ctx) max_context_bytes)
    digest ← evp_digest_sm3 (contents message)
    guard (length digest == 32)
    let fixed = length signature_prefix + length signature_label + 1
    guard (leb (slice_length ctx) (size_max - fixed - length digest))
    let output_len = fixed + slice_length ctx + length digest
    malloc output_len
    let length_byte = slice_length ctx % 256
    let output = signature_prefix ++ signature_label ++ (length_byte ∷ contents ctx) ++ digest
    guard (length output == output_len)
    pure output

  pub composite_build_message : Slice → Slice → Out (Option Bytes) → Out ℕ → World → Returned World
  composite_build_message message ctx m_prime m_prime_len =
      export m_prime m_prime_len (build_message message ctx)

  -- The work of `composite_serialize_signature`.
  unfoldable pub serialize_signature : Slice → Slice → Prog World Bytes
  serialize_signature dilithium_signature sm2_signature_der = do
    dilithium ← present dilithium_signature
    guard (length dilithium == signature_bytes)
    sm2_signature_der_is_valid sm2_signature_der
    guard (leb (slice_length sm2_signature_der) (size_max - signature_bytes))
    malloc (signature_bytes + slice_length sm2_signature_der)
    pure (dilithium ++ contents sm2_signature_der)

  pub composite_serialize_signature :
      Slice → Slice → Out (Option Bytes) → Out ℕ → World → Returned World
  composite_serialize_signature dilithium_signature sm2_signature_der signature signature_len =
      export signature signature_len (serialize_signature dilithium_signature sm2_signature_der)

  -- The work of `composite_parse_signature`: the two parts.
  unfoldable pub parse_signature : Slice → Prog World (Bytes × Bytes)
  parse_signature slice = do
    signature ← present slice
    guard (ltb signature_bytes (length signature))
    sm2_signature_der_is_valid (bytes (drop signature_bytes signature))
    pure (take signature_bytes signature, drop signature_bytes signature)

  pub composite_parse_signature : Slice → SignatureParts → World → Bool × SignatureParts × World
  composite_parse_signature signature outs w =
      if all_present outs
      then (let r = parse_signature signature w in
          elim r.0 [
            | none ↦ (false, cleared, r.1)
            | some (dilithium, sm2) ↦ (true, parts dilithium sm2, r.1)
          ])
      else (false, outs, w)

  -- The work of `composite_sign`.
  unfoldable pub sign : Option (HybridPrivateKey Key) → Slice → Slice → Prog World Bytes
  sign key message ctx = do
    private_key ← from_option key
    sm2_private_key ← from_option private_key.sm2_private_key
    m_prime ← build_message message ctx
    dilithium ← dilithium_sign C (bytes private_key.dilithium_secret_key) (bytes m_prime)
    sm2 ← hybrid_sm2_sign C (some sm2_private_key) (bytes m_prime)
    serialize_signature (bytes dilithium) (bytes sm2)

  pub composite_sign :
      Option (HybridPrivateKey Key)
      → Slice
      → Slice
      → Out (Option Bytes)
      → Out ℕ
      → World
      → Returned World
  composite_sign key message ctx signature signature_len =
      export signature signature_len (sign key message ctx)

  -- The first test of `composite_verify_detailed`: a key, and a signature in two parts.
  unfoldable pub parse_inputs :
      Option (HybridPublicKey Key)
      → Slice
      → Prog World (HybridPublicKey Key × Pkey Key × Bytes × Bytes)
  parse_inputs key signature = do
    public_key ← from_option key
    sm2_public_key ← from_option public_key.sm2_public_key
    (dilithium, sm2) ← parse_signature signature
    pure (public_key, sm2_public_key, dilithium, sm2)

  -- Both components are checked over the composite message, the second also if the first fails.
  unfoldable pub check_components :
      HybridPublicKey Key → Pkey Key → Bytes → Bytes → Bytes → World → VerifyResult × World
  check_components public_key sm2_public_key dilithium sm2 m_prime w =
      let d : Bool =
        dilithium_verify C (bytes public_key.dilithium_public_key) (bytes m_prime)
          (bytes dilithium) in
      let r : Option (Unit {0}) × World =
        hybrid_sm2_verify C (some sm2_public_key) (bytes m_prime) (bytes sm2) w in
      let result : VerifyResult = record {
        format_valid = true;
        dilithium_valid = d;
        sm2_valid = is_some r.0;
        composite_valid = d && is_some r.0;
      } in
      (result, r.1)

  -- `composite_verify_detailed`: what it stores in `*result`; it returns `composite_valid`.
  unfoldable pub composite_verify_detailed :
      Option (HybridPublicKey Key) → Slice → Slice → Slice → World → VerifyResult × World
  unfolding parse_inputs check_components
  composite_verify_detailed key message ctx signature w =
      let parsed = parse_inputs key signature w in
      elim parsed.0 [
        | none ↦ (no_result, parsed.1)
        | some (public_key, sm2_public_key, dilithium, sm2) ↦
            let built = build_message message ctx parsed.1 in
            elim built.0 [
              | none ↦ (record no_result { format_valid = true }, built.1)
              | some m_prime ↦
                  check_components public_key sm2_public_key dilithium sm2 m_prime built.1
            ]
      ]

  unfoldable pub composite_verify :
      Option (HybridPublicKey Key) → Slice → Slice → Slice → World → Bool × World
  composite_verify key message ctx signature w =
      let r = composite_verify_detailed key message ctx signature w in (r.0.composite_valid, r.1)
