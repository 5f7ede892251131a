-- ===== src/Tests/Signatures.antt =====
-- The theorems on composite signatures at one key pair, message and context.
use hybrid_pqc_cert.Prelude.{
  ◌≡◌, refl, true, some, none, [], ◌∷◌, ◌++◌, Bytes, Slice, null, bytes, replicate, take, drop,
  bytes_eq, arith, CanReturn, AlwaysReturns, slice_length, contents,
}
use hybrid_pqc_cert.Dilithium.{dilithium_verify}
use hybrid_pqc_cert.Sm2.{hybrid_sm2_verify}
use hybrid_pqc_cert.CompositeKey.{HybridPublicKey}
use hybrid_pqc_cert.CompositeSig.{
  composite_verify, composite_verify_detailed, build_message, parse_signature, sign,
  serialize_signature, sm2_signature_der_is_valid,
}
use hybrid_pqc_cert.CompositeSig.Verify.{
  Verified, IsConsistent, composite_verify-Verified, verify_detailed-IsConsistent,
}
use hybrid_pqc_cert.CompositeSig.Complete.{sign_verifies}
use hybrid_pqc_cert.CompositeSig.Message.{build_message_injective}
use hybrid_pqc_cert.CompositeSig.Der.{der_unique}
use hybrid_pqc_cert.CompositeSig.Format.{parse_signature-serialize, serialize_signature-parse}
use hybrid_pqc_cert.HybridSign.{HybridSignature, hybrid_sign, hybrid_verify, verify_inputs}
use hybrid_pqc_cert.HybridSign.Laws.{hybrid_verify-Verified, hybrid_sign_verifies}
use hybrid_pqc_cert.Tests.Toy.{toy, toy-IsSteady, toy_sm2_key, toy_public, toy_private, toy-KeyPair}

abbrev message : Slice
message = bytes (1 ∷ 2 ∷ [])

abbrev context : Slice
context = bytes (7 ∷ [])

abbrev sm2_half : Bytes
sm2_half = 1 ∷ 93 ∷ []

-- The composite message has 92 bytes.
abbrev signature : Bytes
signature = replicate 2420 92 ++ sm2_half

verified : (composite_verify toy (some toy_public) message context (bytes signature) tt).0 ≡ true
unfolding composite_verify composite_verify_detailed build_message parse_signature
    sm2_signature_der_is_valid dilithium_verify hybrid_sm2_verify take drop replicate bytes_eq
verified = refl

composite_verify-Verified_example :
    (k : HybridPublicKey Bytes) × (some toy_public ≡ some k)
    × Verified toy k message context (bytes signature)
composite_verify-Verified_example =
    composite_verify-Verified toy (some toy_public) message context (bytes signature) tt verified

verify_detailed-IsConsistent_example :
    IsConsistent
      (composite_verify_detailed toy (some toy_public) message context (bytes signature) tt).0
verify_detailed-IsConsistent_example =
    verify_detailed-IsConsistent toy (some toy_public) message context (bytes signature) tt

sign_verifies_example :
    (s : Bytes) × ((sign toy (some toy_private) message context tt).0 ≡ some s)
    × ((v : Unit {0})
        → (composite_verify toy (some toy_public) message context (bytes s) v).0 ≡ true)
sign_verifies_example =
    sign_verifies toy toy-IsSteady toy_private toy_public toy-KeyPair message context tt refl refl
      (omega arith)

abbrev composed : Bytes
composed = (elim (build_message toy message context tt).0 [ none ↦ [] | some out ↦ out ])

built : (build_message toy message context tt).0 ≡ some composed
unfolding build_message replicate
built = refl

build_message_injective_example :
    (slice_length context ≡ slice_length context)
    × (contents context ≡ contents context)
    × (digest : Bytes) × CanReturn (toy.evp_digest_sm3 (contents message)) digest
    × CanReturn (toy.evp_digest_sm3 (contents message)) digest
build_message_injective_example =
    build_message_injective toy message message context context tt tt built built

canonical : (sm2_signature_der_is_valid toy (bytes sm2_half) tt).0 ≡ some tt
unfolding sm2_signature_der_is_valid bytes_eq
canonical = refl

der_unique_example : sm2_half ≡ sm2_half
der_unique_example =
    der_unique toy toy-IsSteady sm2_half sm2_half tt tt canonical canonical refl refl

serialized :
    (serialize_signature toy (bytes (replicate 2420 92)) (bytes sm2_half) tt).0 ≡ some signature
unfolding serialize_signature sm2_signature_der_is_valid replicate bytes_eq
serialized = refl

parse_signature-serialize_example :
    AlwaysReturns (parse_signature toy (bytes signature)) (replicate 2420 92, sm2_half)
parse_signature-serialize_example =
    parse_signature-serialize toy toy-IsSteady (bytes (replicate 2420 92)) (bytes sm2_half) tt
      serialized

parsed : (parse_signature toy (bytes signature) tt).0 ≡ some (replicate 2420 92, sm2_half)
unfolding parse_signature sm2_signature_der_is_valid take drop replicate bytes_eq
parsed = refl

serialize_signature-parse_example :
    AlwaysReturns (serialize_signature toy (bytes (replicate 2420 92)) (bytes sm2_half)) signature
serialize_signature-parse_example = serialize_signature-parse toy toy-IsSteady signature tt parsed

-- Without a context the composite message has 91 bytes.
abbrev apart : HybridSignature
apart = record {
  sm2_signature = bytes (1 ∷ 92 ∷ []);
  dilithium_signature = bytes (replicate 2420 91);
}

abbrev dilithium_public : Slice
dilithium_public = bytes (replicate 1312 5)

apart_verified :
    (hybrid_verify toy (some toy_sm2_key) dilithium_public message (some apart) tt).0 ≡ true
unfolding hybrid_verify verify_inputs serialize_signature composite_verify composite_verify_detailed
    build_message parse_signature sm2_signature_der_is_valid dilithium_verify hybrid_sm2_verify take
    drop replicate bytes_eq
apart_verified = refl

hybrid_verify-Verified_example :
    (k : HybridPublicKey Bytes) × (s : HybridSignature) × (d : Bytes) × (e : Bytes) × (some apart
      ≡ some s)
    × (s.dilithium_signature ≡ bytes d)
    × (s.sm2_signature ≡ bytes e)
    × (k.sm2_public_key ≡ some toy_sm2_key)
    × (bytes k.dilithium_public_key ≡ dilithium_public)
    × Verified toy k message (null 0) (bytes (d ++ e))
hybrid_verify-Verified_example =
    hybrid_verify-Verified toy (some toy_sm2_key) dilithium_public message (some apart) tt
      apart_verified

hybrid_sign_verifies_example :
    (s : HybridSignature) × ((hybrid_sign toy
        (some toy_sm2_key)
        (bytes (replicate 2560 6))
        message
        (some apart)
        tt).0
      ≡ true)
    × ((hybrid_sign toy (some toy_sm2_key) (bytes (replicate 2560 6)) message (some apart) tt).1
        ≡ some s)
    × ((v : Unit {0})
        → (hybrid_verify toy (some toy_sm2_key) dilithium_public message (some s) v).0 ≡ true)
hybrid_sign_verifies_example =
    hybrid_sign_verifies toy toy-IsSteady toy_sm2_key toy_sm2_key (replicate 2560 6)
      (replicate 1312 5) toy-KeyPair message apart tt refl
