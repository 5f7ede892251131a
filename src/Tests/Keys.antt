-- ===== src/Tests/Keys.antt =====
-- The theorems on keys at one key pair and one encoding.
use hybrid_pqc_cert.Prelude.{
  ℕ, ◌≡◌, refl, some, ◌++◌, Bytes, bytes, replicate, take, drop, AlwaysReturns, length-replicate,
}
use hybrid_pqc_cert.CompositeKey.{
  HybridPublicKey, References, State, zero_private_key, zero_public_key, composite_key_generate,
  parse_sm2_public_key, parse_public_key, serialize_sm2_public_key, serialize_public_key,
}
use hybrid_pqc_cert.CompositeKey.References.{Accounted, composite_key_generate-Accounted}
use hybrid_pqc_cert.CompositeKey.RoundTrip.{serialize_public_key-parse, parse_public_key-serialize}
use hybrid_pqc_cert.Tests.Toy.{toy, toy-HasSm2Points, toy_public, point}

abbrev nothing_held : References
nothing_held a = 0

abbrev start : State toy
start = record { world = tt; references = nothing_held }

composite_key_generate-Accounted_example :
    let g = composite_key_generate toy (some zero_private_key) (some zero_public_key) start in
    Accounted nothing_held g.private_key g.public_key g.state.references
composite_key_generate-Accounted_example =
    composite_key_generate-Accounted toy nothing_held (some zero_private_key) (some zero_public_key)
      start (λ a. refl)

abbrev encoding : Bytes
encoding = replicate 1312 5 ++ point

abbrev parsed_key : HybridPublicKey Bytes
parsed_key = record {
  sm2_public_key = some (record { address = 2; key = point });
  dilithium_public_key = replicate 1312 5;
}

parsed : (parse_public_key toy (bytes encoding) tt).0 ≡ some parsed_key
unfolding parse_public_key parse_sm2_public_key take drop replicate
parsed = refl

serialize_public_key-parse_example :
    AlwaysReturns (serialize_public_key toy (some parsed_key)) encoding
serialize_public_key-parse_example =
    serialize_public_key-parse toy toy-HasSm2Points encoding tt parsed

serialized : (serialize_public_key toy (some toy_public) tt).0 ≡ some encoding
unfolding serialize_public_key serialize_sm2_public_key replicate
serialized = refl

parse_public_key-serialize_example :
    (k : HybridPublicKey Bytes) × ((parse_public_key toy (bytes encoding) tt).0 ≡ some k)
    × (k.dilithium_public_key ≡ toy_public.dilithium_public_key)
    × AlwaysReturns (serialize_public_key toy (some k)) encoding
parse_public_key-serialize_example =
    parse_public_key-serialize toy toy-HasSm2Points toy_public tt tt
      (length-replicate {A = ℕ} 1312 5) serialized
