-- ===== src/HybridSign.antt =====
-- src/hybrid_sign.c: signing and verifying with the two signatures kept apart.
pub mod Laws
use hybrid_pqc_cert.Prelude.{
  ℕ, Bool, true, false, ◌&&◌, not, Option, none, some, Bytes, Slice, null, bytes, length, ◌==◌,
  Prog, ◌>>=◌, ◌>>◌, pure, guard, from_option, present, attempt, is_some, Out,
}
use hybrid_pqc_cert.Crypto.{Crypto, Pkey}
use hybrid_pqc_cert.Dilithium.{public_key_bytes, secret_key_bytes}
use hybrid_pqc_cert.CompositeKey.{HybridPrivateKey, HybridPublicKey}
use hybrid_pqc_cert.CompositeSig.{sign, parse_signature, serialize_signature, composite_verify}

-- HYBRID_SIGNATURE
pub record HybridSignature : Type 0 where
  pub sm2_signature : Slice
  pub dilithium_signature : Slice

abbrev pub zero_signature : HybridSignature
zero_signature = record { sm2_signature = null 0; dilithium_signature = null 0 }

unfoldable pub hybrid_signature_init : Out HybridSignature → Out HybridSignature
hybrid_signature_init none = none
hybrid_signature_init (some s) = some zero_signature

-- The buffers that it frees are not part of the model.
unfoldable pub hybrid_signature_cleanup : Out HybridSignature → Out HybridSignature
unfolding hybrid_signature_init
hybrid_signature_cleanup none = none
hybrid_signature_cleanup (some s) = hybrid_signature_init (some s)

module _ (C : Crypto) where
  open C use {World, Key, malloc}

  -- `hybrid_sign` up to the copies: the Dilithium2 and the SM2 signature. Both buffers are asked for
  -- before the first is looked at.
  unfoldable pub sign_components : Option (Pkey Key) → Slice → Slice → Prog World (Bytes × Bytes)
  sign_components sm2_private_key dilithium_secret_key message = do
    k ← from_option sm2_private_key
    sk ← present dilithium_secret_key
    guard (length sk == secret_key_bytes)
    serialized ←
        sign C (some (record { sm2_private_key = some k; dilithium_secret_key = sk })) message
          (null 0)
    (dilithium, sm2) ← parse_signature C (bytes serialized)
    dilithium_buffer ← attempt (malloc (length dilithium))
    sm2_buffer ← attempt (malloc (length sm2))
    guard (is_some dilithium_buffer && is_some sm2_buffer)
    pure (dilithium, sm2)

  unfoldable pub hybrid_sign :
      Option (Pkey Key)
      → Slice
      → Slice
      → Out HybridSignature
      → World
      → Bool × Out HybridSignature × World
  unfolding hybrid_signature_cleanup
  hybrid_sign sm2_private_key dilithium_secret_key message none w = (false, none, w)
  hybrid_sign sm2_private_key dilithium_secret_key message (some signature) w =
      let r = sign_components sm2_private_key dilithium_secret_key message w in
      elim r.0 [
        | none ↦ (false, hybrid_signature_cleanup (some signature), r.1)
        | some (dilithium, sm2) ↦ (
          true,
          some (record { sm2_signature = bytes sm2; dilithium_signature = bytes dilithium }),
          r.1,
        )
      ]

  -- The tests of `hybrid_verify` on its arguments, and the serialized signature.
  unfoldable pub verify_inputs :
      Option (Pkey Key) → Slice → Option HybridSignature → Prog World (HybridPublicKey Key × Bytes)
  verify_inputs sm2_public_key dilithium_public_key signature = do
    s ← from_option signature
    k ← from_option sm2_public_key
    pk ← present dilithium_public_key
    guard (length pk == public_key_bytes)
    serialized ← serialize_signature C s.dilithium_signature s.sm2_signature
    pure (record { sm2_public_key = some k; dilithium_public_key = pk }, serialized)

  unfoldable pub hybrid_verify :
      Option (Pkey Key) → Slice → Slice → Option HybridSignature → World → Bool × World
  hybrid_verify sm2_public_key dilithium_public_key message signature w =
      let r = verify_inputs sm2_public_key dilithium_public_key signature w in
      elim r.0 [
        | none ↦ (false, r.1)
        | some (key, serialized) ↦
            composite_verify C (some key) message (null 0) (bytes serialized) r.1
      ]
