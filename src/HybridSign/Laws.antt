-- ===== src/HybridSign/Laws.antt =====
-- The separate signatures stand for the composite one, with an empty context.
use hybrid_pqc_cert.Prelude.{
  ◌≡◌, true, false, Option, none, some, arith, ◌++◌, Bytes, Slice, null, bytes, length, refl,
  Option-cases, inl, inr,
}
use hybrid_pqc_cert.Crypto.{Crypto, Pkey}
use hybrid_pqc_cert.Crypto.Laws.{IsSteady}
use hybrid_pqc_cert.Dilithium.{is_missing, signature_bytes}
use hybrid_pqc_cert.CompositeKey.{HybridPrivateKey, HybridPublicKey}
use hybrid_pqc_cert.CompositeSig.{sign, parse_signature, serialize_signature, composite_verify}
use hybrid_pqc_cert.CompositeSig.Format.{serialize_signature_layout, parse-append}
use hybrid_pqc_cert.CompositeSig.Der.{IsCanonical}
use hybrid_pqc_cert.CompositeSig.Verify.{Verified, composite_verify-Verified}
use hybrid_pqc_cert.CompositeSig.Complete.{KeyPair, sign_verifies, serialize_signature-total}
use hybrid_pqc_cert.HybridSign.{
  HybridSignature, zero_signature, sign_components, hybrid_sign, verify_inputs, hybrid_verify,
}

module _ (C : Crypto) where
  -- A signing that fails leaves a structure with no signatures, not the one that was passed in.
  hybrid_sign_failed :
      (k : Option (Pkey C.Key)) (sk message : Slice) (signature : HybridSignature) (w : C.World)
      → (hybrid_sign C k sk message (some signature) w).0 ≡ false
      → (hybrid_sign C k sk message (some signature) w).1 ≡ some zero_signature
  unfolding hybrid_sign
  hybrid_sign_failed k sk message signature w h = ground arith

  verify_inputs_lem :
      (k : Option (Pkey C.Key)) (pk : Slice) (signature : Option HybridSignature) (w : C.World)
      {key : HybridPublicKey C.Key} {serialized : Bytes}
      → (verify_inputs C k pk signature w).0 ≡ some (key, serialized)
      → (s : HybridSignature) × (signature ≡ some s)
        × (key.sm2_public_key ≡ k)
        × (bytes key.dilithium_public_key ≡ pk)
        × ((serialize_signature C s.dilithium_signature s.sm2_signature w).0 ≡ some serialized)
  unfolding verify_inputs
  verify_inputs_lem k (null n) none w h = cc
  verify_inputs_lem k (bytes pk) none w h = cc
  verify_inputs_lem none (null n) (some s) w h = cc
  verify_inputs_lem (some k) (null n) (some s) w h = cc
  verify_inputs_lem none (bytes pk) (some s) w h = cc
  verify_inputs_lem (some k) (bytes pk) (some s) w h =
      (s, refl, ground arith, ground arith, ground arith)

  accepted :
      (k : Option (Pkey C.Key)) (pk message : Slice) (signature : Option HybridSignature)
      (w : C.World) (key : HybridPublicKey C.Key) (serialized : Bytes)
      → (verify_inputs C k pk signature w).0 ≡ some (key, serialized)
      → (hybrid_verify C k pk message signature w).0 ≡ true
      → (composite_verify C
          (some key)
          message
          (null 0)
          (bytes serialized)
          (verify_inputs C k pk signature w).1).0
        ≡ true
  unfolding hybrid_verify
  accepted k pk message signature w key serialized e h = ground arith

  -- What `hybrid_verify` accepts is a composite signature over the empty context.
  pub hybrid_verify-Verified :
      (k : Option (Pkey C.Key)) (pk message : Slice) (signature : Option HybridSignature)
      (w : C.World)
      → (hybrid_verify C k pk message signature w).0 ≡ true
      → (public_key : HybridPublicKey C.Key) × (s : HybridSignature) × (d : Bytes) × (e : Bytes)
        × (signature ≡ some s)
        × (s.dilithium_signature ≡ bytes d)
        × (s.sm2_signature ≡ bytes e)
        × (public_key.sm2_public_key ≡ k)
        × (bytes public_key.dilithium_public_key ≡ pk)
        × Verified C public_key message (null 0) (bytes (d ++ e))
  unfolding hybrid_verify
  hybrid_verify-Verified k pk message signature w h =
      elim (Option-cases (verify_inputs C k pk signature w).0) [
        | inl e ↦ absurd (ground arith)
        | inr ((key, serialized), e) ↦
            let (s, f, l, m, n) = verify_inputs_lem k pk signature w e in
            let (d, t, g, i, _, _, j) =
              serialize_signature_layout C s.dilithium_signature s.sm2_signature w n in
            let (key', p, v) =
              composite_verify-Verified C (some key) message (null 0) (bytes serialized) _
                (accepted k pk message signature w key serialized e h) in
            let same : key ≡ key' = ground arith in
            (key, s, d, t, f, g, i, l, m, rw (← j) (rw same v))
      ]

module _ (C : Crypto) (steady : IsSteady C) (k k' : Pkey C.Key) (sk pk : Bytes)
    (pair : KeyPair C
      (record { sm2_private_key = some k; dilithium_secret_key = sk })
      (record { sm2_public_key = some k'; dilithium_public_key = pk })) where
  sign_components-sign :
      (message : Slice) (w : C.World) {out d s : Bytes}
      → let private : HybridPrivateKey C.Key = record {
        sm2_private_key = some k;
        dilithium_secret_key = sk;
      } in
        (sign C (some private) message (null 0) w).0 ≡ some out
        → (parse_signature C (bytes out) (sign C (some private) message (null 0) w).1).0
          ≡ some (d, s)
        → (sign_components C (some k) (bytes sk) message w).0 ≡ some (d, s)
  unfolding sign_components
  sign_components-sign message w {out} {d} {s} e p =
      let private : HybridPrivateKey C.Key = record {
        sm2_private_key = some k;
        dilithium_secret_key = sk;
      } in
      let w1 = (sign C (some private) message (null 0) w).1 in
      let w2 = (parse_signature C (bytes out) w1).1 in
      ground (
        arith,
        pair.dilithium.sk_length,
        e,
        p,
        steady.malloc_steady (length d) w2,
        steady.malloc_steady (length s) (C.malloc (length d) w2).1,
      )

  verify_inputs-serialize :
      (d s : Bytes) (v : C.World)
      → length d ≡ signature_bytes
      → IsCanonical C s
      → (verify_inputs C
          (some k')
          (bytes pk)
          (some (record { sm2_signature = bytes s; dilithium_signature = bytes d }))
          v).0
        ≡ some (record { sm2_public_key = some k'; dilithium_public_key = pk }, d ++ s)
  unfolding verify_inputs
  verify_inputs-serialize d s v l c =
      ground (arith, pair.dilithium.pk_length, serialize_signature-total C steady d s l c v)

  -- Where the private and the public key belong together, memory does not run out, and digests and
  -- the DER coding of signatures do not change between calls: `hybrid_sign` signs every message that
  -- is not missing, and in every world `hybrid_verify` accepts what it puts into the structure.
  pub hybrid_sign_verifies :
      (message : Slice) (old : HybridSignature) (w : C.World)
      → is_missing message ≡ false
      → (signature : HybridSignature) × ((hybrid_sign C (some k) (bytes sk) message (some old) w).0
          ≡ true)
        × ((hybrid_sign C (some k) (bytes sk) message (some old) w).1 ≡ some signature)
        × ((v : C.World)
            → (hybrid_verify C (some k') (bytes pk) message (some signature) v).0 ≡ true)
  unfolding hybrid_sign hybrid_verify
  hybrid_sign_verifies message old w m =
      let (out, e, verifies) =
        sign_verifies C steady _ _ pair message (null 0) w m refl (omega arith) in
      let w1 =
        (sign C (some (record { sm2_private_key = some k; dilithium_secret_key = sk })) message
          (null 0) w).1 in
      let (_, _, v) = composite_verify-Verified C _ message (null 0) (bytes out) w (verifies w) in
      let w2 = (parse_signature C (bytes out) w1).1 in
      let d = v.dilithium in
      let s = v.sm2 in
      let whole : out ≡ d ++ s = cc (v.split) in
      let parsed : (parse_signature C (bytes out) w1).0 ≡ some (d, s) =
        rw v.split (parse-append C steady d s v.dilithium_length v.canonical w1) in
      let stored : (sign_components C (some k) (bytes sk) message w).0 ≡ some (d, s) =
        sign_components-sign message w e parsed in
      let signature : HybridSignature = record {
        sm2_signature = bytes s;
        dilithium_signature = bytes d;
      } in
      (
        signature,
        ground (arith, stored),
        ground (arith, stored),
        λ u. ground (
          arith,
          verify_inputs-serialize d s u v.dilithium_length v.canonical,
          verifies (verify_inputs C (some k') (bytes pk) (some signature) u).1,
          whole,
        ),
      )
