-- ===== src/CompositeKey/RoundTrip.antt =====
-- The serialized public key: the Dilithium2 key in front, the SM2 point behind.
use hybrid_pqc_cert.Prelude.{
  ℕ, ◌≡◌, true, some, arith, ◌++◌, Bytes, Slice, null, bytes, length, take, drop, refl, CanReturn,
  AlwaysReturns, take-append, drop-append, take-append-drop, length-append, length-take,
  Option-cases, inl, inr,
}
use hybrid_pqc_cert.Crypto.{Crypto, Pkey}
use hybrid_pqc_cert.Dilithium.{public_key_bytes}
use hybrid_pqc_cert.CompositeKey.{
  HybridPublicKey, sm2_octets, composite_public_key_bytes, is_uncompressed,
  serialize_sm2_public_key, serialize_public_key, parse_sm2_public_key, parse_public_key,
}

-- Documented behaviour of EVP on SM2 points, with memory to spare: points are exported without
-- compression, which is the default, so a key imported from an uncompressed point exports it again;
-- and exported octets can be imported and checked.
pub record HasSm2Points (C : Crypto) : Type 0 where
  pub malloc_steady : (n : ℕ) → AlwaysReturns (C.malloc n) tt
  pub ctx_from_name_steady : AlwaysReturns C.evp_pkey_ctx_new_from_name tt
  pub ctx_from_pkey_steady : (k : C.Key) → AlwaysReturns (C.evp_pkey_ctx_new_from_pkey k) tt
  pub fromdata_init_steady : AlwaysReturns C.evp_pkey_fromdata_init tt
  pub imported_is_sm2 :
      (encoded : Bytes) (w : C.World) {k : Pkey C.Key}
      → (C.evp_pkey_fromdata encoded w).0 ≡ some k
      → C.evp_pkey_is_sm2 k.key ≡ true
  pub imported_octets :
      (encoded : Bytes) (v w : C.World) {k : Pkey C.Key}
      → length encoded ≡ sm2_octets
      → is_uncompressed encoded ≡ true
      → (C.evp_pkey_fromdata encoded w).0 ≡ some k
      → (C.evp_pkey_get_public_octets k.key sm2_octets v).0 ≡ some encoded
  pub import : Bytes → C.World → Pkey C.Key
  pub exported_imports :
      (k : C.Key) (v w : C.World) {encoded : Bytes}
      → C.evp_pkey_is_sm2 k ≡ true
      → (C.evp_pkey_get_public_octets k sm2_octets v).0 ≡ some encoded
      → (C.evp_pkey_fromdata encoded w).0 ≡ some (import encoded w)
  pub exported_checks :
      (k : C.Key) (v w u : C.World) {encoded : Bytes}
      → C.evp_pkey_is_sm2 k ≡ true
      → (C.evp_pkey_get_public_octets k sm2_octets v).0 ≡ some encoded
      → (C.evp_pkey_public_check (import encoded w).key u).0 ≡ some tt

module _ (C : Crypto) where
  parse_sm2_public_key_lem :
      (encoded : Bytes) (w : C.World) {pkey : Pkey C.Key}
      → (parse_sm2_public_key C (bytes encoded) w).0 ≡ some pkey
      → (length encoded ≡ sm2_octets)
        × (is_uncompressed encoded ≡ true)
        × CanReturn (C.evp_pkey_fromdata encoded) pkey
        × CanReturn (C.evp_pkey_public_check pkey.key) tt
  unfolding parse_sm2_public_key
  parse_sm2_public_key_lem encoded w {pkey} h =
      let w1 = (C.evp_pkey_ctx_new_from_name w).1 in
      let w2 = (C.evp_pkey_fromdata_init w1).1 in
      let w3 = (C.evp_pkey_fromdata encoded w2).1 in
      (
        ground arith,
        ground arith,
        (w2, ground arith),
        ((C.evp_pkey_ctx_new_from_pkey pkey.key w3).1, ground arith),
      )

  -- What is parsed is the whole input, of the one accepted length, with an uncompressed point that
  -- libcrypto imports and that passes its check.
  parse_public_key_layout :
      (slice : Slice) (w : C.World) {key : HybridPublicKey C.Key}
      → (parse_public_key C slice w).0 ≡ some key
      → (point : Bytes) × (pkey : Pkey C.Key) × (slice ≡ bytes (key.dilithium_public_key ++ point))
        × (length key.dilithium_public_key ≡ public_key_bytes)
        × (length point ≡ sm2_octets)
        × (is_uncompressed point ≡ true)
        × (key.sm2_public_key ≡ some pkey)
        × CanReturn (C.evp_pkey_fromdata point) pkey
        × CanReturn (C.evp_pkey_public_check pkey.key) tt
  unfolding parse_public_key
  parse_public_key_layout (null n) w h = cc
  parse_public_key_layout (bytes b) w {key} h =
      let point : Bytes = drop public_key_bytes b in
      elim (Option-cases (parse_sm2_public_key C (bytes point) w).0) [
        | inl e ↦ absurd (ground arith)
        | inr (pkey, e) ↦
            let d : key.dilithium_public_key ≡ take public_key_bytes b = ground arith in
            let l : length b ≡ composite_public_key_bytes = ground arith in
            let (n, u, i, c) = parse_sm2_public_key_lem point w e in
            (
              point,
              pkey,
              rw (d, take-append-drop public_key_bytes b),
              rw d (omega (arith, length-take public_key_bytes b)),
              n,
              u,
              ground arith,
              i,
              c,
            )
      ]

  serialize_sm2_public_key_lem :
      (k : Pkey C.Key) (w : C.World) {point : Bytes}
      → (serialize_sm2_public_key C (some k) w).0 ≡ some point
      → (C.evp_pkey_is_sm2 k.key ≡ true)
        × ((C.evp_pkey_get_public_octets k.key sm2_octets w).0 ≡ some point)
        × (length point ≡ sm2_octets)
        × (is_uncompressed point ≡ true)
  unfolding serialize_sm2_public_key
  serialize_sm2_public_key_lem k w h = ground arith

  serialize_public_key_layout :
      (key : HybridPublicKey C.Key) (w : C.World) {out : Bytes}
      → (serialize_public_key C (some key) w).0 ≡ some out
      → (k : Pkey C.Key) × (point : Bytes) × (key.sm2_public_key ≡ some k)
        × ((serialize_sm2_public_key C (some k) (C.malloc composite_public_key_bytes w).1).0
            ≡ some point)
        × (out ≡ key.dilithium_public_key ++ point)
  unfolding serialize_public_key
  serialize_public_key_layout key w h = elim (Option-cases key.sm2_public_key) [
    | inl e ↦ absurd (ground arith)
    | inr (k, e) ↦
        elim (Option-cases
          (serialize_sm2_public_key C (some k) (C.malloc composite_public_key_bytes w).1).0) [
            | inl f ↦ absurd (ground arith)
            | inr (point, f) ↦ (k, point, e, f, ground arith)
          ]
  ]

module _ (C : Crypto) (points : HasSm2Points C) where
  import_world : C.World → C.World
  import_world v = (C.evp_pkey_fromdata_init (C.evp_pkey_ctx_new_from_name v).1).1

  parse-append :
      (d point : Bytes) (k : C.Key) (w v : C.World)
      → length d ≡ public_key_bytes
      → C.evp_pkey_is_sm2 k ≡ true
      → (C.evp_pkey_get_public_octets k sm2_octets w).0 ≡ some point
      → length point ≡ sm2_octets
      → is_uncompressed point ≡ true
      → (parse_public_key C (bytes (d ++ point)) v).0
        ≡ some (record {
          sm2_public_key = some (points.import point (import_world v));
          dilithium_public_key = d;
        })
  unfolding parse_public_key parse_sm2_public_key import_world
  parse-append d point k w v l sm2 g n u =
      let v1 = (C.evp_pkey_ctx_new_from_name v).1 in
      let v2 = (C.evp_pkey_fromdata_init v1).1 in
      let v3 = (C.evp_pkey_fromdata point v2).1 in
      let imported = points.import point v2 in
      rw
        (
          drop-append public_key_bytes d point l,
          take-append public_key_bytes d point l,
          length-append d point,
        )
        (ground (
          arith,
          points.ctx_from_name_steady v,
          points.fromdata_init_steady v1,
          points.exported_imports k w v2 sm2 g,
          points.ctx_from_pkey_steady imported.key v3,
          points.exported_checks k w v2 (C.evp_pkey_ctx_new_from_pkey imported.key v3).1 sm2 g,
        ))

  -- With memory to spare, and where libcrypto exports an imported uncompressed point as it was,
  -- the bytes that a key was parsed from are what it is serialized into.
  pub serialize_public_key-parse :
      (b : Bytes) (w : C.World) {key : HybridPublicKey C.Key}
      → (parse_public_key C (bytes b) w).0 ≡ some key
      → AlwaysReturns (serialize_public_key C (some key)) b
  unfolding serialize_public_key serialize_sm2_public_key
  serialize_public_key-parse b w {key} h v =
      let (point, pkey, e, l, n, u, k, i, c) = parse_public_key_layout C (bytes b) w h in
      ground (
        arith,
        points.malloc_steady composite_public_key_bytes v,
        points.imported_is_sm2 point i.0 i.1,
        points.imported_octets point (C.malloc composite_public_key_bytes v).1 i.0 n u i.1,
      )

  -- With memory to spare, and where libcrypto imports, as a valid key, the octets it has exported,
  -- and exports an imported uncompressed point as it was: what a key, with a Dilithium2 part of the
  -- right length, is serialized into is parsed as a key with the same Dilithium2 part, and that is
  -- serialized again into the same bytes.
  pub parse_public_key-serialize :
      (key : HybridPublicKey C.Key) (w v : C.World) {out : Bytes}
      → length key.dilithium_public_key ≡ public_key_bytes
      → (serialize_public_key C (some key) w).0 ≡ some out
      → (parsed : HybridPublicKey C.Key) × ((parse_public_key C (bytes out) v).0 ≡ some parsed)
        × (parsed.dilithium_public_key ≡ key.dilithium_public_key)
        × AlwaysReturns (serialize_public_key C (some parsed)) out
  parse_public_key-serialize key w v {out} l h =
      let (k, point, e, s, o) = serialize_public_key_layout C key w h in
      let (sm2, g, n, u) = serialize_sm2_public_key_lem C k _ s in
      let parsed = parse-append key.dilithium_public_key point k.key _ v l sm2 g n u in
      (
        record {
          sm2_public_key = some (points.import point (import_world v));
          dilithium_public_key = key.dilithium_public_key;
        },
        rw o parsed,
        refl,
        serialize_public_key-parse out v (rw o parsed),
      )
