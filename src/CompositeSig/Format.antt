-- ===== src/CompositeSig/Format.antt =====
-- The serialized signature: the Dilithium2 signature in front, the SM2 signature behind.
use hybrid_pqc_cert.Prelude.{
  null, refl, ◌+◌, ◌≡◌, some, arith, ◌++◌, Bytes, Slice, bytes, length, contents, take, drop,
  AlwaysReturns, take-append, drop-append, take-append-drop, length-append, length-take,
}
use hybrid_pqc_cert.Crypto.{Crypto}
use hybrid_pqc_cert.Crypto.Laws.{IsSteady}
use hybrid_pqc_cert.Dilithium.{signature_bytes}
use hybrid_pqc_cert.CompositeSig.{serialize_signature, parse_signature, sm2_signature_der_is_valid}
use hybrid_pqc_cert.CompositeSig.Der.{
  IsCanonical, der_is_valid-null, der_is_valid-IsCanonical, IsCanonical-der_is_valid,
}

module _ (C : Crypto) where
  -- What a serialized signature is made of.
  pub serialize_signature_layout :
      (dilithium sm2 : Slice) (w : C.World) {out : Bytes}
      → (serialize_signature C dilithium sm2 w).0 ≡ some out
      → (d s : Bytes) × (dilithium ≡ bytes d)
        × (sm2 ≡ bytes s)
        × (length d ≡ signature_bytes)
        × IsCanonical C s
        × (out ≡ d ++ s)
  unfolding serialize_signature
  serialize_signature_layout (null n) sm2 w h = cc
  serialize_signature_layout (bytes d) (null n) w h =
      absurd (ground (arith, der_is_valid-null C n w))
  serialize_signature_layout (bytes d) (bytes s) w h =
      (d, s, refl, refl, ground arith, der_is_valid-IsCanonical C s w (ground arith), ground arith)

  pub parse_signature_layout :
      (slice : Slice) (w : C.World) {d s : Bytes}
      → (parse_signature C slice w).0 ≡ some (d, s)
      → (slice ≡ bytes (d ++ s)) × (length d ≡ signature_bytes) × IsCanonical C s
  unfolding parse_signature
  parse_signature_layout (null n) w h = cc
  parse_signature_layout (bytes sig) w {d} {s} h =
      let parts : (d ≡ take signature_bytes sig) × (s ≡ drop signature_bytes sig) = ground arith in
      (
        rw (parts.0, parts.1, take-append-drop signature_bytes sig),
        rw parts.0 (ground (arith, length-take signature_bytes sig)),
        rw parts.1 (der_is_valid-IsCanonical C (drop signature_bytes sig) w (ground arith)),
      )

module _ (C : Crypto) (steady : IsSteady C) where
  pub parse-append :
      (d s : Bytes)
      → length d ≡ signature_bytes
      → IsCanonical C s
      → AlwaysReturns (parse_signature C (bytes (d ++ s))) (d, s)
  unfolding parse_signature
  parse-append d s l c v =
      rw (drop-append signature_bytes d s l, take-append signature_bytes d s l, length-append d s)
        (ground (arith, IsCanonical-der_is_valid C steady s c v, c.not_empty))

  -- A signature that was serialized is parsed into the parts that it was made of.
  pub parse_signature-serialize :
      (dilithium sm2 : Slice) (w : C.World) {out : Bytes}
      → (serialize_signature C dilithium sm2 w).0 ≡ some out
      → AlwaysReturns (parse_signature C (bytes out)) (contents dilithium, contents sm2)
  parse_signature-serialize dilithium sm2 w h v =
      let (d, s, e, e', l, c, o) = serialize_signature_layout C dilithium sm2 w h in
      rw (e, e', o) (parse-append d s l c v)

  -- A signature that was parsed is serialized into the bytes that it was parsed from.
  pub serialize_signature-parse :
      (signature : Bytes) (w : C.World) {d s : Bytes}
      → (parse_signature C (bytes signature) w).0 ≡ some (d, s)
      → AlwaysReturns (serialize_signature C (bytes d) (bytes s)) signature
  unfolding serialize_signature
  serialize_signature-parse signature w {d} {s} h v =
      let (e, l, c) = parse_signature_layout C (bytes signature) w h in
      ground (
        arith,
        IsCanonical-der_is_valid C steady s c v,
        c.not_long,
        steady.malloc_steady (signature_bytes + length s)
            (sm2_signature_der_is_valid C (bytes s) v).1,
      )
