-- ===== src/X509.antt =====
-- src/hybrid_x509.c, the functions that read a certificate (from hybrid_x509_get_tbs_der on).
pub mod Laws
use hybrid_pqc_cert.Prelude.{
  ℕ, ◌+◌, Bool, true, false, not, ◌&&◌, Option, none, some, [], ◌∷◌, Bytes, Slice, null, bytes,
  codes, length, replicate, bytes_eq, ◌==◌, Prog, ◌>>=◌, ◌>>◌, pure, guard, from_option, is_some,
  Out, Returned, export,
}
use hybrid_pqc_cert.Crypto.{Crypto, Pkey}
use hybrid_pqc_cert.Pki.{Pki, Algorithm}
use hybrid_pqc_cert.CompositeKey.{
  HybridPublicKey, sm2_octets, is_uncompressed, serialize_public_key, parse_public_key,
}

-- COMPOSITE_SM2_DILITHIUM_EXPERIMENTAL_OID
abbrev pub composite_oid : Bytes
composite_oid = codes "1.3.6.1.4.1.32473.1.1"

-- HYBRID_PQC_EXTENSION_OID
abbrev pub pqc_extension_oid : Bytes
pqc_extension_oid = codes "1.3.6.1.4.1.2.267.7"

-- The DER encoding of NULL.
abbrev pub der_null : Bytes
der_null = 5 ∷ 0 ∷ []

module _ (C : Crypto) (P : Pki C) where
  open C use {World, Key}
  open P use {X509, Oid}

  -- The work of `hybrid_x509_get_tbs_der`.
  unfoldable pub get_tbs_der : Option X509 → Prog World Bytes
  get_tbs_der certificate = do
    c ← from_option certificate
    output ← P.i2d_re_x509_tbs c
    guard (not (length output == 0))
    pure output

  pub hybrid_x509_get_tbs_der : Option X509 → Out (Option Bytes) → Out ℕ → World → Returned World
  hybrid_x509_get_tbs_der certificate der der_len = export der der_len (get_tbs_der certificate)

  text_is_composite : Option Bytes → Bool
  text_is_composite none = false
  text_is_composite (some text) = not (length text == 0) && bytes_eq text composite_oid

  object_is_composite : Option Oid → Bool
  object_is_composite none = false
  object_is_composite (some object) = text_is_composite (P.obj_obj2txt object)

  unfoldable pub algorithm_is_composite_and_absent : Option (Algorithm Oid) → Bool
  unfolding object_is_composite text_is_composite
  algorithm_is_composite_and_absent none = false
  algorithm_is_composite_and_absent (some a) = a.parameters_absent && object_is_composite a.object

  -- `OBJ_cmp(tbs->algorithm, outer->algorithm) == 0`, reached when both have an object.
  same_object : Option (Algorithm Oid) → Option (Algorithm Oid) → Bool
  same_object none outer = false
  same_object (some tbs) none = false
  same_object (some tbs) (some outer) = elim tbs.object [
    | none ↦ false
    | some t ↦ elim outer.object [ none ↦ false | some o ↦ P.obj_eq t o ]
  ]

  unfoldable pub hybrid_x509_composite_signature_algorithms_valid : Option X509 → Bool
  unfolding algorithm_is_composite_and_absent same_object
  hybrid_x509_composite_signature_algorithms_valid none = false
  hybrid_x509_composite_signature_algorithms_valid (some c) =
      is_some (P.get0_signature_value c)
      && algorithm_is_composite_and_absent (P.get0_tbs_sigalg c)
      && algorithm_is_composite_and_absent (P.get0_signature_algorithm c)
      && same_object (P.get0_tbs_sigalg c) (P.get0_signature_algorithm c)

  -- The key bits and the algorithm of a subject public key.
  spki_param : X509 → Option (Bytes × Option (Algorithm Oid))
  spki_param c = elim (P.get_x509_pubkey c) [ none ↦ none | some spki ↦ P.pubkey_get0_param spki ]

  unfoldable pub hybrid_x509_subject_public_key_is_composite : Option X509 → Bool
  unfolding spki_param algorithm_is_composite_and_absent
  hybrid_x509_subject_public_key_is_composite none = false
  hybrid_x509_subject_public_key_is_composite (some c) = elim (spki_param c) [
    | none ↦ false
    | some (key_bits, algorithm) ↦ algorithm_is_composite_and_absent algorithm
  ]

  unfoldable pub hybrid_x509_subject_public_key_is_sm2 : Option X509 → Prog World (Unit {0})
  hybrid_x509_subject_public_key_is_sm2 certificate = do
    c ← from_option certificate
    key ← P.get_pubkey c
    guard (C.evp_pkey_is_sm2 key.key)

  unfoldable pub hybrid_x509_composite_algorithms_valid : Option X509 → Bool
  hybrid_x509_composite_algorithms_valid certificate =
      hybrid_x509_composite_signature_algorithms_valid certificate
      && hybrid_x509_subject_public_key_is_composite certificate

  -- `hybrid_x509_get_composite_public_key`: the key that is stored on success. A failure leaves the
  -- structure that was passed in alone.
  unfoldable pub hybrid_x509_get_composite_public_key :
      Option X509 → Prog World (HybridPublicKey Key)
  unfolding spki_param
  hybrid_x509_get_composite_public_key certificate = do
    c ← from_option certificate
    bits ← from_option (P.get0_pubkey_bitstr c)
    guard (bits.unused_bits == 0)
    (serialized, algorithm) ← from_option (spki_param c)
    guard (algorithm_is_composite_and_absent algorithm)
    guard (not (length serialized == 0))
    parse_public_key C (bytes serialized)

  -- Success is the return value 1, here and below.
  unfoldable pub hybrid_x509_public_key_matches :
      Option X509 → Option (HybridPublicKey Key) → Prog World (Unit {0})
  hybrid_x509_public_key_matches certificate public_key = do
    c ← from_option certificate
    loaded ← from_option public_key
    certificate_key ← hybrid_x509_get_composite_public_key (some c)
    certificate_bytes ← serialize_public_key C (some certificate_key)
    loaded_bytes ← serialize_public_key C (some loaded)
    guard (length certificate_bytes == length loaded_bytes)
    guard (bytes_eq certificate_bytes loaded_bytes)

  get_sm2_octets : X509 → Prog World Bytes
  get_sm2_octets c = do
    key ← P.get_pubkey c
    guard (C.evp_pkey_is_sm2 key.key)
    output ← C.evp_pkey_get_public_octets key.key sm2_octets
    guard (length output == sm2_octets && is_uncompressed output)
    pure output

  -- The return value and what the output buffer holds: zeros if the octets cannot be had.
  unfoldable pub hybrid_x509_get_sm2_public_key_octets :
      Option X509 → Out Bytes → World → Bool × Out Bytes × World
  unfolding get_sm2_octets
  hybrid_x509_get_sm2_public_key_octets none output w = (false, output, w)
  hybrid_x509_get_sm2_public_key_octets (some c) none w = (false, none, w)
  hybrid_x509_get_sm2_public_key_octets (some c) (some old) w =
      let r = get_sm2_octets c w in
      elim r.0 [
        | none ↦ (false, some (replicate sm2_octets 0), r.1)
        | some octets ↦ (true, some octets, r.1)
      ]

  pub hybrid_x509_sm2_public_key_matches : Option X509 → Option (Pkey Key) → Prog World (Unit {0})
  unfolding get_sm2_octets
  hybrid_x509_sm2_public_key_matches certificate public_key = do
    c ← from_option certificate
    k ← from_option public_key
    guard (C.evp_pkey_is_sm2 k.key)
    certificate_bytes ← get_sm2_octets c
    supplied_bytes ← C.evp_pkey_get_public_octets k.key sm2_octets
    guard (length supplied_bytes == sm2_octets)
    guard (bytes_eq certificate_bytes supplied_bytes)

  -- The work of `hybrid_x509_get_signature`, which returns a part of the certificate.
  unfoldable pub get_signature : Option X509 → Option Bytes
  get_signature none = none
  get_signature (some c) = elim (P.get0_signature_value c) [
    | none ↦ none
    | some value ↦ elim (value.unused_bits == 0 && not (length value.content == 0)) [
      | true ↦ some value.content
      | false ↦ none
    ]
  ]

  pub hybrid_x509_get_signature : Option X509 → Out (Option Bytes) → Out ℕ → World → Returned World
  hybrid_x509_get_signature certificate signature signature_len =
      export signature signature_len (from_option (get_signature certificate))

  unfoldable pub hybrid_x509_has_pqc_extension : Option X509 → Prog World (Unit {0})
  hybrid_x509_has_pqc_extension certificate = do
    c ← from_option certificate
    object ← P.obj_txt2obj pqc_extension_oid
    first ← from_option (P.get_ext_by_obj c object 0)
    guard (not (is_some (P.get_ext_by_obj c object (first + 1))))
    extension ← from_option (P.get_ext c first)
    guard (not extension.is_critical)
    value ← from_option extension.value
    guard (length value == 2)
    guard (bytes_eq value der_null)
