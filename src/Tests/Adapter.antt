-- ===== src/Tests/Adapter.antt =====
-- The theorems on the adapter at short encodings of the certificates.
use hybrid_pqc_cert.Prelude.{
  ◌≡◌, ◌⊎◌, ◌↔◌, refl, true, Option, some, none, [], ◌∷◌, ◌++◌, Bytes, Slice, bytes, codes,
  replicate, take, drop, bytes_eq,
}
use hybrid_pqc_cert.Dilithium.{dilithium_verify}
use hybrid_pqc_cert.Sm2.{hybrid_sm2_verify}
use hybrid_pqc_cert.CompositeKey.{
  parse_sm2_public_key, parse_public_key, serialize_sm2_public_key,
  composite_get_sm2_public_key_octets,
}
use hybrid_pqc_cert.CompositeSig.{
  composite_verify_detailed, build_message, parse_signature, sm2_signature_der_is_valid,
}
use hybrid_pqc_cert.X509.{
  get_tbs_der, algorithm_is_composite_and_absent, hybrid_x509_composite_signature_algorithms_valid,
  hybrid_x509_subject_public_key_is_composite, hybrid_x509_subject_public_key_is_sm2,
  hybrid_x509_composite_algorithms_valid, hybrid_x509_get_composite_public_key, get_signature,
  hybrid_x509_has_pqc_extension,
}
use hybrid_pqc_cert.Chain.Checks.{
  usage_allows, usage_encrypts, has_server_auth, has_dns_name, identifiers_agree,
  certificate_time_valid, certificate_constraints_valid, encryption_certificate_constraints_valid,
  server_eku_valid, server_san_valid, subject_key_identifier_present, server_key_identifiers_valid,
}
use hybrid_pqc_cert.Chain.{
  signed_parts, verify_certificate_signature, verify_by_issuer, root_checks,
  hybrid_verify_root_self_signature, certificate_checks, hybrid_verify_certificate,
  encryption_checks, hybrid_verify_encryption_certificate, hybrid_verify_chain,
}
use hybrid_pqc_cert.Adapter.Types.{valid, invalid, not_applicable, Config, KeyBuffer, clear_buffer}
use hybrid_pqc_cert.Adapter.Scan.{
  composite_oid_der, contains_composite_oid, contains_composite_oid_iff,
}
use hybrid_pqc_cert.Adapter.{
  decode_der_strict, decode_next_certificate, certificate_mentions_composite,
  get_sm2_sign_public_key, tlcp_hybrid_cert_get_sm2_sign_public_key, verify_chain_of, host_ok,
  put_key, examine, tlcp_hybrid_cert_verify_der, first_certificate, check_encryption, verify_both,
  tlcp_hybrid_cert_gmssl_verify_callback,
}
use hybrid_pqc_cert.Adapter.Verdict.{
  CheckedSigning, ValidSigning, verify_der-ValidSigning, verify_der_malformed, verify_der_buffer,
}
use hybrid_pqc_cert.Adapter.Callback.{ValidPair, callback_undecodable, callback_valid-ValidPair}
use hybrid_pqc_cert.Tests.Toy.{toy}
use hybrid_pqc_cert.Tests.ToyPki.{toy_pki}

abbrev anchor : Slice
anchor = bytes (1 ∷ [])

abbrev hostname : Option Bytes
hostname = some (codes "a.example")

abbrev other_name : Option Bytes
other_name = some (codes "b.example")

abbrev buffer : KeyBuffer
buffer = some none

signing_valid :
    (tlcp_hybrid_cert_verify_der toy toy_pki (bytes (2 ∷ [])) anchor hostname buffer tt).result
    ≡ valid
unfolding tlcp_hybrid_cert_verify_der decode_der_strict certificate_mentions_composite examine
    verify_chain_of host_ok put_key tlcp_hybrid_cert_get_sm2_sign_public_key get_sm2_sign_public_key
    composite_get_sm2_public_key_octets serialize_sm2_public_key
    hybrid_x509_composite_algorithms_valid hybrid_verify_chain hybrid_verify_root_self_signature
    hybrid_verify_certificate root_checks certificate_checks signed_parts
    verify_certificate_signature verify_by_issuer usage_allows has_server_auth has_dns_name
    identifiers_agree certificate_time_valid certificate_constraints_valid server_eku_valid
    server_san_valid subject_key_identifier_present server_key_identifiers_valid get_tbs_der
    algorithm_is_composite_and_absent hybrid_x509_composite_signature_algorithms_valid
    hybrid_x509_subject_public_key_is_composite hybrid_x509_get_composite_public_key get_signature
    hybrid_x509_has_pqc_extension composite_verify_detailed build_message parse_signature
    sm2_signature_der_is_valid parse_sm2_public_key parse_public_key dilithium_verify
    hybrid_sm2_verify take drop replicate bytes_eq
signing_valid = refl

verify_der-ValidSigning_example :
    ValidSigning toy toy_pki
      (bytes (2 ∷ []))
      anchor
      hostname
      (tlcp_hybrid_cert_verify_der toy toy_pki
        (bytes (2 ∷ []))
        anchor
        hostname
        buffer
        tt).key_buffer
verify_der-ValidSigning_example =
    verify_der-ValidSigning toy toy_pki (bytes (2 ∷ [])) anchor hostname buffer tt signing_valid

abbrev config : Config
config = record { trust_anchor_der = anchor; expected_hostname = hostname; last_report = none }

pair_valid :
    (tlcp_hybrid_cert_gmssl_verify_callback toy toy_pki
      (bytes (2 ∷ 3 ∷ []))
      buffer
      (some config)
      tt).0
    ≡ valid
unfolding tlcp_hybrid_cert_gmssl_verify_callback verify_both first_certificate check_encryption
    decode_next_certificate hybrid_verify_encryption_certificate encryption_checks usage_encrypts
    encryption_certificate_constraints_valid hybrid_x509_subject_public_key_is_sm2
    tlcp_hybrid_cert_verify_der decode_der_strict certificate_mentions_composite examine
    verify_chain_of host_ok put_key tlcp_hybrid_cert_get_sm2_sign_public_key get_sm2_sign_public_key
    composite_get_sm2_public_key_octets serialize_sm2_public_key
    hybrid_x509_composite_algorithms_valid hybrid_verify_chain hybrid_verify_root_self_signature
    hybrid_verify_certificate root_checks certificate_checks signed_parts
    verify_certificate_signature verify_by_issuer usage_allows has_server_auth has_dns_name
    identifiers_agree certificate_time_valid certificate_constraints_valid server_eku_valid
    server_san_valid subject_key_identifier_present server_key_identifiers_valid get_tbs_der
    algorithm_is_composite_and_absent hybrid_x509_composite_signature_algorithms_valid
    hybrid_x509_subject_public_key_is_composite hybrid_x509_get_composite_public_key get_signature
    hybrid_x509_has_pqc_extension composite_verify_detailed build_message parse_signature
    sm2_signature_der_is_valid parse_sm2_public_key parse_public_key dilithium_verify
    hybrid_sm2_verify take drop replicate bytes_eq
pair_valid = refl

callback_valid-ValidPair_example :
    let r =
      tlcp_hybrid_cert_gmssl_verify_callback toy toy_pki
        (bytes (2 ∷ 3 ∷ []))
        buffer
        (some config)
        tt in
    (c : Config) × (some config ≡ some c) × ValidPair toy toy_pki (bytes (2 ∷ 3 ∷ [])) c r.1
callback_valid-ValidPair_example =
    callback_valid-ValidPair toy toy_pki (bytes (2 ∷ 3 ∷ [])) buffer (some config) tt pair_valid

abbrev malformed : Bytes
malformed = (48 ∷ []) ++ composite_oid_der ++ (0 ∷ [])

undecoded : (decode_der_strict toy toy_pki (bytes malformed) tt).0 ≡ none
unfolding decode_der_strict
undecoded = refl

verify_der_malformed_example :
    (tlcp_hybrid_cert_verify_der toy toy_pki (bytes malformed) anchor hostname buffer tt).result
    ≡ invalid
verify_der_malformed_example =
    verify_der_malformed toy toy_pki (48 ∷ []) (0 ∷ []) anchor hostname buffer tt undecoded

verify_der_buffer_example :
    let o = tlcp_hybrid_cert_verify_der toy toy_pki (bytes (2 ∷ [])) anchor other_name buffer tt in
    (o.key_buffer ≡ clear_buffer buffer)
    ⊎ CheckedSigning toy toy_pki (bytes (2 ∷ [])) anchor other_name
verify_der_buffer_example =
    verify_der_buffer toy toy_pki (bytes (2 ∷ [])) anchor other_name buffer tt

undecoded_first : (decode_next_certificate toy toy_pki (bytes malformed) tt).0 ≡ none
unfolding decode_next_certificate
undecoded_first = refl

callback_undecodable_example :
    (tlcp_hybrid_cert_gmssl_verify_callback toy toy_pki (bytes malformed) buffer (some config) tt).0
    ≡ not_applicable
callback_undecodable_example =
    callback_undecodable toy toy_pki malformed buffer config tt undecoded_first

contains_composite_oid_iff_example :
    (contains_composite_oid (bytes malformed) ≡ true)
    ↔ ((front : Bytes) × (back : Bytes) × (malformed ≡ front ++ composite_oid_der ++ back))
contains_composite_oid_iff_example = contains_composite_oid_iff malformed
