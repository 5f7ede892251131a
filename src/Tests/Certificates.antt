-- ===== src/Tests/Certificates.antt =====
-- The theorems on certificates at three of them.
use hybrid_pqc_cert.Prelude.{
  ℕ, ◌≡◌, refl, true, false, some, Bytes, replicate, take, drop, bytes_eq, CanReturn,
}
use hybrid_pqc_cert.Dilithium.{dilithium_verify}
use hybrid_pqc_cert.Sm2.{hybrid_sm2_verify}
use hybrid_pqc_cert.CompositeKey.{parse_sm2_public_key, parse_public_key}
use hybrid_pqc_cert.CompositeSig.{
  composite_verify_detailed, build_message, parse_signature, sm2_signature_der_is_valid,
}
use hybrid_pqc_cert.Pki.{Extension}
use hybrid_pqc_cert.X509.{
  pqc_extension_oid, der_null, get_tbs_der, algorithm_is_composite_and_absent,
  hybrid_x509_composite_signature_algorithms_valid, hybrid_x509_subject_public_key_is_composite,
  hybrid_x509_subject_public_key_is_sm2, hybrid_x509_get_composite_public_key, get_signature,
  hybrid_x509_has_pqc_extension,
}
use hybrid_pqc_cert.X509.Laws.{has_pqc_extension_unique}
use hybrid_pqc_cert.Chain.Checks.{
  usage_allows, usage_encrypts, has_server_auth, has_dns_name, identifiers_agree,
  certificate_time_valid, certificate_constraints_valid, encryption_certificate_constraints_valid,
  server_eku_valid, server_san_valid, subject_key_identifier_present, server_key_identifiers_valid,
}
use hybrid_pqc_cert.Chain.{
  signed_parts, verify_certificate_signature, verify_by_issuer, root_checks,
  hybrid_verify_root_self_signature, certificate_checks, hybrid_verify_certificate,
  encryption_checks, hybrid_verify_encryption_certificate, hybrid_verify_chain,
}
use hybrid_pqc_cert.Chain.Accepted.{RootAccepted, ServerAccepted, EncryptionAccepted}
use hybrid_pqc_cert.Chain.Verdict.{
  verify_chain-Accepted, verify_encryption-EncryptionAccepted, roles_exclusive,
}
use hybrid_pqc_cert.Tests.Toy.{toy}
use hybrid_pqc_cert.Tests.ToyPki.{Cert, root, server, encryption, toy_pki, toy-FindsExtensions}

chain_valid : (hybrid_verify_chain toy toy_pki (some root) (some server) tt).0.chain_valid ≡ true
unfolding hybrid_verify_chain hybrid_verify_root_self_signature hybrid_verify_certificate
    root_checks certificate_checks signed_parts verify_certificate_signature verify_by_issuer
    usage_allows has_server_auth has_dns_name identifiers_agree certificate_time_valid
    certificate_constraints_valid server_eku_valid server_san_valid subject_key_identifier_present
    server_key_identifiers_valid get_tbs_der algorithm_is_composite_and_absent
    hybrid_x509_composite_signature_algorithms_valid hybrid_x509_subject_public_key_is_composite
    hybrid_x509_get_composite_public_key get_signature hybrid_x509_has_pqc_extension
    composite_verify_detailed build_message parse_signature sm2_signature_der_is_valid
    parse_sm2_public_key parse_public_key dilithium_verify hybrid_sm2_verify take drop replicate
    bytes_eq
chain_valid = refl

verify_chain-Accepted_example :
    (r : Cert) × (s : Cert) × (some root ≡ some r)
    × (some server ≡ some s)
    × RootAccepted toy toy_pki r
    × ServerAccepted toy toy_pki s r
verify_chain-Accepted_example =
    verify_chain-Accepted toy toy_pki (some root) (some server) tt chain_valid

encryption_valid :
    (hybrid_verify_encryption_certificate toy toy_pki
      (some encryption)
      (some root)
      tt).0.certificate_valid
    ≡ true
unfolding hybrid_verify_encryption_certificate encryption_checks signed_parts
    verify_certificate_signature verify_by_issuer usage_allows usage_encrypts identifiers_agree
    certificate_time_valid certificate_constraints_valid encryption_certificate_constraints_valid
    server_key_identifiers_valid get_tbs_der algorithm_is_composite_and_absent
    hybrid_x509_composite_signature_algorithms_valid hybrid_x509_subject_public_key_is_sm2
    hybrid_x509_get_composite_public_key get_signature hybrid_x509_has_pqc_extension
    composite_verify_detailed build_message parse_signature sm2_signature_der_is_valid
    parse_sm2_public_key parse_public_key dilithium_verify hybrid_sm2_verify take drop replicate
    bytes_eq
encryption_valid = refl

verify_encryption-EncryptionAccepted_example :
    (c : Cert) × (i : Cert) × (some encryption ≡ some c)
    × (some root ≡ some i)
    × EncryptionAccepted toy toy_pki c i
verify_encryption-EncryptionAccepted_example =
    verify_encryption-EncryptionAccepted toy toy_pki (some encryption) (some root) tt
      encryption_valid

server_valid :
    (hybrid_verify_certificate toy toy_pki (some server) (some root) tt).0.certificate_valid ≡ true
unfolding hybrid_verify_certificate certificate_checks signed_parts verify_certificate_signature
    verify_by_issuer usage_allows has_server_auth has_dns_name identifiers_agree
    certificate_time_valid certificate_constraints_valid server_eku_valid server_san_valid
    server_key_identifiers_valid get_tbs_der algorithm_is_composite_and_absent
    hybrid_x509_composite_signature_algorithms_valid hybrid_x509_subject_public_key_is_composite
    hybrid_x509_get_composite_public_key get_signature hybrid_x509_has_pqc_extension
    composite_verify_detailed build_message parse_signature sm2_signature_der_is_valid
    parse_sm2_public_key parse_public_key dilithium_verify hybrid_sm2_verify take drop replicate
    bytes_eq
server_valid = refl

roles_exclusive_example : ¬ (
    (hybrid_verify_encryption_certificate toy toy_pki
      (some server)
      (some root)
      tt).0.certificate_valid
    ≡ true)
roles_exclusive_example =
    roles_exclusive toy toy_pki server (some root) (some root) tt tt (λ v w. refl) server_valid

marked : (hybrid_x509_has_pqc_extension toy toy_pki (some server) tt).0 ≡ some tt
unfolding hybrid_x509_has_pqc_extension bytes_eq
marked = refl

has_pqc_extension_unique_example :
    (object : Bytes) × (i : ℕ) × (extension : Extension) × CanReturn
      (toy_pki.obj_txt2obj pqc_extension_oid)
      object
    × (toy-FindsExtensions.has_oid server object i ≡ true)
    × ((j : ℕ) → toy-FindsExtensions.has_oid server object j ≡ true → j ≡ i)
    × (toy_pki.get_ext server i ≡ some extension)
    × (extension.is_critical ≡ false)
    × (extension.value ≡ some der_null)
has_pqc_extension_unique_example =
    has_pqc_extension_unique toy toy_pki toy-FindsExtensions server tt marked
