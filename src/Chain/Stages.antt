-- ===== src/Chain/Stages.antt =====
-- The checks that a positive verdict has passed, each in the world in which it ran.
use hybrid_pqc_cert.Prelude.{
  ◌≡◌, refl, true, false, inl, inr, Option, some, none, Bytes, null, bytes, arith, CanReturn,
  Option-cases,
}
use hybrid_pqc_cert.Crypto.{Crypto}
use hybrid_pqc_cert.Pki.{Pki}
use hybrid_pqc_cert.CompositeKey.{HybridPublicKey}
use hybrid_pqc_cert.CompositeSig.{VerifyResult}
use hybrid_pqc_cert.CompositeSig.Verify.{Verified, verify_detailed-Verified}
use hybrid_pqc_cert.X509.{
  get_tbs_der, get_signature, hybrid_x509_has_pqc_extension,
  hybrid_x509_composite_signature_algorithms_valid, hybrid_x509_subject_public_key_is_composite,
  hybrid_x509_subject_public_key_is_sm2, hybrid_x509_get_composite_public_key,
}
use hybrid_pqc_cert.Chain.Checks.{
  certificate_time_valid, certificate_constraints_valid, encryption_certificate_constraints_valid,
  server_eku_valid, server_san_valid, subject_key_identifier_present, server_key_identifiers_valid,
}
use hybrid_pqc_cert.Chain.{
  CertResult, signed_parts, verify_certificate_signature, verify_by_issuer, certificate_checks,
  encryption_checks, root_checks,
}

-- The issuer's composite key accepts the certificate's signature over its signed part.
pub record SignedBy (C : Crypto) (P : Pki C) (certificate issuer : P.X509) : Type 0 where
  pub key : HybridPublicKey C.Key
  pub tbs_der : Bytes
  pub signature : Bytes
  pub has_key : CanReturn (hybrid_x509_get_composite_public_key C P (some issuer)) key
  pub has_tbs : CanReturn (get_tbs_der C P (some certificate)) tbs_der
  pub has_signature : get_signature C P (some certificate) ≡ some signature
  pub verified : Verified C key (bytes tbs_der) (null 0) (bytes signature)

module _ (C : Crypto) (P : Pki C) where
  signed_parts_lem :
      (c : P.X509) (w : C.World) {tbs signature : Bytes}
      → (signed_parts C P c w).0 ≡ some (tbs, signature)
      → CanReturn (get_tbs_der C P (some c)) tbs × (get_signature C P (some c) ≡ some signature)
  unfolding signed_parts
  signed_parts_lem c w h = ((w, ground arith), ground arith)

  verify_by_issuer-SignedBy :
      (c issuer : P.X509) (o : Option (HybridPublicKey C.Key)) (v w : C.World) {r : VerifyResult}
      → (hybrid_x509_get_composite_public_key C P (some issuer) v).0 ≡ o
      → (verify_by_issuer C P c o w).0 ≡ some r
      → r.composite_valid ≡ true
      → SignedBy C P c issuer
  unfolding verify_by_issuer verify_certificate_signature
  verify_by_issuer-SignedBy c issuer none v w k h t = cc
  verify_by_issuer-SignedBy c issuer (some key) v w k h t =
      elim (Option-cases (signed_parts C P c w).0) [
        | inl e ↦ absurd (ground arith)
        | inr ((tbs, signature), e) ↦
            let (f, g) = signed_parts_lem c w e in
            record {
              key = key;
              tbs_der = tbs;
              signature = signature;
              has_key = (v, k);
              has_tbs = f;
              has_signature = g;
              verified =
                  verify_detailed-Verified C key (bytes tbs) (null 0) (bytes signature)
                    (signed_parts C P c w).1 (ground arith);
            }
      ]

  -- The stages of `certificate_checks` when the verdict is positive.
  pub certificate_checks_stages :
      (c issuer : P.X509) (w : C.World) {r : CertResult}
      → (certificate_checks C P c issuer w).0 ≡ some r
      → r.certificate_valid ≡ true
      → let w1 = (certificate_time_valid C P c w).1 in
        let w2 = (certificate_constraints_valid C P issuer true w1).1 in
        let w3 = (certificate_constraints_valid C P c false w2).1 in
        let w4 = (server_eku_valid C P c w3).1 in
        let w5 = (server_san_valid C P c w4).1 in
        let w6 = (server_key_identifiers_valid C P c issuer w5).1 in
        let w7 = (hybrid_x509_has_pqc_extension C P (some c) w6).1 in
        (P.name_eq (P.get_issuer_name c) (P.get_subject_name issuer) ≡ true)
        × ((certificate_time_valid C P c w).0 ≡ some true)
        × ((certificate_constraints_valid C P issuer true w1).0 ≡ some true)
        × ((certificate_constraints_valid C P c false w2).0 ≡ some true)
        × ((server_eku_valid C P c w3).0 ≡ some tt)
        × ((server_san_valid C P c w4).0 ≡ some tt)
        × ((server_key_identifiers_valid C P c issuer w5).0 ≡ some true)
        × ((hybrid_x509_has_pqc_extension C P (some c) w6).0 ≡ some tt)
        × (hybrid_x509_composite_signature_algorithms_valid C P (some c) ≡ true)
        × (hybrid_x509_subject_public_key_is_composite C P (some c) ≡ true)
  unfolding certificate_checks
  certificate_checks_stages c issuer w h t = ground arith

  pub certificate_checks-SignedBy :
      (c issuer : P.X509) (w : C.World) {r : CertResult}
      → (certificate_checks C P c issuer w).0 ≡ some r
      → r.certificate_valid ≡ true
      → SignedBy C P c issuer
  unfolding certificate_checks
  certificate_checks-SignedBy c issuer w h t =
      let w1 = (certificate_time_valid C P c w).1 in
      let w2 = (certificate_constraints_valid C P issuer true w1).1 in
      let w3 = (certificate_constraints_valid C P c false w2).1 in
      let w4 = (server_eku_valid C P c w3).1 in
      let w5 = (server_san_valid C P c w4).1 in
      let w6 = (server_key_identifiers_valid C P c issuer w5).1 in
      let w7 = (hybrid_x509_has_pqc_extension C P (some c) w6).1 in
      let k = hybrid_x509_get_composite_public_key C P (some issuer) w7 in
      elim (Option-cases (verify_by_issuer C P c k.0 k.1).0) [
        | inl e ↦ absurd (ground arith)
        | inr (v, e) ↦ verify_by_issuer-SignedBy c issuer k.0 w7 k.1 refl e (ground arith)
      ]

  pub encryption_checks_stages :
      (c issuer : P.X509) (w : C.World) {r : CertResult}
      → (encryption_checks C P c issuer w).0 ≡ some r
      → r.certificate_valid ≡ true
      → let w1 = (certificate_time_valid C P c w).1 in
        let w2 = (certificate_constraints_valid C P issuer true w1).1 in
        let w3 = (encryption_certificate_constraints_valid C P c w2).1 in
        let w4 = (server_key_identifiers_valid C P c issuer w3).1 in
        let w5 = (hybrid_x509_has_pqc_extension C P (some c) w4).1 in
        (P.name_eq (P.get_issuer_name c) (P.get_subject_name issuer) ≡ true)
        × ((certificate_time_valid C P c w).0 ≡ some true)
        × ((certificate_constraints_valid C P issuer true w1).0 ≡ some true)
        × ((encryption_certificate_constraints_valid C P c w2).0 ≡ some true)
        × ((server_key_identifiers_valid C P c issuer w3).0 ≡ some true)
        × ((hybrid_x509_has_pqc_extension C P (some c) w4).0 ≡ some tt)
        × (hybrid_x509_composite_signature_algorithms_valid C P (some c) ≡ true)
        × ((hybrid_x509_subject_public_key_is_sm2 C P (some c) w5).0 ≡ some tt)
  unfolding encryption_checks
  encryption_checks_stages c issuer w h t = ground arith

  pub encryption_checks-SignedBy :
      (c issuer : P.X509) (w : C.World) {r : CertResult}
      → (encryption_checks C P c issuer w).0 ≡ some r
      → r.certificate_valid ≡ true
      → SignedBy C P c issuer
  unfolding encryption_checks
  encryption_checks-SignedBy c issuer w h t =
      let w1 = (certificate_time_valid C P c w).1 in
      let w2 = (certificate_constraints_valid C P issuer true w1).1 in
      let w3 = (encryption_certificate_constraints_valid C P c w2).1 in
      let w4 = (server_key_identifiers_valid C P c issuer w3).1 in
      let w5 = (hybrid_x509_has_pqc_extension C P (some c) w4).1 in
      let w6 = (hybrid_x509_subject_public_key_is_sm2 C P (some c) w5).1 in
      let k = hybrid_x509_get_composite_public_key C P (some issuer) w6 in
      elim (Option-cases (verify_by_issuer C P c k.0 k.1).0) [
        | inl e ↦ absurd (ground arith)
        | inr (v, e) ↦ verify_by_issuer-SignedBy c issuer k.0 w6 k.1 refl e (ground arith)
      ]

  pub root_checks_stages :
      (root : P.X509) (w : C.World) {r : CertResult}
      → (root_checks C P root w).0 ≡ some r
      → r.certificate_valid ≡ true
      → let w1 = (certificate_time_valid C P root w).1 in
        let w2 = (certificate_constraints_valid C P root true w1).1 in
        let w3 = (subject_key_identifier_present C P root w2).1 in
        (P.name_eq (P.get_issuer_name root) (P.get_subject_name root) ≡ true)
        × ((certificate_time_valid C P root w).0 ≡ some true)
        × ((certificate_constraints_valid C P root true w1).0 ≡ some true)
        × ((hybrid_x509_has_pqc_extension C P (some root) w3).0 ≡ some tt)
        × (hybrid_x509_composite_signature_algorithms_valid C P (some root) ≡ true)
        × (hybrid_x509_subject_public_key_is_composite C P (some root) ≡ true)
  unfolding root_checks
  root_checks_stages root w h t = ground arith

  pub root_checks-SignedBy :
      (root : P.X509) (w : C.World) {r : CertResult}
      → (root_checks C P root w).0 ≡ some r
      → r.certificate_valid ≡ true
      → SignedBy C P root root
  unfolding root_checks
  root_checks-SignedBy root w h t =
      let w1 = (certificate_time_valid C P root w).1 in
      let w2 = (certificate_constraints_valid C P root true w1).1 in
      let w3 = (subject_key_identifier_present C P root w2).1 in
      let w4 = (hybrid_x509_has_pqc_extension C P (some root) w3).1 in
      let k = hybrid_x509_get_composite_public_key C P (some root) w4 in
      elim (Option-cases (verify_by_issuer C P root k.0 k.1).0) [
        | inl e ↦ absurd (ground arith)
        | inr (v, e) ↦ verify_by_issuer-SignedBy root root k.0 w4 k.1 refl e (ground arith)
      ]
