-- ===== src/Chain/Accepted.antt =====
-- The specification of a certificate that a role accepts, and that the checks establish it.
use hybrid_pqc_cert.Prelude.{◌≡◌, ◌≢◌, true, false, some, List, Bytes, ℕ, length, CanReturn, Bool}
use hybrid_pqc_cert.Crypto.{Crypto}
use hybrid_pqc_cert.Pki.{Pki, past, future, BasicConstraints, KeyUsage, GeneralName}
use hybrid_pqc_cert.X509.{
  hybrid_x509_has_pqc_extension, hybrid_x509_composite_signature_algorithms_valid,
  hybrid_x509_subject_public_key_is_composite, hybrid_x509_subject_public_key_is_sm2,
}
use hybrid_pqc_cert.Chain.Checks.{
  usage_allows, usage_encrypts, nid_server_auth, certificate_constraints_valid,
  encryption_certificate_constraints_valid, server_key_identifiers_valid,
}
use hybrid_pqc_cert.Chain.Roles.{
  Some, IsDnsName, certificate_time_valid_lem, certificate_constraints_valid_lem,
  encryption_constraints_lem, server_eku_valid_lem, server_san_valid_lem,
  server_key_identifiers_valid_lem,
}
use hybrid_pqc_cert.Chain.Stages.{
  SignedBy, certificate_checks_stages, certificate_checks-SignedBy, encryption_checks_stages,
  encryption_checks-SignedBy, root_checks_stages, root_checks-SignedBy,
}
use hybrid_pqc_cert.Chain.{CertResult, certificate_checks, encryption_checks, root_checks}

-- Critical basic constraints and a critical key usage, as asked for.
pub record Constrained (C : Crypto) (P : Pki C) (c : P.X509) (is_ca : Bool)
    (suits : KeyUsage → Bool) : Type 0 where
  pub constraints : BasicConstraints
  pub usage : KeyUsage
  pub has_constraints : CanReturn (P.get_basic_constraints c) constraints
  pub has_usage : CanReturn (P.get_key_usage c) usage
  pub constraints_critical : constraints.is_critical ≡ true
  pub ca : constraints.ca ≡ is_ca
  pub usage_critical : usage.is_critical ≡ true
  pub usage_suits : suits usage ≡ true

-- The certificate names its issuer's key by the issuer's own identifier, and has an identifier.
pub record Identified (C : Crypto) (P : Pki C) (c issuer : P.X509) : Type 0 where
  pub own : Bytes
  pub identifier : Bytes
  pub has_own : CanReturn (P.get_subject_key_identifier c) own
  pub issuer_has : CanReturn (P.get_subject_key_identifier issuer) identifier
  pub names_issuer : CanReturn (P.get_authority_key_identifier c) (some identifier)
  pub own_not_empty : length own ≢ 0
  pub identifier_not_empty : length identifier ≢ 0

-- What every role asks for.
pub record Accepted (C : Crypto) (P : Pki C) (c issuer : P.X509) : Type 0 where
  pub linked : P.name_eq (P.get_issuer_name c) (P.get_subject_name issuer) ≡ true
  pub begun : CanReturn (P.cmp_not_before c) past
  pub not_ended : CanReturn (P.cmp_not_after c) future
  pub issuer_is_ca : Constrained C P issuer true (usage_allows true)
  pub marker : CanReturn (hybrid_x509_has_pqc_extension C P (some c)) tt
  pub composite_algorithms : hybrid_x509_composite_signature_algorithms_valid C P (some c) ≡ true
  pub signed : SignedBy C P c issuer

pub record RootAccepted (C : Crypto) (P : Pki C) (root : P.X509) : Type 0 where
  pub accepted : Accepted C P root root
  pub composite_key : hybrid_x509_subject_public_key_is_composite C P (some root) ≡ true

pub record ServerAccepted (C : Crypto) (P : Pki C) (c issuer : P.X509) : Type 0 where
  pub accepted : Accepted C P c issuer
  pub constrained : Constrained C P c false (usage_allows false)
  pub purposes : List ℕ
  pub has_purposes : CanReturn (P.get_ext_key_usage c) purposes
  pub server_auth : Some (λ nid. nid ≡ nid_server_auth) purposes
  pub names : List GeneralName
  pub has_names : CanReturn (P.get_subject_alt_name c) names
  pub dns_name : Some IsDnsName names
  pub identified : Identified C P c issuer
  pub composite_key : hybrid_x509_subject_public_key_is_composite C P (some c) ≡ true

pub record EncryptionAccepted (C : Crypto) (P : Pki C) (c issuer : P.X509) : Type 0 where
  pub accepted : Accepted C P c issuer
  pub constrained : Constrained C P c false usage_encrypts
  pub identified : Identified C P c issuer
  pub sm2_key : CanReturn (hybrid_x509_subject_public_key_is_sm2 C P (some c)) tt

module _ (C : Crypto) (P : Pki C) where
  certificate_constraints_valid-Constrained :
      (w : C.World) {c : P.X509} {is_ca : Bool}
      → (certificate_constraints_valid C P c is_ca w).0 ≡ some true
      → Constrained C P c is_ca (usage_allows is_ca)
  certificate_constraints_valid-Constrained w {c} {is_ca} h =
      let (k, u, a, b, d, e, f, g) = certificate_constraints_valid_lem C P c is_ca w h in
      record {
        constraints = k;
        usage = u;
        has_constraints = a;
        has_usage = b;
        constraints_critical = d;
        ca = e;
        usage_critical = f;
        usage_suits = g;
      }

  encryption_certificate_constraints_valid-Constrained :
      (w : C.World) {c : P.X509}
      → (encryption_certificate_constraints_valid C P c w).0 ≡ some true
      → Constrained C P c false usage_encrypts
  encryption_certificate_constraints_valid-Constrained w {c} h =
      let (k, u, a, b, d, e, f, g) = encryption_constraints_lem C P c w h in
      record {
        constraints = k;
        usage = u;
        has_constraints = a;
        has_usage = b;
        constraints_critical = d;
        ca = e;
        usage_critical = f;
        usage_suits = g;
      }

  server_key_identifiers_valid-Identified :
      (w : C.World) {c issuer : P.X509}
      → (server_key_identifiers_valid C P c issuer w).0 ≡ some true
      → Identified C P c issuer
  server_key_identifiers_valid-Identified w {c} {issuer} h =
      let (s, i, a, b, d, e, f) = server_key_identifiers_valid_lem C P c issuer w h in
      record {
        own = s;
        identifier = i;
        has_own = a;
        issuer_has = b;
        names_issuer = d;
        own_not_empty = e;
        identifier_not_empty = f;
      }

  pub certificate_checks-ServerAccepted :
      (c issuer : P.X509) (w : C.World) {r : CertResult}
      → (certificate_checks C P c issuer w).0 ≡ some r
      → r.certificate_valid ≡ true
      → ServerAccepted C P c issuer
  certificate_checks-ServerAccepted c issuer w h t =
      let (l, v, i, s, e, n, k, m, a, q) = certificate_checks_stages C P c issuer w h t in
      let (before, after) = certificate_time_valid_lem C P c w v in
      let (purposes, p, auth) = server_eku_valid_lem C P c _ e in
      let (names, z, dns) = server_san_valid_lem C P c _ n in
      record {
        accepted = record {
          linked = l;
          begun = before;
          not_ended = after;
          issuer_is_ca = certificate_constraints_valid-Constrained _ i;
          marker = (_, m);
          composite_algorithms = a;
          signed = certificate_checks-SignedBy C P c issuer w h t;
        };
        constrained = certificate_constraints_valid-Constrained _ s;
        purposes = purposes;
        has_purposes = p;
        server_auth = auth;
        names = names;
        has_names = z;
        dns_name = dns;
        identified = server_key_identifiers_valid-Identified _ k;
        composite_key = q;
      }

  pub encryption_checks-EncryptionAccepted :
      (c issuer : P.X509) (w : C.World) {r : CertResult}
      → (encryption_checks C P c issuer w).0 ≡ some r
      → r.certificate_valid ≡ true
      → EncryptionAccepted C P c issuer
  encryption_checks-EncryptionAccepted c issuer w h t =
      let (l, v, i, s, k, m, a, q) = encryption_checks_stages C P c issuer w h t in
      let (before, after) = certificate_time_valid_lem C P c w v in
      record {
        accepted = record {
          linked = l;
          begun = before;
          not_ended = after;
          issuer_is_ca = certificate_constraints_valid-Constrained _ i;
          marker = (_, m);
          composite_algorithms = a;
          signed = encryption_checks-SignedBy C P c issuer w h t;
        };
        constrained = encryption_certificate_constraints_valid-Constrained _ s;
        identified = server_key_identifiers_valid-Identified _ k;
        sm2_key = (_, q);
      }

  pub root_checks-RootAccepted :
      (root : P.X509) (w : C.World) {r : CertResult}
      → (root_checks C P root w).0 ≡ some r
      → r.certificate_valid ≡ true
      → RootAccepted C P root
  root_checks-RootAccepted root w h t =
      let (l, v, i, m, a, q) = root_checks_stages C P root w h t in
      let (before, after) = certificate_time_valid_lem C P root w v in
      record {
        accepted = record {
          linked = l;
          begun = before;
          not_ended = after;
          issuer_is_ca = certificate_constraints_valid-Constrained _ i;
          marker = (_, m);
          composite_algorithms = a;
          signed = root_checks-SignedBy C P root w h t;
        };
        composite_key = q;
      }
