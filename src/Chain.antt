-- ===== src/Chain.antt =====
-- src/hybrid_chain.c: the checks on a root, a server certificate and an encryption certificate, and
-- on the chain of two.
pub mod Checks
pub mod Roles
pub mod Stages
pub mod Accepted
pub mod Verdict
use hybrid_pqc_cert.Prelude.{
  ℕ, Bool, true, false, not, ◌&&◌, ◌||◌, Option, none, some, List, [], ◌∷◌, Bytes, Slice, null,
  bytes, length, bytes_eq, ◌==◌, Prog, ◌>>=◌, ◌>>◌, pure, guard, from_option, attempt, test,
  or_default, is_some,
}
use hybrid_pqc_cert.Crypto.{Crypto}
use hybrid_pqc_cert.Pki.{Pki}
use Checks.{
  certificate_time_valid, certificate_constraints_valid, encryption_certificate_constraints_valid,
  server_eku_valid, server_san_valid, subject_key_identifier_present, server_key_identifiers_valid,
}
use hybrid_pqc_cert.CompositeKey.{HybridPublicKey}
use hybrid_pqc_cert.CompositeSig.{VerifyResult, no_result, composite_verify_detailed}
use hybrid_pqc_cert.X509.{
  get_tbs_der, get_signature, hybrid_x509_has_pqc_extension,
  hybrid_x509_composite_signature_algorithms_valid, hybrid_x509_subject_public_key_is_composite,
  hybrid_x509_subject_public_key_is_sm2, hybrid_x509_get_composite_public_key,
}

-- HYBRID_CERT_VERIFY_RESULT
pub record CertResult : Type 0 where
  pub issuer_subject_link_valid : Bool
  pub validity_valid : Bool
  pub issuer_ca_constraints_valid : Bool
  pub subject_constraints_valid : Bool
  pub eku_valid : Bool
  pub san_valid : Bool
  pub key_identifiers_valid : Bool
  pub pqc_extension_present : Bool
  pub composite_oids_valid : Bool
  pub subject_public_key_composite : Bool
  pub subject_public_key_sm2 : Bool
  pub composite_public_key_valid : Bool
  pub signature_format_valid : Bool
  pub dilithium_valid : Bool
  pub sm2_valid : Bool
  pub composite_valid : Bool
  pub certificate_valid : Bool

abbrev pub no_cert_result : CertResult
no_cert_result = record {
  issuer_subject_link_valid = false;
  validity_valid = false;
  issuer_ca_constraints_valid = false;
  subject_constraints_valid = false;
  eku_valid = false;
  san_valid = false;
  key_identifiers_valid = false;
  pqc_extension_present = false;
  composite_oids_valid = false;
  subject_public_key_composite = false;
  subject_public_key_sm2 = false;
  composite_public_key_valid = false;
  signature_format_valid = false;
  dilithium_valid = false;
  sm2_valid = false;
  composite_valid = false;
  certificate_valid = false;
}

-- HYBRID_CHAIN_VERIFY_RESULT
pub record ChainResult : Type 0 where
  pub trust_anchor_configured : Bool
  pub root : CertResult
  pub server : CertResult
  pub chain_valid : Bool

module _ (C : Crypto) (P : Pki C) where
  open C use {World, Key}
  open P use {X509}

  -- The signed bytes and the signature.
  unfoldable pub signed_parts : X509 → Prog World (Bytes × Bytes)
  signed_parts certificate = do
    tbs_der ← get_tbs_der C P (some certificate)
    signature ← from_option (get_signature C P (some certificate))
    pure (tbs_der, signature)

  -- The four fields that `verify_certificate_signature` sets; without a signature they stay zero.
  unfoldable pub verify_certificate_signature :
      X509 → HybridPublicKey Key → World → VerifyResult × World
  verify_certificate_signature certificate issuer_key w =
      let r = signed_parts certificate w in
      elim r.0 [
        | none ↦ (no_result, r.1)
        | some (tbs_der, signature) ↦
            composite_verify_detailed C (some issuer_key) (bytes tbs_der) (null 0) (bytes signature)
              r.1
      ]

  -- The signature is looked at only where the issuer's key could be read.
  unfoldable pub verify_by_issuer : X509 → Option (HybridPublicKey Key) → Prog World VerifyResult
  verify_by_issuer certificate none w = (some no_result, w)
  verify_by_issuer certificate (some issuer_key) w =
      let r = verify_certificate_signature certificate issuer_key w in (some r.0, r.1)

  abbrev linked : X509 → X509 → Bool
  linked certificate issuer = P.name_eq (P.get_issuer_name certificate) (P.get_subject_name issuer)

  unfoldable pub root_checks : X509 → Prog World CertResult
  root_checks root = do
    let link = linked root root
    validity ← certificate_time_valid C P root
    constraints ← certificate_constraints_valid C P root true
    identifier ← test (subject_key_identifier_present C P root)
    marker ← test (hybrid_x509_has_pqc_extension C P (some root))
    let oids = hybrid_x509_composite_signature_algorithms_valid C P (some root)
    let composite = hybrid_x509_subject_public_key_is_composite C P (some root)
    key ← attempt (hybrid_x509_get_composite_public_key C P (some root))
    signature ← verify_by_issuer root key
    pure (record {
      issuer_subject_link_valid = link;
      validity_valid = validity;
      issuer_ca_constraints_valid = constraints;
      subject_constraints_valid = constraints;
      eku_valid = true;
      san_valid = true;
      key_identifiers_valid = identifier;
      pqc_extension_present = marker;
      composite_oids_valid = oids;
      subject_public_key_composite = composite;
      subject_public_key_sm2 = false;
      composite_public_key_valid = is_some key;
      signature_format_valid = signature.format_valid;
      dilithium_valid = signature.dilithium_valid;
      sm2_valid = signature.sm2_valid;
      composite_valid = signature.composite_valid;
      certificate_valid =
          link
          && validity
          && constraints
          && marker
          && identifier
          && oids
          && composite
          && is_some key
          && signature.composite_valid;
    })

  -- The result that is stored; `certificate_valid` is returned. So too below.
  unfoldable pub hybrid_verify_root_self_signature : Option X509 → World → CertResult × World
  hybrid_verify_root_self_signature none w = (no_cert_result, w)
  hybrid_verify_root_self_signature (some root) w = or_default no_cert_result (root_checks root w)

  unfoldable pub certificate_checks : X509 → X509 → Prog World CertResult
  certificate_checks certificate issuer = do
    let link = linked certificate issuer
    validity ← certificate_time_valid C P certificate
    issuer_constraints ← certificate_constraints_valid C P issuer true
    constraints ← certificate_constraints_valid C P certificate false
    eku ← test (server_eku_valid C P certificate)
    san ← test (server_san_valid C P certificate)
    identifiers ← server_key_identifiers_valid C P certificate issuer
    marker ← test (hybrid_x509_has_pqc_extension C P (some certificate))
    let oids = hybrid_x509_composite_signature_algorithms_valid C P (some certificate)
    let composite = hybrid_x509_subject_public_key_is_composite C P (some certificate)
    key ← attempt (hybrid_x509_get_composite_public_key C P (some issuer))
    signature ← verify_by_issuer certificate key
    pure (record {
      issuer_subject_link_valid = link;
      validity_valid = validity;
      issuer_ca_constraints_valid = issuer_constraints;
      subject_constraints_valid = constraints;
      eku_valid = eku;
      san_valid = san;
      key_identifiers_valid = identifiers;
      pqc_extension_present = marker;
      composite_oids_valid = oids;
      subject_public_key_composite = composite;
      subject_public_key_sm2 = false;
      composite_public_key_valid = is_some key;
      signature_format_valid = signature.format_valid;
      dilithium_valid = signature.dilithium_valid;
      sm2_valid = signature.sm2_valid;
      composite_valid = signature.composite_valid;
      certificate_valid =
          link
          && validity
          && issuer_constraints
          && constraints
          && eku
          && san
          && identifiers
          && marker
          && oids
          && composite
          && is_some key
          && signature.composite_valid;
    })

  unfoldable pub hybrid_verify_certificate : Option X509 → Option X509 → World → CertResult × World
  hybrid_verify_certificate none issuer w = (no_cert_result, w)
  hybrid_verify_certificate (some certificate) none w = (no_cert_result, w)
  hybrid_verify_certificate (some certificate) (some issuer) w =
      or_default no_cert_result (certificate_checks certificate issuer w)

  unfoldable pub encryption_checks : X509 → X509 → Prog World CertResult
  encryption_checks certificate issuer = do
    let link = linked certificate issuer
    validity ← certificate_time_valid C P certificate
    issuer_constraints ← certificate_constraints_valid C P issuer true
    constraints ← encryption_certificate_constraints_valid C P certificate
    identifiers ← server_key_identifiers_valid C P certificate issuer
    marker ← test (hybrid_x509_has_pqc_extension C P (some certificate))
    let oids = hybrid_x509_composite_signature_algorithms_valid C P (some certificate)
    sm2 ← test (hybrid_x509_subject_public_key_is_sm2 C P (some certificate))
    key ← attempt (hybrid_x509_get_composite_public_key C P (some issuer))
    signature ← verify_by_issuer certificate key
    pure (record {
      issuer_subject_link_valid = link;
      validity_valid = validity;
      issuer_ca_constraints_valid = issuer_constraints;
      subject_constraints_valid = constraints;
      eku_valid = true;
      san_valid = true;
      key_identifiers_valid = identifiers;
      pqc_extension_present = marker;
      composite_oids_valid = oids;
      subject_public_key_composite = false;
      subject_public_key_sm2 = sm2;
      composite_public_key_valid = is_some key;
      signature_format_valid = signature.format_valid;
      dilithium_valid = signature.dilithium_valid;
      sm2_valid = signature.sm2_valid;
      composite_valid = signature.composite_valid;
      certificate_valid =
          link
          && validity
          && issuer_constraints
          && constraints
          && identifiers
          && marker
          && oids
          && sm2
          && is_some key
          && signature.composite_valid;
    })

  unfoldable pub hybrid_verify_encryption_certificate :
      Option X509 → Option X509 → World → CertResult × World
  hybrid_verify_encryption_certificate none issuer w = (no_cert_result, w)
  hybrid_verify_encryption_certificate (some certificate) none w = (no_cert_result, w)
  hybrid_verify_encryption_certificate (some certificate) (some issuer) w =
      or_default no_cert_result (encryption_checks certificate issuer w)

  unfoldable pub hybrid_verify_chain : Option X509 → Option X509 → World → ChainResult × World
  hybrid_verify_chain root server w =
      let r = hybrid_verify_root_self_signature root w in
      let s = hybrid_verify_certificate server root r.1 in
      (
        record {
          trust_anchor_configured = is_some root;
          root = r.0;
          server = s.0;
          chain_valid = is_some root && (r.0).certificate_valid && (s.0).certificate_valid;
        },
        s.1,
      )
