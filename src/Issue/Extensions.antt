-- ===== src/Issue/Extensions.antt =====
-- src/hybrid_x509.c: the extensions of the three kinds of certificate.
use hybrid_pqc_cert.Prelude.{
  ℕ, ◌+◌, not, Option, List, [], ◌++◌, Bytes, codes, length, ltb, ◌==◌, Prog, ◌>>=◌, ◌>>◌, guard,
  from_option,
}
use hybrid_pqc_cert.Crypto.{Crypto, Pkey}
use hybrid_pqc_cert.Pki.{Pki}
use hybrid_pqc_cert.Asn1.{Asn1}
use hybrid_pqc_cert.CompositeKey.{HybridPublicKey}
use hybrid_pqc_cert.Issue.{
  nid_basic_constraints, nid_key_usage, nid_ext_key_usage, nid_subject_alt_name, add_conf_extension,
  add_pqc_marker, add_subject_key_identifier, add_sm2_subject_key_identifier,
  add_authority_key_identifier,
}

-- The size of `san_value`.
abbrev pub san_value_bytes : ℕ
san_value_bytes = 300

abbrev pub dns_prefix : Bytes
dns_prefix = codes "DNS:"

module _ (C : Crypto) (P : Pki C) (A : Asn1 C P) where
  open C use {World, Key}
  open A use {Ext}

  unfoldable pub build_root_extensions : Option (HybridPublicKey Key) → Prog World (List Ext)
  build_root_extensions ca_public_key = do
    A.sk_new_null
    e1 ← add_conf_extension C P A [] nid_basic_constraints (codes "critical,CA:TRUE")
    e2 ← add_conf_extension C P A e1 nid_key_usage (codes "critical,keyCertSign,cRLSign")
    e3 ← add_subject_key_identifier C P A e2 ca_public_key
    add_pqc_marker C P A e3

  -- `snprintf` writes the prefix and the name, and the test refuses a text that was cut off.
  unfoldable pub build_server_extensions :
      Option (HybridPublicKey Key)
      → Option (HybridPublicKey Key)
      → Option Bytes
      → Prog World (List Ext)
  build_server_extensions ca_public_key server_public_key dns_name = do
    name ← from_option dns_name
    guard (not (length name == 0))
    guard (ltb (length dns_prefix + length name) san_value_bytes)
    A.sk_new_null
    e1 ← add_conf_extension C P A [] nid_basic_constraints (codes "critical,CA:FALSE")
    e2 ← add_conf_extension C P A e1 nid_key_usage (codes "critical,digitalSignature")
    e3 ← add_conf_extension C P A e2 nid_ext_key_usage (codes "serverAuth")
    e4 ← add_conf_extension C P A e3 nid_subject_alt_name (dns_prefix ++ name)
    e5 ← add_subject_key_identifier C P A e4 server_public_key
    e6 ← add_authority_key_identifier C P A e5 ca_public_key
    add_pqc_marker C P A e6

  unfoldable pub build_encryption_server_extensions :
      Option (HybridPublicKey Key) → Option (Pkey Key) → Prog World (List Ext)
  build_encryption_server_extensions ca_public_key server_sm2_public_key = do
    A.sk_new_null
    e1 ← add_conf_extension C P A [] nid_basic_constraints (codes "critical,CA:FALSE")
    e2 ← add_conf_extension C P A e1 nid_key_usage (codes "critical,keyEncipherment,keyAgreement")
    e3 ← add_sm2_subject_key_identifier C P A e2 server_sm2_public_key
    e4 ← add_authority_key_identifier C P A e3 ca_public_key
    add_pqc_marker C P A e4
