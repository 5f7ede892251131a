-- ===== src/Tests/Issue.antt =====
-- The theorems on created certificates at one key pair and three certificates.
use hybrid_pqc_cert.Prelude.{
  ℕ, ◌+◌, ◌≤◌, ◌≡◌, refl, true, some, [], ◌∷◌, ◌++◌, Bytes, codes, length, take, drop, replicate,
  bytes_eq, CanReturn,
}
use hybrid_pqc_cert.Pki.{Algorithm}
use hybrid_pqc_cert.CompositeKey.{serialize_public_key, serialize_sm2_public_key}
use hybrid_pqc_cert.CompositeSig.{
  sign, build_message, serialize_signature, sm2_signature_der_is_valid,
}
use hybrid_pqc_cert.Dilithium.{dilithium_sign}
use hybrid_pqc_cert.Sm2.{hybrid_sm2_sign}
use hybrid_pqc_cert.Issue.{
  nid_basic_constraints, nid_key_usage, nid_ext_key_usage, nid_subject_alt_name,
  set_composite_algorithm, make_name, push_extension, add_conf_extension, add_pqc_marker,
  compute_key_identifier, compute_sm2_key_identifier, add_subject_key_identifier,
  add_sm2_subject_key_identifier, add_authority_key_identifier, make_composite_spki, make_sm2_spki,
}
use hybrid_pqc_cert.Issue.Extensions.{
  san_value_bytes, build_root_extensions, build_server_extensions,
  build_encryption_server_extensions,
}
use hybrid_pqc_cert.Issue.Create.{
  tbs_parts, fill_tbs, make_tbs, make_sm2_encryption_tbs, make_certificate, encode, sign_tbs,
  hybrid_x509_create_root, hybrid_x509_create_server, hybrid_x509_create_sm2_encryption,
}
use hybrid_pqc_cert.Issue.Issued.{
  IssuedBy, hybrid_x509_create_server-IssuedBy, hybrid_x509_create_sm2_encryption-IssuedBy,
  hybrid_x509_create_root-IssuedBy,
}
use hybrid_pqc_cert.Issue.Listed.{
  Appended, IsConf, IsMarker, IsSubjectId, IsAuthorityId, authority_names_subject,
}
use hybrid_pqc_cert.Issue.Layouts.{build_server_extensions_layout, create_server_dns_bounds}
use hybrid_pqc_cert.Tests.Toy.{toy, toy-IsSteady, toy_private, toy_public, toy-KeyPair, toy_sm2_key}
use hybrid_pqc_cert.Tests.ToyCa.{
  Copy, ca_pki, ca_asn1, toy-ReadsBack, toy-IsExact, toy-IdentifiesKeys,
}

abbrev composite : Algorithm ℕ
composite = record { object = some 1; parameters_absent = true }

-- Every signed part has two bytes, so the composite message has 91.
abbrev certificate : ℕ → ℕ → ℕ → ℕ → Copy
certificate serial issuer subject key = record {
  serial = serial;
  issuer = issuer;
  subject = subject;
  public_key = key;
  inner = composite;
  outer = composite;
  value = record { unused_bits = 0; content = replicate 2420 91 ++ (1 ∷ 92 ∷ []) };
}

abbrev root : Copy
root = certificate 1 27 27 1377

abbrev server : Copy
server = certificate 2 27 31 1377

abbrev encryption : Copy
encryption = certificate 3 27 31 65

created_root :
    CanReturn
      (hybrid_x509_create_root toy ca_pki ca_asn1
        (some toy_private)
        (some toy_public)
        (some (codes "ca")))
      root
unfolding hybrid_x509_create_root make_tbs tbs_parts fill_tbs build_root_extensions make_name
    make_composite_spki set_composite_algorithm add_conf_extension push_extension add_pqc_marker
    compute_key_identifier add_subject_key_identifier sign_tbs make_certificate encode
    serialize_public_key serialize_sm2_public_key sign build_message dilithium_sign hybrid_sm2_sign
    serialize_signature sm2_signature_der_is_valid take drop replicate bytes_eq
created_root = (tt, refl)

hybrid_x509_create_root-IssuedBy_example : IssuedBy toy ca_pki ca_asn1 27 toy_public root
hybrid_x509_create_root-IssuedBy_example =
    hybrid_x509_create_root-IssuedBy toy ca_pki ca_asn1 toy-IsExact toy-ReadsBack toy-IsSteady
      toy_private toy_public toy-KeyPair (some (codes "ca")) root created_root

created_server :
    CanReturn
      (hybrid_x509_create_server toy ca_pki ca_asn1
        (some toy_private)
        (some toy_public)
        (some toy_public)
        (some root)
        (some (codes "server"))
        (some (codes "a.example")))
      server
unfolding hybrid_x509_create_server make_tbs tbs_parts fill_tbs build_server_extensions make_name
    make_composite_spki set_composite_algorithm add_conf_extension push_extension add_pqc_marker
    compute_key_identifier add_subject_key_identifier add_authority_key_identifier sign_tbs
    make_certificate encode serialize_public_key serialize_sm2_public_key sign build_message
    dilithium_sign hybrid_sm2_sign serialize_signature sm2_signature_der_is_valid take drop
    replicate bytes_eq
created_server = (tt, refl)

hybrid_x509_create_server-IssuedBy_example : IssuedBy toy ca_pki ca_asn1 27 toy_public server
hybrid_x509_create_server-IssuedBy_example =
    hybrid_x509_create_server-IssuedBy toy ca_pki ca_asn1 toy-IsExact toy-ReadsBack toy-IsSteady
      toy_private toy_public toy-KeyPair (some toy_public) (some toy_public) root
      (some (codes "server")) (some (codes "a.example")) server created_server

created_encryption :
    CanReturn
      (hybrid_x509_create_sm2_encryption toy ca_pki ca_asn1
        (some toy_private)
        (some toy_public)
        (some toy_sm2_key)
        (some root)
        (some (codes "server")))
      encryption
unfolding hybrid_x509_create_sm2_encryption make_sm2_encryption_tbs tbs_parts fill_tbs
    build_encryption_server_extensions make_name make_sm2_spki set_composite_algorithm
    add_conf_extension push_extension add_pqc_marker compute_key_identifier
    compute_sm2_key_identifier add_sm2_subject_key_identifier add_authority_key_identifier sign_tbs
    make_certificate encode serialize_public_key serialize_sm2_public_key sign build_message
    dilithium_sign hybrid_sm2_sign serialize_signature sm2_signature_der_is_valid take drop
    replicate bytes_eq
created_encryption = (tt, refl)

hybrid_x509_create_sm2_encryption-IssuedBy_example :
    IssuedBy toy ca_pki ca_asn1 27 toy_public encryption
hybrid_x509_create_sm2_encryption-IssuedBy_example =
    hybrid_x509_create_sm2_encryption-IssuedBy toy ca_pki ca_asn1 toy-IsExact toy-ReadsBack
      toy-IsSteady toy_private toy_public toy-KeyPair toy_public toy_sm2_key root (codes "server")
      encryption created_encryption

create_server_dns_bounds_example :
    (name : Bytes) × (some (codes "a.example") ≡ some name)
    × (1 ≤ length name)
    × (length (codes "DNS:" ++ name) + 1 ≤ san_value_bytes)
create_server_dns_bounds_example =
    create_server_dns_bounds toy ca_pki ca_asn1 toy_private (some toy_public) (some toy_public) root
      (some (codes "server")) (some (codes "a.example")) server created_server

-- The extensions by their kinds.
built :
    CanReturn
      (build_server_extensions toy ca_pki ca_asn1
        (some toy_public)
        (some toy_public)
        (some (codes "a.example")))
      (87 ∷ 83 ∷ 126 ∷ 85 ∷ 1 ∷ 2 ∷ 0 ∷ [])
unfolding build_server_extensions add_conf_extension push_extension add_pqc_marker
    compute_key_identifier add_subject_key_identifier add_authority_key_identifier
    serialize_public_key serialize_sm2_public_key replicate
built = (tt, refl)

build_server_extensions_layout_example :
    (name : Bytes) × (some (codes "a.example") ≡ some name)
    × (1 ≤ length name)
    × (length name ≤ 295)
    × ((e1 e2 e3 e4 e5 e6 e7 : ℕ) × (87 ∷ 83 ∷ 126 ∷ 85 ∷ 1 ∷ 2 ∷ 0 ∷ []
          ≡ e1 ∷ e2 ∷ e3 ∷ e4 ∷ e5 ∷ e6 ∷ e7 ∷ [])
        × IsConf toy ca_pki ca_asn1 nid_basic_constraints (codes "critical,CA:FALSE") e1
        × IsConf toy ca_pki ca_asn1 nid_key_usage (codes "critical,digitalSignature") e2
        × IsConf toy ca_pki ca_asn1 nid_ext_key_usage (codes "serverAuth") e3
        × IsConf toy ca_pki ca_asn1 nid_subject_alt_name (codes "DNS:" ++ name) e4
        × IsSubjectId toy ca_pki ca_asn1
            (compute_key_identifier toy ca_pki ca_asn1 (some toy_public))
            e5
        × IsAuthorityId toy ca_pki ca_asn1
            (compute_key_identifier toy ca_pki ca_asn1 (some toy_public))
            e6
        × IsMarker toy ca_pki ca_asn1 e7)
build_server_extensions_layout_example =
    build_server_extensions_layout toy ca_pki ca_asn1 (some toy_public) (some toy_public)
      (some (codes "a.example")) (87 ∷ 83 ∷ 126 ∷ 85 ∷ 1 ∷ 2 ∷ 0 ∷ []) built

subject_added :
    CanReturn
      (add_subject_key_identifier toy ca_pki ca_asn1 (9 ∷ []) (some toy_public))
      (9 ∷ 1 ∷ [])
unfolding compute_key_identifier add_subject_key_identifier serialize_public_key
    serialize_sm2_public_key replicate
subject_added = (tt, refl)

authority_added :
    CanReturn
      (add_authority_key_identifier toy ca_pki ca_asn1 (8 ∷ []) (some toy_public))
      (8 ∷ 2 ∷ [])
unfolding compute_key_identifier add_authority_key_identifier serialize_public_key
    serialize_sm2_public_key replicate
authority_added = (tt, refl)

authority_names_subject_example :
    (digest : Bytes) × (length digest ≡ 32)
    × Appended toy ca_pki ca_asn1
        (λ e. CanReturn (ca_asn1.ext_i2d_subject_key_identifier digest) e)
        (9 ∷ [])
        (9 ∷ 1 ∷ [])
    × Appended toy ca_pki ca_asn1
        (λ e. CanReturn (ca_asn1.ext_i2d_authority_key_identifier digest) e)
        (8 ∷ [])
        (8 ∷ 2 ∷ [])
authority_names_subject_example =
    authority_names_subject toy ca_pki ca_asn1 toy-IdentifiesKeys (some toy_public) (9 ∷ [])
      (8 ∷ []) (9 ∷ 1 ∷ []) (8 ∷ 2 ∷ []) subject_added authority_added
