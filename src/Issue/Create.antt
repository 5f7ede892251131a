-- ===== src/Issue/Create.antt =====
-- src/hybrid_x509.c: the part of a certificate that is signed, the signing, and the three functions
-- that create a certificate.
use hybrid_pqc_cert.Prelude.{
  ℕ, Bool, true, false, not, Option, none, some, List, Bytes, null, bytes, length, leb, ◌==◌,
  if◌then◌else◌, Prog, ◌>>=◌, ◌>>◌, pure, guard, from_option, attempt,
}
use hybrid_pqc_cert.Crypto.{Crypto, Pkey}
use hybrid_pqc_cert.Pki.{Pki}
use hybrid_pqc_cert.Asn1.{Asn1, Tbs, Certificate, earlier, later}
use hybrid_pqc_cert.CompositeKey.{HybridPrivateKey, HybridPublicKey}
use hybrid_pqc_cert.CompositeSig.{sign}
use hybrid_pqc_cert.KeyFile.{int_max}
use hybrid_pqc_cert.Issue.{set_composite_algorithm, make_name, make_composite_spki, make_sm2_spki}
use hybrid_pqc_cert.Issue.Extensions.{
  build_root_extensions, build_server_extensions, build_encryption_server_extensions,
}

module _ (C : Crypto) (P : Pki C) (A : Asn1 C P) where
  open C use {World, Key}
  open P use {X509, Name, Oid, Spki}
  open A use {Ext, Time}

  abbrev pub TbsCertificate : Type 0
  TbsCertificate = Tbs Name Oid Spki Ext Time

  -- The four parts are made before one is looked at.
  unfoldable pub tbs_parts :
      Name → Option Bytes → Prog World Spki → Prog World (TbsCertificate × Name × Name × Spki)
  tbs_parts issuer subject_common_name make_spki = do
    t ← attempt A.tbs_new
    i ← attempt (A.name_dup issuer)
    s ← attempt (make_name C P A subject_common_name)
    k ← attempt make_spki
    tbs ← from_option t
    issuer_copy ← from_option i
    subject ← from_option s
    subject_public_key_info ← from_option k
    pure (tbs, issuer_copy, subject, subject_public_key_info)

  -- The rest of both functions below: a serial number and the extensions.
  unfoldable pub fill_tbs :
      TbsCertificate × Name × Name × Spki → ℕ → Prog World (List Ext) → Prog World TbsCertificate
  fill_tbs (tbs, issuer, subject, spki) serial_number build_extensions = do
    A.integer_new
    A.integer_set 2
    A.integer_set serial_number
    algorithm ← set_composite_algorithm C P A (some tbs.signature)
    begin ← A.gmtime_adj (earlier 60)
    end ← A.gmtime_adj (later 31536000)
    extensions ← build_extensions
    pure (record {
      version = some 2;
      serial_number = serial_number;
      signature = algorithm;
      issuer = issuer;
      not_before = begin;
      not_after = end;
      subject = subject;
      subject_public_key_info = spki;
      issuer_uid = tbs.issuer_uid;
      subject_uid = tbs.subject_uid;
      extensions = some extensions;
    })

  unfoldable pub make_tbs :
      Option (HybridPublicKey Key)
      → Name
      → Option Bytes
      → ℕ
      → Bool
      → Option (HybridPublicKey Key)
      → Option Bytes
      → Prog World TbsCertificate
  make_tbs subject_key issuer subject_common_name serial_number is_ca ca_public_key dns_name = do
    parts ← tbs_parts issuer subject_common_name (make_composite_spki C P A subject_key)
    fill_tbs parts serial_number (
        if is_ca
        then build_root_extensions C P A subject_key
        else build_server_extensions C P A ca_public_key subject_key dns_name)

  unfoldable pub make_sm2_encryption_tbs :
      Option (Pkey Key)
      → Name
      → Option Bytes
      → Option (HybridPublicKey Key)
      → Prog World TbsCertificate
  make_sm2_encryption_tbs subject_key issuer subject_common_name ca_public_key = do
    parts ← tbs_parts issuer subject_common_name (make_sm2_spki C P A subject_key)
    fill_tbs parts 3 (build_encryption_server_extensions C P A ca_public_key subject_key)

  -- The certificate that is encoded. Its signature value has no unused bits.
  unfoldable pub make_certificate :
      TbsCertificate → Bytes → Prog World (Certificate Name Oid Spki Ext Time)
  make_certificate tbs signature = do
    blank ← A.certificate_new
    algorithm ← set_composite_algorithm C P A (some blank.signature_algorithm)
    A.bit_string_set signature
    pure (record {
      tbs_certificate = tbs;
      signature_algorithm = algorithm;
      signature_value = record { unused_bits = 0; content = signature };
    })

  -- The certificate in DER is read back, to its last byte.
  unfoldable pub encode : Certificate Name Oid Spki Ext Time → Prog World X509
  encode certificate = do
    der ← A.i2d_certificate certificate
    guard (not (length der == 0))
    (parsed, cursor) ← P.d2i_x509 der
    guard (cursor == length der)
    pure parsed

  unfoldable pub sign_tbs : Option TbsCertificate → Option (HybridPrivateKey Key) → Prog World X509
  sign_tbs tbs signing_key = do
    t ← from_option tbs
    k ← from_option signing_key
    tbs_der ← A.i2d_tbs t
    guard (not (length tbs_der == 0))
    signature ← sign C (some k) (bytes tbs_der) (null 0)
    guard (leb (length signature) int_max)
    certificate ← make_certificate t signature
    encode certificate

  unfoldable pub hybrid_x509_create_root :
      Option (HybridPrivateKey Key) → Option (HybridPublicKey Key) → Option Bytes → Prog World X509
  hybrid_x509_create_root ca_private_key ca_public_key common_name = do
    name ← make_name C P A common_name
    tbs ← attempt (make_tbs ca_public_key name common_name 1 true ca_public_key none)
    sign_tbs tbs ca_private_key

  unfoldable pub hybrid_x509_create_server :
      Option (HybridPrivateKey Key)
      → Option (HybridPublicKey Key)
      → Option (HybridPublicKey Key)
      → Option X509
      → Option Bytes
      → Option Bytes
      → Prog World X509
  hybrid_x509_create_server ca_private_key ca_public_key server_public_key issuer_certificate
        common_name dns_name =
      do
        c ← from_option issuer_certificate
        tbs ← attempt (
            make_tbs server_public_key (P.get_subject_name c) common_name 2 false ca_public_key
              dns_name)
        sign_tbs tbs ca_private_key

  unfoldable pub hybrid_x509_create_sm2_encryption :
      Option (HybridPrivateKey Key)
      → Option (HybridPublicKey Key)
      → Option (Pkey Key)
      → Option X509
      → Option Bytes
      → Prog World X509
  hybrid_x509_create_sm2_encryption ca_private_key ca_public_key server_sm2_public_key
        issuer_certificate common_name =
      do
        k ← from_option ca_private_key
        q ← from_option ca_public_key
        server_key ← from_option server_sm2_public_key
        c ← from_option issuer_certificate
        name ← from_option common_name
        guard (not (length name == 0))
        tbs ←
            attempt (
              make_sm2_encryption_tbs (some server_key) (P.get_subject_name c) (some name) (some q))
        sign_tbs tbs (some k)
