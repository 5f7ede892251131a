-- ===== src/Issue/Layouts.antt =====
-- The extensions of the three kinds of certificate: which, in which order, and from what.
use hybrid_pqc_cert.Prelude.{
  ◌+◌, ◌≤◌, ◌≡◌, refl, false, not, Option, none, some, List, [], ◌∷◌, ◌++◌, Bytes, codes, length,
  ltb, ◌==◌, arith, guard, CanReturn, >>=-CanReturn, guard-CanReturn,
}
use hybrid_pqc_cert.Crypto.{Crypto, Pkey}
use hybrid_pqc_cert.Pki.{Pki}
use hybrid_pqc_cert.Asn1.{Asn1}
use hybrid_pqc_cert.CompositeKey.{HybridPrivateKey, HybridPublicKey}
use hybrid_pqc_cert.Issue.{
  nid_basic_constraints, nid_key_usage, nid_ext_key_usage, nid_subject_alt_name, add_conf_extension,
  compute_key_identifier, compute_sm2_key_identifier, add_subject_key_identifier,
  add_sm2_subject_key_identifier, add_authority_key_identifier,
}
use hybrid_pqc_cert.Issue.Extensions.{
  san_value_bytes, dns_prefix, build_root_extensions, build_server_extensions,
  build_encryption_server_extensions,
}
use hybrid_pqc_cert.Issue.Create.{hybrid_x509_create_server}
use hybrid_pqc_cert.Issue.Created.{create_server-signed}
use hybrid_pqc_cert.Issue.Fields.{make_tbs-Filled}
use hybrid_pqc_cert.Issue.Listed.{
  IsConf, IsMarker, IsSubjectId, IsAuthorityId, add_conf_extension-Appended,
  add_pqc_marker-Appended, add_subject_key_identifier-Appended,
  add_sm2_subject_key_identifier-Appended, add_authority_key_identifier-Appended,
}

module _ (C : Crypto) (P : Pki C) (A : Asn1 C P) where
  -- The extensions of a root certificate.
  pub build_root_extensions_layout :
      (key : Option (HybridPublicKey C.Key)) (l : List A.Ext)
      → CanReturn (build_root_extensions C P A key) l
      → (e1 e2 e3 e4 : A.Ext) × (l ≡ e1 ∷ e2 ∷ e3 ∷ e4 ∷ [])
        × IsConf C P A nid_basic_constraints (codes "critical,CA:TRUE") e1
        × IsConf C P A nid_key_usage (codes "critical,keyCertSign,cRLSign") e2
        × IsSubjectId C P A (compute_key_identifier C P A key) e3
        × IsMarker C P A e4
  unfolding build_root_extensions
  build_root_extensions_layout key l h =
      let (_, _, h0) = >>=-CanReturn A.sk_new_null _ h in
      let (l1, c1, h1) =
        >>=-CanReturn (add_conf_extension C P A [] nid_basic_constraints (codes "critical,CA:TRUE"))
          _ h0 in
      let (l2, c2, h2) =
        >>=-CanReturn
          (add_conf_extension C P A l1 nid_key_usage (codes "critical,keyCertSign,cRLSign")) _ h1 in
      let (l3, c3, c4) = >>=-CanReturn (add_subject_key_identifier C P A l2 key) _ h2 in
      let (e1, m1, a1) = add_conf_extension-Appended C P A [] nid_basic_constraints _ c1 in
      let (e2, m2, a2) = add_conf_extension-Appended C P A l1 nid_key_usage _ c2 in
      let (e3, m3, a3) = add_subject_key_identifier-Appended C P A l2 key c3 in
      let (e4, m4, a4) = add_pqc_marker-Appended C P A l3 c4 in
      (e1, e2, e3, e4, ground arith, m1, m2, m3, m4)

  -- A server certificate has exactly seven extensions, in this order: no CA, for signatures only,
  -- for server authentication, the DNS name, the identifiers of the server's key and of the CA's
  -- key, and the marker. The DNS name is there and has at most 295 bytes.
  pub build_server_extensions_layout :
      (ca server : Option (HybridPublicKey C.Key)) (dns_name : Option Bytes) (l : List A.Ext)
      → CanReturn (build_server_extensions C P A ca server dns_name) l
      → (name : Bytes) × (dns_name ≡ some name)
        × (1 ≤ length name)
        × (length name ≤ 295)
        × ((e1 e2 e3 e4 e5 e6 e7 : A.Ext) × (l ≡ e1 ∷ e2 ∷ e3 ∷ e4 ∷ e5 ∷ e6 ∷ e7 ∷ [])
            × IsConf C P A nid_basic_constraints (codes "critical,CA:FALSE") e1
            × IsConf C P A nid_key_usage (codes "critical,digitalSignature") e2
            × IsConf C P A nid_ext_key_usage (codes "serverAuth") e3
            × IsConf C P A nid_subject_alt_name (codes "DNS:" ++ name) e4
            × IsSubjectId C P A (compute_key_identifier C P A server) e5
            × IsAuthorityId C P A (compute_key_identifier C P A ca) e6
            × IsMarker C P A e7)
  unfolding build_server_extensions
  build_server_extensions_layout ca server none l (w, h) = absurd (ground arith)
  build_server_extensions_layout ca server (some name) l h =
      let (_, named, h0) = >>=-CanReturn (guard (not (length name == 0))) _ h in
      let (_, fits, h1) =
        >>=-CanReturn (guard (ltb (length dns_prefix + length name) san_value_bytes)) _ h0 in
      let (_, _, h2) = >>=-CanReturn A.sk_new_null _ h1 in
      let (l1, c1, h3) =
        >>=-CanReturn
          (add_conf_extension C P A [] nid_basic_constraints (codes "critical,CA:FALSE")) _ h2 in
      let (l2, c2, h4) =
        >>=-CanReturn
          (add_conf_extension C P A l1 nid_key_usage (codes "critical,digitalSignature")) _ h3 in
      let (l3, c3, h5) =
        >>=-CanReturn (add_conf_extension C P A l2 nid_ext_key_usage (codes "serverAuth")) _ h4 in
      let (l4, c4, h6) =
        >>=-CanReturn (add_conf_extension C P A l3 nid_subject_alt_name (dns_prefix ++ name)) _
          h5 in
      let (l5, c5, h7) = >>=-CanReturn (add_subject_key_identifier C P A l4 server) _ h6 in
      let (l6, c6, c7) = >>=-CanReturn (add_authority_key_identifier C P A l5 ca) _ h7 in
      let (e1, m1, a1) = add_conf_extension-Appended C P A [] nid_basic_constraints _ c1 in
      let (e2, m2, a2) = add_conf_extension-Appended C P A l1 nid_key_usage _ c2 in
      let (e3, m3, a3) = add_conf_extension-Appended C P A l2 nid_ext_key_usage _ c3 in
      let (e4, m4, a4) = add_conf_extension-Appended C P A l3 nid_subject_alt_name _ c4 in
      let (e5, m5, a5) = add_subject_key_identifier-Appended C P A l4 server c5 in
      let (e6, m6, a6) = add_authority_key_identifier-Appended C P A l5 ca c6 in
      let (e7, m7, a7) = add_pqc_marker-Appended C P A l6 c7 in
      let not_empty = guard-CanReturn (not (length name == 0)) named in
      let not_long = guard-CanReturn (ltb (length dns_prefix + length name) san_value_bytes) fits in
      (
        name,
        refl,
        ground (arith, not_empty),
        ground (arith, not_long),
        (
          e1,
          e2,
          e3,
          e4,
          e5,
          e6,
          e7,
          ground (arith, a1, a2, a3, a4, a5, a6, a7),
          m1,
          m2,
          m3,
          m4,
          m5,
          m6,
          m7,
        ),
      )

  -- An encryption certificate has exactly five: no CA, for encryption and key agreement only, the
  -- identifiers of the SM2 key and of the CA's key, and the marker.
  pub build_encryption_server_extensions_layout :
      (ca : Option (HybridPublicKey C.Key)) (server : Option (Pkey C.Key)) (l : List A.Ext)
      → CanReturn (build_encryption_server_extensions C P A ca server) l
      → (e1 e2 e3 e4 e5 : A.Ext) × (l ≡ e1 ∷ e2 ∷ e3 ∷ e4 ∷ e5 ∷ [])
        × IsConf C P A nid_basic_constraints (codes "critical,CA:FALSE") e1
        × IsConf C P A nid_key_usage (codes "critical,keyEncipherment,keyAgreement") e2
        × IsSubjectId C P A (compute_sm2_key_identifier C P A server) e3
        × IsAuthorityId C P A (compute_key_identifier C P A ca) e4
        × IsMarker C P A e5
  unfolding build_encryption_server_extensions
  build_encryption_server_extensions_layout ca server l h =
      let (_, _, h0) = >>=-CanReturn A.sk_new_null _ h in
      let (l1, c1, h1) =
        >>=-CanReturn
          (add_conf_extension C P A [] nid_basic_constraints (codes "critical,CA:FALSE")) _ h0 in
      let (l2, c2, h2) =
        >>=-CanReturn
          (add_conf_extension C P A l1 nid_key_usage
            (codes "critical,keyEncipherment,keyAgreement"))
          _ h1 in
      let (l3, c3, h3) = >>=-CanReturn (add_sm2_subject_key_identifier C P A l2 server) _ h2 in
      let (l4, c4, c5) = >>=-CanReturn (add_authority_key_identifier C P A l3 ca) _ h3 in
      let (e1, m1, a1) = add_conf_extension-Appended C P A [] nid_basic_constraints _ c1 in
      let (e2, m2, a2) = add_conf_extension-Appended C P A l1 nid_key_usage _ c2 in
      let (e3, m3, a3) = add_sm2_subject_key_identifier-Appended C P A l2 server c3 in
      let (e4, m4, a4) = add_authority_key_identifier-Appended C P A l3 ca c4 in
      let (e5, m5, a5) = add_pqc_marker-Appended C P A l4 c5 in
      (e1, e2, e3, e4, e5, ground (arith, a1, a2, a3, a4, a5), m1, m2, m3, m4, m5)

  -- A server certificate is created for a DNS name only that is there and whose text with its
  -- prefix fits into the buffer of 300 bytes, the closing zero included.
  pub create_server_dns_bounds :
      (private : HybridPrivateKey C.Key) (public server : Option (HybridPublicKey C.Key))
      (issuer : P.X509) (common_name dns_name : Option Bytes) (x : P.X509)
      → CanReturn
          (hybrid_x509_create_server C P A
            (some private)
            public
            server
            (some issuer)
            common_name
            dns_name)
          x
      → (name : Bytes) × (dns_name ≡ some name)
        × (1 ≤ length name)
        × (length (codes "DNS:" ++ name) + 1 ≤ san_value_bytes)
  create_server_dns_bounds private public server issuer common_name dns_name x h =
      let (t, made, _) =
        create_server-signed C P A private public server issuer common_name dns_name h in
      let f =
        make_tbs-Filled C P A server (P.get_subject_name issuer) common_name 2 false public dns_name
          made in
      let (name, there, least, most, _) =
        build_server_extensions_layout public server dns_name f.list f.built in
      (name, there, least, omega (arith, most))
