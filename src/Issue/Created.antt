-- ===== src/Issue/Created.antt =====
-- What the three functions that create a certificate give.
use hybrid_pqc_cert.Prelude.{
  true, false, not, Option, some, none, Bytes, length, ◌==◌, guard, CanReturn, >>=-CanReturn,
}
use hybrid_pqc_cert.Crypto.{Crypto, Pkey}
use hybrid_pqc_cert.Pki.{Pki}
use hybrid_pqc_cert.Asn1.{Asn1, Tbs}
use hybrid_pqc_cert.CompositeKey.{HybridPrivateKey, HybridPublicKey}
use hybrid_pqc_cert.Issue.{make_name}
use hybrid_pqc_cert.Issue.Create.{make_tbs, make_sm2_encryption_tbs}
use hybrid_pqc_cert.Issue.Create.{
  sign_tbs, hybrid_x509_create_root, hybrid_x509_create_server, hybrid_x509_create_sm2_encryption,
}
use hybrid_pqc_cert.Issue.Signed.{signed_attempt}

module _ (C : Crypto) (P : Pki C) (A : Asn1 C P) where
  -- The signed part of a root certificate, of a server's and of one for encryption.
  pub create_root-signed :
      (private : HybridPrivateKey C.Key) (public : Option (HybridPublicKey C.Key))
      (common_name : Option Bytes) {x : P.X509}
      → CanReturn (hybrid_x509_create_root C P A (some private) public common_name) x
      → (name : P.Name) × (t : Tbs P.Name P.Oid P.Spki A.Ext A.Time) × CanReturn
          (make_name C P A common_name)
          name
        × CanReturn (make_tbs C P A public name common_name 1 true public none) t
        × CanReturn (sign_tbs C P A (some t) (some private)) x
  unfolding hybrid_x509_create_root
  create_root-signed private public common_name h =
      let (name, named, h1) = >>=-CanReturn (make_name C P A common_name) _ h in
      let (t, made, signed) =
        signed_attempt C P A (make_tbs C P A public name common_name 1 true public none) private
          h1 in
      (name, t, named, made, signed)

  pub create_server-signed :
      (private : HybridPrivateKey C.Key) (public server : Option (HybridPublicKey C.Key))
      (issuer : P.X509) (common_name dns_name : Option Bytes) {x : P.X509}
      → CanReturn
          (hybrid_x509_create_server C P A
            (some private)
            public
            server
            (some issuer)
            common_name
            dns_name)
          x
      → (t : Tbs P.Name P.Oid P.Spki A.Ext A.Time) × CanReturn
          (make_tbs C P A server (P.get_subject_name issuer) common_name 2 false public dns_name)
          t
        × CanReturn (sign_tbs C P A (some t) (some private)) x
  unfolding hybrid_x509_create_server
  create_server-signed private public server issuer common_name dns_name h =
      signed_attempt C P A
        (make_tbs C P A server (P.get_subject_name issuer) common_name 2 false public dns_name)
        private h

  pub create_encryption-signed :
      (private : HybridPrivateKey C.Key) (public : HybridPublicKey C.Key) (server : Pkey C.Key)
      (issuer : P.X509) (name : Bytes) {x : P.X509}
      → CanReturn
          (hybrid_x509_create_sm2_encryption C P A
            (some private)
            (some public)
            (some server)
            (some issuer)
            (some name))
          x
      → (t : Tbs P.Name P.Oid P.Spki A.Ext A.Time) × CanReturn
          (make_sm2_encryption_tbs C P A
            (some server)
            (P.get_subject_name issuer)
            (some name)
            (some public))
          t
        × CanReturn (sign_tbs C P A (some t) (some private)) x
  unfolding hybrid_x509_create_sm2_encryption
  create_encryption-signed private public server issuer name h =
      let (_, _, h1) = >>=-CanReturn (guard (not (length name == 0))) _ h in
      signed_attempt C P A
        (make_sm2_encryption_tbs C P A (some server) (P.get_subject_name issuer) (some name)
          (some public))
        private h1
