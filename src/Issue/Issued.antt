-- ===== src/Issue/Issued.antt =====
-- A created certificate passes the checks that depend on its issuer: it names the issuer, its
-- algorithms are the composite ones, and its signature verifies.
use hybrid_pqc_cert.Prelude.{
  ◌≡◌, refl, sym, ◌∙◌, ap, true, false, Option, some, none, Bytes, arith, CanReturn, >>=-CanReturn,
  pure-CanReturn,
}
use hybrid_pqc_cert.Crypto.{Crypto}
use hybrid_pqc_cert.Crypto.Laws.{IsSteady}
use hybrid_pqc_cert.Pki.{Pki}
use hybrid_pqc_cert.Asn1.{Asn1, Tbs}
use hybrid_pqc_cert.CompositeKey.{HybridPrivateKey, HybridPublicKey}
use hybrid_pqc_cert.CompositeSig.Complete.{KeyPair}
use hybrid_pqc_cert.Chain.{verify_certificate_signature}
use mathlib.Core.Path.{subst}
use hybrid_pqc_cert.Issue.{set_composite_algorithm, make_name}
use hybrid_pqc_cert.Issue.Create.{
  sign_tbs, hybrid_x509_create_root, hybrid_x509_create_server, hybrid_x509_create_sm2_encryption,
}
use hybrid_pqc_cert.Issue.Laws.{ReadsBack}
use hybrid_pqc_cert.Pki.{Algorithm, BitString}
use hybrid_pqc_cert.Prelude.{bytes_eq}
use hybrid_pqc_cert.Crypto.{Pkey}
use hybrid_pqc_cert.X509.{composite_oid, hybrid_x509_composite_signature_algorithms_valid}
use hybrid_pqc_cert.Issue.Signed.{
  sign_tbs-verifies, sign_tbs-Stages, make_certificate_layout, encode-IsCopy,
}
use hybrid_pqc_cert.Issue.Fields.{make_tbs-Filled, make_sm2_encryption_tbs-Filled}
use hybrid_pqc_cert.Issue.Created.{
  create_root-signed, create_server-signed, create_encryption-signed,
}
use hybrid_pqc_cert.Issue.Laws.{IsExact}
use hybrid_pqc_cert.Issue.Agree.{AgreeOnSuccess, agree_>>=, agree_unit, agree_from_option}

module _ (C : Crypto) (P : Pki C) (A : Asn1 C P) where
  -- What a chain check asks about a certificate and the name and the key of its issuer.
  pub record IssuedBy (name : P.Name) (public : HybridPublicKey C.Key) (x : P.X509) : Type 0 where
    pub linked : P.name_eq (P.get_issuer_name x) name ≡ true
    pub algorithms : hybrid_x509_composite_signature_algorithms_valid C P (some x) ≡ true
    pub verifies :
        (v : C.World) → ((verify_certificate_signature C P x public v).0).composite_valid ≡ true

  module _ (exact : IsExact C P A) where
    abbrev composite_algorithm : Algorithm P.Oid
    composite_algorithm = record {
      object = some (exact.object composite_oid);
      parameters_absent = true;
    }

    set_algorithm_is :
        (old : Algorithm P.Oid) {a : Algorithm P.Oid}
        → CanReturn (set_composite_algorithm C P A (some old)) a
        → a ≡ composite_algorithm
    unfolding set_composite_algorithm
    set_algorithm_is old h =
        let (o, made, h1) = >>=-CanReturn (P.obj_txt2obj composite_oid) _ h in
        sym (pure-CanReturn _ h1)
        ∙ exact.set0 o old
        ∙ ap (λ o. record { object = some o; parameters_absent = true })
            (exact.txt2obj_gives composite_oid made)

    algorithms_valid :
        (x : P.X509) (value : BitString)
        → P.get0_signature_value x ≡ some value
        → P.get0_tbs_sigalg x ≡ some composite_algorithm
        → P.get0_signature_algorithm x ≡ some composite_algorithm
        → hybrid_x509_composite_signature_algorithms_valid C P (some x) ≡ true
    unfolding hybrid_x509_composite_signature_algorithms_valid bytes_eq
    algorithms_valid x value v t o =
        let same : bytes_eq composite_oid composite_oid ≡ true = refl in
        ground (
          arith,
          v,
          t,
          o,
          exact.composite_text,
          exact.obj_eq_refl (exact.object composite_oid),
          same,
        )

    -- A certificate that was signed with one half of a key pair is issued by the other half.
    sign_tbs-IssuedBy :
        (reads : ReadsBack C P A) (steady : IsSteady C) (private : HybridPrivateKey C.Key)
        (public : HybridPublicKey C.Key) (pair : KeyPair C private public)
        (t : Tbs P.Name P.Oid P.Spki A.Ext A.Time) (name : P.Name) (blank : Algorithm P.Oid)
        {x : P.X509}
        → CanReturn (A.name_dup name) t.issuer
        → CanReturn (set_composite_algorithm C P A (some blank)) t.signature
        → CanReturn (sign_tbs C P A (some t) (some private)) x
        → IssuedBy name public x
    sign_tbs-IssuedBy reads steady private public pair t name blank {x} named set h =
        let s = sign_tbs-Stages C P A t private h in
        let copy = encode-IsCopy C P A reads s.certificate s.read in
        let (tbs_is, value_is, (old, outer_set)) =
          make_certificate_layout C P A t s.signature s.made in
        let inner : P.get0_tbs_sigalg x ≡ some composite_algorithm =
          copy.tbs_algorithm
          ∙ ap (λ t. some t.signature) tbs_is
          ∙ ap (λ a. some a) (set_algorithm_is blank set) in
        let outer : P.get0_signature_algorithm x ≡ some composite_algorithm =
          copy.signature_algorithm ∙ ap (λ a. some a) (set_algorithm_is old outer_set) in
        let issuer_is : P.get_issuer_name x ≡ name =
          copy.issuer ∙ ap (λ t. t.issuer) tbs_is ∙ exact.dup_gives name named in
        record {
          linked = ap (λ n. P.name_eq n name) issuer_is ∙ exact.name_eq_refl name;
          algorithms =
              algorithms_valid x s.certificate.signature_value copy.signature_value inner outer;
          verifies = sign_tbs-verifies C P A reads steady private public pair t h;
        }

    -- A server certificate that is created with one half of a key pair names the certificate of its
    -- issuer, has the composite algorithms, and its signature verifies under the other half, in
    -- every run. What was encoded is assumed to be read back, and memory to be there for the
    -- verification.
    pub hybrid_x509_create_server-IssuedBy :
        (reads : ReadsBack C P A) (steady : IsSteady C) (private : HybridPrivateKey C.Key)
        (public : HybridPublicKey C.Key) (pair : KeyPair C private public)
        (ca server : Option (HybridPublicKey C.Key)) (issuer : P.X509)
        (common_name dns_name : Option Bytes) (x : P.X509)
        → CanReturn
            (hybrid_x509_create_server C P A
              (some private)
              ca
              server
              (some issuer)
              common_name
              dns_name)
            x
        → IssuedBy (P.get_subject_name issuer) public x
    hybrid_x509_create_server-IssuedBy reads steady private public pair ca server issuer common_name
          dns_name x h =
        let (t, made, signed) =
          create_server-signed C P A private ca server issuer common_name dns_name h in
        let f =
          make_tbs-Filled C P A server (P.get_subject_name issuer) common_name 2 false ca dns_name
            made in
        sign_tbs-IssuedBy reads steady private public pair t (P.get_subject_name issuer) f.blank
          f.issued_by f.algorithm signed

    -- An encryption certificate, likewise.
    pub hybrid_x509_create_sm2_encryption-IssuedBy :
        (reads : ReadsBack C P A) (steady : IsSteady C) (private : HybridPrivateKey C.Key)
        (public : HybridPublicKey C.Key) (pair : KeyPair C private public)
        (ca : HybridPublicKey C.Key) (server : Pkey C.Key) (issuer : P.X509) (common_name : Bytes)
        (x : P.X509)
        → CanReturn
            (hybrid_x509_create_sm2_encryption C P A
              (some private)
              (some ca)
              (some server)
              (some issuer)
              (some common_name))
            x
        → IssuedBy (P.get_subject_name issuer) public x
    hybrid_x509_create_sm2_encryption-IssuedBy reads steady private public pair ca server issuer
          common_name x h =
        let (t, made, signed) =
          create_encryption-signed C P A private ca server issuer common_name h in
        let f =
          make_sm2_encryption_tbs-Filled C P A (some server) (P.get_subject_name issuer)
            (some common_name) (some ca) made in
        sign_tbs-IssuedBy reads steady private public pair t (P.get_subject_name issuer) f.blank
          f.issued_by f.algorithm signed

    make_name-agrees : (common_name : Option Bytes) → AgreeOnSuccess (make_name C P A common_name)
    unfolding make_name
    make_name-agrees common_name = agree_>>= (agree_from_option {o = common_name}) λ text.
        agree_>>= agree_unit λ _. agree_>>= exact.name_new_agrees λ empty.
          agree_>>= (exact.add_entry_agrees empty _ _ _) λ country.
            agree_>>= (exact.add_entry_agrees country _ _ _)
              λ organization. exact.add_entry_agrees organization _ _ _

    subject_is_name :
        (reads : ReadsBack C P A) (k : HybridPrivateKey C.Key)
        (t : Tbs P.Name P.Oid P.Spki A.Ext A.Time) {x : P.X509}
        → CanReturn (sign_tbs C P A (some t) (some k)) x
        → P.get_subject_name x ≡ t.subject
    subject_is_name reads k t h =
        let s = sign_tbs-Stages C P A t k h in
        (encode-IsCopy C P A reads s.certificate s.read).subject
        ∙ ap (λ t. t.subject) ((make_certificate_layout C P A t s.signature s.made).0)

    -- A root certificate that is created with one half of a key pair names itself as its issuer,
    -- has the composite algorithms, and its signature verifies under the other half, in every run.
    -- What was encoded is assumed to be read back, and memory to be there for the verification.
    pub hybrid_x509_create_root-IssuedBy :
        (reads : ReadsBack C P A) (steady : IsSteady C) (private : HybridPrivateKey C.Key)
        (public : HybridPublicKey C.Key) (pair : KeyPair C private public)
        (common_name : Option Bytes) (x : P.X509)
        → CanReturn (hybrid_x509_create_root C P A (some private) (some public) common_name) x
        → IssuedBy (P.get_subject_name x) public x
    hybrid_x509_create_root-IssuedBy reads steady private public pair common_name x h =
        let (name, t, named, made, signed) =
          create_root-signed C P A private (some public) common_name h in
        let f =
          make_tbs-Filled C P A (some public) name common_name 1 true (some public) none made in
        let own : P.get_subject_name x ≡ name =
          subject_is_name reads private t signed
          ∙ (make_name-agrees common_name).agrees t.subject name f.named named in
        subst (λ n. IssuedBy n public x) (sym own)
          (sign_tbs-IssuedBy reads steady private public pair t name f.blank f.issued_by f.algorithm
            signed)
