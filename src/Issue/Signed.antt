-- ===== src/Issue/Signed.antt =====
-- The signature of a created certificate verifies under the key of its issuer.
use hybrid_pqc_cert.Prelude.{
  ◌≡◌, refl, sym, ◌∙◌, ap, true, not, some, none, Bytes, bytes, null, length, leb, ◌==◌, arith,
  Prog, ◌>>=◌, guard, attempt, CanReturn, >>=-CanReturn, guard-CanReturn, pure-CanReturn,
  Option-cases, inl, inr,
}
use hybrid_pqc_cert.Crypto.{Crypto}
use hybrid_pqc_cert.Crypto.Laws.{IsSteady}
use hybrid_pqc_cert.Pki.{Pki, Algorithm}
use hybrid_pqc_cert.Asn1.{Asn1, Tbs, Certificate}
use hybrid_pqc_cert.CompositeKey.{HybridPrivateKey, HybridPublicKey}
use hybrid_pqc_cert.CompositeSig.{sign, composite_verify, composite_verify_detailed}
use hybrid_pqc_cert.CompositeSig.Complete.{KeyPair, sign_verifies}
use hybrid_pqc_cert.KeyFile.{int_max}
use hybrid_pqc_cert.Chain.{signed_parts, verify_certificate_signature}
use hybrid_pqc_cert.X509.{get_tbs_der, get_signature}
use mathlib.Core.Path.{subst}
use hybrid_pqc_cert.Prelude.{Slice, [], ◌∷◌}
use hybrid_pqc_cert.CompositeSig.{parse_inputs, parse_signature}
use hybrid_pqc_cert.Issue.{set_composite_algorithm}
use hybrid_pqc_cert.Issue.Create.{make_certificate, encode, sign_tbs}
use hybrid_pqc_cert.Issue.Laws.{IsCopy, ReadsBack}

module _ (C : Crypto) (P : Pki C) (A : Asn1 C P) where
  -- What came before a certificate that was signed.
  pub record Stages (t : Tbs P.Name P.Oid P.Spki A.Ext A.Time) (k : HybridPrivateKey C.Key)
      (x : P.X509) : Type 0 where
    pub tbs_der : Bytes
    pub signature : Bytes
    pub certificate : Certificate P.Name P.Oid P.Spki A.Ext A.Time
    pub encoded : CanReturn (A.i2d_tbs t) tbs_der
    pub not_empty : not (length tbs_der == 0) ≡ true
    pub signed : CanReturn (sign C (some k) (bytes tbs_der) (null 0)) signature
    pub made : CanReturn (make_certificate C P A t signature) certificate
    pub read : CanReturn (encode C P A certificate) x

  pub sign_tbs-Stages :
      (t : Tbs P.Name P.Oid P.Spki A.Ext A.Time) (k : HybridPrivateKey C.Key) {x : P.X509}
      → CanReturn (sign_tbs C P A (some t) (some k)) x
      → Stages t k x
  unfolding sign_tbs
  sign_tbs-Stages t k h =
      let (tbs_der, encoded, h1) = >>=-CanReturn (A.i2d_tbs t) _ h in
      let (_, full, h2) = >>=-CanReturn (guard (not (length tbs_der == 0))) _ h1 in
      let (signature, signed, h3) = >>=-CanReturn (sign C (some k) (bytes tbs_der) (null 0)) _ h2 in
      let (_, _, h4) = >>=-CanReturn (guard (leb (length signature) int_max)) _ h3 in
      let (certificate, made, read) = >>=-CanReturn (make_certificate C P A t signature) _ h4 in
      record {
        tbs_der = tbs_der;
        signature = signature;
        certificate = certificate;
        encoded = encoded;
        not_empty = guard-CanReturn (not (length tbs_der == 0)) full;
        signed = signed;
        made = made;
        read = read;
      }

  pub make_certificate_layout :
      (t : Tbs P.Name P.Oid P.Spki A.Ext A.Time) (signature : Bytes)
      {c : Certificate P.Name P.Oid P.Spki A.Ext A.Time}
      → CanReturn (make_certificate C P A t signature) c
      → (c.tbs_certificate ≡ t)
        × (c.signature_value ≡ record { unused_bits = 0; content = signature })
        × ((old : Algorithm P.Oid) × CanReturn
              (set_composite_algorithm C P A (some old))
              c.signature_algorithm)
  unfolding make_certificate
  make_certificate_layout t signature h =
      let (blank, _, h1) = >>=-CanReturn A.certificate_new _ h in
      let (algorithm, set, h2) =
        >>=-CanReturn (set_composite_algorithm C P A (some blank.signature_algorithm)) _ h1 in
      let (_, _, h3) = >>=-CanReturn (A.bit_string_set signature) _ h2 in
      let same = sym (pure-CanReturn _ h3) in
      (
        ap (λ c. c.tbs_certificate) same,
        ap (λ c. c.signature_value) same,
        (
          blank.signature_algorithm,
          subst
              (λ c.
                CanReturn (set_composite_algorithm C P A (some blank.signature_algorithm))
                  c.signature_algorithm)
              (sym same) set,
        ),
      )

  pub encode-IsCopy :
      (reads : ReadsBack C P A) (c : Certificate P.Name P.Oid P.Spki A.Ext A.Time) {x : P.X509}
      → CanReturn (encode C P A c) x
      → IsCopy C P A (reads.tbs_der c.tbs_certificate) x c
  unfolding encode
  encode-IsCopy reads c {x} h =
      let (der, (v, made), h1) = >>=-CanReturn (A.i2d_certificate c) _ h in
      let (_, _, h2) = >>=-CanReturn (guard (not (length der == 0))) _ h1 in
      let ((parsed, cursor), (w, read), h3) = >>=-CanReturn (P.d2i_x509 der) _ h2 in
      let (_, _, h4) = >>=-CanReturn (guard (cursor == length der)) _ h3 in
      subst (λ y. IsCopy C P A (reads.tbs_der c.tbs_certificate) y c) (pure-CanReturn parsed h4)
        (reads.reads c v w made read)

  accepted_not_empty :
      (public : HybridPublicKey C.Key) (message ctx : Slice) (signature : Bytes) (w : C.World)
      → (composite_verify C (some public) message ctx (bytes signature) w).0 ≡ true
      → not (length signature == 0) ≡ true
  unfolding composite_verify composite_verify_detailed parse_inputs parse_signature
  accepted_not_empty public message ctx [] w h = absurd (ground arith)
  accepted_not_empty public message ctx (b ∷ signature) w h = ground arith

  verify_signed_parts :
      (x : P.X509) (public : HybridPublicKey C.Key) (der signature : Bytes) (v : C.World)
      → (P.i2d_re_x509_tbs x v).0 ≡ some der
      → not (length der == 0) ≡ true
      → P.get0_signature_value x ≡ some (record { unused_bits = 0; content = signature })
      → not (length signature == 0) ≡ true
      → verify_certificate_signature C P x public v
        ≡ composite_verify_detailed C
            (some public)
            (bytes der)
            (null 0)
            (bytes signature)
            (P.i2d_re_x509_tbs x v).1
  unfolding verify_certificate_signature signed_parts get_tbs_der get_signature
  verify_signed_parts x public der signature v e full f some_bytes =
      ground (arith, e, full, f, some_bytes)

  -- A certificate that was signed with one half of a key pair verifies under the other half, in
  -- every run, where a certificate that was encoded is read back as it was.
  pub sign_tbs-verifies :
      (reads : ReadsBack C P A) (steady : IsSteady C) (private : HybridPrivateKey C.Key)
      (public : HybridPublicKey C.Key) (pair : KeyPair C private public)
      (t : Tbs P.Name P.Oid P.Spki A.Ext A.Time) {x : P.X509}
      → CanReturn (sign_tbs C P A (some t) (some private)) x
      → (v : C.World) → ((verify_certificate_signature C P x public v).0).composite_valid ≡ true
  unfolding composite_verify
  sign_tbs-verifies reads steady private public pair t {x} h v =
      let s = sign_tbs-Stages t private h in
      let (w, signed) = s.signed in
      let (signature, again, verifies) =
        sign_verifies C steady private public pair (bytes s.tbs_der) (null 0) w refl refl
          (omega arith) in
      let same : signature ≡ s.signature = ground (arith, signed, again) in
      let copy = encode-IsCopy reads s.certificate s.read in
      let (tbs_is, value_is, _) = make_certificate_layout t s.signature s.made in
      let (u, encoded) = s.encoded in
      let v' = (P.i2d_re_x509_tbs x v).1 in
      let der_is : reads.tbs_der s.certificate.tbs_certificate ≡ s.tbs_der =
        ap (λ t. reads.tbs_der t) tbs_is ∙ sym (reads.i2d_tbs_gives t u encoded) in
      let accepts : (composite_verify C (some public) (bytes s.tbs_der) (null 0) (bytes s.signature)
            v').0
          ≡ true =
        rw (sym same) (verifies v') in
      let some_bytes : not (length s.signature == 0) ≡ true =
        accepted_not_empty public (bytes s.tbs_der) (null 0) s.signature v' accepts in
      ap (λ r. (r.0).composite_valid)
        (verify_signed_parts x public s.tbs_der s.signature v (copy.tbs v ∙ ap (λ b. some b) der_is)
          s.not_empty (copy.signature_value ∙ ap (λ b. some b) value_is) some_bytes)
      ∙ accepts

  unsigned :
      (key : HybridPrivateKey C.Key) {x : P.X509} → ¬ CanReturn (sign_tbs C P A none (some key)) x
  unfolding sign_tbs
  unsigned key (w, h) = ground arith

  -- The signing of a part that may not have been made.
  pub signed_attempt :
      (make : Prog C.World (Tbs P.Name P.Oid P.Spki A.Ext A.Time)) (key : HybridPrivateKey C.Key)
      {x : P.X509}
      → CanReturn (attempt make >>= λ tbs. sign_tbs C P A tbs (some key)) x
      → (t : Tbs P.Name P.Oid P.Spki A.Ext A.Time) × CanReturn make t
        × CanReturn (sign_tbs C P A (some t) (some key)) x
  signed_attempt make key {x} h =
      let (tbs, (w, made), h1) =
        >>=-CanReturn (attempt make) (λ tbs. sign_tbs C P A tbs (some key)) h in
      elim (Option-cases tbs) [
        | inl e ↦
            absurd (unsigned key (subst (λ o. CanReturn (sign_tbs C P A o (some key)) x) e h1))
        | inr (t, e) ↦
            (t, (w, ground arith), subst (λ o. CanReturn (sign_tbs C P A o (some key)) x) e h1)
      ]
