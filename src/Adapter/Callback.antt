-- ===== src/Adapter/Callback.antt =====
-- What the callback's results mean for the two certificates of a TLCP server.
use mathlib.Core.Option
use hybrid_pqc_cert.Prelude.{
  ℕ, ◌≡◌, refl, inl, inr, true, Option, some, none, Bytes, Slice, null, bytes, drop, take, arith,
  CanReturn, Option-cases,
}
use hybrid_pqc_cert.Crypto.{Crypto}
use hybrid_pqc_cert.Pki.{Pki}
use hybrid_pqc_cert.Chain.Accepted.{EncryptionAccepted}
use hybrid_pqc_cert.Chain.Verdict.{verify_encryption-EncryptionAccepted}
use hybrid_pqc_cert.Adapter.Types.{valid, not_applicable, Config, KeyBuffer, Outcome}
use hybrid_pqc_cert.Adapter.Scan.{contains_composite_oid}
use hybrid_pqc_cert.Adapter.Verdict.{ValidSigning, verify_der-ValidSigning}
use hybrid_pqc_cert.Adapter.{
  decode_der_strict, decode_next_certificate, tlcp_hybrid_cert_verify_der, first_certificate,
  check_encryption, verify_both, tlcp_hybrid_cert_gmssl_verify_callback,
}

-- Evidence for the result VALID of the callback: a signing certificate at the front of the input
-- and, right behind it, an encryption certificate of the same subject and issuer.
pub record ValidPair (C : Crypto) (P : Pki C) (chain_der : Slice) (config : Config)
    (buffer : KeyBuffer) : Type 0 where
  pub der : Bytes
  pub consumed : ℕ
  pub signing : P.X509
  pub encryption : P.X509
  pub root : P.X509
  pub input : chain_der ≡ bytes der
  pub first : CanReturn (decode_next_certificate C P (bytes der)) (signing, consumed)
  pub second :
      (n : ℕ) × CanReturn (decode_next_certificate C P (bytes (drop consumed der))) (encryption, n)
  pub root_decoded : CanReturn (decode_der_strict C P config.trust_anchor_der) root
  pub signing_valid :
      ValidSigning C P
        (bytes (take consumed der))
        config.trust_anchor_der
        config.expected_hostname
        buffer
  pub encryption_accepted : EncryptionAccepted C P encryption root
  pub same_subject : P.name_eq (P.get_subject_name signing) (P.get_subject_name encryption) ≡ true
  pub same_issuer : P.name_eq (P.get_issuer_name signing) (P.get_issuer_name encryption) ≡ true

module _ (C : Crypto) (P : Pki C) where
  -- The callback reads the length of the signing certificate off its decoding, so a first
  -- certificate that cannot be decoded counts as absent, whatever it contains.
  pub callback_undecodable :
      (der : Bytes) (buffer : KeyBuffer) (config : Config) (w : C.World)
      → (decode_next_certificate C P (bytes der) w).0 ≡ none
      → (tlcp_hybrid_cert_gmssl_verify_callback C P (bytes der) buffer (some config) w).0
        ≡ not_applicable
  unfolding tlcp_hybrid_cert_gmssl_verify_callback verify_both first_certificate
      tlcp_hybrid_cert_verify_der decode_der_strict contains_composite_oid
  callback_undecodable der buffer config w e = ground arith

  check_encryption_lem :
      (config : Config) (signing encryption : Option P.X509) (o : Outcome C.World)
      → let checked = check_encryption C P config signing encryption o in
        checked.result ≡ valid
        → (s : P.X509) × (e : P.X509) × (root : P.X509) × (signing ≡ some s)
          × (encryption ≡ some e)
          × CanReturn (decode_der_strict C P config.trust_anchor_der) root
          × EncryptionAccepted C P e root
          × (P.name_eq (P.get_subject_name s) (P.get_subject_name e) ≡ true)
          × (P.name_eq (P.get_issuer_name s) (P.get_issuer_name e) ≡ true)
          × (checked.key_buffer ≡ o.key_buffer)
  unfolding check_encryption
  check_encryption_lem config none encryption o h = absurd (ground arith)
  check_encryption_lem config (some s) none o h = absurd (ground arith)
  check_encryption_lem config (some s) (some e) o h =
      let d = decode_der_strict C P config.trust_anchor_der o.world in
      let (e', root', p, q, accepted) =
        verify_encryption-EncryptionAccepted C P (some e) d.0 d.1 (ground arith) in
      let x : e ≡ e' = ground arith in
      (s, e, root', refl, refl, (o.world, q), rw x accepted, ground arith, ground arith, refl)

  verify_both_valid :
      (der : Bytes) (buffer : KeyBuffer) (config : Config) (w : C.World)
      → let o = verify_both C P config (bytes der) buffer w in
        o.result ≡ valid → ValidPair C P (bytes der) config o.key_buffer
  unfolding verify_both first_certificate tlcp_hybrid_cert_gmssl_verify_callback
  verify_both_valid der buffer config w h =
      let d = decode_next_certificate C P (bytes der) w in
      elim (Option-cases d.0) [
        | inl e ↦
            let undecodable : (verify_both C P config (bytes der) buffer w).result
                ≡ not_applicable =
              callback_undecodable der buffer config w e in
            absurd (cc)
        | inr ((signing, consumed), e) ↦
            let second = decode_next_certificate C P (bytes (drop consumed der)) d.1 in
            let o =
              tlcp_hybrid_cert_verify_der C P (bytes (take consumed der)) config.trust_anchor_der
                config.expected_hostname buffer second.1 in
            let encryption : Option P.X509 = Option.map (λ r. r.0) second.0 in
            let first_ok : o.result ≡ valid = ground arith in
            let (s, c, root, p, q, r, accepted, subject, issuer, kept) =
              check_encryption_lem config (some signing) encryption o (ground arith) in
            let x : signing ≡ s = ground arith in
            elim (Option-cases second.0) [
              | inl f ↦ absurd (ground arith)
              | inr ((encryption', n), f) ↦
                  let y : encryption' ≡ c = ground arith in
                  let put_out : (verify_both C P config (bytes der) buffer w).key_buffer
                      ≡ o.key_buffer =
                    ground arith in
                  record {
                    der = der;
                    consumed = consumed;
                    signing = signing;
                    encryption = encryption';
                    root = root;
                    input = refl;
                    first = (w, e);
                    second = (n, (d.1, f));
                    root_decoded = r;
                    signing_valid = rw put_out (
                        verify_der-ValidSigning C P (bytes (take consumed der))
                          config.trust_anchor_der config.expected_hostname buffer second.1
                          first_ok);
                    encryption_accepted = rw y accepted;
                    same_subject = rw (x, y) subject;
                    same_issuer = rw (x, y) issuer;
                  }
            ]
      ]

  -- VALID from the callback means a pair of certificates, one behind the other in the input, that
  -- one trust anchor has signed with both algorithms, each in its role and both of one identity;
  -- the key buffer holds the SM2 key of the first.
  pub callback_valid-ValidPair :
      (chain_der : Slice) (buffer : KeyBuffer) (config : Option Config) (w : C.World)
      → let r = tlcp_hybrid_cert_gmssl_verify_callback C P chain_der buffer config w in
        r.0 ≡ valid → (c : Config) × (config ≡ some c) × ValidPair C P chain_der c r.1
  unfolding tlcp_hybrid_cert_gmssl_verify_callback verify_both first_certificate
      tlcp_hybrid_cert_verify_der decode_der_strict contains_composite_oid
  callback_valid-ValidPair chain_der buffer none w h = cc
  callback_valid-ValidPair (null n) buffer (some config) w h = absurd (ground arith)
  callback_valid-ValidPair (bytes der) buffer (some config) w h =
      (config, refl, verify_both_valid der buffer config w h)
