-- ===== src/Adapter/Verdict.antt =====
-- What each of the three results of the adapter means.
use hybrid_pqc_cert.Prelude.{
  ◌≡◌, refl, ◌⊎◌, inl, inr, true, false, Bool, ◌∷◌, [], ◌++◌, Option, some, none, Bytes, Slice,
  bytes, arith, CanReturn, ◌&&◌, Option-cases, is_some, Bool-cases,
}
use hybrid_pqc_cert.Crypto.{Crypto}
use hybrid_pqc_cert.Pki.{Pki}
use hybrid_pqc_cert.X509.{hybrid_x509_composite_algorithms_valid, hybrid_x509_has_pqc_extension}
use hybrid_pqc_cert.Chain.Accepted.{RootAccepted, ServerAccepted}
use hybrid_pqc_cert.Chain.Verdict.{verify_chain-Accepted}
use hybrid_pqc_cert.Adapter.Types.{valid, invalid, KeyBuffer, clear_buffer}
use hybrid_pqc_cert.Adapter.Scan.{composite_oid_der, contains_composite_oid_iff}
use hybrid_pqc_cert.Adapter.{
  decode_der_strict, certificate_mentions_composite, get_sm2_sign_public_key, verify_chain_of,
  host_ok, put_key, tlcp_hybrid_cert_get_sm2_sign_public_key, examine, tlcp_hybrid_cert_verify_der,
}

-- There is no name to check, or libcrypto finds the name in the certificate.
abbrev pub HostMatches : (C : Crypto) (P : Pki C) → P.X509 → Option Bytes → Type 0
HostMatches C P signing hostname =
    (hostname ≡ none)
    ⊎ (hostname ≡ some [])
    ⊎ ((name : Bytes) × (hostname ≡ some name) × CanReturn (P.check_host signing name) tt)

-- Evidence for the result VALID of `tlcp_hybrid_cert_verify_der`.
pub record ValidSigning (C : Crypto) (P : Pki C) (signing_der anchor : Slice)
    (hostname : Option Bytes) (buffer : KeyBuffer) : Type 0 where
  pub signing : P.X509
  pub root : P.X509
  pub decoded : CanReturn (decode_der_strict C P signing_der) signing
  pub root_decoded : CanReturn (decode_der_strict C P anchor) root
  pub root_accepted : RootAccepted C P root
  pub signing_accepted : ServerAccepted C P signing root
  pub host : HostMatches C P signing hostname
  pub octets : Bytes
  pub exported : CanReturn (get_sm2_sign_public_key C P signing_der true) octets
  pub put_out : buffer ≡ some (some octets)

-- Evidence that every check before the key is put out has passed.
pub record CheckedSigning (C : Crypto) (P : Pki C) (signing_der anchor : Slice)
    (hostname : Option Bytes) : Type 0 where
  pub signing : P.X509
  pub root : P.X509
  pub decoded : CanReturn (decode_der_strict C P signing_der) signing
  pub root_decoded : CanReturn (decode_der_strict C P anchor) root
  pub root_accepted : RootAccepted C P root
  pub signing_accepted : ServerAccepted C P signing root
  pub host : HostMatches C P signing hostname

module _ (C : Crypto) (P : Pki C) where
  host_ok-HostMatches :
      (signing : P.X509) (hostname : Option Bytes) (w : C.World)
      → (host_ok C P signing hostname w).0 ≡ true
      → HostMatches C P signing hostname
  unfolding host_ok
  host_ok-HostMatches signing none w h = inl refl
  host_ok-HostMatches signing (some []) w h = inr (inl refl)
  host_ok-HostMatches signing (some (x ∷ xs)) w h = inr (inr (x ∷ xs, refl, (w, ground arith)))

  verify_chain_of_lem :
      (root : Option P.X509) (signing : P.X509) (w : C.World)
      → (verify_chain_of C P root signing w).0.chain_valid ≡ true
      → (r : P.X509) × (root ≡ some r) × RootAccepted C P r × ServerAccepted C P signing r
  unfolding verify_chain_of
  verify_chain_of_lem none signing w h = cc
  verify_chain_of_lem (some r) signing w h =
      let (r', s', e, f, a, b) = verify_chain-Accepted C P (some r) (some signing) w h in
      let x : r ≡ r' = ground arith in
      let y : signing ≡ s' = ground arith in (r, refl, rw x a, rw (x, y) b)

  put_key_lem :
      (fine : Bool) (signing_der : Slice) (buffer : KeyBuffer) (w : C.World)
      → (put_key C P fine signing_der buffer w).0 ≡ true
      → (octets : Bytes) × (fine ≡ true)
        × CanReturn (get_sm2_sign_public_key C P signing_der true) octets
        × ((put_key C P fine signing_der buffer w).1 ≡ some (some octets))
  unfolding put_key tlcp_hybrid_cert_get_sm2_sign_public_key
  put_key_lem false signing_der buffer w h = cc
  put_key_lem true signing_der none w h = cc
  put_key_lem true signing_der (some old) w h =
      elim (Option-cases (get_sm2_sign_public_key C P signing_der true w).0) [
        | inl e ↦ absurd (ground arith)
        | inr (octets, e) ↦ (octets, refl, (w, e), ground arith)
      ]

  examine_valid :
      (signing : P.X509) (signing_der anchor : Slice) (hostname : Option Bytes) (buffer : KeyBuffer)
      (w v : C.World)
      → (decode_der_strict C P signing_der v).0 ≡ some signing
      → (examine C P signing signing_der anchor hostname buffer w).result ≡ valid
      → ValidSigning C P signing_der anchor hostname
          (examine C P signing signing_der anchor hostname buffer w).key_buffer
  unfolding examine
  examine_valid signing signing_der anchor hostname buffer w v d h =
      let oid : Bool = hybrid_x509_composite_algorithms_valid C P (some signing) in
      let marker = hybrid_x509_has_pqc_extension C P (some signing) w in
      let root = decode_der_strict C P anchor marker.1 in
      let chain = verify_chain_of C P root.0 signing root.1 in
      let host = host_ok C P signing hostname chain.1 in
      let fine : Bool = oid && is_some marker.0 && (chain.0).chain_valid && host.0 in
      let (octets, all, exported, put) =
        put_key_lem fine signing_der buffer host.1 (ground arith) in
      let (r, e, a, b) = verify_chain_of_lem root.0 signing root.1 (ground arith) in
      record {
        signing = signing;
        root = r;
        decoded = (v, d);
        root_decoded = (marker.1, e);
        root_accepted = a;
        signing_accepted = b;
        host = host_ok-HostMatches signing hostname chain.1 (ground arith);
        octets = octets;
        exported = exported;
        put_out = put;
      }

  -- A certificate that is found valid decodes to the end of its bytes; its root decodes from the
  -- trust anchor, and both meet their specifications. The host name matches, and the buffer holds
  -- the SM2 key of the certificate.
  pub verify_der-ValidSigning :
      (signing_der anchor : Slice) (hostname : Option Bytes) (buffer : KeyBuffer) (w : C.World)
      → let o = tlcp_hybrid_cert_verify_der C P signing_der anchor hostname buffer w in
        o.result ≡ valid → ValidSigning C P signing_der anchor hostname o.key_buffer
  unfolding tlcp_hybrid_cert_verify_der
  verify_der-ValidSigning signing_der anchor hostname buffer w h =
      let d = decode_der_strict C P signing_der w in
      elim (Option-cases d.0) [
        | inl e ↦ absurd (ground arith)
        | inr (signing, e) ↦
            let m = certificate_mentions_composite C P signing d.1 in
            elim (Option-cases m.0) [
              | inl f ↦ absurd (ground arith)
              | inr (u, f) ↦
                  rw (e, f, tlcp_hybrid_cert_verify_der)
                    (examine_valid signing signing_der anchor hostname (clear_buffer buffer) m.1 w e
                      (ground arith))
            ]
      ]

  -- Bytes that cannot be decoded as one certificate but contain the composite identifier are
  -- invalid for `tlcp_hybrid_cert_verify_der`.
  pub verify_der_malformed :
      (front back : Bytes) (anchor : Slice) (hostname : Option Bytes) (buffer : KeyBuffer)
      (w : C.World)
      → let der = bytes (front ++ composite_oid_der ++ back) in
        (decode_der_strict C P der w).0 ≡ none
        → (tlcp_hybrid_cert_verify_der C P der anchor hostname buffer w).result ≡ invalid
  unfolding tlcp_hybrid_cert_verify_der
  verify_der_malformed front back anchor hostname buffer w e = ground (
    arith,
    e,
    (contains_composite_oid_iff (front ++ composite_oid_der ++ back)).1 (front, back, refl),
  )

  put_key_refused :
      (fine : Bool) (signing_der : Slice) (buffer : KeyBuffer) (w : C.World)
      → fine ≡ false
      → (put_key C P fine signing_der buffer w).1 ≡ buffer
  unfolding put_key
  put_key_refused false signing_der buffer w h = refl
  put_key_refused true signing_der buffer w h = cc

  examine_buffer :
      (signing : P.X509) (signing_der anchor : Slice) (hostname : Option Bytes) (buffer : KeyBuffer)
      (w v : C.World)
      → (decode_der_strict C P signing_der v).0 ≡ some signing
      → ((examine C P signing signing_der anchor hostname buffer w).key_buffer ≡ buffer)
        ⊎ CheckedSigning C P signing_der anchor hostname
  unfolding examine
  examine_buffer signing signing_der anchor hostname buffer w v d =
      let oid : Bool = hybrid_x509_composite_algorithms_valid C P (some signing) in
      let marker = hybrid_x509_has_pqc_extension C P (some signing) w in
      let root = decode_der_strict C P anchor marker.1 in
      let chain = verify_chain_of C P root.0 signing root.1 in
      let host = host_ok C P signing hostname chain.1 in
      let fine : Bool = oid && is_some marker.0 && (chain.0).chain_valid && host.0 in
      elim (Bool-cases fine) [
        | inl all ↦
            let (r, e, a, b) = verify_chain_of_lem root.0 signing root.1 (ground arith) in
            inr (record {
              signing = signing;
              root = r;
              decoded = (v, d);
              root_decoded = (marker.1, e);
              root_accepted = a;
              signing_accepted = b;
              host = host_ok-HostMatches signing hostname chain.1 (ground arith);
            })
        | inr some_failed ↦ inl (put_key_refused fine signing_der buffer host.1 some_failed)
      ]

  -- Whatever the result, the key buffer is all zeros at the end (or absent, as it was), unless the
  -- certificate and the trust anchor decode, both pass every check of their roles, and the host name
  -- matches: no octets of a key come from a certificate that fails a check.
  pub verify_der_buffer :
      (signing_der anchor : Slice) (hostname : Option Bytes) (buffer : KeyBuffer) (w : C.World)
      → let o = tlcp_hybrid_cert_verify_der C P signing_der anchor hostname buffer w in
        (o.key_buffer ≡ clear_buffer buffer) ⊎ CheckedSigning C P signing_der anchor hostname
  unfolding tlcp_hybrid_cert_verify_der
  verify_der_buffer signing_der anchor hostname buffer w =
      let d = decode_der_strict C P signing_der w in
      elim (Option-cases d.0) [
        | inl e ↦ inl (ground arith)
        | inr (signing, e) ↦
            let m = certificate_mentions_composite C P signing d.1 in
            elim (Option-cases m.0) [
              | inl f ↦ inl (ground arith)
              | inr (u, f) ↦
                  rw (e, f, tlcp_hybrid_cert_verify_der)
                    (examine_buffer signing signing_der anchor hostname (clear_buffer buffer) m.1 w
                      e)
            ]
      ]
