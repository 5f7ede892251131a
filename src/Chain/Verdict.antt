-- ===== src/Chain/Verdict.antt =====
-- What the verdicts on certificates and on the chain establish.
use hybrid_pqc_cert.Prelude.{
  ◌≡◌, refl, true, false, Option, some, none, arith, Option-cases, inl, inr,
}
use hybrid_pqc_cert.Crypto.{Crypto}
use hybrid_pqc_cert.Crypto.Laws.{Agree}
use hybrid_pqc_cert.Pki.{Pki}
use hybrid_pqc_cert.Chain.Roles.{usage_exclusive}
use hybrid_pqc_cert.Chain.Checks.{usage_allows, usage_encrypts}
use hybrid_pqc_cert.Chain.Accepted.{
  Constrained, RootAccepted, ServerAccepted, EncryptionAccepted, certificate_checks-ServerAccepted,
  encryption_checks-EncryptionAccepted, root_checks-RootAccepted,
}
use hybrid_pqc_cert.Chain.{
  certificate_checks, encryption_checks, root_checks, hybrid_verify_certificate,
  hybrid_verify_encryption_certificate, hybrid_verify_root_self_signature, hybrid_verify_chain,
}

module _ (C : Crypto) (P : Pki C) where
  pub root_self_signature-RootAccepted :
      (root : Option P.X509) (w : C.World)
      → (hybrid_verify_root_self_signature C P root w).0.certificate_valid ≡ true
      → (r : P.X509) × (root ≡ some r) × RootAccepted C P r
  unfolding hybrid_verify_root_self_signature
  root_self_signature-RootAccepted none w h = cc
  root_self_signature-RootAccepted (some r) w h = elim (Option-cases (root_checks C P r w).0) [
    | inl e ↦ absurd (ground arith)
    | inr (v, e) ↦ (r, refl, root_checks-RootAccepted C P r w e (ground arith))
  ]

  pub verify_certificate-ServerAccepted :
      (certificate issuer : Option P.X509) (w : C.World)
      → (hybrid_verify_certificate C P certificate issuer w).0.certificate_valid ≡ true
      → (c : P.X509) × (i : P.X509) × (certificate ≡ some c)
        × (issuer ≡ some i)
        × ServerAccepted C P c i
  unfolding hybrid_verify_certificate
  verify_certificate-ServerAccepted none issuer w h = cc
  verify_certificate-ServerAccepted (some c) none w h = cc
  verify_certificate-ServerAccepted (some c) (some i) w h =
      elim (Option-cases (certificate_checks C P c i w).0) [
        | inl e ↦ absurd (ground arith)
        | inr (v, e) ↦
            (c, i, refl, refl, certificate_checks-ServerAccepted C P c i w e (ground arith))
      ]

  -- An encryption certificate that is accepted is there, and so is its issuer, and it meets the
  -- specification of its role.
  pub verify_encryption-EncryptionAccepted :
      (certificate issuer : Option P.X509) (w : C.World)
      → (hybrid_verify_encryption_certificate C P certificate issuer w).0.certificate_valid ≡ true
      → (c : P.X509) × (i : P.X509) × (certificate ≡ some c)
        × (issuer ≡ some i)
        × EncryptionAccepted C P c i
  unfolding hybrid_verify_encryption_certificate
  verify_encryption-EncryptionAccepted none issuer w h = cc
  verify_encryption-EncryptionAccepted (some c) none w h = cc
  verify_encryption-EncryptionAccepted (some c) (some i) w h =
      elim (Option-cases (encryption_checks C P c i w).0) [
        | inl e ↦ absurd (ground arith)
        | inr (v, e) ↦
            (c, i, refl, refl, encryption_checks-EncryptionAccepted C P c i w e (ground arith))
      ]

  -- A chain that is accepted has a root and a server certificate; the root meets the specification
  -- of a self-signed authority, and the server certificate that of a server certificate issued by
  -- this root.
  pub verify_chain-Accepted :
      (root server : Option P.X509) (w : C.World)
      → (hybrid_verify_chain C P root server w).0.chain_valid ≡ true
      → (r : P.X509) × (s : P.X509) × (root ≡ some r)
        × (server ≡ some s)
        × RootAccepted C P r
        × ServerAccepted C P s r
  unfolding hybrid_verify_chain
  verify_chain-Accepted root server w h =
      let (r, e, a) = root_self_signature-RootAccepted root w (ground arith) in
      let (s, r', f, e', b) =
        verify_certificate-ServerAccepted server root
          (hybrid_verify_root_self_signature C P root w).1 (ground arith) in
      let same : r ≡ r' = ground arith in (r, s, e, f, a, rw same b)

  usages_clash :
      (c : P.X509)
      → Agree (P.get_key_usage c)
      → Constrained C P c false (usage_allows false)
      → Constrained C P c false usage_encrypts
      → ⊥
  usages_clash c agree a b =
      let same : a.usage ≡ b.usage =
        cc (a.has_usage.1, b.has_usage.1, agree a.has_usage.0 b.has_usage.0) in
      (usage_exclusive b.usage).2 (rw (← same) a.usage_suits, b.usage_suits)

  -- Where libcrypto reads a key usage alike each time, no certificate is accepted both as a server's
  -- signing certificate and as an encryption certificate, whatever the issuers.
  pub roles_exclusive :
      (c : P.X509) (i j : Option P.X509) (v w : C.World)
      → Agree (P.get_key_usage c)
      → (hybrid_verify_certificate C P (some c) i v).0.certificate_valid ≡ true
      → ¬ ((hybrid_verify_encryption_certificate C P (some c) j w).0.certificate_valid ≡ true)
  roles_exclusive c i j v w agree h k =
      let (c1, _, e, _, a) = verify_certificate-ServerAccepted (some c) i v h in
      let (c2, _, f, _, b) = verify_encryption-EncryptionAccepted (some c) j w k in
      let x : c ≡ c1 = ground arith in
      let y : c ≡ c2 = ground arith in
      usages_clash c agree (rw x a.constrained) (rw y b.constrained)
