-- ===== src/X509/Laws.antt =====
-- The marker extension, and keys compared by their encodings.
use hybrid_pqc_cert.Prelude.{
  ℕ, ◌+◌, ◌≤◌, ◌<◌, ◌≡◌, true, false, Bool, Option, some, none, inl, inr, ◌⊎◌, Bytes, arith, length,
  replicate, CanReturn, Option-cases, bytes_eq→eq,
}
use hybrid_pqc_cert.Crypto.{Crypto}
use hybrid_pqc_cert.Pki.{Pki, Extension}
use hybrid_pqc_cert.CompositeKey.{
  HybridPublicKey, sm2_octets, is_uncompressed, serialize_public_key,
}
use hybrid_pqc_cert.X509.{
  pqc_extension_oid, der_null, hybrid_x509_has_pqc_extension, hybrid_x509_get_composite_public_key,
  hybrid_x509_public_key_matches, hybrid_x509_get_sm2_public_key_octets, get_sm2_octets,
}

-- The search for an extension finds the first one from an index on, and fails where there is none.
pub record FindsExtensions (C : Crypto) (P : Pki C) : Type 0 where
  pub has_oid : P.X509 → P.Oid → ℕ → Bool
  pub found :
      (c : P.X509) (o : P.Oid) (n i : ℕ)
      → P.get_ext_by_obj c o n ≡ some i
      → (n ≤ i) × (has_oid c o i ≡ true) × ((j : ℕ) → n ≤ j → j < i → has_oid c o j ≡ false)
  pub missing :
      (c : P.X509) (o : P.Oid) (n j : ℕ)
      → P.get_ext_by_obj c o n ≡ none
      → n ≤ j
      → has_oid c o j ≡ false

module _ (C : Crypto) (P : Pki C) where
  -- The stages of `hybrid_x509_has_pqc_extension`.
  has_pqc_stages :
      (c : P.X509) (w : C.World)
      → (hybrid_x509_has_pqc_extension C P (some c) w).0 ≡ some tt
      → (object : P.Oid) × (first : ℕ) × (extension : Extension) × CanReturn
          (P.obj_txt2obj pqc_extension_oid)
          object
        × (P.get_ext_by_obj c object 0 ≡ some first)
        × (P.get_ext_by_obj c object (first + 1) ≡ none)
        × (P.get_ext c first ≡ some extension)
        × (extension.is_critical ≡ false)
        × (extension.value ≡ some der_null)
  unfolding hybrid_x509_has_pqc_extension
  has_pqc_stages c w h = elim (Option-cases (P.obj_txt2obj pqc_extension_oid w).0) [
    | inl e ↦ absurd (ground arith)
    | inr (object, e) ↦ elim (Option-cases (P.get_ext_by_obj c object 0)) [
      | inl f ↦ absurd (ground arith)
      | inr (first, f) ↦ elim (Option-cases (P.get_ext c first)) [
        | inl g ↦ absurd (ground arith)
        | inr (extension, g) ↦ elim (Option-cases extension.value) [
          | inl v ↦ absurd (ground arith)
          | inr (value, v) ↦ (
            object,
            first,
            extension,
            (w, e),
            f,
            ground arith,
            g,
            ground arith,
            ground (arith, v, bytes_eq→eq value der_null),
          )
        ]
      ]
    ]
  ]

  -- Where the search works as documented, a certificate with the marker has exactly one extension
  -- with its object, and that one is not critical and holds a DER NULL.
  pub has_pqc_extension_unique :
      (finds : FindsExtensions C P) (c : P.X509) (w : C.World)
      → (hybrid_x509_has_pqc_extension C P (some c) w).0 ≡ some tt
      → (object : P.Oid) × (i : ℕ) × (extension : Extension) × CanReturn
          (P.obj_txt2obj pqc_extension_oid)
          object
        × (finds.has_oid c object i ≡ true)
        × ((j : ℕ) → finds.has_oid c object j ≡ true → j ≡ i)
        × (P.get_ext c i ≡ some extension)
        × (extension.is_critical ≡ false)
        × (extension.value ≡ some der_null)
  has_pqc_extension_unique finds c w h =
      let (object, first, extension, e, f, g, x, y, z) = has_pqc_stages c w h in
      let (_, here, before) = finds.found c object 0 first f in
      (
        object,
        first,
        extension,
        e,
        here,
        λ j k. ground (arith, before j, finds.missing c object (first + 1) j g),
        x,
        y,
        z,
      )

  -- A key that matches a certificate is serialized into the same bytes as the certificate's key.
  public_key_matches_lem :
      (certificate : Option P.X509) (public_key : Option (HybridPublicKey C.Key)) (w : C.World)
      → (hybrid_x509_public_key_matches C P certificate public_key w).0 ≡ some tt
      → (key : HybridPublicKey C.Key) × (b : Bytes) × CanReturn
          (hybrid_x509_get_composite_public_key C P certificate)
          key
        × CanReturn (serialize_public_key C (some key)) b
        × CanReturn (serialize_public_key C public_key) b
  unfolding hybrid_x509_public_key_matches
  public_key_matches_lem none public_key w h = cc
  public_key_matches_lem (some c) none w h = cc
  public_key_matches_lem (some c) (some loaded) w h =
      let r = hybrid_x509_get_composite_public_key C P (some c) w in
      elim (Option-cases r.0) [
        | inl e ↦ absurd (ground arith)
        | inr (key, e) ↦
            let s = serialize_public_key C (some key) r.1 in
            elim (Option-cases s.0) [
              | inl f ↦ absurd (ground arith)
              | inr (b, f) ↦ elim (Option-cases (serialize_public_key C (some loaded) s.1).0) [
                | inl g ↦ absurd (ground arith)
                | inr (b', g) ↦
                    let same : b ≡ b' = bytes_eq→eq b b' (ground arith) in
                    (key, b, (w, e), (r.1, f), (s.1, rw same g))
              ]
            ]
      ]

  -- A failure with an output buffer leaves zeros in it, and a success an uncompressed point of 65
  -- bytes.
  get_sm2_octets_output :
      (certificate : P.X509) (old : Bytes) (w : C.World)
      → let r = hybrid_x509_get_sm2_public_key_octets C P (some certificate) (some old) w in
        ((r.0 ≡ false) × (r.1 ≡ some (replicate sm2_octets 0)))
        ⊎ ((point : Bytes) × (r.0 ≡ true)
            × (r.1 ≡ some point)
            × (length point ≡ sm2_octets)
            × (is_uncompressed point ≡ true))
  unfolding hybrid_x509_get_sm2_public_key_octets
  get_sm2_octets_output c old w = elim (Option-cases (get_sm2_octets C P c w).0) [
    | inl e ↦ inl (ground arith, ground arith)
    | inr (point, e) ↦ inr (point, ground arith, ground arith, ground arith, ground arith)
  ]
