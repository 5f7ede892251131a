-- ===== src/Issue/Listed.antt =====
-- What each function that adds an extension adds, and that the two key identifiers agree.
use hybrid_pqc_cert.Prelude.{
  ℕ, ◌≡◌, sym, false, Option, inl, inr, List, [], ◌∷◌, ◌++◌, Bytes, length, ◌==◌, arith, Prog,
  guard, CanReturn, >>=-CanReturn, guard-CanReturn, pure-CanReturn, Option-cases,
}
use mathlib.Core.Path.{subst}
use hybrid_pqc_cert.Crypto.{Crypto, Pkey}
use hybrid_pqc_cert.Pki.{Pki}
use hybrid_pqc_cert.Asn1.{Asn1}
use hybrid_pqc_cert.CompositeKey.{HybridPublicKey, serialize_public_key, serialize_sm2_public_key}
use hybrid_pqc_cert.X509.{pqc_extension_oid, der_null}
use hybrid_pqc_cert.Issue.{
  digest_bytes, push, push_extension, add_conf_extension, add_pqc_marker, compute_key_identifier,
  compute_sm2_key_identifier, add_subject_key_identifier, add_sm2_subject_key_identifier,
  add_authority_key_identifier,
}
use hybrid_pqc_cert.Issue.Agree.{AgreeOnSuccess, agreeing}
use hybrid_pqc_cert.Issue.Laws.{IdentifiesKeys}

module _ (C : Crypto) (P : Pki C) (A : Asn1 C P) where
  -- The stack after a call is the one before with an extension of some kind at its end.
  abbrev pub Appended : (A.Ext → Type 0) → List A.Ext → List A.Ext → Type 0
  Appended IsKind before after = (e : A.Ext) × IsKind e × (after ≡ before ++ (e ∷ []))

  -- The kinds: of a configured text, the marker, and the two identifiers of a digest.
  abbrev pub IsConf : ℕ → Bytes → A.Ext → Type 0
  IsConf nid value e = CanReturn (A.ext_conf_nid nid value) e

  abbrev pub IsMarker : A.Ext → Type 0
  IsMarker e =
      (object : P.Oid) × CanReturn (P.obj_txt2obj pqc_extension_oid) object
      × CanReturn (A.ext_create_by_obj object false der_null) e

  abbrev pub IsSubjectId : Prog C.World Bytes → A.Ext → Type 0
  IsSubjectId compute e =
      (digest : Bytes) × CanReturn compute digest
      × CanReturn (A.ext_i2d_subject_key_identifier digest) e

  abbrev pub IsAuthorityId : Prog C.World Bytes → A.Ext → Type 0
  IsAuthorityId compute e =
      (digest : Bytes) × CanReturn compute digest
      × CanReturn (A.ext_i2d_authority_key_identifier digest) e

  pushed :
      (l : List A.Ext) (e : A.Ext) {m : List A.Ext}
      → CanReturn (push C P A l e) m
      → m ≡ l ++ (e ∷ [])
  pushed l e h = let (_, _, h1) = >>=-CanReturn (A.sk_push e) _ h in sym (pure-CanReturn _ h1)

  pub add_conf_extension-Appended :
      (l : List A.Ext) (nid : ℕ) (value : Bytes) {m : List A.Ext}
      → CanReturn (add_conf_extension C P A l nid value) m
      → Appended (IsConf nid value) l m
  unfolding add_conf_extension push_extension
  add_conf_extension-Appended l nid value (w, h) =
      elim (Option-cases (A.ext_conf_nid nid value w).0) [
        | inl e ↦ absurd (ground arith)
        | inr (e, made) ↦ (e, (w, made), ground arith)
      ]

  pub add_pqc_marker-Appended :
      (l : List A.Ext) {m : List A.Ext}
      → CanReturn (add_pqc_marker C P A l) m
      → Appended IsMarker l m
  unfolding add_pqc_marker
  add_pqc_marker-Appended l (w, h) =
      let w2 = (A.octet_string_new (P.obj_txt2obj pqc_extension_oid w).1).1 in
      let w3 = (A.octet_string_set der_null w2).1 in
      elim (Option-cases (P.obj_txt2obj pqc_extension_oid w).0) [
        | inl e ↦ absurd (ground arith)
        | inr (o, o_made) ↦ elim (Option-cases (A.ext_create_by_obj o false der_null w3).0) [
          | inl e ↦ absurd (ground arith)
          | inr (e, made) ↦ (e, (o, (w, o_made), (w3, made)), ground arith)
        ]
      ]

  pub add_subject_key_identifier-Appended :
      (l : List A.Ext) (key : Option (HybridPublicKey C.Key)) {m : List A.Ext}
      → CanReturn (add_subject_key_identifier C P A l key) m
      → Appended (IsSubjectId (compute_key_identifier C P A key)) l m
  unfolding add_subject_key_identifier
  add_subject_key_identifier-Appended l key h =
      let (digest, computed, h1) = >>=-CanReturn (compute_key_identifier C P A key) _ h in
      let (_, _, h2) = >>=-CanReturn A.octet_string_new _ h1 in
      let (_, _, h3) = >>=-CanReturn (A.octet_string_set digest) _ h2 in
      let (e, made, h4) = >>=-CanReturn (A.ext_i2d_subject_key_identifier digest) _ h3 in
      (e, (digest, computed, made), pushed l e h4)

  pub add_sm2_subject_key_identifier-Appended :
      (l : List A.Ext) (key : Option (Pkey C.Key)) {m : List A.Ext}
      → CanReturn (add_sm2_subject_key_identifier C P A l key) m
      → Appended (IsSubjectId (compute_sm2_key_identifier C P A key)) l m
  unfolding add_sm2_subject_key_identifier
  add_sm2_subject_key_identifier-Appended l key h =
      let (digest, computed, h1) = >>=-CanReturn (compute_sm2_key_identifier C P A key) _ h in
      let (_, _, h2) = >>=-CanReturn A.octet_string_new _ h1 in
      let (_, _, h3) = >>=-CanReturn (A.octet_string_set digest) _ h2 in
      let (e, made, h4) = >>=-CanReturn (A.ext_i2d_subject_key_identifier digest) _ h3 in
      (e, (digest, computed, made), pushed l e h4)

  pub add_authority_key_identifier-Appended :
      (l : List A.Ext) (key : Option (HybridPublicKey C.Key)) {m : List A.Ext}
      → CanReturn (add_authority_key_identifier C P A l key) m
      → Appended (IsAuthorityId (compute_key_identifier C P A key)) l m
  unfolding add_authority_key_identifier
  add_authority_key_identifier-Appended l key h =
      let (digest, computed, h1) = >>=-CanReturn (compute_key_identifier C P A key) _ h in
      let (_, _, h2) = >>=-CanReturn A.authority_keyid_new _ h1 in
      let (_, _, h3) = >>=-CanReturn A.octet_string_new _ h2 in
      let (_, _, h4) = >>=-CanReturn (A.octet_string_set digest) _ h3 in
      let (e, made, h5) = >>=-CanReturn (A.ext_i2d_authority_key_identifier digest) _ h4 in
      (e, (digest, computed, made), pushed l e h5)

  identifier_length :
      (key : Option (HybridPublicKey C.Key)) {digest : Bytes}
      → CanReturn (compute_key_identifier C P A key) digest
      → length digest ≡ 32
  unfolding compute_key_identifier
  identifier_length key h =
      let (serialized, _, h1) = >>=-CanReturn (serialize_public_key C key) _ h in
      let (d, _, h2) = >>=-CanReturn (C.evp_digest_sha256 serialized) _ h1 in
      let (_, checked, h3) = >>=-CanReturn (guard (length d == digest_bytes)) _ h2 in
      let same = pure-CanReturn d h3 in
      ground (arith, guard-CanReturn (length d == digest_bytes) checked)

  identifier_agrees :
      (identifies : IdentifiesKeys C) (key : Option (HybridPublicKey C.Key))
      → AgreeOnSuccess (compute_key_identifier C P A key)
  unfolding compute_key_identifier serialize_public_key serialize_sm2_public_key
  identifier_agrees identifies key =
      search (agreeing, identifies.octets_agree, identifies.sha256_agrees) depth 20

  -- The authority key identifier that names a key holds the same digest, of 32 bytes, as the subject
  -- key identifier of that key, where octets and digest of a key do not change between calls.
  pub authority_names_subject :
      (identifies : IdentifiesKeys C) (key : Option (HybridPublicKey C.Key))
      (l l' m m' : List A.Ext)
      → CanReturn (add_subject_key_identifier C P A l key) m
      → CanReturn (add_authority_key_identifier C P A l' key) m'
      → (digest : Bytes) × (length digest ≡ 32)
        × Appended (λ e. CanReturn (A.ext_i2d_subject_key_identifier digest) e) l m
        × Appended (λ e. CanReturn (A.ext_i2d_authority_key_identifier digest) e) l' m'
  authority_names_subject identifies key l l' m m' h h' =
      let (e, (d, computed, made), added) = add_subject_key_identifier-Appended l key h in
      let (e', (d', computed', made'), added') = add_authority_key_identifier-Appended l' key h' in
      let same : d' ≡ d = (identifier_agrees identifies key).agrees d' d computed' computed in
      (
        d,
        identifier_length key computed,
        (e, made, added),
        (e', subst (λ x. CanReturn (A.ext_i2d_authority_key_identifier x) e') same made', added'),
      )
