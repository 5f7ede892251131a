-- ===== src/Issue/Fields.antt =====
-- The fields of the signed part of a certificate.
use hybrid_pqc_cert.Prelude.{
  ℕ, ◌≡◌, refl, Bool, Option, some, Bytes, arith, Prog, ◌>>=◌, CanReturn, >>=-CanReturn,
  pure-CanReturn,
}
use hybrid_pqc_cert.Crypto.{Crypto}
use hybrid_pqc_cert.Pki.{Pki}
use hybrid_pqc_cert.Asn1.{Asn1, Tbs}
use hybrid_pqc_cert.CompositeKey.{HybridPublicKey}
use mathlib.Core.Path.{subst}
use hybrid_pqc_cert.Issue.{set_composite_algorithm, make_name}
use hybrid_pqc_cert.Issue.Create.{make_tbs, make_sm2_encryption_tbs}
use hybrid_pqc_cert.Prelude.{List}
use hybrid_pqc_cert.Asn1.{earlier, later}
use hybrid_pqc_cert.Pki.{Algorithm}
use hybrid_pqc_cert.Issue.{make_composite_spki, make_sm2_spki}
use hybrid_pqc_cert.Issue.Create.{tbs_parts, fill_tbs}
use hybrid_pqc_cert.Issue.Extensions.{
  build_root_extensions, build_server_extensions, build_encryption_server_extensions,
}
use hybrid_pqc_cert.Prelude.{if◌then◌else◌}
use hybrid_pqc_cert.Crypto.{Pkey}

module _ (C : Crypto) (P : Pki C) (A : Asn1 C P) where
  -- The calls that the fields come from.
  pub record Filled (issuer : P.Name) (common_name : Option Bytes) (make_spki : Prog C.World P.Spki)
      (serial : ℕ) (build : Prog C.World (List A.Ext)) (t : Tbs P.Name P.Oid P.Spki A.Ext A.Time)
      : Type 0 where
    pub version : t.version ≡ some 2
    pub serial_number : t.serial_number ≡ serial
    pub blank : Algorithm P.Oid
    pub algorithm : CanReturn (set_composite_algorithm C P A (some blank)) t.signature
    pub issued_by : CanReturn (A.name_dup issuer) t.issuer
    pub begun : CanReturn (A.gmtime_adj (earlier 60)) t.not_before
    pub ends : CanReturn (A.gmtime_adj (later 31536000)) t.not_after
    pub named : CanReturn (make_name C P A common_name) t.subject
    pub keyed : CanReturn make_spki t.subject_public_key_info
    pub list : List A.Ext
    pub listed : t.extensions ≡ some list
    pub built : CanReturn build list

  pub tbs_parts_made :
      (issuer : P.Name) (common_name : Option Bytes) (make_spki : Prog C.World P.Spki)
      {t : Tbs P.Name P.Oid P.Spki A.Ext A.Time} {i s : P.Name} {k : P.Spki}
      → CanReturn (tbs_parts C P A issuer common_name make_spki) (t, i, s, k)
      → CanReturn (A.name_dup issuer) i
        × CanReturn (make_name C P A common_name) s
        × CanReturn make_spki k
  unfolding tbs_parts
  tbs_parts_made issuer common_name make_spki (w, e) =
      let w1 = (A.tbs_new w).1 in
      let w2 = (A.name_dup issuer w1).1 in
      let w3 = (make_name C P A common_name w2).1 in
      ((w1, ground arith), (w2, ground arith), (w3, ground arith))

  fill_tbs-Filled :
      (issuer : P.Name) (common_name : Option Bytes) (make_spki : Prog C.World P.Spki) (serial : ℕ)
      (build : Prog C.World (List A.Ext)) (blank : Tbs P.Name P.Oid P.Spki A.Ext A.Time)
      (i s : P.Name) (k : P.Spki) {t : Tbs P.Name P.Oid P.Spki A.Ext A.Time}
      → CanReturn (A.name_dup issuer) i
      → CanReturn (make_name C P A common_name) s
      → CanReturn make_spki k
      → CanReturn (fill_tbs C P A (blank, i, s, k) serial build) t
      → Filled issuer common_name make_spki serial build t
  unfolding fill_tbs
  fill_tbs-Filled issuer common_name make_spki serial build blank i s k i_made s_made k_made h =
      let (_, _, h1) = >>=-CanReturn A.integer_new _ h in
      let (_, _, h2) = >>=-CanReturn (A.integer_set 2) _ h1 in
      let (_, _, h3) = >>=-CanReturn (A.integer_set serial) _ h2 in
      let (algorithm, set, h4) =
        >>=-CanReturn (set_composite_algorithm C P A (some blank.signature)) _ h3 in
      let (begin, begun, h5) = >>=-CanReturn (A.gmtime_adj (earlier 60)) _ h4 in
      let (end, ends, h6) = >>=-CanReturn (A.gmtime_adj (later 31536000)) _ h5 in
      let (list, built, h7) = >>=-CanReturn build _ h6 in
      subst (λ t. Filled issuer common_name make_spki serial build t) (pure-CanReturn _ h7)
        (record {
          version = refl;
          serial_number = refl;
          blank = blank.signature;
          algorithm = set;
          issued_by = i_made;
          begun = begun;
          ends = ends;
          named = s_made;
          keyed = k_made;
          list = list;
          listed = refl;
          built = built;
        })

  filled :
      (issuer : P.Name) (common_name : Option Bytes) (make_spki : Prog C.World P.Spki) (serial : ℕ)
      (build : Prog C.World (List A.Ext)) {t : Tbs P.Name P.Oid P.Spki A.Ext A.Time}
      → CanReturn
          (tbs_parts C P A issuer common_name make_spki >>= λ parts.
            fill_tbs C P A parts serial build)
          t
      → Filled issuer common_name make_spki serial build t
  filled issuer common_name make_spki serial build h =
      let ((blank, i, s, k), p, h0) =
        >>=-CanReturn (tbs_parts C P A issuer common_name make_spki)
          (λ parts. fill_tbs C P A parts serial build) h in
      let (i_made, s_made, k_made) = tbs_parts_made issuer common_name make_spki p in
      fill_tbs-Filled issuer common_name make_spki serial build blank i s k i_made s_made k_made h0

  pub make_tbs-Filled :
      (subject : Option (HybridPublicKey C.Key)) (issuer : P.Name) (common_name : Option Bytes)
      (serial : ℕ) (is_ca : Bool) (ca : Option (HybridPublicKey C.Key)) (dns_name : Option Bytes)
      {t : Tbs P.Name P.Oid P.Spki A.Ext A.Time}
      → CanReturn (make_tbs C P A subject issuer common_name serial is_ca ca dns_name) t
      → Filled issuer common_name
          (make_composite_spki C P A subject)
          serial
          (if is_ca
            then build_root_extensions C P A subject
            else build_server_extensions C P A ca subject dns_name)
          t
  unfolding make_tbs
  make_tbs-Filled subject issuer common_name serial is_ca ca dns_name h =
      filled issuer common_name (make_composite_spki C P A subject) serial
        (if is_ca
          then build_root_extensions C P A subject
          else build_server_extensions C P A ca subject dns_name)
        h

  pub make_sm2_encryption_tbs-Filled :
      (subject : Option (Pkey C.Key)) (issuer : P.Name) (common_name : Option Bytes)
      (ca : Option (HybridPublicKey C.Key)) {t : Tbs P.Name P.Oid P.Spki A.Ext A.Time}
      → CanReturn (make_sm2_encryption_tbs C P A subject issuer common_name ca) t
      → Filled issuer common_name
          (make_sm2_spki C P A subject)
          3
          (build_encryption_server_extensions C P A ca subject)
          t
  unfolding make_sm2_encryption_tbs
  make_sm2_encryption_tbs-Filled subject issuer common_name ca h =
      filled issuer common_name (make_sm2_spki C P A subject) 3
        (build_encryption_server_extensions C P A ca subject) h
