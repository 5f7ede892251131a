-- ===== src/Issue/Laws.antt =====
-- What the theorems on created certificates assume of libcrypto: that a certificate that was encoded
-- is read back as it was.
use hybrid_pqc_cert.Prelude.{ℕ, ◌≡◌, some, true, Bytes, AlwaysReturns, CanReturn}
use hybrid_pqc_cert.Crypto.{Crypto}
use hybrid_pqc_cert.Pki.{Pki, Algorithm}
use hybrid_pqc_cert.Asn1.{Asn1, Tbs, Certificate, MbString}
use hybrid_pqc_cert.X509.{composite_oid}
use hybrid_pqc_cert.Issue.Agree.{AgreeOnSuccess}

-- An X509 with the content of a structure whose signed part has a given encoding.
pub record IsCopy (C : Crypto) (P : Pki C) (A : Asn1 C P) (tbs_der : Bytes) (x : P.X509)
    (c : Certificate P.Name P.Oid P.Spki A.Ext A.Time) : Type 0 where
  pub signature_value : P.get0_signature_value x ≡ some c.signature_value
  pub signature_algorithm : P.get0_signature_algorithm x ≡ some c.signature_algorithm
  pub tbs_algorithm : P.get0_tbs_sigalg x ≡ some (c.tbs_certificate).signature
  pub tbs : AlwaysReturns (P.i2d_re_x509_tbs x) tbs_der
  pub issuer : P.get_issuer_name x ≡ (c.tbs_certificate).issuer
  pub subject : P.get_subject_name x ≡ (c.tbs_certificate).subject
  pub public_key : P.get_x509_pubkey x ≡ some (c.tbs_certificate).subject_public_key_info

pub record ReadsBack (C : Crypto) (P : Pki C) (A : Asn1 C P) : Type 0 where
  pub tbs_der : Tbs P.Name P.Oid P.Spki A.Ext A.Time → Bytes
  pub i2d_tbs_gives :
      (t : Tbs P.Name P.Oid P.Spki A.Ext A.Time) (w : C.World) {b : Bytes}
      → (A.i2d_tbs t w).0 ≡ some b
      → b ≡ tbs_der t
  pub reads :
      (c : Certificate P.Name P.Oid P.Spki A.Ext A.Time) (v w : C.World) {b : Bytes} {x : P.X509}
      {n : ℕ}
      → (A.i2d_certificate c v).0 ≡ some b
      → (P.d2i_x509 b w).0 ≡ some (x, n)
      → IsCopy C P A (tbs_der c.tbs_certificate) x c

-- Objects and names go by their text and their entries, and a duplicate is what was duplicated.
pub record IsExact (C : Crypto) (P : Pki C) (A : Asn1 C P) : Type 0 where
  pub object : Bytes → P.Oid
  pub txt2obj_gives :
      (text : Bytes) {o : P.Oid} → CanReturn (P.obj_txt2obj text) o → o ≡ object text
  pub composite_text : P.obj_obj2txt (object composite_oid) ≡ some composite_oid
  pub obj_eq_refl : (o : P.Oid) → P.obj_eq o o ≡ true
  pub set0 :
      (o : P.Oid) (old : Algorithm P.Oid)
      → A.algor_set0_undef o old ≡ record { object = some o; parameters_absent = true }
  pub name_new_agrees : AgreeOnSuccess A.name_new
  pub add_entry_agrees :
      (n : P.Name) (field : Bytes) (kind : MbString) (text : Bytes)
      → AgreeOnSuccess (A.name_add_entry_by_txt n field kind text)
  pub dup_gives : (n : P.Name) {m : P.Name} → CanReturn (A.name_dup n) m → m ≡ n
  pub name_eq_refl : (n : P.Name) → P.name_eq n n ≡ true

-- The octets of a key and a digest do not change from one run to the next.
pub record IdentifiesKeys (C : Crypto) : Type 0 where
  pub octets_agree : (k : C.Key) (n : ℕ) → AgreeOnSuccess (C.evp_pkey_get_public_octets k n)
  pub sha256_agrees : (b : Bytes) → AgreeOnSuccess (C.evp_digest_sha256 b)
