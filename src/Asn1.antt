-- ===== src/Asn1.antt =====
-- The code behind the making of certificates that the program calls and does not contain:
-- libcrypto's names, extensions, public keys and times, and the DER encoders that its templates make
-- of the two structures of src/hybrid_x509.c. They are fields of a record like those of Pki.
use hybrid_pqc_cert.Prelude.{ℕ, Bool, Option, List, Bytes, Prog}
use hybrid_pqc_cert.Crypto.{Crypto}
use hybrid_pqc_cert.Pki.{Pki, Algorithm, BitString}

-- COMPOSITE_TBS_CERTIFICATE. An ASN1_INTEGER is its value, and a structure that is not there none.
pub record Tbs (Name Oid Spki Ext Time : Type 0) : Type 0 where
  pub version : Option ℕ
  pub serial_number : ℕ
  pub signature : Algorithm Oid
  pub issuer : Name
  pub not_before : Time
  pub not_after : Time
  pub subject : Name
  pub subject_public_key_info : Spki
  pub issuer_uid : Option BitString
  pub subject_uid : Option BitString
  pub extensions : Option (List Ext)

-- COMPOSITE_CERTIFICATE
pub record Certificate (Name Oid Spki Ext Time : Type 0) : Type 0 where
  pub tbs_certificate : Tbs Name Oid Spki Ext Time
  pub signature_algorithm : Algorithm Oid
  pub signature_value : BitString

-- MBSTRING_ASC and MBSTRING_UTF8.
pub data MbString : Type 0 where
  ascii utf8 : MbString

-- A number of seconds, before or after.
pub data Offset : Type 0 where
  earlier later : ℕ → Offset

pub record Asn1 (C : Crypto) (P : Pki C) : Type 1 where
  -- An X509_EXTENSION and an ASN1_TIME.
  pub Ext : Type 0
  pub Time : Type 0
  -- `X509_ALGOR_set0(algorithm, object, V_ASN1_UNDEF, NULL)`: the algorithm after it.
  pub algor_set0_undef : P.Oid → Algorithm P.Oid → Algorithm P.Oid
  pub name_new : Prog C.World P.Name
  -- `X509_NAME_add_entry_by_txt(name, field, type, bytes, -1, -1, 0)`
  pub name_add_entry_by_txt : P.Name → Bytes → MbString → Bytes → Prog C.World P.Name
  pub name_dup : P.Name → Prog C.World P.Name
  -- `sk_X509_EXTENSION_new_null`, and room for one more in `sk_X509_EXTENSION_push`.
  pub sk_new_null : Prog C.World (Unit {0})
  pub sk_push : Ext → Prog C.World (Unit {0})
  -- `X509V3_EXT_conf_nid(NULL, NULL, nid, value)`
  pub ext_conf_nid : ℕ → Bytes → Prog C.World Ext
  -- `X509_EXTENSION_create_by_OBJ` with an object, the criticality and a value.
  pub ext_create_by_obj : P.Oid → Bool → Bytes → Prog C.World Ext
  -- `X509V3_EXT_i2d` of a subject key identifier and of an AUTHORITY_KEYID with such a keyid.
  pub ext_i2d_subject_key_identifier : Bytes → Prog C.World Ext
  pub ext_i2d_authority_key_identifier : Bytes → Prog C.World Ext
  -- ASN1_OCTET_STRING_new, ASN1_OCTET_STRING_set and AUTHORITY_KEYID_new.
  pub octet_string_new : Prog C.World (Unit {0})
  pub octet_string_set : Bytes → Prog C.World (Unit {0})
  pub authority_keyid_new : Prog C.World (Unit {0})
  pub pubkey_new : Prog C.World P.Spki
  -- `X509_PUBKEY_set0_param`: the algorithm, an object as its parameter or V_ASN1_UNDEF, the bits.
  pub pubkey_set0_param : P.Spki → P.Oid → Option P.Oid → Bytes → Prog C.World P.Spki
  -- ASN1_INTEGER_new, ASN1_INTEGER_set, and X509_gmtime_adj from now.
  pub integer_new : Prog C.World (Unit {0})
  pub integer_set : ℕ → Prog C.World (Unit {0})
  pub gmtime_adj : Offset → Prog C.World Time
  -- COMPOSITE_TBS_CERTIFICATE_new and i2d_COMPOSITE_TBS_CERTIFICATE.
  pub tbs_new : Prog C.World (Tbs P.Name P.Oid P.Spki Ext Time)
  pub i2d_tbs : Tbs P.Name P.Oid P.Spki Ext Time → Prog C.World Bytes
  -- COMPOSITE_CERTIFICATE_new and i2d_COMPOSITE_CERTIFICATE.
  pub certificate_new : Prog C.World (Certificate P.Name P.Oid P.Spki Ext Time)
  pub i2d_certificate : Certificate P.Name P.Oid P.Spki Ext Time → Prog C.World Bytes
  -- `ASN1_BIT_STRING_set`
  pub bit_string_set : Bytes → Prog C.World (Unit {0})
