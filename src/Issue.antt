-- ===== src/Issue.antt =====
-- src/hybrid_x509.c, the functions that make a certificate (up to hybrid_x509_get_tbs_der): names,
-- extensions and public keys. A stack of extensions is the list of them. Text is without its closing
-- zero.
pub mod Extensions
pub mod Create
pub mod Agree
pub mod Laws
pub mod Signed
pub mod Fields
pub mod Created
pub mod Issued
pub mod Listed
pub mod Layouts
use hybrid_pqc_cert.Prelude.{
  ℕ, Bool, true, false, not, ◌&&◌, Option, none, some, List, [], ◌∷◌, ◌++◌, Bytes, codes, length,
  leb, ◌==◌, Prog, ◌>>=◌, ◌>>◌, pure, guard, from_option, attempt,
}
use hybrid_pqc_cert.Crypto.{Crypto, Pkey}
use hybrid_pqc_cert.Pki.{Pki, Algorithm}
use hybrid_pqc_cert.Asn1.{Asn1, Tbs, MbString, ascii, utf8}
use hybrid_pqc_cert.CompositeKey.{
  HybridPublicKey, sm2_octets, is_uncompressed, serialize_public_key,
}
use hybrid_pqc_cert.X509.{composite_oid, pqc_extension_oid, der_null}
use hybrid_pqc_cert.KeyFile.{int_max}

-- NID_basic_constraints, NID_key_usage, NID_ext_key_usage and NID_subject_alt_name of libcrypto.
abbrev pub nid_basic_constraints : ℕ
nid_basic_constraints = 87

abbrev pub nid_key_usage : ℕ
nid_key_usage = 83

abbrev pub nid_ext_key_usage : ℕ
nid_ext_key_usage = 126

abbrev pub nid_subject_alt_name : ℕ
nid_subject_alt_name = 85

-- The objects of an SM2 key: id-ecPublicKey and the curve.
abbrev pub ec_public_key_oid : Bytes
ec_public_key_oid = codes "1.2.840.10045.2.1"

abbrev pub sm2_curve_oid : Bytes
sm2_curve_oid = codes "1.2.156.10197.1.301"

-- The size of `digest`.
abbrev pub digest_bytes : ℕ
digest_bytes = 32

module _ (C : Crypto) (P : Pki C) (A : Asn1 C P) where
  open C use {World, Key}
  open P use {Name, Oid, Spki}
  open A use {Ext}

  unfoldable pub set_composite_algorithm : Option (Algorithm Oid) → Prog World (Algorithm Oid)
  set_composite_algorithm algorithm = do
    old ← from_option algorithm
    object ← P.obj_txt2obj composite_oid
    pure (A.algor_set0_undef object old)

  unfoldable pub make_name : Option Bytes → Prog World Name
  make_name common_name = do
    text ← from_option common_name
    guard (not (length text == 0))
    empty ← A.name_new
    country ← A.name_add_entry_by_txt empty (codes "C") ascii (codes "CN")
    organization ←
        A.name_add_entry_by_txt country (codes "O") ascii (codes "Experimental Hybrid PKI")
    A.name_add_entry_by_txt organization (codes "CN") utf8 text

  -- `sk_X509_EXTENSION_push`: the stack after it.
  abbrev pub push : List Ext → Ext → Prog World (List Ext)
  push extensions extension = do A.sk_push extension; pure (extensions ++ (extension ∷ []))

  unfoldable pub push_extension : Option (List Ext) → Option Ext → Prog World (List Ext)
  push_extension extensions extension = do
    l ← from_option extensions
    e ← from_option extension
    push l e

  unfoldable pub add_conf_extension : List Ext → ℕ → Bytes → Prog World (List Ext)
  add_conf_extension extensions nid value = do
    extension ← attempt (A.ext_conf_nid nid value)
    push_extension (some extensions) extension

  -- The octet string is asked for before the object is looked at.
  unfoldable pub add_pqc_marker : List Ext → Prog World (List Ext)
  add_pqc_marker extensions = do
    o ← attempt (P.obj_txt2obj pqc_extension_oid)
    value ← attempt A.octet_string_new
    object ← from_option o
    from_option value
    A.octet_string_set der_null
    extension ← A.ext_create_by_obj object false der_null
    push extensions extension

  unfoldable pub compute_key_identifier : Option (HybridPublicKey Key) → Prog World Bytes
  compute_key_identifier key = do
    serialized ← serialize_public_key C key
    digest ← C.evp_digest_sha256 serialized
    guard (length digest == digest_bytes)
    pure digest

  unfoldable pub add_subject_key_identifier :
      List Ext → Option (HybridPublicKey Key) → Prog World (List Ext)
  add_subject_key_identifier extensions key = do
    digest ← compute_key_identifier key
    A.octet_string_new
    A.octet_string_set digest
    extension ← A.ext_i2d_subject_key_identifier digest
    push extensions extension

  unfoldable pub compute_sm2_key_identifier : Option (Pkey Key) → Prog World Bytes
  compute_sm2_key_identifier key = do
    k ← from_option key
    guard (C.evp_pkey_is_sm2 k.key)
    public_key ← C.evp_pkey_get_public_octets k.key sm2_octets
    guard (length public_key == sm2_octets && is_uncompressed public_key)
    digest ← C.evp_digest_sha256 public_key
    guard (length digest == digest_bytes)
    pure digest

  unfoldable pub add_sm2_subject_key_identifier :
      List Ext → Option (Pkey Key) → Prog World (List Ext)
  add_sm2_subject_key_identifier extensions key = do
    digest ← compute_sm2_key_identifier key
    A.octet_string_new
    A.octet_string_set digest
    extension ← A.ext_i2d_subject_key_identifier digest
    push extensions extension

  unfoldable pub add_authority_key_identifier :
      List Ext → Option (HybridPublicKey Key) → Prog World (List Ext)
  add_authority_key_identifier extensions issuer_key = do
    digest ← compute_key_identifier issuer_key
    A.authority_keyid_new
    A.octet_string_new
    A.octet_string_set digest
    extension ← A.ext_i2d_authority_key_identifier digest
    push extensions extension

  unfoldable pub make_composite_spki : Option (HybridPublicKey Key) → Prog World Spki
  make_composite_spki key = do
    serialized ← serialize_public_key C key
    guard (leb (length serialized) int_max)
    s ← attempt A.pubkey_new
    a ← attempt (P.obj_txt2obj composite_oid)
    spki ← from_option s
    algorithm ← from_option a
    A.pubkey_set0_param spki algorithm none serialized

  -- The four calls for memory and objects are made before one is looked at.
  unfoldable pub make_sm2_spki : Option (Pkey Key) → Prog World Spki
  make_sm2_spki key = do
    k ← from_option key
    guard (C.evp_pkey_is_sm2 k.key)
    s ← attempt A.pubkey_new
    a ← attempt (P.obj_txt2obj ec_public_key_oid)
    c ← attempt (P.obj_txt2obj sm2_curve_oid)
    buffer ← attempt (C.malloc sm2_octets)
    spki ← from_option s
    algorithm ← from_option a
    curve ← from_option c
    from_option buffer
    public_key ← C.evp_pkey_get_public_octets k.key sm2_octets
    guard (length public_key == sm2_octets && is_uncompressed public_key)
    A.pubkey_set0_param spki algorithm (some curve) public_key
