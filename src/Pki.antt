-- ===== src/Pki.antt =====
-- libcrypto's X.509 functions, which the program calls and does not contain: a record that the
-- definitions on certificates take as a parameter.
use hybrid_pqc_cert.Prelude.{ℕ, Bool, Option, List, Bytes, Prog}
use hybrid_pqc_cert.Crypto.{Crypto, Pkey}

-- The sign of X509_cmp_current_time; an error, 0, is a failure of the call.
pub data TimeOrder : Type 0 where
  past future : TimeOrder

-- An X509_ALGOR: its object, and whether the parameter type is V_ASN1_UNDEF.
pub record Algorithm (Oid : Type 0) : Type 0 where
  pub object : Option Oid
  pub parameters_absent : Bool

-- An ASN1_BIT_STRING: `flags & 0x07`, and its bytes.
pub record BitString : Type 0 where
  pub unused_bits : ℕ
  pub content : Bytes

-- A decoded BASIC_CONSTRAINTS with its criticality.
pub record BasicConstraints : Type 0 where
  pub ca : Bool
  pub is_critical : Bool

-- A decoded key usage: ASN1_BIT_STRING_get_bit, and the criticality.
pub record KeyUsage : Type 0 where
  pub get_bit : ℕ → Bool
  pub is_critical : Bool

-- A GENERAL_NAME: its type, and dNSName where it has one.
pub record GeneralName : Type 0 where
  pub type_code : ℕ
  pub dns_name : Option Bytes

-- What X509_get_ext gives: X509_EXTENSION_get_critical and X509_EXTENSION_get_data.
pub record Extension : Type 0 where
  pub is_critical : Bool
  pub value : Option Bytes

pub record Pki (C : Crypto) : Type 1 where
  pub X509 : Type 0
  pub Name : Type 0
  pub Oid : Type 0
  pub Spki : Type 0
  -- `d2i_X509`: the certificate and how far the cursor went.
  pub d2i_x509 : Bytes → Prog C.World (X509 × ℕ)
  pub get_issuer_name : X509 → Name
  pub get_subject_name : X509 → Name
  -- `X509_NAME_cmp(...) == 0`.
  pub name_eq : Name → Name → Bool
  pub cmp_not_before : X509 → Prog C.World TimeOrder
  pub cmp_not_after : X509 → Prog C.World TimeOrder
  -- `X509_get_ext_d2i` for each extension that the program reads.
  pub get_basic_constraints : X509 → Prog C.World BasicConstraints
  pub get_key_usage : X509 → Prog C.World KeyUsage
  pub get_ext_key_usage : X509 → Prog C.World (List ℕ)
  pub get_subject_alt_name : X509 → Prog C.World (List GeneralName)
  pub get_subject_key_identifier : X509 → Prog C.World Bytes
  -- The keyid field, which may be missing.
  pub get_authority_key_identifier : X509 → Prog C.World (Option Bytes)
  pub i2d_re_x509_tbs : X509 → Prog C.World Bytes
  -- The two results of X509_get0_signature, and the algorithm in the signed part.
  pub get0_signature_value : X509 → Option BitString
  pub get0_signature_algorithm : X509 → Option (Algorithm Oid)
  pub get0_tbs_sigalg : X509 → Option (Algorithm Oid)
  pub get_x509_pubkey : X509 → Option Spki
  pub get0_pubkey_bitstr : X509 → Option BitString
  -- `X509_PUBKEY_get0_param`: the key bits and the algorithm.
  pub pubkey_get0_param : Spki → Option (Bytes × Option (Algorithm Oid))
  pub get_pubkey : X509 → Prog C.World (Pkey C.Key)
  pub obj_txt2obj : Bytes → Prog C.World Oid
  -- The text that OBJ_obj2txt puts into a buffer of 128 characters.
  pub obj_obj2txt : Oid → Option Bytes
  -- `OBJ_cmp(...) == 0`.
  pub obj_eq : Oid → Oid → Bool
  -- `X509_get_ext_by_OBJ` from an index on (its `lastpos` + 1).
  pub get_ext_by_obj : X509 → Oid → ℕ → Option ℕ
  pub get_ext : X509 → ℕ → Option Extension
  -- `X509_check_host(certificate, name, 0, 0, NULL) == 1`.
  pub check_host : X509 → Bytes → Prog C.World (Unit {0})
