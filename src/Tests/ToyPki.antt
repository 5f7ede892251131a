-- ===== src/Tests/ToyPki.antt =====
-- Three certificates: a root, and a server's signing and encryption certificates.
use hybrid_pqc_cert.Prelude.{
  ℕ, ◌||◌, Bool, true, false, Option, some, none, [], ◌∷◌, ◌++◌, Bytes, codes, replicate, bytes_eq,
  ◌==◌, pure, guard, Prog, arith, if◌then◌else◌,
}
use hybrid_pqc_cert.Pki.{Pki, past, future, Algorithm}
use hybrid_pqc_cert.X509.{composite_oid, der_null}
use hybrid_pqc_cert.X509.Laws.{FindsExtensions}
use hybrid_pqc_cert.Tests.Toy.{toy, toy_sm2_key, point}

pub data Cert : Type 0 where
  root server encryption : Cert

-- The first byte says which certificate it is.
abbrev toy_d2i_x509 : Bytes → Prog (Unit {0}) (Cert × ℕ)
toy_d2i_x509 [] w = (none, w)
toy_d2i_x509 (x ∷ rest) w =
    if x == 1
    then (some (root, 1), w)
    else if x == 2
    then (some (server, 1), w)
    else if x == 3
    then (some (encryption, 1), w)
    else (none, w)

abbrev toy_subject : Cert → ℕ
toy_subject root = 1
toy_subject server = 2
toy_subject encryption = 2

abbrev is_root : Cert → Bool
is_root root = true
is_root server = false
is_root encryption = false

abbrev toy_usage : Cert → ℕ → Bool
toy_usage root bit = bit == 5 || bit == 6
toy_usage server bit = bit == 0
toy_usage encryption bit = bit == 2 || bit == 4

abbrev toy_identifier : Cert → Bytes
toy_identifier root = 1 ∷ []
toy_identifier server = 2 ∷ []
toy_identifier encryption = 3 ∷ []

abbrev composite : Option (Algorithm Bytes)
composite = some (record { object = some composite_oid; parameters_absent = true })

-- The composite message over the empty context has 91 bytes.
abbrev toy_signature : Bytes
toy_signature = replicate 2420 91 ++ (1 ∷ 92 ∷ [])

abbrev pub toy_pki : Pki toy
toy_pki = record {
  X509 = Cert;
  Name = ℕ;
  Oid = Bytes;
  Spki = Cert;
  d2i_x509 = toy_d2i_x509;
  get_issuer_name = λ c. 1;
  get_subject_name = toy_subject;
  name_eq = λ a b. a == b;
  cmp_not_before = λ c. pure past;
  cmp_not_after = λ c. pure future;
  get_basic_constraints = λ c. pure (record { ca = is_root c; is_critical = true });
  get_key_usage = λ c. pure (record { get_bit = toy_usage c; is_critical = true });
  get_ext_key_usage = λ c. pure (129 ∷ []);
  get_subject_alt_name =
      λ c. pure (record { type_code = 2; dns_name = some (codes "a.example") } ∷ []);
  get_subject_key_identifier = λ c. pure (toy_identifier c);
  get_authority_key_identifier = λ c. pure (some (toy_identifier root));
  i2d_re_x509_tbs = λ c. pure (48 ∷ toy_subject c ∷ []);
  get0_signature_value = λ c. some (record { unused_bits = 0; content = toy_signature });
  get0_signature_algorithm = λ c. composite;
  get0_tbs_sigalg = λ c. composite;
  get_x509_pubkey = λ c. some c;
  get0_pubkey_bitstr = λ c. some (record { unused_bits = 0; content = [] });
  pubkey_get0_param = λ c. some (replicate 1312 5 ++ point, composite);
  get_pubkey = λ c. pure toy_sm2_key;
  obj_txt2obj = λ text. pure text;
  obj_obj2txt = λ oid. some oid;
  obj_eq = bytes_eq;
  get_ext_by_obj = λ c oid n. if n == 0 then some 0 else none;
  get_ext = λ c i. some (record { is_critical = false; value = some der_null });
  check_host = λ c name. guard (bytes_eq name (codes "a.example"));
}

pub toy-FindsExtensions : FindsExtensions toy toy_pki
toy-FindsExtensions = record {
  has_oid = λ c o i. i == 0;
  found = λ c o n i e. (ground arith, ground arith, λ j a b. ground arith);
  missing = λ c o n j e a. ground arith;
}
