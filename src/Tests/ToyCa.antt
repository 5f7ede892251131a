-- ===== src/Tests/ToyCa.antt =====
-- A certification authority whose encodings are lists of numbers: names, keys and objects are
-- numbers, and of the signed part the serial number counts.
use hybrid_pqc_cert.Prelude.{
  ℕ, zero, suc, ◌+◌, ◌≡◌, refl, ap, sym, ◌∙◌, Bool, true, false, Option, some, none, [], ◌∷◌, Bytes,
  length, bytes_eq, ◌==◌, if◌then◌else◌, pure, Prog, arith,
}
use mathlib.Core.Path.{subst}
use hybrid_pqc_cert.Pki.{Pki, past, future, Algorithm, BitString}
use hybrid_pqc_cert.Asn1.{Asn1, Tbs, Certificate}
use hybrid_pqc_cert.X509.{composite_oid}
use hybrid_pqc_cert.Issue.Laws.{IsCopy, ReadsBack, IsExact, IdentifiesKeys}
use hybrid_pqc_cert.Tests.Toy.{toy, toy_sm2_key}

-- What a certificate that was read back holds.
pub record Copy : Type 0 where
  pub serial : ℕ
  pub issuer : ℕ
  pub subject : ℕ
  pub public_key : ℕ
  pub inner : Algorithm ℕ
  pub outer : Algorithm ℕ
  pub value : BitString

abbrev put_object : Option ℕ → ℕ
put_object none = 0
put_object (some o) = suc o

abbrev get_object : ℕ → Option ℕ
get_object zero = none
get_object (suc o) = some o

abbrev put_bool : Bool → ℕ
put_bool false = 0
put_bool true = 1

abbrev get_bool : ℕ → Bool
get_bool zero = false
get_bool (suc n) = true

abbrev algorithm : ℕ → ℕ → Algorithm ℕ
algorithm a b = record { object = get_object a; parameters_absent = get_bool b }

abbrev toy_decode : Bytes → Prog (Unit {0}) (Copy × ℕ)
toy_decode (n ∷ i ∷ s ∷ k ∷ a ∷ b ∷ c ∷ d ∷ u ∷ content) w = (
  some (
    record {
      serial = n;
      issuer = i;
      subject = s;
      public_key = k;
      inner = algorithm a b;
      outer = algorithm c d;
      value = record { unused_bits = u; content = content };
    },
    9 + length content,
  ),
  w,
)
toy_decode _ w = (none, w)

abbrev ToyTbs : Type 0
ToyTbs = Tbs ℕ ℕ ℕ ℕ ℕ

abbrev ToyCertificate : Type 0
ToyCertificate = Certificate ℕ ℕ ℕ ℕ ℕ

abbrev toy_encode : ToyCertificate → Bytes
toy_encode c =
    let t = c.tbs_certificate in
    t.serial_number
    ∷ t.issuer
    ∷ t.subject
    ∷ t.subject_public_key_info
    ∷ put_object t.signature.object
    ∷ put_bool t.signature.parameters_absent
    ∷ put_object c.signature_algorithm.object
    ∷ put_bool c.signature_algorithm.parameters_absent
    ∷ c.signature_value.unused_bits
    ∷ c.signature_value.content

-- Object 1 is the composite algorithm.
abbrev toy_object : Bytes → ℕ
toy_object text = if bytes_eq text composite_oid then 1 else 2

abbrev toy_object_text : ℕ → Bytes
toy_object_text n = if n == 1 then composite_oid else []

abbrev pub ca_pki : Pki toy
ca_pki = record {
  X509 = Copy;
  Name = ℕ;
  Oid = ℕ;
  Spki = ℕ;
  d2i_x509 = toy_decode;
  get_issuer_name = λ x. x.issuer;
  get_subject_name = λ x. x.subject;
  name_eq = λ a b. a == b;
  cmp_not_before = λ x. pure past;
  cmp_not_after = λ x. pure future;
  get_basic_constraints = λ x w. (none, w);
  get_key_usage = λ x w. (none, w);
  get_ext_key_usage = λ x w. (none, w);
  get_subject_alt_name = λ x w. (none, w);
  get_subject_key_identifier = λ x w. (none, w);
  get_authority_key_identifier = λ x w. (none, w);
  i2d_re_x509_tbs = λ x. pure (48 ∷ x.serial ∷ []);
  get0_signature_value = λ x. some x.value;
  get0_signature_algorithm = λ x. some x.outer;
  get0_tbs_sigalg = λ x. some x.inner;
  get_x509_pubkey = λ x. some x.public_key;
  get0_pubkey_bitstr = λ x. none;
  pubkey_get0_param = λ k. none;
  get_pubkey = λ x. pure toy_sm2_key;
  obj_txt2obj = λ text. pure (toy_object text);
  obj_obj2txt = λ o. some (toy_object_text o);
  obj_eq = λ a b. a == b;
  get_ext_by_obj = λ x o n. none;
  get_ext = λ x i. none;
  check_host = λ x name w. (none, w);
}

abbrev blank_algorithm : Algorithm ℕ
blank_algorithm = record { object = none; parameters_absent = true }

abbrev blank_tbs : ToyTbs
blank_tbs = record {
  version = none;
  serial_number = 0;
  signature = blank_algorithm;
  issuer = 0;
  not_before = 0;
  not_after = 0;
  subject = 0;
  subject_public_key_info = 0;
  issuer_uid = none;
  subject_uid = none;
  extensions = none;
}

-- A name is the length of what was put in, and an extension a number for its kind.
abbrev pub ca_asn1 : Asn1 toy ca_pki
ca_asn1 = record {
  Ext = ℕ;
  Time = ℕ;
  algor_set0_undef = λ o old. record { object = some o; parameters_absent = true };
  name_new = pure 0;
  name_add_entry_by_txt = λ n field kind text. pure (n + length text);
  name_dup = λ n. pure n;
  sk_new_null = pure tt;
  sk_push = λ e. pure tt;
  ext_conf_nid = λ nid value. pure nid;
  ext_create_by_obj = λ o critical value. pure 0;
  ext_i2d_subject_key_identifier = λ digest. pure 1;
  ext_i2d_authority_key_identifier = λ digest. pure 2;
  octet_string_new = pure tt;
  octet_string_set = λ b. pure tt;
  authority_keyid_new = pure tt;
  pubkey_new = pure 0;
  pubkey_set0_param = λ k o p bits. pure (length bits);
  integer_new = pure tt;
  integer_set = λ n. pure tt;
  gmtime_adj = λ t. pure 0;
  tbs_new = pure blank_tbs;
  i2d_tbs = λ t. pure (48 ∷ t.serial_number ∷ []);
  certificate_new = pure (record {
    tbs_certificate = blank_tbs;
    signature_algorithm = blank_algorithm;
    signature_value = record { unused_bits = 0; content = [] };
  });
  i2d_certificate = λ c. pure (toy_encode c);
  bit_string_set = λ b. pure tt;
}

abbrev toy_copy : ToyCertificate → Copy
toy_copy c = record {
  serial = (c.tbs_certificate).serial_number;
  issuer = (c.tbs_certificate).issuer;
  subject = (c.tbs_certificate).subject;
  public_key = (c.tbs_certificate).subject_public_key_info;
  inner = (c.tbs_certificate).signature;
  outer = c.signature_algorithm;
  value = c.signature_value;
}

object_again : (o : Option ℕ) → get_object (put_object o) ≡ o
object_again none = refl
object_again (some o) = refl

bool_again : (b : Bool) → get_bool (put_bool b) ≡ b
bool_again false = refl
bool_again true = refl

algorithm_again :
    (a : Algorithm ℕ) → algorithm (put_object a.object) (put_bool a.parameters_absent) ≡ a
algorithm_again a = rw (object_again a.object, bool_again a.parameters_absent) refl

decode-encode :
    (c : ToyCertificate) (w : Unit {0})
    → (toy_decode (toy_encode c) w).0 ≡ some (toy_copy c, 9 + length (c.signature_value).content)
decode-encode c w =
    rw (algorithm_again (c.tbs_certificate).signature, algorithm_again c.signature_algorithm) refl

copied :
    (c : ToyCertificate)
    → IsCopy toy ca_pki ca_asn1 (48 ∷ (c.tbs_certificate).serial_number ∷ []) (toy_copy c) c
copied c = record {
  signature_value = refl;
  signature_algorithm = refl;
  tbs_algorithm = refl;
  tbs = λ w. refl;
  issuer = refl;
  subject = refl;
  public_key = refl;
}

reads_copy :
    (c : ToyCertificate) (v w : Unit {0}) {b : Bytes} {x : Copy} {n : ℕ}
    → (ca_asn1.i2d_certificate c v).0 ≡ some b
    → (ca_pki.d2i_x509 b w).0 ≡ some (x, n)
    → toy_copy c ≡ x
reads_copy c v w {b} {x} {n} e f =
    let same : toy_encode c ≡ b = ground arith in
    let read = sym (decode-encode c w) ∙ ap (λ b. (toy_decode b w).0) same ∙ f in ground arith

pub toy-ReadsBack : ReadsBack toy ca_pki ca_asn1
toy-ReadsBack = record {
  tbs_der = λ t. 48 ∷ t.serial_number ∷ [];
  i2d_tbs_gives = λ t w {b} e. ground arith;
  reads = λ c v w {b} {x} {n} e f.
      subst (λ x. IsCopy toy ca_pki ca_asn1 (48 ∷ (c.tbs_certificate).serial_number ∷ []) x c)
        (reads_copy c v w e f) (copied c);
}

pub toy-IsExact : IsExact toy ca_pki ca_asn1
unfolding bytes_eq
toy-IsExact = record {
  object = toy_object;
  txt2obj_gives = λ text {o} (w, e). ground arith;
  composite_text = refl;
  obj_eq_refl = λ o. ground arith;
  set0 = λ o old. refl;
  name_new_agrees = record { agrees = λ a b (v, e) (w, f). ground arith };
  add_entry_agrees = λ n field kind text. record { agrees = λ a b (v, e) (w, f). ground arith };
  dup_gives = λ n {m} (w, e). ground arith;
  name_eq_refl = λ n. ground arith;
}

pub toy-IdentifiesKeys : IdentifiesKeys toy
toy-IdentifiesKeys = record {
  octets_agree = λ k n. record { agrees = λ a b (v, e) (w, f). ground arith };
  sha256_agrees = λ b. record { agrees = λ c d (v, e) (w, f). ground arith };
}
