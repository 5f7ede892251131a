-- ===== src/Chain/Checks.antt =====
-- src/hybrid_chain.c, the checks on one certificate: time, constraints, usages, names, identifiers.
use hybrid_pqc_cert.Prelude.{
  ℕ, Bool, true, false, not, ◌&&◌, ◌||◌, Option, none, some, List, [], ◌∷◌, Bytes, length, bytes_eq,
  ◌==◌, Prog, ◌>>=◌, pure, guard, attempt,
}
use hybrid_pqc_cert.Crypto.{Crypto}
use hybrid_pqc_cert.Pki.{Pki, TimeOrder, past, future, BasicConstraints, KeyUsage, GeneralName}

-- `constraints->ca` is what the role asks for.
abbrev pub ca_agrees : Bool → Bool → Bool
ca_agrees true is_ca = is_ca
ca_agrees false is_ca = not is_ca

-- `before < 0` and `after > 0`.
abbrev pub is_past : Option TimeOrder → Bool
is_past none = false
is_past (some past) = true
is_past (some future) = false

abbrev pub is_future : Option TimeOrder → Bool
is_future none = false
is_future (some past) = false
is_future (some future) = true

-- The extended key usage NID_server_auth, and the name type GEN_DNS.
abbrev pub nid_server_auth : ℕ
nid_server_auth = 129

abbrev pub gen_dns : ℕ
gen_dns = 2

-- The bits that a certificate authority, and a signing certificate, must have and must not have.
unfoldable pub usage_allows : Bool → KeyUsage → Bool
usage_allows true usage =
    usage.get_bit 5
    && usage.get_bit 6
    && not (usage.get_bit 0)
    && not (usage.get_bit 2)
    && not (usage.get_bit 3)
    && not (usage.get_bit 4)
usage_allows false usage =
    usage.get_bit 0
    && not (usage.get_bit 2)
    && not (usage.get_bit 3)
    && not (usage.get_bit 4)
    && not (usage.get_bit 5)
    && not (usage.get_bit 6)

-- The same for an encryption certificate.
unfoldable pub usage_encrypts : KeyUsage → Bool
usage_encrypts usage =
    not (usage.get_bit 0)
    && usage.get_bit 2
    && usage.get_bit 4
    && not (usage.get_bit 5)
    && not (usage.get_bit 6)

-- The loop of `server_eku_valid`.
unfoldable pub has_server_auth : List ℕ → Bool
has_server_auth [] = false
has_server_auth (nid ∷ nids) = nid == nid_server_auth || has_server_auth nids

abbrev pub is_dns : GeneralName → Bool
is_dns name =
    name.type_code == gen_dns
    && (elim name.dns_name [ none ↦ false | some text ↦ not (length text == 0) ])

-- The loop of `server_san_valid`.
unfoldable pub has_dns_name : List GeneralName → Bool
has_dns_name [] = false
has_dns_name (name ∷ names) = is_dns name || has_dns_name names

abbrev pub and_valid : Option BasicConstraints → (BasicConstraints → Bool) → Bool
and_valid none p = false
and_valid (some c) p = c.is_critical && p c

abbrev pub and_usable : Option KeyUsage → (KeyUsage → Bool) → Bool
and_usable none p = false
and_usable (some u) p = u.is_critical && p u

-- `issuer_identifier`, `authority` and their bytes against each other.
unfoldable pub identifiers_agree : Option Bytes → Option Bytes → Option (Option Bytes) → Bool
identifiers_agree (some subject) (some issuer) (some (some keyid)) =
    not (length subject == 0)
    && not (length issuer == 0)
    && length issuer == length keyid
    && bytes_eq issuer keyid
identifiers_agree (some subject) (some issuer) _ = false
identifiers_agree (some subject) none authority = false
identifiers_agree none issuer authority = false

module _ (C : Crypto) (P : Pki C) where
  open C use {World}
  open P use {X509}

  unfoldable pub certificate_time_valid : X509 → Prog World Bool
  certificate_time_valid certificate = do
    before ← attempt (P.cmp_not_before certificate)
    after ← attempt (P.cmp_not_after certificate)
    pure (is_past before && is_future after)

  unfoldable pub certificate_constraints_valid : X509 → Bool → Prog World Bool
  unfolding usage_allows
  certificate_constraints_valid certificate is_ca = do
    constraints ← attempt (P.get_basic_constraints certificate)
    usage ← attempt (P.get_key_usage certificate)
    pure
        (and_valid constraints (λ c. ca_agrees c.ca is_ca) && and_usable usage (usage_allows is_ca))

  unfoldable pub encryption_certificate_constraints_valid : X509 → Prog World Bool
  encryption_certificate_constraints_valid certificate = do
    constraints ← attempt (P.get_basic_constraints certificate)
    usage ← attempt (P.get_key_usage certificate)
    pure (and_valid constraints (λ c. not c.ca) && and_usable usage usage_encrypts)

  unfoldable pub server_eku_valid : X509 → Prog World (Unit {0})
  server_eku_valid certificate = do
    usage ← P.get_ext_key_usage certificate
    guard (has_server_auth usage)

  unfoldable pub server_san_valid : X509 → Prog World (Unit {0})
  server_san_valid certificate = do
    names ← P.get_subject_alt_name certificate
    guard (has_dns_name names)

  unfoldable pub subject_key_identifier_present : X509 → Prog World (Unit {0})
  subject_key_identifier_present certificate = do
    identifier ← P.get_subject_key_identifier certificate
    guard (not (length identifier == 0))

  unfoldable pub server_key_identifiers_valid : X509 → X509 → Prog World Bool
  server_key_identifiers_valid certificate issuer = do
    subject_identifier ← attempt (P.get_subject_key_identifier certificate)
    issuer_identifier ← attempt (P.get_subject_key_identifier issuer)
    authority ← attempt (P.get_authority_key_identifier certificate)
    pure (identifiers_agree subject_identifier issuer_identifier authority)
