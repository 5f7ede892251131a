-- ===== src/Chain/Roles.antt =====
-- What the checks on one certificate establish, and that the roles exclude one another.
use hybrid_pqc_cert.Prelude.{
  ℕ, ◌≡◌, refl, true, false, ◌⊎◌, inl, inr, Option, some, none, List, [], ◌∷◌, Bytes, length, arith,
  CanReturn, Option-cases, Bool-cases, Bool, bytes_eq→eq, ◌≢◌,
}
use hybrid_pqc_cert.Crypto.{Crypto}
use hybrid_pqc_cert.Pki.{Pki, past, future, BasicConstraints, KeyUsage, GeneralName}
use hybrid_pqc_cert.Chain.Checks.{
  certificate_time_valid, certificate_constraints_valid, encryption_certificate_constraints_valid,
  server_eku_valid, server_san_valid, server_key_identifiers_valid, usage_allows, usage_encrypts,
  has_server_auth, has_dns_name, identifiers_agree, nid_server_auth, gen_dns,
}

-- One element of the list has the property.
abbrev pub Some : {A : Type 0} → (A → Type 0) → List A → Type 0
Some P [] = ⊥
Some P (x ∷ xs) = P x ⊎ Some P xs

pub has_server_auth-Some :
    (nids : List ℕ) → has_server_auth nids ≡ true → Some (λ nid. nid ≡ nid_server_auth) nids
unfolding has_server_auth
has_server_auth-Some [] h = cc
has_server_auth-Some (nid ∷ nids) h = ground (arith, has_server_auth-Some nids)

-- A DNS name that is not empty.
abbrev pub IsDnsName : GeneralName → Type 0
IsDnsName name =
    (name.type_code ≡ gen_dns) × (text : Bytes) × (name.dns_name ≡ some text) × (length text ≢ 0)

pub has_dns_name-Some :
    (names : List GeneralName) → has_dns_name names ≡ true → Some IsDnsName names
unfolding has_dns_name
has_dns_name-Some [] h = cc
has_dns_name-Some (name ∷ names) h = elim (Option-cases name.dns_name) [
  | inl e ↦ inr (has_dns_name-Some names (ground arith))
  | inr (text, e) ↦ elim (Bool-cases (has_dns_name names)) [
    | inl m ↦ inr (has_dns_name-Some names m)
    | inr n ↦ inl (ground arith, text, e, ground arith)
  ]
]

module _ (C : Crypto) (P : Pki C) where
  pub certificate_time_valid_lem :
      (c : P.X509) (w : C.World)
      → (certificate_time_valid C P c w).0 ≡ some true
      → CanReturn (P.cmp_not_before c) past × CanReturn (P.cmp_not_after c) future
  unfolding certificate_time_valid
  certificate_time_valid_lem c w h = ((w, ground arith), ((P.cmp_not_before c w).1, ground arith))

  pub certificate_constraints_valid_lem :
      (c : P.X509) (is_ca : Bool) (w : C.World)
      → (certificate_constraints_valid C P c is_ca w).0 ≡ some true
      → (constraints : BasicConstraints) × (usage : KeyUsage) × CanReturn
          (P.get_basic_constraints c)
          constraints
        × CanReturn (P.get_key_usage c) usage
        × (constraints.is_critical ≡ true)
        × (constraints.ca ≡ is_ca)
        × (usage.is_critical ≡ true)
        × (usage_allows is_ca usage ≡ true)
  unfolding certificate_constraints_valid
  certificate_constraints_valid_lem c is_ca w h =
      let w1 = (P.get_basic_constraints c w).1 in
      elim (Option-cases (P.get_basic_constraints c w).0) [
        | inl e ↦ absurd (ground arith)
        | inr (constraints, e) ↦ elim (Option-cases (P.get_key_usage c w1).0) [
          | inl f ↦ absurd (ground arith)
          | inr (usage, f) ↦ (
            constraints,
            usage,
            (w, e),
            (w1, f),
            ground arith,
            ground arith,
            ground arith,
            ground arith,
          )
        ]
      ]

  pub encryption_constraints_lem :
      (c : P.X509) (w : C.World)
      → (encryption_certificate_constraints_valid C P c w).0 ≡ some true
      → (constraints : BasicConstraints) × (usage : KeyUsage) × CanReturn
          (P.get_basic_constraints c)
          constraints
        × CanReturn (P.get_key_usage c) usage
        × (constraints.is_critical ≡ true)
        × (constraints.ca ≡ false)
        × (usage.is_critical ≡ true)
        × (usage_encrypts usage ≡ true)
  unfolding encryption_certificate_constraints_valid
  encryption_constraints_lem c w h =
      let w1 = (P.get_basic_constraints c w).1 in
      elim (Option-cases (P.get_basic_constraints c w).0) [
        | inl e ↦ absurd (ground arith)
        | inr (constraints, e) ↦ elim (Option-cases (P.get_key_usage c w1).0) [
          | inl f ↦ absurd (ground arith)
          | inr (usage, f) ↦ (
            constraints,
            usage,
            (w, e),
            (w1, f),
            ground arith,
            ground arith,
            ground arith,
            ground arith,
          )
        ]
      ]

  pub server_eku_valid_lem :
      (c : P.X509) (w : C.World)
      → (server_eku_valid C P c w).0 ≡ some tt
      → (nids : List ℕ) × CanReturn (P.get_ext_key_usage c) nids
        × Some (λ nid. nid ≡ nid_server_auth) nids
  unfolding server_eku_valid
  server_eku_valid_lem c w h = elim (Option-cases (P.get_ext_key_usage c w).0) [
    | inl e ↦ absurd (ground arith)
    | inr (nids, e) ↦ (nids, (w, e), has_server_auth-Some nids (ground arith))
  ]

  pub server_san_valid_lem :
      (c : P.X509) (w : C.World)
      → (server_san_valid C P c w).0 ≡ some tt
      → (names : List GeneralName) × CanReturn (P.get_subject_alt_name c) names
        × Some IsDnsName names
  unfolding server_san_valid
  server_san_valid_lem c w h = elim (Option-cases (P.get_subject_alt_name c w).0) [
    | inl e ↦ absurd (ground arith)
    | inr (names, e) ↦ (names, (w, e), has_dns_name-Some names (ground arith))
  ]

  identifiers_agree_lem :
      (subject issuer : Option Bytes) (authority : Option (Option Bytes))
      → identifiers_agree subject issuer authority ≡ true
      → (s : Bytes) × (id : Bytes) × (subject ≡ some s)
        × (issuer ≡ some id)
        × (authority ≡ some (some id))
        × (length s ≢ 0)
        × (length id ≢ 0)
  unfolding identifiers_agree
  identifiers_agree_lem (some s) (some id) (some (some keyid)) h =
      let same : id ≡ keyid = bytes_eq→eq id keyid (ground arith) in
      (s, id, refl, refl, rw same, ground arith, ground arith)
  identifiers_agree_lem (some s) (some id) (some none) h = cc
  identifiers_agree_lem (some s) (some id) none h = cc
  identifiers_agree_lem (some s) none authority h = cc
  identifiers_agree_lem none issuer authority h = cc

  pub server_key_identifiers_valid_lem :
      (c issuer : P.X509) (w : C.World)
      → (server_key_identifiers_valid C P c issuer w).0 ≡ some true
      → (s : Bytes) × (id : Bytes) × CanReturn (P.get_subject_key_identifier c) s
        × CanReturn (P.get_subject_key_identifier issuer) id
        × CanReturn (P.get_authority_key_identifier c) (some id)
        × (length s ≢ 0)
        × (length id ≢ 0)
  unfolding server_key_identifiers_valid
  server_key_identifiers_valid_lem c issuer w h =
      let w1 = (P.get_subject_key_identifier c w).1 in
      let w2 = (P.get_subject_key_identifier issuer w1).1 in
      let (s, id, e, f, g, m, n) =
        identifiers_agree_lem (P.get_subject_key_identifier c w).0
          (P.get_subject_key_identifier issuer w1).0 (P.get_authority_key_identifier c w2).0
          (ground arith) in
      (s, id, (w, e), (w1, f), (w2, g), m, n)

-- A key usage suits one role only: authority, signing or encryption.
pub usage_exclusive :
    (usage : KeyUsage)
    → ¬ ((usage_allows true usage ≡ true) × (usage_allows false usage ≡ true))
      × ¬ ((usage_allows true usage ≡ true) × (usage_encrypts usage ≡ true))
      × ¬ ((usage_allows false usage ≡ true) × (usage_encrypts usage ≡ true))
unfolding usage_allows usage_encrypts
usage_exclusive usage = (λ h. ground arith, λ h. ground arith, λ h. ground arith)
