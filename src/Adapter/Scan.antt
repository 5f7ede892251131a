-- ===== src/Adapter/Scan.antt =====
-- The search for the composite object identifier in bytes that cannot be decoded.
use hybrid_pqc_cert.Prelude.{
  ℕ, zero, suc, ◌+◌, ◌-◌, ◌≤◌, ◌<◌, ◌≡◌, refl, sym, ◌∙◌, ap, inl, inr, ◌↔◌, Bool, true, false, ◌||◌,
  [], ◌∷◌, ◌++◌, Bytes, Slice, null, bytes, length, take, drop, ◌==◌, bytes_eq, bytes_eq→eq,
  bytes_eq_refl, ltb, if◌then◌else◌, arith, Bool-cases, take-append, drop-append, take-append-drop,
  length-append, append_assoc,
}

-- The object identifier with its DER tag and length.
abbrev pub composite_oid_der : Bytes
composite_oid_der =
    0x06 ∷ 0x0a ∷ 0x2b ∷ 0x06 ∷ 0x01 ∷ 0x04 ∷ 0x01 ∷ 0x81 ∷ 0xfd ∷ 0x59 ∷ 0x01 ∷ 0x01 ∷ []

-- The loop of `contains_composite_oid`, from an index on, for so many rounds.
contains_loop : Bytes → ℕ → ℕ → Bool
contains_loop der zero i = false
contains_loop der (suc rounds) i =
    bytes_eq (take (length composite_oid_der) (drop i der)) composite_oid_der
    || contains_loop der rounds (i + 1)

unfoldable pub contains_composite_oid : Slice → Bool
unfolding contains_loop
contains_composite_oid (null n) = false
contains_composite_oid (bytes der) =
    if ltb (length der) (length composite_oid_der)
    then false
    else contains_loop der (length der - length composite_oid_der + 1) 0

loop_sound :
    (der : Bytes) (rounds i : ℕ)
    → contains_loop der rounds i ≡ true
    → (front : Bytes) × (back : Bytes) × (der ≡ front ++ composite_oid_der ++ back)
unfolding contains_loop
loop_sound der zero i h = cc
loop_sound der (suc rounds) i h =
    let window = take (length composite_oid_der) (drop i der) in
    elim (Bool-cases (bytes_eq window composite_oid_der)) [
      | inl e ↦
          let same : window ≡ composite_oid_der = bytes_eq→eq window composite_oid_der e in
          let rest = drop (length composite_oid_der) (drop i der) in
          (
            take i der,
            rest,
            sym (take-append-drop i der)
                ∙ ap (◌++◌ (take i der)) (
                    sym (take-append-drop (length composite_oid_der) (drop i der))
                    ∙ ap (λ x. x ++ rest) same)
                ∙ sym (append_assoc (take i der) composite_oid_der rest),
          )
      | inr e ↦ loop_sound der rounds (i + 1) (ground arith)
    ]

loop_complete :
    (der : Bytes) (rounds i j : ℕ)
    → i ≤ j
    → j < i + rounds
    → take (length composite_oid_der) (drop j der) ≡ composite_oid_der
    → contains_loop der rounds i ≡ true
unfolding contains_loop
loop_complete der zero i j l u e = absurd (omega arith)
loop_complete der (suc rounds) i j l u e = elim (Bool-cases (i == j)) [
  | inl p ↦
      let same : i ≡ j = ground arith in
      let here : bytes_eq (take (length composite_oid_der) (drop i der)) composite_oid_der ≡ true =
        rw (same, e) (bytes_eq_refl composite_oid_der) in
      rw here refl
  | inr p ↦ ground (arith, loop_complete der rounds (i + 1) j)
]

-- The search finds the identifier exactly where the bytes contain it.
pub contains_composite_oid_iff :
    (der : Bytes)
    → (contains_composite_oid (bytes der) ≡ true)
      ↔ ((front : Bytes) × (back : Bytes) × (der ≡ front ++ composite_oid_der ++ back))
unfolding contains_composite_oid
contains_composite_oid_iff der = (
  λ h. loop_sound der (length der - 12 + 1) 0 (ground arith),
  λ (front, back, e).
      let whole : length der ≡ length front + 12 + length back =
        ap length e
        ∙ length-append (front ++ composite_oid_der) back
        ∙ ap (λ (n : ℕ). n + length back) (length-append front composite_oid_der) in
      let tail : drop (length front) der ≡ composite_oid_der ++ back =
        rw (e, append_assoc front composite_oid_der back)
          (drop-append (length front) front (composite_oid_der ++ back) refl) in
      let window : take 12 (drop (length front) der) ≡ composite_oid_der =
        rw tail (take-append 12 composite_oid_der back refl) in
      ground (
        arith,
        loop_complete der (length der - 12 + 1) 0 (length front) (omega arith) (omega arith) window,
      ),
)
