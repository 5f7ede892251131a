-- ===== src/CompositeSig/Message.antt =====
-- The layout of the composite message, and that it determines context and digest.
use hybrid_pqc_cert.Prelude.{
  inl, inr, Option-cases, ℕ, refl, sym, ap, ◌∙◌, append-injective, append-injective_right, ◌≤◌, ◌≡◌,
  some, arith, ◌∷◌, ◌++◌, Bytes, Slice, length, slice_length, contents, CanReturn,
}
use hybrid_pqc_cert.Crypto.{Crypto}
use hybrid_pqc_cert.CompositeSig.{
  build_message, signature_prefix, signature_label, max_context_bytes,
}

layout_injective :
    (p c c' d d' : Bytes) (n n' : ℕ)
    → length d ≡ length d'
    → (p ++ (n ∷ c)) ++ d ≡ (p ++ (n' ∷ c')) ++ d'
    → (n ≡ n') × (c ≡ c') × (d ≡ d')
layout_injective p c c' d d' n n' l e =
    let (front, digests) = append-injective_right (p ++ (n ∷ c)) (p ++ (n' ∷ c')) d d' l e in
    let (_, rest) = append-injective p p (n ∷ c) (n' ∷ c') refl front in (cc rest, cc rest, digests)

module _ (C : Crypto) where
  pub build_message_layout :
      (message ctx : Slice) (w : C.World) {out : Bytes}
      → (build_message C message ctx w).0 ≡ some out
      → (digest : Bytes) × CanReturn (C.evp_digest_sm3 (contents message)) digest
        × (length digest ≡ 32)
        × (slice_length ctx ≤ max_context_bytes)
        × (out ≡ signature_prefix ++ signature_label ++ (slice_length ctx ∷ contents ctx) ++ digest)
  unfolding build_message
  build_message_layout message ctx w {out} h =
      elim (Option-cases (C.evp_digest_sm3 (contents message) w).0) [
        | inl e ↦ absurd (ground arith)
        | inr (digest, e) ↦ (digest, (w, e), ground arith, ground arith, ground arith)
      ]

  -- Equal messages have equal contexts, and digests that agree.
  pub build_message_injective :
      (message message' ctx ctx' : Slice) (v w : C.World) {out : Bytes}
      → (build_message C message ctx v).0 ≡ some out
      → (build_message C message' ctx' w).0 ≡ some out
      → (slice_length ctx ≡ slice_length ctx')
        × (contents ctx ≡ contents ctx')
        × (digest : Bytes) × CanReturn (C.evp_digest_sm3 (contents message)) digest
        × CanReturn (C.evp_digest_sm3 (contents message')) digest
  build_message_injective message message' ctx ctx' v w h k =
      let (d, c, n, m, e) = build_message_layout message ctx v h in
      let (d', c', n', m', e') = build_message_layout message' ctx' w k in
      let (same_length, same_context, same_digest) =
        layout_injective (signature_prefix ++ signature_label) (contents ctx) (contents ctx') d d'
          (slice_length ctx) (slice_length ctx') (n ∙ sym n') (sym e ∙ e') in
      (same_length, same_context, d, c, (c'.0, c'.1 ∙ ap some (sym same_digest)))
