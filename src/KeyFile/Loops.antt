-- ===== src/KeyFile/Loops.antt =====
-- The loops that write and read a file, whatever number of bytes a call of the system takes.
use hybrid_pqc_cert.Prelude.{
  ℕ, zero, suc, ◌-◌, ◌≤◌, ◌<◌, ◌≡◌, sym, ap, ◌∙◌, true, some, ◌++◌, [], ◌∷◌, Bytes, arith, length,
  take, drop, Option-cases, Bool-cases, inl, inr, take-append-drop, length-append, length-drop,
  append_assoc, append-nil, ◌==◌,
}
use hybrid_pqc_cert.Crypto.{Crypto}
use hybrid_pqc_cert.Os.{Os}
use hybrid_pqc_cert.KeyFile.{write_loop, write_all, read_loop, read_all}

-- A descriptor through which `write` adds a front part of the buffer to a file.
pub record IsOutput (C : Crypto) (O : Os C) (fd : O.Descriptor) : Type 0 where
  pub file : C.World → Bytes
  pub writes :
      (buf : Bytes) (w : C.World)
      → ((O.write fd buf w).0 ≤ length buf)
        × (file (O.write fd buf w).1 ≡ file w ++ take (O.write fd buf w).0 buf)

-- A descriptor from which `read` takes the next bytes of a file, at most as many as it is asked for.
record IsInput (C : Crypto) (O : Os C) (fd : O.Descriptor) : Type 0 where
  pub file : C.World → Bytes
  pub reads :
      (n : ℕ) (w : C.World)
      → (length (O.read fd n w).0 ≤ n) × (file w ≡ (O.read fd n w).0 ++ file (O.read fd n w).1)

module _ (C : Crypto) (O : Os C) (fd : O.Descriptor) (f : IsOutput C O fd) where
  write_loop_lem :
      (rounds : ℕ) (buf : Bytes) (w : C.World)
      → (write_loop C O fd rounds buf w).0 ≡ true
      → f.file (write_loop C O fd rounds buf w).1 ≡ f.file w ++ buf
  unfolding write_loop
  write_loop_lem zero [] w h = sym (append-nil (f.file w))
  write_loop_lem zero (x ∷ buf) w h = absurd (ground arith)
  write_loop_lem (suc rounds) [] w h = sym (append-nil (f.file w))
  write_loop_lem (suc rounds) (x ∷ buf) w h =
      let r = O.write fd (x ∷ buf) w in
      elim (Bool-cases (r.0 == 0)) [
        | inl e ↦ absurd (ground arith)
        | inr e ↦
            let ih = write_loop_lem rounds (drop r.0 (x ∷ buf)) r.1 (ground arith) in
            let whole : (f.file w ++ take r.0 (x ∷ buf)) ++ drop r.0 (x ∷ buf)
                ≡ f.file w ++ (x ∷ buf) =
              append_assoc (f.file w) (take r.0 (x ∷ buf)) (drop r.0 (x ∷ buf))
              ∙ ap (λ d. f.file w ++ d) (take-append-drop r.0 (x ∷ buf)) in
            let next = ih ∙ ap (λ d. d ++ drop r.0 (x ∷ buf)) (f.writes (x ∷ buf) w).1 ∙ whole in
            ground (arith, next)
      ]

  -- Whatever sizes `write` takes at a time, success means that exactly the bytes given were added.
  pub write_all-appends :
      (buf : Bytes) (w : C.World)
      → (write_all C O fd buf w).0 ≡ true
      → f.file (write_all C O fd buf w).1 ≡ f.file w ++ buf
  unfolding write_all
  write_all-appends buf w h = write_loop_lem (length buf) buf w h

module _ (C : Crypto) (O : Os C) (fd : O.Descriptor)
    (progress : (x : ℕ) (buf : Bytes) (w : C.World) → 0 < (O.write fd (x ∷ buf) w).0) where
  write_loop_total :
      (rounds : ℕ) (buf : Bytes) (w : C.World)
      → length buf ≤ rounds
      → (write_loop C O fd rounds buf w).0 ≡ true
  unfolding write_loop
  write_loop_total zero buf w l = ground arith
  write_loop_total (suc rounds) [] w l = ground arith
  write_loop_total (suc rounds) (x ∷ buf) w l =
      let r = O.write fd (x ∷ buf) w in
      let more = progress x buf w in
      let shorter : length (drop r.0 (x ∷ buf)) ≤ rounds =
        omega (arith, more, length-drop r.0 (x ∷ buf)) in
      ground (arith, more, write_loop_total rounds (drop r.0 (x ∷ buf)) r.1 shorter)

  -- Where every `write` of a buffer with bytes takes at least one of them, all data is written: the
  -- loop does not run out of rounds.
  pub write_all_total : (buf : Bytes) (w : C.World) → (write_all C O fd buf w).0 ≡ true
  unfolding write_all
  write_all_total buf w = write_loop_total (length buf) buf w (omega arith)

module _ (C : Crypto) (O : Os C) (fd : O.Descriptor) (f : IsInput C O fd) where
  read_loop_lem :
      (rounds missing : ℕ) (w : C.World) {out : Bytes}
      → (read_loop C O fd rounds missing w).0 ≡ some out
      → (length out ≡ missing) × (f.file w ≡ out ++ f.file (read_loop C O fd rounds missing w).1)
  unfolding read_loop
  read_loop_lem zero missing w h = ground arith
  read_loop_lem (suc rounds) zero w h = ground arith
  read_loop_lem (suc rounds) (suc missing) w {out} h =
      let r = O.read fd (suc missing) w in
      let rest = read_loop C O fd rounds (suc missing - length r.0) r.1 in
      elim (Bool-cases (length r.0 == 0)) [
        | inl e ↦ absurd (ground arith)
        | inr e ↦ elim (Option-cases rest.0) [
          | inl g ↦ absurd (ground arith)
          | inr (back, g) ↦
              let (n, i) = read_loop_lem rounds (suc missing - length r.0) r.1 g in
              let (l, k) = f.reads (suc missing) w in
              let split : f.file w ≡ (r.0 ++ back) ++ f.file rest.1 =
                k ∙ ap (λ b. r.0 ++ b) i ∙ sym (append_assoc r.0 back (f.file rest.1)) in
              let whole : out ≡ r.0 ++ back = ground arith in
              (rw whole (omega (arith, n, l, length-append r.0 back)), ground (arith, split, whole))
        ]
      ]

  -- Whatever sizes `read` gives at a time, success means that the next bytes of the file were read,
  -- as many as were asked for.
  read_all-takes :
      (n : ℕ) (w : C.World) {out : Bytes}
      → (read_all C O fd n w).0 ≡ some out
      → (length out ≡ n) × (f.file w ≡ out ++ f.file (read_all C O fd n w).1)
  unfolding read_all
  read_all-takes n w h = read_loop_lem n n w h
