-- ===== src/KeyStore/Files.antt =====
-- What saving does to the two files of a store: each is created or nothing is left of it.
use hybrid_pqc_cert.Prelude.{
  ◌≡◌, ◌≢◌, refl, sym, ◌∙◌, ap, ◌⊎◌, inl, inr, true, false, Option, some, none, Bytes, arith, Prog,
  ◌>>=◌, or_cleanup, >>=-some, or_cleanup-cases, ◌>>◌, Bool-cases, Option-cases,
}
use hybrid_pqc_cert.Crypto.{Crypto, Pkey}
use hybrid_pqc_cert.Os.{Os}
use hybrid_pqc_cert.Os.Laws.{KeepsAt, IsFileSystem, Removes}
use hybrid_pqc_cert.CompositeKey.{HybridPrivateKey, HybridPublicKey}
use hybrid_pqc_cert.KeyFile.{encrypt_dilithium_payload, store_file_bytes, passphrase_valid}
use hybrid_pqc_cert.KeyStore.Save.{
  write_stream, write_file, save_sm2_private_key, make_dilithium_file, save_dilithium_private_key,
  save_at,
}
use hybrid_pqc_cert.KeyStore.Keeps.{
  keeps_cleanup, keeps_>>=, keeps_>>, keeps_guard, keeps_from_option, write_stream_keeps,
  write_file_keeps, encrypt_keeps,
}

module _ (C : Crypto) (O : Os C) (fs : IsFileSystem C O) where
  -- A file is made and written; if the writing fails, it is removed.
  made :
      (path : Bytes) (m : O.Descriptor → Prog C.World (Unit {0})) (w : C.World)
      → ((fd : O.Descriptor) → KeepsAt fs.present path (m fd))
      → let r = (O.open_new path >>= λ fd. or_cleanup (m fd) (O.unlink path)) w in
        ((r.0 ≡ none) × (Removes C O fs path → fs.present r.1 path ≡ fs.present w path))
        ⊎ ((r.0 ≡ some tt) × (fs.present w path ≡ false) × (fs.present r.1 path ≡ true))
  made path m w k = elim (Option-cases (O.open_new path w).0) [
    | inl e ↦ inl (ground arith, λ _. rw (e, ◌>>=◌) (fs.open_new_fails path w e path))
    | inr (fd, e) ↦
        let w1 = (O.open_new path w).1 in
        let (before, after) = fs.open_new_creates path w e in
        elim (Option-cases (m fd w1).0) [
          | inl f ↦ inl (
            rw (e, ◌>>=◌, f, or_cleanup) refl,
            λ removes. rw (e, ◌>>=◌, f, or_cleanup) (removes (m fd w1).1 ∙ sym before),
          )
          | inr (u, f) ↦ inr (
            rw (e, ◌>>=◌, f, or_cleanup) refl,
            before,
            rw (e, ◌>>=◌, f, or_cleanup) ((k fd).same w1 ∙ after),
          )
        ]
  ]

  pub save_sm2_outcome :
      (path : Bytes) (k : Option (Pkey C.Key)) (passphrase : Option Bytes) (w : C.World)
      → let r = save_sm2_private_key C O path k passphrase w in
        ((r.0 ≡ none) × (Removes C O fs path → fs.present r.1 path ≡ fs.present w path))
        ⊎ ((r.0 ≡ some tt) × (fs.present w path ≡ false) × (fs.present r.1 path ≡ true))
  unfolding save_sm2_private_key
  save_sm2_outcome path none passphrase w = inl (refl, λ _. refl)
  save_sm2_outcome path (some k) none w = inl (refl, λ _. refl)
  save_sm2_outcome path (some k) (some text) w = elim (Bool-cases (passphrase_valid (some text))) [
    | inl e ↦ rw e (
        made path (λ fd. write_stream C O fd k.key text) w
          λ fd. write_stream_keeps C O fs path fd k.key text)
    | inr e ↦ inl (rw e refl, λ _. rw e refl)
  ]

  -- A file that is there is not opened.
  made_present :
      (path : Bytes) (m : O.Descriptor → Prog C.World (Unit {0})) (w : C.World)
      → fs.present w path ≡ true
      → let r = (O.open_new path >>= λ fd. or_cleanup (m fd) (O.unlink path)) w in
        (r.0 ≡ none) × (fs.present r.1 path ≡ true)
  made_present path m w h = elim (Option-cases (O.open_new path w).0) [
    | inl e ↦ (ground arith, rw (e, ◌>>=◌) (fs.open_new_fails path w e path ∙ h))
    | inr (fd, e) ↦ let (absent, _) = fs.open_new_creates path w e in absurd (ground arith)
  ]

  save_sm2_present :
      (path : Bytes) (k : Option (Pkey C.Key)) (passphrase : Option Bytes) (w : C.World)
      → fs.present w path ≡ true
      → let r = save_sm2_private_key C O path k passphrase w in
        (r.0 ≡ none) × (fs.present r.1 path ≡ true)
  unfolding save_sm2_private_key
  save_sm2_present path none passphrase w h = (refl, h)
  save_sm2_present path (some k) none w h = (refl, h)
  save_sm2_present path (some k) (some text) w h =
      elim (Bool-cases (passphrase_valid (some text))) [
        | inl e ↦ rw e (made_present path (λ fd. write_stream C O fd k.key text) w h)
        | inr e ↦ (rw e refl, rw e h)
      ]

  -- The work that a failure undoes, where it succeeds.
  created :
      (path : Bytes) (k : HybridPrivateKey C.Key) (q : HybridPublicKey C.Key)
      (passphrase : Option Bytes) (w : C.World)
      → (make_dilithium_file C O path k q passphrase w).0 ≡ some tt
      → fs.present (make_dilithium_file C O path k q passphrase w).1 path ≡ true
  unfolding make_dilithium_file
  created path k q passphrase w h =
      let encrypt : Prog C.World Bytes =
        encrypt_dilithium_payload C O k.dilithium_secret_key q.dilithium_public_key passphrase in
      let make : Bytes → Prog C.World (Unit {0}) =
        λ file. O.open_new path >>= λ fd. write_file C O fd file in
      let (u, e1, r1) = >>=-some (C.malloc store_file_bytes) (λ _. encrypt >>= make) w h in
      let w1 = (C.malloc store_file_bytes w).1 in
      let (file, e2, r2) = >>=-some encrypt make w1 (ap (λ x. x.0) (sym r1) ∙ h) in
      let w2 = (encrypt w1).1 in
      let (fd, e3, r3) =
        >>=-some (O.open_new path) (λ fd. write_file C O fd file) w2
          (ap (λ x. x.0) (sym r2) ∙ ap (λ x. x.0) (sym r1) ∙ h) in
      ap (λ x. fs.present x.1 path) (r1 ∙ r2 ∙ r3)
      ∙ (write_file_keeps C O fs path fd file).same (O.open_new path w2).1
      ∙ (fs.open_new_creates path w2 e3).1

  pub save_dilithium_outcome :
      (path : Bytes) (k : HybridPrivateKey C.Key) (q : HybridPublicKey C.Key)
      (passphrase : Option Bytes) (w : C.World)
      → let r = save_dilithium_private_key C O path k q passphrase w in
        ((r.0 ≡ none) × (Removes C O fs path → fs.present r.1 path ≡ false))
        ⊎ ((r.0 ≡ some tt) × (fs.present r.1 path ≡ true))
  unfolding save_dilithium_private_key
  save_dilithium_outcome path k q passphrase w =
      elim (or_cleanup-cases (make_dilithium_file C O path k q passphrase) (O.unlink path) w) [
        | inl (e, r) ↦ inl (ap (λ x. x.0) r, λ removes. ap (λ x. fs.present x.1 path) r ∙ removes _)
        | inr (u, e, r) ↦
            inr (ap (λ x. x.0) r, ap (λ x. fs.present x.1 path) r ∙ created path k q passphrase w e)
      ]

  pub save_dilithium_elsewhere :
      (path : Bytes) (k : HybridPrivateKey C.Key) (q : HybridPublicKey C.Key)
      (passphrase : Option Bytes) (p : Bytes)
      → path ≢ p
      → KeepsAt fs.present p (save_dilithium_private_key C O path k q passphrase)
  unfolding save_dilithium_private_key make_dilithium_file
  save_dilithium_elsewhere path k q passphrase p n =
      keeps_cleanup {n = λ w. (tt, O.unlink path w)}
        (keeps_>> (fs.crypto.keeps_malloc _ p) (
          keeps_>>=
            (encrypt_keeps C O fs p k.dilithium_secret_key q.dilithium_public_key passphrase)
            λ file. keeps_>>= (fs.open_new_keeps path p n) λ fd. write_file_keeps C O fs p fd file))
        (record { same = λ w. fs.unlink_keeps path p w n })

  pub save_sm2_elsewhere :
      (path : Bytes) (k : Option (Pkey C.Key)) (passphrase : Option Bytes) (p : Bytes)
      → path ≢ p
      → KeepsAt fs.present p (save_sm2_private_key C O path k passphrase)
  unfolding save_sm2_private_key
  save_sm2_elsewhere path k passphrase p n =
      keeps_>>= (keeps_from_option {o = k}) λ (key : Pkey C.Key).
        keeps_>> (keeps_guard (passphrase_valid passphrase)) (
          keeps_>>= (keeps_from_option {o = passphrase}) λ (text : Bytes).
            keeps_>>= (fs.open_new_keeps path p n) λ fd.
              keeps_cleanup {n = λ w. (tt, O.unlink path w)}
                (write_stream_keeps C O fs p fd key.key text)
                (record { same = λ w. fs.unlink_keeps path p w n }))

  -- The two files as `save_at` writes them: without the clean-up of the second path.
  abbrev pub both :
      Bytes
      → Bytes
      → HybridPrivateKey C.Key
      → HybridPublicKey C.Key
      → Option Bytes
      → Prog C.World (Unit {0})
  both a b k q passphrase = do
    save_sm2_private_key C O a k.sm2_private_key passphrase
    or_cleanup (save_dilithium_private_key C O b k q passphrase) (O.unlink a)

  pub both_outcome :
      (a b : Bytes) (k : HybridPrivateKey C.Key) (q : HybridPublicKey C.Key)
      (passphrase : Option Bytes) (w : C.World)
      → b ≢ a
      → fs.present w a ≡ false
      → let r = both a b k q passphrase w in
        ((r.0 ≡ none) × (Removes C O fs a → fs.present r.1 a ≡ false))
        ⊎ ((r.0 ≡ some tt) × (fs.present r.1 a ≡ true) × (fs.present r.1 b ≡ true))
  both_outcome a b k q passphrase w n h =
      let w1 = (save_sm2_private_key C O a k.sm2_private_key passphrase w).1 in
      let second : Prog C.World (Unit {0}) = save_dilithium_private_key C O b k q passphrase in
      elim (save_sm2_outcome a k.sm2_private_key passphrase w) [
        | inl (e, same) ↦ inl (rw (e, ◌>>=◌) refl, λ removes. rw (e, ◌>>=◌) (same removes ∙ h))
        | inr (e, _, there) ↦ elim (or_cleanup-cases second (O.unlink a) w1) [
          | inl (f, r) ↦ inl (
            rw (e, ◌>>=◌) (ap (λ x. x.0) r),
            λ removes. rw (e, ◌>>=◌) (ap (λ x. fs.present x.1 a) r ∙ removes (second w1).1),
          )
          | inr (u, f, r) ↦ elim (save_dilithium_outcome b k q passphrase w1) [
            | inl (g, _) ↦ absurd (ground arith)
            | inr (g, written) ↦ inr (
              rw (e, ◌>>=◌) (ap (λ x. x.0) r),
              rw (e, ◌>>=◌)
                  (ap (λ x. fs.present x.1 a) r
                    ∙ (save_dilithium_elsewhere b k q passphrase a n).same w1
                    ∙ there),
              rw (e, ◌>>=◌) (ap (λ x. fs.present x.1 b) r ∙ written),
            )
          ]
        ]
      ]

  -- With the SM2 file absent before, both files are there after a success, and none after a failure
  -- if they can be removed.
  pub save_at_outcome :
      (a b : Bytes) (k : HybridPrivateKey C.Key) (q : HybridPublicKey C.Key)
      (passphrase : Option Bytes) (w : C.World)
      → a ≢ b
      → fs.present w a ≡ false
      → let r = save_at C O (some a) (some b) k q passphrase w in
        ((r.0 ≡ none)
          × (Removes C O fs a
              → Removes C O fs b
              → (fs.present r.1 a ≡ false) × (fs.present r.1 b ≡ false)))
        ⊎ ((r.0 ≡ some tt) × (fs.present r.1 a ≡ true) × (fs.present r.1 b ≡ true))
  unfolding save_at
  save_at_outcome a b k q passphrase w n h =
      let m : Prog C.World (Unit {0}) = both a b k q passphrase in
      let n1 : b ≢ a = λ e. n (sym e) in
      elim (or_cleanup-cases m (O.unlink b) w) [
        | inl (e, r) ↦ elim (both_outcome a b k q passphrase w n1 h) [
          | inl (_, gone) ↦ inl (
            ap (λ x. x.0) r,
            λ removes_a removes_b. (
              ap (λ x. fs.present x.1 a) r ∙ fs.unlink_keeps b a (m w).1 n1 ∙ gone removes_a,
              ap (λ x. fs.present x.1 b) r ∙ removes_b (m w).1,
            ),
          )
          | inr (f, _, _) ↦ absurd (ground arith)
        ]
        | inr (u, e, r) ↦ elim (both_outcome a b k q passphrase w n1 h) [
          | inl (f, _) ↦ absurd (ground arith)
          | inr (f, sm2, dilithium) ↦ inr (
            ap (λ x. x.0) r,
            ap (λ x. fs.present x.1 a) r ∙ sm2,
            ap (λ x. fs.present x.1 b) r ∙ dilithium,
          )
        ]
      ]

  both_present :
      (a b : Bytes) (k : HybridPrivateKey C.Key) (q : HybridPublicKey C.Key)
      (passphrase : Option Bytes) (w : C.World)
      → fs.present w a ≡ true
      → let r = both a b k q passphrase w in (r.0 ≡ none) × (fs.present r.1 a ≡ true)
  both_present a b k q passphrase w h =
      let (e, same) = save_sm2_present a k.sm2_private_key passphrase w h in
      (rw (e, ◌>>=◌) refl, rw (e, ◌>>=◌) same)

  -- With a file at the first path, nothing is written there and the second path is removed.
  pub save_at_present :
      (a b : Bytes) (k : HybridPrivateKey C.Key) (q : HybridPublicKey C.Key)
      (passphrase : Option Bytes) (w : C.World)
      → a ≢ b
      → Removes C O fs b
      → fs.present w a ≡ true
      → let r = save_at C O (some a) (some b) k q passphrase w in
        (r.0 ≡ none) × (fs.present r.1 a ≡ true) × (fs.present r.1 b ≡ false)
  unfolding save_at
  save_at_present a b k q passphrase w n removes h =
      let m : Prog C.World (Unit {0}) = both a b k q passphrase in
      let n1 : b ≢ a = λ e. n (sym e) in
      let (fails, same) = both_present a b k q passphrase w h in
      elim (or_cleanup-cases m (O.unlink b) w) [
        | inl (e, r) ↦ (
          ap (λ x. x.0) r,
          ap (λ x. fs.present x.1 a) r ∙ fs.unlink_keeps b a (m w).1 n1 ∙ same,
          ap (λ x. fs.present x.1 b) r ∙ removes (m w).1,
        )
        | inr (u, e, r) ↦ absurd (ground arith)
      ]
