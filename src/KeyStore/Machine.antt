-- ===== src/KeyStore/Machine.antt =====
-- The store as an abstract machine with three states, and the programs that do one step of it.
use hybrid_pqc_cert.Prelude.{
  ◌≡◌, ◌≢◌, refl, sym, ◌∙◌, ap, ◌⊎◌, inl, inr, Bool, true, false, Option, some, none, ◌∷◌, ◌++◌,
  Bytes, arith, Prog, ◌>>=◌, ◌>>◌, is_some, length, length-append, Option-cases,
}
use hybrid_pqc_cert.Crypto.{Crypto}
use hybrid_pqc_cert.Os.{Os}
use hybrid_pqc_cert.Os.Laws.{KeepsAt, IsFileSystem, Removes}
use hybrid_pqc_cert.KeyStore.{
  Status, missing, complete, is_missing_store, sm2_file, dilithium_file, both_or_neither, status_at,
  join_path, hybrid_key_store_status, ensure_private_directory, stat_directory,
}
use hybrid_pqc_cert.KeyStore.Keeps.{keeps_>>=, keeps_>>, keeps_guard, join_keeps}
use hybrid_pqc_cert.Os.{Stat, is_found}
use hybrid_pqc_cert.KeyStore.{is_private}
use hybrid_pqc_cert.Prelude.{not, ◌&&◌, ◌==◌, guard}

-- What a save may do, given whether files can be removed: the keys come into a store that has none,
-- or nothing changes. Where files may stay, a failure may leave something in a store that had none.
pub data Step : Bool → Status → Bool → Status → Type 0 where
  saved : {removes : Bool} → Step removes missing true complete
  refused : {removes : Bool} {s : Status} → Step removes s false s
  left_over : {s : Status} → Step false missing false s

abbrev pub path_in : Bytes → Bytes → Bytes
path_in directory name = directory ++ (47 ∷ name)

-- What stands in the directory.
abbrev pub view : (C : Crypto) (O : Os C) → IsFileSystem C O → Bytes → C.World → Status
view C O fs directory w =
    both_or_neither (fs.present w (path_in directory sm2_file))
      (fs.present w (path_in directory dilithium_file))

pub paths_differ : (d : Bytes) → path_in d sm2_file ≢ path_in d dilithium_file
paths_differ d e =
    let lengths = ap length e in
    omega (arith, lengths, length-append d (47 ∷ sm2_file), length-append d (47 ∷ dilithium_file))

pub directory_differs : (d name : Bytes) → d ≢ path_in d name
directory_differs d name e =
    let lengths = ap length e in omega (arith, lengths, length-append d (47 ∷ name))

-- Two files that are both absent, or not known to be so.
both_or_neither-missing :
    (a b : Bool) → is_missing_store (both_or_neither a b) ≡ true → (a ≡ false) × (b ≡ false)
both_or_neither-missing a b h = ground arith

-- A path that was formed, or none for lack of memory.
pub data Joined (p : Bytes) : Option Bytes → Type 0 where
  no_path : Joined p none
  at_path : Joined p (some p)

pub join_path-Joined : {p : Bytes} {o : Option Bytes} → (o ≡ none) ⊎ (o ≡ some p) → Joined p o
join_path-Joined (inl e) = rw e no_path
join_path-Joined (inr e) = rw e at_path

-- Whether both files of a store can be removed, or may stay when `unlink` is called.
pub data Removal (C : Crypto) (O : Os C) (fs : IsFileSystem C O) (d : Bytes) : Bool → Type 0 where
  can_remove :
      Removes C O fs (path_in d sm2_file)
      → Removes C O fs (path_in d dilithium_file)
      → Removal C O fs d true
  may_stay : Removal C O fs d false

module _ (C : Crypto) (O : Os C) (fs : IsFileSystem C O) where
  -- A program that does one step of the abstract machine.
  abbrev pub Refines : Bool → Bytes → Prog C.World (Unit {0}) → C.World → Type 0
  Refines removes d m w = Step removes (view C O fs d w) (is_some (m w).0) (view C O fs d (m w).1)

  -- A program that leaves both files alone.
  pub record KeepsView (d : Bytes) {A : Type 0} (m : Prog C.World A) : Type 0 where
    pub sm2 : KeepsAt fs.present (path_in d sm2_file) m
    pub dilithium : KeepsAt fs.present (path_in d dilithium_file) m

  pub view_kept :
      {A : Type 0} (d : Bytes) (m : Prog C.World A)
      → KeepsView d m
      → (w : C.World) → view C O fs d (m w).1 ≡ view C O fs d w
  view_kept d m k w = rw (k.sm2.same w, k.dilithium.same w) refl

  pub >>=-Refines :
      {removes : Bool} {A : Type 0} (d : Bytes) (m : Prog C.World A)
      (f : A → Prog C.World (Unit {0})) (w : C.World)
      → KeepsView d m
      → ((a : A) → (m w).0 ≡ some a → Refines removes d (f a) (m w).1)
      → Refines removes d (m >>= f) w
  >>=-Refines d m f w k l = elim (Option-cases (m w).0) [
    | inl e ↦ rw (e, ◌>>=◌, view_kept d m k w) refused
    | inr (a, e) ↦ rw (e, ◌>>=◌, sym (view_kept d m k w)) (l a e)
  ]

  stat_directory_keeps : (d p : Bytes) → d ≢ p → KeepsAt fs.present p (stat_directory C O d)
  unfolding stat_directory
  stat_directory_keeps d p n = record {
    same = λ w.
        let first = O.lstat d w in
        let made = O.mkdir d first.1 in
        let second = O.lstat d made.1 in
        ground (
          arith,
          (fs.keeps_lstat d p).same w,
          (fs.mkdir_keeps d p n).same first.1,
          (fs.keeps_lstat d p).same made.1,
        );
  }

  pub ensure_keeps :
      (d p : Bytes) → d ≢ p → KeepsAt fs.present p (ensure_private_directory C O (some d))
  unfolding ensure_private_directory
  ensure_keeps d p n =
      let rest : KeepsAt fs.present p (do
        guard {W = C.World} (not (length d == 0))
        status ← stat_directory C O d
        guard (status.is_directory && not status.is_link && is_private status)) =
        keeps_>> (keeps_guard (not (length d == 0))) (
          keeps_>>= (stat_directory_keeps d p n)
            λ (s : Stat). keeps_guard (s.is_directory && not s.is_link && is_private s)) in
      record { same = rest.same }

  pub joined :
      (d name : Bytes) (w : C.World)
      → ((join_path C O (some d) name w).0 ≡ none)
        ⊎ ((join_path C O (some d) name w).0 ≡ some (path_in d name))
  unfolding join_path
  joined d name w = ground arith

  pub joins_keep :
      (d p : Bytes) (w : C.World)
      → fs.present (join_path C O (some d) dilithium_file (join_path C O (some d) sm2_file w).1).1 p
        ≡ fs.present w p
  joins_keep d p w =
      (join_keeps C O fs p (some d) dilithium_file).same (join_path C O (some d) sm2_file w).1
      ∙ (join_keeps C O fs p (some d) sm2_file).same w

  -- The store has no key where the status says so.
  pub status_missing :
      (d : Bytes) (w : C.World)
      → is_missing_store (hybrid_key_store_status C O (some d) w).0 ≡ true
      → (fs.present w (path_in d sm2_file) ≡ false)
        × (fs.present w (path_in d dilithium_file) ≡ false)
  unfolding hybrid_key_store_status
  status_missing d w h =
      let a = path_in d sm2_file in
      let b = path_in d dilithium_file in
      let first = join_path C O (some d) sm2_file w in
      let second = join_path C O (some d) dilithium_file first.1 in
      elim (joined d sm2_file w) [
        | inl e ↦ absurd (ground arith)
        | inr e ↦ elim (joined d dilithium_file first.1) [
          | inl f ↦ absurd (ground arith)
          | inr f ↦
              let third = O.access a second.1 in
              let found : is_missing_store (status_at C O (some a) (some b) second.1).0 ≡ true =
                sym (
                  ap (λ x. is_missing_store (status_at C O x second.0 second.1).0) e
                  ∙ ap (λ x. is_missing_store (status_at C O (some a) x second.1).0) f)
                ∙ h in
              let (sm2, dilithium) =
                both_or_neither-missing (is_found third.0) (is_found (O.access b third.1).0)
                  found in
              let kept : (p : Bytes) → fs.present second.1 p ≡ fs.present w p =
                λ p. joins_keep d p w in
              (
                sym (kept a) ∙ sym (fs.access_tells a second.1) ∙ sm2,
                sym ((fs.keeps_access a b).same second.1 ∙ kept b)
                    ∙ sym (fs.access_tells b third.1)
                    ∙ dilithium,
              )
        ]
      ]

  -- A failure in a store that had no keys.
  pub failed-Refines :
      {removes : Bool} (d : Bytes) (m : Prog C.World (Unit {0})) (w : C.World)
      → Removal C O fs d removes
      → (m w).0 ≡ none
      → fs.present w (path_in d sm2_file) ≡ false
      → fs.present w (path_in d dilithium_file) ≡ false
      → (Removes C O fs (path_in d sm2_file)
          → Removes C O fs (path_in d dilithium_file)
          → (fs.present (m w).1 (path_in d sm2_file) ≡ false)
            × (fs.present (m w).1 (path_in d dilithium_file) ≡ false))
      → Refines removes d m w
  failed-Refines d m w (can_remove x y) e no_a no_b gone =
      let (gone_a, gone_b) = gone x y in rw (e, no_a, no_b, gone_a, gone_b) refused
  failed-Refines d m w may_stay e no_a no_b gone = rw (e, no_a, no_b) left_over

  pub saved-Refines :
      {removes : Bool} (d : Bytes) (m : Prog C.World (Unit {0})) (w : C.World)
      → (m w).0 ≡ some tt
      → fs.present w (path_in d sm2_file) ≡ false
      → fs.present w (path_in d dilithium_file) ≡ false
      → fs.present (m w).1 (path_in d sm2_file) ≡ true
      → fs.present (m w).1 (path_in d dilithium_file) ≡ true
      → Refines removes d m w
  saved-Refines d m w e no_a no_b a b = rw (e, no_a, no_b, a, b) saved
