-- ===== src/KeyStore/Step.antt =====
-- Saving refines the machine of three states.
use hybrid_pqc_cert.Prelude.{
  ◌≡◌, refl, sym, ◌∙◌, inl, inr, Bool, true, false, Option, some, none, Bytes, arith, Prog, ◌>>◌,
  is_some,
}
use hybrid_pqc_cert.Crypto.{Crypto}
use hybrid_pqc_cert.Os.{Os}
use hybrid_pqc_cert.Os.Laws.{KeepsAt, IsFileSystem}
use hybrid_pqc_cert.CompositeKey.{HybridPrivateKey, HybridPublicKey}
use hybrid_pqc_cert.KeyFile.{passphrase_valid}
use hybrid_pqc_cert.KeyStore.{
  Status, is_missing_store, sm2_file, dilithium_file, join_path, hybrid_key_store_status,
  ensure_private_directory,
}
use hybrid_pqc_cert.KeyStore.Save.{
  save_at, save_files, keypair_self_test, hybrid_key_store_save, status_is,
}
use hybrid_pqc_cert.KeyStore.SelfTest.{self_test_keeps}
use hybrid_pqc_cert.KeyStore.Keeps.{keeps_guard, status_keeps}
use hybrid_pqc_cert.KeyStore.Files.{save_at_outcome}
use mathlib.Core.Path.{subst}
use hybrid_pqc_cert.Prelude.{guard}
use hybrid_pqc_cert.KeyStore.Machine.{
  Step, Removal, refused, path_in, view, paths_differ, directory_differs, Joined, no_path, at_path,
  join_path-Joined, Refines, >>=-Refines, ensure_keeps, joined, joins_keep, status_missing,
  failed-Refines, saved-Refines,
}

module _ (C : Crypto) (O : Os C) (fs : IsFileSystem C O) where
  -- The files, from a store without keys, whether or not the paths could be formed.
  save_at-Refines :
      {removes : Bool} (d : Bytes) {x y : Option Bytes} (k : HybridPrivateKey C.Key)
      (q : HybridPublicKey C.Key) (passphrase : Option Bytes) (w : C.World)
      → Removal C O fs d removes
      → Joined (path_in d sm2_file) x
      → Joined (path_in d dilithium_file) y
      → fs.present w (path_in d sm2_file) ≡ false
      → fs.present w (path_in d dilithium_file) ≡ false
      → Refines C O fs removes d (save_at C O x y k q passphrase) w
  unfolding save_at
  save_at-Refines d k q passphrase w removal no_path no_path no_sm2 no_dilithium = refused
  save_at-Refines d k q passphrase w removal no_path at_path no_sm2 no_dilithium =
      let a = path_in d sm2_file in
      let b = path_in d dilithium_file in
      failed-Refines C O fs d (save_at C O none (some b) k q passphrase) w removal refl no_sm2
        no_dilithium λ x y. (fs.unlink_keeps b a w (λ g. paths_differ d (sym g)) ∙ no_sm2, y w)
  save_at-Refines d k q passphrase w removal at_path no_path no_sm2 no_dilithium = refused
  save_at-Refines d k q passphrase w removal at_path at_path no_sm2 no_dilithium =
      let a = path_in d sm2_file in
      let b = path_in d dilithium_file in
      elim (save_at_outcome C O fs a b k q passphrase w (paths_differ d) no_sm2) [
        | inl (g, gone) ↦
            failed-Refines C O fs d (save_at C O (some a) (some b) k q passphrase) w removal g
              no_sm2 no_dilithium gone
        | inr (g, there_a, there_b) ↦
            saved-Refines C O fs d (save_at C O (some a) (some b) k q passphrase) w g no_sm2
              no_dilithium there_a there_b
      ]

  save_files-Refines :
      {removes : Bool} (d : Bytes) (k : HybridPrivateKey C.Key) (q : HybridPublicKey C.Key)
      (passphrase : Option Bytes) (w : C.World)
      → Removal C O fs d removes
      → fs.present w (path_in d sm2_file) ≡ false
      → fs.present w (path_in d dilithium_file) ≡ false
      → Refines C O fs removes d (save_files C O (some d) k q passphrase) w
  unfolding save_files
  save_files-Refines {removes} d k q passphrase w removal no_sm2 no_dilithium =
      let first = join_path C O (some d) sm2_file w in
      let second = join_path C O (some d) dilithium_file first.1 in
      let kept : (p : Bytes) → fs.present second.1 p ≡ fs.present w p =
        λ p. joins_keep C O fs d p w in
      let run = save_files C O (some d) k q passphrase w in
      let same : view C O fs d second.1 ≡ view C O fs d w =
        rw (kept (path_in d sm2_file), kept (path_in d dilithium_file)) refl in
      subst (λ v. Step removes v (is_some run.0) (view C O fs d run.1)) same
        (save_at-Refines d k q passphrase second.1 removal
          (join_path-Joined (joined C O fs d sm2_file w))
          (join_path-Joined (joined C O fs d dilithium_file first.1))
          (kept (path_in d sm2_file) ∙ no_sm2) (kept (path_in d dilithium_file) ∙ no_dilithium))

  status_is-some :
      (m : C.World → Status × C.World) (w : C.World)
      → (status_is C O is_missing_store m w).0 ≡ some tt
      → is_missing_store (m w).0 ≡ true
  status_is-some m w h = ground arith

  pub status_is_keeps :
      (p : Bytes) (m : C.World → Status × C.World)
      → KeepsAt fs.present p m
      → KeepsAt fs.present p (status_is C O is_missing_store m)
  status_is_keeps p m k = record {
    same = λ w.
        (keeps_guard {there = fs.present} {p = p} (is_missing_store (m w).0)).same (m w).1
        ∙ k.same w;
  }

  -- From the check of the status on.
  checked_save-Refines :
      {removes : Bool} (d : Bytes) (k : HybridPrivateKey C.Key) (q : HybridPublicKey C.Key)
      (passphrase : Option Bytes) (w : C.World)
      → Removal C O fs d removes
      → Refines C O fs removes d
          (do
            status_is C O is_missing_store (hybrid_key_store_status C O (some d))
            save_files C O (some d) k q passphrase)
          w
  checked_save-Refines d k q passphrase w removal =
      let status = hybrid_key_store_status C O (some d) in
      let check : Prog C.World (Unit {0}) = status_is C O is_missing_store status in
      let keeps : (p : Bytes) → KeepsAt fs.present p check =
        λ p. status_is_keeps p status (status_keeps C O fs p (some d)) in
      let a = path_in d sm2_file in
      let b = path_in d dilithium_file in
      >>=-Refines C O fs d check (λ _. save_files C O (some d) k q passphrase) w
        (record { sm2 = keeps a; dilithium = keeps b })
        λ _ e.
          let (no_a, no_b) = status_missing C O fs d w (status_is-some status w e) in
          save_files-Refines d k q passphrase (check w).1 removal ((keeps a).same w ∙ no_a)
            ((keeps b).same w ∙ no_b)

  -- A save does one step of the abstract machine. It puts both keys into a store that has none and
  -- reports success, or it reports failure. A failure leaves the store in the state it was in, but
  -- for one case: where it is not known that both files can be removed, a failed save into a store
  -- without keys may leave it in any state.
  pub hybrid_key_store_save-Step :
      (removes : Bool) (d : Bytes) (private_key : Option (HybridPrivateKey C.Key))
      (public_key : Option (HybridPublicKey C.Key)) (passphrase : Option Bytes) (w : C.World)
      → Removal C O fs d removes
      → let r = hybrid_key_store_save C O (some d) private_key public_key passphrase w in
        Step removes (view C O fs d w) (is_some r.0) (view C O fs d r.1)
  unfolding hybrid_key_store_save
  hybrid_key_store_save-Step removes d none public_key passphrase w removal = refused
  hybrid_key_store_save-Step removes d (some k) none passphrase w removal = refused
  hybrid_key_store_save-Step removes d (some k) (some q) passphrase w removal =
      let keeps_ensure : (name : Bytes)
          → KeepsAt fs.present (path_in d name) (ensure_private_directory C O (some d)) =
        λ name. ensure_keeps C O fs d (path_in d name) (directory_differs d name) in
      >>=-Refines C O fs d (guard (passphrase_valid passphrase)) _ w
        (record { sm2 = keeps_guard _; dilithium = keeps_guard _ })
        λ _ _.
          >>=-Refines C O fs d (keypair_self_test C O k q) _ _
            (record {
              sm2 = self_test_keeps C O fs _ k q;
              dilithium = self_test_keeps C O fs _ k q;
            })
            λ _ _.
              >>=-Refines C O fs d (ensure_private_directory C O (some d)) _ _
                (record { sm2 = keeps_ensure sm2_file; dilithium = keeps_ensure dilithium_file })
                λ _ _. checked_save-Refines d k q passphrase _ removal
