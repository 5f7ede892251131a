-- ===== src/KeyStore/Succeeds.antt =====
-- Saving succeeds on a system whose calls succeed.
use hybrid_pqc_cert.Prelude.{
  ◌<◌, ◌≡◌, refl, ◌∙◌, ap, Bool, true, false, some, Bytes, bytes, null, length, arith, Prog, guard,
  is_some, AlwaysReturns,
}
use hybrid_pqc_cert.Crypto.{Crypto}
use hybrid_pqc_cert.Crypto.Laws.{IsSteady}
use hybrid_pqc_cert.Os.{Os, found, Stat, is_found}
use hybrid_pqc_cert.Os.Laws.{IsFileSystem}
use hybrid_pqc_cert.CompositeKey.{HybridPrivateKey, HybridPublicKey}
use hybrid_pqc_cert.CompositeSig.Complete.{KeyPair, sign_verifies}
use hybrid_pqc_cert.CompositeSig.{sign}
use hybrid_pqc_cert.KeyStore.{
  sm2_file, dilithium_file, missing, complete, is_missing_store, join_path, stat_directory,
  ensure_private_directory, hybrid_key_store_status,
}
use hybrid_pqc_cert.KeyStore.Machine.{
  Step, may_stay, view, path_in, paths_differ, joins_keep, ensure_keeps, directory_differs,
}
use hybrid_pqc_cert.KeyStore.Race.{joined_path, saved_is_complete}
use hybrid_pqc_cert.KeyStore.SelfTest.{self_test_keeps}
use hybrid_pqc_cert.KeyStore.Keeps.{status_keeps}
use hybrid_pqc_cert.KeyStore.Step.{hybrid_key_store_save-Step, status_is_keeps}
use hybrid_pqc_cert.KeyStore.{both_or_neither}
use mathlib.Core.Path.{subst}
use hybrid_pqc_cert.KeyFile.{passphrase_valid}
use hybrid_pqc_cert.KeyStore.{challenge, is_private}
use hybrid_pqc_cert.KeyStore.Save.{save_files, keypair_self_test, hybrid_key_store_save, status_is}
use hybrid_pqc_cert.KeyStore.Working.{Works, >>=-works, is_some-tt, save_at_works}

module _ (C : Crypto) (O : Os C) (fs : IsFileSystem C O) (works : Works C O fs) where
  self_test_works :
      (steady : IsSteady C) (k : HybridPrivateKey C.Key) (q : HybridPublicKey C.Key)
      → KeyPair C k q
      → AlwaysReturns (keypair_self_test C O k q) tt
  unfolding keypair_self_test
  self_test_works steady k q pair w =
      let (signature, signs, verifies) =
        sign_verifies C steady k q pair (bytes challenge) (null 0) w refl refl (omega arith) in
      let w1 = (sign C (some k) (bytes challenge) (null 0) w).1 in
      ground (arith, signs, verifies w1)

  -- The directory is there and private, whatever other calls are made.
  abbrev pub IsSafe : Bytes → Type 0
  IsSafe d =
      (w : C.World)
      → (s : Stat) × ((O.lstat d w).0 ≡ found s)
        × (s.is_directory ≡ true)
        × (s.is_link ≡ false)
        × (is_private s ≡ true)

  ensure_works :
      (d : Bytes) (w : C.World)
      → 0 < length d
      → IsSafe d
      → (ensure_private_directory C O (some d) w).0 ≡ some tt
  unfolding ensure_private_directory stat_directory
  ensure_works d w l safe = let (s, e, a, b, c) = safe w in ground (arith, e, a, b, c)

  check_works :
      (steady : IsSteady C) (d : Bytes) (w : C.World)
      → (0 < length d) × (length d < 4096)
      → fs.present w (path_in d sm2_file) ≡ false
      → fs.present w (path_in d dilithium_file) ≡ false
      → (status_is C O is_missing_store (hybrid_key_store_status C O (some d)) w).0 ≡ some tt
  unfolding hybrid_key_store_status
  check_works steady d w fits no_a no_b =
      let a = path_in d sm2_file in
      let b = path_in d dilithium_file in
      let first = join_path C O (some d) sm2_file w in
      let second = join_path C O (some d) dilithium_file first.1 in
      let e =
        joined_path C O fs d sm2_file w steady.malloc_steady fits (omega arith, omega arith) in
      let f =
        joined_path C O fs d dilithium_file first.1 steady.malloc_steady fits
          (omega arith, omega arith) in
      let third = O.access a second.1 in
      let fourth = O.access b third.1 in
      let no_a' : is_found third.0 ≡ false =
        fs.access_tells a second.1 ∙ joins_keep C O fs d a w ∙ no_a in
      let no_b' : is_found fourth.0 ≡ false =
        fs.access_tells b third.1
        ∙ (fs.keeps_access a b).same second.1
        ∙ joins_keep C O fs d b w
        ∙ no_b in
      ground (arith, e, f, no_a', no_b')

  check_keeps :
      (p d : Bytes) (w : C.World)
      → fs.present (status_is C O is_missing_store (hybrid_key_store_status C O (some d)) w).1 p
        ≡ fs.present w p
  check_keeps p d w =
      (status_is_keeps C O fs p (hybrid_key_store_status C O (some d))
          (status_keeps C O fs p (some d))).same
        w

  save_files_works :
      (steady : IsSteady C) (d : Bytes) (k : HybridPrivateKey C.Key) (q : HybridPublicKey C.Key)
      (pair : KeyPair C k q) (text : Bytes) (w : C.World)
      → (0 < length d) × (length d < 4096)
      → passphrase_valid (some text) ≡ true
      → fs.present w (path_in d sm2_file) ≡ false
      → fs.present w (path_in d dilithium_file) ≡ false
      → (save_files C O (some d) k q (some text) w).0 ≡ some tt
  unfolding save_files
  save_files_works steady d k q pair text w fits valid no_a no_b =
      let a = path_in d sm2_file in
      let b = path_in d dilithium_file in
      let first = join_path C O (some d) sm2_file w in
      let second = join_path C O (some d) dilithium_file first.1 in
      let e =
        joined_path C O fs d sm2_file w steady.malloc_steady fits (omega arith, omega arith) in
      let f =
        joined_path C O fs d dilithium_file first.1 steady.malloc_steady fits
          (omega arith, omega arith) in
      rw (e, f)
        (save_at_works C O fs works steady a b k q pair.private_pkey text second.1 (paths_differ d)
          pair.has_private valid pair.dilithium.pk_length pair.dilithium.sk_length
          (joins_keep C O fs d a w ∙ no_a) (joins_keep C O fs d b w ∙ no_b))

  both_or_neither-absent : (x y : Bool) → both_or_neither x y ≡ missing → (x ≡ false) × (y ≡ false)
  both_or_neither-absent x y h = ground arith

  -- Where the calls of the system succeed, the two keys belong together, the passphrase is valid,
  -- the directory is private and its name of ordinary length, a save into a store without keys
  -- succeeds and leaves it complete.
  pub hybrid_key_store_save_works :
      (steady : IsSteady C) (d : Bytes) (k : HybridPrivateKey C.Key) (q : HybridPublicKey C.Key)
      (pair : KeyPair C k q) (text : Bytes) (w : C.World)
      → (0 < length d) × (length d < 4096)
      → passphrase_valid (some text) ≡ true
      → IsSafe d
      → view C O fs d w ≡ missing
      → let r = hybrid_key_store_save C O (some d) (some k) (some q) (some text) w in
        (r.0 ≡ some tt) × (view C O fs d r.1 ≡ complete)
  unfolding hybrid_key_store_save
  hybrid_key_store_save_works steady d k q pair text w fits valid safe empty =
      let a = path_in d sm2_file in
      let b = path_in d dilithium_file in
      let (no_a, no_b) = both_or_neither-absent (fs.present w a) (fs.present w b) empty in
      let test : Prog C.World (Unit {0}) = keypair_self_test C O k q in
      let ensure : Prog C.World (Unit {0}) = ensure_private_directory C O (some d) in
      let check : Prog C.World (Unit {0}) =
        status_is C O is_missing_store (hybrid_key_store_status C O (some d)) in
      let w2 = (test w).1 in
      let w3 = (ensure w2).1 in
      let w4 = (check w3).1 in
      let at3 : (name : Bytes) → fs.present w3 (path_in d name) ≡ fs.present w (path_in d name) =
        λ name.
          (ensure_keeps C O fs d (path_in d name) (directory_differs d name)).same w2
          ∙ (self_test_keeps C O fs (path_in d name) k q).same w in
      let tested = self_test_works steady k q pair w in
      let ensured = ensure_works d w2 fits.0 safe in
      let checked =
        check_works steady d w3 fits (at3 sm2_file ∙ no_a) (at3 dilithium_file ∙ no_b) in
      let at4 : (name : Bytes) → fs.present w4 (path_in d name) ≡ fs.present w3 (path_in d name) =
        λ name. check_keeps (path_in d name) d w3 in
      let files =
        save_files_works steady d k q pair text w4 fits valid (at4 sm2_file ∙ at3 sm2_file ∙ no_a)
          (at4 dilithium_file ∙ at3 dilithium_file ∙ no_b) in
      let done : (hybrid_key_store_save C O (some d) (some k) (some q) (some text) w).0 ≡ some tt =
        is_some-tt _ (
          >>=-works (guard (passphrase_valid (some text))) _ w (rw valid refl) λ _ _.
            >>=-works test _ _ (rw valid (ap is_some tested)) λ _ _.
              >>=-works ensure _ _ (rw valid (ap is_some ensured)) λ _ _.
                >>=-works check _ _ (rw valid (ap is_some checked))
                  λ _ _. rw valid (ap is_some files)) in
      (
        done,
        saved_is_complete (view C O fs d w) _ (
            subst
              (λ r. Step false (view C O fs d w) (is_some r) (
                view C O fs d
                  (hybrid_key_store_save C O (some d) (some k) (some q) (some text) w).1))
              done
              (hybrid_key_store_save-Step C O fs false d (some k) (some q) (some text) w may_stay)),
      )
