-- ===== src/KeyStore/Race.antt =====
-- Two saves at once: the second has checked the status before the first writes its files.
use hybrid_pqc_cert.Prelude.{
  ℕ, ◌+◌, ◌≡◌, refl, ◌∙◌, Bool, true, false, Option, some, none, Bytes, arith, is_some, length,
}
use hybrid_pqc_cert.Crypto.{Crypto}
use hybrid_pqc_cert.Os.{Os}
use hybrid_pqc_cert.Os.Laws.{IsFileSystem, Removes}
use hybrid_pqc_cert.CompositeKey.{HybridPrivateKey, HybridPublicKey}
use hybrid_pqc_cert.KeyStore.{
  Status, incomplete, complete, sm2_file, dilithium_file, both_or_neither, join_path,
}
use hybrid_pqc_cert.KeyStore.Save.{save_files, hybrid_key_store_save}
use hybrid_pqc_cert.KeyStore.Keeps.{join_keeps}
use hybrid_pqc_cert.KeyStore.Files.{save_at_present}
use mathlib.Core.Path.{subst}
use hybrid_pqc_cert.KeyStore.Machine.{Step, view, path_in, paths_differ, saved, may_stay}
use hybrid_pqc_cert.KeyStore.Step.{hybrid_key_store_save-Step}
use hybrid_pqc_cert.Prelude.{AlwaysReturns, ◌<◌}

-- Two files that are both there.
both_or_neither-complete : (a b : Bool) → both_or_neither a b ≡ complete → (a ≡ true) × (b ≡ true)
both_or_neither-complete a b h = ground arith

pub saved_is_complete : (s t : Status) → Step false s true t → t ≡ complete
saved_is_complete s t saved = refl

module _ (C : Crypto) (O : Os C) (fs : IsFileSystem C O) (d : Bytes) where
  pub joined_path :
      (name : Bytes) (w : C.World)
      → ((n : ℕ) → AlwaysReturns (C.malloc n) tt)
      → (0 < length d) × (length d < 4096)
      → (0 < length name) × (length name < 4096)
      → (join_path C O (some d) name w).0 ≡ some (path_in d name)
  unfolding join_path
  joined_path name w m d_fits name_fits = ground (arith, m (length d + length name + 2) w)

  -- What `hybrid_key_store_save` does after its check of the status, in a store that another save
  -- has filled since: it fails, and the store is left incomplete, the other's Dilithium2 key lost.
  -- Memory is assumed not to run out, the directory's name to be of ordinary length, and the file
  -- of the Dilithium2 key to be one that can be removed.
  pub save_files_race :
      (k : Option (HybridPrivateKey C.Key)) (q : Option (HybridPublicKey C.Key))
      (passphrase : Option Bytes) (k' : HybridPrivateKey C.Key) (q' : HybridPublicKey C.Key)
      (passphrase' : Option Bytes) (w : C.World)
      → ((n : ℕ) → AlwaysReturns (C.malloc n) tt)
      → (0 < length d) × (length d < 4096)
      → Removes C O fs (path_in d dilithium_file)
      → (hybrid_key_store_save C O (some d) k q passphrase w).0 ≡ some tt
      → let first = hybrid_key_store_save C O (some d) k q passphrase w in
        let second = save_files C O (some d) k' q' passphrase' first.1 in
        (view C O fs d first.1 ≡ complete)
        × (second.0 ≡ none)
        × (view C O fs d second.1 ≡ incomplete)
  unfolding save_files
  save_files_race k q passphrase k' q' passphrase' w m d_fits removes h =
      let first = hybrid_key_store_save C O (some d) k q passphrase w in
      let step : Step false (view C O fs d w) (is_some first.0) (view C O fs d first.1) =
        hybrid_key_store_save-Step C O fs false d k q passphrase w may_stay in
      let full : view C O fs d first.1 ≡ complete =
        saved_is_complete _ _
          (subst (λ r. Step false (view C O fs d w) (is_some r) (view C O fs d first.1)) h step) in
      let (sm2_there, _) =
        both_or_neither-complete (fs.present first.1 (path_in d sm2_file))
          (fs.present first.1 (path_in d dilithium_file)) full in
      let x = join_path C O (some d) sm2_file first.1 in
      let y = join_path C O (some d) dilithium_file x.1 in
      let e = joined_path sm2_file first.1 m d_fits (omega arith, omega arith) in
      let f = joined_path dilithium_file x.1 m d_fits (omega arith, omega arith) in
      let a = path_in d sm2_file in
      let there : fs.present y.1 a ≡ true =
        (join_keeps C O fs a (some d) dilithium_file).same x.1
        ∙ (join_keeps C O fs a (some d) sm2_file).same first.1
        ∙ sm2_there in
      let (fails, sm2_stays, dilithium_gone) =
        save_at_present C O fs a (path_in d dilithium_file) k' q' passphrase' y.1 (paths_differ d)
          removes there in
      (full, rw (e, f) fails, rw (e, f) (rw (sm2_stays, dilithium_gone) refl))
