-- ===== src/KeyStore/Keeps.antt =====
-- Which functions leave a path of the file system as it is: all but those that create and remove it.
use hybrid_pqc_cert.Prelude.{
  ℕ, zero, suc, ◌≡◌, refl, ◌∙◌, Bool, true, false, Option, some, none, Bytes, Slice, null, bytes,
  arith, Prog, ◌>>=◌, ◌>>◌, pure, guard, from_option, attempt, or_cleanup, length, drop,
  Option-cases, inl, inr,
}
use hybrid_pqc_cert.Prelude.Calls
use hybrid_pqc_cert.Crypto.{Crypto}
use hybrid_pqc_cert.Os.{Os}
use hybrid_pqc_cert.Os.Laws.{KeepsAt, IsFileSystem}
use hybrid_pqc_cert.KeyFile.{
  write_loop, write_all, derive_encryption_key, gcm_encrypt, encrypt_dilithium_payload,
}
use hybrid_pqc_cert.KeyStore.{
  sm2_file, dilithium_file, status_at, holds, join_path, hybrid_key_store_status,
}
use hybrid_pqc_cert.KeyStore.Save.{write_stream, write_file}

module _ {W : Type 0} {there : W → Bytes → Bool} {p : Bytes} where
  pub keeps_>>= :
      {A B : Type 0} {m : Prog W A} {f : A → Prog W B}
      → KeepsAt there p m
      → ((a : A) → KeepsAt there p (f a))
      → KeepsAt there p (m >>= f)
  keeps_>>= {A} {B} {m} {f} k l = record {
    same = λ w. elim (Option-cases (m w).0) [
      | inl e ↦ rw (e, ◌>>=◌) (k.same w)
      | inr (a, e) ↦ rw (e, ◌>>=◌) ((l a).same (m w).1 ∙ k.same w)
    ];
  }

  pub keeps_>> :
      {B : Type 0} {m : Prog W (Unit {0})} {k : Prog W B}
      → KeepsAt there p m
      → KeepsAt there p k
      → KeepsAt there p (m >> k)
  keeps_>> h l = keeps_>>= h (λ _. l)

  pub keeps_pure : {A : Type 0} {a : A} → KeepsAt there p (pure {W = W} a)
  keeps_pure = record { same = λ w. refl }

  pub keeps_guard : (b : Bool) → KeepsAt there p (guard {W = W} b)
  keeps_guard true = record { same = λ w. refl }
  keeps_guard false = record { same = λ w. refl }

  pub keeps_from_option : {A : Type 0} {o : Option A} → KeepsAt there p (from_option {W = W} o)
  keeps_from_option = record { same = λ w. refl }

  pub keeps_cleanup :
      {A B : Type 0} {m : Prog W A} {n : W → B × W}
      → KeepsAt there p m
      → KeepsAt there p n
      → KeepsAt there p (or_cleanup m (λ w. (n w).1))
  keeps_cleanup {A} {B} {m} {n} k l = record {
    same = λ w. elim (Option-cases (m w).0) [
      | inl e ↦ rw (e, or_cleanup) (l.same (m w).1 ∙ k.same w)
      | inr (a, e) ↦ rw (e, or_cleanup) (k.same w)
    ];
  }

  pub keeps_holds : {m : W → Bool × W} → KeepsAt there p m → KeepsAt there p (holds m)
  keeps_holds k = record { same = λ w. k.same w }

  pub keeps_attempt : {A : Type 0} {m : Prog W A} → KeepsAt there p m → KeepsAt there p (attempt m)
  keeps_attempt k = record { same = λ w. k.same w }

  pub keeps_present : (s : Slice) → KeepsAt there p (Calls.present {W = W} s)
  keeps_present (null n) = record { same = λ w. refl }
  keeps_present (bytes b) = record { same = λ w. refl }

pub ruleset keeping =
    (keeps_>>=, keeps_>>, keeps_pure, keeps_guard, keeps_from_option, keeps_holds, keeps_attempt)

module _ (C : Crypto) (O : Os C) (fs : IsFileSystem C O) (p : Bytes) where
  derive_keeps :
      (passphrase : Option Bytes) (salt : Bytes)
      → KeepsAt fs.present p (derive_encryption_key C O passphrase salt)
  unfolding derive_encryption_key
  derive_keeps passphrase salt = search (keeping, fs.keeps_pbkdf2)

  gcm_encrypt_keeps :
      (key iv aad text : Bytes) → KeepsAt fs.present p (gcm_encrypt C O key iv aad text)
  unfolding gcm_encrypt
  gcm_encrypt_keeps key iv aad text =
      search
        (
          keeping, fs.keeps_cipher_new, fs.keeps_encrypt_init, fs.keeps_ivlen, fs.keeps_init_key,
          fs.keeps_aad, fs.keeps_update, fs.keeps_final, fs.keeps_tag,
        )
        depth 15

  pub encrypt_keeps :
      (sk pk : Bytes) (passphrase : Option Bytes)
      → KeepsAt fs.present p (encrypt_dilithium_payload C O sk pk passphrase)
  unfolding encrypt_dilithium_payload
  encrypt_keeps sk pk passphrase =
      search (keeping, fs.keeps_rand, derive_keeps, gcm_encrypt_keeps) depth 15

  write_loop_keeps :
      (fd : O.Descriptor) (rounds : ℕ) (buf : Bytes) (w : C.World)
      → fs.present (write_loop C O fd rounds buf w).1 p ≡ fs.present w p
  unfolding write_loop
  write_loop_keeps fd zero buf w = refl
  write_loop_keeps fd (suc rounds) buf w =
      let r = O.write fd buf w in
      ground
        (arith, write_loop_keeps fd rounds (drop r.0 buf) r.1, (fs.keeps_write fd buf p).same w)

  write_all_keeps : (fd : O.Descriptor) (buf : Bytes) → KeepsAt fs.present p (write_all C O fd buf)
  unfolding write_all
  write_all_keeps fd buf = record { same = write_loop_keeps fd (length buf) buf }

  pub write_file_keeps :
      (fd : O.Descriptor) (file : Bytes) → KeepsAt fs.present p (write_file C O fd file)
  unfolding write_file
  write_file_keeps fd file =
      let written : KeepsAt fs.present p (do holds (write_all C O fd file); O.fsync fd) =
        search (keeping, write_all_keeps, fs.keeps_fsync) in
      keeps_>> (keeps_cleanup {n = O.close fd} written (fs.keeps_close fd p)) (fs.keeps_close fd p)

  pub write_stream_keeps :
      (fd : O.Descriptor) (k : C.Key) (text : Bytes)
      → KeepsAt fs.present p (write_stream C O fd k text)
  unfolding write_stream
  write_stream_keeps fd k text =
      keeps_>>= (keeps_cleanup {n = O.close fd} (fs.keeps_fdopen fd p) (fs.keeps_close fd p)) λ f.
        let written : KeepsAt fs.present p
            (do O.pem_write_private_key f k text; O.fflush f; O.fsync_stream f) =
          search (keeping, fs.keeps_pem_write, fs.keeps_fflush, fs.keeps_fsync_stream) in
        keeps_>> (keeps_cleanup {n = O.fclose f} written (fs.keeps_fclose f p))
          (fs.keeps_fclose f p)

  pub join_keeps :
      (directory : Option Bytes) (name : Bytes)
      → KeepsAt fs.present p (join_path C O directory name)
  unfolding join_path
  join_keeps directory name = search (keeping, fs.crypto.keeps_malloc) depth 15

  status_at_keeps :
      (sm2 dilithium : Option Bytes) → KeepsAt fs.present p (status_at C O sm2 dilithium)
  status_at_keeps none dilithium = record { same = λ w. refl }
  status_at_keeps (some a) none = record { same = λ w. refl }
  status_at_keeps (some a) (some b) = record {
    same = λ w. (fs.keeps_access b p).same (O.access a w).1 ∙ (fs.keeps_access a p).same w;
  }

  pub status_keeps :
      (directory : Option Bytes) → KeepsAt fs.present p (hybrid_key_store_status C O directory)
  unfolding hybrid_key_store_status
  status_keeps directory = record {
    same = λ w.
        let sm2 = join_path C O directory sm2_file w in
        let dilithium = join_path C O directory dilithium_file sm2.1 in
        (status_at_keeps sm2.0 dilithium.0).same dilithium.1
        ∙ (join_keeps directory dilithium_file).same sm2.1
        ∙ (join_keeps directory sm2_file).same w;
  }
