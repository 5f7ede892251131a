-- ===== src/Tests/ToyDisk.antt =====
-- A disk: the paths of the files that are there, and the bytes of one that is open. A write takes
-- at most 2,000 bytes.
use Prim.Native.Nat.{min}
use hybrid_pqc_cert.Prelude.{
  ◌==◌, ℕ, ◌≡◌, ◌≢◌, refl, ◌∙◌, sym, Bool, true, false, ◌||◌, some, none, List, [], ◌∷◌, ◌++◌,
  Bytes, length, take, drop, replicate, length-replicate, bytes_eq, bytes_eq_refl, bytes_eq→eq,
  if◌then◌else◌, pure, arith, Bool-cases, inl, inr,
}
use hybrid_pqc_cert.Crypto.{Crypto, EcdsaSig}
use hybrid_pqc_cert.Os.{Os, found, absent, Stat, is_found}
use hybrid_pqc_cert.Os.Laws.{KeepsFiles, IsFileSystem, Removes}
use hybrid_pqc_cert.Prelude.{is_some}
use hybrid_pqc_cert.KeyStore.Working.{Works}
use hybrid_pqc_cert.KeyFile.{store_file_bytes}
use hybrid_pqc_cert.KeyFile.Laws.{IsStore}
use hybrid_pqc_cert.Os.Gcm.{IsGcm, Context, fresh, selected, keyed, encrypting, decrypting}
use hybrid_pqc_cert.Tests.ToyCipher.{
  toy_size, toy_authenticate, toy_run, toy_end, toy_tag, toy_get_tag, toy_expect, toy_check,
  toy_check-right, toy_check-wrong,
}
use hybrid_pqc_cert.KeyFile.Loops.{IsOutput}
use hybrid_pqc_cert.Tests.Toy.{toy_in, toy_sm2_key}

pub record Disk : Type 0 where
  pub content : Bytes
  pub paths : List Bytes

unfoldable pub has_path : List Bytes → Bytes → Bool
has_path [] p = false
has_path (q ∷ qs) p = bytes_eq q p || has_path qs p

-- The list without a path.
unfoldable pub without : Bytes → List Bytes → List Bytes
without p [] = []
without p (q ∷ qs) = let rest = without p qs in if bytes_eq q p then rest else q ∷ rest

abbrev pub disk_crypto : Crypto
disk_crypto = toy_in Disk

unfoldable pub has_slash : Bytes → Bool
has_slash [] = false
has_slash (x ∷ p) = x == 47 || has_slash p

-- A path with a slash is that of a file, and one without that of a directory.
abbrev toy_stat : Bytes → Stat
toy_stat p =
    if has_slash p
    then record {
      is_directory = false;
      is_regular = true;
      is_link = false;
      permissions = 384;
      size = store_file_bytes;
    }
    else record {
      is_directory = true;
      is_regular = false;
      is_link = false;
      permissions = 448;
      size = 0;
    }

abbrev pub disk : Os disk_crypto
disk = record {
  Descriptor = Unit {0};
  Stream = Unit {0};
  Cipher = Context;
  lstat = λ p w. (found (toy_stat p), w);
  access = λ p w. (if has_path w.paths p then found tt else absent, w);
  mkdir = λ p. pure tt;
  open_new =
      λ p w. if has_path w.paths p then (none, w) else (some tt, record w { paths = p ∷ w.paths });
  open_read = λ p. pure tt;
  write = λ fd buf w.
      (min 2000 (length buf), record w { content = w.content ++ take (min 2000 (length buf)) buf });
  read = λ fd n w. (take n w.content, record w { content = drop n w.content });
  fsync = λ fd. pure tt;
  close = λ fd. pure tt;
  unlink = λ p w. record w { paths = without p w.paths };
  fdopen = λ fd. pure tt;
  fopen = λ p. pure tt;
  fflush = λ f. pure tt;
  fsync_stream = λ f. pure tt;
  fclose = λ f. pure tt;
  pem_write_private_key = λ f k text. pure tt;
  pem_read_private_key = λ f callback. pure toy_sm2_key;
  evp_pkey_private_check = λ k. pure tt;
  rand_bytes = λ n. pure (replicate n 7);
  pbkdf2 = λ text salt n. pure (replicate 32 (length text));
  cipher_ctx_new = pure fresh;
  encrypt_init = λ c. pure (selected encrypting 12);
  decrypt_init = λ c. pure (selected decrypting 12);
  gcm_set_ivlen = λ n c. pure (toy_size n c);
  encrypt_init_key = λ k i c. pure (keyed encrypting k i []);
  decrypt_init_key = λ k i c. pure (keyed decrypting k i []);
  encrypt_update_aad = λ b c. pure (toy_authenticate encrypting b c);
  decrypt_update_aad = λ b c. pure (toy_authenticate decrypting b c);
  encrypt_update = λ b c. pure (toy_run encrypting b c);
  decrypt_update = λ b c. pure (toy_run decrypting b c);
  encrypt_final = λ c. pure (toy_end c);
  decrypt_final = λ c. toy_check c;
  gcm_get_tag = λ n c. pure (toy_get_tag n c);
  gcm_set_tag = λ b c. pure (toy_expect b c);
}

abbrev pub disk-IsOutput : IsOutput disk_crypto disk tt
disk-IsOutput = record { file = λ w. w.content; writes = λ buf w. (omega arith, refl) }

disk-IsGcm : IsGcm disk_crypto disk
disk-IsGcm = record {
  context = λ c. c;
  gctr = λ key iv b. b;
  gcm_tag = λ key iv aad b. toy_tag 16 aad;
  gctr_twice = λ key iv b. refl;
  gctr_length = λ key iv b. refl;
  gcm_tag_length = λ key iv aad b. length-replicate {A = ℕ} 16 (length aad);
  new = λ w. (fresh, refl, refl);
  selects_encrypt = λ c e w. (selected encrypting 12, refl, refl);
  selects_decrypt = λ c e w. (selected decrypting 12, refl, refl);
  sizes = λ n c way m l k e w. (toy_size n c, refl, rw e refl);
  keys_encrypt = λ key iv c l e w. (keyed encrypting key iv [], refl, refl);
  keys_decrypt = λ key iv c l e w. (keyed decrypting key iv [], refl, refl);
  authenticates_encrypt =
      λ b c {key} {iv} {aad} l e w. (toy_authenticate encrypting b c, refl, rw e refl);
  authenticates_decrypt =
      λ b c {key} {iv} {aad} l e w. (toy_authenticate decrypting b c, refl, rw e refl);
  encrypts = λ b c {key} {iv} {aad} l e w. (toy_run encrypting b c, refl, (refl, rw e refl));
  decrypts = λ b c {key} {iv} {aad} l e w. (toy_run decrypting b c, refl, (refl, rw e refl));
  ends_encrypt = λ c {key} {iv} {aad} {b} e w. (toy_end c, refl, (refl, rw e refl));
  tags = λ c {key} {iv} {aad} {b} e w. (toy_get_tag 16 c, refl, rw e refl);
  expects = λ tag c {key} {iv} {aad} {b} l e w. (toy_expect tag c, refl, rw e refl);
  accepts = λ c {key} {iv} {aad} {b} e w. ((c, []), toy_check-right Disk c w e, refl);
  rejects = λ c {key} {iv} {aad} {b} {tag} w e n. toy_check-wrong Disk c w e n;
}

pub disk-IsStore : IsStore disk_crypto disk
disk-IsStore = record {
  rand_length = λ n w {r} e.
      let same : replicate n 7 ≡ r = ground arith in rw (← same) (length-replicate {A = ℕ} n 7);
  pbkdf2_steady = λ text salt n v w. refl;
  pbkdf2_length = λ text salt n w {key} e.
      let same : replicate 32 (length text) ≡ key = ground arith in
      rw (← same) (length-replicate {A = ℕ} 32 (length text));
  gcm = disk-IsGcm;
}

has_path-without : (p : Bytes) (l : List Bytes) → has_path (without p l) p ≡ false
unfolding has_path without
has_path-without p [] = refl
has_path-without p (q ∷ l) = ground (arith, has_path-without p l)

has_path-elsewhere :
    (p q : Bytes) (l : List Bytes) → p ≢ q → has_path (without p l) q ≡ has_path l q
unfolding has_path without
has_path-elsewhere p q [] n = refl
has_path-elsewhere p q (r ∷ l) n = elim (Bool-cases (bytes_eq r p)) [
  | inl e ↦ elim (Bool-cases (bytes_eq r q)) [
    | inl f ↦ absurd (n (sym (bytes_eq→eq r p e) ∙ bytes_eq→eq r q f))
    | inr f ↦ ground (arith, has_path-elsewhere p q l n)
  ]
  | inr e ↦ ground (arith, has_path-elsewhere p q l n)
]

unfoldable pub disk_present : Disk → Bytes → Bool
disk_present w p = has_path w.paths p

disk_access : (p : Bytes) (w : Disk) → is_found (disk.access p w).0 ≡ disk_present w p
unfolding disk_present
disk_access p w = ground arith

disk_open_fails :
    (p q : Bytes) (w : Disk)
    → (disk.open_new p w).0 ≡ none
    → disk_present (disk.open_new p w).1 q ≡ disk_present w q
unfolding disk_present
disk_open_fails p q w e = ground arith

disk_open_creates :
    (p : Bytes) (w : Disk) {fd : Unit {0}}
    → (disk.open_new p w).0 ≡ some fd
    → (disk_present w p ≡ false) × (disk_present (disk.open_new p w).1 p ≡ true)
unfolding disk_present has_path
disk_open_creates p w e = (ground arith, ground (arith, bytes_eq_refl p))

disk_open_keeps :
    (p q : Bytes) (w : Disk) → p ≢ q → disk_present (disk.open_new p w).1 q ≡ disk_present w q
unfolding disk_present has_path
disk_open_keeps p q w n = elim (Bool-cases (bytes_eq p q)) [
  | inl e ↦ absurd (n (bytes_eq→eq p q e))
  | inr e ↦ ground arith
]

disk_d2i_keeps :
    (b p : Bytes) (w : Disk) → disk_present (disk_crypto.d2i_ecdsa_sig b w).1 p ≡ disk_present w p
disk_d2i_keeps [] p w = refl
disk_d2i_keeps (r ∷ []) p w = refl
disk_d2i_keeps (r ∷ s ∷ b) p w = refl

disk_i2d_keeps :
    (s : EcdsaSig) (p : Bytes) (w : Disk)
    → disk_present (disk_crypto.i2d_ecdsa_sig s w).1 p ≡ disk_present w p
disk_i2d_keeps s p w = ground arith

disk_verify_keeps :
    (k u m s p : Bytes) (w : Disk)
    → disk_present (disk_crypto.evp_digest_verify k u m s w).1 p ≡ disk_present w p
disk_verify_keeps k u m s p w = ground arith

disk-KeepsFiles : KeepsFiles disk_crypto disk_present
disk-KeepsFiles = record {
  keeps_malloc = λ a0 p. record { same = λ w. refl };
  keeps_sm3 = λ a0 p. record { same = λ w. refl };
  keeps_d2i = λ a0 p. record { same = disk_d2i_keeps a0 p };
  keeps_i2d = λ a0 p. record { same = disk_i2d_keeps a0 p };
  keeps_dilithium = λ a0 a1 p. record { same = λ w. refl };
  keeps_md_ctx = λ p. record { same = λ w. refl };
  keeps_sign_init = λ a0 p. record { same = λ w. refl };
  keeps_verify_init = λ a0 p. record { same = λ w. refl };
  keeps_set1_id = λ a0 p. record { same = λ w. refl };
  keeps_sign_size = λ a0 a1 a2 p. record { same = λ w. refl };
  keeps_sign = λ a0 a1 a2 a3 p. record { same = λ w. refl };
  keeps_verify = λ a0 a1 a2 a3 p. record { same = disk_verify_keeps a0 a1 a2 a3 p };
}

pub disk-IsFileSystem : IsFileSystem disk_crypto disk
unfolding disk_present
disk-IsFileSystem = record {
  present = disk_present;
  access_tells = λ p w. disk_access p w;
  open_new_fails = λ p w e q. disk_open_fails p q w e;
  open_new_creates = λ p w {fd} e. disk_open_creates p w e;
  open_new_keeps = λ p q n. record { same = λ w. disk_open_keeps p q w n };
  unlink_keeps = λ p q w n. has_path-elsewhere p q w.paths n;
  crypto = disk-KeepsFiles;
  mkdir_keeps = λ p q n. record { same = λ w. refl };
  keeps_lstat = λ a0 p. record { same = λ w. refl };
  keeps_access = λ a0 p. record { same = λ w. refl };
  keeps_write = λ a0 a1 p. record { same = λ w. refl };
  keeps_fsync = λ a0 p. record { same = λ w. refl };
  keeps_close = λ a0 p. record { same = λ w. refl };
  keeps_fdopen = λ a0 p. record { same = λ w. refl };
  keeps_fflush = λ a0 p. record { same = λ w. refl };
  keeps_fsync_stream = λ a0 p. record { same = λ w. refl };
  keeps_fclose = λ a0 p. record { same = λ w. refl };
  keeps_pem_write = λ a0 a1 a2 p. record { same = λ w. refl };
  keeps_rand = λ a0 p. record { same = λ w. refl };
  keeps_pbkdf2 = λ a0 a1 a2 p. record { same = λ w. refl };
  keeps_cipher_new = λ p. record { same = λ w. refl };
  keeps_encrypt_init = λ a0 p. record { same = λ w. refl };
  keeps_ivlen = λ a0 a1 p. record { same = λ w. refl };
  keeps_init_key = λ a0 a1 a2 p. record { same = λ w. refl };
  keeps_aad = λ a0 a1 p. record { same = λ w. refl };
  keeps_update = λ a0 a1 p. record { same = λ w. refl };
  keeps_final = λ a0 p. record { same = λ w. refl };
  keeps_tag = λ a0 a1 p. record { same = λ w. refl };
}

disk_opens :
    (p : Bytes) (w : Disk) → disk_present w p ≡ false → is_some (disk.open_new p w).0 ≡ true
unfolding disk_present
disk_opens p w h = ground arith

pub disk-Works : Works disk_crypto disk disk-IsFileSystem
unfolding disk-IsFileSystem
disk-Works = record {
  open_new_works = disk_opens;
  fdopen_works = λ fd w. refl;
  pem_write_works = λ f k text w. refl;
  fflush_works = λ f w. refl;
  fsync_stream_works = λ f w. refl;
  fclose_works = λ f w. refl;
  progress = λ fd x buf w. omega arith;
  fsync_works = λ fd w. refl;
  close_works = λ fd w. refl;
  rand_works = λ n w. refl;
  pbkdf2_works = λ t s n w. refl;
  store = disk-IsStore;
}

pub disk_blank :
    (b p : Bytes) → disk-IsFileSystem.present (record { content = b; paths = [] }) p ≡ false
unfolding disk-IsFileSystem disk_present has_path
disk_blank b p = refl

pub disk-Removes : (p : Bytes) → Removes disk_crypto disk disk-IsFileSystem p
unfolding disk-IsFileSystem disk_present
disk-Removes p w = has_path-without p w.paths
