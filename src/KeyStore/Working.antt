-- ===== src/KeyStore/Working.antt =====
-- Each file of the store is saved on a system whose calls succeed.
use hybrid_pqc_cert.Prelude.{
  ℕ, ◌<◌, ◌≡◌, refl, ◌∙◌, ap, inl, inr, true, false, Option, some, Bytes, ◌++◌, ◌∷◌, length,
  length-append, arith, Prog, ◌>>=◌, or_cleanup-cases, is_some, AlwaysReturns, Option-cases,
}
use hybrid_pqc_cert.Crypto.{Crypto, Pkey}
use hybrid_pqc_cert.Crypto.Laws.{IsSteady}
use hybrid_pqc_cert.KeyFile.Laws.{IsStore, derive_length, length-header}
use hybrid_pqc_cert.KeyFile.Gcm.{gcm_encrypt_lem}
use hybrid_pqc_cert.Os.{Os}
use hybrid_pqc_cert.Os.Laws.{IsFileSystem}
use hybrid_pqc_cert.CompositeKey.{HybridPrivateKey, HybridPublicKey}
use hybrid_pqc_cert.KeyStore.Keeps.{encrypt_keeps}
use hybrid_pqc_cert.Prelude.{◌≢◌}
use hybrid_pqc_cert.KeyStore.Files.{save_sm2_elsewhere}
use hybrid_pqc_cert.KeyFile.{
  plaintext_magic, store_iterations, passphrase_valid, store_file_bytes, write_all,
  derive_encryption_key, gcm_encrypt, encrypt_dilithium_payload,
}
use hybrid_pqc_cert.KeyFile.Loops.{write_all_total}
use hybrid_pqc_cert.KeyStore.Save.{
  write_stream, write_file, save_sm2_private_key, make_dilithium_file, save_dilithium_private_key,
  save_at,
}

-- File and cipher calls that do not fail, and a write that takes a byte at least.
pub record Works (C : Crypto) (O : Os C) (fs : IsFileSystem C O) : Type 0 where
  pub open_new_works :
      (p : Bytes) (w : C.World) → fs.present w p ≡ false → is_some (O.open_new p w).0 ≡ true
  pub fdopen_works : (fd : O.Descriptor) (w : C.World) → is_some (O.fdopen fd w).0 ≡ true
  pub pem_write_works :
      (f : O.Stream) (k : C.Key) (text : Bytes)
      → AlwaysReturns (O.pem_write_private_key f k text) tt
  pub fflush_works : (f : O.Stream) → AlwaysReturns (O.fflush f) tt
  pub fsync_stream_works : (f : O.Stream) → AlwaysReturns (O.fsync_stream f) tt
  pub fclose_works : (f : O.Stream) → AlwaysReturns (O.fclose f) tt
  pub progress :
      (fd : O.Descriptor) (x : ℕ) (buf : Bytes) (w : C.World) → 0 < (O.write fd (x ∷ buf) w).0
  pub fsync_works : (fd : O.Descriptor) → AlwaysReturns (O.fsync fd) tt
  pub close_works : (fd : O.Descriptor) → AlwaysReturns (O.close fd) tt
  pub rand_works : (n : ℕ) (w : C.World) → is_some (O.rand_bytes n w).0 ≡ true
  pub pbkdf2_works : (t s : Bytes) (n : ℕ) (w : C.World) → is_some (O.pbkdf2 t s n w).0 ≡ true
  -- Random bytes, the derived key and AES-256-GCM are as documented.
  pub store : IsStore C O

-- A sequence succeeds where each of its calls does.
pub >>=-works :
    {W A B : Type 0} (m : Prog W A) (f : A → Prog W B) (w : W)
    → is_some (m w).0 ≡ true
    → ((a : A) → (m w).0 ≡ some a → is_some (f a (m w).1).0 ≡ true)
    → is_some ((m >>= f) w).0 ≡ true
>>=-works m f w h k = elim (Option-cases (m w).0) [
  | inl e ↦ absurd (ground arith)
  | inr (a, e) ↦ rw (e, ◌>>=◌) (k a e)
]

pub is_some-tt : (o : Option (Unit {0})) → is_some o ≡ true → o ≡ some tt
is_some-tt o h = ground arith

module _ (C : Crypto) (O : Os C) (fs : IsFileSystem C O) (works : Works C O fs) where
  write_stream_works :
      (fd : O.Descriptor) (k : C.Key) (text : Bytes) (w : C.World)
      → (write_stream C O fd k text w).0 ≡ some tt
  unfolding write_stream
  write_stream_works fd k text w = elim (Option-cases (O.fdopen fd w).0) [
    | inl e ↦ absurd (ground (arith, works.fdopen_works fd w))
    | inr (f, e) ↦
        let w1 = (O.fdopen fd w).1 in
        let w2 = (O.pem_write_private_key f k text w1).1 in
        let w3 = (O.fflush f w2).1 in
        let w4 = (O.fsync_stream f w3).1 in
        ground (
          arith,
          works.pem_write_works f k text w1,
          works.fflush_works f w2,
          works.fsync_stream_works f w3,
          works.fclose_works f w4,
        )
  ]

  save_sm2_works :
      (path : Bytes) (k : Pkey C.Key) (text : Bytes) (w : C.World)
      → passphrase_valid (some text) ≡ true
      → fs.present w path ≡ false
      → (save_sm2_private_key C O path (some k) (some text) w).0 ≡ some tt
  unfolding save_sm2_private_key
  save_sm2_works path k text w valid h = elim (Option-cases (O.open_new path w).0) [
    | inl e ↦ absurd (ground (arith, works.open_new_works path w h))
    | inr (fd, e) ↦ ground (arith, valid, e, write_stream_works fd k.key text (O.open_new path w).1)
  ]

  write_file_works :
      (fd : O.Descriptor) (file : Bytes) (w : C.World) → (write_file C O fd file w).0 ≡ some tt
  unfolding write_file
  write_file_works fd file w =
      let w1 = (write_all C O fd file w).1 in
      let w2 = (O.fsync fd w1).1 in
      ground (
        arith,
        write_all_total C O fd (works.progress fd) file w,
        works.fsync_works fd w1,
        works.close_works fd w2,
      )

  derive_works :
      (text salt : Bytes) (w : C.World)
      → passphrase_valid (some text) ≡ true
      → is_some (derive_encryption_key C O (some text) salt w).0 ≡ true
  unfolding derive_encryption_key
  derive_works text salt w valid =
      ground (arith, valid, works.pbkdf2_works text salt store_iterations w)

  encrypt_works :
      (sk pk text : Bytes) (w : C.World)
      → passphrase_valid (some text) ≡ true
      → length pk ≡ 1312
      → length sk ≡ 2560
      → is_some (encrypt_dilithium_payload C O sk pk (some text) w).0 ≡ true
  unfolding encrypt_dilithium_payload derive_encryption_key
  encrypt_works sk pk text w valid l m =
      >>=-works (O.rand_bytes 16) _ w (works.rand_works 16 w) λ salt es.
        >>=-works (O.rand_bytes 12) _ _ (works.rand_works 12 _) λ iv ei.
          >>=-works (derive_encryption_key C O (some text) salt) _ _
            (derive_works text salt _ valid)
            λ key ek.
              >>=-works (gcm_encrypt C O key iv _ (plaintext_magic ++ pk ++ sk)) _ _
                (ap is_some (
                  gcm_encrypt_lem C O works.store.gcm key iv _ (plaintext_magic ++ pk ++ sk)
                    (derive_length C O works.store (some text) salt _ ek)
                    (works.store.rand_length 12 _ ei)
                    (length-header C O salt iv (works.store.rand_length 16 _ es)
                      (works.store.rand_length 12 _ ei))
                    (omega (
                      arith,
                      l,
                      m,
                      length-append (plaintext_magic ++ pk) sk,
                      length-append plaintext_magic pk,
                    ))
                    _))
                λ c _. refl

  make_dilithium_works :
      (steady : IsSteady C) (path : Bytes) (k : HybridPrivateKey C.Key) (q : HybridPublicKey C.Key)
      (text : Bytes) (w : C.World)
      → passphrase_valid (some text) ≡ true
      → length q.dilithium_public_key ≡ 1312
      → length k.dilithium_secret_key ≡ 2560
      → fs.present w path ≡ false
      → is_some (make_dilithium_file C O path k q (some text) w).0 ≡ true
  unfolding make_dilithium_file
  make_dilithium_works steady path k q text w valid l m h =
      let w1 = (C.malloc store_file_bytes w).1 in
      >>=-works (C.malloc store_file_bytes) _ w
        (ap is_some (steady.malloc_steady store_file_bytes w))
        λ _ _.
          >>=-works
            (encrypt_dilithium_payload C O k.dilithium_secret_key q.dilithium_public_key
              (some text))
            _ w1 (encrypt_works k.dilithium_secret_key q.dilithium_public_key text w1 valid l m)
            λ file _.
              let w2 =
                (encrypt_dilithium_payload C O k.dilithium_secret_key q.dilithium_public_key
                  (some text) w1).1 in
              >>=-works (O.open_new path) _ w2
                (works.open_new_works path w2 (
                  (encrypt_keeps C O fs path k.dilithium_secret_key q.dilithium_public_key
                      (some text)).same
                    w1
                  ∙ (fs.crypto.keeps_malloc store_file_bytes path).same w
                  ∙ h))
                λ fd _. ap is_some (write_file_works fd file _)

  save_dilithium_works :
      (steady : IsSteady C) (path : Bytes) (k : HybridPrivateKey C.Key) (q : HybridPublicKey C.Key)
      (text : Bytes) (w : C.World)
      → passphrase_valid (some text) ≡ true
      → length q.dilithium_public_key ≡ 1312
      → length k.dilithium_secret_key ≡ 2560
      → fs.present w path ≡ false
      → (save_dilithium_private_key C O path k q (some text) w).0 ≡ some tt
  unfolding save_dilithium_private_key
  save_dilithium_works steady path k q text w valid l m h =
      let made = make_dilithium_works steady path k q text w valid l m h in
      let make : Prog C.World (Unit {0}) = make_dilithium_file C O path k q (some text) in
      elim (or_cleanup-cases make (O.unlink path) w) [
        | inl (e, _) ↦ absurd (ground arith)
        | inr (u, e, r) ↦ ap (λ x. x.0) r
      ]

  pub save_at_works :
      (steady : IsSteady C) (a b : Bytes) (k : HybridPrivateKey C.Key) (q : HybridPublicKey C.Key)
      (pkey : Pkey C.Key) (text : Bytes) (w : C.World)
      → a ≢ b
      → k.sm2_private_key ≡ some pkey
      → passphrase_valid (some text) ≡ true
      → length q.dilithium_public_key ≡ 1312
      → length k.dilithium_secret_key ≡ 2560
      → fs.present w a ≡ false
      → fs.present w b ≡ false
      → (save_at C O (some a) (some b) k q (some text) w).0 ≡ some tt
  unfolding save_at
  save_at_works steady a b k q pkey text w n has valid l m no_a no_b =
      let first : (save_sm2_private_key C O a k.sm2_private_key (some text) w).0 ≡ some tt =
        rw has (save_sm2_works a pkey text w valid no_a) in
      let w1 = (save_sm2_private_key C O a k.sm2_private_key (some text) w).1 in
      let still : fs.present w1 b ≡ false =
        (save_sm2_elsewhere C O fs a k.sm2_private_key (some text) b n).same w ∙ no_b in
      let second = save_dilithium_works steady b k q text w1 valid l m still in
      ground (arith, first, second)
