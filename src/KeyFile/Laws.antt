-- ===== src/KeyFile/Laws.antt =====
-- The file of the Dilithium2 key is written whole, and read back as it was written.
use hybrid_pqc_cert.Prelude.{
  ℕ, ◌^◌, ◌<◌, ◌≡◌, refl, sym, ap, ◌∙◌, Option, some, none, ◌++◌, [], Bytes, arith, length, take,
  drop, CanReturn, AlwaysReturns, Option-cases, inl, inr, take-append, drop-append, length-append,
  append_assoc, append-nil, bytes_eq,
}
use hybrid_pqc_cert.Crypto.{Crypto}
use hybrid_pqc_cert.Os.{Os}
use hybrid_pqc_cert.Os.Gcm.{IsGcm}
use hybrid_pqc_cert.KeyFile.Gcm.{gcm_encrypt_lem, gcm_decrypt_lem}
use hybrid_pqc_cert.Crypto.Laws.{Agree}
use hybrid_pqc_cert.Dilithium.{public_key_bytes, secret_key_bytes}
use hybrid_pqc_cert.KeyFile.{
  store_magic, plaintext_magic, store_iterations, store_header_bytes, store_plaintext_bytes,
  put_u32_be, get_u32_be, derive_encryption_key, header, gcm_encrypt, gcm_decrypt,
  encrypt_dilithium_payload, decrypt_dilithium_payload,
}

-- A big-endian field holds every value of 32 bits.
get_u32_be-put : (value : ℕ) → value < 2 ^ 32 → get_u32_be (put_u32_be value) ≡ value
get_u32_be-put value l = omega arith

between :
    (a b c : Bytes) (n m : ℕ) → length a ≡ n → length b ≡ m → take m (drop n (a ++ (b ++ c))) ≡ b
between a b c n m l k = rw (drop-append n a (b ++ c) l) (take-append m b c k)

-- Documented behaviour: lengths, a derivation that depends on its arguments alone, and the calls on
-- contexts for AES-256-GCM.
pub record IsStore (C : Crypto) (O : Os C) : Type 0 where
  pub rand_length : (n : ℕ) (w : C.World) {r : Bytes} → (O.rand_bytes n w).0 ≡ some r → length r ≡ n
  pub pbkdf2_steady : (text salt : Bytes) (n : ℕ) → Agree (O.pbkdf2 text salt n)
  pub pbkdf2_length :
      (text salt : Bytes) (n : ℕ) (w : C.World) {key : Bytes}
      → (O.pbkdf2 text salt n w).0 ≡ some key
      → length key ≡ 32
  pub gcm : IsGcm C O

module _ (C : Crypto) (O : Os C) where
  gcm_encrypt-length :
      (key iv aad text : Bytes) (w : C.World) {c t : Bytes}
      → (gcm_encrypt C O key iv aad text w).0 ≡ some (c, t)
      → length c ≡ store_plaintext_bytes
  unfolding gcm_encrypt
  gcm_encrypt-length key iv aad text w h = ground arith

  -- What an encrypted file is made of.
  encrypt_layout :
      (sk pk : Bytes) (passphrase : Option Bytes) (w : C.World) {out : Bytes}
      → (encrypt_dilithium_payload C O sk pk passphrase w).0 ≡ some out
      → (salt : Bytes) × (iv : Bytes) × (key : Bytes) × (c : Bytes) × (t : Bytes) × CanReturn
          (O.rand_bytes 16)
          salt
        × CanReturn (O.rand_bytes 12) iv
        × CanReturn (derive_encryption_key C O passphrase salt) key
        × CanReturn
            (gcm_encrypt C O key iv (header C O salt iv) (plaintext_magic ++ pk ++ sk))
            (c, t)
        × (length c ≡ store_plaintext_bytes)
        × (out ≡ header C O salt iv ++ c ++ t)
  unfolding encrypt_dilithium_payload
  encrypt_layout sk pk passphrase w h = elim (Option-cases (O.rand_bytes 16 w).0) [
    | inl e ↦ absurd (ground arith)
    | inr (salt, e) ↦
        let w1 = (O.rand_bytes 16 w).1 in
        elim (Option-cases (O.rand_bytes 12 w1).0) [
          | inl f ↦ absurd (ground arith)
          | inr (iv, f) ↦
              let w2 = (O.rand_bytes 12 w1).1 in
              let d = derive_encryption_key C O passphrase salt w2 in
              elim (Option-cases d.0) [
                | inl g ↦ absurd (ground arith)
                | inr (key, g) ↦
                    let r =
                      gcm_encrypt C O key iv (header C O salt iv) (plaintext_magic ++ pk ++ sk)
                        d.1 in
                    elim (Option-cases r.0) [
                      | inl k ↦ absurd (ground arith)
                      | inr ((c, t), k) ↦ (
                        salt,
                        iv,
                        key,
                        c,
                        t,
                        (w, e),
                        (w1, f),
                        (w2, g),
                        (d.1, k),
                        gcm_encrypt-length key iv (header C O salt iv) (plaintext_magic ++ pk ++ sk)
                            d.1 k,
                        ground arith,
                      )
                    ]
              ]
        ]
  ]

regroup :
    (m p s i q c t : Bytes)
    → ((m ++ p ++ s ++ i ++ q) ++ c ++ t ≡ m ++ (p ++ (s ++ i ++ q ++ c ++ t)))
      × ((m ++ p ++ s ++ i ++ q) ++ c ++ t ≡ (m ++ p) ++ (s ++ (i ++ q ++ c ++ t)))
      × ((m ++ p ++ s ++ i ++ q) ++ c ++ t ≡ (m ++ p ++ s) ++ (i ++ (q ++ c ++ t)))
      × ((m ++ p ++ s ++ i ++ q) ++ c ++ t ≡ (m ++ p ++ s ++ i) ++ (q ++ (c ++ t)))
regroup m p s i q c t = (simp append_assoc, simp append_assoc, simp append_assoc, simp append_assoc)

pub take_all : (n : ℕ) (b : Bytes) → length b ≡ n → take n b ≡ b
take_all n b l = ap (λ x. take n x) (sym (append-nil b)) ∙ take-append n b [] l

module _ (C : Crypto) (O : Os C) where
  -- Decryption of a file whose parts are known.
  decrypt_lem :
      (out salt iv aad c t key : Bytes) (passphrase : Option Bytes) (sk pk : Bytes) (v : C.World)
      → length pk ≡ public_key_bytes
      → length sk ≡ secret_key_bytes
      → take 8 out ≡ store_magic
      → take 4 (drop 8 out) ≡ put_u32_be store_iterations
      → take 4 (drop 40 out) ≡ put_u32_be store_plaintext_bytes
      → take 16 (drop 12 out) ≡ salt
      → take 12 (drop 28 out) ≡ iv
      → take store_header_bytes out ≡ aad
      → take store_plaintext_bytes (drop store_header_bytes out) ≡ c
      → take 16 (drop store_plaintext_bytes (drop store_header_bytes out)) ≡ t
      → (derive_encryption_key C O passphrase salt v).0 ≡ some key
      → AlwaysReturns (gcm_decrypt C O key iv aad c t) (plaintext_magic ++ pk ++ sk)
      → (decrypt_dilithium_payload C O out passphrase v).0 ≡ some (pk, sk)
  unfolding decrypt_dilithium_payload bytes_eq
  decrypt_lem out salt iv aad c t key passphrase sk pk v l m e1 e2 e3 e4 e5 e6 e7 e8 k d =
      let text : Bytes = plaintext_magic ++ pk ++ sk in
      let same : text ≡ plaintext_magic ++ (pk ++ sk) = append_assoc plaintext_magic pk sk in
      let front : take 8 text ≡ plaintext_magic =
        rw same (take-append 8 plaintext_magic (pk ++ sk) refl) in
      let back : drop 8 text ≡ pk ++ sk = rw same (drop-append 8 plaintext_magic (pk ++ sk) refl) in
      let pk_is : take public_key_bytes (drop 8 text) ≡ pk =
        rw back (take-append public_key_bytes pk sk l) in
      let sk_is : take secret_key_bytes (drop public_key_bytes (drop 8 text)) ≡ sk =
        rw (back, drop-append public_key_bytes pk sk l) (take_all secret_key_bytes sk m) in
      rw
        (
          e1,
          e2,
          e3,
          e4,
          e5,
          e6,
          e7,
          e8,
          k,
          d (derive_encryption_key C O passphrase salt v).1,
          front,
          pk_is,
          sk_is,
        )
        refl

module _ (C : Crypto) (O : Os C) where
  front_length :
      (salt iv : Bytes)
      → length salt ≡ 16
      → length iv ≡ 12
      → length (store_magic ++ put_u32_be store_iterations ++ salt ++ iv) ≡ 40
  front_length salt iv l m =
      let p = put_u32_be store_iterations in
      omega (
        arith,
        l,
        m,
        length-append (store_magic ++ p) salt,
        length-append (store_magic ++ p ++ salt) iv,
      )

  pub length-header :
      (salt iv : Bytes)
      → length salt ≡ 16
      → length iv ≡ 12
      → length (header C O salt iv) ≡ store_header_bytes
  length-header salt iv l m = omega (
    arith,
    front_length salt iv l m,
    length-append (store_magic ++ put_u32_be store_iterations ++ salt ++ iv)
        (put_u32_be store_plaintext_bytes),
  )

module _ (C : Crypto) (O : Os C) (store : IsStore C O) where
  derive_steady :
      (passphrase : Option Bytes) (salt : Bytes) → Agree (derive_encryption_key C O passphrase salt)
  unfolding derive_encryption_key
  derive_steady none salt v w = ground arith
  derive_steady (some text) salt v w =
      ground (arith, store.pbkdf2_steady text salt store_iterations v w)

  pub derive_length :
      (passphrase : Option Bytes) (salt : Bytes) (w : C.World) {key : Bytes}
      → (derive_encryption_key C O passphrase salt w).0 ≡ some key
      → length key ≡ 32
  unfolding derive_encryption_key
  derive_length none salt w h = absurd (ground arith)
  derive_length (some text) salt w {key} h =
      store.pbkdf2_length text salt store_iterations w (ground arith)

  -- With memory to spare and EVP as documented: a file that was encrypted under a passphrase, for
  -- keys of the right lengths, is decrypted under it, in any world, to the keys that were put in.
  pub decrypt_dilithium_payload-encrypt :
      (sk pk : Bytes) (passphrase : Option Bytes) (w : C.World) {out : Bytes}
      → length pk ≡ public_key_bytes
      → length sk ≡ secret_key_bytes
      → (encrypt_dilithium_payload C O sk pk passphrase w).0 ≡ some out
      → AlwaysReturns (decrypt_dilithium_payload C O out passphrase) (pk, sk)
  decrypt_dilithium_payload-encrypt sk pk passphrase w {out} l m h v =
      let (salt, iv, key, c, t, rs, ri, rk, re, n, o) = encrypt_layout C O sk pk passphrase w h in
      let p = put_u32_be store_iterations in
      let q = put_u32_be store_plaintext_bytes in
      let ls = store.rand_length 16 rs.0 rs.1 in
      let li = store.rand_length 12 ri.0 ri.1 in
      let gcm = store.gcm in
      let text : Bytes = plaintext_magic ++ pk ++ sk in
      let lk = derive_length passphrase salt rk.0 rk.1 in
      let long : length text ≡ store_plaintext_bytes =
        omega (
          arith,
          l,
          m,
          length-append (plaintext_magic ++ pk) sk,
          length-append plaintext_magic pk,
        ) in
      let whole = length-header C O salt iv ls li in
      let made = gcm_encrypt_lem C O gcm key iv (header C O salt iv) text lk li whole long re.0 in
      let c_is : gcm.gctr key iv text ≡ c = ground (arith, re.1, made) in
      let t_is : gcm.gcm_tag key iv (header C O salt iv) c ≡ t = ground (arith, re.1, made) in
      let lt : length t ≡ 16 =
        ap length (sym t_is) ∙ gcm.gcm_tag_length key iv (header C O salt iv) c in
      let text_back : gcm.gctr key iv c ≡ text =
        ap (gcm.gctr key iv) (sym c_is) ∙ gcm.gctr_twice key iv text in
      let opened : AlwaysReturns (gcm_decrypt C O key iv (header C O salt iv) c t) text =
        rw (← t_is, ← text_back)
          (gcm_decrypt_lem C O gcm key iv (header C O salt iv) c lk li whole n) in
      let (at_front, at_salt, at_iv, at_length) = regroup store_magic p salt iv q c t in
      let salt_is : take 16 (drop 12 out) ≡ salt =
        rw (o, at_salt) (between (store_magic ++ p) salt (iv ++ q ++ c ++ t) 12 16 refl ls) in
      let iv_is : take 12 (drop 28 out) ≡ iv =
        rw (o, at_iv)
          (between (store_magic ++ p ++ salt) iv (q ++ c ++ t) 28 12
            (omega (arith, ls, length-append (store_magic ++ p) salt)) li) in
      let front = front_length C O salt iv ls li in
      let length_is : take 4 (drop 40 out) ≡ q =
        rw (o, at_length) (between (store_magic ++ p ++ salt ++ iv) q (c ++ t) 40 4 front refl) in
      let split : out ≡ header C O salt iv ++ (c ++ t) =
        o ∙ append_assoc (header C O salt iv) c t in
      let header_is : take store_header_bytes out ≡ header C O salt iv =
        rw split (take-append store_header_bytes (header C O salt iv) (c ++ t) whole) in
      let body_is : drop store_header_bytes out ≡ c ++ t =
        rw split (drop-append store_header_bytes (header C O salt iv) (c ++ t) whole) in
      let text_is : take store_plaintext_bytes (drop store_header_bytes out) ≡ c =
        rw body_is (take-append store_plaintext_bytes c t n) in
      let tag_is : take 16 (drop store_plaintext_bytes (drop store_header_bytes out)) ≡ t =
        rw (body_is, drop-append store_plaintext_bytes c t n) (take_all 16 t lt) in
      let front_is : take 8 out ≡ store_magic =
        rw (o, at_front) (take-append 8 store_magic (p ++ (salt ++ iv ++ q ++ c ++ t)) refl) in
      let iterations_is : take 4 (drop 8 out) ≡ p =
        rw (o, at_front) (between store_magic p (salt ++ iv ++ q ++ c ++ t) 8 4 refl refl) in
      decrypt_lem C O out salt iv (header C O salt iv) c t key passphrase sk pk v l m front_is
        iterations_is length_is salt_is iv_is header_is text_is tag_is
        (derive_steady passphrase salt v rk.0 ∙ rk.1) opened
