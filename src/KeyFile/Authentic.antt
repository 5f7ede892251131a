-- ===== src/KeyFile/Authentic.antt =====
-- What is decrypted from the file of the Dilithium2 key carries the right tag.
use hybrid_pqc_cert.Prelude.{
  ◌≡◌, sym, ap, ◌∙◌, Option, some, Bytes, arith, length, take, drop, CanReturn, Option-cases, inl,
  inr, bytes_eq→eq, length-drop, length-take,
}
use hybrid_pqc_cert.Crypto.{Crypto}
use hybrid_pqc_cert.Os.{Os}
use hybrid_pqc_cert.KeyFile.Gcm.{gcm_decrypt-tag}
use hybrid_pqc_cert.KeyFile.{
  store_magic, plaintext_magic, store_iterations, store_header_bytes, store_plaintext_bytes,
  store_file_bytes, get_u32_be, derive_encryption_key, gcm_decrypt, decrypt_dilithium_payload,
}
use hybrid_pqc_cert.KeyFile.Laws.{IsStore, derive_length, take_all}

module _ (C : Crypto) (O : Os C) (store : IsStore C O) where
  -- With memory to spare and EVP as documented: a buffer of the size of the file that is decrypted
  -- to two keys has the right identification, number of iterations and length, and its last 16 bytes
  -- are the tag of the whole header and the ciphertext, under the key that the passphrase and the
  -- salt in the header give.
  pub decrypt_dilithium_payload-tag :
      (input : Bytes) (passphrase : Option Bytes) (w : C.World) {pk sk : Bytes}
      → length input ≡ store_file_bytes
      → (decrypt_dilithium_payload C O input passphrase w).0 ≡ some (pk, sk)
      → let salt = take 16 (drop 12 input) in
        let iv = take 12 (drop 28 input) in
        let aad = take store_header_bytes input in
        let body = drop store_header_bytes input in
        let c = take store_plaintext_bytes body in
        (key : Bytes) × CanReturn (derive_encryption_key C O passphrase salt) key
        × (take 8 input ≡ store_magic)
        × (get_u32_be (take 4 (drop 8 input)) ≡ store_iterations)
        × (get_u32_be (take 4 (drop 40 input)) ≡ store_plaintext_bytes)
        × (drop store_plaintext_bytes body ≡ store.gcm.gcm_tag key iv aad c)
        × (take 8 (store.gcm.gctr key iv c) ≡ plaintext_magic)
  unfolding decrypt_dilithium_payload
  decrypt_dilithium_payload-tag input passphrase w {pk} {sk} l h =
      let salt = take 16 (drop 12 input) in
      let iv = take 12 (drop 28 input) in
      let aad = take store_header_bytes input in
      let body = drop store_header_bytes input in
      let c = take store_plaintext_bytes body in
      let tag = take 16 (drop store_plaintext_bytes body) in
      let rest_length : length (drop store_plaintext_bytes body) ≡ 16 =
        omega (
          arith,
          l,
          length-drop store_plaintext_bytes body,
          length-drop store_header_bytes input,
        ) in
      let iv_length : length iv ≡ 12 =
        omega (arith, l, length-take 12 (drop 28 input), length-drop 28 input) in
      let aad_length : length aad ≡ store_header_bytes =
        omega (arith, l, length-take store_header_bytes input) in
      let c_length : length c ≡ store_plaintext_bytes =
        omega (
          arith,
          l,
          length-take store_plaintext_bytes body,
          length-drop store_header_bytes input,
        ) in
      let whole : tag ≡ drop store_plaintext_bytes body =
        take_all 16 (drop store_plaintext_bytes body) rest_length in
      let d = derive_encryption_key C O passphrase salt w in
      elim (Option-cases d.0) [
        | inl e ↦ absurd (ground arith)
        | inr (key, e) ↦ elim (Option-cases (gcm_decrypt C O key iv aad c tag d.1).0) [
          | inl f ↦ absurd (ground arith)
          | inr (text, f) ↦
              let (tag_is, text_is) =
                gcm_decrypt-tag C O store.gcm key iv aad c tag d.1
                  (derive_length C O store passphrase salt w e) iv_length aad_length c_length
                  (ap length whole ∙ rest_length) f in
              (
                key,
                (w, e),
                bytes_eq→eq (take 8 input) store_magic (ground arith),
                ground arith,
                ground arith,
                sym whole ∙ tag_is,
                ap (take 8) (sym text_is)
                    ∙ bytes_eq→eq (take 8 text) plaintext_magic (ground arith),
              )
        ]
      ]
