-- ===== src/KeyFile/Gcm.antt =====
-- The two sequences of EVP calls on the encrypted file of the Dilithium2 key.
use hybrid_pqc_cert.Prelude.{
  ◌≡◌, ◌≢◌, sym, ◌∙◌, ap, some, Bytes, length, arith, AlwaysReturns, guard, pure, ◌>>=◌, ◌>>◌, ◌==◌,
  Bool-cases, inl, inr, bytes_eq, bytes_eq→eq, bytes_eq_refl,
}
use hybrid_pqc_cert.Crypto.{Crypto}
use hybrid_pqc_cert.Os.{Os}
use hybrid_pqc_cert.Os.Gcm.{IsGcm, selected, encrypting, decrypting, tagged}
use hybrid_pqc_cert.KeyFile.{store_header_bytes, store_plaintext_bytes, gcm_encrypt, gcm_decrypt}

module _ (C : Crypto) (O : Os C) (gcm : IsGcm C O) where
  -- Encryption gives the ciphertext and the tag of GCM.
  pub gcm_encrypt_lem :
      (key iv aad text : Bytes)
      → length key ≡ 32
      → length iv ≡ 12
      → length aad ≡ store_header_bytes
      → length text ≡ store_plaintext_bytes
      → AlwaysReturns
          (gcm_encrypt C O key iv aad text)
          (gcm.gctr key iv text, gcm.gcm_tag key iv aad (gcm.gctr key iv text))
  unfolding gcm_encrypt
  gcm_encrypt_lem key iv aad text k i h l w =
      let (c0, e0, s0) = gcm.new w in
      let w0 = (O.cipher_ctx_new w).1 in
      let (c1, e1, s1) = gcm.selects_encrypt c0 s0 w0 in
      let w1 = (O.encrypt_init c0 w0).1 in
      let (c2, e2, s2) = gcm.sizes 12 c1 encrypting 12 (omega arith) (omega arith) s1 w1 in
      let w2 = (O.gcm_set_ivlen 12 c1 w1).1 in
      let (c3, e3, s3) = gcm.keys_encrypt key iv c2 k (s2 ∙ ap (selected encrypting) (sym i)) w2 in
      let w3 = (O.encrypt_init_key key iv c2 w2).1 in
      let (c4, e4, s4) = gcm.authenticates_encrypt aad c3 (omega (arith, h)) s3 w3 in
      let w4 = (O.encrypt_update_aad aad c3 w3).1 in
      let ((c5, out), e5, (o5, s5)) = gcm.encrypts text c4 (omega (arith, l)) s4 w4 in
      let w5 = (O.encrypt_update text c4 w4).1 in
      let ((c6, rest), e6, (o6, s6)) = gcm.ends_encrypt c5 s5 w5 in
      let w6 = (O.encrypt_final c5 w5).1 in
      let (tag, e7, o7) = gcm.tags c6 s6 w6 in
      let n : length out ≡ store_plaintext_bytes = ap length o5 ∙ gcm.gctr_length key iv text ∙ l in
      ground (arith, e0, e1, e2, e3, e4, e5, n, e6, o6, e7, o5, o7)

  -- Up to its last call, decryption succeeds with any tag of 16 bytes.
  decrypt_until_final :
      (key iv aad c tag : Bytes) (w : C.World)
      → length key ≡ 32
      → length iv ≡ 12
      → length aad ≡ store_header_bytes
      → length c ≡ store_plaintext_bytes
      → length tag ≡ 16
      → (d : O.Cipher) × (v : C.World) × (gcm.context d ≡ tagged key iv aad c tag)
        × ((gcm_decrypt C O key iv aad c tag w).0
            ≡ ((do
              (ended, rest) ← O.decrypt_final d
              guard (length rest == 0)
              pure (gcm.gctr key iv c))
                v).0)
  unfolding gcm_decrypt
  decrypt_until_final key iv aad c tag w k i h l m =
      let (c0, e0, s0) = gcm.new w in
      let w0 = (O.cipher_ctx_new w).1 in
      let (c1, e1, s1) = gcm.selects_decrypt c0 s0 w0 in
      let w1 = (O.decrypt_init c0 w0).1 in
      let (c2, e2, s2) = gcm.sizes 12 c1 decrypting 12 (omega arith) (omega arith) s1 w1 in
      let w2 = (O.gcm_set_ivlen 12 c1 w1).1 in
      let (c3, e3, s3) = gcm.keys_decrypt key iv c2 k (s2 ∙ ap (selected decrypting) (sym i)) w2 in
      let w3 = (O.decrypt_init_key key iv c2 w2).1 in
      let (c4, e4, s4) = gcm.authenticates_decrypt aad c3 (omega (arith, h)) s3 w3 in
      let w4 = (O.decrypt_update_aad aad c3 w3).1 in
      let ((c5, out), e5, (o5, s5)) = gcm.decrypts c c4 (omega (arith, l)) s4 w4 in
      let w5 = (O.decrypt_update c c4 w4).1 in
      let (c6, e6, s6) = gcm.expects tag c5 m s5 w5 in
      let n : length out ≡ store_plaintext_bytes = ap length o5 ∙ gcm.gctr_length key iv c ∙ l in
      (c6, (O.gcm_set_tag tag c5 w5).1, s6, ground (arith, e0, e1, e2, e3, e4, e5, n, e6, o5))

  -- Decryption gives the text of a ciphertext with its tag.
  pub gcm_decrypt_lem :
      (key iv aad c : Bytes)
      → length key ≡ 32
      → length iv ≡ 12
      → length aad ≡ store_header_bytes
      → length c ≡ store_plaintext_bytes
      → AlwaysReturns (gcm_decrypt C O key iv aad c (gcm.gcm_tag key iv aad c)) (gcm.gctr key iv c)
  gcm_decrypt_lem key iv aad c k i h l w =
      let (d, v, s, r) =
        decrypt_until_final key iv aad c (gcm.gcm_tag key iv aad c) w k i h l
          (gcm.gcm_tag_length key iv aad c) in
      let ((d1, rest), e, o) = gcm.accepts d s v in ground (arith, r, e, o)

  -- Decryption with another tag fails.
  pub gcm_decrypt-tag :
      (key iv aad c tag : Bytes) (w : C.World) {text : Bytes}
      → length key ≡ 32
      → length iv ≡ 12
      → length aad ≡ store_header_bytes
      → length c ≡ store_plaintext_bytes
      → length tag ≡ 16
      → (gcm_decrypt C O key iv aad c tag w).0 ≡ some text
      → (tag ≡ gcm.gcm_tag key iv aad c) × (text ≡ gcm.gctr key iv c)
  gcm_decrypt-tag key iv aad c tag w k i a l m h =
      let (d, v, s, r) = decrypt_until_final key iv aad c tag w k i a l m in
      let right = gcm.gcm_tag key iv aad c in
      elim (Bool-cases (bytes_eq tag right)) [
        | inl e ↦ (bytes_eq→eq tag right e, ground (arith, r))
        | inr e ↦
            let wrong : tag ≢ right = λ same. ground (arith, e, same, bytes_eq_refl right) in
            absurd (ground (arith, r, gcm.rejects d v s wrong))
      ]
