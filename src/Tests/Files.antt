-- ===== src/Tests/Files.antt =====
-- The theorems on the file of the Dilithium2 key at one disk.
use hybrid_pqc_cert.Prelude.{
  ℕ, ◌≡◌, refl, true, Option, some, [], ◌++◌, Bytes, codes, take, drop, length, bytes_eq, CanReturn,
  replicate, length-replicate, AlwaysReturns, arith,
}
use hybrid_pqc_cert.KeyFile.{
  plaintext_magic, store_magic, store_iterations, store_header_bytes, store_plaintext_bytes,
  store_file_bytes, get_u32_be, gcm_decrypt, header, write_all, derive_encryption_key, gcm_encrypt,
  encrypt_dilithium_payload, decrypt_dilithium_payload,
}
use hybrid_pqc_cert.KeyFile.Laws.{decrypt_dilithium_payload-encrypt}
use hybrid_pqc_cert.KeyFile.Authentic.{decrypt_dilithium_payload-tag}
use hybrid_pqc_cert.KeyFile.Loops.{write_all-appends, write_all_total}
use hybrid_pqc_cert.Tests.ToyDisk.{Disk, disk, disk_crypto, disk-IsStore, disk-IsOutput}

abbrev text : Bytes
text = codes "ten bytes."

abbrev empty : Disk
empty = record { content = []; paths = [] }

written : (write_all disk_crypto disk tt text empty).0 ≡ true
unfolding write_all take drop
written = refl

write_all-appends_example : ((write_all disk_crypto disk tt text empty).1).content ≡ [] ++ text
write_all-appends_example = write_all-appends disk_crypto disk tt disk-IsOutput text empty written

write_all_total_example : (write_all disk_crypto disk tt text empty).0 ≡ true
write_all_total_example = write_all_total disk_crypto disk tt (λ x buf w. omega arith) text empty

abbrev secret : Bytes
secret = replicate 2560 2

abbrev public : Bytes
public = replicate 1312 1

abbrev phrase : Option Bytes
phrase = some (codes "correct horse")

abbrev stored : Bytes
stored =
    header disk_crypto disk (replicate 16 7) (replicate 12 7)
    ++ (plaintext_magic ++ public ++ secret)
    ++ replicate 16 44

encrypted : (encrypt_dilithium_payload disk_crypto disk secret public phrase empty).0 ≡ some stored
unfolding encrypt_dilithium_payload derive_encryption_key gcm_encrypt replicate
encrypted = refl

decrypt_dilithium_payload-encrypt_example :
    AlwaysReturns (decrypt_dilithium_payload disk_crypto disk stored phrase) (public, secret)
decrypt_dilithium_payload-encrypt_example =
    decrypt_dilithium_payload-encrypt disk_crypto disk disk-IsStore secret public phrase empty
      (length-replicate {A = ℕ} 1312 1) (length-replicate {A = ℕ} 2560 2) encrypted

decrypted :
    (decrypt_dilithium_payload disk_crypto disk stored phrase empty).0 ≡ some (public, secret)
unfolding decrypt_dilithium_payload derive_encryption_key gcm_decrypt take drop replicate bytes_eq
decrypted = refl

stored-length : length stored ≡ store_file_bytes
unfolding replicate
stored-length = refl

decrypt_dilithium_payload-tag_example :
    let salt = take 16 (drop 12 stored) in
    let iv = take 12 (drop 28 stored) in
    let aad = take store_header_bytes stored in
    let body = drop store_header_bytes stored in
    let c = take store_plaintext_bytes body in
    (key : Bytes) × CanReturn (derive_encryption_key disk_crypto disk phrase salt) key
    × (take 8 stored ≡ store_magic)
    × (get_u32_be (take 4 (drop 8 stored)) ≡ store_iterations)
    × (get_u32_be (take 4 (drop 40 stored)) ≡ store_plaintext_bytes)
    × (drop store_plaintext_bytes body ≡ disk-IsStore.gcm.gcm_tag key iv aad c)
    × (take 8 (disk-IsStore.gcm.gctr key iv c) ≡ plaintext_magic)
decrypt_dilithium_payload-tag_example =
    decrypt_dilithium_payload-tag disk_crypto disk disk-IsStore stored phrase empty stored-length
      decrypted
