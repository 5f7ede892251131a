-- ===== src/Tests/ToyCipher.antt =====
-- Contexts for AES-256-GCM whose cipher hides nothing, and whose tag tells the length of what was
-- authenticated. The calls do not look at the world.
use hybrid_pqc_cert.Prelude.{
  ℕ, ◌≡◌, ◌≢◌, refl, true, false, some, none, [], ◌++◌, Bytes, length, replicate, bytes_eq,
  bytes_eq_refl, bytes_eq→eq, if◌then◌else◌, Prog, Bool-cases, inl, inr,
}
use hybrid_pqc_cert.Os.Gcm.{
  Context, fresh, selected, keyed, running, ended, tagged, Direction, encrypting, decrypting,
}

abbrev way_of : Context → Direction
way_of fresh = encrypting
way_of (selected way n) = way
way_of (keyed way key iv aad) = way
way_of (running way key iv aad b) = way
way_of (ended key iv aad b) = encrypting
way_of (tagged key iv aad b tag) = decrypting

abbrev key_of : Context → Bytes
key_of fresh = []
key_of (selected way n) = []
key_of (keyed way key iv aad) = key
key_of (running way key iv aad b) = key
key_of (ended key iv aad b) = key
key_of (tagged key iv aad b tag) = key

abbrev iv_of : Context → Bytes
iv_of fresh = []
iv_of (selected way n) = []
iv_of (keyed way key iv aad) = iv
iv_of (running way key iv aad b) = iv
iv_of (ended key iv aad b) = iv
iv_of (tagged key iv aad b tag) = iv

abbrev aad_of : Context → Bytes
aad_of fresh = []
aad_of (selected way n) = []
aad_of (keyed way key iv aad) = aad
aad_of (running way key iv aad b) = aad
aad_of (ended key iv aad b) = aad
aad_of (tagged key iv aad b tag) = aad

abbrev text_of : Context → Bytes
text_of fresh = []
text_of (selected way n) = []
text_of (keyed way key iv aad) = []
text_of (running way key iv aad b) = b
text_of (ended key iv aad b) = b
text_of (tagged key iv aad b tag) = b

abbrev tag_of : Context → Bytes
tag_of fresh = []
tag_of (selected way n) = []
tag_of (keyed way key iv aad) = []
tag_of (running way key iv aad b) = []
tag_of (ended key iv aad b) = []
tag_of (tagged key iv aad b tag) = tag

abbrev pub toy_size : ℕ → Context → Context
toy_size n c = selected (way_of c) n

abbrev pub toy_authenticate : Direction → Bytes → Context → Context
toy_authenticate way b c = keyed way (key_of c) (iv_of c) (aad_of c ++ b)

abbrev pub toy_run : Direction → Bytes → Context → Context × Bytes
toy_run way b c = (running way (key_of c) (iv_of c) (aad_of c) b, b)

abbrev pub toy_end : Context → Context × Bytes
toy_end c = (ended (key_of c) (iv_of c) (aad_of c) (text_of c), [])

abbrev pub toy_tag : ℕ → Bytes → Bytes
toy_tag n aad = replicate n (length aad)

abbrev pub toy_get_tag : ℕ → Context → Bytes
toy_get_tag n c = toy_tag n (aad_of c)

abbrev pub toy_expect : Bytes → Context → Context
toy_expect tag c = tagged (key_of c) (iv_of c) (aad_of c) (text_of c) tag

abbrev pub toy_check : {W : Type 0} → Context → Prog W (Context × Bytes)
toy_check c w = (if bytes_eq (tag_of c) (toy_get_tag 16 c) then some (c, []) else none, w)

pub toy_check-right :
    (W : Type 0) (c : Context) {key iv aad b : Bytes} (w : W)
    → c ≡ tagged key iv aad b (toy_tag 16 aad)
    → (toy_check c w).0 ≡ some (c, [])
toy_check-right W c {key} {iv} {aad} {b} w e =
    let same : bytes_eq (tag_of c) (toy_get_tag 16 c) ≡ true =
      rw e (bytes_eq_refl (toy_tag 16 aad)) in
    rw same refl

pub toy_check-wrong :
    (W : Type 0) (c : Context) {key iv aad b tag : Bytes} (w : W)
    → c ≡ tagged key iv aad b tag
    → tag ≢ toy_tag 16 aad
    → (toy_check c w).0 ≡ none
toy_check-wrong W c {key} {iv} {aad} {b} {tag} w e n =
    elim (Bool-cases (bytes_eq tag (toy_tag 16 aad))) [
      | inl f ↦ absurd (n (bytes_eq→eq tag (toy_tag 16 aad) f))
      | inr f ↦ let other : bytes_eq (tag_of c) (toy_get_tag 16 c) ≡ false = rw e f in rw other refl
    ]
