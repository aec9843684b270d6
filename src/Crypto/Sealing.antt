-- ===== src/Crypto/Sealing.antt =====
-- seal and open of crypto.go: opening reverses sealing, and every error of both.
use easy_host_k8s.Prelude.{
  ℕ, zero, suc, ◌+◌, ◌≤◌, ◌≡◌, refl, true, false, ◌++◌, Bytes, length, take, drop, ltb, ok, arith,
  is_empty, is_empty-of_pos, take-append_length, drop-append_length, ap, subst, length-append,
}
use easy_host_k8s.Crypto.{
  Primitives, IsSound, Entropy, draw, rand_read, opened, seal, open_sealed, nonce_len, encrypt_file,
  decrypt_file, file_aad,
}

pub length-draw : (byte_at : ℕ → ℕ) (pos n : ℕ) → length (draw byte_at pos n) ≡ n
unfolding draw
length-draw byte_at pos zero = refl
length-draw byte_at pos (suc n) = ap suc (length-draw byte_at (pos + 1) n)

-- A read that succeeds fills the slice.
pub length-rand_read :
    (n : ℕ) (e : Entropy) {b : Bytes} {e' : Entropy} → rand_read n e ≡ (ok b, e') → length b ≡ n
unfolding rand_read
length-rand_read n e h = ground (arith, length-draw e.byte_at e.pos n)

module _ (p : Primitives) where
  -- What was sealed is a nonce and a ciphertext, under a key that the cipher accepts.
  pub seal-eq-ok :
      (key aad plaintext : Bytes) (e : Entropy) {sealed : Bytes} {e' : Entropy}
      → seal p key aad plaintext e ≡ (ok sealed, e')
      → (p.accepts_key key ≡ true)
        × (sealed
            ≡ draw e.byte_at e.pos nonce_len
              ++ p.aead_seal key (draw e.byte_at e.pos nonce_len) plaintext aad)
  unfolding seal rand_read
  seal-eq-ok key aad plaintext e h = ground arith

  -- Opening splits the nonce off again.
  pub open_sealed-append :
      (key aad nonce ciphertext : Bytes)
      → p.accepts_key key ≡ true
      → length nonce ≡ nonce_len
      → p.overhead ≤ length ciphertext
      → open_sealed p key aad (nonce ++ ciphertext) ≡ opened (p.aead_open key nonce ciphertext aad)
  unfolding open_sealed
  open_sealed-append key aad nonce ciphertext k n c =
      let front : take nonce_len (nonce ++ ciphertext) ≡ nonce =
        subst (λ (m : ℕ). take m (nonce ++ ciphertext) ≡ nonce) n
          (take-append_length nonce ciphertext) in
      let back : drop nonce_len (nonce ++ ciphertext) ≡ ciphertext =
        subst (λ (m : ℕ). drop m (nonce ++ ciphertext) ≡ ciphertext) n
          (drop-append_length nonce ciphertext) in
      let long : ltb (length (nonce ++ ciphertext)) (nonce_len + p.overhead) ≡ false =
        ground (arith, length-append nonce ciphertext) in
      rw (k, long, front, back)

module _ (p : Primitives) (sound : IsSound p) where
  -- What opens a sealed payload is decided by the cipher alone, whatever key and data are tried.
  pub open_sealed-seal :
      (key aad plaintext other other_aad : Bytes) (e : Entropy) {sealed : Bytes} {e' : Entropy}
      → seal p key aad plaintext e ≡ (ok sealed, e')
      → p.accepts_key other ≡ true
      → open_sealed p other other_aad sealed
        ≡ opened (
            p.aead_open other
              (draw e.byte_at e.pos nonce_len)
              (p.aead_seal key (draw e.byte_at e.pos nonce_len) plaintext aad)
              other_aad)
  open_sealed-seal key aad plaintext other other_aad e h k =
      let nonce = draw e.byte_at e.pos nonce_len in
      rw ((seal-eq-ok p key aad plaintext e h).1) (
        open_sealed-append p other other_aad nonce (p.aead_seal key nonce plaintext aad) k
          (length-draw e.byte_at e.pos nonce_len)
          (sound.overhead-le-length key nonce plaintext aad))

  -- Opening under the same key and associated data gives back what was sealed.
  pub open_sealed-seal_self :
      (key aad plaintext : Bytes) (e : Entropy) {sealed : Bytes} {e' : Entropy}
      → seal p key aad plaintext e ≡ (ok sealed, e')
      → open_sealed p key aad sealed ≡ ok plaintext
  open_sealed-seal_self key aad plaintext e h = rw (
    open_sealed-seal key aad plaintext key aad e h (seal-eq-ok p key aad plaintext e h).0,
    sound.aead_open-aead_seal key (draw e.byte_at e.pos nonce_len) plaintext aad,
  )

  -- With sound primitives, a file payload that was encrypted at a slug and path is decrypted
  -- there to the same bytes.
  pub decrypt_file-encrypt_file :
      (dek slug path plaintext : Bytes) (e : Entropy) {sealed : Bytes} {e' : Entropy}
      → encrypt_file p dek slug path plaintext e ≡ (ok sealed, e')
      → decrypt_file p dek slug path sealed ≡ ok plaintext
  unfolding encrypt_file decrypt_file
  decrypt_file-encrypt_file dek slug path plaintext e h =
      rw (open_sealed-seal_self dek (file_aad slug path) plaintext e h)

-- A sealed payload is not empty: it has its nonce.
pub seal-is_empty :
    (p : Primitives) (key aad plaintext : Bytes) (e : Entropy) {sealed : Bytes} {e' : Entropy}
    → seal p key aad plaintext e ≡ (ok sealed, e')
    → is_empty sealed ≡ false
seal-is_empty p key aad plaintext e {sealed} h =
    let nonce = draw e.byte_at e.pos nonce_len in
    let ciphertext = p.aead_seal key nonce plaintext aad in
    is_empty-of_pos sealed (
      omega (
        arith,
        ap (λ (l : Bytes). length l) (seal-eq-ok p key aad plaintext e h).1,
        length-append nonce ciphertext,
        length-draw e.byte_at e.pos nonce_len,
      ))
