-- ===== src/Crypto/Binding.antt =====
-- The associated data of crypto.go: each ciphertext is bound to one slug, or to one slug and path.
use easy_host_k8s.Prelude.{
  ℕ, ◌^◌, ◌<◌, ◌≡◌, refl, ◌++◌, ok, err, corrupted, auth_failed, ◌≢◌, true, Option-cases, inl, inr,
  Bytes, codes, length, arith, append_inj, append_left_cancel,
}
use easy_host_k8s.Crypto.{
  Primitives, IsSound, IsAuthentic, Entropy, draw, nonce_len, dek_aad, file_aad, put_uint64,
  encrypt_file, decrypt_file, seal, open_sealed,
}
use easy_host_k8s.Crypto.Sealing.{seal-eq-ok, open_sealed-seal}

length-put_uint64 : (n : ℕ) → length (put_uint64 n) ≡ 8
unfolding put_uint64
length-put_uint64 n = refl

put_uint64_inj : (n m : ℕ) → n < 2 ^ 64 → m < 2 ^ 64 → put_uint64 n ≡ put_uint64 m → n ≡ m
unfolding put_uint64
put_uint64_inj n m hn hm e = ground arith

-- A wrapped data key is bound to its slug.
pub dek_aad_inj : (slug other : Bytes) → dek_aad slug ≡ dek_aad other → slug ≡ other
unfolding dek_aad
dek_aad_inj slug other e = cc

-- The lengths written before them keep a slug and a path apart: with lengths that fit 64 bits, no two
-- pairs of a slug and a path have the same associated data.
pub file_aad_inj :
    (slug other path other_path : Bytes)
    → length slug < 2 ^ 64
    → length other < 2 ^ 64
    → file_aad slug path ≡ file_aad other other_path
    → (slug ≡ other) × (path ≡ other_path)
unfolding file_aad
file_aad_inj slug other path other_path hs ho e =
    let tails : put_uint64 (length slug) ++ (slug ++ (put_uint64 (length path) ++ path))
        ≡ put_uint64 (length other) ++ (other ++ (put_uint64 (length other_path) ++ other_path)) =
      append_left_cancel (codes "easy-host/file/v1|") e in
    let (lengths, rest) =
      append_inj (put_uint64 (length slug)) (put_uint64 (length other)) refl tails in
    let (slugs, more) =
      append_inj slug other (put_uint64_inj (length slug) (length other) hs ho lengths) rest in
    let (_, paths) =
      append_inj (put_uint64 (length path)) (put_uint64 (length other_path)) refl more in
    (slugs, paths)

module _ (p : Primitives) (sound : IsSound p) (authentic : IsAuthentic p) where
  -- A sealed payload does not open with other associated data.
  pub open_sealed-other_aad :
      (key aad other plaintext : Bytes) (e : Entropy) {sealed : Bytes} {e' : Entropy}
      → seal p key aad plaintext e ≡ (ok sealed, e')
      → aad ≢ other
      → open_sealed p key other sealed ≡ err auth_failed
  open_sealed-other_aad key aad other plaintext e h ne =
      let nonce = draw e.byte_at e.pos nonce_len in
      rw
        (open_sealed-seal p sound key aad plaintext key other e h
          (seal-eq-ok p key aad plaintext e h).0)
        (elim (Option-cases (p.aead_open key nonce (p.aead_seal key nonce plaintext aad) other)) [
          | inl none_opened ↦ rw none_opened
          | inr (out, e) ↦ absurd (ne (authentic.same_aad key nonce plaintext aad other e))
        ])

  -- Nor does it open under another key.
  pub open_sealed-other_key :
      (key other aad plaintext : Bytes) (e : Entropy) {sealed : Bytes} {e' : Entropy}
      → seal p key aad plaintext e ≡ (ok sealed, e')
      → p.accepts_key other ≡ true
      → key ≢ other
      → open_sealed p other aad sealed ≡ err auth_failed
  open_sealed-other_key key other aad plaintext e h k ne =
      let nonce = draw e.byte_at e.pos nonce_len in
      rw (open_sealed-seal p sound key aad plaintext other aad e h k)
        (elim (Option-cases (p.aead_open other nonce (p.aead_seal key nonce plaintext aad) aad)) [
          | inl none_opened ↦ rw none_opened
          | inr (out, e) ↦ absurd (ne (authentic.same_key key other nonce plaintext aad e))
        ])

  -- If the primitives are sound and the cipher is authentic, a file payload that was encrypted at
  -- one slug and path cannot be decrypted at another slug or another path: the attempt is
  -- reported as corrupted. The two slugs are shorter than 2 ^ 64 bytes.
  pub decrypt_file-moved :
      (dek slug other path other_path plaintext : Bytes) (e : Entropy) {sealed : Bytes}
      {e' : Entropy}
      → encrypt_file p dek slug path plaintext e ≡ (ok sealed, e')
      → length slug < 2 ^ 64
      → length other < 2 ^ 64
      → ¬ ((slug ≡ other) × (path ≡ other_path))
      → decrypt_file p dek other other_path sealed ≡ err corrupted
  unfolding encrypt_file decrypt_file
  decrypt_file-moved dek slug other path other_path plaintext e h hs ho ne = rw (
      open_sealed-other_aad dek (file_aad slug path) (file_aad other other_path) plaintext e h
        (λ same. ne (file_aad_inj slug other path other_path hs ho same)))
