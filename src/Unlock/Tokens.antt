-- ===== src/Unlock/Tokens.antt =====
-- A token opens at its own slug until it expires, and at no other slug.
use easy_host_k8s.Prelude.{
  ℕ, ◌+◌, ◌^◌, ◌<◌, ◌≡◌, ◌≢◌, ◌++◌, Bytes, codes, length, leb, ◌==◌, if◌then◌else◌, ok, err, arith,
  Bool-cases, inl, inr, return, false, is_empty, is_empty→nil, some, [], sym, ap, ◌∙◌, >>=-eq-ok,
  append_left_cancel, length-append, take-append_length, drop-append_length, unlock_token,
}
use easy_host_k8s.Crypto.{Primitives, IsSound, IsAuthentic, Entropy, key_len, put_uint64, seal}
use easy_host_k8s.Crypto.Sealing.{open_sealed-seal_self, seal-is_empty}
use easy_host_k8s.Crypto.Binding.{open_sealed-other_aad}
use easy_host_k8s.Unlock.{Unlocker, unlock_aad, unix, uint64, seal_token, read_payload, open_token}

unlock_aad_inj : (slug other : Bytes) → unlock_aad slug ≡ unlock_aad other → slug ≡ other
unfolding unlock_aad
unlock_aad_inj slug other e = append_left_cancel (codes "easy-host/unlock/v1|") e

uint64-put_uint64 : (n : ℕ) → n < 2 ^ 64 → uint64 (put_uint64 n) ≡ n
unfolding uint64 put_uint64
uint64-put_uint64 n h = omega arith

-- What is sealed into a token, read back: its key until its expiry.
read_payload-put_uint64 :
    (now expiry : ℕ) (dek : Bytes)
    → length dek ≡ key_len
    → expiry < 2 ^ 63
    → read_payload now (ok (put_uint64 expiry ++ dek))
      ≡ (if leb expiry (unix now) then err unlock_token else ok dek)
unfolding put_uint64
read_payload-put_uint64 now expiry dek l h =
    rw
      (
        take-append_length (put_uint64 expiry) dek,
        drop-append_length (put_uint64 expiry) dek,
        uint64-put_uint64 expiry (omega arith),
      )
      (ground (arith, length-append (put_uint64 expiry) dek))

module _ (p : Primitives) (sound : IsSound p) (u : Unlocker) (minted : ℕ) (slug dek : Bytes)
    (e : Entropy) {token : Bytes} {e' : Entropy}
    (sealed_token : seal_token p u minted slug dek e ≡ (ok token, e')) where
  -- A token that was minted is the encoding of a sealed expiry and data key.
  seal-token-eq-ok :
      (length dek ≡ key_len)
      × ((sealed : Bytes) × (seal p u.key
              (unlock_aad slug)
              (put_uint64 (unix (minted + u.ttl)) ++ dek)
              e
            ≡ (ok sealed, e'))
          × (token ≡ p.encode_base64 sealed))
  unfolding seal_token
  seal-token-eq-ok = elim (Bool-cases (length dek == key_len)) [
    | inl fits ↦
        let (sealed, after, first, last) =
          >>=-eq-ok (seal p u.key (unlock_aad slug) (put_uint64 (unix (minted + u.ttl)) ++ dek))
            (λ sealed. return (p.encode_base64 sealed)) e (rw fits at sealed_token) in
        (ground arith, (sealed, (cc), (cc)))
    | inr unfit ↦ absurd (ground arith)
  ]

  -- A token is not the empty text, which a cookie without a value would be.
  pub seal_token-is_empty : is_empty token ≡ false
  seal_token-is_empty = elim (Bool-cases (is_empty token)) [
    | inl blank ↦
        let (l, minting) = seal-token-eq-ok in
        let (sealed, s, t) = minting in
        let none_left : p.encode_base64 sealed ≡ [] = sym t ∙ is_empty→nil token blank in
        let opened : some sealed ≡ some [] =
          sym (sound.decode_base64-encode_base64 sealed)
          ∙ (ap p.decode_base64 none_left ∙ sound.decode_base64-nil) in
        absurd (
          ground (
            arith,
            opened,
            seal-is_empty p u.key (unlock_aad slug) (put_uint64 (unix (minted + u.ttl)) ++ dek) e s,
          ))
    | inr full ↦ full
  ]

  -- With sound primitives, a token that was minted for a data key opens at its slug to that key
  -- while it has not expired, and to an error from the second of its expiry on. The expiry fits
  -- an int64 number of seconds.
  pub open_token-seal_token :
      (now : ℕ)
      → unix (minted + u.ttl) < 2 ^ 63
      → open_token p u now slug token
        ≡ (if leb (unix (minted + u.ttl)) (unix now) then err unlock_token else ok dek)
  unfolding open_token
  open_token-seal_token now h =
      let (l, minting) = seal-token-eq-ok in
      let (sealed, s, t) = minting in
      rw
        (
          t,
          sound.decode_base64-encode_base64 sealed,
          open_sealed-seal_self p sound u.key (unlock_aad slug)
              (put_uint64 (unix (minted + u.ttl)) ++ dek) e s,
        )
        (read_payload-put_uint64 now (unix (minted + u.ttl)) dek l h)

  -- If the primitives are sound and the cipher is authentic, a token opens at no other slug than
  -- its own.
  pub open_token-seal_token_moved :
      (now : ℕ) (other : Bytes)
      → IsAuthentic p
      → slug ≢ other
      → open_token p u now other token ≡ err unlock_token
  unfolding open_token
  open_token-seal_token_moved now other authentic ne =
      let (l, minting) = seal-token-eq-ok in
      let (sealed, s, t) = minting in
      rw (
        t,
        sound.decode_base64-encode_base64 sealed,
        open_sealed-other_aad p sound authentic u.key (unlock_aad slug) (unlock_aad other)
            (put_uint64 (unix (minted + u.ttl)) ++ dek) e s
            (λ same. ne (unlock_aad_inj slug other same)),
      )
