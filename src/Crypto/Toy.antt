-- ===== src/Crypto/Toy.antt =====
-- Concrete primitives that meet the assumptions on the real ones: a cipher that writes key and
-- associated data in front of the plaintext. They show that the assumptions can hold, and they run.
use easy_host_k8s.Prelude.{
  ℕ, zero, suc, ◌≤◌, ◌≡◌, refl, false, none, some, [], ◌∷◌, ◌++◌, Bytes, length, take, ◌==◌, arith,
  length-append, length-take, append_assoc, append_inj, Option, ap, if◌then◌else◌,
}
use easy_host_k8s.Crypto.{Primitives, IsSound, IsAuthentic, Entropy, key_len}

abbrev zeros : ℕ → Bytes
zeros zero = []
zeros (suc n) = 0 ∷ zeros n

length-zeros : (n : ℕ) → length (zeros n) ≡ n
length-zeros zero = refl
length-zeros (suc n) = ap suc (length-zeros n)

unfoldable pub pad : ℕ → Bytes → Bytes
pad n b = take n (b ++ zeros n)

length-pad : (n : ℕ) (b : Bytes) → length (pad n b) ≡ n
unfolding pad
length-pad n b =
    length-take n (b ++ zeros n) (omega (arith, length-append b (zeros n), length-zeros n))

unfoldable pub frame : Bytes → Bytes → Bytes
frame key aad = length key ∷ (key ++ (length aad ∷ aad))

unfoldable pub strip : Bytes → Bytes → Option Bytes
strip [] s = some s
strip (c ∷ pre) [] = none
strip (c ∷ pre) (d ∷ s) = let rest = strip pre s in if c == d then rest else none

pub strip-append : (pre s : Bytes) → strip pre (pre ++ s) ≡ some s
unfolding strip
strip-append [] s = refl
strip-append (c ∷ pre) s = ground (arith, strip-append pre s)

strip-eq-some : (pre s : Bytes) {out : Bytes} → strip pre s ≡ some out → s ≡ pre ++ out
unfolding strip
strip-eq-some [] s h = ground arith
strip-eq-some (c ∷ pre) [] h = cc
strip-eq-some (c ∷ pre) (d ∷ s) {out} h =
    let heads : c ≡ d = ground arith in
    let tails : s ≡ pre ++ out = strip-eq-some pre s (ground arith) in cc

abbrev pub toy : Primitives
toy = record {
  id_key = λ passphrase salt cost. pad key_len (passphrase ++ salt);
  accepts_key = λ key. length key == key_len;
  overhead = 2;
  aead_seal = λ key nonce plaintext aad. frame key aad ++ plaintext;
  aead_open = λ key nonce ciphertext aad. strip (frame key aad) ciphertext;
  hkdf_sha256 = λ n secret info. pad n (secret ++ info);
  encode_base64 = λ b. b;
  decode_base64 = λ b. some b;
}

frame-append :
    (key aad s : Bytes) → frame key aad ++ s ≡ length key ∷ (key ++ (length aad ∷ (aad ++ s)))
unfolding frame
frame-append key aad s = ap (λ l. length key ∷ l) (append_assoc key (length aad ∷ aad) s)

frame_inj :
    (key other aad other_aad s out : Bytes)
    → frame key aad ++ s ≡ frame other other_aad ++ out
    → (key ≡ other) × (aad ≡ other_aad)
frame_inj key other aad other_aad s out e =
    let flat : length key ∷ (key ++ (length aad ∷ (aad ++ s)))
        ≡ length other ∷ (other ++ (length other_aad ∷ (other_aad ++ out))) =
      cc (e, frame-append key aad s, frame-append other other_aad out) in
    let (keys, rest) =
      append_inj key other {zs = length aad ∷ (aad ++ s)}
        {ws = length other_aad ∷ (other_aad ++ out)} (cc) (cc) in
    let (aads, _) = append_inj aad other_aad {zs = s} {ws = out} (cc) (cc) in (keys, aads)

overhead-le-length : (key plaintext aad : Bytes) → 2 ≤ length (frame key aad ++ plaintext)
unfolding frame
overhead-le-length key plaintext aad =
    omega (arith, length-append (frame key aad) plaintext, length-append key (length aad ∷ aad))

pub toy-IsSound : IsSound toy
toy-IsSound = record {
  accepts_key_len = λ key h. ground arith;
  length-id_key = λ passphrase salt cost. length-pad key_len (passphrase ++ salt);
  length-hkdf_sha256 = λ n secret info. length-pad n (secret ++ info);
  overhead-le-length = λ key nonce plaintext aad. overhead-le-length key plaintext aad;
  aead_open-aead_seal = λ key nonce plaintext aad. strip-append (frame key aad) plaintext;
  decode_base64-encode_base64 = λ b. refl;
  decode_base64-nil = refl;
}

pub toy-IsAuthentic : IsAuthentic toy
toy-IsAuthentic = record {
  same_aad = λ key nonce plaintext aad other {out} h.
      (frame_inj key key aad other plaintext out
        (strip-eq-some (frame key other) (frame key aad ++ plaintext) h)).1;
  same_key = λ key other nonce plaintext aad {out} h.
      (frame_inj key other aad aad plaintext out
        (strip-eq-some (frame other aad) (frame key aad ++ plaintext) h)).0;
}

-- Random bytes 0, 1, 2, …, with no failing read.
abbrev pub steady : Entropy
steady = record { byte_at = λ n. n; fails_at = λ n. false; pos = 0 }
