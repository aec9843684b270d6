-- ===== src/Params/RoundTrip.antt =====
-- What `params_string` prints, `parse_params` reads back.
use easy_host_k8s.Prelude.{
  ℕ, zero, suc, ◌+◌, ◌/◌, ◌%◌, ◌^◌, ◌<◌, ◌≡◌, refl, true, false, [], ◌∷◌, ◌++◌, Bool-cases, ltb,
  lt→ltb, inl, inr, ap, ==_refl, ◌∙◌, Bytes, codes, ok, arith, append-nil,
}
use easy_host_k8s.Params.{
  Params, argon2id_version, default_params, decimal_from, decimal, params_string, is_digit,
  skip_space, scan_digits, scan_number, scan_uint, scan_int, scan_literal, scan_params,
  parse_params, read_sign,
}

-- A digit does not follow.
abbrev Stops : Bytes → Type 0
Stops [] = Unit
Stops (c ∷ s) = is_digit c ≡ false

scan_digits-Stops : (n : ℕ) (rest : Bytes) → Stops rest → scan_digits n rest ≡ (n, rest)
unfolding scan_digits
scan_digits-Stops n [] h = refl
scan_digits-Stops n (c ∷ s) h = rw h

-- Scanning what is printed of `n` continues as if `n` had been read digit by digit.
scan_digits-decimal_from :
    (fuel n : ℕ) (digits rest : Bytes)
    → n < fuel
    → scan_digits 0 (decimal_from fuel n digits ++ rest) ≡ scan_digits n (digits ++ rest)
unfolding decimal_from scan_digits is_digit
scan_digits-decimal_from zero n digits rest h = absurd (omega arith)
scan_digits-decimal_from (suc fuel) n digits rest h =
    ground (arith, scan_digits-decimal_from fuel (n / 10) ((b'0' + n % 10) ∷ digits) rest)

-- What is printed begins with a digit.
decimal_from-starts :
    (fuel n : ℕ) (digits : Bytes)
    → n < fuel
    → (c : ℕ) × (s : Bytes) × (decimal_from fuel n digits ≡ c ∷ s) × (is_digit c ≡ true)
unfolding decimal_from is_digit
decimal_from-starts zero n digits h = absurd (omega arith)
decimal_from-starts (suc fuel) n digits h = elim (Bool-cases (ltb n 10)) [
  | inl small ↦ (b'0' + n % 10, digits, rw small, ground arith)
  | inr large ↦
      rw large (decimal_from-starts fuel (n / 10) ((b'0' + n % 10) ∷ digits) (ground arith))
]

scan_digits-decimal :
    (n : ℕ) (rest : Bytes) → Stops rest → scan_digits 0 (decimal n ++ rest) ≡ (n, rest)
unfolding decimal
scan_digits-decimal n rest h =
    scan_digits-decimal_from (suc n) n [] rest (omega arith) ∙ scan_digits-Stops n rest h

scan_number-of_digit :
    (bound n c : ℕ) (s rest : Bytes)
    → is_digit c ≡ true
    → scan_digits 0 (c ∷ s) ≡ (n, rest)
    → n < bound
    → scan_number bound (c ∷ s) ≡ (ok n, rest)
unfolding scan_number
scan_number-of_digit bound n c s rest d e h = rw (e, d, lt→ltb n bound h)

skip_space-of_digit : (c : ℕ) (s : Bytes) → is_digit c ≡ true → skip_space (c ∷ s) ≡ c ∷ s
unfolding skip_space is_digit
skip_space-of_digit c s d = ground arith

read_sign-of_digit : (c : ℕ) (s : Bytes) → is_digit c ≡ true → read_sign (c ∷ s) ≡ (false, c ∷ s)
unfolding is_digit
read_sign-of_digit c s d = ground arith

decimal-starts : (n : ℕ) → (c : ℕ) × (s : Bytes) × (decimal n ≡ c ∷ s) × (is_digit c ≡ true)
unfolding decimal
decimal-starts n = decimal_from-starts (suc n) n [] (omega arith)

module _ (n : ℕ) (rest : Bytes) (stops : Stops rest) where
  scan_uint-decimal : (bits : ℕ) → n < 2 ^ bits → scan_uint bits (decimal n ++ rest) ≡ (ok n, rest)
  unfolding scan_uint
  scan_uint-decimal bits h =
      let (c, s, e, d) = decimal-starts n in
      let scanned = scan_digits-decimal n rest stops in
      let same : decimal n ++ rest ≡ c ∷ (s ++ rest) = ap (λ l. l ++ rest) e in
      rw (same, skip_space-of_digit c (s ++ rest) d)
        (scan_number-of_digit (2 ^ bits) n c (s ++ rest) rest d (rw same at scanned) h)

  scan_int-decimal : n < 2 ^ 63 → scan_int (decimal n ++ rest) ≡ (ok (false, n), rest)
  unfolding scan_int
  scan_int-decimal h =
      let (c, s, e, d) = decimal-starts n in
      let scanned = scan_digits-decimal n rest stops in
      let same : decimal n ++ rest ≡ c ∷ (s ++ rest) = ap (λ l. l ++ rest) e in
      rw (
        same,
        skip_space-of_digit c (s ++ rest) d,
        read_sign-of_digit c (s ++ rest) d,
        scan_number-of_digit (2 ^ 63) n c (s ++ rest) rest d (rw same at scanned) h,
      )

scan_literal-append : (lit rest : Bytes) → scan_literal lit (lit ++ rest) ≡ (ok tt, rest)
unfolding scan_literal
scan_literal-append [] rest = refl
scan_literal-append (c ∷ lit) rest = rw (==_refl c) (scan_literal-append lit rest)

-- Parameters that fit the fields' machine types and are not zero.
pub record IsUsable (p : Params) : Type 0 where
  pub memory : (0 < p.memory) × (p.memory < 2 ^ 32)
  pub time : (0 < p.time) × (p.time < 2 ^ 32)
  pub threads : (0 < p.threads) × (p.threads < 2 ^ 8)

scan_params-params_string : (p : Params) → IsUsable p → (scan_params (params_string p)).0 ≡ ok p
unfolding scan_params params_string is_digit
scan_params-params_string p u =
    let r4 = decimal p.threads in
    let r3 = decimal p.time ++ (codes ",p=" ++ r4) in
    let r2 = decimal p.memory ++ (codes ",t=" ++ r3) in
    let r1 = decimal argon2id_version ++ (codes "$m=" ++ r2) in
    let last : scan_uint 8 r4 ≡ (ok p.threads, []) =
      rw append-nil at (scan_uint-decimal p.threads [] tt 8 u.threads.1) in
    rw
      (
        scan_literal-append (codes "argon2id$v=") r1,
        scan_int-decimal argon2id_version (codes "$m=" ++ r2) refl (omega arith),
        scan_literal-append (codes "$m=") r2,
        scan_uint-decimal p.memory (codes ",t=" ++ r3) refl 32 u.memory.1,
        scan_literal-append (codes ",t=") r3,
        scan_uint-decimal p.time (codes ",p=" ++ r4) refl 32 u.time.1,
        scan_literal-append (codes ",p=") r4,
        last,
      )
      (ground (arith, u.memory.0, u.time.0, u.threads.0))

-- Parsing what `params_string` prints of parameters that are not zero and fit their machine types
-- gives the same parameters back.
pub parse_params-params_string : (p : Params) → IsUsable p → parse_params (params_string p) ≡ ok p
unfolding parse_params scan_params
parse_params-params_string p u = scan_params-params_string p u

pub IsUsable-default : IsUsable default_params
unfolding default_params
IsUsable-default = omega arith
