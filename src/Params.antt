-- ===== src/Params.antt =====
-- backend-go/internal/crypto/crypto.go: the Argon2id cost parameters and their persisted encoding.
-- Printing and scanning follow fmt.Sprintf and fmt.Sscanf for the verb %d: leading blanks are
-- skipped, a sign is read for `int` only, a number that does not fit its type is an error, and what
-- follows the last verb is ignored.
pub mod RoundTrip
use easy_host_k8s.Prelude.{
  ℕ, zero, suc, ◌+◌, ◌-◌, ◌*◌, ◌/◌, ◌%◌, ◌^◌, Bool, true, false, ◌&&◌, ◌||◌, List, [], ◌∷◌, ◌++◌,
  Bytes, codes, ltb, leb, ◌==◌, if◌then◌else◌, Result, ok, err, Action, return, fail, lift, ◌>>=◌,
  ◌>>◌, bad_params, ◌≡◌, refl, not,
}

pub record Params : Type 0 where
  pub memory : ℕ
  pub time : ℕ
  pub threads : ℕ

-- argon2.Version
abbrev pub argon2id_version : ℕ
argon2id_version = 19

unfoldable pub default_params : Params
default_params = record { memory = 64 * 1024; time = 3; threads = 4 }

-- `%d` of fmt.Sprintf; the digits found so far are kept behind the remaining number
decimal_from : ℕ → ℕ → Bytes → Bytes
decimal_from zero n digits = digits
decimal_from (suc fuel) n digits =
    let more = (b'0' + n % 10) ∷ digits in
    let rest = decimal_from fuel (n / 10) more in if ltb n 10 then more else rest

unfoldable pub decimal : ℕ → Bytes
unfolding decimal_from
decimal n = decimal_from (suc n) n []

-- Params.String
unfoldable pub params_string : Params → Bytes
params_string p =
    codes "argon2id$v="
    ++ (decimal argon2id_version
        ++ (codes "$m="
            ++ (decimal p.memory
                ++ (codes ",t=" ++ (decimal p.time ++ (codes ",p=" ++ decimal p.threads))))))

is_digit : ℕ → Bool
is_digit c = leb b'0' c && leb c b'9'

-- ss.SkipSpace within one line
skip_space : Bytes → Bytes
skip_space [] = []
skip_space (c ∷ s) =
    if c == b' ' || c == 9 || c == 11 || c == 12 || c == 13 then skip_space s else c ∷ s

scan_digits : ℕ → Bytes → ℕ × Bytes
unfolding is_digit
scan_digits acc [] = (acc, [])
scan_digits acc (c ∷ s) = if is_digit c then scan_digits (acc * 10 + (c - b'0')) s else (acc, c ∷ s)

-- ss.scanNumber, with the bound of the type that it is read into
scan_number : ℕ → Action Bytes ℕ
unfolding scan_digits
scan_number bound [] = (err bad_params, [])
scan_number bound (c ∷ s) =
    let (n, rest) = scan_digits 0 (c ∷ s) in
    if is_digit c && ltb n bound then (ok n, rest) else (err bad_params, rest)

unfoldable pub scan_uint : ℕ → Action Bytes ℕ
unfolding scan_number skip_space
scan_uint bits s = scan_number (2 ^ bits) (skip_space s)

abbrev read_sign : Bytes → Bool × Bytes
read_sign [] = (false, [])
read_sign (c ∷ s) =
    if c == b'-' then (true, s) else if c == b'+' then (false, s) else (false, c ∷ s)

-- An `int`: whether it is negative, and its absolute value
unfoldable pub scan_int : Action Bytes (Bool × ℕ)
unfolding scan_number skip_space
scan_int s =
    let (negative, digits) = read_sign (skip_space s) in
    (do n ← scan_number (2 ^ 63); return (negative, n)) digits

unfoldable pub scan_literal : Bytes → Action Bytes (Unit {0})
scan_literal [] s = (ok tt, s)
scan_literal (c ∷ lit) [] = (err bad_params, [])
scan_literal (c ∷ lit) (d ∷ s) = if c == d then scan_literal lit s else (err bad_params, d ∷ s)

abbrev check_params : Bool × ℕ → Params → Result Params
check_params (negative, version) p =
    if negative || not (version == argon2id_version)
    then err bad_params
    else if p.memory == 0 || p.time == 0 || p.threads == 0
    then err bad_params
    else ok p

unfoldable pub scan_params : Action Bytes Params
scan_params = do
  scan_literal (codes "argon2id$v=")
  version ← scan_int
  scan_literal (codes "$m=")
  memory ← scan_uint 32
  scan_literal (codes ",t=")
  time ← scan_uint 32
  scan_literal (codes ",p=")
  threads ← scan_uint 8
  lift (check_params version (record { memory = memory; time = time; threads = threads }))

unfoldable pub parse_params : Bytes → Result Params
parse_params s = (scan_params s).0

default_string : params_string default_params ≡ codes "argon2id$v=19$m=65536,t=3,p=4"
unfolding params_string default_params decimal
default_string = refl
