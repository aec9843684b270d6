-- ===== src/Unlock.antt =====
-- backend-go/internal/crypto/unlock.go: the tokens that let a visitor keep viewing an unlocked site.
-- Times are nanoseconds since 1970, and a time.Duration is an integer of nanoseconds; the TTL of an
-- Unlocker is positive, since NewUnlocker refuses every other.
pub mod Tokens
use easy_host_k8s.Prelude.{
  ℕ, zero, suc, ◌+◌, ◌*◌, ◌/◌, ◌%◌, ◌^◌, Bool, not, ◌||◌, Option, none, some, List, [], ◌∷◌, ◌++◌,
  Bytes, codes, length, is_empty, take, drop, leb, ◌==◌, if◌then◌else◌, Result, ok, err, Action,
  return, fail, ◌>>=◌, unlock_token, bad_secret, bad_ttl, bad_dek_length,
}
use easy_host_k8s.Prelude.{ℤ, is_positive, pos_part}
use easy_host_k8s.Crypto.{Primitives, Entropy, key_len, put_uint64, seal, open_sealed}

abbrev pub unlock_token_len : ℕ
unlock_token_len = 8 + key_len

pub record Unlocker : Type 0 where
  pub key : Bytes
  pub ttl : ℕ

unfoldable pub unlock_aad : Bytes → Bytes
unlock_aad slug = codes "easy-host/unlock/v1|" ++ slug

-- time.Time.Unix
abbrev pub unix : ℕ → ℕ
unix t = t / 10 ^ 9

-- binary.BigEndian.Uint64
abbrev pub uint64_from : ℕ → Bytes → ℕ
uint64_from acc [] = acc
uint64_from acc (b ∷ bytes) = uint64_from (acc * 256 + b) bytes

unfoldable pub uint64 : Bytes → ℕ
uint64 bytes = uint64_from 0 bytes

-- `time.Now().Unix() >= int64(expiry)`: from 2 ^ 63 on the conversion gives a negative number.
abbrev pub is_expired : ℕ → ℕ → Bool
is_expired now expiry = leb (2 ^ 63) expiry || leb expiry (unix now)

-- NewUnlocker
unfoldable pub new_unlocker : Primitives → Bytes → ℤ → Result Unlocker
new_unlocker p secret ttl =
    if is_empty secret
    then err bad_secret
    else if not (is_positive ttl)
    then err bad_ttl
    else ok (record {
      key = p.hkdf_sha256 key_len secret (codes "easy-host/unlock-token/v1");
      ttl = pos_part ttl;
    })

-- Unlocker.Seal
unfoldable pub seal_token : Primitives → Unlocker → ℕ → Bytes → Bytes → Action Entropy Bytes
seal_token p u now slug dek =
    if length dek == key_len
    then (do
      sealed ← seal p u.key (unlock_aad slug) (put_uint64 (unix (now + u.ttl)) ++ dek)
      return (p.encode_base64 sealed))
    else fail bad_dek_length

abbrev pub read_payload : ℕ → Result Bytes → Result Bytes
read_payload now (err _) = err unlock_token
read_payload now (ok payload) =
    if length payload == unlock_token_len
    then if is_expired now (uint64 (take 8 payload)) then err unlock_token else ok (drop 8 payload)
    else err unlock_token

abbrev pub open_raw : Primitives → Unlocker → ℕ → Bytes → Option Bytes → Result Bytes
open_raw p u now slug none = err unlock_token
open_raw p u now slug (some raw) = read_payload now (open_sealed p u.key (unlock_aad slug) raw)

-- Unlocker.Open
unfoldable pub open_token : Primitives → Unlocker → ℕ → Bytes → Bytes → Result Bytes
open_token p u now slug token = open_raw p u now slug (p.decode_base64 token)
