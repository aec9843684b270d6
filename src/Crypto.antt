-- ===== src/Crypto.antt =====
-- backend-go/internal/crypto/crypto.go: sealing under a key, the envelope that wraps a data key under
-- a passphrase, and the payloads of files. Argon2id, XChaCha20-Poly1305, HKDF and base64 are
-- parameters (`Primitives`); crypto/rand is a stream of bytes at which a read may fail.
pub mod Sealing
pub mod Binding
pub mod Envelopes
pub mod Toy
use easy_host_k8s.Prelude.{
  ℕ, zero, suc, ◌+◌, ◌*◌, ◌/◌, ◌%◌, ◌^◌, ◌≤◌, ◌<◌, ◌≡◌, Bool, true, false, Option, none, some, List,
  [], ◌∷◌, ◌++◌, Bytes, String, codes, length, is_empty, take, drop, ltb, ◌==◌, if◌then◌else◌,
  Result, ok, err, Action, return, fail, lift, or_error, ◌>>=◌, rand_failure, bad_key, too_short,
  auth_failed, wrong_passphrase, corrupted, empty_passphrase, ◌||◌,
}
use easy_host_k8s.Params.{Params, default_params, params_string, parse_params}

-- chacha20poly1305.KeySize
abbrev pub key_len : ℕ
key_len = 32

abbrev pub salt_len : ℕ
salt_len = 16

-- chacha20poly1305.NonceSizeX
abbrev pub nonce_len : ℕ
nonce_len = 24

-- What the program calls in other packages.
pub record Primitives : Type 0 where
  -- argon2.IDKey(passphrase, salt, time, memory, threads, KeyLen)
  pub id_key : Bytes → Bytes → Params → Bytes
  -- whether chacha20poly1305.NewX(key) returns no error
  pub accepts_key : Bytes → Bool
  -- aead.Overhead()
  pub overhead : ℕ
  -- aead.Seal(nil, nonce, plaintext, aad) under a key: key, nonce, plaintext, aad
  pub aead_seal : Bytes → Bytes → Bytes → Bytes → Bytes
  -- aead.Open(nil, nonce, ciphertext, aad) under a key: key, nonce, ciphertext, aad
  pub aead_open : Bytes → Bytes → Bytes → Bytes → Option Bytes
  -- the first bytes of hkdf.New(sha256.New, secret, nil, info): how many, secret, info
  pub hkdf_sha256 : ℕ → Bytes → Bytes → Bytes
  -- base64.RawURLEncoding
  pub encode_base64 : Bytes → Bytes
  pub decode_base64 : Bytes → Option Bytes

-- What their documentation promises.
pub record IsSound (p : Primitives) : Type 0 where
  pub accepts_key_len : (key : Bytes) → length key ≡ key_len → p.accepts_key key ≡ true
  pub length-id_key :
      (passphrase salt : Bytes) (cost : Params) → length (p.id_key passphrase salt cost) ≡ key_len
  pub length-hkdf_sha256 : (n : ℕ) (secret info : Bytes) → length (p.hkdf_sha256 n secret info) ≡ n
  pub overhead-le-length :
      (key nonce plaintext aad : Bytes) → p.overhead ≤ length (p.aead_seal key nonce plaintext aad)
  pub aead_open-aead_seal :
      (key nonce plaintext aad : Bytes)
      → p.aead_open key nonce (p.aead_seal key nonce plaintext aad) aad ≡ some plaintext
  pub decode_base64-encode_base64 : (b : Bytes) → p.decode_base64 (p.encode_base64 b) ≡ some b
  pub decode_base64-nil : p.decode_base64 [] ≡ some []

-- Ideal authenticity: what was sealed opens under no other associated data and no other key.
pub record IsAuthentic (p : Primitives) : Type 0 where
  pub same_aad :
      (key nonce plaintext aad other : Bytes) {out : Bytes}
      → p.aead_open key nonce (p.aead_seal key nonce plaintext aad) other ≡ some out
      → aad ≡ other
  pub same_key :
      (key other nonce plaintext aad : Bytes) {out : Bytes}
      → p.aead_open other nonce (p.aead_seal key nonce plaintext aad) aad ≡ some out
      → key ≡ other

-- The bytes that crypto/rand will deliver, how many have been read, and where a read fails.
pub record Entropy : Type 0 where
  pub byte_at : ℕ → ℕ
  pub fails_at : ℕ → Bool
  pub pos : ℕ

unfoldable pub draw : (ℕ → ℕ) → ℕ → ℕ → Bytes
draw byte_at pos zero = []
draw byte_at pos (suc n) = byte_at pos ∷ draw byte_at (pos + 1) n

-- rand.Read into a slice of the given length
unfoldable pub rand_read : ℕ → Action Entropy Bytes
rand_read n e =
    if e.fails_at e.pos
    then (err rand_failure, e)
    else (ok (draw e.byte_at e.pos n), record e { pos = e.pos + n })

-- binary.BigEndian.PutUint64(b, uint64(n)), by the number of bytes left to write
abbrev pub big_endian : ℕ → ℕ → Bytes
big_endian zero n = []
big_endian (suc k) n = (n / 256 ^ k % 256) ∷ big_endian k n

unfoldable pub put_uint64 : ℕ → Bytes
put_uint64 n = big_endian 8 n

unfoldable pub dek_aad : Bytes → Bytes
dek_aad slug = codes "easy-host/dek/v1" ++ (codes "|" ++ slug)

unfoldable pub file_aad : Bytes → Bytes → Bytes
unfolding put_uint64
file_aad slug file_path =
    codes "easy-host/file/v1"
    ++ (codes "|"
        ++ (put_uint64 (length slug) ++ (slug ++ (put_uint64 (length file_path) ++ file_path))))

pub record Envelope : Type 0 where
  pub kdf : Bytes
  pub salt : Bytes
  pub wrapped_key : Bytes

abbrev pub opened : Option Bytes → Result Bytes
opened none = err auth_failed
opened (some plaintext) = ok plaintext

-- What `Unwrap` makes of an opened key.
abbrev pub checked_dek : Result Bytes → Result Bytes
checked_dek (err _) = err wrong_passphrase
checked_dek (ok dek) = if length dek == key_len then ok dek else err corrupted

module _ (p : Primitives) where
  unfoldable pub seal : Bytes → Bytes → Bytes → Action Entropy Bytes
  seal key aad plaintext =
      if p.accepts_key key
      then (do nonce ← rand_read nonce_len; return (nonce ++ p.aead_seal key nonce plaintext aad))
      else fail bad_key

  -- `open`
  unfoldable pub open_sealed : Bytes → Bytes → Bytes → Result Bytes
  open_sealed key aad sealed =
      if p.accepts_key key
      then if ltb (length sealed) (nonce_len + p.overhead)
        then err too_short
        else opened (p.aead_open key (take nonce_len sealed) (drop nonce_len sealed) aad)
      else err bad_key

  unfoldable pub wrap : Bytes → Bytes → Bytes → Action Entropy Envelope
  wrap dek passphrase slug = do
    salt ← rand_read salt_len
    sealed ← seal (p.id_key passphrase salt default_params) (dek_aad slug) dek
    return (record { kdf = params_string default_params; salt = salt; wrapped_key = sealed })

  unfoldable pub new_envelope : Bytes → Bytes → Action Entropy (Envelope × Bytes)
  new_envelope passphrase slug =
      if is_empty passphrase
      then fail empty_passphrase
      else do dek ← rand_read key_len; env ← wrap dek passphrase slug; return (env, dek)

  abbrev pub unwrap_with : Envelope → Bytes → Bytes → Result Params → Result Bytes
  unwrap_with e passphrase slug (err x) = err x
  unwrap_with e passphrase slug (ok cost) =
      if is_empty e.salt || is_empty e.wrapped_key
      then err corrupted
      else checked_dek (open_sealed (p.id_key passphrase e.salt cost) (dek_aad slug) e.wrapped_key)

  -- Envelope.Unwrap
  unfoldable pub unwrap : Envelope → Bytes → Bytes → Result Bytes
  unwrap e passphrase slug =
      if is_empty passphrase
      then err empty_passphrase
      else unwrap_with e passphrase slug (parse_params e.kdf)

  unfoldable pub encrypt_file : Bytes → Bytes → Bytes → Bytes → Action Entropy Bytes
  encrypt_file dek slug file_path plaintext = seal dek (file_aad slug file_path) plaintext

  unfoldable pub decrypt_file : Bytes → Bytes → Bytes → Bytes → Result Bytes
  decrypt_file dek slug file_path sealed =
      or_error (open_sealed dek (file_aad slug file_path) sealed) corrupted
