-- ===== src/Oauth.antt =====
-- backend-go/internal/service/mcpoauth.go: the OAuth 2.1 server behind the MCP endpoint. Parameters are
-- SHA-256, base64, crypto/rand.Int, net/url and the package jwt (`OauthPlatform`). The status and the
-- code of an error are kept, its description is not.
pub mod Service
pub mod Grants
pub mod Random
pub mod Codes
pub mod Registration
pub mod Exchange
pub mod Honours
pub mod Refresh
pub mod Rotation
pub mod Access
pub mod Toy
pub mod Endpoints
pub mod Authorize
pub mod Authorized
pub mod Guards
pub mod Words
pub mod Consent
pub mod Sites
use mathlib.Core.List.{reverse}
use easy_host_k8s.Prelude.{
  ℕ, zero, suc, ◌+◌, ◌*◌, ◌/◌, ◌%◌, ◌^◌, ltb, Bool, true, false, not, ◌&&◌, ◌||◌, Option, none,
  some, List, [], ◌∷◌, ◌++◌, Bytes, codes, bytes_eq, is_empty, any, length, leb, ◌==◌,
  if◌then◌else◌, Result, ok, err, Action, return, ◌>>=◌, ◌>>◌,
}
use easy_host_k8s.Crypto.{Entropy}
use easy_host_k8s.World.{World}
use easy_host_k8s.Paths.{white_space, cut_any}

-- The statuses and codes of OAuthError
pub record OauthError : Type 0 where
  pub status : ℕ
  pub code : Bytes

-- What a method of the service returns: a value, or a protocol error
pub data Reply (A : Type 0) : Type 0 where
  granted : A → Reply A
  refused : OauthError → Reply A

-- The claim "aud" of a token: a string, a list of which some members are strings, or something else
pub data Audience : Type 0 where
  single : Bytes → Audience
  several : List (Option Bytes) → Audience
  no_audience : Audience

-- jwt.MapClaims; a claim is missing where it is not of the type that the program reads
pub record Claims : Type 0 where
  pub sub : Option Bytes
  pub scope : Option Bytes
  pub aud : Audience
  pub iss : Bytes
  pub iat : ℕ
  pub exp : Option ℕ

pub record OauthPlatform : Type 0 where
  pub collate : Bytes → Bytes
  -- how a TIMESTAMP column rounds
  pub stored_time : ℕ → ℕ
  pub sha256 : Bytes → Bytes
  -- base64.RawURLEncoding.EncodeToString
  pub encode_base64 : Bytes → Bytes
  -- rand.Int(rand.Reader, max)
  pub rand_int : ℕ → Action Entropy ℕ
  -- url.Parse succeeds, and the URL is absolute
  pub is_absolute_url : Bytes → Bool
  -- SignedString with HS256: secret, claims
  pub sign_jwt : Bytes → Claims → Option Bytes
  -- jwt.Parse at a time, with a key for tokens whose method is of the HMAC family, or of another
  pub parse_jwt : (Bool → Option Bytes) → ℕ → Bytes → Option Claims

-- The service: its base URL and its secret; the store is the world
pub record OauthService : Type 0 where
  pub base_url : Bytes
  pub sign_secret : Bytes

abbrev pub mcp_scope : Bytes
mcp_scope = codes "mcp"

abbrev pub access_token_ttl : ℕ
access_token_ttl = 60 * 60 * 10 ^ 9

abbrev pub auth_code_ttl : ℕ
auth_code_ttl = 5 * 60 * 10 ^ 9

abbrev pub refresh_token_ttl : ℕ
refresh_token_ttl = 30 * 24 * 60 * 60 * 10 ^ 9

abbrev drop_slashes : Bytes → Bytes
drop_slashes [] = []
drop_slashes (c ∷ s) = if c == b'/' then drop_slashes s else c ∷ s

-- NewMCPOAuthService
unfoldable pub new_oauth_service : Bytes → Bytes → OauthService
new_oauth_service base_url sign_secret = record {
  base_url = reverse (drop_slashes (reverse base_url));
  sign_secret = sign_secret;
}

module _ (s : OauthService) where
  unfoldable pub issuer : Bytes
  issuer = s.base_url

  unfoldable pub resource : Bytes
  resource = s.base_url ++ codes "/mcp"

  pub authorization_endpoint : Bytes
  authorization_endpoint = s.base_url ++ codes "/oauth/authorize"

  pub token_endpoint : Bytes
  token_endpoint = s.base_url ++ codes "/oauth/token"

  pub registration_endpoint : Bytes
  registration_endpoint = s.base_url ++ codes "/oauth/register"

  pub protected_resource_metadata_url : Bytes
  protected_resource_metadata_url = s.base_url ++ codes "/.well-known/oauth-protected-resource"

abbrev pub digit : ℕ → ℕ
digit n = if ltb n 10 then 48 + n else 87 + n

-- hex.EncodeToString
abbrev pub encode_hex : Bytes → Bytes
encode_hex [] = []
encode_hex (b ∷ bytes) = digit (b / 16) ∷ digit (b % 16) ∷ encode_hex bytes

-- containsString
abbrev pub contains_string : List Bytes → Bytes → Bool
contains_string strings target = any (λ s. bytes_eq s target) strings

abbrev is_text : Bytes → Option Bytes → Bool
is_text expected none = false
is_text expected (some a) = bytes_eq a expected

-- audienceMatches
unfoldable pub audience_matches : Audience → Bytes → Bool
audience_matches (single a) expected = bytes_eq a expected
audience_matches (several members) expected = any (is_text expected) members
audience_matches no_audience expected = false

abbrev pub add_word : Bytes → List Bytes → List Bytes
add_word [] words = words
add_word (c ∷ word) words = reverse (c ∷ word) ∷ words

-- strings.Fields, with the bytes of the word read so far, the last one first. Each round removes a byte
-- at least, so the length is fuel enough.
unfoldable pub fields_from : ℕ → Bytes → Bytes → List Bytes
unfolding cut_any
fields_from zero word s = add_word word []
fields_from (suc fuel) word [] = add_word word []
fields_from (suc fuel) word (c ∷ s) = elim (cut_any white_space (c ∷ s)) [
  | none ↦ fields_from fuel (c ∷ word) s
  | some rest ↦ add_word word (fields_from fuel [] rest)
]

unfoldable pub fields : Bytes → List Bytes
unfolding fields_from
fields s = fields_from (length s) [] s

module _ (p : OauthPlatform) where
  -- hashToken
  unfoldable pub hash_token : Bytes → Bytes
  hash_token token = encode_hex (p.sha256 token)

  -- verifyPKCE
  unfoldable pub verify_pkce : Bytes → Bytes → Bytes → Bool
  verify_pkce verifier challenge method =
      if bytes_eq method (codes "S256")
      then bytes_eq (p.encode_base64 (p.sha256 verifier)) challenge
      else false

  abbrev pub alphabet : Bytes
  alphabet = codes "abcdefghijklmnopqrstuvwxyzABCDEFGHIJKLMNOPQRSTUVWXYZ0123456789"

  -- alphabet[i]
  abbrev pub at : ℕ → Bytes → ℕ
  at n [] = 0
  at zero (c ∷ s) = c
  at (suc n) (c ∷ s) = at n s

  -- cryptoRandString
  unfoldable pub crypto_rand_string : ℕ → Action Entropy Bytes
  crypto_rand_string zero = return []
  crypto_rand_string (suc n) = do
    i ← p.rand_int 62
    rest ← crypto_rand_string n
    return (at i alphabet ∷ rest)
