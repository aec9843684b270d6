-- ===== src/Oauth/Access.antt =====
-- Access tokens: what is minted is verified by the same resource until it expires, and by no other.
use easy_host_k8s.Prelude.{
  ℕ, ◌+◌, ◌*◌, ◌/◌, ◌^◌, ltb, ◌≡◌, refl, ◌≢◌, Bool, true, false, Option, none, some, [], ◌∷◌, Bytes,
  codes, bytes_eq, bytes_eq_iff, bytes_eq_refl, is_empty, if◌then◌else◌, arith, ap,
}
use easy_host_k8s.Oauth.{
  Claims, OauthPlatform, OauthService, resource, access_token_ttl, audience_matches, fields,
}
use easy_host_k8s.Oauth.Service.{
  VerifiedToken, access_claims, key_for, generate_access_token, verify_access_token,
}

-- What the documentation of jwt promises: a token signed with HS256 is parsed with the key that the
-- program gives for the HMAC family, and gives its claims back, until the second of its "exp".
pub record ParsesSigned (p : OauthPlatform) : Type 0 where
  pub parse-sign :
      (key : Bool → Option Bytes) (secret : Bytes) (claims : Claims) (exp time : ℕ) {token : Bytes}
      → p.sign_jwt secret claims ≡ some token
      → key true ≡ some secret
      → claims.exp ≡ some exp
      → p.parse_jwt key time token ≡ (if ltb time (exp * 10 ^ 9) then some claims else none)

-- The second in which a token expires that is minted at a time
abbrev pub expiry : ℕ → ℕ
expiry minted = (minted + access_token_ttl) / 10 ^ 9

module _ (p : OauthPlatform) (jwt : ParsesSigned p) (s : OauthService) (username : Bytes)
    (minted : ℕ) {token : Bytes}
    (signed : generate_access_token p s username minted ≡ some token) where
  parsed :
      (other : OauthService) (time : ℕ)
      → other.sign_secret ≡ s.sign_secret
      → p.parse_jwt (key_for p other) time token ≡ (
          if ltb time (expiry minted * 10 ^ 9)
          then some (access_claims p s username minted)
          else none)
  unfolding generate_access_token
  parsed other time same =
      jwt.parse-sign (key_for p other) s.sign_secret (access_claims p s username minted)
        (expiry minted) time signed (ap some same) refl

  -- If jwt parses what it signs, an access token for a named user is accepted until the second of
  -- its expiry, an hour after it was minted, for that user and with the scope "mcp" alone, and
  -- refused from then on.
  pub verify_access_token-generate_access_token :
      (time : ℕ)
      → is_empty username ≡ false
      → verify_access_token p s time token ≡ (
          if ltb time (expiry minted * 10 ^ 9)
          then some (record {
            username = username;
            scopes = codes "mcp" ∷ [];
            expires_at = some (expiry minted);
          })
          else none)
  unfolding verify_access_token audience_matches bytes_eq fields
  verify_access_token-generate_access_token time named =
      rw (parsed s time refl) (ground (arith, bytes_eq_refl (resource s)))

  -- If jwt parses what it signs, a token that is minted for one resource is refused, at every time, by
  -- every other resource that signs with the same secret.
  pub verify_access_token-other_resource :
      (other : OauthService) (time : ℕ)
      → other.sign_secret ≡ s.sign_secret
      → resource s ≢ resource other
      → verify_access_token p other time token ≡ none
  unfolding verify_access_token audience_matches
  verify_access_token-other_resource other time same ne =
      rw (parsed other time same) (ground (arith, ne, bytes_eq_iff (resource s) (resource other)))

  -- Whoever a minted token is accepted for is the user whom it was minted for.
  pub username-verify_access_token :
      (time : ℕ) (v : VerifiedToken)
      → verify_access_token p s time token ≡ some v
      → v.username ≡ username
  unfolding verify_access_token audience_matches
  username-verify_access_token time v accepted =
      let claims = parsed s time refl in ground (arith, claims, accepted)
