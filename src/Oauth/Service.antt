-- ===== src/Oauth/Service.antt =====
-- The methods of MCPOAuthService.
use easy_host_k8s.Prelude.{
  ℕ, ◌+◌, ◌/◌, ◌^◌, ltb, Bool, not, ◌||◌, Option, none, some, List, [], ◌∷◌, Bytes, codes, bytes_eq,
  is_empty, if◌then◌else◌, Result, ok, err, Action, proceed,
}
use easy_host_k8s.Oauth.Grants.{Grant, grant, refuse, attempt, now, ◌>>=◌, ◌>>◌}
use easy_host_k8s.Model.{OauthClient, AuthCode, RefreshToken, is_public}
use easy_host_k8s.World.{World, with_entropy}
use easy_host_k8s.Store.Oauth.{
  get_oauth_client, create_auth_code, consume_auth_code, create_refresh_token,
  consume_refresh_token,
}
use easy_host_k8s.Oauth.{
  single, Claims, OauthPlatform, OauthService, mcp_scope, access_token_ttl, auth_code_ttl,
  refresh_token_ttl, issuer, resource, authorization_endpoint, token_endpoint,
  registration_endpoint, contains_string, audience_matches, fields, hash_token, verify_pkce,
  crypto_rand_string,
}

pub record ProtectedResourceMetadata : Type 0 where
  pub resource : Bytes
  pub authorization_servers : List Bytes
  pub scopes_supported : List Bytes
  pub bearer_methods_supported : List Bytes

pub record AuthorizationServerMetadata : Type 0 where
  pub issuer : Bytes
  pub authorization_endpoint : Bytes
  pub token_endpoint : Bytes
  pub registration_endpoint : Bytes
  pub scopes_supported : List Bytes
  pub response_types_supported : List Bytes
  pub grant_types_supported : List Bytes
  pub code_challenge_methods_supported : List Bytes
  pub token_endpoint_auth_methods_supported : List Bytes

pub record TokenResponse : Type 0 where
  pub access_token : Bytes
  pub token_type : Bytes
  pub expires_in : ℕ
  pub refresh_token : Bytes
  pub scope : Bytes

pub record VerifiedToken : Type 0 where
  pub username : Bytes
  pub scopes : List Bytes
  -- none for the zero time
  pub expires_at : Option ℕ

abbrev pub text_or_empty : Option Bytes → Bytes
text_or_empty none = []
text_or_empty (some text) = text

abbrev pub code_of : Result (Unit {0}) → Bytes → Result Bytes
code_of (ok _) code = ok code
code_of (err e) code = err e

module _ (p : OauthPlatform) (s : OauthService) where
  open p use {collate, stored_time}

  unfoldable pub protected_resource_metadata : ProtectedResourceMetadata
  protected_resource_metadata = record {
    resource = resource s;
    authorization_servers = issuer s ∷ [];
    scopes_supported = mcp_scope ∷ [];
    bearer_methods_supported = codes "header" ∷ [];
  }

  pub authorization_server_metadata : AuthorizationServerMetadata
  authorization_server_metadata = record {
    issuer = issuer s;
    authorization_endpoint = authorization_endpoint s;
    token_endpoint = token_endpoint s;
    registration_endpoint = registration_endpoint s;
    scopes_supported = mcp_scope ∷ [];
    response_types_supported = codes "code" ∷ [];
    grant_types_supported = codes "authorization_code" ∷ codes "refresh_token" ∷ [];
    code_challenge_methods_supported = codes "S256" ∷ [];
    token_endpoint_auth_methods_supported =
        codes "none" ∷ codes "client_secret_post" ∷ codes "client_secret_basic" ∷ [];
  }

  -- GetClient
  unfoldable pub get_client : Bytes → Action World (Option OauthClient)
  get_client client_id = get_oauth_client collate client_id

  abbrev pub store_code : AuthCode → Action World Bytes
  store_code c w = let (r, w') = create_auth_code collate stored_time c w in (code_of r c.code, w')

  -- IssueAuthorizationCode: client, user, redirect URI, challenge, method, scope, resource
  unfoldable pub issue_authorization_code :
      Bytes → Bytes → Bytes → Bytes → Bytes → Bytes → Bytes → Action World Bytes
  issue_authorization_code client_id username redirect_uri challenge method scope target w =
      let (code, w') = with_entropy (crypto_rand_string p 48) w in
      proceed code
        (λ c. store_code (record {
          code = c;
          client_id = client_id;
          username = username;
          redirect_uri = redirect_uri;
          code_challenge = challenge;
          code_challenge_method = method;
          scope = scope;
          resource = target;
          expires_at = w'.clock + auth_code_ttl;
        }))
        w'

  abbrev pub found_client : Option OauthClient → Grant OauthClient
  found_client none = refuse 401 (codes "invalid_client")
  found_client (some c) = grant c

  abbrev pub check_secret : OauthClient → Bytes → Grant OauthClient
  check_secret c secret =
      if is_public c
      then grant c
      else if is_empty secret
      then refuse 401 (codes "invalid_client")
      else if bytes_eq (hash_token p secret) c.client_secret_hash
      then grant c
      else refuse 401 (codes "invalid_client")

  -- authenticateClient
  unfoldable pub authenticate_client : Bytes → Bytes → Grant OauthClient
  authenticate_client client_id secret =
      if is_empty client_id then refuse 400 (codes "invalid_client") else (do
        known ← attempt (get_oauth_client collate client_id) 500 (codes "server_error")
        client ← found_client known
        check_secret client secret)

  -- The claims of an access token for a user at a time
  abbrev pub access_claims : Bytes → ℕ → Claims
  access_claims username time = record {
    sub = some username;
    scope = some mcp_scope;
    aud = single (resource s);
    iss = issuer s;
    iat = time / 10 ^ 9;
    exp = some ((time + access_token_ttl) / 10 ^ 9);
  }

  -- generateAccessToken; the token lives for the seconds of the TTL
  unfoldable pub generate_access_token : Bytes → ℕ → Option Bytes
  generate_access_token username time = p.sign_jwt s.sign_secret (access_claims username time)

  abbrev pub signed : Option Bytes → Grant Bytes
  signed none = refuse 500 (codes "server_error")
  signed (some token) = grant token

  -- issueTokens: client, user, resource
  unfoldable pub issue_tokens : Bytes → Bytes → Bytes → Grant TokenResponse
  issue_tokens client_id username target = do
    time ← now
    access ← signed (generate_access_token username time)
    refresh ← attempt (with_entropy (crypto_rand_string p 48)) 500 (codes "server_error")
    attempt
        (create_refresh_token collate stored_time (record {
          token_hash = hash_token p refresh;
          client_id = client_id;
          username = username;
          scope = mcp_scope;
          resource = target;
          expires_at = time + refresh_token_ttl;
        }))
        500 (codes "server_error")
    grant (record {
      access_token = access;
      token_type = codes "Bearer";
      expires_in = access_token_ttl / 10 ^ 9;
      refresh_token = refresh;
      scope = mcp_scope;
    })

  abbrev pub invalid_grant : {A : Type 0} → Grant A
  invalid_grant = refuse 400 (codes "invalid_grant")

  -- What is checked of a code that was taken: client, redirect URI, verifier
  abbrev pub redeem_code : OauthClient → Bytes → Bytes → Option AuthCode → Grant TokenResponse
  redeem_code client redirect_uri verifier none w = invalid_grant w
  redeem_code client redirect_uri verifier (some c) w =
      (if ltb c.expires_at w.clock
          then invalid_grant
          else if not (bytes_eq c.client_id client.client_id)
          then invalid_grant
          else if not (bytes_eq c.redirect_uri redirect_uri)
          then invalid_grant
          else if not (verify_pkce p verifier c.code_challenge c.code_challenge_method)
          then invalid_grant
          else issue_tokens client.client_id c.username c.resource)
        w

  -- ExchangeAuthorizationCode: client, secret, redirect URI, code, verifier
  unfoldable pub exchange_authorization_code :
      Bytes → Bytes → Bytes → Bytes → Bytes → Grant TokenResponse
  exchange_authorization_code client_id secret redirect_uri code verifier = do
    client ← authenticate_client client_id secret
    if is_empty code || is_empty verifier then refuse 400 (codes "invalid_request") else do
      taken ← attempt (consume_auth_code collate code) 500 (codes "server_error")
      redeem_code client redirect_uri verifier taken

  abbrev pub redeem_token : OauthClient → Option RefreshToken → Grant TokenResponse
  redeem_token client none w = invalid_grant w
  redeem_token client (some t) w =
      (if ltb t.expires_at w.clock
          then invalid_grant
          else if not (bytes_eq t.client_id client.client_id)
          then invalid_grant
          else issue_tokens client.client_id t.username t.resource)
        w

  -- ExchangeRefreshToken: client, secret, refresh token
  unfoldable pub exchange_refresh_token : Bytes → Bytes → Bytes → Grant TokenResponse
  exchange_refresh_token client_id secret refresh_token = do
    client ← authenticate_client client_id secret
    if is_empty refresh_token then refuse 400 (codes "invalid_request") else do
      taken ←
          attempt (consume_refresh_token collate (hash_token p refresh_token)) 500
            (codes "server_error")
      redeem_token client taken

  -- The key for a token: only methods of the HMAC family have one.
  abbrev pub key_for : Bool → Option Bytes
  key_for hmac = if hmac then some s.sign_secret else none

  abbrev pub check_claims : Option Claims → Option VerifiedToken
  check_claims none = none
  check_claims (some c) =
      if not (contains_string (fields (text_or_empty c.scope)) mcp_scope)
      then none
      else if not (audience_matches c.aud (resource s))
      then none
      else if is_empty (text_or_empty c.sub)
      then none
      else some (record {
        username = text_or_empty c.sub;
        scopes = fields (text_or_empty c.scope);
        expires_at = c.exp;
      })

  -- VerifyAccessToken at a time; its errors are told apart by their messages alone
  unfoldable pub verify_access_token : ℕ → Bytes → Option VerifiedToken
  verify_access_token time token = check_claims (p.parse_jwt key_for time token)
