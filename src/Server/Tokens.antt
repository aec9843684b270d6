-- ===== src/Server/Tokens.antt =====
-- The server as a whole: nobody is given a token in the name of a user who has not asked for one.
use easy_host_k8s.Prelude.{
  ℕ, ◌≡◌, ◌≢◌, Option, none, some, List, Bytes, codes, bytes_eq, All, inl, inr, subst, sym, ◌∙◌,
  arith, Bool-cases,
}
use easy_host_k8s.World.{World}
use easy_host_k8s.Http.{HttpRequest, field, value, write_json}
use easy_host_k8s.Content.Requests.{After}
use easy_host_k8s.Content.Apart.{Unauthorized-IsKept}
use easy_host_k8s.Oauth.{Reply, granted, refused}
use easy_host_k8s.Oauth.Authorized.{Unauthorized}
use easy_host_k8s.Oauth.Guards.{
  ForAnother, exchange_authorization_code-Guards, exchange_refresh_token-Guards,
  issue_authorization_code-safe, register_client-safe,
}
use easy_host_k8s.Oauth.Consent.{authorize-cases}
use easy_host_k8s.Oauth.Service.{TokenResponse, VerifiedToken, verify_access_token}
use easy_host_k8s.Oauth.Access.{ParsesSigned, username-verify_access_token}
use easy_host_k8s.Oauth.Registration.{ClientRegistrationRequest}
use easy_host_k8s.Oauth.Endpoints.{
  McpOauthHandler, tokens, register, authorize, token, client_credentials, answer_tokens,
  write_oauth_error,
}
use easy_host_k8s.Server.{Server, mcp_oauth_handler, oauth_service}
use easy_host_k8s.Server.Isolation.{All-SpeaksFor}
use easy_host_k8s.Server.Preservation.{run-After}
use easy_host_k8s.Server.Routes.{
  OauthRoute, get_resource_metadata, get_server_metadata, get_authorize, post_token, post_register,
  oauth_endpoint,
}
use easy_host_k8s.Server.Events.{Event, run, AuthorizesFor, Authorizes}

module _ (h : McpOauthHandler) (username : Bytes) where
  -- Codes are issued to others alone.
  authorize-Unauthorized :
      (r : HttpRequest)
      → AuthorizesFor (λ name. name ≢ username) get_authorize r
      → After (Unauthorized username) (authorize h r)
  authorize-Unauthorized r others w safe = elim (authorize-cases h r w) [
    | inl still ↦ subst (Unauthorized username) (sym still) safe
    | inr (name, client, w', consents, same, issued) ↦
        subst (λ (v : World). Unauthorized username v.db) (sym issued)
          (issue_authorization_code-safe username h.platform h.service _ name _ _ _ _ _ w'
            (others name consents.named) (subst (Unauthorized username) (sym same) safe))
  ]

  register-Unauthorized :
      (o : Option ClientRegistrationRequest) → After (Unauthorized username) (register h o)
  unfolding register
  register-Unauthorized none w safe = safe
  register-Unauthorized (some r) w safe =
      register_client-safe username h.platform h.service r w safe

  token-Unauthorized : (r : HttpRequest) → After (Unauthorized username) (token h r)
  unfolding token
  token-Unauthorized r w safe =
      let (id, secret) = client_credentials r in
      let code =
        exchange_authorization_code-Guards username h.platform h.service id secret
          (field (codes "redirect_uri") r.post_form) (field (codes "code") r.post_form)
          (field (codes "code_verifier") r.post_form) in
      let refresh =
        exchange_refresh_token-Guards username h.platform h.service id secret
          (field (codes "refresh_token") r.post_form) in
      ground (arith, safe, code.behind w safe, refresh.behind w safe)

  answer_tokens-granted :
      (reply : Reply TokenResponse) (t : TokenResponse)
      → (answer_tokens h reply).body ≡ value (tokens t)
      → reply ≡ granted t
  unfolding write_json write_oauth_error
  answer_tokens-granted (granted t') t e = cc
  answer_tokens-granted (refused x) t e = absurd cc

  -- A protocol error is no token.
  write_oauth_error-tokens :
      {A : Type 0} (status : ℕ) (code : Bytes) (t : TokenResponse)
      → (write_oauth_error status code).body ≡ value (tokens t)
      → A
  unfolding write_json write_oauth_error
  write_oauth_error-tokens status code t e = absurd cc

  token-ForAnother :
      (r : HttpRequest) (w : World) (t : TokenResponse)
      → Unauthorized username w.db
      → (token h r w).0.body ≡ value (tokens t)
      → ForAnother username h.platform h.service t
  unfolding token client_credentials
  token-ForAnother r w t safe e =
      let (id, secret) = client_credentials r in
      let grant_type = field (codes "grant_type") r.post_form in
      elim (Bool-cases r.form_parses) [
        | inr bad ↦ write_oauth_error-tokens _ _ t (rw bad at e)
        | inl good ↦ elim (Bool-cases (bytes_eq grant_type (codes "authorization_code"))) [
          | inl is_code ↦
              (exchange_authorization_code-Guards username h.platform h.service id secret _ _
                  _).value
                w t safe (answer_tokens-granted _ t (rw (good, is_code) at e))
          | inr no_code ↦ elim (Bool-cases (bytes_eq grant_type (codes "refresh_token"))) [
            | inl is_refresh ↦
                (exchange_refresh_token-Guards username h.platform h.service id secret _).value w t
                  safe (answer_tokens-granted _ t (rw (good, no_code, is_refresh) at e))
            | inr other ↦ write_oauth_error-tokens _ _ t (rw (good, no_code, other) at e)
          ]
        ]
      ]

module _ (s : Server) (username : Bytes)
    (before : (owner : Bytes) (size : ℕ)
      → After (Unauthorized username) (s.externals.list_before owner size)) where
  oauth_endpoint-Unauthorized :
      (route : OauthRoute) (r : HttpRequest)
      → AuthorizesFor (λ name. name ≢ username) route r
      → After (Unauthorized username) (oauth_endpoint s route r)
  oauth_endpoint-Unauthorized get_resource_metadata r others w safe = safe
  oauth_endpoint-Unauthorized get_server_metadata r others w safe = safe
  oauth_endpoint-Unauthorized get_authorize r others w safe =
      authorize-Unauthorized (mcp_oauth_handler s) username r others w safe
  oauth_endpoint-Unauthorized post_token r others w safe =
      token-Unauthorized (mcp_oauth_handler s) username r w safe
  oauth_endpoint-Unauthorized (post_register request) r others w safe =
      register-Unauthorized (mcp_oauth_handler s) username request w safe

  run-Unauthorized :
      (events : List Event) (w : World)
      → All (Authorizes (λ name. name ≢ username)) events
      → Unauthorized username w.db
      → Unauthorized username (run s events w).db
  run-Unauthorized events w others safe =
      run-After s (Unauthorized-IsKept username s.externals.platform) before
        oauth_endpoint-Unauthorized events w (All-SpeaksFor s events) others safe

  -- Suppose that jwt parses what it signs, that listing with a negative offset brings no code and no
  -- refresh token of a user, and that the tables hold none. Then after any sequence of requests to any
  -- routes of the server in which no request for authorization carries a session of that user, whatever
  -- database calls fail and whatever time passes, no access token that the token endpoint hands out, to
  -- whatever request, is ever accepted for that user.
  pub run-verify_access_token :
      ParsesSigned s.externals.oauth_platform
      → (events : List Event) (w : World) → All (Authorizes (λ name. name ≢ username)) events
      → Unauthorized username w.db
      → (r : HttpRequest) (t : TokenResponse)
      → (token (mcp_oauth_handler s) r (run s events w)).0.body ≡ value (tokens t)
      → (time : ℕ) (v : VerifiedToken)
      → verify_access_token s.externals.oauth_platform (oauth_service s) time t.access_token
        ≡ some v
      → v.username ≢ username
  unfolding mcp_oauth_handler
  run-verify_access_token jwt events w others safe r t handed time v accepted same =
      let still = run-Unauthorized events w others safe in
      let (other, minted, ne, signed) =
        token-ForAnother (mcp_oauth_handler s) username r (run s events w) t still handed in
      let names =
        username-verify_access_token s.externals.oauth_platform jwt (oauth_service s) other minted
          signed time v accepted in
      ne (sym names ∙ same)
