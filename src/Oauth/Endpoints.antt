-- ===== src/Oauth/Endpoints.antt =====
-- backend-go/internal/handler/mcpoauth.go: the endpoints of the OAuth server. Decoding JSON and URLs is
-- the work of libraries: `Urls` stands for net/url, and a request for registration is what its body
-- decodes to, if it does.
use easy_host_k8s.Prelude.{
  ℕ, Bool, not, ◌&&◌, Option, none, some, List, [], ◌∷◌, Bytes, codes, bytes_eq, is_empty,
  if◌then◌else◌, Result, ok, err, insert,
}
use easy_host_k8s.Model.{OauthClient, allows_redirect_uri}
use easy_host_k8s.World.{World}
use easy_host_k8s.Http.{
  Session, HttpRequest, Answer, error_answer, redirect_answer, field, session_text, save,
  write_json,
}
use easy_host_k8s.Oauth.{Reply, granted, refused, OauthPlatform, OauthService, resource}
use easy_host_k8s.Oauth.Registration.{
  ClientRegistrationRequest, ClientRegistrationResponse, register_client,
}
use easy_host_k8s.Oauth.Service.{
  ProtectedResourceMetadata, AuthorizationServerMetadata, TokenResponse,
  protected_resource_metadata, authorization_server_metadata, get_client, issue_authorization_code,
  exchange_authorization_code, exchange_refresh_token,
}
use easy_host_k8s.Web.{post_login_redirect_key}

pub record Urls : Type 0 where
  -- url.Parse succeeds
  pub parses : Bytes → Bool
  -- a URL with parameters set in its query
  pub with_query : Bytes → List (Bytes × Bytes) → Bytes

pub record McpOauthHandler : Type 0 where
  pub platform : OauthPlatform
  pub service : OauthService
  pub urls : Urls
  pub fits : Session → Bool

-- What is written as JSON
pub data OauthValue : Type 0 where
  resource_metadata : ProtectedResourceMetadata → OauthValue
  server_metadata : AuthorizationServerMetadata → OauthValue
  registered_client : ClientRegistrationResponse → OauthValue
  tokens : TokenResponse → OauthValue
  oauth_problem : Bytes → OauthValue

-- The query of a request for authorization
pub record AuthorizeQuery : Type 0 where
  pub client_id : Bytes
  pub redirect_uri : Bytes
  pub response_type : Bytes
  pub state : Bytes
  pub code_challenge : Bytes
  pub code_challenge_method : Bytes
  pub scope : Bytes
  pub target : Bytes

unfoldable pub authorize_query : HttpRequest → AuthorizeQuery
authorize_query r = record {
  client_id = field (codes "client_id") r.query;
  redirect_uri = field (codes "redirect_uri") r.query;
  response_type = field (codes "response_type") r.query;
  state = field (codes "state") r.query;
  code_challenge = field (codes "code_challenge") r.query;
  code_challenge_method = field (codes "code_challenge_method") r.query;
  scope = field (codes "scope") r.query;
  target = field (codes "resource") r.query;
}

-- writeOAuthError; its description is left out
unfoldable pub write_oauth_error : ℕ → Bytes → Answer OauthValue
write_oauth_error status code = write_json status (oauth_problem code)

-- clientCredentials
abbrev pub credentials_or : Option (Bytes × Bytes) → Bytes × Bytes → Bytes × Bytes
credentials_or none posted = posted
credentials_or (some sent) posted = sent

unfoldable pub client_credentials : HttpRequest → Bytes × Bytes
client_credentials r =
    credentials_or r.credentials
      (field (codes "client_id") r.post_form, field (codes "client_secret") r.post_form)

abbrev pub state_parameter : Bytes → List (Bytes × Bytes)
state_parameter state = if is_empty state then [] else (codes "state", state) ∷ []

module _ (h : McpOauthHandler) where
  open h use {platform, service, urls, fits}

  -- ProtectedResourceMetadata and AuthorizationServerMetadata
  unfoldable pub metadata_endpoint : Answer OauthValue
  metadata_endpoint =
      write_json 200 (resource_metadata (protected_resource_metadata platform service))

  unfoldable pub server_metadata_endpoint : Answer OauthValue
  server_metadata_endpoint =
      write_json 200 (server_metadata (authorization_server_metadata platform service))

  abbrev pub answer_registration : Reply ClientRegistrationResponse → Answer OauthValue
  answer_registration (granted c) = write_json 201 (registered_client c)
  answer_registration (refused e) = write_oauth_error e.status e.code

  -- Register
  unfoldable pub register : Option ClientRegistrationRequest → World → Answer OauthValue × World
  register none w = (write_oauth_error 400 (codes "invalid_client_metadata"), w)
  register (some r) w =
      let (reply, w') = register_client platform r w in (answer_registration reply, w')

  -- redirectAuthError; the error's description is left out
  unfoldable pub redirect_auth_error : Bytes → Bytes → Bytes → Answer OauthValue
  redirect_auth_error redirect_uri state code =
      if urls.parses redirect_uri
      then redirect_answer none
          (urls.with_query redirect_uri ((codes "error", code) ∷ state_parameter state))
      else error_answer 400 code

  abbrev pub answer_code : AuthorizeQuery → Result Bytes → Answer OauthValue
  answer_code q (err e) = redirect_auth_error q.redirect_uri q.state (codes "server_error")
  answer_code q (ok code) =
      redirect_answer none
        (urls.with_query q.redirect_uri ((codes "code", code) ∷ state_parameter q.state))

  -- The end of Authorize, for the user of the session, if there is one
  abbrev pub authorize_user :
      AuthorizeQuery → HttpRequest → Option Bytes → World → Answer OauthValue × World
  authorize_user q r none w = (
    redirect_answer (save fits (insert post_login_redirect_key r.uri r.session)) (codes "/login"),
    w,
  )
  authorize_user q r (some username) w =
      let (code, w') =
        issue_authorization_code platform service q.client_id username q.redirect_uri
          q.code_challenge q.code_challenge_method q.scope q.target w in
      (answer_code q code, w')

  -- The first protocol error of a request, behind the checks of the client and its redirect URI
  unfoldable pub protocol_error : AuthorizeQuery → Option Bytes
  protocol_error q =
      if not (bytes_eq q.response_type (codes "code"))
      then some (codes "unsupported_response_type")
      else if is_empty q.code_challenge
      then some (codes "invalid_request")
      else if not (bytes_eq q.code_challenge_method (codes "S256"))
      then some (codes "invalid_request")
      else if not (is_empty q.target) && not (bytes_eq q.target (resource service))
      then some (codes "invalid_target")
      else none

  abbrev pub authorize_valid :
      AuthorizeQuery → HttpRequest → Option Bytes → World → Answer OauthValue × World
  authorize_valid q r (some code) w = (redirect_auth_error q.redirect_uri q.state code, w)
  authorize_valid q r none w = authorize_user q r (session_text (codes "username") r.session) w

  abbrev pub authorize_client :
      AuthorizeQuery → HttpRequest → Result (Option OauthClient) → World → Answer OauthValue × World
  authorize_client q r (err e) w = (error_answer 500 (codes "internal error"), w)
  authorize_client q r (ok none) w = (error_answer 400 (codes "invalid client_id"), w)
  authorize_client q r (ok (some client)) w =
      if not (allows_redirect_uri client q.redirect_uri)
      then (error_answer 400 (codes "invalid redirect_uri"), w)
      else authorize_valid q r (protocol_error q) w

  -- Authorize
  unfoldable pub authorize : HttpRequest → World → Answer OauthValue × World
  authorize r w =
      let (client, w') = get_client platform service (field (codes "client_id") r.query) w in
      authorize_client (authorize_query r) r client w'

  abbrev pub answer_tokens : Reply TokenResponse → Answer OauthValue
  answer_tokens (refused e) = write_oauth_error e.status e.code
  answer_tokens (granted t) = record (write_json 200 (tokens t)) {
    headers =
        (codes "Cache-Control", codes "no-store")
        ∷ (codes "Pragma", codes "no-cache")
        ∷ (codes "Content-Type", codes "application/json")
        ∷ [];
  }

  -- Token
  unfoldable pub token : HttpRequest → World → Answer OauthValue × World
  token r w =
      let (client_id, client_secret) = client_credentials r in
      let grant_type = field (codes "grant_type") r.post_form in
      if not r.form_parses
      then (write_oauth_error 400 (codes "invalid_request"), w)
      else if bytes_eq grant_type (codes "authorization_code")
      then (let (reply, w') =
            exchange_authorization_code platform service client_id client_secret
              (field (codes "redirect_uri") r.post_form) (field (codes "code") r.post_form)
              (field (codes "code_verifier") r.post_form) w in
          (answer_tokens reply, w'))
      else if bytes_eq grant_type (codes "refresh_token")
      then (let (reply, w') =
            exchange_refresh_token platform service client_id client_secret
              (field (codes "refresh_token") r.post_form) w in
          (answer_tokens reply, w'))
      else (write_oauth_error 400 (codes "unsupported_grant_type"), w)
