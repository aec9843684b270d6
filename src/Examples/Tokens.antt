-- ===== src/Examples/Tokens.antt =====
-- Bob lets a client act for him, and nobody is handed a token in Ann's name.
use easy_host_k8s.Prelude.{
  ◌≡◌, refl, ◌≢◌, some, List, [], ◌∷◌, map, Bytes, codes, bytes_eq, All, lookup,
}
use easy_host_k8s.Model.{AuthCode, allows_redirect_uri, is_public}
use easy_host_k8s.World.{World, query, with_entropy}
use easy_host_k8s.Store.Oauth.{
  get_oauth_client, create_auth_code, consume_auth_code, create_refresh_token,
}
use easy_host_k8s.Http.{HttpRequest, Payload, value, field, session_text, write_json}
use easy_host_k8s.Middleware.{cors}
use easy_host_k8s.Oauth.{
  crypto_rand_string, hash_token, verify_pkce, audience_matches, fields, new_oauth_service,
  resource, issuer,
}
use easy_host_k8s.Oauth.Service.{
  TokenResponse, VerifiedToken, get_client, issue_authorization_code, verify_access_token,
  exchange_authorization_code, authenticate_client, issue_tokens, generate_access_token,
}
use easy_host_k8s.Crypto.Toy.{strip}
use easy_host_k8s.Oauth.Toy
use easy_host_k8s.Oauth.Toy.{toy_platform, toy_platform-ParsesSigned}
use easy_host_k8s.Oauth.Endpoints.{
  OauthValue, authorize, authorize_query, protocol_error, token, tokens, client_credentials,
  write_oauth_error,
}
use easy_host_k8s.Server.{base_url, mcp_oauth_handler, oauth_service}
use easy_host_k8s.Server.Events.{Event, oauth, passes, step, run, Authorizes}
use easy_host_k8s.Server.Routes.{get_authorize, serve_oauth}
use easy_host_k8s.Server.Tokens.{run-verify_access_token}
use easy_host_k8s.Examples.Oauth.{oauth_world}
use easy_host_k8s.Examples.Requests.{request}
use easy_host_k8s.Examples.Authorize.{asking}
use easy_host_k8s.Examples.Servers.{server, bob_ne_ann}

abbrev by_bob : HttpRequest
by_bob = record asking {
  session = (codes "username", codes "bob") ∷ [];
  query =
      (codes "client_id", codes "c1")
      ∷ (codes "redirect_uri", codes "http://127.0.0.1/cb")
      ∷ (codes "response_type", codes "code")
      ∷ (codes "code_challenge", 7 ∷ codes "verifier")
      ∷ (codes "code_challenge_method", codes "S256")
      ∷ [];
}

abbrev events : List Event
events = oauth get_authorize by_bob ∷ passes 60 ∷ []

abbrev reached : World
reached = run server events oauth_world

bobs_code : map (λ c. c.username) reached.db.auth_codes ≡ codes "bob" ∷ []
unfolding run step serve_oauth cors mcp_oauth_handler authorize authorize_query protocol_error
    get_client get_oauth_client query field lookup session_text bytes_eq allows_redirect_uri
    issue_authorization_code crypto_rand_string create_auth_code with_entropy oauth_service
bobs_code = refl

others : All (Authorizes (λ name. name ≢ codes "ann")) events
unfolding session_text field lookup bytes_eq
others = (λ username named same. bob_ne_ann cc, (tt, tt))

-- The client redeems the code for Bob.
abbrev code_in : List AuthCode → Bytes
code_in [] = []
code_in (c ∷ rows) = c.code

abbrev redeeming : HttpRequest
redeeming = record request {
  post_form =
      (codes "grant_type", codes "authorization_code")
      ∷ (codes "client_id", codes "c1")
      ∷ (codes "redirect_uri", codes "http://127.0.0.1/cb")
      ∷ (codes "code", code_in reached.db.auth_codes)
      ∷ (codes "code_verifier", codes "verifier")
      ∷ [];
}

abbrev no_tokens : TokenResponse
no_tokens = record {
  access_token = [];
  token_type = [];
  expires_in = 0;
  refresh_token = [];
  scope = [];
}

abbrev tokens_in : Payload OauthValue → TokenResponse
tokens_in (value (tokens t)) = t
tokens_in _ = no_tokens

abbrev handed : TokenResponse
handed = tokens_in (token (mcp_oauth_handler server) redeeming reached).0.body

handed_out : (token (mcp_oauth_handler server) redeeming reached).0.body ≡ value (tokens handed)
unfolding run step serve_oauth cors mcp_oauth_handler authorize authorize_query protocol_error
    get_client get_oauth_client query field lookup session_text bytes_eq allows_redirect_uri
    issue_authorization_code crypto_rand_string create_auth_code with_entropy oauth_service token
    client_credentials exchange_authorization_code authenticate_client is_public consume_auth_code
    verify_pkce issue_tokens generate_access_token create_refresh_token hash_token write_json
    write_oauth_error
handed_out = refl

abbrev by_token : VerifiedToken
by_token = record { username = codes "bob"; scopes = codes "mcp" ∷ []; expires_at = some 3600 }

accepted :
    verify_access_token toy_platform (oauth_service server) 2000 handed.access_token ≡ some by_token
unfolding run step serve_oauth cors mcp_oauth_handler authorize authorize_query protocol_error
    get_client get_oauth_client query field lookup session_text bytes_eq allows_redirect_uri
    issue_authorization_code crypto_rand_string create_auth_code with_entropy oauth_service token
    client_credentials exchange_authorization_code authenticate_client is_public consume_auth_code
    verify_pkce issue_tokens generate_access_token create_refresh_token hash_token write_json
    write_oauth_error verify_access_token audience_matches fields strip Toy.field Toy.unfield
    new_oauth_service base_url resource issuer
accepted = refl

run-verify_access_token_example : codes "bob" ≢ codes "ann"
run-verify_access_token_example =
    run-verify_access_token server (codes "ann") (λ owner size w safe. safe)
      toy_platform-ParsesSigned events oauth_world others (record { no_code = tt; no_token = tt })
      redeeming handed handed_out 2000 by_token accepted
