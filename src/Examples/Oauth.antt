-- ===== src/Examples/Oauth.antt =====
-- A client that is given a code, exchanges it for tokens, and refreshes them.
use easy_host_k8s.Prelude.{
  ◌+◌, ◌*◌, ◌≤◌, inl, ◌≡◌, refl, ◌≢◌, true, false, none, some, [], ◌∷◌, ◌++◌, Bytes, codes,
  bytes_eq, bytes_ne, ok, err, Result, arith, ltb, if◌then◌else◌, ◌^◌,
}
use easy_host_k8s.Model.{OauthClient, RefreshToken, is_public}
use easy_host_k8s.World.{World, query, with_entropy}
use easy_host_k8s.Store.{find}
use easy_host_k8s.Store.Queries.{text_eq}
use easy_host_k8s.Store.Oauth.{
  get_oauth_client, create_auth_code, consume_auth_code, create_refresh_token,
  consume_refresh_token, is_token,
}
use easy_host_k8s.Oauth.{
  Reply, granted, refused, OauthService, hash_token, verify_pkce, crypto_rand_string, auth_code_ttl,
  issuer, resource,
}
use easy_host_k8s.Oauth.Service.{
  TokenResponse, authenticate_client, issue_tokens, generate_access_token, issue_authorization_code,
  exchange_authorization_code, exchange_refresh_token, verify_access_token,
}
use easy_host_k8s.Oauth.Codes.{IsAuthenticated}
use easy_host_k8s.Oauth.Exchange.{
  IsJustified, exchange_authorization_code-eq-granted, exchange_authorization_code-once,
}
use easy_host_k8s.Oauth.Honours.{is_honoured, is_honoured-exchange_authorization_code}
use easy_host_k8s.Oauth.Refresh.{IsRefreshable, issued_row}
use easy_host_k8s.Oauth.Rotation.{exchange_refresh_token-eq-granted, exchange_refresh_token-once}
use easy_host_k8s.Oauth.Access.{
  expiry, verify_access_token-generate_access_token, verify_access_token-other_resource,
}
use easy_host_k8s.Oauth.Toy.{toy_platform, toy_platform-ParsesSigned, field}
use easy_host_k8s.Examples.Content.{world}

abbrev pub service : OauthService
service = record { base_url = codes "https://a.example"; sign_secret = codes "key" }

abbrev other_service : OauthService
other_service = record { base_url = codes "https://b.example"; sign_secret = codes "key" }

abbrev pub client : OauthClient
client = record {
  client_id = codes "c1";
  client_secret_hash = [];
  client_name = codes "Tool";
  redirect_uris = codes "http://127.0.0.1/cb" ∷ [];
  grant_types = codes "authorization_code" ∷ [];
  response_types = codes "code" ∷ [];
  token_endpoint_auth_method = codes "none";
  scope = [];
}

abbrev pub oauth_world : World
oauth_world = record world { db = record world.db { oauth_clients = client ∷ [] } }

abbrev dummy : TokenResponse
dummy = record {
  access_token = [];
  token_type = [];
  expires_in = 0;
  refresh_token = [];
  scope = [];
}

abbrev response : Reply TokenResponse → TokenResponse
response (granted t) = t
response (refused _) = dummy

abbrev code_in : Result Bytes → Bytes
code_in (ok c) = c
code_in (err _) = []

abbrev challenge : Bytes
challenge = 7 ∷ codes "verifier"

-- Issuing a code
abbrev issuing : Result Bytes × World
issuing =
    issue_authorization_code toy_platform service (codes "c1") (codes "ann") (codes "cb") challenge
      (codes "S256") [] [] oauth_world

issued :
    issue_authorization_code toy_platform service
      (codes "c1")
      (codes "ann")
      (codes "cb")
      challenge
      (codes "S256")
      []
      []
      oauth_world
    ≡ (ok (code_in issuing.0), issuing.1)
unfolding issue_authorization_code crypto_rand_string create_auth_code query with_entropy bytes_eq
issued = refl

abbrev exchanging : Reply TokenResponse × World
exchanging =
    exchange_authorization_code toy_platform service (codes "c1") [] (codes "cb")
      (code_in issuing.0) (codes "verifier") issuing.1

exchanged :
    exchange_authorization_code toy_platform service
      (codes "c1")
      []
      (codes "cb")
      (code_in issuing.0)
      (codes "verifier")
      issuing.1
    ≡ (granted (response exchanging.0), exchanging.1)
unfolding exchange_authorization_code authenticate_client get_oauth_client is_public
    consume_auth_code verify_pkce issue_tokens generate_access_token create_refresh_token hash_token
    issue_authorization_code crypto_rand_string create_auth_code query with_entropy bytes_eq
exchanged = refl

client-IsAuthenticated : IsAuthenticated toy_platform issuing.1 (codes "c1") [] client
unfolding issue_authorization_code crypto_rand_string create_auth_code query with_entropy bytes_eq
    is_public
client-IsAuthenticated = record { registered = refl; proven = inl refl }

in_time : issuing.1.clock ≤ toy_platform.stored_time (oauth_world.clock + auth_code_ttl)
unfolding issue_authorization_code crypto_rand_string create_auth_code query with_entropy bytes_eq
in_time = omega arith

is_honoured-exchange_authorization_code_example : is_honoured exchanging.0 ≡ true
is_honoured-exchange_authorization_code_example =
    is_honoured-exchange_authorization_code toy_platform service (codes "c1") (codes "ann")
      (codes "cb") challenge [] [] oauth_world issuing.1 (code_in issuing.0) issued []
      (codes "verifier") client issuing.1 client-IsAuthenticated refl refl refl refl refl in_time

exchange_authorization_code-eq-granted_example :
    (username : Bytes) × IsJustified toy_platform issuing.1
      (codes "c1")
      []
      (codes "cb")
      (code_in issuing.0)
      (codes "verifier")
      username
    × (generate_access_token toy_platform service username issuing.1.clock
        ≡ some (response exchanging.0).access_token)
exchange_authorization_code-eq-granted_example =
    exchange_authorization_code-eq-granted toy_platform service (codes "c1") [] (codes "cb")
      (code_in issuing.0) (codes "verifier") issuing.1 exchanging.1 (response exchanging.0)
      exchanged

exchange_authorization_code-once_example :
    (exchange_authorization_code toy_platform service
      (codes "c1")
      []
      (codes "cb")
      (code_in issuing.0)
      (codes "verifier")
      exchanging.1).0
    ≢ granted dummy
exchange_authorization_code-once_example =
    exchange_authorization_code-once toy_platform service (codes "c1") [] (codes "cb")
      (code_in issuing.0) (codes "verifier") issuing.1 exchanging.1 (response exchanging.0)
      exchanged (codes "c1") [] (codes "cb") (codes "verifier") exchanging.1 dummy refl

-- The refresh token of that exchange
abbrev first_token : Bytes
first_token = (response exchanging.0).refresh_token

abbrev refreshing : Reply TokenResponse × World
refreshing = exchange_refresh_token toy_platform service (codes "c1") [] first_token exchanging.1

refreshed :
    exchange_refresh_token toy_platform service (codes "c1") [] first_token exchanging.1
    ≡ (granted (response refreshing.0), refreshing.1)
unfolding exchange_refresh_token consume_refresh_token exchange_authorization_code
    authenticate_client get_oauth_client is_public consume_auth_code verify_pkce issue_tokens
    generate_access_token create_refresh_token hash_token issue_authorization_code
    crypto_rand_string create_auth_code query with_entropy bytes_eq
refreshed = refl

exchange_refresh_token-eq-granted_example :
    (c : OauthClient) × (row : RefreshToken) × IsRefreshable toy_platform exchanging.1
      (codes "c1")
      []
      first_token
      c
      row
    × (generate_access_token toy_platform service row.username exchanging.1.clock
        ≡ some (response refreshing.0).access_token)
    × (find
          (is_token toy_platform.collate
            (hash_token toy_platform (response refreshing.0).refresh_token))
          refreshing.1.db.refresh_tokens
        ≡ some (
            issued_row toy_platform service c.client_id row.username row.resource exchanging.1.clock
              (response refreshing.0)))
exchange_refresh_token-eq-granted_example =
    exchange_refresh_token-eq-granted toy_platform service (codes "c1") [] first_token exchanging.1
      refreshing.1 (response refreshing.0) refreshed

differ :
    text_eq toy_platform.collate
      (hash_token toy_platform (response refreshing.0).refresh_token)
      (hash_token toy_platform first_token)
    ≡ false
unfolding exchange_refresh_token consume_refresh_token exchange_authorization_code
    authenticate_client get_oauth_client is_public consume_auth_code verify_pkce issue_tokens
    generate_access_token create_refresh_token hash_token issue_authorization_code
    crypto_rand_string create_auth_code query with_entropy bytes_eq
differ = refl

exchange_refresh_token-once_example :
    (exchange_refresh_token toy_platform service (codes "c1") [] first_token refreshing.1).0
    ≢ granted dummy
exchange_refresh_token-once_example =
    exchange_refresh_token-once toy_platform service (codes "c1") [] first_token exchanging.1
      refreshing.1 (response refreshing.0) refreshed (codes "c1") [] refreshing.1 dummy differ refl

-- The access token of "ann", minted at time 10
abbrev access : Bytes
access =
    field (codes "key") []
    ++ (0
        ∷ 3600
        ∷ field (codes "ann") (
            field (codes "mcp")
              (field (codes "https://a.example/mcp") (codes "https://a.example"))))

access_signed : generate_access_token toy_platform service (codes "ann") 10 ≡ some access
unfolding generate_access_token resource issuer
access_signed = refl

verify_access_token-generate_access_token_example :
    verify_access_token toy_platform service 2000 access ≡ (
      if ltb 2000 (expiry 10 * 10 ^ 9)
      then some (record {
        username = codes "ann";
        scopes = codes "mcp" ∷ [];
        expires_at = some (expiry 10);
      })
      else none)
verify_access_token-generate_access_token_example =
    verify_access_token-generate_access_token toy_platform toy_platform-ParsesSigned service
      (codes "ann") 10 access_signed 2000 refl

other_resource : resource service ≢ resource other_service
unfolding resource bytes_eq
other_resource = bytes_ne (codes "https://a.example/mcp") (codes "https://b.example/mcp") refl

verify_access_token-other_resource_example :
    verify_access_token toy_platform other_service 2000 access ≡ none
verify_access_token-other_resource_example =
    verify_access_token-other_resource toy_platform toy_platform-ParsesSigned service (codes "ann")
      10 access_signed other_service 2000 refl other_resource
