-- ===== src/Examples/Authorize.antt =====
-- A registered client that asks for authorization, with and without a user.
use easy_host_k8s.Prelude.{
  ℕ, ◌≡◌, refl, ◌⊎◌, true, none, some, [], ◌∷◌, ◌++◌, Bytes, codes, bytes_eq, ok, lookup,
}
use easy_host_k8s.Model.{OauthClient, allows_redirect_uri}
use easy_host_k8s.World.{World, query, with_entropy}
use easy_host_k8s.Store.Oauth.{get_oauth_client, create_auth_code}
use easy_host_k8s.Http.{HttpRequest, location, field, session_text, after_answer}
use easy_host_k8s.Oauth.{crypto_rand_string}
use easy_host_k8s.Oauth.Service.{get_client, issue_authorization_code}
use easy_host_k8s.Oauth.Toy.{toy_platform}
use easy_host_k8s.Oauth.Endpoints.{McpOauthHandler, authorize, authorize_query, protocol_error}
use easy_host_k8s.Oauth.Authorize.{IsTarget, authorize-IsTarget}
use easy_host_k8s.Oauth.Consent.{Consents, issuing, authorize-cases, authorize-resumes}
use easy_host_k8s.Web.{sign_in}
use easy_host_k8s.Examples.Oauth.{service, client, oauth_world}
use easy_host_k8s.Examples.Requests.{request}

abbrev handler : McpOauthHandler
handler = record {
  platform = toy_platform;
  service = service;
  urls = record { parses = λ url. true; with_query = λ url parameters. url ++ codes "?" };
  fits = λ session. true;
}

abbrev pub asking : HttpRequest
asking = record request {
  uri = codes "/oauth/authorize?client_id=c1";
  query =
      (codes "client_id", codes "c1")
      ∷ (codes "redirect_uri", codes "http://127.0.0.1/cb")
      ∷ (codes "response_type", codes "code")
      ∷ (codes "code_challenge", codes "abc")
      ∷ (codes "code_challenge_method", codes "S256")
      ∷ [];
}

abbrev by_ann : HttpRequest
by_ann = record asking { session = (codes "username", codes "ann") ∷ [] }

-- Ann's browser is sent back to the client.
sent_back : (authorize handler by_ann oauth_world).0.body ≡ location (codes "http://127.0.0.1/cb?")
unfolding authorize authorize_query protocol_error get_client get_oauth_client query field lookup
    session_text bytes_eq allows_redirect_uri issue_authorization_code crypto_rand_string
    create_auth_code with_entropy
sent_back = refl

authorize-IsTarget_example : IsTarget handler oauth_world by_ann (codes "http://127.0.0.1/cb?")
authorize-IsTarget_example =
    authorize-IsTarget handler by_ann oauth_world (codes "http://127.0.0.1/cb?") sent_back

authorize-cases_example :
    ((authorize handler by_ann oauth_world).1.db ≡ oauth_world.db)
    ⊎ ((username : Bytes) × (client : OauthClient) × (w' : World) × Consents handler by_ann
          oauth_world username client
        × (w'.db ≡ oauth_world.db)
        × ((authorize handler by_ann oauth_world).1
            ≡ (issuing handler (authorize_query by_ann) username w').1))
authorize-cases_example = authorize-cases handler by_ann oauth_world

known :
    (get_client toy_platform service (authorize_query asking).client_id oauth_world).0
    ≡ ok (some client)
unfolding get_client get_oauth_client query authorize_query field lookup bytes_eq
known = refl

allowed : allows_redirect_uri client (authorize_query asking).redirect_uri ≡ true
unfolding allows_redirect_uri authorize_query field lookup bytes_eq
allowed = refl

valid : protocol_error handler (authorize_query asking) ≡ none
unfolding protocol_error authorize_query field lookup bytes_eq
valid = refl

nobody : session_text (codes "username") asking.session ≡ none
unfolding session_text field lookup
nobody = refl

authorize-resumes_example :
    ((authorize handler asking oauth_world).0.body ≡ location (codes "/login"))
    × ((sign_in {V = ℕ} handler.fits
          (after_answer asking.session (authorize handler asking oauth_world).0.saved)
          (codes "ann")).body
        ≡ location asking.uri)
authorize-resumes_example =
    authorize-resumes handler {V = ℕ} asking oauth_world client (codes "ann") (λ session. refl)
      nobody known allowed valid refl refl
