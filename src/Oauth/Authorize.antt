-- ===== src/Oauth/Authorize.antt =====
-- The authorization endpoint: where it sends a browser, and to whom it issues codes.
use easy_host_k8s.Prelude.{
  ◌≡◌, refl, ◌⊎◌, inl, inr, true, Option, none, some, List, ◌∷◌, Bytes, codes, Result, ok, err,
  arith, Bool-cases,
}
use easy_host_k8s.Model.{OauthClient, allows_redirect_uri}
use easy_host_k8s.World.{World, query}
use easy_host_k8s.Store.{find}
use easy_host_k8s.Store.Oauth.{get_oauth_client, is_client}
use easy_host_k8s.Http.{HttpRequest, Answer, location, field, session_text}
use easy_host_k8s.Oauth.Service.{get_client, issue_authorization_code}
use easy_host_k8s.Oauth.Endpoints.{
  McpOauthHandler, OauthValue, AuthorizeQuery, authorize_query, redirect_auth_error, answer_code,
  authorize_user, authorize_client, authorize, state_parameter, authorize_valid, protocol_error,
}

module _ (h : McpOauthHandler) where
  open h use {platform, service, urls}

  -- A place that the endpoint may send a browser to
  abbrev pub IsTarget : World → HttpRequest → Bytes → Type 0
  IsTarget w r target =
      (target ≡ codes "/login")
      ⊎ ((client : OauthClient) × (parameters : List (Bytes × Bytes)) × (find
              (is_client platform.collate (field (codes "client_id") r.query)) w.db.oauth_clients
            ≡ some client)
          × (allows_redirect_uri client (field (codes "redirect_uri") r.query) ≡ true)
          × (target ≡ urls.with_query (field (codes "redirect_uri") r.query) parameters))

  -- An answer to a client's error or success goes to the redirect URI of the request.
  abbrev StaysAt : AuthorizeQuery → Answer OauthValue → Type 0
  StaysAt q a =
      (target : Bytes)
      → a.body ≡ location target
      → (target ≡ codes "/login")
        ⊎ ((parameters : List (Bytes × Bytes)) × (target
              ≡ urls.with_query q.redirect_uri parameters))

  redirect_auth_error-StaysAt :
      (q : AuthorizeQuery) (code : Bytes)
      → StaysAt q (redirect_auth_error h q.redirect_uri q.state code)
  unfolding redirect_auth_error
  redirect_auth_error-StaysAt q code target sent = elim (Bool-cases (urls.parses q.redirect_uri)) [
    | inl parses ↦
        inr ((codes "error", code) ∷ state_parameter q.state, ground (arith, parses, sent))
    | inr broken ↦ absurd (ground (arith, broken, sent))
  ]

  answer_code-StaysAt :
      (q : AuthorizeQuery) (code : Result Bytes) → StaysAt q (answer_code h q code)
  answer_code-StaysAt q (err e) target sent =
      redirect_auth_error-StaysAt q (codes "server_error") target sent
  answer_code-StaysAt q (ok code) target sent =
      inr ((codes "code", code) ∷ state_parameter q.state, cc)

  authorize_user-StaysAt :
      (q : AuthorizeQuery) (r : HttpRequest) (o : Option Bytes) (w : World)
      → StaysAt q (authorize_user h q r o w).0
  authorize_user-StaysAt q r none w target sent = inl cc
  authorize_user-StaysAt q r (some username) w target sent =
      answer_code-StaysAt q
        (issue_authorization_code platform service q.client_id username q.redirect_uri
          q.code_challenge q.code_challenge_method q.scope q.target w).0
        target sent

  authorize_valid-StaysAt :
      (q : AuthorizeQuery) (r : HttpRequest) (o : Option Bytes) (w : World)
      → StaysAt q (authorize_valid h q r o w).0
  authorize_valid-StaysAt q r (some code) w target sent =
      redirect_auth_error-StaysAt q code target sent
  authorize_valid-StaysAt q r none w target sent =
      authorize_user-StaysAt q r (session_text (codes "username") r.session) w target sent

  authorize_client-IsTarget :
      (q : AuthorizeQuery) (r : HttpRequest) (o : Result (Option OauthClient)) (w : World)
      (target : Bytes)
      → (authorize_client h q r o w).0.body ≡ location target
      → (target ≡ codes "/login")
        ⊎ ((client : OauthClient) × (parameters : List (Bytes × Bytes)) × (o ≡ ok (some client))
            × (allows_redirect_uri client q.redirect_uri ≡ true)
            × (target ≡ urls.with_query q.redirect_uri parameters))
  authorize_client-IsTarget q r (err e) w target sent = absurd cc
  authorize_client-IsTarget q r (ok none) w target sent = absurd cc
  authorize_client-IsTarget q r (ok (some client)) w target sent =
      elim (Bool-cases (allows_redirect_uri client q.redirect_uri)) [
        | inl allowed ↦
            elim (authorize_valid-StaysAt q r (protocol_error h q) w target
              (ground (arith, allowed, sent))) [
                | inl login ↦ inl login
                | inr (parameters, e) ↦ inr (client, parameters, refl, allowed, e)
              ]
        | inr other ↦ absurd (ground (arith, other, sent))
      ]

  get_client-eq-ok :
      (w : World) (client_id : Bytes) (client : OauthClient)
      → (get_client platform service client_id w).0 ≡ ok (some client)
      → find (is_client platform.collate client_id) w.db.oauth_clients ≡ some client
  unfolding get_client get_oauth_client query
  get_client-eq-ok w client_id client e = ground arith

  -- Wherever the authorization endpoint redirects a browser to, it is the login page, or the redirect
  -- URI of the request with parameters set, and that URI is one that the client of the request has
  -- registered: a browser is never sent anywhere else.
  pub authorize-IsTarget :
      (r : HttpRequest) (w : World) (target : Bytes)
      → (authorize h r w).0.body ≡ location target
      → IsTarget w r target
  unfolding authorize authorize_query
  authorize-IsTarget r w target sent =
      elim (authorize_client-IsTarget (authorize_query r) r
        (get_client platform service (field (codes "client_id") r.query) w).0
        (get_client platform service (field (codes "client_id") r.query) w).1 target sent) [
          | inl login ↦ inl login
          | inr (client, parameters, known, allowed, e) ↦
              inr (client, parameters, get_client-eq-ok w _ client known, allowed, e)
        ]
