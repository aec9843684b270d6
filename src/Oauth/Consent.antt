-- ===== src/Oauth/Consent.antt =====
-- The authorization endpoint: whose codes it issues, and how it resumes behind a sign-in.
use easy_host_k8s.Prelude.{
  ◌≡◌, refl, ◌⊎◌, inl, inr, ◌∙◌, ap, true, false, Option, none, some, Bytes, codes, bytes_eq_iff,
  is_empty, Result, ok, err, arith, Bool-cases, insert,
}
use easy_host_k8s.Model.{OauthClient, allows_redirect_uri}
use easy_host_k8s.World.{World, query}
use easy_host_k8s.Store.{find}
use easy_host_k8s.Store.Oauth.{get_oauth_client, is_client}
use easy_host_k8s.Http.{Session, HttpRequest, location, field, session_text, after_answer, save}
use easy_host_k8s.Oauth.Service.{get_client, issue_authorization_code}
use easy_host_k8s.Oauth.Endpoints.{
  McpOauthHandler, AuthorizeQuery, authorize_query, authorize_user, authorize_valid,
  authorize_client, authorize, protocol_error,
}
use easy_host_k8s.Web.{post_login_redirect_key, sign_in}
use easy_host_k8s.Web.Sessions.{destination, session_text-insert, sign_in-Lands}

-- What has been checked when a code is issued: for whom, for which client
pub record Consents (h : McpOauthHandler) (r : HttpRequest) (w : World) (username : Bytes)
    (client : OauthClient) : Type 0 where
  pub named : session_text (codes "username") r.session ≡ some username
  pub registered :
      find (is_client h.platform.collate (authorize_query r).client_id) w.db.oauth_clients
      ≡ some client
  pub allowed : allows_redirect_uri client (authorize_query r).redirect_uri ≡ true
  pub challenged : is_empty (authorize_query r).code_challenge ≡ false
  pub method : (authorize_query r).code_challenge_method ≡ codes "S256"

module _ (h : McpOauthHandler) where
  open h use {platform, service, fits}

  -- IssueAuthorizationCode for the user and the query of a request
  abbrev pub issuing : AuthorizeQuery → Bytes → World → Result Bytes × World
  issuing q username =
      issue_authorization_code platform service q.client_id username q.redirect_uri q.code_challenge
        q.code_challenge_method q.scope q.target

  protocol_error-none :
      (q : AuthorizeQuery)
      → protocol_error h q ≡ none
      → (is_empty q.code_challenge ≡ false) × (q.code_challenge_method ≡ codes "S256")
  unfolding protocol_error
  protocol_error-none q valid = (
    ground (arith, valid),
    ground (arith, valid, bytes_eq_iff q.code_challenge_method (codes "S256")),
  )

  authorize_user-cases :
      (q : AuthorizeQuery) (r : HttpRequest) (o : Option Bytes) (w : World)
      → ((authorize_user h q r o w).1 ≡ w)
        ⊎ ((username : Bytes) × (o ≡ some username)
            × ((authorize_user h q r o w).1 ≡ (issuing q username w).1))
  authorize_user-cases q r none w = inl refl
  authorize_user-cases q r (some username) w = inr (username, refl, refl)

  authorize_valid-cases :
      (q : AuthorizeQuery) (r : HttpRequest) (o : Option Bytes) (w : World)
      → ((authorize_valid h q r o w).1 ≡ w)
        ⊎ ((username : Bytes) × (o ≡ none)
            × (session_text (codes "username") r.session ≡ some username)
            × ((authorize_valid h q r o w).1 ≡ (issuing q username w).1))
  authorize_valid-cases q r (some code) w = inl refl
  authorize_valid-cases q r none w =
      elim (authorize_user-cases q r (session_text (codes "username") r.session) w) [
        | inl still ↦ inl still
        | inr (username, named, issued) ↦ inr (username, refl, named, issued)
      ]

  authorize_client-cases :
      (q : AuthorizeQuery) (r : HttpRequest) (o : Result (Option OauthClient)) (w : World)
      → ((authorize_client h q r o w).1 ≡ w)
        ⊎ ((username : Bytes) × (client : OauthClient) × (o ≡ ok (some client))
            × (allows_redirect_uri client q.redirect_uri ≡ true)
            × (protocol_error h q ≡ none)
            × (session_text (codes "username") r.session ≡ some username)
            × ((authorize_client h q r o w).1 ≡ (issuing q username w).1))
  authorize_client-cases q r (err e) w = inl refl
  authorize_client-cases q r (ok none) w = inl refl
  authorize_client-cases q r (ok (some client)) w =
      elim (Bool-cases (allows_redirect_uri client q.redirect_uri)) [
        | inl allowed ↦ elim (authorize_valid-cases q r (protocol_error h q) w) [
          | inl still ↦ inl (rw allowed still)
          | inr (username, valid, named, issued) ↦
              inr (username, client, refl, allowed, valid, named, rw allowed issued)
        ]
        | inr other ↦ inl (rw other refl)
      ]

  looked_up :
      (w : World) (client_id : Bytes)
      → ((get_client platform service client_id w).1.db ≡ w.db)
        × ((client : OauthClient)
            → (get_client platform service client_id w).0 ≡ ok (some client)
            → find (is_client platform.collate client_id) w.db.oauth_clients ≡ some client)
  unfolding get_client get_oauth_client query
  looked_up w client_id = (ground arith, λ client e. ground (arith, e))

  -- The authorization endpoint either leaves the tables as they are, or does to them what issuing a code
  -- does for the user whom the session names: then the client is registered, has registered the redirect
  -- URI, and sent a PKCE challenge with the method S256.
  pub authorize-cases :
      (r : HttpRequest) (w : World)
      → ((authorize h r w).1.db ≡ w.db)
        ⊎ ((username : Bytes) × (client : OauthClient) × (w' : World) × Consents h r w username
              client
            × (w'.db ≡ w.db)
            × ((authorize h r w).1 ≡ (issuing (authorize_query r) username w').1))
  unfolding authorize authorize_query
  authorize-cases r w =
      let id = field (codes "client_id") r.query in
      let (same, found) = looked_up w id in
      elim (authorize_client-cases (authorize_query r) r (get_client platform service id w).0
        (get_client platform service id w).1) [
          | inl still ↦ inl (rw still same)
          | inr (username, client, known, allowed, valid, named, issued) ↦
              let (challenged, method) = protocol_error-none (authorize_query r) valid in
              inr (
                username,
                client,
                (get_client platform service id w).1,
                record {
                  named = named;
                  registered = found client known;
                  allowed = allowed;
                  challenged = challenged;
                  method = method;
                },
                same,
                issued,
              )
        ]

  -- If every session fits into a cookie, a request for authorization that passes every check but comes
  -- from a browser without a user is sent to the login page, and the sign-in of any user in the session
  -- that it leaves sends the browser back to the very same request.
  pub authorize-resumes :
      {V : Type 0} (r : HttpRequest) (w : World) (client : OauthClient) (username : Bytes)
      → ((session : Session) → fits session ≡ true)
      → session_text (codes "username") r.session ≡ none
      → (get_client platform service (authorize_query r).client_id w).0 ≡ ok (some client)
      → allows_redirect_uri client (authorize_query r).redirect_uri ≡ true
      → protocol_error h (authorize_query r) ≡ none
      → is_empty r.uri ≡ false
      → is_empty username ≡ false
      → ((authorize h r w).0.body ≡ location (codes "/login"))
        × ((sign_in {V = V} fits (after_answer r.session (authorize h r w).0.saved) username).body
            ≡ location r.uri)
  unfolding authorize authorize_query save
  authorize-resumes {V} r w client username all_fit nobody known allowed valid addressed named =
      let s = insert post_login_redirect_key r.uri r.session in
      let (s', lands, _, _) = sign_in-Lands {V = V} fits all_fit s username named in
      (
        rw (known, allowed, valid, nobody) refl,
        rw (known, allowed, valid, nobody, all_fit s)
            (lands.1
              ∙ ap (λ o. location (destination o))
                  (session_text-insert post_login_redirect_key r.uri r.session addressed)),
      )
