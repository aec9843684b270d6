-- ===== src/Oauth/Codes.antt =====
-- Authorization codes: what an exchange has checked when it grants tokens, and that a code is spent.
use easy_host_k8s.Prelude.{
  ℕ, ◌≤◌, ◌≡◌, refl, ◌⊎◌, inl, inr, true, false, not, Option, none, some, List, [], ◌∷◌, Bytes,
  codes, bytes_eq, bytes_eq_iff, filter, is_empty, ok, Action, arith, Bool-cases, ◌||◌, ◌∙◌, subst,
}
use easy_host_k8s.Model.{OauthClient, AuthCode, is_public}
use easy_host_k8s.World.{World, query, with_entropy}
use easy_host_k8s.Store.{find}
use easy_host_k8s.Store.Oauth.{
  get_oauth_client, consume_auth_code, create_refresh_token, is_client, is_code,
}
use easy_host_k8s.Oauth.{granted, OauthPlatform, OauthService, hash_token, verify_pkce}
use easy_host_k8s.Oauth.Grants.{attempt, >>=-eq-granted}
use easy_host_k8s.Oauth.Service.{
  TokenResponse, authenticate_client, issue_tokens, redeem_code, exchange_authorization_code,
}

-- A client that may ask for tokens: it is registered, and it is public or shows its secret.
pub record IsAuthenticated (p : OauthPlatform) (w : World) (client_id secret : Bytes)
    (client : OauthClient) : Type 0 where
  pub registered : find (is_client p.collate client_id) w.db.oauth_clients ≡ some client
  pub proven :
      (is_public client ≡ true)
      ⊎ ((is_empty secret ≡ false) × (hash_token p secret ≡ client.client_secret_hash))

-- A row that entitles a client to tokens: its own, not expired, for this redirect URI, with a challenge
-- that the verifier meets.
pub record IsEntitled (p : OauthPlatform) (time : ℕ) (redirect_uri verifier : Bytes)
    (client : OauthClient) (row : AuthCode) : Type 0 where
  pub fresh : time ≤ row.expires_at
  pub own : row.client_id ≡ client.client_id
  pub target : row.redirect_uri ≡ redirect_uri
  pub method : row.code_challenge_method ≡ codes "S256"
  pub challenge : p.encode_base64 (p.sha256 verifier) ≡ row.code_challenge

module _ (p : OauthPlatform) (s : OauthService) where
  open p use {collate}

  pub authenticate_client-eq-granted :
      (client_id secret : Bytes) (w w' : World) (client : OauthClient)
      → authenticate_client p s client_id secret w ≡ (granted client, w')
      → IsAuthenticated p w client_id secret client × (w'.db ≡ w.db) × (w'.clock ≡ w.clock)
  unfolding authenticate_client get_oauth_client query
  authenticate_client-eq-granted client_id secret w w' client h =
      let row : find (is_client collate client_id) w.db.oauth_clients ≡ some client =
        ground arith in
      let proof : (is_public client ≡ true)
          ⊎ ((is_empty secret ≡ false)
              × (bytes_eq (hash_token p secret) client.client_secret_hash ≡ true)) =
        ground arith in
      (
        record {
          registered = row;
          proven = ground (arith, bytes_eq_iff (hash_token p secret) client.client_secret_hash);
        },
        ground arith,
        ground arith,
      )

  -- Taking a code leaves no row with that code, whether there was one or not.
  find-filter-code :
      (code : Bytes) (rows : List AuthCode)
      → find (is_code collate code) (filter (λ d. not (is_code collate code d)) rows) ≡ none
  find-filter-code code [] = refl
  find-filter-code code (c ∷ rows) = ground (arith, find-filter-code code rows)

  -- Issuing tokens leaves the codes and the clients as they are.
  pub issue_tokens-codes :
      (client_id username target : Bytes) (w : World)
      → ((issue_tokens p s client_id username target w).1.db.auth_codes ≡ w.db.auth_codes)
        × ((issue_tokens p s client_id username target w).1.db.oauth_clients ≡ w.db.oauth_clients)
  unfolding issue_tokens create_refresh_token query with_entropy
  issue_tokens-codes client_id username target w = (ground arith, ground arith)

  pub consume_auth_code-eq-ok :
      (code : Bytes) (w w' : World) (c : Option AuthCode)
      → consume_auth_code collate code w ≡ (ok c, w')
      → (find (is_code collate code) w.db.auth_codes ≡ c)
        × (find (is_code collate code) w'.db.auth_codes ≡ none)
        × (w'.clock ≡ w.clock)
  unfolding consume_auth_code query
  consume_auth_code-eq-ok code w w' c h =
      (ground arith, ground (arith, find-filter-code code w.db.auth_codes), ground arith)

  redeem_code-eq-granted :
      (client : OauthClient) (redirect_uri verifier : Bytes) (taken : Option AuthCode)
      (w w' : World) (t : TokenResponse)
      → redeem_code p s client redirect_uri verifier taken w ≡ (granted t, w')
      → (row : AuthCode) × (taken ≡ some row)
        × IsEntitled p w.clock redirect_uri verifier client row
        × (issue_tokens p s client.client_id row.username row.resource w ≡ (granted t, w'))
  unfolding verify_pkce
  redeem_code-eq-granted client redirect_uri verifier none w w' t h = cc
  redeem_code-eq-granted client redirect_uri verifier (some row) w w' t h =
      let own = bytes_eq_iff row.client_id client.client_id in
      let target = bytes_eq_iff row.redirect_uri redirect_uri in
      let method = bytes_eq_iff row.code_challenge_method (codes "S256") in
      let challenge = bytes_eq_iff (p.encode_base64 (p.sha256 verifier)) row.code_challenge in
      (
        row,
        refl,
        record {
          fresh = ground arith;
          own = ground (arith, own);
          target = ground (arith, target);
          method = ground (arith, method);
          challenge = ground (arith, challenge);
        },
        ground arith,
      )

  pub attempt-eq-granted :
      {A : Type 0} (m : Action World A) (status : ℕ) (code : Bytes) (w w' : World) (a : A)
      → attempt m status code w ≡ (granted a, w')
      → m w ≡ (ok a, w')
  attempt-eq-granted m status code w w' a h = ground arith

  -- The steps of an exchange that grants tokens
  pub record Exchanged (client_id secret redirect_uri code verifier : Bytes) (w w' : World)
      (t : TokenResponse) : Type 0 where
    pub client : OauthClient
    pub row : AuthCode
    pub between : World
    pub authenticated : IsAuthenticated p w client_id secret client
    pub stored : find (is_code collate code) w.db.auth_codes ≡ some row
    pub spent : find (is_code collate code) between.db.auth_codes ≡ none
    pub entitled : IsEntitled p w.clock redirect_uri verifier client row
    pub same_time : between.clock ≡ w.clock
    pub issued :
        issue_tokens p s client.client_id row.username row.resource between ≡ (granted t, w')

  pub exchanged :
      (client_id secret redirect_uri code verifier : Bytes) (w w' : World) (t : TokenResponse)
      → exchange_authorization_code p s client_id secret redirect_uri code verifier w
        ≡ (granted t, w')
      → Exchanged client_id secret redirect_uri code verifier w w' t
  unfolding exchange_authorization_code
  exchanged client_id secret redirect_uri code verifier w w' t h =
      let (client, w1, first, rest) =
        >>=-eq-granted (authenticate_client p s client_id secret) _ w h in
      let (authenticated, same_db, same_clock) =
        authenticate_client-eq-granted client_id secret w w1 client first in
      elim (Bool-cases (is_empty code || is_empty verifier)) [
        | inl blank ↦ absurd (ground arith)
        | inr filled ↦
            let (taken, w2, second, third) =
              >>=-eq-granted (attempt (consume_auth_code collate code) 500 (codes "server_error"))
                (λ taken. redeem_code p s client redirect_uri verifier taken) w1
                (rw filled at rest) in
            let (there, gone, same) = consume_auth_code-eq-ok code w1 w2 taken (
              attempt-eq-granted (consume_auth_code collate code) 500 (codes "server_error") w1 w2
                taken second) in
            let (row, found, entitled, issued) =
              redeem_code-eq-granted client redirect_uri verifier taken w2 w' t third in
            record {
              client = client;
              row = row;
              between = w2;
              authenticated = authenticated;
              stored = ground (arith, same_db);
              spent = gone;
              entitled =
                  subst (λ time. IsEntitled p time redirect_uri verifier client row)
                    (same ∙ same_clock) entitled;
              same_time = same ∙ same_clock;
              issued = issued;
            }
      ]
