-- ===== src/Oauth/Rotation.antt =====
-- ExchangeRefreshToken: what a grant of tokens rests on, what it leaves, and that a token is used once.
use easy_host_k8s.Prelude.{
  ◌≤◌, ◌≡◌, refl, ◌≢◌, subst, ◌∙◌, ap, false, Option, none, some, Bytes, codes, bytes_eq_iff,
  bytes_eq_refl, is_empty, arith, Bool-cases, inl, inr,
}
use easy_host_k8s.Model.{OauthClient, RefreshToken}
use easy_host_k8s.World.{World}
use easy_host_k8s.Store.{find}
use easy_host_k8s.Store.Queries.{text_eq}
use easy_host_k8s.Store.Oauth.{is_token, consume_refresh_token}
use easy_host_k8s.Oauth.{granted, OauthPlatform, OauthService, hash_token}
use easy_host_k8s.Oauth.Grants.{attempt, >>=-eq-granted}
use easy_host_k8s.Oauth.Service.{
  TokenResponse, authenticate_client, issue_tokens, generate_access_token, redeem_token,
  exchange_refresh_token,
}
use easy_host_k8s.Oauth.Codes.{authenticate_client-eq-granted, attempt-eq-granted}
use easy_host_k8s.Oauth.Refresh.{
  IsRefreshable, issued_row, find-append, find-append_other, consume_refresh_token-eq-ok,
  issue_tokens-eq-granted,
}

module _ (p : OauthPlatform) (s : OauthService) where
  open p use {collate}

  redeem_token-eq-granted :
      (client : OauthClient) (taken : Option RefreshToken) (w w' : World) (t : TokenResponse)
      → redeem_token p s client taken w ≡ (granted t, w')
      → (row : RefreshToken) × (taken ≡ some row)
        × (w.clock ≤ row.expires_at)
        × (row.client_id ≡ client.client_id)
        × (issue_tokens p s client.client_id row.username row.resource w ≡ (granted t, w'))
  redeem_token-eq-granted client none w w' t h = cc
  redeem_token-eq-granted client (some row) w w' t h =
      let own = bytes_eq_iff row.client_id client.client_id in
      (row, refl, ground arith, ground (arith, own), ground arith)

  -- The steps of a refresh that grants tokens
  record Refreshed (client_id secret token : Bytes) (w w' : World) (t : TokenResponse)
      : Type 0 where
    client : OauthClient
    row : RefreshToken
    between : World
    refreshable : IsRefreshable p w client_id secret token client row
    spent : find (is_token collate (hash_token p token)) between.db.refresh_tokens ≡ none
    same_time : between.clock ≡ w.clock
    issued : issue_tokens p s client.client_id row.username row.resource between ≡ (granted t, w')

  refreshed :
      (client_id secret token : Bytes) (w w' : World) (t : TokenResponse)
      → exchange_refresh_token p s client_id secret token w ≡ (granted t, w')
      → Refreshed client_id secret token w w' t
  unfolding exchange_refresh_token
  refreshed client_id secret token w w' t h =
      let (client, w1, first, rest) =
        >>=-eq-granted (authenticate_client p s client_id secret) _ w h in
      let (authenticated, same_db, same_clock) =
        authenticate_client-eq-granted p s client_id secret w w1 client first in
      elim (Bool-cases (is_empty token)) [
        | inl blank ↦ absurd (ground arith)
        | inr filled ↦
            let (taken, w2, second, third) =
              >>=-eq-granted
                (attempt (consume_refresh_token collate (hash_token p token)) 500
                  (codes "server_error"))
                (λ taken. redeem_token p s client taken) w1 (rw filled at rest) in
            let (there, gone, same) =
              consume_refresh_token-eq-ok p s (hash_token p token) w1 w2 taken (
                attempt-eq-granted p s (consume_refresh_token collate (hash_token p token)) 500
                  (codes "server_error") w1 w2 taken second) in
            let (row, found, fresh, own, issued) =
              redeem_token-eq-granted client taken w2 w' t third in
            record {
              client = client;
              row = row;
              between = w2;
              refreshable = record {
                authenticated = authenticated;
                stored = ground (arith, same_db);
                fresh = subst (λ time. time ≤ row.expires_at) (same ∙ same_clock) fresh;
                own = own;
              };
              spent = gone;
              same_time = same ∙ same_clock;
              issued = issued;
            }
      ]

  module _ (client_id secret token : Bytes) (w w' : World) (t : TokenResponse)
      (given : exchange_refresh_token p s client_id secret token w ≡ (granted t, w')) where
    -- A refresh grants tokens only to a client that is registered and is public or shows its secret, for
    -- a stored refresh token that is its own and has not expired. The access token is signed for the
    -- user of that token, and the new refresh token is stored for the same client, user and resource.
    pub exchange_refresh_token-eq-granted :
        (client : OauthClient) × (row : RefreshToken) × IsRefreshable p w client_id secret token
          client row
        × (generate_access_token p s row.username w.clock ≡ some t.access_token)
        × (find (is_token collate (hash_token p t.refresh_token)) w'.db.refresh_tokens
            ≡ some (issued_row p s client.client_id row.username row.resource w.clock t))
    exchange_refresh_token-eq-granted =
        let e = refreshed client_id secret token w w' t given in
        let (access, unused, stored) =
          issue_tokens-eq-granted p s e.client.client_id e.row.username e.row.resource e.between w'
            t e.issued in
        let new_row =
          issued_row p s e.client.client_id e.row.username e.row.resource e.between.clock t in
        let there : find (is_token collate (hash_token p t.refresh_token)) w'.db.refresh_tokens
            ≡ some new_row =
          ap (find (is_token collate (hash_token p t.refresh_token))) stored
          ∙ find-append p s (hash_token p t.refresh_token) e.between.db.refresh_tokens new_row
              unused (bytes_eq_refl (collate (hash_token p t.refresh_token))) in
        (
          e.client,
          e.row,
          e.refreshable,
          subst (λ time. generate_access_token p s e.row.username time ≡ some t.access_token)
              e.same_time access,
          subst
              (λ time.
                find (is_token collate (hash_token p t.refresh_token)) w'.db.refresh_tokens
                ≡ some (issued_row p s e.client.client_id e.row.username e.row.resource time t))
              e.same_time there,
        )

    -- A refresh token that was exchanged is exchanged no second time: in every later state with the same
    -- stored tokens, no client and no secret makes its exchange succeed. The hash of the new token is
    -- supposed to differ from the hash of the old one.
    pub exchange_refresh_token-once :
        (other_id other_secret : Bytes) (later : World) (more : TokenResponse)
        → text_eq collate (hash_token p t.refresh_token) (hash_token p token) ≡ false
        → later.db.refresh_tokens ≡ w'.db.refresh_tokens
        → (exchange_refresh_token p s other_id other_secret token later).0 ≢ granted more
    exchange_refresh_token-once other_id other_secret later more differ kept again =
        let e = refreshed client_id secret token w w' t given in
        let (_, unused, stored) =
          issue_tokens-eq-granted p s e.client.client_id e.row.username e.row.resource e.between w'
            t e.issued in
        let gone =
          find-append_other p s (hash_token p token) e.between.db.refresh_tokens
            (issued_row p s e.client.client_id e.row.username e.row.resource e.between.clock t)
            e.spent differ in
        let at_end = (exchange_refresh_token p s other_id other_secret token later).1 in
        let n = refreshed other_id other_secret token later at_end more (cc) in
        cc (
          n.refreshable.stored,
          ap (find (is_token collate (hash_token p token))) (kept ∙ stored),
          gone,
        )
