-- ===== src/Oauth/Refresh.antt =====
-- ExchangeRefreshToken: what a grant of tokens rests on, and that each refresh token is used once.
use easy_host_k8s.Prelude.{
  ℕ, ◌+◌, ◌*◌, ◌^◌, ◌≤◌, ◌≡◌, refl, true, false, not, Option, none, some, List, [], ◌∷◌, ◌++◌,
  Bytes, codes, any, filter, ok, arith,
}
use easy_host_k8s.Model.{OauthClient, RefreshToken}
use easy_host_k8s.World.{World, query, with_entropy}
use easy_host_k8s.Store.{find}
use easy_host_k8s.Store.Oauth.{is_token, consume_refresh_token, create_refresh_token}
use easy_host_k8s.Oauth.{granted, OauthPlatform, OauthService, hash_token}
use easy_host_k8s.Oauth.Service.{TokenResponse, issue_tokens, generate_access_token}
use easy_host_k8s.Oauth.Codes.{IsAuthenticated}

-- Why a refresh may grant tokens: a client that has shown who it is, and a stored refresh token that is
-- its own and not expired.
pub record IsRefreshable (p : OauthPlatform) (w : World) (client_id secret token : Bytes)
    (client : OauthClient) (row : RefreshToken) : Type 0 where
  pub authenticated : IsAuthenticated p w client_id secret client
  pub stored : find (is_token p.collate (hash_token p token)) w.db.refresh_tokens ≡ some row
  pub fresh : w.clock ≤ row.expires_at
  pub own : row.client_id ≡ client.client_id

module _ (p : OauthPlatform) (s : OauthService) where
  open p use {collate}

  find-filter-token :
      (hash : Bytes) (rows : List RefreshToken)
      → find (is_token collate hash) (filter (λ d. not (is_token collate hash d)) rows) ≡ none
  find-filter-token hash [] = refl
  find-filter-token hash (c ∷ rows) = ground (arith, find-filter-token hash rows)

  -- A row at the end of a table is found if no other is.
  pub find-append :
      (hash : Bytes) (rows : List RefreshToken) (t : RefreshToken)
      → any (is_token collate hash) rows ≡ false
      → is_token collate hash t ≡ true
      → find (is_token collate hash) (rows ++ t ∷ []) ≡ some t
  find-append hash [] t h e = ground arith
  find-append hash (c ∷ rows) t h e = ground (arith, find-append hash rows t)

  pub find-append_other :
      (hash : Bytes) (rows : List RefreshToken) (t : RefreshToken)
      → find (is_token collate hash) rows ≡ none
      → is_token collate hash t ≡ false
      → find (is_token collate hash) (rows ++ t ∷ []) ≡ none
  find-append_other hash [] t h e = ground arith
  find-append_other hash (c ∷ rows) t h e = ground (arith, find-append_other hash rows t)

  pub consume_refresh_token-eq-ok :
      (hash : Bytes) (w w' : World) (c : Option RefreshToken)
      → consume_refresh_token collate hash w ≡ (ok c, w')
      → (find (is_token collate hash) w.db.refresh_tokens ≡ c)
        × (find (is_token collate hash) w'.db.refresh_tokens ≡ none)
        × (w'.clock ≡ w.clock)
  unfolding consume_refresh_token query
  consume_refresh_token-eq-ok hash w w' c h =
      (ground arith, ground (arith, find-filter-token hash w.db.refresh_tokens), ground arith)

  -- The row that goes with an issued refresh token
  abbrev pub issued_row : Bytes → Bytes → Bytes → ℕ → TokenResponse → RefreshToken
  issued_row client_id username target time t = record {
    token_hash = hash_token p t.refresh_token;
    client_id = client_id;
    username = username;
    scope = codes "mcp";
    resource = target;
    expires_at = p.stored_time (time + 30 * 24 * 60 * 60 * 10 ^ 9);
  }

  -- Tokens that were issued: the access token is the user's, and the refresh token has its row.
  pub issue_tokens-eq-granted :
      (client_id username target : Bytes) (w w' : World) (t : TokenResponse)
      → issue_tokens p s client_id username target w ≡ (granted t, w')
      → (generate_access_token p s username w.clock ≡ some t.access_token)
        × (any (is_token collate (hash_token p t.refresh_token)) w.db.refresh_tokens ≡ false)
        × (w'.db.refresh_tokens
            ≡ w.db.refresh_tokens ++ issued_row client_id username target w.clock t ∷ [])
  unfolding issue_tokens create_refresh_token query with_entropy
  issue_tokens-eq-granted client_id username target w w' t h =
      (ground arith, ground arith, ground arith)
