-- ===== src/Oauth/Authorized.antt =====
-- For which users the OAuth server mints tokens: those for whom it holds a code or a refresh token.
use easy_host_k8s.Prelude.{
  ℕ, ◌≡◌, ◌≢◌, some, [], ◌∷◌, Bytes, All, All-append, ok, Bool-cases, inl, inr, Option-cases, any,
}
use easy_host_k8s.Model.{AuthCode, RefreshToken}
use easy_host_k8s.World.{World, Database, query}
use easy_host_k8s.Store.{find}
use easy_host_k8s.Store.Rows.{All-filter, All-find}
use easy_host_k8s.Store.Oauth.{
  create_auth_code, consume_auth_code, create_refresh_token, consume_refresh_token, is_code,
  is_token,
}

module _ (username : Bytes) where
  -- No code and no refresh token in the tables is one of this user.
  pub record Unauthorized (d : Database) : Type 0 where
    pub no_code : All (λ (c : AuthCode). c.username ≢ username) d.auth_codes
    pub no_token : All (λ (t : RefreshToken). t.username ≢ username) d.refresh_tokens

  module _ (collate : Bytes → Bytes) where
    pub consume_auth_code-safe :
        (code : Bytes) (w : World)
        → Unauthorized w.db
        → Unauthorized (consume_auth_code collate code w).1.db
          × ((c : AuthCode)
              → (consume_auth_code collate code w).0 ≡ ok (some c)
              → c.username ≢ username)
    unfolding consume_auth_code query
    consume_auth_code-safe code w safe = elim (Bool-cases (w.fails w.calls)) [
      | inl e ↦ rw e (safe, λ d h. absurd cc)
      | inr e ↦ elim (Option-cases (find (is_code collate code) w.db.auth_codes)) [
        | inl missing ↦ rw (e, missing) (safe, λ d h. absurd cc)
        | inr (c, found) ↦
            rw (e, found)
              (
                record {
                  no_code = All-filter _ _ w.db.auth_codes safe.no_code;
                  no_token = safe.no_token;
                },
                λ d h same. All-find _ _ w.db.auth_codes c found safe.no_code cc,
              )
      ]
    ]

    pub consume_refresh_token-safe :
        (hash : Bytes) (w : World)
        → Unauthorized w.db
        → Unauthorized (consume_refresh_token collate hash w).1.db
          × ((t : RefreshToken)
              → (consume_refresh_token collate hash w).0 ≡ ok (some t)
              → t.username ≢ username)
    unfolding consume_refresh_token query
    consume_refresh_token-safe hash w safe = elim (Bool-cases (w.fails w.calls)) [
      | inl e ↦ rw e (safe, λ d h. absurd cc)
      | inr e ↦ elim (Option-cases (find (is_token collate hash) w.db.refresh_tokens)) [
        | inl missing ↦ rw (e, missing) (safe, λ d h. absurd cc)
        | inr (t, found) ↦
            rw (e, found)
              (
                record {
                  no_code = safe.no_code;
                  no_token = All-filter _ _ w.db.refresh_tokens safe.no_token;
                },
                λ d h same. All-find _ _ w.db.refresh_tokens t found safe.no_token cc,
              )
      ]
    ]

    pub create_auth_code-safe :
        (stored_time : ℕ → ℕ) (c : AuthCode) (w : World)
        → c.username ≢ username
        → Unauthorized w.db
        → Unauthorized (create_auth_code collate stored_time c w).1.db
    unfolding create_auth_code query
    create_auth_code-safe stored_time c w other safe =
        let stored = record c { expires_at = stored_time c.expires_at } in
        elim (Bool-cases (w.fails w.calls)) [
          | inl e ↦ rw e safe
          | inr e ↦ elim (Bool-cases (any (is_code collate c.code) w.db.auth_codes)) [
            | inl taken ↦ rw (e, taken) safe
            | inr free ↦
                rw (e, free)
                  (record {
                    no_code = All-append _ w.db.auth_codes (stored ∷ []) safe.no_code (other, tt);
                    no_token = safe.no_token;
                  })
          ]
        ]

    pub create_refresh_token-safe :
        (stored_time : ℕ → ℕ) (t : RefreshToken) (w : World)
        → t.username ≢ username
        → Unauthorized w.db
        → Unauthorized (create_refresh_token collate stored_time t w).1.db
    unfolding create_refresh_token query
    create_refresh_token-safe stored_time t w other safe =
        let stored = record t { expires_at = stored_time t.expires_at } in
        elim (Bool-cases (w.fails w.calls)) [
          | inl e ↦ rw e safe
          | inr e ↦ elim (Bool-cases (any (is_token collate t.token_hash) w.db.refresh_tokens)) [
            | inl taken ↦ rw (e, taken) safe
            | inr free ↦
                rw (e, free)
                  (record {
                    no_code = safe.no_code;
                    no_token =
                        All-append _ w.db.refresh_tokens (stored ∷ []) safe.no_token (other, tt);
                  })
          ]
        ]
