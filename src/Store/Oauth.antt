-- ===== src/Store/Oauth.antt =====
-- backend-go/internal/store/oauth.go: registered clients, authorization codes and refresh tokens. Lists
-- of a client go into the table as JSON and come back as they were, so they stand in the row as lists.
use easy_host_k8s.Prelude.{
  ℕ, Bool, not, Option, none, some, List, [], ◌∷◌, ◌++◌, Bytes, any, filter, if◌then◌else◌, Result,
  ok, err, Action, return, ◌>>=◌, ◌>>◌, db_failure,
}
use easy_host_k8s.Model.{OauthClient, AuthCode, RefreshToken}
use easy_host_k8s.World.{World, query, get_world, put_world}
use easy_host_k8s.Store.{find}
use easy_host_k8s.Store.Queries.{text_eq}

abbrev pub set_clients : List OauthClient → World → World
set_clients rows w = record w { db = record w.db { oauth_clients = rows } }

abbrev pub set_codes : List AuthCode → World → World
set_codes rows w = record w { db = record w.db { auth_codes = rows } }

abbrev pub set_tokens : List RefreshToken → World → World
set_tokens rows w = record w { db = record w.db { refresh_tokens = rows } }

abbrev pub done : World → Result (Unit {0}) × World
done w = (ok tt, w)

abbrev pub refuse_row : World → Result (Unit {0}) × World
refuse_row w = (err db_failure, w)

module _ (collate : Bytes → Bytes) where
  abbrev pub is_client : Bytes → OauthClient → Bool
  is_client client_id c = text_eq collate c.client_id client_id

  abbrev pub is_code : Bytes → AuthCode → Bool
  is_code code c = text_eq collate c.code code

  abbrev pub is_token : Bytes → RefreshToken → Bool
  is_token token_hash t = text_eq collate t.token_hash token_hash

  abbrev pub insert_client : OauthClient → Action World (Unit {0})
  insert_client c w =
      if any (is_client c.client_id) w.db.oauth_clients
      then refuse_row w
      else done (set_clients (w.db.oauth_clients ++ c ∷ []) w)

  -- CreateOAuthClient
  unfoldable pub create_oauth_client : OauthClient → Action World (Unit {0})
  create_oauth_client c = do query; insert_client c

  -- GetOAuthClient; a client that does not exist is no error
  unfoldable pub get_oauth_client : Bytes → Action World (Option OauthClient)
  get_oauth_client client_id = do
    query
    w ← get_world
    return (find (is_client client_id) w.db.oauth_clients)

  abbrev pub insert_code : AuthCode → Action World (Unit {0})
  insert_code c w =
      if any (is_code c.code) w.db.auth_codes
      then refuse_row w
      else done (set_codes (w.db.auth_codes ++ c ∷ []) w)

  abbrev pub take_code : Bytes → Option AuthCode → Action World (Option AuthCode)
  take_code code none = return none
  take_code code (some c) = do
    w ← get_world
    put_world (set_codes (filter (λ d. not (is_code code d)) w.db.auth_codes) w)
    return (some c)

  -- ConsumeAuthCode, one transaction
  unfoldable pub consume_auth_code : Bytes → Action World (Option AuthCode)
  consume_auth_code code = do
    query
    w ← get_world
    take_code code (find (is_code code) w.db.auth_codes)

  abbrev pub insert_token : RefreshToken → Action World (Unit {0})
  insert_token t w =
      if any (is_token t.token_hash) w.db.refresh_tokens
      then refuse_row w
      else done (set_tokens (w.db.refresh_tokens ++ t ∷ []) w)

  abbrev pub take_token : Bytes → Option RefreshToken → Action World (Option RefreshToken)
  take_token token_hash none = return none
  take_token token_hash (some t) = do
    w ← get_world
    put_world (set_tokens (filter (λ d. not (is_token token_hash d)) w.db.refresh_tokens) w)
    return (some t)

  -- ConsumeRefreshToken, one transaction
  unfoldable pub consume_refresh_token : Bytes → Action World (Option RefreshToken)
  consume_refresh_token token_hash = do
    query
    w ← get_world
    take_token token_hash (find (is_token token_hash) w.db.refresh_tokens)

  -- A TIMESTAMP column keeps whole seconds: the database rounds what it is given.
  module _ (stored_time : ℕ → ℕ) where
    -- CreateAuthCode
    unfoldable pub create_auth_code : AuthCode → Action World (Unit {0})
    create_auth_code c = do query; insert_code (record c { expires_at = stored_time c.expires_at })

    -- CreateRefreshToken
    unfoldable pub create_refresh_token : RefreshToken → Action World (Unit {0})
    create_refresh_token t = do
      query
      insert_token (record t { expires_at = stored_time t.expires_at })
