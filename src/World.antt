-- ===== src/World.antt =====
-- What the services act on: the tables of the database (backend-go/cmd/server/migrations), the clock,
-- the random bytes, and which database calls fail. A transaction is one call: if any of its statements
-- fails, it is rolled back whole. The clock stands still within one operation.
use easy_host_k8s.Prelude.{
  ℕ, ◌+◌, Bool, Option, List, Bytes, if◌then◌else◌, ok, err, Action, db_failure,
}
use easy_host_k8s.Crypto.{Entropy}
use easy_host_k8s.Model.{OauthClient, AuthCode, RefreshToken}

-- A row of `content`. A NULL byte column reads as an empty slice.
pub record ContentRow : Type 0 where
  pub id : ℕ
  pub slug : Bytes
  pub owner : Bytes
  pub title : Bytes
  pub source_url : Bytes
  pub creator : Bytes
  pub allow_external_resources : Bool
  pub enc_kdf : Option Bytes
  pub enc_salt : Bytes
  pub enc_wrapped_key : Bytes
  pub created_at : ℕ
  pub updated_at : ℕ

-- A row of `content_file`.
pub record FileRow : Type 0 where
  pub id : ℕ
  pub content_id : ℕ
  pub file_path : Bytes
  pub file_data : Bytes
  pub content_type : Bytes

pub record Database : Type 0 where
  pub contents : List ContentRow
  pub files : List FileRow
  pub next_content_id : ℕ
  pub next_file_id : ℕ
  pub oauth_clients : List OauthClient
  pub auth_codes : List AuthCode
  pub refresh_tokens : List RefreshToken

pub record World : Type 0 where
  pub db : Database
  pub clock : ℕ
  pub entropy : Entropy
  pub fails : ℕ → Bool
  pub calls : ℕ

-- One call of the database: it fails or goes on, and is counted.
unfoldable pub query : Action World (Unit {0})
query w =
    if w.fails w.calls
    then (err db_failure, record w { calls = w.calls + 1 })
    else (ok tt, record w { calls = w.calls + 1 })

-- An action on the random bytes alone.
unfoldable pub with_entropy : {A : Type 0} → Action Entropy A → Action World A
with_entropy m w = let (r, e) = m w.entropy in (r, record w { entropy = e })

abbrev pub get_world : Action World World
get_world w = (ok w, w)

abbrev pub put_world : World → Action World (Unit {0})
put_world w _ = (ok tt, w)
