-- ===== src/Model.antt =====
-- backend-go/internal/model/model.go and oauth.go: the entities, and the answers built from them.
-- Times are nanoseconds since 1970; identifiers are numbers.
use easy_host_k8s.Prelude.{
  ℕ, Bool, true, false, ◌||◌, Option, none, some, List, Bytes, codes, bytes_eq, is_empty, any,
}
use easy_host_k8s.Crypto.{Envelope}

pub record Content : Type 0 where
  pub id : ℕ
  pub slug : Bytes
  pub owner : Bytes
  pub title : Bytes
  pub source_url : Bytes
  pub creator : Bytes
  pub allow_external_resources : Bool
  pub created_at : ℕ
  pub updated_at : ℕ
  pub encryption : Option Envelope

abbrev pub is_some {ℓ} : {A : Type ℓ} → Option A → Bool
is_some none = false
is_some (some _) = true

-- Content.IsEncrypted
abbrev pub is_encrypted : Content → Bool
is_encrypted c = is_some c.encryption

pub record ContentFile : Type 0 where
  pub id : ℕ
  pub content_id : ℕ
  pub file_path : Bytes
  pub file_data : Bytes
  pub content_type : Bytes
  pub allow_external_resources : Bool
  pub encrypted : Bool

pub record ContentResponse : Type 0 where
  pub id : ℕ
  pub slug : Bytes
  pub title : Bytes
  pub source_url : Bytes
  pub owner : Bytes
  pub creator : Bytes
  pub allow_external_resources : Bool
  pub encrypted : Bool
  pub created_at : ℕ
  pub updated_at : ℕ
  pub files : List Bytes

unfoldable pub to_response : Content → List Bytes → ContentResponse
to_response c files = record {
  id = c.id;
  slug = c.slug;
  title = c.title;
  source_url = c.source_url;
  owner = c.owner;
  creator = c.creator;
  allow_external_resources = c.allow_external_resources;
  encrypted = is_encrypted c;
  created_at = c.created_at;
  updated_at = c.updated_at;
  files = files;
}

pub record OauthClient : Type 0 where
  pub client_id : Bytes
  pub client_secret_hash : Bytes
  pub client_name : Bytes
  pub redirect_uris : List Bytes
  pub grant_types : List Bytes
  pub response_types : List Bytes
  pub token_endpoint_auth_method : Bytes
  pub scope : Bytes

-- OAuthClient.IsPublic
unfoldable pub is_public : OauthClient → Bool
is_public c = bytes_eq c.token_endpoint_auth_method (codes "none") || is_empty c.client_secret_hash

-- OAuthClient.AllowsRedirectURI
unfoldable pub allows_redirect_uri : OauthClient → Bytes → Bool
allows_redirect_uri c uri = any (λ u. bytes_eq u uri) c.redirect_uris

pub record AuthCode : Type 0 where
  pub code : Bytes
  pub client_id : Bytes
  pub username : Bytes
  pub redirect_uri : Bytes
  pub code_challenge : Bytes
  pub code_challenge_method : Bytes
  pub scope : Bytes
  pub resource : Bytes
  pub expires_at : ℕ

pub record RefreshToken : Type 0 where
  pub token_hash : Bytes
  pub client_id : Bytes
  pub username : Bytes
  pub scope : Bytes
  pub resource : Bytes
  pub expires_at : ℕ
