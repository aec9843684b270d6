-- ===== src/Mcp.antt =====
-- backend-go/internal/mcp/server.go: the content service as tools for MCP clients. The SDK is a
-- parameter: it takes the token from the request, and decides whether what is known of it suffices.
pub mod Calls
pub mod Sites
pub mod Preservation
use easy_host_k8s.Prelude.{
  ℕ, Bool, true, false, ◌||◌, not, Option, none, some, List, [], ◌∷◌, Bytes, codes, is_empty,
  if◌then◌else◌, Result, ok, err, Error,
}
use easy_host_k8s.Model.{ContentResponse}
use easy_host_k8s.World.{World}
use easy_host_k8s.Content.{Platform, CreateParams, UpdateParams}
use easy_host_k8s.Content.Service.{get, list, create, update, delete}
use easy_host_k8s.Oauth.{OauthPlatform, OauthService, mcp_scope}
use easy_host_k8s.Oauth.Service.{VerifiedToken, verify_access_token}

-- auth.TokenInfo; the user name is the member "username" of Extra
pub record TokenInfo : Type 0 where
  pub user_id : Bytes
  pub scopes : List Bytes
  pub expiration : Option ℕ
  pub username : Option Bytes

-- base64.StdEncoding.DecodeString: the bytes, or the text of the error
pub data Decoded : Type 0 where
  decoded : Bytes → Decoded
  undecodable : Bytes → Decoded

pub record McpServer : Type 0 where
  pub platform : Platform
  pub oauth_platform : OauthPlatform
  pub oauth_service : OauthService
  -- auth.RequireBearerToken: scopes that are required, the time, and what the verifier returned
  pub suffices : List Bytes → ℕ → TokenInfo → Bool
  pub decode_base64 : Bytes → Decoded
  -- err.Error()
  pub error_text : Error → Bytes

pub record CreateContentInput : Type 0 where
  pub slug : Bytes
  pub title : Bytes
  pub source_url : Bytes
  pub creator : Bytes
  pub allow_external_resources : Bool
  pub html : Bytes
  pub zip_base64 : Bytes
  pub passphrase : Bytes

pub record UpdateContentInput : Type 0 where
  pub slug : Bytes
  pub title : Option Bytes
  pub source_url : Option Bytes
  pub creator : Option Bytes
  pub allow_external_resources : Option Bool
  pub html : Bytes
  pub zip_base64 : Bytes
  pub passphrase : Bytes
  pub new_passphrase : Bytes
  pub remove_encryption : Bool

-- registerTools: the tools with their inputs
pub data ToolCall : Type 0 where
  lists : ToolCall
  gets : Bytes → ToolCall
  creates : CreateContentInput → ToolCall
  updates : UpdateContentInput → ToolCall
  deletes : Bytes → ToolCall

-- What jsonResult renders
pub data ToolValue : Type 0 where
  entries : List ContentResponse → ToolValue
  entry : ContentResponse → ToolValue
  deleted : Bytes → ToolValue

-- A value, a tool-level error (errorResult), or a protocol error
pub data ToolResult : Type 0 where
  shown : ToolValue → ToolResult
  failed : Bytes → ToolResult
  refused_call : Bytes → ToolResult

-- The bytes and the file name for the service, or why there are none
pub data SiteData : Type 0 where
  site : Bytes → Bytes → SiteData
  unusable : Bytes → SiteData

abbrev pub zip_site : Decoded → SiteData
zip_site (decoded bytes) = site bytes (codes "upload.zip")
zip_site (undecodable message) = unusable message

-- verifyToken
unfoldable pub token_info : VerifiedToken → TokenInfo
token_info v = record {
  user_id = v.username;
  scopes = v.scopes;
  expiration = v.expires_at;
  username = some v.username;
}

abbrev pub named_owner : Option Bytes → Option Bytes
named_owner none = none
named_owner (some name) = if is_empty name then none else some name

-- owner
unfoldable pub owner : Option TokenInfo → Option Bytes
owner none = none
owner (some info) = named_owner info.username

abbrev pub no_user : ToolResult
no_user = refused_call (codes "no authenticated user in request")

abbrev pub no_slug : ToolResult
no_slug = failed (codes "slug is required")
