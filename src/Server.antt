-- ===== src/Server.antt =====
-- backend-go/cmd/server/main.go: how the parts are put together, and which guard stands before which
-- handler. Connecting to the database, its migrations and the files on disk are not modelled.
pub mod Routes
pub mod Open
pub mod Events
pub mod Preservation
pub mod Isolation
pub mod Accounts
pub mod Tokens
use easy_host_k8s.Prelude.{
  ℕ, Bool, Option, none, some, List, Bytes, codes, ◌++◌, has_prefix, is_empty, if◌then◌else◌,
  Action, Error,
}
use easy_host_k8s.Model.{ContentResponse}
use easy_host_k8s.World.{World}
use easy_host_k8s.Unlock.{Unlocker}
use easy_host_k8s.Auth.{UserStore, Bcrypt, new_user_store}
use easy_host_k8s.Http.{Session}
use easy_host_k8s.Content.{Platform}
use easy_host_k8s.Serving.{ServingHandler}
use easy_host_k8s.Oauth.{OauthPlatform, OauthService, new_oauth_service}
use easy_host_k8s.Oauth.Endpoints.{Urls, McpOauthHandler}
use easy_host_k8s.Config.{Config, oidc_enabled}
use easy_host_k8s.Api.{ApiHandler}
use easy_host_k8s.Web.{WebHandler}
use easy_host_k8s.Mcp.{McpServer, TokenInfo, Decoded}
use easy_host_k8s.Oidc.{OidcProvider, OidcHandler, logout_url}

-- What the program calls and does not define
pub record Externals : Type 0 where
  pub platform : Platform
  pub bcrypt : Bcrypt
  -- the salts of the two password hashes
  pub admin_salt : Bytes
  pub actuator_salt : Bytes
  pub fits : Session → Bool
  pub query_escape : Bytes → Bytes
  pub error_text : Error → Bytes
  pub list_before : Bytes → ℕ → Action World (List ContentResponse × ℕ)
  pub suffices : List Bytes → ℕ → TokenInfo → Bool
  pub decode_base64 : Bytes → Decoded
  pub oauth_platform : OauthPlatform
  pub urls : Urls
  pub provider : OidcProvider

-- A server that has started: what it calls, what it is configured with, and what start-up made of it
pub record Server : Type 0 where
  pub externals : Externals
  pub config : Config
  -- BASE_URL, which may be empty
  pub given_base_url : Bytes
  pub unlocker : Unlocker

module _ (s : Server) where
  open s use {externals, config}

  unfoldable pub base_url : Bytes
  base_url =
      if is_empty s.given_base_url
      then codes "http://localhost:" ++ config.port
      else s.given_base_url

  unfoldable pub users : UserStore
  users =
      new_user_store externals.bcrypt externals.admin_salt externals.actuator_salt
        config.admin_username config.admin_password config.actuator_username
        config.actuator_password

  -- The handler of the OpenID provider, if one is configured
  unfoldable pub oidc_handler : Option OidcHandler
  oidc_handler =
      if oidc_enabled config
      then some (record {
        provider = externals.provider;
        fits = externals.fits;
        allowed_users = config.oidc_allowed_users;
      })
      else none

  abbrev pub logout_of : Option OidcHandler → Option Bytes
  logout_of none = none
  logout_of (some h) = some (logout_url h)

  unfoldable pub api_handler : ApiHandler
  api_handler = record { platform = externals.platform }

  unfoldable pub web_handler : WebHandler
  web_handler = record {
    platform = externals.platform;
    bcrypt = externals.bcrypt;
    users = users;
    fits = externals.fits;
    oidc_enabled = oidc_enabled config;
    oidc_logout = logout_of oidc_handler;
    oidc_client_id = config.oidc_client_id;
    base_url = base_url;
    query_escape = externals.query_escape;
    error_text = externals.error_text;
    list_before = externals.list_before;
  }

  unfoldable pub serving_handler : ServingHandler
  serving_handler = record {
    platform = externals.platform;
    unlocker = s.unlocker;
    secure_cookies = has_prefix base_url (codes "https://");
  }

  unfoldable pub oauth_service : OauthService
  oauth_service = new_oauth_service base_url config.mcp_token_secret

  unfoldable pub mcp_oauth_handler : McpOauthHandler
  mcp_oauth_handler = record {
    platform = externals.oauth_platform;
    service = oauth_service;
    urls = externals.urls;
    fits = externals.fits;
  }

  unfoldable pub mcp_server : McpServer
  mcp_server = record {
    platform = externals.platform;
    oauth_platform = externals.oauth_platform;
    oauth_service = oauth_service;
    suffices = externals.suffices;
    decode_base64 = externals.decode_base64;
    error_text = externals.error_text;
  }
