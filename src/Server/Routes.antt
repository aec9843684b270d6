-- ===== src/Server/Routes.antt =====
-- The routes of main: each is served by a handler, behind the middleware of its group.
use easy_host_k8s.Prelude.{Option, none, some, Bytes, codes}
use easy_host_k8s.World.{World}
use easy_host_k8s.Auth.{User}
use easy_host_k8s.Http.{HttpRequest, Answer, Handler, error_answer, redirect_answer, field}
use easy_host_k8s.Middleware.{basic_auth, session_auth, cors}
use easy_host_k8s.Serving.{Request, Response, serve_index, serve_path, submit_passphrase}
use easy_host_k8s.Api.{ApiValue}
use easy_host_k8s.Api
use easy_host_k8s.Web.{WebPage}
use easy_host_k8s.Web.Pages.{
  login_page, login_submit, logout, dashboard, upload_page, upload_submit, edit_page, edit_submit,
  delete_submit, developers_page, imprint_page, privacy_page, terms_page,
}
use easy_host_k8s.Mcp.{ToolCall, ToolResult}
use easy_host_k8s.Mcp.Calls.{handle}
use easy_host_k8s.Oidc.{OidcHandler, login, callback}
use easy_host_k8s.Oauth.Registration.{ClientRegistrationRequest}
use easy_host_k8s.Oauth.Endpoints.{
  OauthValue, metadata_endpoint, server_metadata_endpoint, register, authorize, token,
}
use easy_host_k8s.Health.{HealthValue, health, info}
use easy_host_k8s.Server.{
  Server, users, oidc_handler, api_handler, web_handler, serving_handler, mcp_oauth_handler,
  mcp_server,
}

-- GET, POST, PUT and DELETE below /api/content
pub data ApiRoute : Type 0 where
  list_entries post_entry : ApiRoute
  get_entry put_entry delete_entry : Bytes → ApiRoute

-- The group of routes behind SessionAuth; `root` is GET /
pub data WebRoute : Type 0 where
  root get_dashboard get_upload post_upload post_logout : WebRoute
  get_edit post_edit post_delete : Bytes → WebRoute

-- The routes that anybody may call: pages, and the sites that are served
pub data PublicRoute : Type 0 where
  get_login post_login get_provider_login get_provider_callback : PublicRoute
  get_developers get_imprint get_privacy get_terms : PublicRoute

pub data SiteRoute : Type 0 where
  get_site post_unlock : Bytes → SiteRoute
  get_site_file : Bytes → Bytes → SiteRoute

-- The routes of the OAuth server; a registration carries what its body decodes to, if it does
pub data OauthRoute : Type 0 where
  get_resource_metadata get_server_metadata get_authorize post_token : OauthRoute
  post_register : Option ClientRegistrationRequest → OauthRoute

pub data ActuatorRoute : Type 0 where
  get_health get_info : ActuatorRoute

module _ (s : Server) where
  abbrev pub api_endpoint : ApiRoute → User → HttpRequest → World → Answer ApiValue × World
  api_endpoint list_entries = Api.list_content (api_handler s)
  api_endpoint post_entry = Api.create_content (api_handler s)
  api_endpoint (get_entry slug) = Api.get_content (api_handler s) slug
  api_endpoint (put_entry slug) = Api.update_content (api_handler s) slug
  api_endpoint (delete_entry slug) = Api.delete_content (api_handler s) slug

  -- r.Route("/api/content", …)
  unfoldable pub serve_api : ApiRoute → Handler ApiValue World
  serve_api route = basic_auth s.externals.bcrypt (users s) (codes "USER") (api_endpoint route)

  -- A page that needs nothing of the world
  abbrev pub still : {V : Type 0} → Answer V → World → Answer V × World
  still a w = (a, w)

  abbrev pub web_endpoint : WebRoute → User → HttpRequest → World → Answer WebPage × World
  web_endpoint root user r w = (redirect_answer none (codes "/dashboard"), w)
  web_endpoint get_dashboard user r w = dashboard (web_handler s) user r w
  web_endpoint get_upload user r w = (upload_page (web_handler s) user r, w)
  web_endpoint post_upload user r w = upload_submit (web_handler s) user r w
  web_endpoint post_logout user r w = (logout (web_handler s) r, w)
  web_endpoint (get_edit slug) user r w = edit_page (web_handler s) slug user r w
  web_endpoint (post_edit slug) user r w = edit_submit (web_handler s) slug user r w
  web_endpoint (post_delete slug) user r w = delete_submit (web_handler s) slug user r w

  -- The group behind SessionAuth
  unfoldable pub serve_web : WebRoute → Handler WebPage World
  serve_web route = session_auth (web_endpoint route)

  -- What chi answers where no route is registered
  abbrev pub no_route : {V : Type 0} → Answer V
  no_route = error_answer 404 (codes "404 page not found")

  abbrev pub provider_login : Option OidcHandler → Handler WebPage World
  provider_login none r w = (no_route, w)
  provider_login (some h) r w = login h r w

  abbrev pub provider_callback : Option OidcHandler → HttpRequest → Answer WebPage
  provider_callback none r = no_route
  provider_callback (some h) r = callback h r

  unfoldable pub serve_public : PublicRoute → Handler WebPage World
  serve_public get_login r w = (login_page (web_handler s) r, w)
  serve_public post_login r w = (login_submit (web_handler s) r, w)
  serve_public get_provider_login r w = provider_login (oidc_handler s) r w
  serve_public get_provider_callback r w = (provider_callback (oidc_handler s) r, w)
  serve_public get_developers r w = (developers_page (web_handler s) r, w)
  serve_public get_imprint r w = (imprint_page (web_handler s), w)
  serve_public get_privacy r w = (privacy_page (web_handler s), w)
  serve_public get_terms r w = (terms_page (web_handler s), w)

  -- What the serving handler reads of a request
  abbrev pub visit_of : HttpRequest → Request
  visit_of r = record {
    cookie = r.unlock_cookie;
    path = r.path;
    passphrase = field (codes "passphrase") r.form;
    next = field (codes "next") r.form;
  }

  unfoldable pub serve_site : SiteRoute → HttpRequest → World → Response × World
  serve_site (get_site slug) r w = serve_index (serving_handler s) (visit_of r) slug w
  serve_site (get_site_file slug path) r w = serve_path (serving_handler s) (visit_of r) slug path w
  serve_site (post_unlock slug) r w = submit_passphrase (serving_handler s) (visit_of r) slug w

  abbrev pub oauth_endpoint : OauthRoute → Handler OauthValue World
  oauth_endpoint get_resource_metadata r w = (metadata_endpoint (mcp_oauth_handler s), w)
  oauth_endpoint get_server_metadata r w = (server_metadata_endpoint (mcp_oauth_handler s), w)
  oauth_endpoint get_authorize r w = authorize (mcp_oauth_handler s) r w
  oauth_endpoint post_token r w = token (mcp_oauth_handler s) r w
  oauth_endpoint (post_register request) r w = register (mcp_oauth_handler s) request w

  -- The endpoints of the OAuth server, in the group behind CORS
  unfoldable pub serve_oauth : OauthRoute → Handler OauthValue World
  serve_oauth route = cors (oauth_endpoint route)

  -- /mcp: the bearer token and the tool call of a request
  unfoldable pub serve_mcp : Bytes → ToolCall → World → Option ToolResult × World
  serve_mcp bearer call w = handle (mcp_server s) bearer call w

  abbrev pub admit_info : User → Handler HealthValue World
  admit_info user r w = info r w

  -- /actuator/health, and /actuator/info behind BasicAuth
  unfoldable pub serve_actuator : ActuatorRoute → Handler HealthValue World
  serve_actuator get_health r w = health r w
  serve_actuator get_info r w =
      basic_auth s.externals.bcrypt (users s) (codes "ACTUATOR") admit_info r w
