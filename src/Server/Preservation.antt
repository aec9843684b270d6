-- ===== src/Server/Preservation.antt =====
-- The server as a whole: sequences of requests keep what the content service keeps for the users whom
-- the requests speak for.
use easy_host_k8s.Prelude.{
  ℕ, inl, inr, none, some, Option, List, [], ◌∷◌, Bytes, codes, bytes_eq, Bool-cases, All,
}
use easy_host_k8s.World.{World, Database, query, with_entropy}
use easy_host_k8s.Auth.{User}
use easy_host_k8s.Http.{HttpRequest}
use easy_host_k8s.Middleware.{cors}
use easy_host_k8s.Middleware.Access.{basic_auth-cases, session_auth-cases}
use easy_host_k8s.Content.Requests.{After, IsKept}
use easy_host_k8s.Api.Preservation.{
  list_content-After, get_content-After, create_content-After, update_content-After,
  delete_content-After,
}
use easy_host_k8s.Web.Preservation.{
  dashboard-After, edit_page-After, upload_submit-After, edit_submit-After, delete_submit-After,
}
use easy_host_k8s.Mcp.Preservation.{handle-After}
use easy_host_k8s.Health.{health, info}
use easy_host_k8s.Oidc.{OidcHandler, login, generate_state}
use easy_host_k8s.Server.{
  Server, users, oidc_handler, api_handler, web_handler, serving_handler, mcp_server,
}
use easy_host_k8s.Server.Open.{serve_index-After, serve_path-After, submit_passphrase-After}
use easy_host_k8s.Server.Routes.{
  ApiRoute, list_entries, post_entry, get_entry, put_entry, delete_entry, WebRoute, root,
  get_dashboard, get_upload, post_upload, post_logout, get_edit, post_edit, post_delete,
  PublicRoute, get_provider_login, SiteRoute, get_site, post_unlock, get_site_file, OauthRoute,
  ActuatorRoute, get_health, get_info, api_endpoint, serve_api, web_endpoint, serve_web,
  provider_login, serve_public, visit_of, serve_site, oauth_endpoint, serve_oauth, serve_mcp,
  admit_info, serve_actuator,
}
use easy_host_k8s.Server.Events.{
  Event, api, web, public, site, oauth, actuator, mcp, passes, step, run, SpeaksFor, AuthorizesFor,
  Authorizes,
}

module _ {P : Database → Type 0} {Ok Consenting : Bytes → Type 0} (s : Server)
    (k : IsKept s.externals.platform P Ok)
    (before : (owner : Bytes) (size : ℕ) → After P (s.externals.list_before owner size))
    (authorized : (route : OauthRoute) (r : HttpRequest)
      → AuthorizesFor Consenting route r
      → After P (oauth_endpoint s route r)) where
  api_endpoint-After :
      (route : ApiRoute) (user : User) (r : HttpRequest) (w : World)
      → Ok user.username
      → P w.db
      → P (api_endpoint s route user r w).1.db
  unfolding api_handler
  api_endpoint-After list_entries user r w ok = list_content-After (api_handler s) k user r w
  api_endpoint-After post_entry user r w ok = create_content-After (api_handler s) k user r ok w
  api_endpoint-After (get_entry slug) user r w ok =
      get_content-After (api_handler s) k slug user r w
  api_endpoint-After (put_entry slug) user r w ok =
      update_content-After (api_handler s) k slug user r ok w
  api_endpoint-After (delete_entry slug) user r w ok =
      delete_content-After (api_handler s) k slug user r ok w

  web_endpoint-After :
      (route : WebRoute) (user : User) (r : HttpRequest) (w : World)
      → Ok user.username
      → P w.db
      → P (web_endpoint s route user r w).1.db
  unfolding web_handler
  web_endpoint-After root user r w ok safe = safe
  web_endpoint-After get_dashboard user r w ok safe =
      dashboard-After (web_handler s) k user r before w safe
  web_endpoint-After get_upload user r w ok safe = safe
  web_endpoint-After post_upload user r w ok safe =
      upload_submit-After (web_handler s) k user r ok w safe
  web_endpoint-After post_logout user r w ok safe = safe
  web_endpoint-After (get_edit slug) user r w ok safe =
      edit_page-After (web_handler s) k slug user r w safe
  web_endpoint-After (post_edit slug) user r w ok safe =
      edit_submit-After (web_handler s) k slug user r ok w safe
  web_endpoint-After (post_delete slug) user r w ok safe =
      delete_submit-After (web_handler s) k slug user r ok w safe

  serve_api-After :
      (route : ApiRoute) (r : HttpRequest) (w : World)
      → SpeaksFor s Ok (api route r)
      → P w.db
      → P (serve_api s route r w).1.db
  unfolding serve_api
  serve_api-After route r w others safe =
      elim (basic_auth-cases s.externals.bcrypt (users s) (codes "USER") (api_endpoint s route) r
        w) [
          | inl (user, shown, runs) ↦
              rw runs (api_endpoint-After route user r w (others user shown) safe)
          | inr (still, refused) ↦ rw still safe
        ]

  serve_web-After :
      (route : WebRoute) (r : HttpRequest) (w : World)
      → SpeaksFor s Ok (web route r)
      → P w.db
      → P (serve_web s route r w).1.db
  unfolding serve_web
  serve_web-After route r w others safe = elim (session_auth-cases (web_endpoint s route) r w) [
    | inl (username, named, runs) ↦ rw runs (
        web_endpoint-After route (record { username = username; role = codes "USER" }) r w
          (others username named) safe)
    | inr (still, refused) ↦ rw still safe
  ]

  provider_login-After :
      (o : Option OidcHandler) (r : HttpRequest) (w : World)
      → P w.db
      → P (provider_login s o r w).1.db
  unfolding login generate_state with_entropy
  provider_login-After none r w safe = safe
  provider_login-After (some h) r w safe = safe

  serve_public-After :
      (route : PublicRoute) (r : HttpRequest) (w : World)
      → P w.db
      → P (serve_public s route r w).1.db
  unfolding serve_public
  serve_public-After get_provider_login r w safe = provider_login-After (oidc_handler s) r w safe
  serve_public-After _ r w safe = safe

  serve_site-After :
      (route : SiteRoute) (r : HttpRequest) (w : World) → P w.db → P (serve_site s route r w).1.db
  unfolding serve_site serving_handler
  serve_site-After (get_site slug) r w =
      serve_index-After P (serving_handler s) (visit_of s r) slug w
  serve_site-After (get_site_file slug path) r w =
      serve_path-After P (serving_handler s) (visit_of s r) slug path w
  serve_site-After (post_unlock slug) r w =
      submit_passphrase-After P (serving_handler s) (visit_of s r) slug w

  serve_oauth-After :
      (route : OauthRoute) (r : HttpRequest) (w : World)
      → AuthorizesFor Consenting route r
      → P w.db
      → P (serve_oauth s route r w).1.db
  unfolding serve_oauth cors
  serve_oauth-After route r w consenting safe =
      elim (Bool-cases (bytes_eq r.method (codes "OPTIONS"))) [
        | inl preflight ↦ rw preflight safe
        | inr call ↦ rw call (authorized route r consenting w safe)
      ]

  query-After : (w : World) → P w.db → P (query w).1.db
  unfolding query
  query-After w safe = elim (Bool-cases (w.fails w.calls)) [
    | inl fails ↦ rw fails safe
    | inr works ↦ rw works safe
  ]

  serve_actuator-After :
      (route : ActuatorRoute) (r : HttpRequest) (w : World)
      → P w.db
      → P (serve_actuator s route r w).1.db
  unfolding serve_actuator health info
  serve_actuator-After get_health r w safe = query-After w safe
  serve_actuator-After get_info r w safe =
      elim (basic_auth-cases s.externals.bcrypt (users s) (codes "ACTUATOR") (admit_info s) r w) [
        | inl (user, shown, runs) ↦ rw runs safe
        | inr (still, refused) ↦ rw still safe
      ]

  step-After :
      (e : Event) (w : World)
      → SpeaksFor s Ok e
      → Authorizes Consenting e
      → P w.db
      → P (step s e w).db
  unfolding step serve_mcp mcp_server
  step-After (api route r) w others consenting safe = serve_api-After route r w others safe
  step-After (web route r) w others consenting safe = serve_web-After route r w others safe
  step-After (public route r) w others consenting safe = serve_public-After route r w safe
  step-After (site route r) w others consenting safe = serve_site-After route r w safe
  step-After (oauth route r) w others consenting safe = serve_oauth-After route r w consenting safe
  step-After (actuator route r) w others consenting safe = serve_actuator-After route r w safe
  step-After (mcp bearer call) w others consenting safe =
      handle-After (mcp_server s) k bearer call w (others w.clock) safe
  step-After (passes time) w others consenting safe = safe

  pub run-After :
      (events : List Event) (w : World)
      → All (SpeaksFor s Ok) events
      → All (Authorizes Consenting) events
      → P w.db
      → P (run s events w).db
  unfolding run
  run-After [] w others consenting safe = safe
  run-After (e ∷ events) w (first, others) (consents, consenting) safe =
      run-After events (step s e w) others consenting (step-After e w first consents safe)
