-- ===== src/Server/Events.antt =====
-- What happens at a server, and whom it speaks for.
use easy_host_k8s.Prelude.{ℕ, ◌+◌, ◌≡◌, some, List, [], ◌∷◌, Bytes, codes}
use easy_host_k8s.World.{World}
use easy_host_k8s.Auth.{User}
use easy_host_k8s.Http.{HttpRequest, session_text}
use easy_host_k8s.Middleware.Access.{Shows}
use easy_host_k8s.Oauth.Service.{VerifiedToken, verify_access_token}
use easy_host_k8s.Mcp.{ToolCall}
use easy_host_k8s.Server.{Server, users, oauth_service}
use easy_host_k8s.Server.Routes.{
  ApiRoute, WebRoute, PublicRoute, SiteRoute, OauthRoute, ActuatorRoute, get_authorize, serve_api,
  serve_web, serve_public, serve_site, serve_oauth, serve_mcp, serve_actuator,
}

-- What reaches a server: requests to its routes, and time that passes between them
pub data Event : Type 0 where
  api : ApiRoute → HttpRequest → Event
  web : WebRoute → HttpRequest → Event
  public : PublicRoute → HttpRequest → Event
  site : SiteRoute → HttpRequest → Event
  oauth : OauthRoute → HttpRequest → Event
  actuator : ActuatorRoute → HttpRequest → Event
  mcp : Bytes → ToolCall → Event
  passes : ℕ → Event

module _ (s : Server) where
  -- The world behind an event
  unfoldable pub step : Event → World → World
  step (api route r) w = (serve_api s route r w).1
  step (web route r) w = (serve_web s route r w).1
  step (public route r) w = (serve_public s route r w).1
  step (site route r) w = (serve_site s route r w).1
  step (oauth route r) w = (serve_oauth s route r w).1
  step (actuator route r) w = (serve_actuator s route r w).1
  step (mcp bearer call) w = (serve_mcp s bearer call w).1
  step (passes time) w = record w { clock = w.clock + time }

  unfoldable pub run : List Event → World → World
  run [] w = w
  run (e ∷ events) w = run events (step e w)

  -- The owners whom an event speaks for are of a kind: those whose password, session or bearer token it
  -- carries.
  abbrev pub SpeaksFor : (Bytes → Type 0) → Event → Type 0
  SpeaksFor Ok (api route r) =
      (user : User) → Shows s.externals.bcrypt (users s) (codes "USER") r user → Ok user.username
  SpeaksFor Ok (web route r) =
      (username : Bytes) → session_text (codes "username") r.session ≡ some username → Ok username
  SpeaksFor Ok (mcp bearer call) =
      (time : ℕ) (v : VerifiedToken)
      → verify_access_token s.externals.oauth_platform (oauth_service s) time bearer ≡ some v
      → Ok v.username
  SpeaksFor Ok _ = Unit

-- The users for whom a request asks the OAuth server for a code are of a kind: those whose session it
-- carries.
abbrev pub AuthorizesFor : (Bytes → Type 0) → OauthRoute → HttpRequest → Type 0
AuthorizesFor Ok get_authorize r =
    (username : Bytes) → session_text (codes "username") r.session ≡ some username → Ok username
AuthorizesFor Ok _ r = Unit

abbrev pub Authorizes : (Bytes → Type 0) → Event → Type 0
Authorizes Ok (oauth route r) = AuthorizesFor Ok route r
Authorizes Ok _ = Unit
