-- ===== src/Server/Isolation.antt =====
-- The server as a whole: no sequence of requests of other people touches an owner's entry, and no
-- sequence at all leaves the tables inconsistent.
use easy_host_k8s.Prelude.{ℕ, ◌≡◌, refl, List, [], ◌∷◌, Bytes, All}
use easy_host_k8s.World.{World, Database, ContentRow, FileRow}
use easy_host_k8s.Http.{HttpRequest}
use easy_host_k8s.Store.Reads.{sites}
use easy_host_k8s.Store.Consistent.{IsConsistent}
use easy_host_k8s.Content.Isolation.{Intact}
use easy_host_k8s.Content.Requests.{After}
use easy_host_k8s.Content.Kept.{
  Anyone, Others, IsConsistent-IsKept, Intact-IsKept, sites-IsConsistent, sites-Intact,
}
use easy_host_k8s.Server.{Server, mcp_oauth_handler}
use easy_host_k8s.Server.Open.{register-sites, authorize-sites, token-sites}
use easy_host_k8s.Server.Preservation.{run-After}
use easy_host_k8s.Server.Routes.{
  OauthRoute, get_resource_metadata, get_server_metadata, get_authorize, post_token, post_register,
  oauth_endpoint,
}
use easy_host_k8s.Server.Events.{
  Event, api, web, oauth, mcp, run, SpeaksFor, AuthorizesFor, Authorizes,
}

module _ (s : Server) where
  SpeaksFor-Anyone : (e : Event) → SpeaksFor s Anyone e
  SpeaksFor-Anyone (api route r) = λ user shown. tt
  SpeaksFor-Anyone (web route r) = λ username named. tt
  SpeaksFor-Anyone (mcp bearer call) = λ time v accepted. tt
  SpeaksFor-Anyone _ = tt

  pub All-SpeaksFor : (events : List Event) → All (SpeaksFor s Anyone) events
  All-SpeaksFor [] = tt
  All-SpeaksFor (e ∷ events) = (SpeaksFor-Anyone e, All-SpeaksFor events)

  oauth_endpoint-sites :
      (route : OauthRoute) (r : HttpRequest) (w : World)
      → sites (oauth_endpoint s route r w).1.db ≡ sites w.db
  oauth_endpoint-sites get_resource_metadata r w = refl
  oauth_endpoint-sites get_server_metadata r w = refl
  oauth_endpoint-sites get_authorize r w = authorize-sites (mcp_oauth_handler s) r w
  oauth_endpoint-sites post_token r w = token-sites (mcp_oauth_handler s) r w
  oauth_endpoint-sites (post_register request) r w = register-sites (mcp_oauth_handler s) request w

  -- What speaks of the entries and their files alone stays behind the OAuth server.
  oauth_endpoint-After :
      {P : Database → Type 0}
      → ((d d' : Database) → sites d' ≡ sites d → P d → P d')
      → (route : OauthRoute) (r : HttpRequest) → AuthorizesFor Anyone route r
      → After P (oauth_endpoint s route r)
  oauth_endpoint-After local route r anyone w safe =
      local w.db (oauth_endpoint s route r w).1.db (oauth_endpoint-sites route r w) safe

AuthorizesFor-Anyone : (route : OauthRoute) (r : HttpRequest) → AuthorizesFor Anyone route r
AuthorizesFor-Anyone get_authorize r = λ username named. tt
AuthorizesFor-Anyone _ r = tt

Authorizes-Anyone : (e : Event) → Authorizes Anyone e
Authorizes-Anyone (oauth route r) = AuthorizesFor-Anyone route r
Authorizes-Anyone _ = tt

All-Authorizes : (events : List Event) → All (Authorizes Anyone) events
All-Authorizes [] = tt
All-Authorizes (e ∷ events) = (Authorizes-Anyone e, All-Authorizes events)

-- If listing with a negative offset leaves the entry alone, then from consistent tables, no sequence of
-- requests to any route of the server in which nobody shows a password, a session or a bearer token of
-- an entry's owner changes the entry or any of its files, and the tables stay consistent, whatever
-- database calls fail and whatever time passes.
pub run-Intact :
    (s : Server) (i : ℕ) (x : ContentRow) (files : List FileRow)
    → ((owner : Bytes) (size : ℕ)
        → After (Intact s.externals.platform i x files) (s.externals.list_before owner size))
    → (events : List Event) (w : World)
    → All (SpeaksFor s (Others s.externals.platform i x files)) events
    → Intact s.externals.platform i x files w.db
    → Intact s.externals.platform i x files (run s events w).db
run-Intact s i x files before events w others safe =
    run-After s (Intact-IsKept s.externals.platform i x files) before
      (oauth_endpoint-After s (sites-Intact s.externals.platform i x files)) events w others
      (All-Authorizes events) safe

-- If listing with a negative offset keeps the tables consistent, then every sequence of requests to any
-- routes of the server, by anybody, keeps them consistent, whatever database calls fail and whatever
-- time passes: identifiers and slugs stay unique, and every file belongs to an entry.
pub run-IsConsistent :
    (s : Server)
    → ((owner : Bytes) (size : ℕ)
        → After (IsConsistent s.externals.platform.collate) (s.externals.list_before owner size))
    → (events : List Event) (w : World) → IsConsistent s.externals.platform.collate w.db
    → IsConsistent s.externals.platform.collate (run s events w).db
run-IsConsistent s before events w consistent =
    run-After s (IsConsistent-IsKept s.externals.platform) before
      (oauth_endpoint-After s (sites-IsConsistent s.externals.platform)) events w
      (All-SpeaksFor s events) (All-Authorizes events) consistent
