-- ===== src/Web/Leafing.antt =====
-- What the pages of the dashboard show, one after the other.
use easy_host_k8s.Prelude.{ℕ, zero, suc, List, [], ◌++◌, map}
use easy_host_k8s.Model.{Content, ContentResponse, to_response}
use easy_host_k8s.World.{World, Database}
use easy_host_k8s.Auth.{User}
use easy_host_k8s.Http.{HttpRequest, Payload, value}
use easy_host_k8s.Store.Queries.{own_files}
use easy_host_k8s.Web.{WebHandler, WebPage, dashboard_view}
use easy_host_k8s.Web.Pages.{dashboard}

-- An entry as it is shown, with the paths of its files in the tables
abbrev pub shown_in : Database → Content → ContentResponse
shown_in d c = to_response c (map (λ f. f.file_path) (own_files c.id d.files))

-- The entries on what is written, if it is a dashboard
abbrev pub items_of : Payload WebPage → List ContentResponse
items_of (value (dashboard_view d)) = d.items
items_of _ = []

module _ (h : WebHandler) (user : User) (w : World) (ask : ℕ → HttpRequest) where
  -- The entries on the answers to the requests for the first pages, one after the other
  abbrev pub browsed : ℕ → List ContentResponse
  browsed zero = []
  browsed (suc n) = browsed n ++ items_of (dashboard h user (ask (suc n)) w).0.body
