-- ===== src/Examples/Pages.antt =====
-- The dashboard of a site's owner, a sign-in at a provider, and requests to the API and the MCP server.
use easy_host_k8s.Prelude.{
  ℕ, ◌≡◌, refl, ◌↔◌, ◌⊎◌, true, false, none, some, [], ◌∷◌, Bytes, codes, bytes_eq, Result,
  is_empty, ok, err, db_failure, lookup, remove,
}
use easy_host_k8s.Model.{ContentResponse}
use easy_host_k8s.World.{World, query}
use easy_host_k8s.Store.{scan_contents, order_by_time}
use easy_host_k8s.Store.Queries.{list_content_by_owner}
use easy_host_k8s.Content.{CreateParams}
use easy_host_k8s.Auth.{User}
use easy_host_k8s.Http.{HttpRequest, value, field, session_text}
use easy_host_k8s.Content.Service.{create, list, respond_all}
use easy_host_k8s.Oauth.Toy.{toy_platform}
use easy_host_k8s.Mcp.{McpServer, decoded, site}
use easy_host_k8s.Mcp.Calls.{site_data}
use easy_host_k8s.Mcp.Sites.{site_data_iff}
use easy_host_k8s.Api
use easy_host_k8s.Api.{ApiHandler}
use easy_host_k8s.Oidc.{OidcHandler, callback, oauth_state_key}
use easy_host_k8s.Oidc.SignIn.{Vouches, callback-cases}
use easy_host_k8s.Web.{
  WebHandler, DashboardPage, dashboard_view, sign_in, get_flash, atoi, page_size_of, page_of,
  offset_of, total_pages_of, clamp_page,
}
use easy_host_k8s.Web.Pages.{dashboard, list_page}
use easy_host_k8s.Web.Paging.{IsPaged, dashboard-IsPaged}
use easy_host_k8s.Examples.Content.{platform, world}
use easy_host_k8s.Examples.Requests.{bcrypt, request}

abbrev pub ann : User
ann = record { username = codes "ann"; role = codes "USER" }

abbrev pub handler : WebHandler
handler = record {
  platform = platform;
  bcrypt = bcrypt;
  users = record { users = [] };
  fits = λ session. true;
  oidc_enabled = false;
  oidc_logout = none;
  oidc_client_id = [];
  base_url = [];
  query_escape = λ s. s;
  error_text = λ e. [];
  list_before = λ owner limit w. (err db_failure, w);
}

-- The second page, of 25 entries each, of one entry
abbrev second_page : HttpRequest
second_page = record request { query = (codes "page", codes "2") ∷ (codes "size", codes "25") ∷ [] }

abbrev shown : DashboardPage
shown = record {
  user = codes "ann";
  items = [];
  count = 1;
  page = 1;
  page_size = 25;
  total_pages = 1;
  success = [];
  error = [];
}

is_shown : (dashboard handler ann second_page world).0.body ≡ value (dashboard_view shown)
unfolding dashboard list_page list list_content_by_owner query respond_all get_flash session_text
    field lookup bytes_eq atoi page_size_of page_of offset_of total_pages_of clamp_page
    scan_contents order_by_time
is_shown = refl

dashboard-IsPaged_example : IsPaged shown
dashboard-IsPaged_example = dashboard-IsPaged handler ann second_page world shown is_shown

abbrev oidc : OidcHandler
oidc = record {
  provider = record {
    auth_code_url = λ state. state;
    exchange = λ code. some (record { id_token = some code });
    verify = λ raw. some (record {
      issuer = codes "iss";
      claims = some (record { email = codes "a@b.c"; sub = raw });
    });
    end_session_endpoint = none;
    encode_base64 = λ bytes. bytes;
  };
  fits = λ session. true;
  allowed_users = codes "a@b.c" ∷ [];
}

abbrev returning : HttpRequest
returning = record request {
  session = (codes "oauth_state", codes "xyz") ∷ [];
  query = (codes "state", codes "xyz") ∷ (codes "code", codes "ann") ∷ [];
}

callback-cases_example :
    ((username : Bytes) × Vouches oidc returning username
      × (callback oidc {V = ℕ} returning
          ≡ sign_in oidc.fits (remove oauth_state_key returning.session) username))
    ⊎ ((callback oidc {V = ℕ} returning).saved ≡ none)
callback-cases_example = callback-cases {V = ℕ} oidc returning

abbrev mcp : McpServer
mcp = record {
  platform = platform;
  oauth_platform = toy_platform;
  oauth_service = record { base_url = []; sign_secret = [] };
  suffices = λ scopes time info. true;
  decode_base64 = λ text. decoded text;
  error_text = λ e. [];
}

site_data_iff_example :
    (site_data mcp (codes "<p>") [] ≡ site (codes "<p>") (codes "index.html")) ↔ (
      ((is_empty (codes "<p>") ≡ false)
        × (is_empty {A = ℕ} [] ≡ true)
        × (codes "<p>" ≡ codes "<p>")
        × (codes "index.html" ≡ codes "index.html"))
      ⊎ ((is_empty (codes "<p>") ≡ true)
          × (is_empty {A = ℕ} [] ≡ false)
          × (mcp.decode_base64 [] ≡ decoded (codes "<p>"))
          × (codes "index.html" ≡ codes "upload.zip")))
site_data_iff_example = site_data_iff mcp (codes "<p>") [] (codes "<p>") (codes "index.html")

abbrev api : ApiHandler
api = record { platform = platform }

abbrev posting : HttpRequest
posting = record request {
  form = (codes "slug", codes "blog") ∷ (codes "passphrase", codes "pw") ∷ [];
  file = some (record { content = codes "<p>"; name = codes "a.html" });
}

abbrev posted : CreateParams
posted = record {
  slug = codes "blog";
  owner = codes "ann";
  title = [];
  source_url = [];
  creator = [];
  allow_external_resources = false;
  file_data = codes "<p>";
  file_name = codes "a.html";
  passphrase = codes "pw";
}

abbrev nothing_made : ContentResponse
nothing_made = record {
  id = 0;
  slug = [];
  title = [];
  source_url = [];
  owner = [];
  creator = [];
  allow_external_resources = false;
  encrypted = false;
  created_at = 0;
  updated_at = 0;
  files = [];
}

abbrev made_in : Result ContentResponse → ContentResponse
made_in (ok c) = c
made_in (err e) = nothing_made

abbrev making : Result ContentResponse × World
making = create platform posted world

abbrev bob : User
bob = record { username = codes "bob"; role = codes "USER" }
