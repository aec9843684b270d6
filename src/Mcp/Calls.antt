-- ===== src/Mcp/Calls.antt =====
-- The tools of backend-go/internal/mcp/server.go, and the bearer token before them.
use easy_host_k8s.Prelude.{
  ℕ, ◌||◌, not, Option, none, some, List, [], ◌∷◌, Bytes, codes, is_empty, if◌then◌else◌, Result,
  ok, err,
}
use easy_host_k8s.Model.{ContentResponse}
use easy_host_k8s.World.{World}
use easy_host_k8s.Content.{UpdateParams}
use easy_host_k8s.Content.Service.{get, list, create, update, delete}
use easy_host_k8s.Oauth.{mcp_scope}
use easy_host_k8s.Oauth.Service.{VerifiedToken, verify_access_token}
use easy_host_k8s.Mcp.{
  TokenInfo, McpServer, CreateContentInput, UpdateContentInput, ToolCall, lists, gets, creates,
  updates, deletes, entries, entry, deleted, ToolResult, shown, failed, SiteData, site, unusable,
  zip_site, token_info, owner, no_user, no_slug,
}

module _ (s : McpServer) where
  open s use {platform, oauth_platform, oauth_service, error_text}

  -- siteData
  unfoldable pub site_data : Bytes → Bytes → SiteData
  site_data html zip_base64 =
      if not (is_empty html)
      then if not (is_empty zip_base64)
        then unusable (codes "provide either html or zip_base64, not both")
        else site html (codes "index.html")
      else if not (is_empty zip_base64)
      then zip_site (s.decode_base64 zip_base64)
      else unusable (codes "either html or zip_base64 is required")

  abbrev pub show_entries : Result (List ContentResponse × ℕ) → ToolResult
  show_entries (ok (items, total)) = shown (entries items)
  show_entries (err e) = failed (error_text e)

  abbrev pub show_entry : Result ContentResponse → ToolResult
  show_entry (ok c) = shown (entry c)
  show_entry (err e) = failed (error_text e)

  abbrev pub show_deleted : Bytes → Result (Unit {0}) → ToolResult
  show_deleted slug (ok u) = shown (deleted slug)
  show_deleted slug (err e) = failed (error_text e)

  -- listContent behind owner
  unfoldable pub list_content : Bytes → World → ToolResult × World
  list_content user w = let (page, w') = list platform user 10000 0 w in (show_entries page, w')

  -- getContent behind owner
  unfoldable pub get_content : Bytes → Bytes → World → ToolResult × World
  get_content slug user w =
      if is_empty slug
      then (no_slug, w)
      else (let (c, w') = get platform slug user w in (show_entry c, w'))

  abbrev pub create_site : CreateContentInput → Bytes → SiteData → World → ToolResult × World
  create_site i user (unusable message) w = (failed message, w)
  create_site i user (site bytes name) w =
      let (c, w') =
        create platform
          (record {
            slug = i.slug;
            owner = user;
            title = i.title;
            source_url = i.source_url;
            creator = i.creator;
            allow_external_resources = i.allow_external_resources;
            file_data = bytes;
            file_name = name;
            passphrase = i.passphrase;
          })
          w in
      (show_entry c, w')

  -- createContent behind owner
  unfoldable pub create_content : CreateContentInput → Bytes → World → ToolResult × World
  create_content i user w =
      if is_empty i.slug then (no_slug, w) else create_site i user (site_data i.html i.zip_base64) w

  abbrev pub changes : UpdateContentInput → Bytes → Bytes → Bytes → UpdateParams
  changes i user bytes name = record {
    slug = i.slug;
    owner = user;
    title = i.title;
    source_url = i.source_url;
    creator = i.creator;
    allow_external_resources = i.allow_external_resources;
    file_data = bytes;
    file_name = name;
    passphrase = i.passphrase;
    new_passphrase = i.new_passphrase;
    remove_encryption = i.remove_encryption;
  }

  abbrev pub update_site : UpdateContentInput → Bytes → SiteData → World → ToolResult × World
  update_site i user (unusable message) w = (failed message, w)
  update_site i user (site bytes name) w =
      let (c, w') = update platform (changes i user bytes name) w in (show_entry c, w')

  -- updateContent behind owner
  unfoldable pub update_content : UpdateContentInput → Bytes → World → ToolResult × World
  update_content i user w =
      if is_empty i.slug
      then (no_slug, w)
      else if not (is_empty i.html) || not (is_empty i.zip_base64)
      then update_site i user (site_data i.html i.zip_base64) w
      else update_site i user (site [] []) w

  -- deleteContent behind owner
  unfoldable pub delete_content : Bytes → Bytes → World → ToolResult × World
  delete_content slug user w =
      if is_empty slug
      then (no_slug, w)
      else (let (u, w') = delete platform slug user w in (show_deleted slug u, w'))

  abbrev pub call_as : ToolCall → Bytes → World → ToolResult × World
  call_as lists user = list_content user
  call_as (gets slug) user = get_content slug user
  call_as (creates i) user = create_content i user
  call_as (updates i) user = update_content i user
  call_as (deletes slug) user = delete_content slug user

  abbrev pub call_for : ToolCall → Option Bytes → World → ToolResult × World
  call_for call none w = (no_user, w)
  call_for call (some user) w = call_as call user w

  -- A tool's handler: each asks for the owner first.
  unfoldable pub call_tool : ToolCall → Option TokenInfo → World → ToolResult × World
  call_tool call info w = call_for call (owner info) w

  abbrev pub checked_info : ℕ → Option VerifiedToken → Option TokenInfo
  checked_info time none = none
  checked_info time (some v) =
      if s.suffices (mcp_scope ∷ []) time (token_info v) then some (token_info v) else none

  abbrev pub call_behind : ToolCall → Option TokenInfo → World → Option ToolResult × World
  call_behind call none w = (none, w)
  call_behind call (some info) w = let (r, w') = call_tool call (some info) w in (some r, w')

  -- Handler: a call with a bearer token, answered with no result if the token is not accepted
  unfoldable pub handle : Bytes → ToolCall → World → Option ToolResult × World
  handle token call w =
      call_behind call
        (checked_info w.clock (verify_access_token oauth_platform oauth_service w.clock token)) w
