-- ===== src/Mcp/Preservation.antt =====
-- The tools keep what the content service keeps for the user whom the bearer token names.
use easy_host_k8s.Prelude.{
  ◌≡◌, refl, inl, inr, Option, none, some, [], ◌∷◌, Bytes, is_empty, Bool-cases, subst, arith, not,
  ◌||◌,
}
use easy_host_k8s.World.{World, Database}
use easy_host_k8s.Content.Requests.{IsKept, get-After, list-After}
use easy_host_k8s.Oauth.{mcp_scope}
use easy_host_k8s.Oauth.Service.{VerifiedToken, verify_access_token}
use easy_host_k8s.Mcp.{
  McpServer, ToolCall, lists, gets, creates, updates, deletes, SiteData, site, unusable,
  CreateContentInput, UpdateContentInput, owner, token_info,
}
use easy_host_k8s.Mcp.Calls.{
  create_site, changes, update_site, site_data, call_as, list_content, get_content, create_content,
  update_content, delete_content, call_tool, call_for, call_behind, checked_info, handle,
}

module _ {P : Database → Type 0} {Ok : Bytes → Type 0} (s : McpServer)
    (k : IsKept s.platform P Ok) where
  create_site-After :
      (c : CreateContentInput) (user : Bytes) (d : SiteData) (w : World)
      → Ok user
      → P w.db
      → P (create_site s c user d w).1.db
  create_site-After c user (unusable message) w ok h = h
  create_site-After c user (site bytes name) w ok h = k.created _ ok w h

  update_site-After :
      (c : UpdateContentInput) (user : Bytes) (d : SiteData) (w : World)
      → Ok user
      → P w.db
      → P (update_site s c user d w).1.db
  update_site-After c user (unusable message) w ok h = h
  update_site-After c user (site bytes name) w ok h = k.updated (changes s c user bytes name) ok w h

  update_content-After :
      (c : UpdateContentInput) (user : Bytes) (w : World)
      → Ok user
      → P w.db
      → P (update_content s c user w).1.db
  unfolding update_content
  update_content-After c user w ok h = elim (Bool-cases (is_empty c.slug)) [
    | inl none_given ↦ rw none_given h
    | inr given ↦
        rw given (elim (Bool-cases (not (is_empty c.html) || not (is_empty c.zip_base64))) [
          | inl replaced ↦
              rw replaced (update_site-After c user (site_data s c.html c.zip_base64) w ok h)
          | inr unchanged ↦ rw unchanged (update_site-After c user (site [] []) w ok h)
        ])
  ]

  call_as-After :
      (call : ToolCall) (user : Bytes) (w : World)
      → Ok user
      → P w.db
      → P (call_as s call user w).1.db
  unfolding list_content get_content create_content delete_content
  call_as-After lists user w ok h = list-After s.platform P user 10000 0 w h
  call_as-After (gets slug) user w ok h = elim (Bool-cases (is_empty slug)) [
    | inl none_given ↦ rw none_given h
    | inr given ↦ rw given (get-After s.platform P slug user w h)
  ]
  call_as-After (creates c) user w ok h = elim (Bool-cases (is_empty c.slug)) [
    | inl none_given ↦ rw none_given h
    | inr given ↦ rw given (create_site-After c user (site_data s c.html c.zip_base64) w ok h)
  ]
  call_as-After (updates c) user w ok h = update_content-After c user w ok h
  call_as-After (deletes slug) user w ok h = elim (Bool-cases (is_empty slug)) [
    | inl none_given ↦ rw none_given h
    | inr given ↦ rw given (k.deleted slug user ok w h)
  ]

  call_for-After :
      (call : ToolCall) (o : Option Bytes) (w : World)
      → ((user : Bytes) → o ≡ some user → Ok user)
      → P w.db
      → P (call_for s call o w).1.db
  call_for-After call none w ok h = h
  call_for-After call (some user) w ok h = call_as-After call user w (ok user refl) h

  owner-Ok :
      (v : VerifiedToken)
      → Ok v.username
      → (user : Bytes) → owner (some (token_info v)) ≡ some user
      → Ok user
  unfolding owner token_info
  owner-Ok v ok user e = let same : v.username ≡ user = ground (arith, e) in subst Ok same ok

  call_behind-After :
      (call : ToolCall) (o : Option VerifiedToken) (w : World)
      → ((v : VerifiedToken) → o ≡ some v → Ok v.username)
      → P w.db
      → P (call_behind s call (checked_info s w.clock o) w).1.db
  unfolding call_tool
  call_behind-After call none w ok h = h
  call_behind-After call (some v) w ok h =
      elim (Bool-cases (s.suffices (mcp_scope ∷ []) w.clock (token_info v))) [
        | inl accepted ↦
            rw accepted
              (call_for-After call (owner (some (token_info v))) w (owner-Ok v (ok v refl)) h)
        | inr turned_away ↦ rw turned_away h
      ]

  -- A call of any tool with a bearer token keeps what the service keeps for the token's user.
  pub handle-After :
      (token : Bytes) (call : ToolCall) (w : World)
      → ((v : VerifiedToken)
          → verify_access_token s.oauth_platform s.oauth_service w.clock token ≡ some v
          → Ok v.username)
      → P w.db
      → P (handle s token call w).1.db
  unfolding handle
  handle-After token call w ok h =
      call_behind-After call (verify_access_token s.oauth_platform s.oauth_service w.clock token) w
        ok h
