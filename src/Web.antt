-- ===== src/Web.antt =====
-- backend-go/internal/handler/web.go: the pages behind the session cookie, sign-in and sign-out. A
-- template is not drawn: an answer holds the data that it is given. The user is the one that
-- SessionAuth puts into the context, and the slug is chi's URL parameter.
pub mod Pages
pub mod Paging
pub mod Browsing
pub mod Leafing
pub mod Preservation
pub mod Sessions
pub mod Flash
use easy_host_k8s.Prelude.{
  ℕ, zero, suc, ◌+◌, ◌-◌, ◌*◌, ◌/◌, ◌%◌, ◌^◌, ltb, leb, ◌==◌, Bool, true, false, not, ◌&&◌, ◌||◌,
  Option, none, some, List, [], ◌∷◌, ◌++◌, Bytes, codes, bytes_eq, is_empty, contains,
  if◌then◌else◌, Result, ok, err, Error, Action, not_found, invalid_slug, passphrase_required,
  wrong_passphrase, not_encrypted, insert, remove, lookup,
}
use easy_host_k8s.Model.{ContentResponse}
use easy_host_k8s.World.{World}
use easy_host_k8s.Auth.{User, UserStore, Bcrypt, authenticate}
use easy_host_k8s.Http.{
  Answer, redirect_answer, save, Session, Upload, HttpRequest, Answer, error_answer,
  redirect_answer, page_answer, field, text_or_nil, session_text, save,
}
use easy_host_k8s.Content.{Platform, CreateParams, UpdateParams}
use easy_host_k8s.Content.Service.{get, list, create, update, delete}
use easy_host_k8s.Api.{creation_of, is_true, content_of, name_of}

pub record WebHandler : Type 0 where
  pub platform : Platform
  pub bcrypt : Bcrypt
  pub users : UserStore
  -- whether securecookie can encode a session
  pub fits : Session → Bool
  pub oidc_enabled : Bool
  -- LogoutURL of the OIDC handler, if there is one
  pub oidc_logout : Option Bytes
  pub oidc_client_id : Bytes
  pub base_url : Bytes
  -- url.QueryEscape
  pub query_escape : Bytes → Bytes
  -- err.Error()
  pub error_text : Error → Bytes
  -- List with a negative offset, which is up to the database: owner, limit
  pub list_before : Bytes → ℕ → Action World (List ContentResponse × ℕ)

pub record DashboardPage : Type 0 where
  pub user : Bytes
  pub items : List ContentResponse
  pub count : ℕ
  pub page : ℕ
  pub page_size : ℕ
  pub total_pages : ℕ
  pub success : Bytes
  pub error : Bytes

-- The data of the templates
pub data WebPage : Type 0 where
  login_view : Bytes → Bool → WebPage
  dashboard_view : DashboardPage → WebPage
  upload_view : Bytes → Bytes → WebPage
  edit_view : Bytes → ContentResponse → Bytes → WebPage
  developers_view : Option Bytes → WebPage
  imprint_view privacy_view terms_view : WebPage

abbrev pub post_login_redirect_key : Bytes
post_login_redirect_key = codes "post_login_redirect"

-- PopPostLoginRedirect, with the place to go without one
unfoldable pub pop_post_login_redirect : Session → Bytes × Session
pop_post_login_redirect session = elim (session_text post_login_redirect_key session) [
  | none ↦ (codes "/dashboard", session)
  | some dest ↦ (dest, remove post_login_redirect_key session)
]

-- The end of LoginSubmit, and of Callback: the session with the name, and where to go
unfoldable pub sign_in : {V : Type 0} → (Session → Bool) → Session → Bytes → Answer V
sign_in fits session username =
    let (dest, session') = pop_post_login_redirect (insert (codes "username") username session) in
    redirect_answer (save fits session') dest

abbrev pub clear_flash : Bytes → Session → Bytes × Session
clear_flash key session = elim (session_text key session) [
  | none ↦ ([], session)
  | some message ↦ (message, remove key session)
]

-- getFlash: the flashes "success" and "error", and the session to save
unfoldable pub get_flash : Session → Bytes × Bytes × Session
get_flash session =
    let (success, session') = clear_flash (codes "flash_success") session in
    let (error, session'') = clear_flash (codes "flash_error") session' in
    (success, error, session'')

-- errorMessage
unfoldable pub error_message : Error → Bytes
error_message Error.slug_exists = codes "That slug is already taken"
error_message invalid_slug = codes "Invalid slug format"
error_message passphrase_required = codes "This content is encrypted: enter its current passphrase"
error_message wrong_passphrase = codes "Wrong passphrase"
error_message not_encrypted = codes "This content is not encrypted"
error_message not_found = codes "Content not found"
error_message e = codes "Something went wrong, please try again"

abbrev pub add_digit : Option ℕ → ℕ → Option ℕ
add_digit none c = none
add_digit (some n) c =
    if leb b'0' c && leb c b'9'
    then if ltb (n * 10 + (c - b'0')) (2 ^ 63) then some (n * 10 + (c - b'0')) else none
    else none

abbrev pub digits_from : Option ℕ → Bytes → Option ℕ
digits_from n [] = n
digits_from n (c ∷ s) = digits_from (add_digit n c) s

abbrev pub unsigned : Bytes → Bytes
unsigned [] = []
unsigned (c ∷ s) = if c == b'+' then s else c ∷ s

-- strconv.Atoi; both callers treat a negative number as they treat an error.
unfoldable pub atoi : Bytes → Option ℕ
atoi s = if is_empty (unsigned s) then none else digits_from (some 0) (unsigned s)

-- The size of a page, from the parameter "size"
unfoldable pub page_size_of : Option ℕ → ℕ
page_size_of none = 10
page_size_of (some n) = if n == 10 || (n == 25 || (n == 50 || n == 100)) then n else 10

-- The page that is asked for, from the parameter "page"
unfoldable pub page_of : Option ℕ → ℕ
page_of none = 1
page_of (some n) = if ltb 0 n then n else 1

-- (page - 1) * pageSize on int
unfoldable pub offset_of : ℕ → ℕ → ℕ
offset_of page page_size = ((page - 1) * page_size) % 2 ^ 64

-- totalPages
unfoldable pub total_pages_of : ℕ → ℕ → ℕ
total_pages_of total page_size =
    if ltb ((total + page_size - 1) / page_size) 1 then 1 else (total + page_size - 1) / page_size

unfoldable pub clamp_page : ℕ → ℕ → ℕ
clamp_page page total_pages = if ltb total_pages page then total_pages else page

abbrev pub end_session : Bytes → Bytes → Bytes → Bytes
end_session endpoint redirect_uri client_id =
    endpoint
    ++ (codes "?post_logout_redirect_uri=" ++ (redirect_uri ++ (codes "&client_id=" ++ client_id)))

-- The parameters that EditSubmit sends; every field of the form counts, and lifting the encryption
-- wins over a new passphrase
unfoldable pub edit_of : User → Bytes → HttpRequest → UpdateParams
edit_of user slug r = record {
  slug = slug;
  owner = user.username;
  title = some (field (codes "title") r.form);
  source_url = some (field (codes "sourceUrl") r.form);
  creator = some (field (codes "creator") r.form);
  allow_external_resources = some (is_true (field (codes "allowExternalResources") r.form));
  file_data = content_of r.file;
  file_name = name_of r.file;
  passphrase = field (codes "passphrase") r.form;
  new_passphrase =
      if is_true (field (codes "removeEncryption") r.form)
      then []
      else field (codes "newPassphrase") r.form;
  remove_encryption = is_true (field (codes "removeEncryption") r.form);
}
