-- ===== src/Web/Pages.antt =====
-- The handlers of backend-go/internal/handler/web.go.
use easy_host_k8s.Prelude.{
  ℕ, ◌^◌, ltb, not, ◌&&◌, Option, none, some, List, [], ◌++◌, Bytes, codes, bytes_eq, is_empty,
  contains, if◌then◌else◌, Result, ok, err, Action, insert, remove,
}
use easy_host_k8s.Model.{ContentResponse}
use easy_host_k8s.World.{World}
use easy_host_k8s.Auth.{User, authenticate}
use easy_host_k8s.Http.{
  Session, Upload, HttpRequest, Answer, error_answer, redirect_answer, page_answer, field,
  session_text, save,
}
use easy_host_k8s.Content.Service.{get, list, create, update, delete}
use easy_host_k8s.Api.{creation_of}
use easy_host_k8s.Web.{
  WebHandler, WebPage, login_view, dashboard_view, upload_view, edit_view, developers_view,
  imprint_view, privacy_view, terms_view, sign_in, get_flash, error_message, atoi, page_size_of,
  page_of, offset_of, total_pages_of, clamp_page, end_session, edit_of,
}

module _ (h : WebHandler) where
  open h use {platform, fits}

  -- setFlash and a redirect
  unfoldable pub flash_and_go : HttpRequest → Bytes → Bytes → Bytes → Answer WebPage
  flash_and_go r key message target =
      redirect_answer (save fits (insert (codes "flash_" ++ key) message r.session)) target

  abbrev pub signed_in : Option Bytes → Answer WebPage → Answer WebPage
  signed_in none page = page
  signed_in (some username) page = redirect_answer none (codes "/dashboard")

  -- LoginPage
  unfoldable pub login_page : HttpRequest → Answer WebPage
  login_page r =
      signed_in (session_text (codes "username") r.session)
        (page_answer none (login_view (field (codes "error") r.query) h.oidc_enabled))

  abbrev pub check_login : Session → Option User → Answer WebPage
  check_login session none = redirect_answer none (codes "/login?error=Invalid+credentials")
  check_login session (some user) =
      if not (bytes_eq user.role (codes "USER"))
      then redirect_answer none (codes "/login?error=Invalid+credentials")
      else sign_in fits session user.username

  -- LoginSubmit
  unfoldable pub login_submit : HttpRequest → Answer WebPage
  login_submit r = check_login r.session (
      authenticate h.bcrypt h.users (field (codes "username") r.form)
        (field (codes "password") r.form))

  abbrev pub logout_target : Bytes → Option Bytes → Bytes
  logout_target username none = codes "/login"
  logout_target username (some endpoint) =
      if contains username (codes "|") && not (is_empty endpoint)
      then end_session endpoint (h.query_escape (h.base_url ++ codes "/login"))
          (h.query_escape h.oidc_client_id)
      else codes "/login"

  -- Logout
  unfoldable pub logout : HttpRequest → Answer WebPage
  logout r =
      redirect_answer (save fits (remove (codes "username") r.session))
        (logout_target (field (codes "username") r.session) h.oidc_logout)

  -- svc.List with the offset of a page
  unfoldable pub list_page : Bytes → ℕ → ℕ → Action World (List ContentResponse × ℕ)
  list_page owner page_size offset =
      if ltb offset (2 ^ 63)
      then list platform owner page_size offset
      else h.list_before owner page_size

  abbrev pub draw_dashboard :
      User → HttpRequest → ℕ → ℕ → Result (List ContentResponse × ℕ) → Answer WebPage
  draw_dashboard user r page_size page (err e) = error_answer 500 (codes "Internal error")
  draw_dashboard user r page_size page (ok (items, total)) =
      let (success, error, session) = get_flash r.session in
      page_answer (save fits session) (
        dashboard_view (record {
          user = user.username;
          items = items;
          count = total;
          page = clamp_page page (total_pages_of total page_size);
          page_size = page_size;
          total_pages = total_pages_of total page_size;
          success = success;
          error = error;
        }))

  -- Dashboard
  unfoldable pub dashboard : User → HttpRequest → World → Answer WebPage × World
  dashboard user r w =
      let page_size = page_size_of (atoi (field (codes "size") r.query)) in
      let page = page_of (atoi (field (codes "page") r.query)) in
      let (listed, w') = list_page user.username page_size (offset_of page page_size) w in
      (draw_dashboard user r page_size page listed, w')

  -- UploadPage
  unfoldable pub upload_page : User → HttpRequest → Answer WebPage
  upload_page user r =
      let (success, error, session) = get_flash r.session in
      page_answer (save fits session) (upload_view user.username error)

  abbrev pub uploaded : HttpRequest → Result ContentResponse → Answer WebPage
  uploaded r (err e) = flash_and_go r (codes "error") (error_message e) (codes "/upload")
  uploaded r (ok c) =
      flash_and_go r (codes "success")
        (codes "Content '"
          ++ (field (codes "slug") r.form
              ++ (codes "' uploaded successfully"
                  ++ (if is_empty (field (codes "passphrase") r.form)
                      then []
                      else codes " and encrypted"))))
        (codes "/dashboard")

  abbrev pub upload_file : User → HttpRequest → Option Upload → World → Answer WebPage × World
  upload_file user r none w =
      (flash_and_go r (codes "error") (codes "File is required") (codes "/upload"), w)
  upload_file user r (some upload) w =
      let (c, w') = create platform (creation_of user r upload) w in (uploaded r c, w')

  -- UploadSubmit
  unfoldable pub upload_submit : User → HttpRequest → World → Answer WebPage × World
  upload_submit user r w =
      if not r.form_parses
      then (flash_and_go r (codes "error") (codes "File too large (max 10MB)") (codes "/upload"), w)
      else if not
          (bytes_eq (field (codes "passphrase") r.form) (field (codes "passphraseConfirm") r.form))
      then (
        flash_and_go r (codes "error") (codes "The two passphrases do not match") (codes "/upload"),
        w,
      )
      else upload_file user r r.file w

  abbrev pub draw_edit : User → HttpRequest → Result ContentResponse → Answer WebPage
  draw_edit user r (err e) = error_answer 404 (codes "Not found")
  draw_edit user r (ok c) =
      let (success, error, session) = get_flash r.session in
      page_answer (save fits session) (edit_view user.username c error)

  -- EditPage
  unfoldable pub edit_page : Bytes → User → HttpRequest → World → Answer WebPage × World
  edit_page slug user r w =
      let (c, w') = get platform slug user.username w in (draw_edit user r c, w')

  abbrev pub edited : Bytes → HttpRequest → Result ContentResponse → Answer WebPage
  edited slug r (err e) = flash_and_go r (codes "error") (error_message e) (codes "/edit/" ++ slug)
  edited slug r (ok c) =
      flash_and_go r (codes "success")
        (codes "Content '" ++ (slug ++ codes "' updated successfully")) (codes "/dashboard")

  -- EditSubmit
  unfoldable pub edit_submit : Bytes → User → HttpRequest → World → Answer WebPage × World
  edit_submit slug user r w =
      if not (
        bytes_eq (field (codes "newPassphrase") r.form)
          (field (codes "newPassphraseConfirm") r.form))
      then (
        flash_and_go r (codes "error") (codes "The two new passphrases do not match")
            (codes "/edit/" ++ slug),
        w,
      )
      else (let (c, w') = update platform (edit_of user slug r) w in (edited slug r c, w'))

  abbrev pub deleted : Bytes → HttpRequest → Result (Unit {0}) → Answer WebPage
  deleted slug r (err e) =
      flash_and_go r (codes "error") (codes "Failed to delete: " ++ h.error_text e)
        (codes "/dashboard")
  deleted slug r (ok u) =
      flash_and_go r (codes "success") (codes "Content '" ++ (slug ++ codes "' deleted"))
        (codes "/dashboard")

  -- DeleteSubmit
  unfoldable pub delete_submit : Bytes → User → HttpRequest → World → Answer WebPage × World
  delete_submit slug user r w =
      let (u, w') = delete platform slug user.username w in (deleted slug r u, w')

  -- DevelopersPage
  unfoldable pub developers_page : HttpRequest → Answer WebPage
  developers_page r = page_answer none (developers_view (session_text (codes "username") r.session))

  -- ImprintPage
  unfoldable pub imprint_page : Answer WebPage
  imprint_page = page_answer none imprint_view

  -- PrivacyPage
  unfoldable pub privacy_page : Answer WebPage
  privacy_page = page_answer none privacy_view

  -- TermsPage
  unfoldable pub terms_page : Answer WebPage
  terms_page = page_answer none terms_view
