-- ===== src/Web/Preservation.antt =====
-- The pages keep what the content service keeps for the user of a session.
use easy_host_k8s.Prelude.{
  ℕ, Bytes, Option, none, some, not, Bool-cases, inl, inr, ltb, ◌^◌, Bool, true, false,
  if◌then◌else◌,
}
use easy_host_k8s.World.{World, Database}
use easy_host_k8s.Auth.{User}
use easy_host_k8s.Http.{HttpRequest, Upload, Answer}
use easy_host_k8s.Api.{creation_of}
use easy_host_k8s.Content.Requests.{After, IsKept, get-After, list-After}
use easy_host_k8s.Web.{WebHandler, WebPage, edit_of}
use easy_host_k8s.Web.Pages.{
  dashboard, list_page, edit_page, upload_submit, upload_file, edit_submit, delete_submit,
}

-- If the test holds, nothing is done.
unless-After :
    (P : Database → Type 0) (b : Bool) (a : Answer WebPage) (m : World → Answer WebPage × World)
    → After P m
    → After P (λ w. if b then (a, w) else m w)
unless-After P true a m k w h = h
unless-After P false a m k w h = k w h

module _ {P : Database → Type 0} {Ok : Bytes → Type 0} (h : WebHandler)
    (k : IsKept h.platform P Ok) where
  list_page-After :
      (owner : Bytes) (size offset : ℕ)
      → After P (h.list_before owner size)
      → After P (list_page h owner size offset)
  unfolding list_page
  list_page-After owner size offset before w h' = elim (Bool-cases (ltb offset (2 ^ 63))) [
    | inl fits ↦ rw fits (list-After h.platform P owner size offset w h')
    | inr wraps ↦ rw wraps (before w h')
  ]

  pub dashboard-After :
      (user : User) (r : HttpRequest)
      → ((owner : Bytes) (size : ℕ) → After P (h.list_before owner size))
      → After P (dashboard h user r)
  unfolding dashboard
  dashboard-After user r before w h' = list_page-After user.username _ _ (before _ _) w h'

  pub edit_page-After :
      (slug : Bytes) (user : User) (r : HttpRequest) → After P (edit_page h slug user r)
  unfolding edit_page
  edit_page-After slug user r w = get-After h.platform P slug user.username w

  upload_file-After :
      (user : User) (r : HttpRequest) (o : Option Upload)
      → Ok user.username
      → After P (upload_file h user r o)
  unfolding creation_of
  upload_file-After user r none ok w h' = h'
  upload_file-After user r (some upload) ok w h' = k.created (creation_of user r upload) ok w h'

  pub upload_submit-After :
      (user : User) (r : HttpRequest) → Ok user.username → After P (upload_submit h user r)
  unfolding upload_submit
  upload_submit-After user r ok =
      unless-After P (not r.form_parses) _ _
        (unless-After P _ _ _ (upload_file-After user r r.file ok))

  pub edit_submit-After :
      (slug : Bytes) (user : User) (r : HttpRequest)
      → Ok user.username
      → After P (edit_submit h slug user r)
  unfolding edit_submit edit_of
  edit_submit-After slug user r ok =
      unless-After P _ _ _ (λ w h'. k.updated (edit_of user slug r) ok w h')

  pub delete_submit-After :
      (slug : Bytes) (user : User) (r : HttpRequest)
      → Ok user.username
      → After P (delete_submit h slug user r)
  unfolding delete_submit
  delete_submit-After slug user r ok w = k.deleted slug user.username ok w
