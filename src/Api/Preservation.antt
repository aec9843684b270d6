-- ===== src/Api/Preservation.antt =====
-- The REST API keeps what the content service keeps for the user of a request.
use easy_host_k8s.Prelude.{Bytes, Option, none, some, Bool-cases, inl, inr}
use easy_host_k8s.World.{Database}
use easy_host_k8s.Auth.{User}
use easy_host_k8s.Http.{HttpRequest, Upload}
use easy_host_k8s.Content.Requests.{After, IsKept, get-After, list-After}
use easy_host_k8s.Api.{
  ApiHandler, changes_of, creation_of, list_content, get_content, create_content, create_from,
  update_content, delete_content,
}

module _ {P : Database → Type 0} {Ok : Bytes → Type 0} (h : ApiHandler)
    (k : IsKept h.platform P Ok) where
  pub list_content-After : (user : User) (r : HttpRequest) → After P (list_content h user r)
  unfolding list_content
  list_content-After user r w = list-After h.platform P user.username 10000 0 w

  pub get_content-After :
      (slug : Bytes) (user : User) (r : HttpRequest) → After P (get_content h slug user r)
  unfolding get_content
  get_content-After slug user r w = get-After h.platform P slug user.username w

  create_from-After :
      (user : User) (r : HttpRequest) (o : Option Upload)
      → Ok user.username
      → After P (create_from h user r o)
  unfolding creation_of
  create_from-After user r none ok w h' = h'
  create_from-After user r (some upload) ok w h' = k.created (creation_of user r upload) ok w h'

  pub create_content-After :
      (user : User) (r : HttpRequest) → Ok user.username → After P (create_content h user r)
  unfolding create_content creation_of
  create_content-After user r ok w h' = elim (Bool-cases r.form_parses) [
    | inl parses ↦ rw parses (create_from-After user r r.file ok w h')
    | inr broken ↦ rw broken h'
  ]

  pub update_content-After :
      (slug : Bytes) (user : User) (r : HttpRequest)
      → Ok user.username
      → After P (update_content h slug user r)
  unfolding update_content changes_of
  update_content-After slug user r ok w = k.updated (changes_of user slug r) ok w

  pub delete_content-After :
      (slug : Bytes) (user : User) (r : HttpRequest)
      → Ok user.username
      → After P (delete_content h slug user r)
  unfolding delete_content
  delete_content-After slug user r ok w = k.deleted slug user.username ok w
