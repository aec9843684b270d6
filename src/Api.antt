-- ===== src/Api.antt =====
-- backend-go/internal/handler/api.go: the REST API over the content service. The user is the one that
-- BasicAuth puts into the context, and the slug is chi's URL parameter.
pub mod Answers
pub mod Preservation
use easy_host_k8s.Prelude.{
  ℕ, Bool, true, false, Option, none, some, List, [], Bytes, codes, bytes_eq, is_empty,
  if◌then◌else◌, Result, ok, err, Error, not_found, invalid_slug, passphrase_required,
  wrong_passphrase, not_encrypted,
}
use easy_host_k8s.Model.{ContentResponse}
use easy_host_k8s.World.{World}
use easy_host_k8s.Auth.{User}
use easy_host_k8s.Http.{
  Upload, HttpRequest, Answer, Payload, nothing, error_answer, field, unless_empty, write_json,
}
use easy_host_k8s.Content.{Platform, CreateParams, UpdateParams}
use easy_host_k8s.Content.Service.{get, list, create, update, delete}

-- What is written as JSON: entries, one entry, or an object with the field "error"
pub data ApiValue : Type 0 where
  items : List ContentResponse → ApiValue
  item : ContentResponse → ApiValue
  problem : Bytes → ApiValue

pub record ApiHandler : Type 0 where
  pub platform : Platform

-- handleError
unfoldable pub handle_error : Error → Answer ApiValue
handle_error not_found = write_json 404 (problem (codes "Not found"))
handle_error Error.slug_exists = write_json 409 (problem (codes "Slug already exists"))
handle_error invalid_slug = write_json 400 (problem (codes "Invalid slug format"))
handle_error passphrase_required =
    write_json 400 (problem (codes "This content is encrypted: send its passphrase"))
handle_error wrong_passphrase = write_json 403 (problem (codes "Wrong passphrase"))
handle_error not_encrypted = write_json 400 (problem (codes "This content is not encrypted"))
handle_error e = error_answer 500 (codes "Internal error")

-- `v == "true"` for a form value
abbrev pub is_true : Bytes → Bool
is_true v = bytes_eq v (codes "true")

abbrev pub flag_unless_empty : Bytes → Option Bool
flag_unless_empty v = if is_empty v then none else some (is_true v)

abbrev pub content_of : Option Upload → Bytes
content_of none = []
content_of (some upload) = upload.content

abbrev pub name_of : Option Upload → Bytes
name_of none = []
name_of (some upload) = upload.name

-- The parameters that CreateContent reads from a form with a file
unfoldable pub creation_of : User → HttpRequest → Upload → CreateParams
creation_of user r upload = record {
  slug = field (codes "slug") r.form;
  owner = user.username;
  title = field (codes "title") r.form;
  source_url = field (codes "sourceUrl") r.form;
  creator = field (codes "creator") r.form;
  allow_external_resources = is_true (field (codes "allowExternalResources") r.form);
  file_data = upload.content;
  file_name = upload.name;
  passphrase = field (codes "passphrase") r.form;
}

-- The parameters that UpdateContent reads; an empty field is a missing one
unfoldable pub changes_of : User → Bytes → HttpRequest → UpdateParams
changes_of user slug r = record {
  slug = slug;
  owner = user.username;
  title = unless_empty (field (codes "title") r.form);
  source_url = unless_empty (field (codes "sourceUrl") r.form);
  creator = unless_empty (field (codes "creator") r.form);
  allow_external_resources = flag_unless_empty (field (codes "allowExternalResources") r.form);
  file_data = content_of r.file;
  file_name = name_of r.file;
  passphrase = field (codes "passphrase") r.form;
  new_passphrase = field (codes "newPassphrase") r.form;
  remove_encryption = is_true (field (codes "removeEncryption") r.form);
}

-- A value, or what handleError writes
abbrev pub answer_item : ℕ → Result ContentResponse → Answer ApiValue
answer_item status (ok c) = write_json status (item c)
answer_item status (err e) = handle_error e

abbrev pub answer_items : Result (List ContentResponse × ℕ) → Answer ApiValue
answer_items (ok (responses, total)) = write_json 200 (items responses)
answer_items (err e) = error_answer 500 (codes "Internal error")

abbrev pub answer_nothing : Result (Unit {0}) → Answer ApiValue
answer_nothing (ok u) = record { status = 204; headers = []; saved = none; body = nothing }
answer_nothing (err e) = handle_error e

module _ (h : ApiHandler) where
  open h use {platform}

  -- ListContent
  unfoldable pub list_content : User → HttpRequest → World → Answer ApiValue × World
  list_content user r w =
      let (page, w') = list platform user.username 10000 0 w in (answer_items page, w')

  -- GetContent
  unfoldable pub get_content : Bytes → User → HttpRequest → World → Answer ApiValue × World
  get_content slug user r w =
      let (c, w') = get platform slug user.username w in (answer_item 200 c, w')

  abbrev pub create_from : User → HttpRequest → Option Upload → World → Answer ApiValue × World
  create_from user r none w = (error_answer 400 (codes "File required"), w)
  create_from user r (some upload) w =
      let (c, w') = create platform (creation_of user r upload) w in (answer_item 201 c, w')

  -- CreateContent
  unfoldable pub create_content : User → HttpRequest → World → Answer ApiValue × World
  create_content user r w =
      if r.form_parses
      then create_from user r r.file w
      else (error_answer 400 (codes "File too large"), w)

  -- UpdateContent
  unfoldable pub update_content : Bytes → User → HttpRequest → World → Answer ApiValue × World
  update_content slug user r w =
      let (c, w') = update platform (changes_of user slug r) w in (answer_item 200 c, w')

  -- DeleteContent
  unfoldable pub delete_content : Bytes → User → HttpRequest → World → Answer ApiValue × World
  delete_content slug user r w =
      let (u, w') = delete platform slug user.username w in (answer_nothing u, w')
