-- ===== src/Store/Queries.antt =====
-- The methods of Store on the content tables, each with the call that may fail.
use easy_host_k8s.Prelude.{
  ℕ, ◌+◌, Bool, true, false, not, ◌&&◌, Option, none, some, List, [], ◌∷◌, ◌++◌, map, Bytes,
  bytes_eq, any, filter, take, drop, length, ◌==◌, if◌then◌else◌, Result, ok, err, Action, return,
  lift, ◌>>=◌, ◌>>◌, no_rows, db_failure,
}
use easy_host_k8s.Crypto.{Envelope}
use easy_host_k8s.Model.{Content, ContentFile, is_some}
use easy_host_k8s.World.{World, ContentRow, FileRow, query, get_world, put_world}
use easy_host_k8s.Store.{
  scan_content, row_of, enc_columns, find, set_contents, set_files, set_metadata, set_envelope,
  rewrite_files, order_by_time, scan_contents,
}

abbrev pub is_missing {ℓ} : {A : Type ℓ} → Option A → Bool
is_missing none = true
is_missing (some _) = false

abbrev pub scan_found : Option ContentRow → Result Content
scan_found none = err no_rows
scan_found (some r) = scan_content r

unfoldable pub file_of : ContentRow → FileRow → ContentFile
file_of c f = record {
  id = f.id;
  content_id = f.content_id;
  file_path = f.file_path;
  file_data = f.file_data;
  content_type = f.content_type;
  allow_external_resources = c.allow_external_resources;
  encrypted = is_some c.enc_kdf;
}

-- A scan without the two columns of `content`
unfoldable pub plain_file : FileRow → ContentFile
plain_file f = record {
  id = f.id;
  content_id = f.content_id;
  file_path = f.file_path;
  file_data = f.file_data;
  content_type = f.content_type;
  allow_external_resources = false;
  encrypted = false;
}

module _ (collate : Bytes → Bytes) where
  -- Equality of two texts in SQL
  abbrev pub text_eq : Bytes → Bytes → Bool
  text_eq a b = bytes_eq (collate a) (collate b)

  abbrev pub find_slug : Bytes → List ContentRow → Option ContentRow
  find_slug slug rows = find (λ r. text_eq r.slug slug) rows

  abbrev pub insert_content : Content → Action World Content
  insert_content c w =
      if is_missing (find_slug c.slug w.db.contents)
      then (
        ok c,
        record w {
          db = record w.db {
            contents = w.db.contents ++ row_of c ∷ [];
            next_content_id = w.db.next_content_id + 1;
          };
        },
      )
      else (err db_failure, w)

  -- CreateContent; the entry comes back with its times and its identifier
  unfoldable pub create_content : Content → Action World Content
  create_content c = do
    query
    w ← get_world
    insert_content
        (record c { id = w.db.next_content_id; created_at = w.clock; updated_at = w.clock })

  -- GetContentBySlug
  unfoldable pub get_content_by_slug : Bytes → Action World Content
  get_content_by_slug slug = do
    query
    w ← get_world
    lift (scan_found (find_slug slug w.db.contents))

  -- SlugExists
  unfoldable pub slug_exists : Bytes → Action World Bool
  slug_exists slug = do
    query
    w ← get_world
    return (not (is_missing (find_slug slug w.db.contents)))

  abbrev pub owned_rows : Bytes → List ContentRow → List ContentRow
  owned_rows owner rows = filter (λ r. text_eq r.owner owner) rows

  -- ListContentByOwner; the count and the page are two calls
  unfoldable pub list_content_by_owner : Bytes → ℕ → ℕ → Action World (List Content × ℕ)
  list_content_by_owner owner limit offset = do
    query
    w ← get_world
    query
    page ←
        lift (
          scan_contents (take limit (drop offset (order_by_time (owned_rows owner w.db.contents)))))
    return (page, length (owned_rows owner w.db.contents))

  abbrev pub join_file : Bytes → Option ContentRow → List FileRow → Result ContentFile
  join_file path none files = err no_rows
  join_file path (some c) files =
      elim (find (λ f. f.content_id == c.id && text_eq f.file_path path) files) [
        | none ↦ err no_rows
        | some f ↦ ok (file_of c f)
      ]

  -- GetContentFile; a slug is unique, so the join meets one entry
  unfoldable pub get_content_file : Bytes → Bytes → Action World ContentFile
  get_content_file slug path = do
    query
    w ← get_world
    lift (join_file path (find_slug slug w.db.contents) w.db.files)

-- UpdateContent; the entry comes back with its new time
unfoldable pub update_content : Content → Action World Content
update_content c = do
  query
  w ← get_world
  let stamped = record c { updated_at = w.clock }
  put_world (set_contents (map (set_metadata stamped) w.db.contents) w)
  return stamped

-- ApplyEncryption, one transaction
unfoldable pub apply_encryption : ℕ → Option Envelope → List (ℕ × Bytes) → Action World (Unit {0})
apply_encryption content_id env rewritten = do
  query
  w ← get_world
  put_world (
      set_files (rewrite_files content_id rewritten w.db.files)
        (set_contents (map (set_envelope content_id (enc_columns env) w.clock) w.db.contents) w))

abbrev pub other_files : ℕ → List FileRow → List FileRow
other_files content_id files = filter (λ f. not (f.content_id == content_id)) files

-- DeleteContent, with the files that ON DELETE CASCADE takes along
unfoldable pub delete_content : ℕ → Action World (Unit {0})
delete_content id = do
  query
  w ← get_world
  put_world (
      set_files (other_files id w.db.files)
        (set_contents (filter (λ r. not (r.id == id)) w.db.contents) w))

abbrev pub insert_file : ContentFile → Action World (Unit {0})
insert_file f w =
    if any (λ r. r.id == f.content_id) w.db.contents
    then (
      ok tt,
      record w {
        db = record w.db {
          files =
              w.db.files
              ++ record {
                id = w.db.next_file_id;
                content_id = f.content_id;
                file_path = f.file_path;
                file_data = f.file_data;
                content_type = f.content_type;
              }
                ∷ [];
          next_file_id = w.db.next_file_id + 1;
        };
      },
    )
    else (err db_failure, w)

-- CreateContentFile
unfoldable pub create_content_file : ContentFile → Action World (Unit {0})
create_content_file f = do query; insert_file f

-- DeleteContentFiles
unfoldable pub delete_content_files : ℕ → Action World (Unit {0})
delete_content_files content_id = do
  query
  w ← get_world
  put_world (set_files (other_files content_id w.db.files) w)

abbrev pub own_files : ℕ → List FileRow → List FileRow
own_files content_id files = filter (λ f. f.content_id == content_id) files

-- ListContentFiles
unfoldable pub list_content_files : ℕ → Action World (List ContentFile)
list_content_files content_id = do
  query
  w ← get_world
  return (map plain_file (own_files content_id w.db.files))

-- ListFilePaths
unfoldable pub list_file_paths : ℕ → Action World (List Bytes)
list_file_paths content_id = do
  query
  w ← get_world
  return (map (λ f. f.file_path) (own_files content_id w.db.files))
