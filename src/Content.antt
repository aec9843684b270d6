-- ===== src/Content.antt =====
-- backend-go/internal/service/content.go: the operations on content entries. The packages that the
-- service calls are parameters (`Platform`): cryptography, the collation of the database, and
-- archive/zip.
pub mod Service
pub mod Local
pub mod Integrity
pub mod Isolation
pub mod Ownership
pub mod Entries
pub mod Extraction
pub mod Transitions
pub mod Rotation
pub mod Lookup
pub mod Loops
pub mod Atomic
pub mod Uploads
pub mod Confidential
pub mod Requests
pub mod Kept
pub mod Apart
use easy_host_k8s.Prelude.{
  ℕ, zero, suc, ◌+◌, ◌*◌, Bool, true, false, not, ◌&&◌, ◌||◌, Option, none, some, List, [], ◌∷◌,
  ◌++◌, map, Bytes, codes, bytes_eq, has_prefix, is_empty, if◌then◌else◌, Result, ok, err, Action,
  return, fail, lift, ◌>>=◌, ◌>>◌, no_rows, not_found, bad_archive, passphrase_required,
  nil_dereference, Error,
}
use easy_host_k8s.Crypto.{Primitives, Envelope, new_envelope, unwrap, encrypt_file, decrypt_file}
use easy_host_k8s.Model.{Content, ContentFile, is_encrypted}
use easy_host_k8s.World.{World, with_entropy}
use easy_host_k8s.Store.Queries.{
  get_content_by_slug, list_content_files, apply_encryption, create_content_file,
}
use easy_host_k8s.Paths.{is_zip, is_hidden, normalize_file_path, detect_content_type}

-- An entry of an archive: its name, whether it is a directory, and its bytes unless reading fails
pub record ZipEntry : Type 0 where
  pub name : Bytes
  pub is_dir : Bool
  pub body : Option Bytes

pub record Platform : Type 0 where
  pub primitives : Primitives
  pub collate : Bytes → Bytes
  -- zip.NewReader
  pub read_zip : Bytes → Option (List ZipEntry)

pub record CreateParams : Type 0 where
  pub slug : Bytes
  pub owner : Bytes
  pub title : Bytes
  pub source_url : Bytes
  pub creator : Bytes
  pub allow_external_resources : Bool
  pub file_data : Bytes
  pub file_name : Bytes
  pub passphrase : Bytes

pub record UpdateParams : Type 0 where
  pub slug : Bytes
  pub owner : Bytes
  pub title : Option Bytes
  pub source_url : Option Bytes
  pub creator : Option Bytes
  pub allow_external_resources : Option Bool
  pub file_data : Bytes
  pub file_name : Bytes
  pub passphrase : Bytes
  pub new_passphrase : Bytes
  pub remove_encryption : Bool

-- A `nil` data key is an empty one.
abbrev pub no_dek : Bytes
no_dek = []

abbrev pub listed : Result (List Bytes) → List Bytes
listed (ok paths) = paths
listed (err _) = []

-- A failing listing counts as an empty one.
abbrev pub or_nothing : Action World (List Bytes) → Action World (List Bytes)
or_nothing m w = let (r, w') = m w in (ok (listed r), w')

module _ (p : Platform) where
  open p use {primitives, collate, read_zip}

  -- createFile
  unfoldable pub create_file : Content → Bytes → Bytes → Bytes → Bytes → Action World (Unit {0})
  create_file c path content_type payload dek = do
    stored ←
        (if is_empty dek
          then return payload
          else with_entropy (encrypt_file primitives dek c.slug path payload))
    create_content_file (record {
      id = 0;
      content_id = c.id;
      file_path = path;
      file_data = stored;
      content_type = content_type;
      allow_external_resources = false;
      encrypted = false;
    })

  abbrev pub read_body : Option Bytes → Result Bytes
  read_body none = err bad_archive
  read_body (some body) = ok body

  -- Whether extractZip passes an entry over
  unfoldable pub is_skipped : ZipEntry → Bool
  is_skipped f =
      f.is_dir
      || (has_prefix f.name (codes "__MACOSX") || is_hidden f.name)
      || is_empty (normalize_file_path f.name)

  -- The loop of extractZip
  unfoldable pub extract_entries : Content → Bytes → List ZipEntry → Action World (Unit {0})
  extract_entries c dek [] = return tt
  extract_entries c dek (f ∷ files) =
      let rest = extract_entries c dek files in
      if is_skipped f then rest else do
        body ← lift (read_body f.body)
        create_file c (normalize_file_path f.name)
            (detect_content_type (normalize_file_path f.name)) body dek
        rest

  abbrev pub extract_archive : Content → Bytes → Option (List ZipEntry) → Action World (Unit {0})
  extract_archive c dek none = fail bad_archive
  extract_archive c dek (some files) = extract_entries c dek files

  -- extractZip
  unfoldable pub extract_zip : Content → Bytes → Bytes → Action World (Unit {0})
  extract_zip c payload dek = extract_archive c dek (read_zip payload)

  -- storeFiles
  unfoldable pub store_files : Content → Bytes → Bytes → Bytes → Action World (Unit {0})
  store_files c payload file_name dek =
      if is_zip file_name
      then extract_zip c payload dek
      else create_file c (codes "index.html") (codes "text/html") payload dek

  abbrev pub hide_missing : Result Content → Result Content
  hide_missing (err no_rows) = err not_found
  hide_missing (err e) = err e
  hide_missing (ok c) = ok c

  -- contentBySlug
  unfoldable pub content_by_slug : Bytes → Action World Content
  content_by_slug slug w = let (r, w') = get_content_by_slug collate slug w in (hide_missing r, w')

  -- ownedContent
  unfoldable pub owned_content : Bytes → Bytes → Action World Content
  owned_content slug owner = do
    c ← content_by_slug slug
    if bytes_eq c.owner owner then return c else fail not_found

  abbrev pub unwrap_envelope : Option Envelope → Bytes → Bytes → Result Bytes
  unwrap_envelope none passphrase slug = err nil_dereference
  unwrap_envelope (some env) passphrase slug = unwrap primitives env passphrase slug

  -- unwrap; without an envelope the source would stop with a nil dereference
  unfoldable pub unwrap_dek : Content → Bytes → Result Bytes
  unwrap_dek c passphrase =
      if is_empty passphrase
      then err passphrase_required
      else unwrap_envelope c.encryption passphrase c.slug
