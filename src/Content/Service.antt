-- ===== src/Content/Service.antt =====
-- The methods of ContentService that the handlers call, and the transitions of encryption.
use easy_host_k8s.Prelude.{
  ℕ, Bool, not, ◌||◌, Option, none, some, List, [], ◌∷◌, Bytes, codes, contains, is_empty,
  if◌then◌else◌, Result, ok, err, Action, return, fail, lift, ◌>>=◌, ◌>>◌, no_rows, not_found,
  not_encrypted, invalid_slug, invalid_file_path, passphrase_required, Error,
}
use easy_host_k8s.Crypto.{Envelope, new_envelope, encrypt_file, decrypt_file}
use easy_host_k8s.Model.{Content, ContentFile, ContentResponse, is_encrypted, to_response}
use easy_host_k8s.World.{World, with_entropy}
use easy_host_k8s.Store.Queries.{
  create_content, update_content, delete_content, delete_content_files, slug_exists,
  list_content_files, list_file_paths, list_content_by_owner, get_content_file, apply_encryption,
}
use easy_host_k8s.Paths.{slug_matches, trim_space}
use easy_host_k8s.Content.{
  Platform, CreateParams, UpdateParams, no_dek, or_nothing, content_by_slug, owned_content,
  store_files, unwrap_dek, unwrap_envelope,
}

abbrev trimmed_or : Bytes → Option Bytes → Bytes
trimmed_or old none = old
trimmed_or old (some new) = trim_space new

abbrev flag_or : Bool → Option Bool → Bool
flag_or old none = old
flag_or old (some new) = new

-- The metadata part of Update
unfoldable pub edit_metadata : Content → UpdateParams → Content
edit_metadata c u = record c {
  title = trimmed_or c.title u.title;
  source_url = trimmed_or c.source_url u.source_url;
  creator = trimmed_or c.creator u.creator;
  allow_external_resources = flag_or c.allow_external_resources u.allow_external_resources;
}

-- A blank title or creator falls back.
abbrev or_default : Bytes → Bytes → Bytes
or_default given fallback = if is_empty (trim_space given) then fallback else given

unfoldable pub draft : CreateParams → Option Envelope → Content
draft c env = record {
  id = 0;
  slug = c.slug;
  owner = c.owner;
  title = or_default c.title c.slug;
  source_url = trim_space c.source_url;
  creator = or_default c.creator c.owner;
  allow_external_resources = c.allow_external_resources;
  created_at = 0;
  updated_at = 0;
  encryption = env;
}

-- `if err := m(); err != nil { cleanup(); return err }`
abbrev pub clean_up : Result (Unit {0}) → Action World (Unit {0}) → Action World (Unit {0})
clean_up (ok u) cleanup w = (ok u, w)
clean_up (err e) cleanup w = (err e, (cleanup w).1)

abbrev pub or_clean_up : Action World (Unit {0}) → Action World (Unit {0}) → Action World (Unit {0})
or_clean_up m cleanup w = let (r, w') = m w in clean_up r cleanup w'

abbrev opened_file : ContentFile → Result Bytes → Result ContentFile
opened_file f (err e) = err e
opened_file f (ok plaintext) = ok (record f { file_data = plaintext })

module _ (p : Platform) where
  open p use {primitives, collate, read_zip}

  -- The loop of encrypt
  unfoldable pub seal_files : Bytes → Bytes → List ContentFile → Action World (List (ℕ × Bytes))
  seal_files dek slug [] = return []
  seal_files dek slug (f ∷ files) = do
    sealed ← with_entropy (encrypt_file primitives dek slug f.file_path f.file_data)
    rewritten ← seal_files dek slug files
    return ((f.id, sealed) ∷ rewritten)

  -- The loop of decrypt
  unfoldable pub open_files : Bytes → Bytes → List ContentFile → Action World (List (ℕ × Bytes))
  open_files dek slug [] = return []
  open_files dek slug (f ∷ files) = do
    plaintext ← lift (decrypt_file primitives dek slug f.file_path f.file_data)
    rewritten ← open_files dek slug files
    return ((f.id, plaintext) ∷ rewritten)

  -- The loop of rotatePassphrase
  unfoldable pub reseal_files :
      Bytes → Bytes → Bytes → List ContentFile → Action World (List (ℕ × Bytes))
  reseal_files old_dek new_dek slug [] = return []
  reseal_files old_dek new_dek slug (f ∷ files) = do
    plaintext ← lift (decrypt_file primitives old_dek slug f.file_path f.file_data)
    sealed ← with_entropy (encrypt_file primitives new_dek slug f.file_path plaintext)
    rewritten ← reseal_files old_dek new_dek slug files
    return ((f.id, sealed) ∷ rewritten)

  -- What the three transitions rewrite: nothing if the files are about to be replaced
  abbrev pub rewritten_files :
      Content
      → Bool
      → (List ContentFile → Action World (List (ℕ × Bytes)))
      → Action World (List (ℕ × Bytes))
  rewritten_files c files_replaced rewrite =
      if files_replaced then return [] else do files ← list_content_files c.id; rewrite files

  -- encrypt; the entry comes back with its envelope, beside the data key
  unfoldable pub encrypt : Content → Bytes → Bool → Action World (Content × Bytes)
  encrypt c passphrase files_replaced = do
    made ← with_entropy (new_envelope primitives passphrase c.slug)
    rewritten ← rewritten_files c files_replaced (seal_files made.1 c.slug)
    apply_encryption c.id (some made.0) rewritten
    return (record c { encryption = some made.0 }, made.1)

  unfoldable pub decrypt : Content → Bytes → Bool → Action World (Content × Bytes)
  decrypt c passphrase files_replaced = do
    dek ← lift (unwrap_dek p c passphrase)
    rewritten ← rewritten_files c files_replaced (open_files dek c.slug)
    apply_encryption c.id none rewritten
    return (record c { encryption = none }, no_dek)

  unfoldable pub rotate_passphrase : Content → Bytes → Bytes → Bool → Action World (Content × Bytes)
  rotate_passphrase c current next files_replaced = do
    old_dek ← lift (unwrap_dek p c current)
    made ← with_entropy (new_envelope primitives next c.slug)
    rewritten ← rewritten_files c files_replaced (reseal_files old_dek made.1 c.slug)
    apply_encryption c.id (some made.0) rewritten
    return (record c { encryption = some made.0 }, made.1)

  -- applyEncryptionChange
  unfoldable pub apply_encryption_change : Content → UpdateParams → Action World (Content × Bytes)
  apply_encryption_change c u =
      let files_replaced = not (is_empty u.file_data) in
      if is_encrypted c
      then if u.remove_encryption
        then decrypt c u.passphrase files_replaced
        else if not (is_empty u.new_passphrase)
        then rotate_passphrase c u.passphrase u.new_passphrase files_replaced
        else if files_replaced
        then (do dek ← lift (unwrap_dek p c u.passphrase); return (c, dek))
        else return (c, no_dek)
      else if u.remove_encryption || not (is_empty u.new_passphrase)
      then fail not_encrypted
      else if not (is_empty u.passphrase)
      then encrypt c u.passphrase files_replaced
      else return (c, no_dek)

  abbrev pub respond : Content → Action World ContentResponse
  respond c = do files ← or_nothing (list_file_paths c.id); return (to_response c files)

  -- Get
  unfoldable pub get : Bytes → Bytes → Action World ContentResponse
  get slug owner = do c ← owned_content p slug owner; respond c

  unfoldable pub respond_all : List Content → Action World (List ContentResponse)
  respond_all [] = return []
  respond_all (c ∷ cs) = do r ← respond c; rs ← respond_all cs; return (r ∷ rs)

  -- List
  unfoldable pub list : Bytes → ℕ → ℕ → Action World (List ContentResponse × ℕ)
  list owner limit offset = do
    page ← list_content_by_owner collate owner limit offset
    responses ← respond_all page.0
    return (responses, page.1)

  abbrev pub fresh_envelope : Bytes → Bytes → Action World (Option Envelope × Bytes)
  fresh_envelope passphrase slug = if is_empty passphrase then return (none, no_dek) else do
    made ← with_entropy (new_envelope primitives passphrase slug)
    return (some made.0, made.1)

  -- Create
  unfoldable pub create : CreateParams → Action World ContentResponse
  create c = if not (slug_matches c.slug) then fail invalid_slug else do
    exists ← slug_exists collate c.slug
    if exists then fail Error.slug_exists else do
      protection ← fresh_envelope c.passphrase c.slug
      created ← create_content collate (draft c protection.0)
      or_clean_up (store_files p created c.file_data c.file_name protection.1)
          (delete_content created.id)
      respond created

  -- An upload replaces the files of an entry.
  unfoldable pub replace_files : UpdateParams → Content → Bytes → Action World (Unit {0})
  replace_files u saved dek =
      if is_empty u.file_data
      then return tt
      else do delete_content_files saved.id; store_files p saved u.file_data u.file_name dek

  -- Update behind its check of the owner
  unfoldable pub update_entry : UpdateParams → Content → Action World ContentResponse
  update_entry u c = do
    change ← apply_encryption_change (edit_metadata c u) u
    saved ← update_content change.0
    replace_files u saved change.1
    respond saved

  -- Update
  unfoldable pub update : UpdateParams → Action World ContentResponse
  update u = do c ← owned_content p u.slug u.owner; update_entry u c

  -- Delete
  unfoldable pub delete : Bytes → Bytes → Action World (Unit {0})
  delete slug owner = do c ← owned_content p slug owner; delete_content c.id

  -- IsEncrypted
  unfoldable pub is_encrypted_at : Bytes → Action World Bool
  is_encrypted_at slug = do c ← content_by_slug p slug; return (is_encrypted c)

  -- Unlock
  unfoldable pub unlock : Bytes → Bytes → Action World Bytes
  unlock slug passphrase = do
    c ← content_by_slug p slug
    if not (is_encrypted c)
        then fail not_encrypted
        else if is_empty passphrase
        then fail passphrase_required
        else lift (unwrap_envelope p c.encryption passphrase slug)

  -- notFoundOrLocked
  unfoldable pub not_found_or_locked : Bytes → Bytes → Action World ContentFile
  not_found_or_locked slug dek = if not (is_empty dek) then fail not_found else do
    encrypted ← is_encrypted_at slug
    if encrypted then fail passphrase_required else fail not_found

  abbrev pub serve_payload : Bytes → Bytes → Bytes → ContentFile → Result ContentFile
  serve_payload slug path dek f =
      if not f.encrypted
      then ok f
      else if is_empty dek
      then err passphrase_required
      else opened_file f (decrypt_file primitives dek slug path f.file_data)

  abbrev pub serve_found : Bytes → Bytes → Bytes → Result ContentFile → Action World ContentFile
  serve_found slug path dek (ok f) = lift (serve_payload slug path dek f)
  serve_found slug path dek (err no_rows) = not_found_or_locked slug dek
  serve_found slug path dek (err e) = fail e

  -- GetFile
  unfoldable pub get_file : Bytes → Bytes → Bytes → Action World ContentFile
  get_file slug path dek = if contains path (codes "..") then fail invalid_file_path else λ w.
      let (r, w') = get_content_file collate slug path w in serve_found slug path dek r w'
