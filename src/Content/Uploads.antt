-- ===== src/Content/Uploads.antt =====
-- Update with an upload: the files of an entry when the archive cannot be read.
use easy_host_k8s.Prelude.{
  ℕ, ◌+◌, ◌≡◌, refl, true, false, none, List, [], ◌∷◌, map, is_empty, ok, err, bad_archive, arith,
}
use easy_host_k8s.Model.{Content, is_encrypted}
use easy_host_k8s.World.{World, FileRow, query}
use easy_host_k8s.Store.Queries.{own_files, other_files, update_content, delete_content_files}
use easy_host_k8s.Store.{set_contents, set_files, set_metadata}
use easy_host_k8s.Paths.{is_zip}
use easy_host_k8s.Content.{Platform, UpdateParams, no_dek, owned_content, store_files, extract_zip}
use easy_host_k8s.Content.Service.{
  update, update_entry, edit_metadata, apply_encryption_change, replace_files,
}

own_files-other_files : (id : ℕ) (files : List FileRow) → own_files id (other_files id files) ≡ []
own_files-other_files id [] = refl
own_files-other_files id (f ∷ files) = ground (arith, own_files-other_files id files)

-- A request that changes no encryption and carries a file that is named like an archive and is none
pub record IsBadUpload (p : Platform) (u : UpdateParams) : Type 0 where
  pub no_passphrase : is_empty u.passphrase ≡ true
  pub no_new_passphrase : is_empty u.new_passphrase ≡ true
  pub no_removal : u.remove_encryption ≡ false
  pub uploaded : is_empty u.file_data ≡ false
  pub named : is_zip u.file_name ≡ true
  pub unreadable : p.read_zip u.file_data ≡ none

module _ (p : Platform) (u : UpdateParams) (w w1 : World) (c : Content) where
  unchanged :
      IsBadUpload p u
      → is_encrypted c ≡ false
      → apply_encryption_change p (edit_metadata c u) u w1 ≡ (ok (edit_metadata c u, no_dek), w1)
  unfolding apply_encryption_change edit_metadata
  unchanged bad plain = ground (arith, bad.no_passphrase, bad.no_new_passphrase, bad.no_removal)

  replaced :
      IsBadUpload p u
      → (saved : Content) (v : World) → v.fails v.calls ≡ false
      → replace_files p u saved no_dek v ≡ (
        err bad_archive,
        set_files (other_files saved.id v.db.files) (record v { calls = v.calls + 1 }),
      )
  unfolding replace_files delete_content_files query store_files extract_zip
  replaced bad saved v works = rw (bad.uploaded, works, bad.named, bad.unreadable) refl

  saved_as :
      w1.fails w1.calls ≡ false
      → update_content (edit_metadata c u) w1 ≡ (
        ok (record (edit_metadata c u) { updated_at = w1.clock }),
        set_contents
            (map
              (set_metadata (record (edit_metadata c u) { updated_at = w1.clock }))
              w1.db.contents)
            (record w1 { calls = w1.calls + 1 }),
      )
  unfolding update_content query
  saved_as works = rw works refl

  -- An update of an unencrypted entry, by its owner, that sends neither a passphrase nor a new one, does
  -- not ask for the encryption to be lifted, and uploads a file that is named like an archive and is
  -- none, fails while no call of the database does, and leaves the entry without files.
  pub update-bad_archive :
      IsBadUpload p u
      → owned_content p u.slug u.owner w ≡ (ok c, w1)
      → is_encrypted c ≡ false
      → ((n : ℕ) → w1.fails n ≡ false)
      → ((update p u w).0 ≡ err bad_archive) × (own_files c.id (update p u w).1.db.files ≡ [])
  unfolding update update_entry edit_metadata
  update-bad_archive bad owned plain never =
      let saved = record (edit_metadata c u) { updated_at = w1.clock } in
      let v =
        set_contents (map (set_metadata saved) w1.db.contents)
          (record w1 { calls = w1.calls + 1 }) in
      rw
        (
          owned,
          unchanged bad plain,
          saved_as (never w1.calls),
          replaced bad saved v (never (w1.calls + 1)),
        )
        (refl, own_files-other_files c.id w1.db.files)
