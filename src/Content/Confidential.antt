-- ===== src/Content/Confidential.antt =====
-- GetFile for a visitor without a key: an encrypted entry shows nothing of its files.
use easy_host_k8s.Prelude.{
  ◌≡◌, ◌≢◌, inl, inr, ℕ, ◌+◌, true, false, some, Option-cases, Bytes, codes, contains,
  if◌then◌else◌, ok, err, invalid_file_path, passphrase_required, arith,
}
use easy_host_k8s.Model.{Content, ContentFile, is_encrypted, is_some}
use easy_host_k8s.World.{World, ContentRow, query}
use easy_host_k8s.Store.{scan_content}
use easy_host_k8s.Store.Queries.{
  find_slug, scan_found, get_content_file, get_content_by_slug, file_of,
}
use easy_host_k8s.Content.{Platform, no_dek, content_by_slug}
use easy_host_k8s.Content.Service.{get_file, not_found_or_locked, is_encrypted_at}

-- The entry at a slug can be read, and has an envelope.
pub record IsLocked (p : Platform) (slug : Bytes) (w : World) : Type 0 where
  pub entry : Content
  pub read : scan_found (find_slug p.collate slug w.db.contents) ≡ ok entry
  pub locked : is_encrypted entry ≡ true

-- A row that reads as an encrypted entry has a key derivation.
scan_content-encrypted :
    (row : ContentRow) (c : Content)
    → scan_content row ≡ ok c
    → is_encrypted c ≡ true
    → is_some row.enc_kdf ≡ true
unfolding scan_content
scan_content-encrypted row c e h = ground arith

module _ (p : Platform) (slug path : Bytes) (w : World) (locked : IsLocked p slug w) where
  row_of_locked :
      (row : ContentRow) × (find_slug p.collate slug w.db.contents ≡ some row)
      × (is_some row.enc_kdf ≡ true)
  row_of_locked = elim (Option-cases (find_slug p.collate slug w.db.contents)) [
    | inl e ↦ absurd (ground (arith, locked.read))
    | inr (row, e) ↦ (
      row,
      e,
      scan_content-encrypted row locked.entry (ground (arith, locked.read)) locked.locked,
    )
  ]

  pub get_file-locked :
      ((n : ℕ) → w.fails n ≡ false)
      → (get_file p slug path no_dek w).0
        ≡ (if contains path (codes "..") then err invalid_file_path else err passphrase_required)
  unfolding get_file get_content_file query not_found_or_locked is_encrypted_at content_by_slug
      get_content_by_slug file_of
  get_file-locked never =
      let (row, e, k) = row_of_locked in
      ground (arith, never w.calls, never (w.calls + 1), locked.read, locked.locked)

  -- Whatever calls of the database fail, a visitor without a key reads no file of a locked entry.
  pub get_file-locked_ne : (f : ContentFile) → (get_file p slug path no_dek w).0 ≢ ok f
  unfolding get_file get_content_file query not_found_or_locked is_encrypted_at content_by_slug
      get_content_by_slug file_of
  get_file-locked_ne f h =
      let (row, e, k) = row_of_locked in ground (arith, locked.read, locked.locked)

  -- What is read of a locked entry says that it was encrypted.
  pub get_file-locked_encrypted :
      (dek : Bytes) (f : ContentFile) → (get_file p slug path dek w).0 ≡ ok f → f.encrypted ≡ true
  unfolding get_file get_content_file query not_found_or_locked is_encrypted_at content_by_slug
      get_content_by_slug file_of
  get_file-locked_encrypted dek f h =
      let (row, e, k) = row_of_locked in ground (arith, locked.read, locked.locked)
