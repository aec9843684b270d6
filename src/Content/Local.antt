-- ===== src/Content/Local.antt =====
-- The operations of the service on one entry, seen from a property that the store's methods keep:
-- what every method keeps when it is called for that entry, the operations keep too.
use easy_host_k8s.Prelude.{
  ℕ, ◌≡◌, refl, Bool, not, ◌||◌, Option, none, some, List, [], ◌∷◌, Bytes, is_empty, Action, return,
  Triple, Keeps, Triple-bind, Triple-return, Triple-if, Triple-fail, Keeps-bind, Keeps-return,
  Keeps-fail, Keeps-lift,
}
use easy_host_k8s.Crypto.{Envelope, Entropy, encrypt_file}
use easy_host_k8s.Model.{Content, ContentFile, is_encrypted}
use easy_host_k8s.World.{World, with_entropy}
use easy_host_k8s.Store.Queries.{
  update_content, apply_encryption, delete_content, create_content_file, delete_content_files,
  list_content_files, list_file_paths,
}
use easy_host_k8s.Paths.{is_zip}
use easy_host_k8s.Content.{
  Platform, UpdateParams, ZipEntry, no_dek, create_file, read_body, is_skipped, extract_entries,
  extract_archive, extract_zip, store_files, unwrap_dek,
}
use easy_host_k8s.Content.Loops.{seal_files-Keeps, open_files-Keeps, reseal_files-Keeps}
use easy_host_k8s.Content.Service.{
  rewritten_files, encrypt, decrypt, rotate_passphrase, apply_encryption_change,
}

-- Every method of the store keeps `P` when it is called for entry `j`.
pub record IsLocal (P : World → Type 0) (j : ℕ) : Type 1 where
  pub entropy : {A : Type 0} (m : Action Entropy A) → Keeps P (with_entropy m)
  pub read_files : Keeps P (list_content_files j)
  pub read_paths : Keeps P (list_file_paths j)
  pub metadata : (c : Content) → c.id ≡ j → Keeps P (update_content c)
  pub encryption :
      (env : Option Envelope) (rewritten : List (ℕ × Bytes))
      → Keeps P (apply_encryption j env rewritten)
  pub removal : Keeps P (delete_content j)
  pub file_removal : Keeps P (delete_content_files j)
  pub new_file : (f : ContentFile) → f.content_id ≡ j → Keeps P (create_content_file f)

-- What storing an upload for an entry calls keeps `P`.
module _ (p : Platform) (P : World → Type 0) (c : Content)
    (entropy : (m : Action Entropy Bytes) → Keeps P (with_entropy m))
    (new_file : (f : ContentFile) → f.content_id ≡ c.id → Keeps P (create_content_file f)) where
  open p use {primitives, read_zip}

  pub create_file-Keeps :
      (path content_type payload dek : Bytes)
      → Keeps P (create_file p c path content_type payload dek)
  unfolding create_file
  create_file-Keeps path content_type payload dek =
      Keeps-bind _ _
        (Triple-if (is_empty dek) _ _ (λ _. Keeps-return payload)
          (λ _. entropy (encrypt_file primitives dek c.slug path payload)))
        (λ stored. new_file _ refl)

  extract_entries-Keeps :
      (dek : Bytes) (files : List ZipEntry) → Keeps P (extract_entries p c dek files)
  unfolding extract_entries
  extract_entries-Keeps dek [] = Keeps-return tt
  extract_entries-Keeps dek (f ∷ files) =
      Triple-if (is_skipped p f) _ _ (λ _. extract_entries-Keeps dek files)
        (λ _. Keeps-bind _ _ (Keeps-lift (read_body p f.body)) (λ body.
          Keeps-bind _ _ (create_file-Keeps _ _ body dek) (λ _. extract_entries-Keeps dek files)))

  extract_archive-Keeps :
      (dek : Bytes) (files : Option (List ZipEntry)) → Keeps P (extract_archive p c dek files)
  extract_archive-Keeps dek none = Keeps-fail _
  extract_archive-Keeps dek (some files) = extract_entries-Keeps dek files

  pub store_files-Keeps : (payload name dek : Bytes) → Keeps P (store_files p c payload name dek)
  unfolding store_files extract_zip
  store_files-Keeps payload name dek =
      Triple-if (is_zip name) _ _ (λ _. extract_archive-Keeps dek (read_zip payload))
        (λ _. create_file-Keeps _ _ payload dek)

module _ (p : Platform) (P : World → Type 0) (c : Content) (local : IsLocal P c.id) where
  open p use {primitives}

  rewritten_files-Keeps :
      (replaced : Bool) (rewrite : List ContentFile → Action World (List (ℕ × Bytes)))
      → ((files : List ContentFile) → Keeps P (rewrite files))
      → Keeps P (rewritten_files p c replaced rewrite)
  rewritten_files-Keeps replaced rewrite h =
      Triple-if replaced _ _ (λ _. Keeps-return [])
        (λ _. Keeps-bind _ _ local.read_files (λ files. h files))

  -- The entry that a transition hands on is the one that it was given.
  abbrev pub Changed : Content × Bytes → World → Type 0
  Changed r w = P w × (r.0.id ≡ c.id)

  encrypt-Keeps :
      (passphrase : Bytes) (replaced : Bool) → Triple P (encrypt p c passphrase replaced) Changed P
  unfolding encrypt
  encrypt-Keeps passphrase replaced =
      Triple-bind (λ a w. P w) _ _ (local.entropy _)
        (λ made.
          Triple-bind (λ a w. P w) _ _
            (rewritten_files-Keeps replaced _
              (seal_files-Keeps p P (λ m. local.entropy m) made.1 c.slug))
            (λ rewritten.
              Triple-bind (λ a w. P w) _ _ (local.encryption (some made.0) rewritten)
                (λ _. Triple-return _ (λ w h. (h, refl)))))

  decrypt-Keeps :
      (passphrase : Bytes) (replaced : Bool) → Triple P (decrypt p c passphrase replaced) Changed P
  unfolding decrypt
  decrypt-Keeps passphrase replaced =
      Triple-bind (λ a w. P w) _ _ (Keeps-lift (unwrap_dek p c passphrase))
        (λ dek.
          Triple-bind (λ a w. P w) _ _
            (rewritten_files-Keeps replaced _
              (open_files-Keeps p P (λ m. local.entropy m) dek c.slug))
            (λ rewritten.
              Triple-bind (λ a w. P w) _ _ (local.encryption none rewritten)
                (λ _. Triple-return _ (λ w h. (h, refl)))))

  rotate_passphrase-Keeps :
      (current next : Bytes) (replaced : Bool)
      → Triple P (rotate_passphrase p c current next replaced) Changed P
  unfolding rotate_passphrase
  rotate_passphrase-Keeps current next replaced =
      Triple-bind (λ a w. P w) _ _ (Keeps-lift (unwrap_dek p c current))
        (λ old_dek.
          Triple-bind (λ a w. P w) _ _ (local.entropy _)
            (λ made.
              Triple-bind (λ a w. P w) _ _
                (rewritten_files-Keeps replaced _
                  (reseal_files-Keeps p P (λ m. local.entropy m) old_dek made.1 c.slug))
                (λ rewritten.
                  Triple-bind (λ a w. P w) _ _ (local.encryption (some made.0) rewritten)
                    (λ _. Triple-return _ (λ w h. (h, refl))))))

  pub apply_encryption_change-Keeps :
      (u : UpdateParams) → Triple P (apply_encryption_change p c u) Changed P
  unfolding apply_encryption_change
  apply_encryption_change-Keeps u =
      let same : (dek : Bytes) → Triple P (return (c, dek)) Changed P =
        λ dek. Triple-return (c, dek) (λ w h. (h, refl)) in
      Triple-if (is_encrypted c) _ _
        (λ _.
          Triple-if u.remove_encryption _ _ (λ _. decrypt-Keeps u.passphrase _)
            (λ _.
              Triple-if (not (is_empty u.new_passphrase)) _ _
                (λ _. rotate_passphrase-Keeps u.passphrase u.new_passphrase _)
                (λ _.
                  Triple-if (not (is_empty u.file_data)) _ _
                    (λ _.
                      Triple-bind (λ a w. P w) _ _ (Keeps-lift (unwrap_dek p c u.passphrase)) same)
                    (λ _. same no_dek))))
        (λ _.
          Triple-if (u.remove_encryption || not (is_empty u.new_passphrase)) _ _
            (λ _. Triple-fail _ (λ w h. h))
            (λ _.
              Triple-if (not (is_empty u.passphrase)) _ _ (λ _. encrypt-Keeps u.passphrase _)
                (λ _. same no_dek)))
