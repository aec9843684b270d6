-- ===== src/Content/Entries.antt =====
-- Update and Create behind their checks, seen from a property that the store's methods keep.
use easy_host_k8s.Prelude.{
  ℕ, ◌≡◌, not, none, some, List, Bytes, is_empty, Result, ok, err, Action, Keeps, Triple-bind,
  Triple-if, Keeps-bind, Keeps-return, Keeps-fail, ◌∙◌, Keeps-with, Triple-fact, Keeps-of_state,
  Keeps-state, subst, sym, arith,
}
use easy_host_k8s.Model.{Content, to_response}
use easy_host_k8s.World.{World, with_entropy, query}
use easy_host_k8s.Store.Queries.{create_content, slug_exists, update_content, list_file_paths}
use easy_host_k8s.Crypto.{Entropy, Envelope, new_envelope}
use easy_host_k8s.Paths.{slug_matches}
use easy_host_k8s.Content.{Platform, UpdateParams, CreateParams, no_dek, or_nothing}
use easy_host_k8s.Content.Service.{
  edit_metadata, replace_files, respond, update_entry, create, draft, or_clean_up, clean_up,
}
use easy_host_k8s.Content.Local.{IsLocal, apply_encryption_change-Keeps, store_files-Keeps}

id-update_content :
    (c : Content) (w w' : World) (saved : Content)
    → update_content c w ≡ (ok saved, w')
    → saved.id ≡ c.id
unfolding update_content query
id-update_content c w w' saved h = ground arith

pub or_nothing-Keeps :
    {P : World → Type 0} (m : Action World (List Bytes)) → Keeps P m → Keeps P (or_nothing m)
or_nothing-Keeps {P} m k = Keeps-of_state P (or_nothing m) (λ w h. Keeps-state P m k w h)

module _ (p : Platform) (P : World → Type 0) where
  respond-Keeps : (c : Content) → IsLocal P c.id → Keeps P (respond p c)
  respond-Keeps c local =
      Keeps-bind _ _ (or_nothing-Keeps (list_file_paths c.id) local.read_paths)
        (λ files. Keeps-return (to_response c files))

  replace_files-Keeps :
      (u : UpdateParams) (c : Content) (dek : Bytes)
      → IsLocal P c.id
      → Keeps P (replace_files p u c dek)
  unfolding replace_files
  replace_files-Keeps u c dek local =
      Triple-if (is_empty u.file_data) _ _ (λ _. Keeps-return tt)
        (λ _. Keeps-bind _ _ local.file_removal (λ _.
          store_files-Keeps p P c (λ m. local.entropy m) local.new_file u.file_data u.file_name
            dek))

  pub update_entry-Keeps :
      (u : UpdateParams) (c : Content) → IsLocal P c.id → Keeps P (update_entry p u c)
  unfolding update_entry edit_metadata
  update_entry-Keeps u c local =
      Triple-bind _ _ _ (apply_encryption_change-Keeps p P (edit_metadata c u) local u) (λ change.
        Triple-fact _ _ (λ same.
          Triple-bind _ _ _
            (Keeps-with (λ saved. saved.id ≡ change.0.id) _ (local.metadata change.0 same)
              (λ w w' saved _ h. id-update_content change.0 w w' saved h))
            (λ saved. Triple-fact _ _ (λ kept.
              let at : IsLocal P saved.id = subst (IsLocal P) (sym (kept ∙ same)) local in
              Keeps-bind _ _ (replace_files-Keeps u saved change.1 at)
                (λ _. respond-Keeps saved at)))))

  clean_up-Keeps :
      (r : Result (Unit {0})) (k : Action World (Unit {0})) (w : World)
      → Keeps P k
      → P w
      → P (clean_up r k w).1
  clean_up-Keeps (ok u) k w hk h = h
  clean_up-Keeps (err e) k w hk h = Keeps-state P k hk w h

  or_clean_up-Keeps :
      (m k : Action World (Unit {0})) → Keeps P m → Keeps P k → Keeps P (or_clean_up m k)
  or_clean_up-Keeps m k hm hk =
      Keeps-of_state P (or_clean_up m k)
        (λ w h. clean_up-Keeps (m w).0 k (m w).1 hk (Keeps-state P m hm w h))

  -- Create keeps what its checks and the insertion keep, and what the methods of the store keep for
  -- every entry that the insertion can make.
  pub create-Keeps :
      (Fresh : ℕ → Type 0) (c : CreateParams)
      → ((id : ℕ) → Fresh id → IsLocal P id)
      → ((m : Action Entropy (Envelope × Bytes)) → Keeps P (with_entropy m))
      → Keeps P (slug_exists p.collate c.slug)
      → ((d : Content) → Keeps P (create_content p.collate d))
      → ((d : Content) (w w' : World) (created : Content)
          → P w
          → create_content p.collate d w ≡ (ok created, w')
          → Fresh created.id)
      → Keeps P (create p c)
  unfolding create
  create-Keeps Fresh c local entropy exists insert fresh =
      Triple-if (not (slug_matches c.slug)) _ _ (λ _. Keeps-fail _)
        (λ _. Keeps-bind _ _ exists (λ taken.
          Triple-if taken _ _ (λ _. Keeps-fail _)
            (λ _.
              Keeps-bind _ _
                (Triple-if (is_empty c.passphrase) _ _ (λ _. Keeps-return (none, no_dek))
                  (λ _.
                    Keeps-bind _ _ (entropy (new_envelope p.primitives c.passphrase c.slug))
                      (λ made. Keeps-return (some made.0, made.1))))
                (λ protection.
                  Triple-bind _ _ _
                    (Keeps-with (λ created. Fresh created.id) _ (insert (draft c protection.0))
                      (λ w w' created h e. fresh (draft c protection.0) w w' created h e))
                    (λ created. Triple-fact _ _ (λ is_fresh.
                      let at : IsLocal P created.id = local created.id is_fresh in
                      Keeps-bind _ _
                        (or_clean_up-Keeps _ _
                          (store_files-Keeps p P created (λ m. at.entropy m) at.new_file c.file_data
                            c.file_name protection.1)
                          at.removal)
                        (λ _. respond-Keeps created at)))))))
