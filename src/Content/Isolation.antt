-- ===== src/Content/Isolation.antt =====
-- Owners are kept apart: what one owner asks for leaves every entry of another as it is.
use easy_host_k8s.Prelude.{
  ℕ, ◌≡◌, refl, ◌≢◌, some, List, [], ◌∷◌, Bytes, ok, Action, ◌>>=◌, Triple, Keeps, Keeps-state,
  Keeps-with, Keeps-both, Triple-fact, Triple-bind, Triple-consequence, Triple-state, arith,
  Option-cases, inl, inr, sym, ◌∙◌,
}
use easy_host_k8s.Model.{Content}
use easy_host_k8s.World.{World, Database, ContentRow, FileRow, query, with_entropy}
use easy_host_k8s.Store.{scan_content}
use easy_host_k8s.Store.Queries.{
  find_slug, own_files, create_content, slug_exists, list_content_files, list_file_paths,
  delete_content,
}
use easy_host_k8s.Store.Reads.{
  Keeps-of_Stands, Stands-with_entropy, Stands-slug_exists, Stands-list_content_files,
  Stands-list_file_paths,
}
use easy_host_k8s.Store.Untouched
use easy_host_k8s.Store.Untouched.{find_id, HasEntry, Holds}
use easy_host_k8s.Store.Consistent.{IsConsistent, Distinct, find_id-of_below}
use easy_host_k8s.Content.{Platform, CreateParams, UpdateParams, owned_content}
use easy_host_k8s.Content.Service.{create, update, delete, update_entry}
use easy_host_k8s.Store.Invariant
use easy_host_k8s.Store.Invariant.{Consistent}
use easy_host_k8s.Content.Integrity.{IsLocal-both, Consistent-IsLocal}
use easy_host_k8s.Content.Local.{IsLocal}
use easy_host_k8s.Content.Entries.{update_entry-Keeps, create-Keeps}
use easy_host_k8s.Content.Ownership.{Stands-owned_content, owned_content-eq-ok}

module _ (i : ℕ) (x : ContentRow) (files : List FileRow) where
  -- What is done to another entry keeps entry `i`.
  pub Holds-IsLocal : (j : ℕ) → j ≢ i → IsLocal (Holds i x files) j
  Holds-IsLocal j ne = record {
    entropy =
        λ m. Keeps-of_Stands (HasEntry i x files) (with_entropy m) (λ d. Stands-with_entropy m);
    read_files =
        Keeps-of_Stands (HasEntry i x files) (list_content_files j)
          (λ d. Stands-list_content_files j);
    read_paths =
        Keeps-of_Stands (HasEntry i x files) (list_file_paths j) (λ d. Stands-list_file_paths j);
    metadata = λ c e. Untouched.Holds-update_content c (λ same. ne (sym e ∙ same));
    encryption = λ env rewritten. Untouched.Holds-apply_encryption j env rewritten ne;
    removal = Untouched.Holds-delete_content j ne;
    file_removal = Untouched.Holds-delete_content_files j ne;
    new_file = λ f e. Untouched.Holds-create_content_file f (λ same. ne (sym e ∙ same));
  }

module _ (collate : Bytes → Bytes) where
  -- In consistent tables the row behind a slug is the row of its identifier.
  find_id-find_slug :
      (slug : Bytes) (rows : List ContentRow) (s : ContentRow)
      → Distinct collate rows
      → find_slug collate slug rows ≡ some s
      → find_id s.id rows ≡ some s
  find_id-find_slug slug [] s h e = cc
  find_id-find_slug slug (r ∷ rows) s (a, b, h) e = ground (arith, find_id-find_slug slug rows s h)

scan_content-keys :
    (s : ContentRow) (c : Content) → scan_content s ≡ ok c → (c.id ≡ s.id) × (c.owner ≡ s.owner)
unfolding scan_content
scan_content-keys s c h = ground arith

id-create_content :
    (collate : Bytes → Bytes) (d : Content) (w w' : World) (created : Content)
    → create_content collate d w ≡ (ok created, w')
    → created.id ≡ w.db.next_content_id
unfolding create_content query
id-create_content collate d w w' created h = ground arith

module _ (p : Platform) (i : ℕ) (x : ContentRow) where
  -- Whoever does not own entry `i` is handed another entry.
  owned_content-ne :
      (w : World) (slug owner : Bytes) (w' : World) (c : Content)
      → IsConsistent p.collate w.db
      → find_id i w.db.contents ≡ some x
      → x.owner ≢ owner
      → owned_content p slug owner w ≡ (ok c, w')
      → c.id ≢ i
  owned_content-ne w slug owner w' c consistent there ne h =
      let (scanned, owned, _) = owned_content-eq-ok p slug owner w w' c h in
      elim (Option-cases (find_slug p.collate slug w.db.contents)) [
        | inl missing ↦ λ same. absurd (cc (rw missing at scanned))
        | inr (s, found) ↦ λ same.
            let keys = scan_content-keys s c (rw found at scanned) in
            let at_id =
              find_id-find_slug p.collate slug w.db.contents s consistent.distinct found in
            ne (ground (arith, keys, at_id))
      ]

  module _ (files : List FileRow) where
    abbrev pub Intact : Database → Type 0
    Intact d = HasEntry i x files d × IsConsistent p.collate d

    -- What runs on an entry of one owner keeps the entries of the others.
    owned-Holds :
        {A : Type 0} (slug owner : Bytes) (body : Content → Action World A)
        → x.owner ≢ owner
        → ((c : Content) → c.id ≢ i → Keeps (Holds i x files) (body c))
        → Triple
            (λ w. Intact w.db)
            (owned_content p slug owner >>= body)
            (λ a w. HasEntry i x files w.db)
            (Holds i x files)
    owned-Holds slug owner body ne keeps =
        Triple-bind _ _ _
          (Triple-consequence _ (λ w h. h) (λ c w h. (h.0.0, h.1)) (λ w h. h.0)
            (Keeps-with (λ c. c.id ≢ i) _
              (Keeps-of_Stands Intact (owned_content p slug owner)
                (λ d. Stands-owned_content p slug owner))
              (λ w w' c h e. owned_content-ne w slug owner w' c h.1 h.0.row ne e)))
          (λ c. Triple-fact (c.id ≢ i) _ (λ other. keeps c other))

module _ (p : Platform) (w : World) (i : ℕ) (x : ContentRow)
    (consistent : IsConsistent p.collate w.db) (there : find_id i w.db.contents ≡ some x) where
  -- In consistent tables, an update asked for by one owner leaves every entry of another owner and all
  -- its files as they are, whatever the request, and whether the update succeeds or fails.
  pub update_isolation :
      (u : UpdateParams)
      → x.owner ≢ u.owner
      → HasEntry i x (own_files i w.db.files) (update p u w).1.db
  unfolding update
  update_isolation u ne =
      Triple-state _ _
        (owned-Holds p i x (own_files i w.db.files) u.slug u.owner (update_entry p u) ne
          (λ c other. update_entry-Keeps p _ u c (Holds-IsLocal i x _ c.id other)))
        w (record { row = there; own = refl }, consistent)

  -- In consistent tables, a deletion asked for by one owner leaves every entry of another owner and all
  -- its files as they are, whatever the slug, and whether the deletion succeeds or fails.
  pub delete_isolation :
      (slug owner : Bytes)
      → x.owner ≢ owner
      → HasEntry i x (own_files i w.db.files) (delete p slug owner w).1.db
  unfolding delete
  delete_isolation slug owner ne =
      Triple-state _ _
        (owned-Holds p i x (own_files i w.db.files) slug owner (λ c. delete_content c.id) ne
          (λ c other. Untouched.Holds-delete_content c.id other))
        w (record { row = there; own = refl }, consistent)

  -- In consistent tables, creating an entry leaves every entry that is there, and all its files, as they are, whether the
  -- creation succeeds or fails: the clean-up of a failed upload deletes only the new entry.
  pub create_isolation :
      (c : CreateParams) → HasEntry i x (own_files i w.db.files) (create p c w).1.db
  create_isolation c =
      let fs = own_files i w.db.files in
      let P = λ (v : World). Holds i x fs v × Consistent p.collate v in
      let kept : Keeps P (create p c) =
        create-Keeps p P (λ id. id ≢ i) c
          (λ id ne.
            IsLocal-both _ _ id (Holds-IsLocal i x fs id ne) (Consistent-IsLocal p.collate id))
          (λ m. Keeps-of_Stands (Intact p i x fs) (with_entropy m) (λ d. Stands-with_entropy m))
          (Keeps-of_Stands (Intact p i x fs) (slug_exists p.collate c.slug)
            (λ d. Stands-slug_exists p.collate c.slug))
          (λ d.
            Keeps-both _ (Untouched.Holds-create_content p.collate d)
              (Invariant.Consistent-create_content p.collate d))
          (λ d v v' created h e. λ same. cc (
            sym (id-create_content p.collate d v v' created e) ∙ same,
            h.0.row,
            find_id-of_below p.collate v.db.next_content_id v.db.contents h.1.below,
          )) in
      (Keeps-state P (create p c) kept w (record { row = there; own = refl }, consistent)).0
