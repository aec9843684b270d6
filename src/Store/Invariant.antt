-- ===== src/Store/Invariant.antt =====
-- Every method of the store that writes keeps the tables consistent, whether it fails or not.
use easy_host_k8s.Prelude.{
  ℕ, ◌+◌, ◌<◌, ◌≡◌, refl, true, not, Option, none, List, [], ◌∷◌, ◌++◌, map, Bytes, any, ◌==◌,
  arith, Keeps, Keeps-of_state, All, All-append, Bool-cases, Option-cases, inl, inr,
}
use easy_host_k8s.Crypto.{Envelope}
use easy_host_k8s.Model.{Content, ContentFile}
use easy_host_k8s.World.{World, Database, ContentRow, FileRow, query}
use easy_host_k8s.Store.{set_metadata, set_envelope, rewrite_files, enc_columns, row_of}
use easy_host_k8s.Store.Queries.{
  find_slug, create_content, update_content, apply_encryption, delete_content, create_content_file,
  delete_content_files,
}
use easy_host_k8s.Store.Consistent.{
  IsConsistent, has_entry, Distinct-map, below-map, owned-map, set_metadata-KeepsKeys,
  set_envelope-KeepsKeys, find_id-of_below, Distinct-append, KeepsKeys,
}
use easy_host_k8s.Store.Rows.{Distinct-filter, All-filter, owned-other_files, All-rewrite_files}

module _ (collate : Bytes → Bytes) where
  abbrev pub Consistent : World → Type 0
  Consistent w = IsConsistent collate w.db

  Consistent-map :
      (g : ContentRow → ContentRow) (d : Database)
      → KeepsKeys collate g
      → IsConsistent collate d
      → IsConsistent collate (record d { contents = map g d.contents })
  Consistent-map g d k h = record {
    distinct = Distinct-map collate g k d.contents h.distinct;
    below = below-map collate g k d.next_content_id d.contents h.below;
    owned = owned-map collate g k d.contents d.files h.owned;
    files_below = h.files_below;
  }

  Consistent-rewrite_files :
      (j : ℕ) (rewritten : List (ℕ × Bytes)) (d : Database)
      → IsConsistent collate d
      → IsConsistent collate (record d { files = rewrite_files j rewritten d.files })
  Consistent-rewrite_files j rewritten d h = record {
    distinct = h.distinct;
    below = h.below;
    owned =
        All-rewrite_files (λ f. has_entry collate d.contents f.content_id ≡ true) (λ f b x. x) j
          rewritten d.files h.owned;
    files_below =
        All-rewrite_files (λ f. f.id < d.next_file_id) (λ f b x. x) j rewritten d.files
          h.files_below;
  }

  pub Consistent-update_content : (c : Content) → Keeps Consistent (update_content c)
  unfolding update_content query
  Consistent-update_content c = Keeps-of_state Consistent (update_content c) λ w h.
      elim (Bool-cases (w.fails w.calls)) [
        | inl e ↦ rw e h
        | inr e ↦ rw e (
            Consistent-map (set_metadata (record c { updated_at = w.clock })) w.db
              (set_metadata-KeepsKeys collate _) h)
      ]

  pub Consistent-apply_encryption :
      (j : ℕ) (env : Option Envelope) (rewritten : List (ℕ × Bytes))
      → Keeps Consistent (apply_encryption j env rewritten)
  unfolding apply_encryption query
  Consistent-apply_encryption j env rewritten =
      Keeps-of_state Consistent (apply_encryption j env rewritten) λ w h.
        elim (Bool-cases (w.fails w.calls)) [
          | inl e ↦ rw e h
          | inr e ↦ rw e (
              Consistent-rewrite_files j rewritten _ (
                Consistent-map (set_envelope j (enc_columns env) w.clock) w.db
                  (set_envelope-KeepsKeys collate j _ _) h))
        ]

  pub Consistent-delete_content : (j : ℕ) → Keeps Consistent (delete_content j)
  unfolding delete_content query
  Consistent-delete_content j = Keeps-of_state Consistent (delete_content j) λ w h.
      elim (Bool-cases (w.fails w.calls)) [
        | inl e ↦ rw e h
        | inr e ↦ rw e (record {
          distinct = Distinct-filter collate (λ r. not (r.id == j)) w.db.contents h.distinct;
          below =
              All-filter (λ r. r.id < w.db.next_content_id) (λ r. not (r.id == j)) w.db.contents
                h.below;
          owned = owned-other_files j w.db.contents w.db.files h.owned;
          files_below =
              All-filter (λ f. f.id < w.db.next_file_id) (λ f. not (f.content_id == j)) w.db.files
                h.files_below;
        })
      ]

  pub Consistent-delete_content_files : (j : ℕ) → Keeps Consistent (delete_content_files j)
  unfolding delete_content_files query
  Consistent-delete_content_files j = Keeps-of_state Consistent (delete_content_files j) λ w h.
      elim (Bool-cases (w.fails w.calls)) [
        | inl e ↦ rw e h
        | inr e ↦ rw e (record {
          distinct = h.distinct;
          below = h.below;
          owned =
              All-filter (λ f. has_entry collate w.db.contents f.content_id ≡ true)
                (λ f. not (f.content_id == j)) w.db.files h.owned;
          files_below =
              All-filter (λ f. f.id < w.db.next_file_id) (λ f. not (f.content_id == j)) w.db.files
                h.files_below;
        })
      ]

  All-raise {ℓ} :
      {A : Type ℓ} (key : A → ℕ) (n : ℕ) (xs : List A)
      → All (λ x. key x < n) xs
      → All (λ x. key x < n + 1) xs
  All-raise key n [] h = tt
  All-raise key n (x ∷ xs) (a, h) = (omega arith, All-raise key n xs h)

  has_entry-append :
      (s : ContentRow) (rows : List ContentRow) (id : ℕ)
      → has_entry collate rows id ≡ true
      → has_entry collate (rows ++ s ∷ []) id ≡ true
  has_entry-append s [] id h = cc
  has_entry-append s (r ∷ rows) id h = ground (arith, has_entry-append s rows id)

  owned-append :
      (s : ContentRow) (rows : List ContentRow) (files : List FileRow)
      → All (λ f. has_entry collate rows f.content_id ≡ true) files
      → All (λ f. has_entry collate (rows ++ s ∷ []) f.content_id ≡ true) files
  owned-append s rows [] h = tt
  owned-append s rows (f ∷ files) (a, h) =
      (has_entry-append s rows f.content_id a, owned-append s rows files h)

  Consistent-insert :
      (d : Database) (s : ContentRow)
      → IsConsistent collate d
      → s.id ≡ d.next_content_id
      → find_slug collate s.slug d.contents ≡ none
      → IsConsistent collate
          (record d { contents = d.contents ++ s ∷ []; next_content_id = d.next_content_id + 1 })
  Consistent-insert d s h e free = record {
    distinct =
        Distinct-append collate d.contents s h.distinct
          (rw e (find_id-of_below collate d.next_content_id d.contents h.below)) free;
    below =
        All-append (λ r. r.id < d.next_content_id + 1) d.contents (s ∷ [])
          (All-raise (λ (r : ContentRow). r.id) d.next_content_id d.contents h.below)
          (omega arith, tt);
    owned = owned-append s d.contents d.files h.owned;
    files_below = h.files_below;
  }

  pub Consistent-create_content : (c : Content) → Keeps Consistent (create_content collate c)
  unfolding create_content query row_of
  Consistent-create_content c = Keeps-of_state Consistent (create_content collate c) λ w h.
      elim (Bool-cases (w.fails w.calls)) [
        | inl e ↦ rw e h
        | inr e ↦ elim (Option-cases (find_slug collate c.slug w.db.contents)) [
          | inl free ↦ rw (e, free) (Consistent-insert w.db _ h refl free)
          | inr (r, taken) ↦ rw (e, taken) h
        ]
      ]

  pub Consistent-create_content_file : (f : ContentFile) → Keeps Consistent (create_content_file f)
  unfolding create_content_file query
  Consistent-create_content_file f = Keeps-of_state Consistent (create_content_file f) λ w h.
      elim (Bool-cases (w.fails w.calls)) [
        | inl e ↦ rw e h
        | inr e ↦ elim (Bool-cases (any (λ (r : ContentRow). r.id == f.content_id) w.db.contents)) [
          | inl there ↦
              rw (e, there)
                (record {
                  distinct = h.distinct;
                  below = h.below;
                  owned =
                      All-append (λ g. has_entry collate w.db.contents g.content_id ≡ true)
                        w.db.files _ h.owned (there, tt);
                  files_below =
                      All-append (λ g. g.id < w.db.next_file_id + 1) w.db.files _
                        (All-raise (λ (g : FileRow). g.id) w.db.next_file_id w.db.files
                          h.files_below)
                        (omega arith, tt);
                })
          | inr missing ↦ rw (e, missing) h
        ]
      ]
