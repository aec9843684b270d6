-- ===== src/Store/Consistent.antt =====
-- The invariant of the content tables, and that every write keeps it: identifiers and slugs are
-- unique, identifiers are below the next ones, and every file belongs to an entry.
use easy_host_k8s.Prelude.{
  ℕ, ◌<◌, ◌≡◌, refl, ◌≢◌, Bool, true, false, none, List, [], ◌∷◌, ◌++◌, map, Bytes, any, ◌==◌,
  arith, All, bytes_eq_iff, ◌∙◌,
}
use easy_host_k8s.Model.{Content}
use easy_host_k8s.World.{Database, ContentRow, FileRow}
use easy_host_k8s.Store.{EncColumns, set_metadata, set_envelope}
use easy_host_k8s.Store.Queries.{find_slug, text_eq}
use easy_host_k8s.Store.Untouched.{find_id}

module _ (collate : Bytes → Bytes) where
  -- No two rows share an identifier, nor a slug as the database compares them.
  abbrev pub Distinct : List ContentRow → Type 0
  Distinct [] = Unit
  Distinct (r ∷ rows) =
      (find_id r.id rows ≡ none) × (find_slug collate r.slug rows ≡ none) × Distinct rows

  abbrev pub has_entry : List ContentRow → ℕ → Bool
  has_entry rows id = any (λ r. r.id == id) rows

  pub record IsConsistent (d : Database) : Type 0 where
    pub distinct : Distinct d.contents
    pub below : All (λ r. r.id < d.next_content_id) d.contents
    pub owned : All (λ f. has_entry d.contents f.content_id ≡ true) d.files
    pub files_below : All (λ f. f.id < d.next_file_id) d.files

  -- What a change of a row keeps to keep rows apart
  abbrev pub KeepsKeys : (ContentRow → ContentRow) → Type 0
  KeepsKeys g = (r : ContentRow) → ((g r).id ≡ r.id) × ((g r).slug ≡ r.slug)

  module _ (g : ContentRow → ContentRow) (k : KeepsKeys g) where
    pub find_id-map :
        (id : ℕ) (rows : List ContentRow) → find_id id rows ≡ none → find_id id (map g rows) ≡ none
    find_id-map id [] h = refl
    find_id-map id (r ∷ rows) h = ground (arith, k r, find_id-map id rows)

    pub find_slug-map :
        (slug : Bytes) (rows : List ContentRow)
        → find_slug collate slug rows ≡ none
        → find_slug collate slug (map g rows) ≡ none
    find_slug-map slug [] h = refl
    find_slug-map slug (r ∷ rows) h = ground (arith, k r, find_slug-map slug rows)

    pub Distinct-map : (rows : List ContentRow) → Distinct rows → Distinct (map g rows)
    Distinct-map [] h = tt
    Distinct-map (r ∷ rows) (a, b, h) = (
      rw ((k r).0) (find_id-map r.id rows a),
      rw ((k r).1) (find_slug-map r.slug rows b),
      Distinct-map rows h,
    )

    pub below-map :
        (n : ℕ) (rows : List ContentRow)
        → All (λ r. r.id < n) rows
        → All (λ r. r.id < n) (map g rows)
    below-map n [] h = tt
    below-map n (r ∷ rows) (a, h) = (rw ((k r).0) a, below-map n rows h)

    has_entry-map :
        (rows : List ContentRow) (id : ℕ) → has_entry (map g rows) id ≡ has_entry rows id
    has_entry-map [] id = refl
    has_entry-map (r ∷ rows) id = ground (arith, k r, has_entry-map rows id)

    pub owned-map :
        (rows : List ContentRow) (files : List FileRow)
        → All (λ f. has_entry rows f.content_id ≡ true) files
        → All (λ f. has_entry (map g rows) f.content_id ≡ true) files
    owned-map rows [] h = tt
    owned-map rows (f ∷ files) (a, h) =
        (has_entry-map rows f.content_id ∙ a, owned-map rows files h)

  pub set_metadata-KeepsKeys : (c : Content) → KeepsKeys (set_metadata c)
  unfolding set_metadata
  set_metadata-KeepsKeys c r = ground arith

  pub set_envelope-KeepsKeys :
      (id : ℕ) (columns : EncColumns) (now : ℕ) → KeepsKeys (set_envelope id columns now)
  unfolding set_envelope
  set_envelope-KeepsKeys id columns now r = ground arith

  pub find_id-of_below :
      (n : ℕ) (rows : List ContentRow) → All (λ r. r.id < n) rows → find_id n rows ≡ none
  find_id-of_below n [] h = refl
  find_id-of_below n (r ∷ rows) (a, h) = ground (arith, find_id-of_below n rows h)

  find_id-append :
      (id : ℕ) (rows : List ContentRow) (s : ContentRow)
      → find_id id rows ≡ none
      → s.id ≢ id
      → find_id id (rows ++ s ∷ []) ≡ none
  find_id-append id [] s h ne = ground arith
  find_id-append id (r ∷ rows) s h ne = ground (arith, find_id-append id rows s)

  find_slug-append :
      (slug : Bytes) (rows : List ContentRow) (s : ContentRow)
      → find_slug collate slug rows ≡ none
      → text_eq collate s.slug slug ≡ false
      → find_slug collate slug (rows ++ s ∷ []) ≡ none
  find_slug-append slug [] s h ne = ground arith
  find_slug-append slug (r ∷ rows) s h ne = ground (arith, find_slug-append slug rows s)

  text_eq_comm : (a b : Bytes) → text_eq collate a b ≡ text_eq collate b a
  text_eq_comm a b =
      ground (arith, bytes_eq_iff (collate a) (collate b), bytes_eq_iff (collate b) (collate a))

  pub Distinct-append :
      (rows : List ContentRow) (s : ContentRow)
      → Distinct rows
      → find_id s.id rows ≡ none
      → find_slug collate s.slug rows ≡ none
      → Distinct (rows ++ s ∷ [])
  Distinct-append [] s h a b = (refl, refl, tt)
  Distinct-append (r ∷ rows) s (x, y, h) a b = (
    find_id-append r.id rows s x (ground arith),
    find_slug-append r.slug rows s y (ground (arith, text_eq_comm s.slug r.slug)),
    Distinct-append rows s h (ground arith) (ground arith),
  )
