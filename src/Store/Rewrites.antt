-- ===== src/Store/Rewrites.antt =====
-- Rewriting the files of an entry row by row: each change reaches the row that it names.
use easy_host_k8s.Prelude.{
  ℕ, ◌≡◌, refl, ap, ◌∙◌, ◌==◌, false, true, List, [], ◌∷◌, map, Bytes, arith, All, Bool-cases, inl,
  inr,
}
use easy_host_k8s.World.{FileRow}
use easy_host_k8s.Store.{set_file_data, rewrite_files}
use easy_host_k8s.Store.Rows.{All-filter}
use easy_host_k8s.Store.Queries.{own_files}

-- No row of a list has an identifier.
abbrev pub Without : ℕ → List FileRow → Type 0
Without id rows = All (λ f. (f.id == id) ≡ false) rows

-- The primary key: no two rows share their identifier.
abbrev pub DistinctFiles : List FileRow → Type 0
DistinctFiles [] = Unit
DistinctFiles (f ∷ rows) = Without f.id rows × DistinctFiles rows

-- No change is one of the file with an identifier.
abbrev pub Spares : ℕ → List (ℕ × Bytes) → Type 0
Spares id changes = All (λ change. (id == change.0) ≡ false) changes

module _ (cid : ℕ) where
  map-set_file_data-Without :
      (id : ℕ) (payload : Bytes) (rows : List FileRow)
      → Without id rows
      → map (set_file_data cid (id, payload)) rows ≡ rows
  unfolding set_file_data
  map-set_file_data-Without id payload [] h = refl
  map-set_file_data-Without id payload (f ∷ rows) (a, h) =
      ground (arith, a, map-set_file_data-Without id payload rows h)

  rewrite_files-cons :
      (changes : List (ℕ × Bytes)) (f : FileRow) (rows : List FileRow)
      → Spares f.id changes
      → rewrite_files cid changes (f ∷ rows) ≡ f ∷ rewrite_files cid changes rows
  unfolding rewrite_files set_file_data
  rewrite_files-cons [] f rows h = refl
  rewrite_files-cons ((id, payload) ∷ changes) f rows (a, h) =
      let same : set_file_data cid (id, payload) f ≡ f = ground (arith, a) in
      rw same (rewrite_files-cons changes f (map (set_file_data cid (id, payload)) rows) h)

  -- The first change is one of the first row, the others are changes of the others.
  pub rewrite_files-first :
      (payload : Bytes) (changes : List (ℕ × Bytes)) (f : FileRow) (rows : List FileRow)
      → (f.content_id == cid) ≡ true
      → Without f.id rows
      → Spares f.id changes
      → rewrite_files cid ((f.id, payload) ∷ changes) (f ∷ rows)
        ≡ record f { file_data = payload } ∷ rewrite_files cid changes rows
  unfolding rewrite_files set_file_data
  rewrite_files-first payload changes f rows own others spared =
      let first : set_file_data cid (f.id, payload) f ≡ record f { file_data = payload } =
        ground (arith, own) in
      rw (first, map-set_file_data-Without f.id payload rows others)
        (rewrite_files-cons changes (record f { file_data = payload }) rows spared)

  pub rewrite_files-nil : (changes : List (ℕ × Bytes)) → rewrite_files cid changes [] ≡ []
  unfolding rewrite_files
  rewrite_files-nil [] = refl
  rewrite_files-nil (change ∷ changes) = rewrite_files-nil changes

  own_files-set_file_data :
      (change : ℕ × Bytes) (rows : List FileRow)
      → own_files cid (map (set_file_data cid change) rows)
        ≡ map (set_file_data cid change) (own_files cid rows)
  unfolding set_file_data
  own_files-set_file_data change [] = refl
  own_files-set_file_data change (f ∷ rows) = ground (arith, own_files-set_file_data change rows)

  pub own_files-rewrite_files :
      (changes : List (ℕ × Bytes)) (rows : List FileRow)
      → own_files cid (rewrite_files cid changes rows)
        ≡ rewrite_files cid changes (own_files cid rows)
  unfolding rewrite_files
  own_files-rewrite_files [] rows = refl
  own_files-rewrite_files (change ∷ changes) rows =
      own_files-rewrite_files changes (map (set_file_data cid change) rows)
      ∙ ap (rewrite_files cid changes) (own_files-set_file_data change rows)

  pub own_files-All :
      (rows : List FileRow) → All (λ f. (f.content_id == cid) ≡ true) (own_files cid rows)
  own_files-All [] = tt
  own_files-All (f ∷ rows) = elim (Bool-cases (f.content_id == cid)) [
    | inl own ↦ rw (own, All) (own, own_files-All rows)
    | inr other ↦ rw (other, All) (own_files-All rows)
  ]

  pub own_files-DistinctFiles :
      (rows : List FileRow) → DistinctFiles rows → DistinctFiles (own_files cid rows)
  own_files-DistinctFiles [] h = tt
  own_files-DistinctFiles (f ∷ rows) (a, h) = elim (Bool-cases (f.content_id == cid)) [
    | inl own ↦ rw (own, DistinctFiles) (All-filter _ _ rows a, own_files-DistinctFiles rows h)
    | inr other ↦ rw (other, DistinctFiles) (own_files-DistinctFiles rows h)
  ]
