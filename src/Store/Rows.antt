-- ===== src/Store/Rows.antt =====
-- What filtering and rewriting rows keeps of a table.
use easy_host_k8s.Prelude.{
  ℕ, ◌≡◌, refl, ◌≢◌, Bool, true, false, not, none, List, [], ◌∷◌, map, Bytes, filter, any, ◌==◌,
  arith, All, subst, some, Bool-cases, inl, inr,
}
use easy_host_k8s.World.{ContentRow, FileRow}
use easy_host_k8s.Store.{find, set_file_data, rewrite_files}
use easy_host_k8s.Store.Queries.{other_files, find_slug}
use easy_host_k8s.Store.Untouched.{find_id}
use easy_host_k8s.Store.Consistent.{Distinct}

module _ (collate : Bytes → Bytes) where
  pub find_id-filter-none :
      (test : ContentRow → Bool) (id : ℕ) (rows : List ContentRow)
      → find_id id rows ≡ none
      → find_id id (filter test rows) ≡ none
  find_id-filter-none test id [] h = refl
  find_id-filter-none test id (r ∷ rows) h = ground (arith, find_id-filter-none test id rows)

  pub find_slug-filter-none :
      (test : ContentRow → Bool) (slug : Bytes) (rows : List ContentRow)
      → find_slug collate slug rows ≡ none
      → find_slug collate slug (filter test rows) ≡ none
  find_slug-filter-none test slug [] h = refl
  find_slug-filter-none test slug (r ∷ rows) h =
      ground (arith, find_slug-filter-none test slug rows)

  pub Distinct-filter :
      (test : ContentRow → Bool) (rows : List ContentRow)
      → Distinct collate rows
      → Distinct collate (filter test rows)
  Distinct-filter test [] h = tt
  Distinct-filter test (r ∷ rows) (a, b, h) = ground (
    arith,
    Distinct-filter test rows h,
    find_id-filter-none test r.id rows a,
    find_slug-filter-none test r.slug rows b,
  )

pub All-filter {ℓ κ} :
    {A : Type ℓ} (P : A → Type κ) (test : A → Bool) (xs : List A)
    → All P xs
    → All P (filter test xs)
All-filter P test [] h = tt
All-filter P test (x ∷ xs) (a, h) =
    elim (test x) as (λ b. All P (elim b [ true ↦ x ∷ filter test xs | false ↦ filter test xs ])) [
      | true ↦ (a, All-filter P test xs h)
      | false ↦ All-filter P test xs h
    ]

pub has_entry-filter :
    (j id : ℕ) (rows : List ContentRow)
    → j ≢ id
    → any (λ r. r.id == id) rows ≡ true
    → any (λ r. r.id == id) (filter (λ r. not (r.id == j)) rows) ≡ true
has_entry-filter j id [] ne h = cc
has_entry-filter j id (r ∷ rows) ne h = ground (arith, has_entry-filter j id rows ne)

-- Deleting an entry with its files leaves no file without its entry.
pub owned-other_files :
    (j : ℕ) (rows : List ContentRow) (files : List FileRow)
    → All (λ f. any (λ r. r.id == f.content_id) rows ≡ true) files
    → All
        (λ f. any (λ r. r.id == f.content_id) (filter (λ r. not (r.id == j)) rows) ≡ true)
        (other_files j files)
owned-other_files j rows [] h = tt
owned-other_files j rows (f ∷ files) (a, h) =
    ground (arith, owned-other_files j rows files h, has_entry-filter j f.content_id rows)

-- Rewriting payloads keeps what does not depend on them.
module _ (P : FileRow → Type 0)
    (stable : (f : FileRow) (b : Bytes) → P f → P (record f { file_data = b })) where
  pub All-set_file_data :
      (j : ℕ) (change : ℕ × Bytes) (files : List FileRow)
      → All P files
      → All P (map (set_file_data j change) files)
  unfolding set_file_data
  All-set_file_data j change [] h = tt
  All-set_file_data j change (f ∷ files) (a, h) =
      (ground (arith, stable f change.1 a), All-set_file_data j change files h)

  pub All-rewrite_files :
      (j : ℕ) (rewritten : List (ℕ × Bytes)) (files : List FileRow)
      → All P files
      → All P (rewrite_files j rewritten files)
  unfolding rewrite_files
  All-rewrite_files j [] files h = h
  All-rewrite_files j (change ∷ rewritten) files h =
      All-rewrite_files j rewritten (map (set_file_data j change) files)
        (All-set_file_data j change files h)

pub All-find {ℓ κ} :
    {A : Type ℓ} (P : A → Type κ) (test : A → Bool) (xs : List A) (x : A)
    → find test xs ≡ some x
    → All P xs
    → P x
All-find P test [] x e h = absurd cc
All-find P test (y ∷ ys) x e (a, h) = elim (Bool-cases (test y)) [
  | inl hit ↦ (let same : y ≡ x = cc (rw hit at e) in subst P same a)
  | inr miss ↦ All-find P test ys x (rw miss at e) h
]
