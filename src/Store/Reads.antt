-- ===== src/Store/Reads.antt =====
-- The reading methods change no table.
use easy_host_k8s.Prelude.{
  List, ℕ, ◌≡◌, Bytes, Action, arith, Keeps, Keeps-of_state, Keeps-state, subst, sym, refl,
}
use easy_host_k8s.Crypto.{Entropy}
use easy_host_k8s.World.{World, Database, ContentRow, FileRow, query, with_entropy}
use easy_host_k8s.Store.Queries.{
  get_content_by_slug, slug_exists, list_content_by_owner, get_content_file, list_content_files,
  list_file_paths,
}

-- The tables are those of `d`.
abbrev pub Stands : Database → World → Type 0
Stands d w = w.db ≡ d

-- The tables of the entries and of their files, with their counters
abbrev pub sites : Database → List ContentRow × List FileRow × ℕ × ℕ
sites d = (d.contents, d.files, d.next_content_id, d.next_file_id)

-- What keeps every table keeps whatever holds of the tables.
pub Keeps-of_Stands :
    {A : Type 0} (P : Database → Type 0) (m : Action World A)
    → ((d : Database) → Keeps (Stands d) m)
    → Keeps (λ w. P w.db) m
Keeps-of_Stands P m k =
    Keeps-of_state (λ w. P w.db) m
      (λ w h. subst P (sym (Keeps-state (Stands w.db) m (k w.db) w refl)) h)

module _ {d : Database} where
  pub Stands-query : Keeps (Stands d) query
  unfolding query
  Stands-query = Keeps-of_state (Stands d) query (λ w h. ground arith)

  pub Stands-with_entropy : {A : Type 0} (m : Action Entropy A) → Keeps (Stands d) (with_entropy m)
  unfolding with_entropy
  Stands-with_entropy m = Keeps-of_state (Stands d) (with_entropy m) (λ w h. h)

  module _ (collate : Bytes → Bytes) where
    pub Stands-get_content_by_slug :
        (slug : Bytes) → Keeps (Stands d) (get_content_by_slug collate slug)
    unfolding get_content_by_slug query
    Stands-get_content_by_slug slug =
        Keeps-of_state (Stands d) (get_content_by_slug collate slug) (λ w h. ground arith)

    pub Stands-slug_exists : (slug : Bytes) → Keeps (Stands d) (slug_exists collate slug)
    unfolding slug_exists query
    Stands-slug_exists slug =
        Keeps-of_state (Stands d) (slug_exists collate slug) (λ w h. ground arith)

    pub Stands-list_content_by_owner :
        (owner : Bytes) (limit offset : ℕ)
        → Keeps (Stands d) (list_content_by_owner collate owner limit offset)
    unfolding list_content_by_owner query
    Stands-list_content_by_owner owner limit offset =
        Keeps-of_state (Stands d) (list_content_by_owner collate owner limit offset)
          (λ w h. ground arith)

    pub Stands-get_content_file :
        (slug path : Bytes) → Keeps (Stands d) (get_content_file collate slug path)
    unfolding get_content_file query
    Stands-get_content_file slug path =
        Keeps-of_state (Stands d) (get_content_file collate slug path) (λ w h. ground arith)

  pub Stands-list_content_files : (id : ℕ) → Keeps (Stands d) (list_content_files id)
  unfolding list_content_files query
  Stands-list_content_files id =
      Keeps-of_state (Stands d) (list_content_files id) (λ w h. ground arith)

  pub Stands-list_file_paths : (id : ℕ) → Keeps (Stands d) (list_file_paths id)
  unfolding list_file_paths query
  Stands-list_file_paths id = Keeps-of_state (Stands d) (list_file_paths id) (λ w h. ground arith)
