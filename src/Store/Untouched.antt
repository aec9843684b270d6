-- ===== src/Store/Untouched.antt =====
-- What a query does to the entries that it is not about: nothing.
use easy_host_k8s.Prelude.{
  ℕ, ◌≡◌, refl, ◌≢◌, not, Option, some, List, [], ◌∷◌, ◌++◌, map, Bytes, filter, ◌==◌, Action,
  arith, Keeps, Keeps-of_state, ◌∙◌,
}
use easy_host_k8s.Crypto.{Envelope, Entropy}
use easy_host_k8s.Model.{Content, ContentFile}
use easy_host_k8s.World.{World, Database, ContentRow, FileRow, query, with_entropy}
use easy_host_k8s.Store.{
  EncColumns, find, set_metadata, set_envelope, set_file_data, rewrite_files, enc_columns, row_of,
}
use easy_host_k8s.Store.Queries.{
  own_files, other_files, create_content, update_content, apply_encryption, delete_content,
  create_content_file, delete_content_files,
}

abbrev pub find_id : ℕ → List ContentRow → Option ContentRow
find_id id rows = find (λ r. r.id == id) rows

module _ {i j : ℕ} (ne : j ≢ i) where
  find_id-set_metadata :
      (c : Content) (rows : List ContentRow)
      → c.id ≡ j
      → find_id i (map (set_metadata c) rows) ≡ find_id i rows
  unfolding set_metadata
  find_id-set_metadata c [] e = refl
  find_id-set_metadata c (r ∷ rows) e = ground (arith, find_id-set_metadata c rows)

  find_id-set_envelope :
      (columns : EncColumns) (now : ℕ) (rows : List ContentRow)
      → find_id i (map (set_envelope j columns now) rows) ≡ find_id i rows
  unfolding set_envelope
  find_id-set_envelope columns now [] = refl
  find_id-set_envelope columns now (r ∷ rows) =
      ground (arith, find_id-set_envelope columns now rows)

  find_id-filter :
      (rows : List ContentRow) → find_id i (filter (λ r. not (r.id == j)) rows) ≡ find_id i rows
  find_id-filter [] = refl
  find_id-filter (r ∷ rows) = ground (arith, find_id-filter rows)

  own_files-set_file_data :
      (change : ℕ × Bytes) (files : List FileRow)
      → own_files i (map (set_file_data j change) files) ≡ own_files i files
  unfolding set_file_data
  own_files-set_file_data change [] = refl
  own_files-set_file_data change (f ∷ files) = ground (arith, own_files-set_file_data change files)

  own_files-rewrite_files :
      (rewritten : List (ℕ × Bytes)) (files : List FileRow)
      → own_files i (rewrite_files j rewritten files) ≡ own_files i files
  unfolding rewrite_files
  own_files-rewrite_files [] files = refl
  own_files-rewrite_files (change ∷ rewritten) files =
      own_files-rewrite_files rewritten (map (set_file_data j change) files)
      ∙ own_files-set_file_data change files

  own_files-other_files :
      (files : List FileRow) → own_files i (other_files j files) ≡ own_files i files
  own_files-other_files [] = refl
  own_files-other_files (f ∷ files) = ground (arith, own_files-other_files files)

  own_files-concat :
      (files : List FileRow) (f : FileRow)
      → f.content_id ≡ j
      → own_files i (files ++ f ∷ []) ≡ own_files i files
  own_files-concat [] f e = ground arith
  own_files-concat (g ∷ files) f e = ground (arith, own_files-concat files f)

find_id-concat :
    (i : ℕ) (rows : List ContentRow) (r x : ContentRow)
    → find_id i rows ≡ some x
    → find_id i (rows ++ r ∷ []) ≡ some x
find_id-concat i [] r x h = cc
find_id-concat i (s ∷ rows) r x h = ground (arith, find_id-concat i rows r x)

-- The row of entry `i` is `x`, and its files are `files`.
pub record HasEntry (i : ℕ) (x : ContentRow) (files : List FileRow) (d : Database) : Type 0 where
  pub row : find_id i d.contents ≡ some x
  pub own : own_files i d.files ≡ files

abbrev pub Holds : ℕ → ContentRow → List FileRow → World → Type 0
Holds i x files w = HasEntry i x files w.db

module _ {i : ℕ} {x : ContentRow} {files : List FileRow} where
  pub Holds-query : Keeps (Holds i x files) query
  unfolding query
  Holds-query = Keeps-of_state (Holds i x files) query (λ w h. ground arith)

  pub Holds-with_entropy :
      {A : Type 0} (m : Action Entropy A) → Keeps (Holds i x files) (with_entropy m)
  unfolding with_entropy
  Holds-with_entropy m =
      Keeps-of_state (Holds i x files) (with_entropy m) (λ w h. record { row = h.row; own = h.own })

  pub Holds-update_content : (c : Content) → c.id ≢ i → Keeps (Holds i x files) (update_content c)
  unfolding update_content query
  Holds-update_content c ne = Keeps-of_state (Holds i x files) (update_content c) (λ w h.
      ground
        (arith, find_id-set_metadata ne (record c { updated_at = w.clock }) w.db.contents refl))

  pub Holds-apply_encryption :
      (j : ℕ) (env : Option Envelope) (rewritten : List (ℕ × Bytes))
      → j ≢ i
      → Keeps (Holds i x files) (apply_encryption j env rewritten)
  unfolding apply_encryption query
  Holds-apply_encryption j env rewritten ne =
      Keeps-of_state (Holds i x files) (apply_encryption j env rewritten) λ w h. ground (
        arith,
        find_id-set_envelope ne (enc_columns env) w.clock w.db.contents,
        own_files-rewrite_files ne rewritten w.db.files,
      )

  pub Holds-delete_content : (j : ℕ) → j ≢ i → Keeps (Holds i x files) (delete_content j)
  unfolding delete_content query
  Holds-delete_content j ne =
      Keeps-of_state (Holds i x files) (delete_content j)
        λ w h. ground (arith, find_id-filter ne w.db.contents, own_files-other_files ne w.db.files)

  pub Holds-delete_content_files :
      (j : ℕ) → j ≢ i → Keeps (Holds i x files) (delete_content_files j)
  unfolding delete_content_files query
  Holds-delete_content_files j ne =
      Keeps-of_state (Holds i x files) (delete_content_files j)
        λ w h. ground (arith, own_files-other_files ne w.db.files)

  pub Holds-create_content_file :
      (f : ContentFile) → f.content_id ≢ i → Keeps (Holds i x files) (create_content_file f)
  unfolding create_content_file query
  Holds-create_content_file f ne = Keeps-of_state (Holds i x files) (create_content_file f) λ w h.
      ground (
        arith,
        own_files-concat ne w.db.files
            (record {
              id = w.db.next_file_id;
              content_id = f.content_id;
              file_path = f.file_path;
              file_data = f.file_data;
              content_type = f.content_type;
            })
            refl,
      )

  pub Holds-create_content :
      (collate : Bytes → Bytes) (c : Content) → Keeps (Holds i x files) (create_content collate c)
  unfolding create_content query
  Holds-create_content collate c =
      Keeps-of_state (Holds i x files) (create_content collate c) λ w h. ground (
        arith,
        find_id-concat i w.db.contents
            (row_of
              (record c { id = w.db.next_content_id; created_at = w.clock; updated_at = w.clock }))
            x h.row,
      )
