-- ===== src/Content/Integrity.antt =====
-- The operations that write keep the tables consistent.
use easy_host_k8s.Prelude.{ℕ, ◌>>=◌, Bytes, Action, Keeps, Keeps-bind, Keeps-both, Keeps-state}
use easy_host_k8s.Model.{Content}
use easy_host_k8s.World.{World, with_entropy}
use easy_host_k8s.Store.Queries.{slug_exists, list_content_files, list_file_paths, delete_content}
use easy_host_k8s.Store.Reads.{
  Keeps-of_Stands, Stands-with_entropy, Stands-slug_exists, Stands-list_content_files,
  Stands-list_file_paths,
}
use easy_host_k8s.Store.Consistent.{IsConsistent}
use easy_host_k8s.Store.Invariant
use easy_host_k8s.Store.Invariant.{Consistent}
use easy_host_k8s.Content.{Platform, CreateParams, UpdateParams, owned_content}
use easy_host_k8s.Content.Service.{create, update, delete, update_entry}
use easy_host_k8s.Content.Local.{IsLocal}
use easy_host_k8s.Content.Entries.{update_entry-Keeps, create-Keeps}
use easy_host_k8s.Content.Ownership.{Stands-owned_content}

pub IsLocal-both :
    (P R : World → Type 0) (j : ℕ) → IsLocal P j → IsLocal R j → IsLocal (λ w. P w × R w) j
IsLocal-both P R j a b = record {
  entropy = λ m. Keeps-both _ (a.entropy m) (b.entropy m);
  read_files = Keeps-both _ a.read_files b.read_files;
  read_paths = Keeps-both _ a.read_paths b.read_paths;
  metadata = λ c e. Keeps-both _ (a.metadata c e) (b.metadata c e);
  encryption =
      λ env rewritten. Keeps-both _ (a.encryption env rewritten) (b.encryption env rewritten);
  removal = Keeps-both _ a.removal b.removal;
  file_removal = Keeps-both _ a.file_removal b.file_removal;
  new_file = λ f e. Keeps-both _ (a.new_file f e) (b.new_file f e);
}

module _ (collate : Bytes → Bytes) where
  pub Consistent-IsLocal : (j : ℕ) → IsLocal (Consistent collate) j
  Consistent-IsLocal j = record {
    entropy =
        λ m. Keeps-of_Stands (IsConsistent collate) (with_entropy m) (λ d. Stands-with_entropy m);
    read_files =
        Keeps-of_Stands (IsConsistent collate) (list_content_files j)
          (λ d. Stands-list_content_files j);
    read_paths =
        Keeps-of_Stands (IsConsistent collate) (list_file_paths j) (λ d. Stands-list_file_paths j);
    metadata = λ c _. Invariant.Consistent-update_content collate c;
    encryption = λ env rewritten. Invariant.Consistent-apply_encryption collate j env rewritten;
    removal = Invariant.Consistent-delete_content collate j;
    file_removal = Invariant.Consistent-delete_content_files collate j;
    new_file = λ f _. Invariant.Consistent-create_content_file collate f;
  }

module _ (p : Platform) (w : World) (consistent : IsConsistent p.collate w.db) where
  open p use {collate}

  owned-Consistent :
      {A : Type 0} (slug owner : Bytes) (body : Content → Action World A)
      → ((c : Content) → Keeps (Consistent collate) (body c))
      → Keeps (Consistent collate) (owned_content p slug owner >>= body)
  owned-Consistent slug owner body keeps =
      Keeps-bind _ _
        (Keeps-of_Stands (IsConsistent collate) (owned_content p slug owner)
          (λ d. Stands-owned_content p slug owner))
        keeps

  -- Creating an entry keeps the tables consistent, on success and on every failure: identifiers and
  -- slugs stay unique, and every file belongs to an entry.
  pub create-IsConsistent : (c : CreateParams) → IsConsistent collate (create p c w).1.db
  create-IsConsistent c =
      Keeps-state (Consistent collate) (create p c)
        (create-Keeps p (Consistent collate) (λ id. Unit) c (λ id _. Consistent-IsLocal collate id)
          (λ m.
            Keeps-of_Stands (IsConsistent collate) (with_entropy m) (λ d. Stands-with_entropy m))
          (Keeps-of_Stands (IsConsistent collate) (slug_exists collate c.slug)
            (λ d. Stands-slug_exists collate c.slug))
          (Invariant.Consistent-create_content collate) (λ d v v' created _ _. tt))
        w consistent

  -- Updating an entry, encryption changes and replaced files included, keeps the tables consistent, on
  -- success and on every failure.
  pub update-IsConsistent : (u : UpdateParams) → IsConsistent collate (update p u w).1.db
  unfolding update
  update-IsConsistent u =
      Keeps-state (Consistent collate) _
        (owned-Consistent u.slug u.owner (update_entry p u)
          (λ c. update_entry-Keeps p (Consistent collate) u c (Consistent-IsLocal collate c.id)))
        w consistent

  -- Deleting an entry keeps the tables consistent, on success and on every failure: no file is left
  -- without its entry.
  pub delete-IsConsistent : (slug owner : Bytes) → IsConsistent collate (delete p slug owner w).1.db
  unfolding delete
  delete-IsConsistent slug owner =
      Keeps-state (Consistent collate) _
        (owned-Consistent slug owner (λ c. delete_content c.id)
          (λ c. Invariant.Consistent-delete_content collate c.id))
        w consistent
