-- ===== src/Content/Apart.antt =====
-- The content service never touches the tables of the OAuth server.
use easy_host_k8s.Prelude.{
  ℕ, ◌>>=◌, Bytes, Action, Keeps, Keeps-bind, Keeps-of_state, Keeps-state, arith,
}
use easy_host_k8s.Crypto.{Entropy}
use easy_host_k8s.Model.{Content}
use easy_host_k8s.World.{World, query, with_entropy}
use easy_host_k8s.Store.Queries.{
  create_content, update_content, apply_encryption, delete_content, create_content_file,
  delete_content_files, list_content_files, list_file_paths, slug_exists,
}
use easy_host_k8s.Store.Reads.{
  Keeps-of_Stands, Stands-with_entropy, Stands-slug_exists, Stands-list_content_files,
  Stands-list_file_paths,
}
use easy_host_k8s.Content.{Platform, owned_content}
use easy_host_k8s.Content.Service.{create, update, delete, update_entry}
use easy_host_k8s.Content.Local.{IsLocal}
use easy_host_k8s.Content.Entries.{update_entry-Keeps, create-Keeps}
use easy_host_k8s.Content.Ownership.{Stands-owned_content}
use easy_host_k8s.Content.Requests.{IsKept}
use easy_host_k8s.Content.Kept.{Anyone}
use easy_host_k8s.Oauth.Authorized.{Unauthorized}

module _ (username : Bytes) where
  abbrev Apart : World → Type 0
  Apart w = Unauthorized username w.db

  Apart-with_entropy : {A : Type 0} (m : Action Entropy A) → Keeps Apart (with_entropy m)
  Apart-with_entropy m =
      Keeps-of_Stands (Unauthorized username) (with_entropy m) (λ d. Stands-with_entropy m)

  Apart-delete_content : (id : ℕ) → Keeps Apart (delete_content id)
  unfolding delete_content query
  Apart-delete_content id = Keeps-of_state Apart (delete_content id) (λ w h. ground (arith, h))

  Apart-create_content :
      (collate : Bytes → Bytes) (c : Content) → Keeps Apart (create_content collate c)
  unfolding create_content query
  Apart-create_content collate c =
      Keeps-of_state Apart (create_content collate c) (λ w h. ground (arith, h))

  Apart-IsLocal : (j : ℕ) → IsLocal Apart j
  unfolding update_content apply_encryption create_content_file delete_content_files query
  Apart-IsLocal j = record {
    entropy = Apart-with_entropy;
    read_files =
        Keeps-of_Stands (Unauthorized username) (list_content_files j)
          (λ d. Stands-list_content_files j);
    read_paths =
        Keeps-of_Stands (Unauthorized username) (list_file_paths j) (λ d. Stands-list_file_paths j);
    metadata = λ c _. Keeps-of_state Apart (update_content c) (λ w h. ground (arith, h));
    encryption = λ env rewritten.
        Keeps-of_state Apart (apply_encryption j env rewritten) (λ w h. ground (arith, h));
    removal = Apart-delete_content j;
    file_removal = Keeps-of_state Apart (delete_content_files j) (λ w h. ground (arith, h));
    new_file = λ f _. Keeps-of_state Apart (create_content_file f) (λ w h. ground (arith, h));
  }

  owned-Apart :
      {A : Type 0} (p : Platform) (slug owner : Bytes) (body : Content → Action World A)
      → ((c : Content) → Keeps Apart (body c))
      → Keeps Apart (owned_content p slug owner >>= body)
  owned-Apart p slug owner body keeps =
      Keeps-bind _ _
        (Keeps-of_Stands (Unauthorized username) (owned_content p slug owner)
          (λ d. Stands-owned_content p slug owner))
        keeps

  -- Who holds no code and no refresh token is given none by the content service, whoever asks.
  pub Unauthorized-IsKept : (p : Platform) → IsKept p (Unauthorized username) Anyone
  unfolding update delete
  Unauthorized-IsKept p = record {
    created = λ c _ w h.
        Keeps-state Apart (create p c)
          (create-Keeps p Apart (λ id. Unit) c (λ id _. Apart-IsLocal id) Apart-with_entropy
            (Keeps-of_Stands (Unauthorized username) (slug_exists p.collate c.slug)
              (λ d. Stands-slug_exists p.collate c.slug))
            (Apart-create_content p.collate) (λ d v v' created _ _. tt))
          w h;
    updated = λ u _ w h.
        Keeps-state Apart _
          (owned-Apart p u.slug u.owner (update_entry p u)
            (λ c. update_entry-Keeps p Apart u c (Apart-IsLocal c.id)))
          w h;
    deleted = λ slug owner _ w h.
        Keeps-state Apart _
          (owned-Apart p slug owner (λ c. delete_content c.id) (λ c. Apart-delete_content c.id)) w
          h;
  }
