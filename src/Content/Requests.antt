-- ===== src/Content/Requests.antt =====
-- What the operations of the content service keep, as an interface to the handlers above them: the
-- reading ones keep everything, the others what `IsKept` asks of them.
use easy_host_k8s.Prelude.{
  ℕ, Bytes, List, Action, Keeps, Keeps-bind, Keeps-return, Keeps-state, [], ◌∷◌, not, is_empty,
  codes, contains, Result, ok, err, no_rows, Keeps-fail, Keeps-lift, Triple-if, Keeps-of_state,
}
use easy_host_k8s.Model.{Content, ContentFile, to_response, is_encrypted}
use easy_host_k8s.World.{World, Database}
use easy_host_k8s.Store.Queries.{list_file_paths, get_content_file}
use easy_host_k8s.Store.Reads.{
  Stands, Keeps-of_Stands, Stands-list_content_by_owner, Stands-list_file_paths,
  Stands-get_content_file,
}
use easy_host_k8s.Content.{Platform, CreateParams, UpdateParams, unwrap_envelope}
use easy_host_k8s.Content.Service.{
  get, list, create, update, delete, respond, respond_all, is_encrypted_at, not_found_or_locked,
  serve_found, serve_payload, get_file, unlock,
}
use easy_host_k8s.Content.Ownership.{Stands-owned_content, Stands-content_by_slug}
use easy_host_k8s.Content.Entries.{or_nothing-Keeps}

module _ (p : Platform) {d : Database} where
  Stands-respond : (c : Content) → Keeps (Stands d) (respond p c)
  Stands-respond c =
      Keeps-bind _ _ (or_nothing-Keeps (list_file_paths c.id) (Stands-list_file_paths c.id))
        (λ files. Keeps-return (to_response c files))

  Stands-respond_all : (cs : List Content) → Keeps (Stands d) (respond_all p cs)
  unfolding respond_all
  Stands-respond_all [] = Keeps-return []
  Stands-respond_all (c ∷ cs) =
      Keeps-bind _ _ (Stands-respond c)
        (λ r. Keeps-bind _ _ (Stands-respond_all cs) (λ rs. Keeps-return (r ∷ rs)))

  pub Stands-get : (slug owner : Bytes) → Keeps (Stands d) (get p slug owner)
  unfolding get
  Stands-get slug owner = Keeps-bind _ _ (Stands-owned_content p slug owner) Stands-respond

  pub Stands-list :
      (owner : Bytes) (limit offset : ℕ) → Keeps (Stands d) (list p owner limit offset)
  unfolding list
  Stands-list owner limit offset =
      Keeps-bind _ _ (Stands-list_content_by_owner p.collate owner limit offset)
        (λ page. Keeps-bind _ _ (Stands-respond_all page.0) (λ rs. Keeps-return (rs, page.1)))

module _ (p : Platform) {d : Database} where
  Stands-is_encrypted_at : (slug : Bytes) → Keeps (Stands d) (is_encrypted_at p slug)
  unfolding is_encrypted_at
  Stands-is_encrypted_at slug =
      Keeps-bind _ _ (Stands-content_by_slug p slug) (λ c. Keeps-return (is_encrypted c))

  Stands-not_found_or_locked :
      (slug dek : Bytes) → Keeps (Stands d) (not_found_or_locked p slug dek)
  unfolding not_found_or_locked
  Stands-not_found_or_locked slug dek =
      Triple-if (not (is_empty dek)) _ _ (λ _. Keeps-fail _)
        (λ _.
          Keeps-bind _ _ (Stands-is_encrypted_at slug)
            (λ locked. Triple-if locked _ _ (λ _. Keeps-fail _) (λ _. Keeps-fail _)))

  Stands-serve_found :
      (slug path dek : Bytes) (r : Result ContentFile)
      → Keeps (Stands d) (serve_found p slug path dek r)
  Stands-serve_found slug path dek (ok f) = Keeps-lift (serve_payload p slug path dek f)
  Stands-serve_found slug path dek (err no_rows) = Stands-not_found_or_locked slug dek
  Stands-serve_found slug path dek (err e) = Keeps-fail e

  pub Stands-get_file : (slug path dek : Bytes) → Keeps (Stands d) (get_file p slug path dek)
  unfolding get_file
  Stands-get_file slug path dek =
      Triple-if (contains path (codes "..")) _ _ (λ _. Keeps-fail _)
        (λ _. Keeps-of_state (Stands d) _ (λ w h.
          Keeps-state (Stands d) (serve_found p slug path dek _)
            (Stands-serve_found slug path dek _) _
            (Keeps-state (Stands d) (get_content_file p.collate slug path)
              (Stands-get_content_file p.collate slug path) w h)))

  pub Stands-unlock : (slug passphrase : Bytes) → Keeps (Stands d) (unlock p slug passphrase)
  unfolding unlock
  Stands-unlock slug passphrase = Keeps-bind _ _ (Stands-content_by_slug p slug) (λ c.
      Triple-if (not (is_encrypted c)) _ _ (λ _. Keeps-fail _)
        (λ _.
          Triple-if (is_empty passphrase) _ _ (λ _. Keeps-fail _)
            (λ _. Keeps-lift (unwrap_envelope p c.encryption passphrase slug))))

-- Behind an action, a property of the tables holds that held before.
abbrev pub After : (Database → Type 0) → {A : Type 0} → (World → A × World) → Type 0
After P m = (w : World) → P w.db → P (m w).1.db

-- A property of the tables that the operations keep which an owner of the kind `Ok` asks for
pub record IsKept (p : Platform) (P : Database → Type 0) (Ok : Bytes → Type 0) : Type 0 where
  pub created : (c : CreateParams) → Ok c.owner → After P (create p c)
  pub updated : (u : UpdateParams) → Ok u.owner → After P (update p u)
  pub deleted : (slug owner : Bytes) → Ok owner → After P (delete p slug owner)

-- Reading keeps every property of the tables.
module _ (p : Platform) (P : Database → Type 0) where
  After-of_Stands :
      {A : Type 0} (m : Action World A) → ((d : Database) → Keeps (Stands d) m) → After P m
  After-of_Stands m k w h = Keeps-state (λ w. P w.db) m (Keeps-of_Stands P m k) w h

  pub get_file-After : (slug path dek : Bytes) → After P (get_file p slug path dek)
  get_file-After slug path dek =
      After-of_Stands (get_file p slug path dek) (λ d. Stands-get_file p slug path dek)

  pub unlock-After : (slug passphrase : Bytes) → After P (unlock p slug passphrase)
  unlock-After slug passphrase =
      After-of_Stands (unlock p slug passphrase) (λ d. Stands-unlock p slug passphrase)

  pub get-After : (slug owner : Bytes) → After P (get p slug owner)
  get-After slug owner = After-of_Stands (get p slug owner) (λ d. Stands-get p slug owner)

  pub list-After : (owner : Bytes) (limit offset : ℕ) → After P (list p owner limit offset)
  list-After owner limit offset =
      After-of_Stands (list p owner limit offset) (λ d. Stands-list p owner limit offset)
