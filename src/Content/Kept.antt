-- ===== src/Content/Kept.antt =====
-- Properties that the content service keeps: an entry of another owner in consistent tables, whoever
-- asks, and the consistency of the tables alone. Both speak of the entries and their files alone.
use easy_host_k8s.Prelude.{ℕ, ◌≡◌, ◌≢◌, ap, subst, Bytes, List}
use easy_host_k8s.World.{World, Database, ContentRow, FileRow}
use easy_host_k8s.Store.Queries.{own_files}
use easy_host_k8s.Store.Reads.{sites}
use easy_host_k8s.Store.Untouched.{HasEntry}
use easy_host_k8s.Store.Consistent.{IsConsistent}
use easy_host_k8s.Content.{Platform}
use easy_host_k8s.Content.Service.{create, update, delete}
use easy_host_k8s.Content.Integrity.{create-IsConsistent, update-IsConsistent, delete-IsConsistent}
use easy_host_k8s.Content.Isolation.{Intact, create_isolation, update_isolation, delete_isolation}
use easy_host_k8s.Content.Requests.{IsKept}

-- Tables with the same entries and files are as consistent.
pub sites-IsConsistent :
    (p : Platform) (d d' : Database)
    → sites d' ≡ sites d
    → IsConsistent p.collate d
    → IsConsistent p.collate d'
sites-IsConsistent p d d' e consistent =
    let (contents, files, ids, file_ids) : (d'.contents ≡ d.contents)
        × (d'.files ≡ d.files)
        × (d'.next_content_id ≡ d.next_content_id)
        × (d'.next_file_id ≡ d.next_file_id) =
      (ap (λ t. t.0) e, ap (λ t. t.1) e, ap (λ t. t.2) e, ap (λ t. t.3) e) in
    record {
      distinct = rw contents consistent.distinct;
      below = rw (contents, ids) consistent.below;
      owned = rw (contents, files) consistent.owned;
      files_below = rw (files, file_ids) consistent.files_below;
    }

sites-HasEntry :
    (i : ℕ) (x : ContentRow) (files : List FileRow) (d d' : Database)
    → sites d' ≡ sites d
    → HasEntry i x files d
    → HasEntry i x files d'
sites-HasEntry i x files d d' e there =
    let (contents, own) : (d'.contents ≡ d.contents) × (d'.files ≡ d.files) =
      (ap (λ t. t.0) e, ap (λ t. t.1) e) in
    record { row = rw contents there.row; own = rw own there.own }

-- Every owner may be asked for.
abbrev pub Anyone : Bytes → Type 0
Anyone owner = Unit

pub IsConsistent-IsKept : (p : Platform) → IsKept p (IsConsistent p.collate) Anyone
IsConsistent-IsKept p = record {
  created = λ c _ w h. create-IsConsistent p w h c;
  updated = λ u _ w h. update-IsConsistent p w h u;
  deleted = λ slug owner _ w h. delete-IsConsistent p w h slug owner;
}

module _ (p : Platform) (i : ℕ) (x : ContentRow) (files : List FileRow) where
  -- Every owner but that of the entry may be asked for.
  abbrev pub Others : Bytes → Type 0
  Others owner = x.owner ≢ owner

  -- The files of the entry are named by what they were before.
  renamed :
      (w : World) (d : Database)
      → HasEntry i x files w.db
      → HasEntry i x (own_files i w.db.files) d
      → HasEntry i x files d
  renamed w d before after = subst (λ fs. HasEntry i x fs d) before.own after

  pub Intact-IsKept : IsKept p (Intact p i x files) Others
  Intact-IsKept = record {
    created = λ c ne w (there, consistent). (
      renamed w (create p c w).1.db there (create_isolation p w i x consistent there.row c),
      create-IsConsistent p w consistent c,
    );
    updated = λ u ne w (there, consistent). (
      renamed w (update p u w).1.db there (update_isolation p w i x consistent there.row u ne),
      update-IsConsistent p w consistent u,
    );
    deleted = λ slug owner ne w (there, consistent). (
      renamed w (delete p slug owner w).1.db there
          (delete_isolation p w i x consistent there.row slug owner ne),
      delete-IsConsistent p w consistent slug owner,
    );
  }

  pub sites-Intact :
      (d d' : Database) → sites d' ≡ sites d → Intact p i x files d → Intact p i x files d'
  sites-Intact d d' e (there, consistent) =
      (sites-HasEntry i x files d d' e there, sites-IsConsistent p d d' e consistent)
