-- ===== src/Content/Atomic.antt =====
-- A change of encryption that fails has changed no table: what the files and the envelope of an entry
-- are is written by one transaction at the end.
use easy_host_k8s.Prelude.{
  ℕ, ◌≡◌, refl, ◌∙◌, subst, ◌>>=◌, Bool-cases, inl, inr, Bool, not, ◌||◌, Option, none, some, List,
  [], Bytes, is_empty, Result, ok, err, Error, Action, return, Triple, Outcome, Keeps, Triple-bind,
  Triple-return, Triple-if, Triple-fail, Keeps-bind, Keeps-return, Keeps-lift,
}
use easy_host_k8s.Crypto.{Envelope, Entropy}
use easy_host_k8s.Model.{Content, ContentFile, is_encrypted}
use easy_host_k8s.World.{World, Database, query, with_entropy}
use easy_host_k8s.Store.Queries.{apply_encryption}
use easy_host_k8s.Store.Reads.{Stands, Stands-with_entropy, Stands-list_content_files}
use easy_host_k8s.Content.{Platform, UpdateParams, owned_content, unwrap_dek}
use easy_host_k8s.Content.Ownership.{owned_content-eq-ok}
use easy_host_k8s.Content.Loops.{seal_files-Keeps, open_files-Keeps, reseal_files-Keeps}
use easy_host_k8s.Content.Service.{
  rewritten_files, encrypt, decrypt, rotate_passphrase, apply_encryption_change, edit_metadata,
  update, update_entry,
}

-- Whatever the action does, it has changed no table when it fails.
abbrev pub IsAtomic : {A : Type 0} → Database → Action World A → Type 0
IsAtomic d m = Triple (Stands d) m (λ _ _. Unit {0}) (Stands d)

module _ (p : Platform) (d : Database) where
  rest :
      {A B : Type 0} (m : Action World A) (f : A → Action World B)
      → Keeps (Stands d) m
      → ((a : A) → IsAtomic d (f a))
      → IsAtomic d (m >>= f)
  rest m f = Triple-bind (λ a w. Stands d w) m f

  at_end :
      (id : ℕ) (env : Option Envelope) (rewritten : List (ℕ × Bytes))
      → IsAtomic d (apply_encryption id env rewritten)
  unfolding apply_encryption query
  at_end id env rewritten = record {
    after = λ w h. elim (Bool-cases (w.fails w.calls)) [
      | inl fails ↦ rw fails h
      | inr works ↦ rw works tt
    ];
  }

  finished : {A : Type 0} (a : A) → IsAtomic d (return {S = World} a)
  finished a = Triple-return a (λ _ _. tt)

  rewritten_files-Stands :
      (c : Content) (replaced : Bool) (rewrite : List ContentFile → Action World (List (ℕ × Bytes)))
      → ((files : List ContentFile) → Keeps (Stands d) (rewrite files))
      → Keeps (Stands d) (rewritten_files p c replaced rewrite)
  rewritten_files-Stands c replaced rewrite h =
      Triple-if replaced _ _ (λ _. Keeps-return [])
        (λ _. Keeps-bind _ _ (Stands-list_content_files c.id) (λ files. h files))

  entropy : {A : Type 0} (m : Action Entropy A) → Keeps (Stands d) (with_entropy m)
  entropy m = Stands-with_entropy m

  commit :
      (c : Content) (env : Option Envelope) (rewritten : List (ℕ × Bytes)) (a : Content × Bytes)
      → IsAtomic d (apply_encryption c.id env rewritten >>= λ _. return a)
  commit c env rewritten a =
      Triple-bind (λ _ _. Unit {0}) _ _ (at_end c.id env rewritten)
        (λ _. Triple-return a (λ _ _. tt))

  encrypt-IsAtomic :
      (c : Content) (passphrase : Bytes) (replaced : Bool)
      → IsAtomic d (encrypt p c passphrase replaced)
  unfolding encrypt
  encrypt-IsAtomic c passphrase replaced =
      Triple-bind (λ _ w. Stands d w) _ _ (entropy _)
        (λ made.
          Triple-bind (λ _ w. Stands d w) _ _
            (rewritten_files-Stands c replaced _
              (seal_files-Keeps p (Stands d) (λ m. entropy m) made.1 c.slug))
            (λ rewritten. commit c (some made.0) rewritten _))

  decrypt-IsAtomic :
      (c : Content) (passphrase : Bytes) (replaced : Bool)
      → IsAtomic d (decrypt p c passphrase replaced)
  unfolding decrypt
  decrypt-IsAtomic c passphrase replaced =
      Triple-bind (λ _ w. Stands d w) _ _ (Keeps-lift (unwrap_dek p c passphrase))
        (λ dek.
          Triple-bind (λ _ w. Stands d w) _ _
            (rewritten_files-Stands c replaced _
              (open_files-Keeps p (Stands d) (λ m. entropy m) dek c.slug))
            (λ rewritten. commit c none rewritten _))

  rotate_passphrase-IsAtomic :
      (c : Content) (current next : Bytes) (replaced : Bool)
      → IsAtomic d (rotate_passphrase p c current next replaced)
  unfolding rotate_passphrase
  rotate_passphrase-IsAtomic c current next replaced =
      Triple-bind (λ _ w. Stands d w) _ _ (Keeps-lift (unwrap_dek p c current))
        (λ old_dek.
          Triple-bind (λ _ w. Stands d w) _ _ (entropy _)
            (λ made.
              Triple-bind (λ _ w. Stands d w) _ _
                (rewritten_files-Stands c replaced _
                  (reseal_files-Keeps p (Stands d) (λ m. entropy m) old_dek made.1 c.slug))
                (λ rewritten. commit c (some made.0) rewritten _)))

  apply_encryption_change-IsAtomic :
      (c : Content) (u : UpdateParams) → IsAtomic d (apply_encryption_change p c u)
  unfolding apply_encryption_change
  apply_encryption_change-IsAtomic c u =
      Triple-if (is_encrypted c) _ _
        (λ _.
          Triple-if u.remove_encryption _ _ (λ _. decrypt-IsAtomic c u.passphrase _)
            (λ _.
              Triple-if (not (is_empty u.new_passphrase)) _ _
                (λ _. rotate_passphrase-IsAtomic c u.passphrase u.new_passphrase _)
                (λ _.
                  Triple-if (not (is_empty u.file_data)) _ _
                    (λ _.
                      Triple-bind (λ _ w. Stands d w) _ _ (Keeps-lift (unwrap_dek p c u.passphrase))
                        (λ dek. finished _))
                    (λ _. finished _))))
        (λ _.
          Triple-if (u.remove_encryption || not (is_empty u.new_passphrase)) _ _
            (λ _. Triple-fail _ (λ w h. h))
            (λ _.
              Triple-if (not (is_empty u.passphrase)) _ _ (λ _. encrypt-IsAtomic c u.passphrase _)
                (λ _. finished _)))

failed :
    {A : Type 0} (d : Database) (m : Action World A) (w w' : World) (e : Error)
    → IsAtomic d m
    → w.db ≡ d
    → m w ≡ (err e, w')
    → w'.db ≡ d
failed {A = A} d m w w' e atomic same h =
    subst (λ (r : Result A × World). Outcome (λ _ _. Unit {0}) (Stands d) r.0 r.1) h
      (atomic.after w same)

apply_encryption_change-eq-err :
    (p : Platform) (c : Content) (u : UpdateParams) (w w' : World) (e : Error)
    → apply_encryption_change p c u w ≡ (err e, w')
    → w'.db ≡ w.db
apply_encryption_change-eq-err p c u w w' e h =
    failed w.db (apply_encryption_change p c u) w w' e (apply_encryption_change-IsAtomic p w.db c u)
      refl h

-- An update that fails at its change of encryption, for a missing or wrong passphrase, a file that does
-- not open, a failing call or a request that does not fit the entry, has changed no table: metadata,
-- envelope and files are as they were.
pub update-change_fails :
    (p : Platform) (u : UpdateParams) (w w1 w2 : World) (c : Content) (e : Error)
    → owned_content p u.slug u.owner w ≡ (ok c, w1)
    → apply_encryption_change p (edit_metadata c u) u w1 ≡ (err e, w2)
    → ((update p u w).0 ≡ err e) × ((update p u w).1.db ≡ w.db)
unfolding update update_entry
update-change_fails p u w w1 w2 c e owned fails =
    let kept = apply_encryption_change-eq-err p (edit_metadata c u) u w1 w2 e fails in
    let read = (owned_content-eq-ok p u.slug u.owner w w1 c owned).2 in
    rw (owned, fails) (refl, kept ∙ read)
