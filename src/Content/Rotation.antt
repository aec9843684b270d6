-- ===== src/Content/Rotation.antt =====
-- rotatePassphrase as a whole: what stands in the tables behind it opens under the new passphrase.
use easy_host_k8s.Prelude.{
  ℕ, ◌≡◌, ap, ◌∙◌, sym, subst, ◌==◌, false, true, Option, some, Keeps-state, List, [], ◌∷◌, map,
  Bytes, Result, ok, err, lift, >>=-eq-ok, arith, All,
}
use easy_host_k8s.Crypto.{Envelope, IsSound, encrypt_file, decrypt_file, new_envelope, unwrap}
use easy_host_k8s.Crypto.Envelopes.{unwrap-new_envelope}
use easy_host_k8s.Model.{Content, ContentFile}
use easy_host_k8s.World.{World, Database, FileRow, with_entropy, query}
use easy_host_k8s.Store.{rewrite_files, set_envelope, enc_columns}
use easy_host_k8s.Store.Reads.{Stands, Stands-with_entropy}
use easy_host_k8s.Content.Loops.{reseal_files-Keeps}
use easy_host_k8s.Store.Rewrites.{
  Without, DistinctFiles, Spares, rewrite_files-nil, rewrite_files-first, own_files-rewrite_files,
  own_files-All, own_files-DistinctFiles,
}
use easy_host_k8s.Store.Queries.{own_files, plain_file, list_content_files, apply_encryption}
use easy_host_k8s.Content.{Platform, unwrap_dek}
use easy_host_k8s.Content.Service.{open_files, reseal_files, rotate_passphrase, rewritten_files}
use easy_host_k8s.Content.Transitions.{decrypt_file-with_entropy, open_files-nil, open_files-cons}

module _ (p : Platform) (slug old_dek new_dek : Bytes) where
  -- A rotation rewrites no file but those that it was given.
  reseal_files-Spares :
      (id : ℕ) (rows : List FileRow) (w w' : World) (sealed : List (ℕ × Bytes))
      → Without id rows
      → reseal_files p old_dek new_dek slug (map plain_file rows) w ≡ (ok sealed, w')
      → Spares id sealed
  unfolding reseal_files plain_file
  reseal_files-Spares id [] w w' sealed h e =
      let none : sealed ≡ [] = ground (arith, e) in rw none tt
  reseal_files-Spares id (f ∷ rows) w w' sealed (a, h) e =
      let (plaintext, w1, zeroth, start) =
        >>=-eq-ok (lift (decrypt_file p.primitives old_dek slug f.file_path f.file_data)) _ w e in
      let (payload, w2, first, rest) =
        >>=-eq-ok (with_entropy (encrypt_file p.primitives new_dek slug f.file_path plaintext)) _ w1
          start in
      let (more, w3, second, last) =
        >>=-eq-ok (reseal_files p old_dek new_dek slug (map plain_file rows)) _ w2 rest in
      let written : sealed ≡ (f.id, payload) ∷ more = ground arith in
      rw written (ground (arith, a), reseal_files-Spares id rows w2 w3 more h second)

  open_files-rewrite_files :
      (cid : ℕ) (rows : List FileRow) (w w' u v : World) (sealed : List (ℕ × Bytes))
      → IsSound p.primitives
      → All (λ f. (f.content_id == cid) ≡ true) rows
      → DistinctFiles rows
      → reseal_files p old_dek new_dek slug (map plain_file rows) w ≡ (ok sealed, w')
      → (plain : List (ℕ × Bytes)) × (open_files p old_dek slug (map plain_file rows) u
          ≡ (ok plain, u))
        × (open_files p new_dek slug (map plain_file (rewrite_files cid sealed rows)) v
            ≡ (ok plain, v))
  unfolding reseal_files plain_file
  open_files-rewrite_files cid [] w w' u v sealed sound own apart e = (
    [],
    open_files-nil p sound slug old_dek u,
    ap (λ l. open_files p new_dek slug (map plain_file l) v) (rewrite_files-nil cid sealed)
        ∙ open_files-nil p sound slug new_dek v,
  )
  open_files-rewrite_files cid (f ∷ rows) w w' u v sealed sound (mine, own) (others, apart) e =
      let (plaintext, w1, zeroth, start) =
        >>=-eq-ok (lift (decrypt_file p.primitives old_dek slug f.file_path f.file_data)) _ w e in
      let (payload, w2, first, rest) =
        >>=-eq-ok (with_entropy (encrypt_file p.primitives new_dek slug f.file_path plaintext)) _ w1
          start in
      let (more, w3, second, last) =
        >>=-eq-ok (reseal_files p old_dek new_dek slug (map plain_file rows)) _ w2 rest in
      let (plain, before, after) =
        open_files-rewrite_files cid rows w2 w3 u v more sound own apart second in
      let written : sealed ≡ (f.id, payload) ∷ more = ground arith in
      let spared = reseal_files-Spares f.id rows w2 w3 more others second in
      let rewritten : rewrite_files cid sealed (f ∷ rows)
          ≡ record f { file_data = payload } ∷ rewrite_files cid more rows =
        ap (λ l. rewrite_files cid l (f ∷ rows)) written
        ∙ rewrite_files-first cid payload more f rows mine others spared in
      (
        (f.id, plaintext) ∷ plain,
        open_files-cons p sound slug old_dek (plain_file f) (map plain_file rows) u plaintext plain
            (ap (λ (o : Result Bytes × World). o.0) zeroth) before,
        ap (λ l. open_files p new_dek slug (map plain_file l) v) rewritten
            ∙ open_files-cons p sound slug new_dek (plain_file (record f { file_data = payload }))
                (map plain_file (rewrite_files cid more rows)) v plaintext plain
                (decrypt_file-with_entropy p sound slug new_dek f.file_path plaintext w1 w2 payload
                  first)
                after,
      )

module _ (p : Platform) (c : Content) where
  -- The files of the entry in these tables decrypt under a key.
  abbrev pub Decrypts : Bytes → Database → World → List (ℕ × Bytes) → Type 0
  Decrypts dek d v plain =
      open_files p dek c.slug (map plain_file (own_files c.id d.files)) v ≡ (ok plain, v)

module _ (p : Platform) (c : Content) (current next : Bytes) where
  listed :
      (w w' : World) (files : List ContentFile)
      → list_content_files c.id w ≡ (ok files, w')
      → (files ≡ map plain_file (own_files c.id w.db.files)) × (w'.db ≡ w.db)
  unfolding list_content_files query
  listed w w' files e = (ground (arith, e), ground (arith, e))

  applied :
      (env : Option Envelope) (changes : List (ℕ × Bytes)) (w w' : World)
      → apply_encryption c.id env changes w ≡ (ok tt, w')
      → (w'.db.files ≡ rewrite_files c.id changes w.db.files)
        × (w'.db.contents ≡ map (set_envelope c.id (enc_columns env) w'.clock) w.db.contents)
  unfolding apply_encryption query
  applied env changes w w' e = (ground (arith, e), ground (arith, e))

  -- Who unwraps an envelope showed a passphrase that is not empty.
  unwrap_dek-of_unwrap :
      (env : Envelope) (dek : Bytes)
      → unwrap p.primitives env next c.slug ≡ ok dek
      → unwrap_dek p (record c { encryption = some env }) next ≡ ok dek
  unfolding unwrap unwrap_dek
  unwrap_dek-of_unwrap env dek e = ground (arith, e)

  -- The loop over the files of an entry, and the write behind it
  rewriting :
      (old_dek new_dek : Bytes) (env : Envelope) (w w1 w2 w' u v : World) (files : List ContentFile)
      (sealed : List (ℕ × Bytes))
      → IsSound p.primitives
      → DistinctFiles w.db.files
      → list_content_files c.id w ≡ (ok files, w1)
      → reseal_files p old_dek new_dek c.slug files w1 ≡ (ok sealed, w2)
      → apply_encryption c.id (some env) sealed w2 ≡ (ok tt, w')
      → (plain : List (ℕ × Bytes)) × Decrypts p c old_dek w.db u plain
        × Decrypts p c new_dek w'.db v plain
        × (w'.db.contents ≡ map (set_envelope c.id (enc_columns (some env)) w'.clock) w.db.contents)
  rewriting old_dek new_dek env w w1 w2 w' u v files sealed sound apart read resealed written =
      let (those, still) = listed w w1 files read in
      let (changed, enveloped) = applied (some env) sealed w2 w' written in
      let same : w2.db ≡ w.db =
        ap (λ (o : Result (List (ℕ × Bytes)) × World). o.1.db) (sym resealed)
        ∙ Keeps-state (Stands w.db) (reseal_files p old_dek new_dek c.slug files)
            (reseal_files-Keeps p (Stands w.db) (λ m. Stands-with_entropy m) old_dek new_dek c.slug
              files)
            w1 still in
      let own = own_files c.id w.db.files in
      let (plain, before, after) =
        open_files-rewrite_files p c.slug old_dek new_dek c.id own w1 w2 u v sealed sound
          (own_files-All c.id w.db.files) (own_files-DistinctFiles c.id w.db.files apart)
          (ap (λ l. reseal_files p old_dek new_dek c.slug l w1) (sym those) ∙ resealed) in
      let stored : own_files c.id w'.db.files ≡ rewrite_files c.id sealed own =
        ap (own_files c.id) (changed ∙ ap (λ d. rewrite_files c.id sealed d.files) same)
        ∙ own_files-rewrite_files c.id sealed w.db.files in
      (
        plain,
        before,
        ap (λ l. open_files p new_dek c.slug (map plain_file l) v) stored ∙ after,
        enveloped
            ∙ ap (λ d. map (set_envelope c.id (enc_columns (some env)) w'.clock) d.contents) same,
      )

  -- What a rotation that ends so has kept
  abbrev Kept : World → World → World → Result (Content × Bytes) × World → Type 0
  Kept w u v (err e, w') = Unit
  Kept w u v (ok (rotated, new_dek), w') =
      (old_dek : Bytes) × (plain : List (ℕ × Bytes)) × (unwrap_dek p c current ≡ ok old_dek)
      × (unwrap_dek p rotated next ≡ ok new_dek)
      × Decrypts p c old_dek w.db u plain
      × Decrypts p c new_dek w'.db v plain
      × (w'.db.contents
          ≡ map (set_envelope c.id (enc_columns rotated.encryption) w'.clock) w.db.contents)

  -- The steps of a rotation keep it.
  keeping :
      (old_dek new_dek : Bytes) (env : Envelope) (w w0 w1 w2 w3 w' u v : World)
      (files : List ContentFile) (sealed : List (ℕ × Bytes))
      → IsSound p.primitives
      → DistinctFiles w.db.files
      → lift (unwrap_dek p c current) w ≡ (ok old_dek, w0)
      → with_entropy (new_envelope p.primitives next c.slug) w0 ≡ (ok (env, new_dek), w1)
      → list_content_files c.id w1 ≡ (ok files, w2)
      → reseal_files p old_dek new_dek c.slug files w2 ≡ (ok sealed, w3)
      → apply_encryption c.id (some env) sealed w3 ≡ (ok tt, w')
      → Kept w u v (ok (record c { encryption = some env }, new_dek), w')
  unfolding with_entropy
  keeping old_dek new_dek env w w0 w1 w2 w3 w' u v files sealed sound apart opened minted read
        resealed written =
      let still : w1.db ≡ w.db =
        ap (λ (o : Result (Envelope × Bytes) × World). o.1.db) (sym minted)
        ∙ ap (λ (o : Result Bytes × World). o.1.db) (sym opened) in
      let made : new_envelope p.primitives next c.slug w0.entropy
          ≡ (ok (env, new_dek), (new_envelope p.primitives next c.slug w0.entropy).1) =
        ap
          (λ (o : Result (Envelope × Bytes) × World).
            (o.0, (new_envelope p.primitives next c.slug w0.entropy).1))
          minted in
      let (plain, before, after, enveloped) =
        rewriting old_dek new_dek env w1 w2 w3 w' u v files sealed sound
          (subst (λ (d : Database). DistinctFiles d.files) (sym still) apart) read resealed
          written in
      (
        old_dek,
        plain,
        ap (λ (o : Result Bytes × World). o.0) opened,
        unwrap_dek-of_unwrap env new_dek
            (unwrap-new_envelope p.primitives sound next c.slug w0.entropy made).0,
        subst (λ d. Decrypts p c old_dek d u plain) still before,
        after,
        enveloped
            ∙ ap
                (λ (d : Database).
                  map (set_envelope c.id (enc_columns (some env)) w'.clock) d.contents)
                still,
      )

  -- With sound primitives, a rotation of an entry's passphrase that succeeds, without an upload that is to
  -- replace the files, in tables where no two files share their identifier, loses nothing: the current passphrase gave the old key, the next one gives
  -- the new key with the envelope that is written to the entry, and the files of the entry that stand in
  -- the tables behind the rotation decrypt under the new key to the very plaintexts that those before it
  -- decrypted to under the old key, each for the same file.
  pub rotate_passphrase-Decrypts :
      (w w' u v : World) (rotated : Content) (new_dek : Bytes)
      → IsSound p.primitives
      → DistinctFiles w.db.files
      → rotate_passphrase p c current next false w ≡ (ok (rotated, new_dek), w')
      → (old_dek : Bytes) × (plain : List (ℕ × Bytes)) × (unwrap_dek p c current ≡ ok old_dek)
        × (unwrap_dek p rotated next ≡ ok new_dek)
        × Decrypts p c old_dek w.db u plain
        × Decrypts p c new_dek w'.db v plain
        × (w'.db.contents
            ≡ map (set_envelope c.id (enc_columns rotated.encryption) w'.clock) w.db.contents)
  unfolding rotate_passphrase
  rotate_passphrase-Decrypts w w' u v rotated new_dek sound apart e =
      let (old_dek, w0, opened, e1) = >>=-eq-ok (lift (unwrap_dek p c current)) _ w e in
      let (made, w1, minted, e2) =
        >>=-eq-ok (with_entropy (new_envelope p.primitives next c.slug)) _ w0 e1 in
      let (sealed, w3, looped, e3) =
        >>=-eq-ok (rewritten_files p c false (reseal_files p old_dek made.1 c.slug)) _ w1 e2 in
      let (files, w2, read, resealed) = >>=-eq-ok (list_content_files c.id) _ w1 looped in
      let (done, w4, written, last) =
        >>=-eq-ok (apply_encryption c.id (some made.0) sealed) _ w3 e3 in
      subst (Kept w u v) last (
        keeping old_dek made.1 made.0 w w0 w1 w2 w3 w4 u v files sealed sound apart opened minted
          read resealed written)
