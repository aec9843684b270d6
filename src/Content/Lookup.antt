-- ===== src/Content/Lookup.antt =====
-- Create and Get: an entry that was made is found by its owner, as it was returned, and by nobody else.
use easy_host_k8s.Prelude.{
  ℕ, ◌+◌, ◌≡◌, refl, ◌≢◌, ap, ◌∙◌, sym, subst, Bool, false, true, Option, none, some, List, [], ◌∷◌,
  ◌++◌, map, Bytes, bytes_eq, bytes_eq_refl, bytes_eq_iff, is_empty, is_empty-of_pos, Result, ok,
  err, >>=-eq-ok, arith, Bool-cases, inl, inr, Keeps, Keeps-state, Keeps-of_state, not_found,
  if◌then◌else◌, Action, ◌>>=◌, ◌>>◌, fail, Error,
}
use easy_host_k8s.Params.{params_string}
use easy_host_k8s.Crypto.{Envelope, new_envelope}
use easy_host_k8s.Crypto.Envelopes.{new_envelope-IsWrapping}
use easy_host_k8s.Model.{Content, ContentResponse, to_response}
use easy_host_k8s.World.{World, Database, ContentRow, query, with_entropy}
use easy_host_k8s.Store.{scan_content, row_of, enc_columns}
use easy_host_k8s.Store.Queries.{
  find_slug, text_eq, scan_found, slug_exists, create_content, create_content_file, list_file_paths,
  get_content_by_slug, is_missing, own_files, delete_content,
}
use easy_host_k8s.Paths.{slug_matches}
use easy_host_k8s.Content.{Platform, CreateParams, store_files, content_by_slug, owned_content}
use easy_host_k8s.Content.Local.{store_files-Keeps}
use easy_host_k8s.Content.Service.{
  create, get, draft, fresh_envelope, respond, or_clean_up, clean_up,
}

-- An envelope that the columns of a row can hold
abbrev IsStorable : Option Envelope → Type 0
IsStorable none = Unit
IsStorable (some env) =
    (is_empty env.kdf ≡ false) × (is_empty env.salt ≡ false) × (is_empty env.wrapped_key ≡ false)

scan_content-row_of : (c : Content) → IsStorable c.encryption → scan_content (row_of c) ≡ ok c
unfolding scan_content row_of enc_columns
scan_content-row_of c h = reads c.encryption refl h
  where
    reads : (o : Option Envelope) → c.encryption ≡ o → IsStorable o → scan_content (row_of c) ≡ ok c
    reads none e h = ground (arith, e)
    reads (some env) e (k, s, x) = ground (arith, e, k, s, x)

module _ (collate : Bytes → Bytes) where
  find_slug-append :
      (slug : Bytes) (rows : List ContentRow) (r : ContentRow)
      → is_missing (find_slug collate slug rows) ≡ true
      → text_eq collate r.slug slug ≡ true
      → find_slug collate slug (rows ++ r ∷ []) ≡ some r
  find_slug-append slug [] r h e = ground (arith, e)
  find_slug-append slug (s ∷ rows) r h e = ground (arith, h, e, find_slug-append slug rows r)

  -- What an insertion that succeeds has done
  inserted :
      (d : Content) (w w' : World) (c : Content)
      → create_content collate d w ≡ (ok c, w')
      → (is_missing (find_slug collate d.slug w.db.contents) ≡ true)
        × (w'.db.contents ≡ w.db.contents ++ row_of c ∷ [])
        × (w'.fails ≡ w.fails)
        × (c.slug ≡ d.slug)
        × (c.owner ≡ d.owner)
        × (c.encryption ≡ d.encryption)
  unfolding create_content query
  inserted d w w' c e = (
    ground (arith, e),
    ground (arith, e),
    ground (arith, e),
    ground (arith, e),
    ground (arith, e),
    ground (arith, e),
  )

-- The entries stand as they are, and the same calls fail.
abbrev Stays : List ContentRow → (ℕ → Bool) → World → Type 0
Stays rows fails w = (w.db.contents ≡ rows) × (w.fails ≡ fails)

module _ (p : Platform) (rows : List ContentRow) (fails : ℕ → Bool) where
  store_files-Stays :
      (c : Content) (payload name dek : Bytes)
      → Keeps (Stays rows fails) (store_files p c payload name dek)
  unfolding create_content_file query with_entropy
  store_files-Stays c =
      store_files-Keeps p (Stays rows fails) c
        (λ m. Keeps-of_state (Stays rows fails) (with_entropy m) (λ w h. h))
        (λ f _.
          Keeps-of_state (Stays rows fails) (create_content_file f) (λ w h. ground (arith, h)))

module _ (p : Platform) where
  open p use {collate}

  fresh_envelope-IsStorable :
      (passphrase slug : Bytes) (w w' : World) (o : Option Envelope) (dek : Bytes)
      → fresh_envelope p passphrase slug w ≡ (ok (o, dek), w')
      → IsStorable o × (w'.db ≡ w.db) × (w'.fails ≡ w.fails)
  unfolding with_entropy params_string
  fresh_envelope-IsStorable passphrase slug w w' o dek e = elim (Bool-cases (is_empty passphrase)) [
    | inl nothing ↦
        let plain : o ≡ none = ground (arith, nothing, e) in
        (subst IsStorable (sym plain) tt, ground (arith, nothing, e), ground (arith, nothing, e))
    | inr given ↦
        let (made, w1, minted, last) =
          >>=-eq-ok (with_entropy (new_envelope p.primitives passphrase slug)) _ w
            (rw given at e) in
        let sealed : some made.0 ≡ o = ground (arith, last) in
        let drawn : new_envelope p.primitives passphrase slug w.entropy
            ≡ (ok (made.0, made.1), (new_envelope p.primitives passphrase slug w.entropy).1) =
          ap
            (λ (r : Result (Envelope × Bytes) × World).
              (r.0, (new_envelope p.primitives passphrase slug w.entropy).1))
            minted in
        let wrapping = new_envelope-IsWrapping p.primitives passphrase slug w.entropy drawn in
        (
          subst IsStorable sealed (
            ap is_empty wrapping.kdf,
            is_empty-of_pos made.0.salt (omega (arith, wrapping.salted)),
            wrapping.wrapped,
          ),
          ground (arith, minted, last),
          ground (arith, minted, last),
        )
  ]

  -- An entry stands at a slug, an owner's, and reads as it was shown.
  pub record Found (slug owner : Bytes) (a : ContentResponse) (w : World) : Type 0 where
    pub entry : Content
    pub read : scan_found (find_slug collate slug w.db.contents) ≡ ok entry
    pub owned : entry.owner ≡ owner
    pub shown : a ≡ to_response entry (map (λ f. f.file_path) (own_files entry.id w.db.files))
    pub never : (n : ℕ) → w.fails n ≡ false

  or_clean_up-ok :
      (r : Result (Unit {0})) (k : Action World (Unit {0})) (w w' : World)
      → clean_up r k w ≡ (ok tt, w')
      → w ≡ w'
  or_clean_up-ok (ok u) k w w' e = ap (λ (o : Result (Unit {0}) × World). o.1) e
  or_clean_up-ok (err x) k w w' e = absurd cc

  responded :
      (entry : Content) (a : ContentResponse) (w w' : World)
      → ((n : ℕ) → w.fails n ≡ false)
      → respond p entry w ≡ (ok a, w')
      → (w'.db ≡ w.db)
        × (w'.fails ≡ w.fails)
        × (a ≡ to_response entry (map (λ f. f.file_path) (own_files entry.id w.db.files)))
  unfolding list_file_paths query
  responded entry a w w' never e =
      (ground (arith, e), ground (arith, e), ground (arith, e, never w.calls))

  finding :
      (c : CreateParams) (w w1 w2 w3 w4 w' : World) (exists : Bool) (o : Option Envelope)
      (dek : Bytes) (created : Content) (a : ContentResponse)
      → ((n : ℕ) → w.fails n ≡ false)
      → slug_exists collate c.slug w ≡ (ok exists, w1)
      → fresh_envelope p c.passphrase c.slug w1 ≡ (ok (o, dek), w2)
      → create_content collate (draft c o) w2 ≡ (ok created, w3)
      → or_clean_up
          (store_files p created c.file_data c.file_name dek)
          (delete_content created.id)
          w3
        ≡ (ok tt, w4)
      → respond p created w4 ≡ (ok a, w')
      → Found c.slug c.owner a w'
  unfolding slug_exists query draft row_of
  finding c w w1 w2 w3 w4 w' exists o dek created a never looked protected made stored answered =
      let f1 : w1.fails ≡ w.fails = ground (arith, looked) in
      let (storable, d2, f2) =
        fresh_envelope-IsStorable c.passphrase c.slug w1 w2 o dek protected in
      let (free, added, f3, slugged, owned, enveloped) =
        inserted collate (draft c o) w2 w3 created made in
      let store = store_files p created c.file_data c.file_name dek in
      let stays =
        Keeps-state (Stays w3.db.contents w3.fails) store
          (store_files-Stays p w3.db.contents w3.fails created c.file_data c.file_name dek) w3
          (refl, refl) in
      let end : (store w3).1 ≡ w4 =
        or_clean_up-ok (store w3).0 (delete_content created.id) (store w3).1 w4 stored in
      let f4 : w4.fails ≡ w.fails =
        ap (λ (v : World). v.fails) (sym end) ∙ stays.1 ∙ f3 ∙ f2 ∙ f1 in
      let (d5, f5, shown) =
        responded created a w4 w' (λ n. ap (λ (g : ℕ → Bool). g n) f4 ∙ never n) answered in
      let contents : w'.db.contents ≡ w2.db.contents ++ row_of created ∷ [] =
        ap (λ (d : Database). d.contents) d5
        ∙ ap (λ (v : World). v.db.contents) (sym end)
        ∙ stays.0
        ∙ added in
      record {
        entry = created;
        read =
            ap (λ l. scan_found (find_slug collate c.slug l)) contents
            ∙ ap scan_found (
                find_slug-append collate c.slug w2.db.contents (row_of created) free
                  (ap (λ s. text_eq collate s c.slug) slugged ∙ bytes_eq_refl (collate c.slug)))
            ∙ scan_content-row_of created (subst IsStorable (sym enveloped) storable);
        owned = owned;
        shown =
            shown
            ∙ ap
                (λ (d : Database).
                  to_response created (map (λ f. f.file_path) (own_files created.id d.files)))
                (sym d5);
        never = λ n. ap (λ (g : ℕ → Bool). g n) (f5 ∙ f4) ∙ never n;
      }

  -- Create behind its checks: storing the entry, and before it making its envelope
  abbrev storing : CreateParams → Option Envelope × Bytes → Action World ContentResponse
  storing c protection = do
    created ← create_content collate (draft c protection.0)
    or_clean_up (store_files p created c.file_data c.file_name protection.1)
        (delete_content created.id)
    respond p created

  storing-Found :
      (c : CreateParams) (w w1 w2 w' : World) (exists : Bool) (protection : Option Envelope × Bytes)
      (a : ContentResponse)
      → ((n : ℕ) → w.fails n ≡ false)
      → slug_exists collate c.slug w ≡ (ok exists, w1)
      → fresh_envelope p c.passphrase c.slug w1 ≡ (ok protection, w2)
      → storing c protection w2 ≡ (ok a, w')
      → Found c.slug c.owner a w'
  storing-Found c w w1 w2 w' exists protection a never looked protected e =
      let (created, w3, made, e3) =
        >>=-eq-ok (create_content collate (draft c protection.0))
          (λ created.
            or_clean_up (store_files p created c.file_data c.file_name protection.1)
              (delete_content created.id)
            >> respond p created)
          w2 e in
      let (done, w4, stored, answered) =
        >>=-eq-ok
          (or_clean_up (store_files p created c.file_data c.file_name protection.1)
            (delete_content created.id))
          (λ _. respond p created) w3 e3 in
      finding c w w1 w2 w3 w4 w' exists protection.0 protection.1 created a never looked protected
        made stored answered

  making-Found :
      (c : CreateParams) (w w1 w' : World) (exists : Bool) (a : ContentResponse)
      → ((n : ℕ) → w.fails n ≡ false)
      → slug_exists collate c.slug w ≡ (ok exists, w1)
      → (fresh_envelope p c.passphrase c.slug >>= storing c) w1 ≡ (ok a, w')
      → Found c.slug c.owner a w'
  making-Found c w w1 w' exists a never looked e =
      let (protection, w2, protected, rest) =
        >>=-eq-ok (fresh_envelope p c.passphrase c.slug) (storing c) w1 e in
      storing-Found c w w1 w2 w' exists protection a never looked protected rest

  unless_taken-Found :
      (c : CreateParams) (w w1 w' : World) (exists : Bool) (a : ContentResponse)
      → ((n : ℕ) → w.fails n ≡ false)
      → slug_exists collate c.slug w ≡ (ok exists, w1)
      → (if exists
            then fail Error.slug_exists
            else fresh_envelope p c.passphrase c.slug >>= storing c)
          w1
        ≡ (ok a, w')
      → Found c.slug c.owner a w'
  unless_taken-Found c w w1 w' true a never looked e = absurd cc
  unless_taken-Found c w w1 w' false a never looked e =
      making-Found c w w1 w' false a never looked e

  -- What Create returned is found.
  pub create-Found :
      (c : CreateParams) (w w' : World) (a : ContentResponse)
      → ((n : ℕ) → w.fails n ≡ false)
      → create p c w ≡ (ok a, w')
      → Found c.slug c.owner a w'
  unfolding create
  create-Found c w w' a never e = elim (Bool-cases (slug_matches c.slug)) [
    | inr invalid ↦ absurd (let bad = rw invalid at e in cc)
    | inl valid ↦
        let (exists, w1, looked, rest) =
          >>=-eq-ok (slug_exists collate c.slug)
            (λ exists.
              if exists
              then fail Error.slug_exists
              else fresh_envelope p c.passphrase c.slug >>= storing c)
            w (rw valid at e) in
        unless_taken-Found c w w1 w' exists a never looked rest
  ]

  -- What an owner is shown of an entry that is there, and what others are told
  pub get-Found :
      (slug owner : Bytes) (a : ContentResponse) (w : World)
      → Found slug owner a w
      → (get p slug owner w).0 ≡ ok a
  unfolding get owned_content content_by_slug get_content_by_slug list_file_paths query
  get-Found slug owner a w f =
      let owner_is : bytes_eq f.entry.owner owner ≡ true =
        ap (λ s. bytes_eq s owner) f.owned ∙ bytes_eq_refl owner in
      rw (f.never w.calls, f.read, owner_is, f.never (w.calls + 1)) (ap ok (sym f.shown))

  pub get-Found_other :
      (slug owner other : Bytes) (a : ContentResponse) (w : World)
      → other ≢ owner
      → Found slug owner a w
      → (get p slug other w).0 ≡ err not_found
  unfolding get owned_content content_by_slug get_content_by_slug query
  get-Found_other slug owner other a w ne f =
      let owner_is : bytes_eq f.entry.owner other ≡ false =
        ground (arith, bytes_eq_iff f.entry.owner other, f.owned, ne) in
      rw (f.never w.calls, f.read, owner_is) refl
