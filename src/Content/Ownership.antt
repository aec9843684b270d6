-- ===== src/Content/Ownership.antt =====
-- contentBySlug and ownedContent: what they return, and that they change no table.
use easy_host_k8s.Prelude.{
  ◌≡◌, Bytes, bytes_eq, bytes_eq_iff, ok, Keeps, Keeps-bind, Keeps-of_state, Keeps-state, Triple-if,
  Keeps-return, Keeps-fail, arith,
}
use easy_host_k8s.Model.{Content}
use easy_host_k8s.World.{World, Database, query}
use easy_host_k8s.Store.Queries.{find_slug, get_content_by_slug, scan_found}
use easy_host_k8s.Store.Reads.{Stands, Stands-get_content_by_slug}
use easy_host_k8s.Content.{Platform, content_by_slug, owned_content}

module _ (p : Platform) where
  pub Stands-content_by_slug :
      {d : Database} (slug : Bytes) → Keeps (Stands d) (content_by_slug p slug)
  unfolding content_by_slug
  Stands-content_by_slug {d} slug = Keeps-of_state (Stands d) (content_by_slug p slug) (λ w h.
      Keeps-state (Stands d) (get_content_by_slug p.collate slug)
        (Stands-get_content_by_slug p.collate slug) w h)

  pub Stands-owned_content :
      {d : Database} (slug owner : Bytes) → Keeps (Stands d) (owned_content p slug owner)
  unfolding owned_content
  Stands-owned_content slug owner =
      Keeps-bind _ _ (Stands-content_by_slug slug)
        (λ c. Triple-if (bytes_eq c.owner owner) _ _ (λ _. Keeps-return c) (λ _. Keeps-fail _))

  -- The entry behind a slug is read from its row.
  pub content_by_slug-eq-ok :
      (slug : Bytes) (w w' : World) (c : Content)
      → content_by_slug p slug w ≡ (ok c, w')
      → scan_found (find_slug p.collate slug w.db.contents) ≡ ok c
  unfolding content_by_slug get_content_by_slug query
  content_by_slug-eq-ok slug w w' c h = ground arith

  pub owned_content-eq-ok :
      (slug owner : Bytes) (w w' : World) (c : Content)
      → owned_content p slug owner w ≡ (ok c, w')
      → (scan_found (find_slug p.collate slug w.db.contents) ≡ ok c)
        × (c.owner ≡ owner)
        × (w'.db ≡ w.db)
  unfolding owned_content content_by_slug get_content_by_slug query
  owned_content-eq-ok slug owner w w' c h = ground (arith, bytes_eq_iff c.owner owner)
