-- ===== src/Examples/Browsing.antt =====
-- Ann leafs through her entries: twelve fill a page of ten and begin another.
use easy_host_k8s.Prelude.{ℕ, zero, suc, List, [], ◌∷◌, ◌++◌, map, Bytes, codes, Result, ok, err}
use easy_host_k8s.Model.{Content}
use easy_host_k8s.World.{World, ContentRow}
use easy_host_k8s.Store.{scan_contents, order_by_time}
use easy_host_k8s.Store.Queries.{owned_rows}
use easy_host_k8s.Http.{HttpRequest}
use easy_host_k8s.Examples.Content.{platform, world, row}
use easy_host_k8s.Examples.Requests.{request}

abbrev rows : List ContentRow
rows =
    map (λ n. record row { id = n; slug = codes "docs-" ++ n ∷ []; updated_at = n })
      (1 ∷ 2 ∷ 3 ∷ 4 ∷ 5 ∷ 6 ∷ 7 ∷ 8 ∷ 9 ∷ 10 ∷ 11 ∷ 12 ∷ [])

abbrev twelve : World
twelve = record world { db = record world.db { contents = rows; next_content_id = 13 } }

abbrev entries_in : Result (List Content) → List Content
entries_in (ok entries) = entries
entries_in (err e) = []

abbrev all : List Content
all =
    entries_in
      (scan_contents (order_by_time (owned_rows platform.collate (codes "ann") twelve.db.contents)))

abbrev numeral : ℕ → Bytes
numeral zero = codes "0"
numeral (suc zero) = codes "1"
numeral (suc (suc n)) = codes "2"

abbrev ask : ℕ → HttpRequest
ask n = record request { query = (codes "size", codes "10") ∷ (codes "page", numeral n) ∷ [] }
