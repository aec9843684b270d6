-- ===== src/Store/Listing.antt =====
-- ListContentByOwner: a page of a listing is a part of the whole one.
use easy_host_k8s.Prelude.{
  ℕ, zero, suc, ◌+◌, false, ◌≡◌, refl, ap, ◌∙◌, List, [], ◌∷◌, Bytes, take, drop, length, Result,
  ok, err, arith,
}
use easy_host_k8s.Model.{Content}
use easy_host_k8s.World.{World, ContentRow, query}
use easy_host_k8s.Store.{scan_content, scan_contents, both, insert_by_time, order_by_time}
use easy_host_k8s.Store.Queries.{owned_rows, list_content_by_owner}

both-eq-ok :
    (a : Result Content) (b : Result (List Content)) (cs : List Content)
    → both a b ≡ ok cs
    → (c : Content) × (more : List Content) × (a ≡ ok c) × (b ≡ ok more) × (cs ≡ c ∷ more)
both-eq-ok (err e) b cs h = absurd cc
both-eq-ok (ok c) (err e) cs h = absurd cc
both-eq-ok (ok c) (ok more) cs h = (c, more, refl, refl, cc)

pub scan_contents-take :
    (n : ℕ) (rows : List ContentRow) (cs : List Content)
    → scan_contents rows ≡ ok cs
    → scan_contents (take n rows) ≡ ok (take n cs)
unfolding scan_contents
scan_contents-take zero rows cs h = refl
scan_contents-take (suc n) [] cs h = (let e : cs ≡ [] = cc in rw e refl)
scan_contents-take (suc n) (r ∷ rows) cs h =
    let (c, more, one, rest, all) = both-eq-ok (scan_content r) (scan_contents rows) cs h in
    rw (one, scan_contents-take n rows more rest, all) refl

pub scan_contents-drop :
    (n : ℕ) (rows : List ContentRow) (cs : List Content)
    → scan_contents rows ≡ ok cs
    → scan_contents (drop n rows) ≡ ok (drop n cs)
unfolding scan_contents
scan_contents-drop zero rows cs h = h
scan_contents-drop (suc n) [] cs h = (let e : cs ≡ [] = cc in rw e refl)
scan_contents-drop (suc n) (r ∷ rows) cs h =
    let (c, more, one, rest, all) = both-eq-ok (scan_content r) (scan_contents rows) cs h in
    rw all (scan_contents-drop n rows more rest)

length-scan_contents :
    (rows : List ContentRow) (cs : List Content)
    → scan_contents rows ≡ ok cs
    → length cs ≡ length rows
unfolding scan_contents
length-scan_contents [] cs h = (let e : cs ≡ [] = cc in rw e refl)
length-scan_contents (r ∷ rows) cs h =
    let (c, more, one, rest, all) = both-eq-ok (scan_content r) (scan_contents rows) cs h in
    rw all (ap suc (length-scan_contents rows more rest))

length-insert_by_time :
    (r : ContentRow) (rows : List ContentRow) → length (insert_by_time r rows) ≡ suc (length rows)
unfolding insert_by_time
length-insert_by_time r [] = refl
length-insert_by_time r (s ∷ rows) = ground (arith, length-insert_by_time r rows)

length-order_by_time : (rows : List ContentRow) → length (order_by_time rows) ≡ length rows
unfolding order_by_time
length-order_by_time [] = refl
length-order_by_time (r ∷ rows) =
    length-insert_by_time r (order_by_time rows) ∙ ap suc (length-order_by_time rows)

module _ (collate : Bytes → Bytes) (owner : Bytes) (w : World) (all : List Content)
    (readable : scan_contents (order_by_time (owned_rows collate owner w.db.contents)) ≡ ok all)
    (never : (n : ℕ) → w.fails n ≡ false) where
  -- The entries of an owner in their order, cut at an offset and a limit, and their number
  pub list_content_by_owner-eq :
      (limit offset : ℕ)
      → list_content_by_owner collate owner limit offset w
        ≡ (ok (take limit (drop offset all), length all), record w { calls = w.calls + 2 })
  unfolding list_content_by_owner query
  list_content_by_owner-eq limit offset =
      let rows = order_by_time (owned_rows collate owner w.db.contents) in
      let page =
        scan_contents-take limit (drop offset rows) (drop offset all)
          (scan_contents-drop offset rows all readable) in
      let count =
        length-scan_contents rows all readable
        ∙ length-order_by_time (owned_rows collate owner w.db.contents) in
      let step : w.calls + 1 + 1 ≡ w.calls + 2 = omega arith in
      rw (never w.calls, never (w.calls + 1), page, count, step) refl
