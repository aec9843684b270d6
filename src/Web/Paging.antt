-- ===== src/Web/Paging.antt =====
-- The numbers on the dashboard.
use easy_host_k8s.Prelude.{
  ℕ, ◌-◌, ◌*◌, ◌≤◌, ◌<◌, ◌≡◌, refl, ◌⊎◌, inl, inr, Option, none, some, List, Result, ok, err, arith,
}
use easy_host_k8s.Model.{ContentResponse}
use easy_host_k8s.World.{World}
use easy_host_k8s.Auth.{User}
use easy_host_k8s.Http.{HttpRequest, value}
use easy_host_k8s.Web.{
  WebHandler, DashboardPage, dashboard_view, page_size_of, page_of, total_pages_of, clamp_page,
  get_flash,
}
use easy_host_k8s.Web.Pages.{dashboard, draw_dashboard}

abbrev pub IsPageSize : ℕ → Type 0
IsPageSize n = (n ≡ 10) ⊎ ((n ≡ 25) ⊎ ((n ≡ 50) ⊎ (n ≡ 100)))

-- The numbers fit: the page exists, the pages have room for every entry, and none of them is beyond the
-- last entry.
pub record IsPaged (d : DashboardPage) : Type 0 where
  pub sized : IsPageSize d.page_size
  pub first : 1 ≤ d.page
  pub last : d.page ≤ d.total_pages
  pub room : d.count ≤ d.total_pages * d.page_size
  pub tight : (d.total_pages ≡ 1) ⊎ ((d.total_pages - 1) * d.page_size < d.count)

page_size_of-IsPageSize : (o : Option ℕ) → IsPageSize (page_size_of o)
unfolding page_size_of
page_size_of-IsPageSize none = inl refl
page_size_of-IsPageSize (some n) = ground arith

page_of-pos : (o : Option ℕ) → 1 ≤ page_of o
unfolding page_of
page_of-pos none = omega arith
page_of-pos (some n) = ground arith

pub total_pages_of-room :
    (total size : ℕ) → IsPageSize size → total ≤ total_pages_of total size * size
unfolding total_pages_of
total_pages_of-room total size (inl e) = rw e (ground arith)
total_pages_of-room total size (inr (inl e)) = rw e (ground arith)
total_pages_of-room total size (inr (inr (inl e))) = rw e (ground arith)
total_pages_of-room total size (inr (inr (inr e))) = rw e (ground arith)

pub total_pages_of-tight :
    (total size : ℕ)
    → IsPageSize size
    → (total_pages_of total size ≡ 1) ⊎ ((total_pages_of total size - 1) * size < total)
unfolding total_pages_of
total_pages_of-tight total size (inl e) = rw e (ground arith)
total_pages_of-tight total size (inr (inl e)) = rw e (ground arith)
total_pages_of-tight total size (inr (inr (inl e))) = rw e (ground arith)
total_pages_of-tight total size (inr (inr (inr e))) = rw e (ground arith)

total_pages_of-pos : (total size : ℕ) → 1 ≤ total_pages_of total size
unfolding total_pages_of
total_pages_of-pos total size = ground arith

clamp_page-bounds :
    (page pages : ℕ)
    → 1 ≤ page
    → 1 ≤ pages
    → (1 ≤ clamp_page page pages) × (clamp_page page pages ≤ pages)
unfolding clamp_page
clamp_page-bounds page pages h h' = (ground arith, ground arith)

module _ (h : WebHandler) (user : User) (r : HttpRequest) where
  draw_dashboard-IsPaged :
      (size page : ℕ) (listed : Result (List ContentResponse × ℕ)) (d : DashboardPage)
      → IsPageSize size
      → 1 ≤ page
      → (draw_dashboard h user r size page listed).body ≡ value (dashboard_view d)
      → IsPaged d
  unfolding get_flash
  draw_dashboard-IsPaged size page (err e) d sized pos shown = absurd cc
  draw_dashboard-IsPaged size page (ok (items, total)) d sized pos shown =
      let bounds =
        clamp_page-bounds page (total_pages_of total size) pos (total_pages_of-pos total size) in
      record {
        sized = ground (arith, sized, shown);
        first = ground (arith, bounds, shown);
        last = ground (arith, bounds, shown);
        room = ground (arith, total_pages_of-room total size sized, shown);
        tight = ground (arith, total_pages_of-tight total size sized, shown);
      }

  -- Whenever the dashboard is drawn, whatever size and page the request asks for, the size is one of the
  -- four sizes on offer, the page that is shown is one of the pages, the pages have room for every
  -- entry, and no page but the first lies beyond the last entry.
  pub dashboard-IsPaged :
      (w : World) (d : DashboardPage)
      → (dashboard h user r w).0.body ≡ value (dashboard_view d)
      → IsPaged d
  unfolding dashboard
  dashboard-IsPaged w d shown =
      draw_dashboard-IsPaged _ _ _ d (page_size_of-IsPageSize _) (page_of-pos _) shown
