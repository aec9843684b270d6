-- ===== src/Web/Browsing.antt =====
-- Leafing through the dashboard: the windows of its pages on the list of entries.
use easy_host_k8s.Prelude.{
  ℕ, zero, suc, ◌+◌, ◌-◌, ◌*◌, ◌^◌, ◌≤◌, ◌<◌, ◌≡◌, refl, ap, ◌∙◌, sym, inl, inr, List, [], ◌∷◌,
  ◌++◌, length, take, drop, arith,
}
use easy_host_k8s.Web.{offset_of, total_pages_of}
use easy_host_k8s.Web.Paging.{IsPageSize, total_pages_of-room}

module _ {A : Type 0} (size : ℕ) (xs : List A) where
  -- The entries on a page, by LIMIT and OFFSET
  abbrev pub window : ℕ → List A
  window page = take size (drop (offset_of page size) xs)

  -- The entries on the first pages, one page after the other
  abbrev pub leafed : ℕ → List A
  leafed zero = []
  leafed (suc n) = leafed n ++ window (suc n)

take-nil : {A : Type 0} (n : ℕ) → take {A = A} n [] ≡ []
take-nil zero = refl
take-nil (suc n) = refl

take-add : {A : Type 0} (m n : ℕ) (xs : List A) → take m xs ++ take n (drop m xs) ≡ take (m + n) xs
take-add zero n xs = let e : n ≡ 0 + n = omega arith in ap (λ k. take k xs) e
take-add (suc m) n [] = take-nil n ∙ sym (take-nil (suc m + n))
take-add (suc m) n (x ∷ xs) =
    let e : suc (m + n) ≡ suc m + n = omega arith in
    ap (λ l. x ∷ l) (take-add m n xs) ∙ ap (λ k. take k (x ∷ xs)) e

take-all : {A : Type 0} (n : ℕ) (xs : List A) → length xs ≤ n → take n xs ≡ xs
take-all zero [] h = refl
take-all zero (x ∷ xs) h = absurd (omega arith)
take-all (suc n) [] h = refl
take-all (suc n) (x ∷ xs) h = ap (λ l. x ∷ l) (take-all n xs (omega arith))

offset_of-small : (n size : ℕ) → n * size < 2 ^ 64 → offset_of (suc n) size ≡ n * size
unfolding offset_of
offset_of-small n size h =
    let e : suc n - 1 ≡ n = omega arith in
    rw e (let small : n * size < 18446744073709551616 = h in omega (arith, small))

module _ {A : Type 0} (size : ℕ) (xs : List A) where
  leafed-take : (n : ℕ) → n * size < 2 ^ 64 → leafed size xs n ≡ take (n * size) xs
  leafed-take zero h = let e : 0 ≡ 0 * size = omega arith in ap (λ k. take k xs) e
  leafed-take (suc n) h =
      let grows : suc n * size ≡ n * size + size = omega arith in
      let small : n * size < 2 ^ 64 = omega (arith, grows, h) in
      rw (leafed-take n small, offset_of-small n size small, grows) (take-add (n * size) size xs)

room-small :
    (total size : ℕ) → IsPageSize size → total < 2 ^ 63 → total_pages_of total size * size < 2 ^ 64
unfolding total_pages_of
room-small total size (inl e) h = rw e (ground (arith, h))
room-small total size (inr (inl e)) h = rw e (ground (arith, h))
room-small total size (inr (inr (inl e))) h = rw e (ground (arith, h))
room-small total size (inr (inr (inr e))) h = rw e (ground (arith, h))

-- The windows of the pages from the first to the last, one after the other, in one of the sizes on offer,
-- are the list of fewer than 2 ^ 63 entries.
pub leafed-total_pages_of :
    {A : Type 0} (size : ℕ) (xs : List A)
    → IsPageSize size
    → length xs < 2 ^ 63
    → leafed size xs (total_pages_of (length xs) size) ≡ xs
leafed-total_pages_of size xs sized few =
    leafed-take size xs (total_pages_of (length xs) size) (room-small (length xs) size sized few)
    ∙ take-all (total_pages_of (length xs) size * size) xs
        (total_pages_of-room (length xs) size sized)
