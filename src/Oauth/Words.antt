-- ===== src/Oauth/Words.antt =====
-- The loop behind strings.Fields: the length of a text is fuel enough for it.
use easy_host_k8s.Prelude.{
  ℕ, zero, suc, ◌≤◌, ◌≡◌, refl, [], ◌∷◌, Bytes, length, arith, ap, Option-cases, inl, inr,
}
use easy_host_k8s.Paths.{white_space, cut_any}
use easy_host_k8s.Paths.Trimming.{cut_any-shorter}
use easy_host_k8s.Oauth.{add_word, fields_from}

-- More fuel than the length of a text changes nothing.
fields_from-enough :
    (n m : ℕ) (word s : Bytes)
    → length s ≤ n
    → length s ≤ m
    → fields_from n word s ≡ fields_from m word s
unfolding fields_from
fields_from-enough zero zero word s a b = refl
fields_from-enough zero (suc m) word [] a b = refl
fields_from-enough zero (suc m) word (c ∷ s) a b = absurd (omega (arith, a))
fields_from-enough (suc n) zero word [] a b = refl
fields_from-enough (suc n) zero word (c ∷ s) a b = absurd (omega (arith, b))
fields_from-enough (suc n) (suc m) word [] a b = refl
fields_from-enough (suc n) (suc m) word (c ∷ s) a b =
    elim (Option-cases (cut_any white_space (c ∷ s))) [
      | inl in_word ↦
          rw (fields_from, in_word)
            (fields_from-enough n m (c ∷ word) s (omega (arith, a)) (omega (arith, b)))
      | inr (rest, cut) ↦
          let shorter = cut_any-shorter white_space (c ∷ s) rest refl cut in
          rw (fields_from, cut)
            (ap (add_word word) (
              fields_from-enough n m [] rest (omega (arith, shorter, a))
                (omega (arith, shorter, b))))
    ]
