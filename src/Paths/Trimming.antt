-- ===== src/Paths/Trimming.antt =====
-- The loops that cut white space: the length of a text is fuel enough for them.
use easy_host_k8s.Prelude.{
  ℕ, zero, suc, ◌≤◌, ◌<◌, ◌≡◌, false, none, some, List, [], ◌∷◌, Bytes, length, any, is_empty,
  arith, Option-cases, inl, inr,
}
use easy_host_k8s.Paths.{cut_prefix, cut_any, trim_from}

cut_prefix-shorter : (pre s rest : Bytes) → cut_prefix pre s ≡ some rest → length rest ≤ length s
unfolding cut_prefix
cut_prefix-shorter [] s rest h = ground (arith, h)
cut_prefix-shorter (p ∷ pre) [] rest h = absurd cc
cut_prefix-shorter (p ∷ pre) (c ∷ s) rest h = ground (arith, cut_prefix-shorter pre s rest, h)

cut_prefix-cons :
    (p : ℕ) (pre s rest : Bytes) → cut_prefix (p ∷ pre) s ≡ some rest → length rest < length s
unfolding cut_prefix
cut_prefix-cons p pre [] rest h = absurd cc
cut_prefix-cons p pre (c ∷ s) rest h = ground (arith, cut_prefix-shorter pre s rest, h)

-- Cutting white space takes a byte at least.
pub cut_any-shorter :
    (spaces : List Bytes) (s rest : Bytes)
    → any is_empty spaces ≡ false
    → cut_any spaces s ≡ some rest
    → length rest < length s
unfolding cut_any
cut_any-shorter [] s rest filled h = absurd cc
cut_any-shorter ([] ∷ more) s rest filled h = absurd cc
cut_any-shorter ((p ∷ pre) ∷ more) s rest filled h =
    ground (arith, cut_any-shorter more s rest, cut_prefix-cons p pre s rest, filled, h)

-- A text that was trimmed with its length as fuel has no white space left to cut.
pub cut_any-trim_from :
    (spaces : List Bytes) (fuel : ℕ) (s : Bytes)
    → any is_empty spaces ≡ false
    → length s ≤ fuel
    → cut_any spaces (trim_from fuel spaces s) ≡ none
unfolding trim_from
cut_any-trim_from spaces zero s filled enough = elim (Option-cases (cut_any spaces s)) [
  | inl none_left ↦ none_left
  | inr (rest, cut) ↦
      let shorter = cut_any-shorter spaces s rest filled cut in
      absurd (omega (arith, shorter, enough))
]
cut_any-trim_from spaces (suc fuel) s filled enough = elim (Option-cases (cut_any spaces s)) [
  | inl none_left ↦ rw (trim_from, none_left) none_left
  | inr (rest, cut) ↦
      let shorter = cut_any-shorter spaces s rest filled cut in
      rw (trim_from, cut)
        (cut_any-trim_from spaces fuel rest filled (omega (arith, shorter, enough)))
]
