-- ===== src/Content/Extraction.antt =====
-- Where extractZip puts the entries of an archive.
use mathlib.Core.List.{reverse_aux}
use easy_host_k8s.Prelude.{
  ℕ, ◌==◌, ◌≡◌, refl, ◌⊎◌, inl, inr, ap, sym, subst, ◌∙◌, Bool, false, not, List, [], ◌∷◌, Bytes,
  codes, bytes_eq, has_prefix, is_empty, any, filter, All, if◌then◌else◌, arith, Bool-cases,
}
use easy_host_k8s.Paths.{
  split, cons_head, is_hidden, clean_step, clean_parts, join, or_dot, clean, normalize_file_path,
}
use easy_host_k8s.Content.{Platform, ZipEntry, is_skipped}

-- No byte of a text is a slash.
abbrev pub IsElement : Bytes → Type 0
IsElement part = any (λ c. c == b'/') part ≡ false

-- An element of a path that is a name: not empty, without a slash, and not starting with a dot
abbrev pub IsName : Bytes → Type 0
IsName part = (is_empty part ≡ false) × IsElement part × (has_prefix part (codes ".") ≡ false)

cons_head-IsElement :
    (c : ℕ) (parts : List Bytes)
    → (c == b'/') ≡ false
    → All IsElement parts
    → All IsElement (cons_head c parts)
cons_head-IsElement c [] ne h = (ground arith, tt)
cons_head-IsElement c (part ∷ parts) ne (a, h) = (ground (arith, a), h)

-- Splitting at slashes leaves none.
split-IsElement : (s : Bytes) → All IsElement (split b'/' s)
unfolding split
split-IsElement [] = (refl, tt)
split-IsElement (c ∷ s) = elim (Bool-cases (c == b'/')) [
  | inl slash ↦ rw slash (refl, split-IsElement s)
  | inr other ↦ rw other (cons_head-IsElement c (split b'/' s) other (split-IsElement s))
]

abbrev pub solid : List Bytes → List Bytes
solid parts = filter (λ part. not (is_empty part)) parts

solid-All :
    (parts : List Bytes)
    → any (λ part. has_prefix part (codes ".")) parts ≡ false
    → All IsElement parts
    → All IsName (solid parts)
solid-All [] h elements = tt
solid-All ([] ∷ parts) h (a, elements) = solid-All parts (ground arith) elements
solid-All ((c ∷ part) ∷ parts) h (a, elements) =
    ((refl, a, ground arith), solid-All parts (ground arith) elements)

clean_step-eq :
    (rooted : Bool) (kept : List Bytes) (part : Bytes)
    → has_prefix part (codes ".") ≡ false
    → clean_step rooted kept part ≡ (if is_empty part then kept else part ∷ kept)
unfolding clean_step bytes_eq
clean_step-eq rooted kept [] h = refl
clean_step-eq rooted kept (c ∷ part) h = ground arith

-- Without hidden elements, cleaning only drops the empty ones.
clean_parts-eq :
    (rooted : Bool) (kept parts : List Bytes)
    → any (λ part. has_prefix part (codes ".")) parts ≡ false
    → clean_parts rooted kept parts ≡ reverse_aux kept (solid parts)
unfolding clean_parts
clean_parts-eq rooted kept [] h = refl
clean_parts-eq rooted kept ([] ∷ parts) h =
    rw (clean_step-eq rooted kept [] refl) (clean_parts-eq rooted kept parts (ground arith))
clean_parts-eq rooted kept ((c ∷ part) ∷ parts) h =
    rw (clean_step-eq rooted kept (c ∷ part) (ground arith))
      (clean_parts-eq rooted ((c ∷ part) ∷ kept) parts (ground arith))

-- A path that stays below the directory it is extracted to: names joined by "/", or "."
abbrev pub IsBelow : Bytes → Type 0
IsBelow path = (path ≡ codes ".") ⊎ ((parts : List Bytes) × (path ≡ join parts) × All IsName parts)

or_dot-IsBelow : (parts : List Bytes) → All IsName parts → IsBelow (or_dot (join parts))
or_dot-IsBelow parts h = dotted (join parts) refl
  where
    dotted : (s : Bytes) → s ≡ join parts → IsBelow (or_dot s)
    dotted [] e = inl refl
    dotted (c ∷ s) e = inr (parts, e, h)

normalize-IsBelow :
    (name : Bytes)
    → is_hidden name ≡ false
    → is_empty (normalize_file_path name) ≡ false
    → IsBelow (normalize_file_path name)
unfolding is_hidden normalize_file_path clean
normalize-IsBelow name shown kept = elim (Bool-cases (has_prefix name (codes "/"))) [
  | inl rooted ↦ absurd (ground arith)
  | inr relative ↦
      let parts = split b'/' name in
      let cleaned : normalize_file_path name ≡ or_dot (join (clean_parts false [] parts)) =
        ground arith in
      subst IsBelow
        (ap (λ l. or_dot (join l)) (sym (clean_parts-eq false [] parts shown)) ∙ sym cleaned)
        (or_dot-IsBelow (solid parts) (solid-All parts shown (split-IsElement name)))
]

-- Whatever an archive holds, each entry that is not passed over is stored below the directory of the
-- site: its path is names joined by "/", none of them empty, with a slash in it, or starting with a dot,
-- or it is ".".
pub is_skipped-IsBelow :
    (p : Platform) (f : ZipEntry) → is_skipped p f ≡ false → IsBelow (normalize_file_path f.name)
unfolding is_skipped
is_skipped-IsBelow p f h = normalize-IsBelow f.name (ground arith) (ground arith)
