-- ===== src/Paths/Slugs.antt =====
-- The slug pattern.
use easy_host_k8s.Prelude.{ℕ, Bool, true, ◌||◌, ◌≡◌, refl, ◌↔◌, [], ◌∷◌, Bytes, all, ◌==◌, arith}
use easy_host_k8s.Paths.{is_alnum, slug_rest, slug_matches}

abbrev pub is_alnum_dash : ℕ → Bool
is_alnum_dash c = is_alnum c || c == b'-'

-- The language of [a-z0-9-]*[a-z0-9].
pub data EndsAlnum : Bytes → Type 0 where
  last : {d : ℕ} → is_alnum d ≡ true → EndsAlnum (d ∷ [])
  more : {c : ℕ} {s : Bytes} → is_alnum_dash c ≡ true → EndsAlnum s → EndsAlnum (c ∷ s)

-- The language of ^[a-z0-9]([a-z0-9-]*[a-z0-9])?$.
pub data SlugPattern : Bytes → Type 0 where
  one : {c : ℕ} → is_alnum c ≡ true → SlugPattern (c ∷ [])
  longer : {c : ℕ} {s : Bytes} → is_alnum c ≡ true → EndsAlnum s → SlugPattern (c ∷ s)

EndsAlnum→slug_rest : {s : Bytes} (b : Bool) → EndsAlnum s → slug_rest b s ≡ true
unfolding slug_rest
EndsAlnum→slug_rest b (last h) = ground (arith)
EndsAlnum→slug_rest b (more {c} h e) = ground (arith, EndsAlnum→slug_rest (is_alnum c) e)

slug_rest→EndsAlnum :
    (c : ℕ) (s : Bytes) (b : Bool) → slug_rest b (c ∷ s) ≡ true → EndsAlnum (c ∷ s)
unfolding slug_rest
slug_rest→EndsAlnum c [] b h = last (ground arith)
slug_rest→EndsAlnum c (d ∷ s) b h =
    more (ground arith) (slug_rest→EndsAlnum d s (is_alnum c) (ground arith))

slug_matches→SlugPattern : (s : Bytes) → slug_matches s ≡ true → SlugPattern s
unfolding slug_matches
slug_matches→SlugPattern [] h = cc
slug_matches→SlugPattern (c ∷ []) h = one (ground arith)
slug_matches→SlugPattern (c ∷ d ∷ s) h =
    longer (ground arith) (slug_rest→EndsAlnum d s true (ground arith))

SlugPattern→slug_matches : {s : Bytes} → SlugPattern s → slug_matches s ≡ true
unfolding slug_matches
SlugPattern→slug_matches (one h) = ground arith
SlugPattern→slug_matches (longer h e) = ground (arith, EndsAlnum→slug_rest true e)

-- `slug_matches` accepts exactly the language of the pattern.
pub slug_matches_iff : (s : Bytes) → (slug_matches s ≡ true) ↔ SlugPattern s
slug_matches_iff s = (slug_matches→SlugPattern s, SlugPattern→slug_matches)

slug_rest→all : (s : Bytes) (b : Bool) → slug_rest b s ≡ true → all is_alnum_dash s ≡ true
unfolding slug_rest
slug_rest→all [] b h = refl
slug_rest→all (c ∷ s) b h = ground (arith, slug_rest→all s (is_alnum c))

pub slug_matches→all : (s : Bytes) → slug_matches s ≡ true → all is_alnum_dash s ≡ true
unfolding slug_matches
slug_matches→all [] h = refl
slug_matches→all (c ∷ s) h = ground (arith, slug_rest→all s true)
