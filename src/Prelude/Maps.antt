-- ===== src/Prelude/Maps.antt =====
-- A Go map from strings: an association list, in which the first entry of a key counts.
use mathlib.Core.Path.{◌≡◌, refl}
use mathlib.Core.Logic.{◌≢◌, inl, inr}
use mathlib.Core.Bool.{Bool, true, false}
use mathlib.Core.Option.{Option, none, some}
use mathlib.Core.List.{List, [], ◌∷◌}
use native.Mathlib.Omega.{arith}
use easy_host_k8s.Prelude.Strings.{Bytes, bytes_eq, bytes_eq_iff, bytes_eq_refl}
use easy_host_k8s.Prelude.Tests.{Bool-cases, if◌then◌else◌}
use easy_host_k8s.Prelude.Lists.{filter}

abbrev pub Map {ℓ} : Type ℓ → Type ℓ
Map V = List (Bytes × V)

module _ {ℓ} {V : Type ℓ} where
  -- `v, ok := m[key]`
  unfoldable pub lookup : Bytes → Map V → Option V
  lookup key [] = none
  lookup key ((k, v) ∷ m) =
      let rest = lookup key m in elim (bytes_eq k key) [ true ↦ some v | false ↦ rest ]

  -- `delete(m, key)`
  unfoldable pub remove : Bytes → Map V → Map V
  remove key [] = []
  remove key ((k, v) ∷ m) =
      let rest = remove key m in elim (bytes_eq k key) [ true ↦ rest | false ↦ (k, v) ∷ rest ]

  -- `m[key] = v`
  unfoldable pub insert : Bytes → V → Map V → Map V
  insert key v m = (key, v) ∷ remove key m

  pub lookup-remove : (key : Bytes) (m : Map V) → lookup key (remove key m) ≡ none
  unfolding lookup remove
  lookup-remove key [] = refl
  lookup-remove key ((k, v) ∷ m) = ground (arith, lookup-remove key m)

  pub lookup-remove_other :
      (key other : Bytes) (m : Map V) → other ≢ key → lookup other (remove key m) ≡ lookup other m
  unfolding lookup remove
  lookup-remove_other key other [] ne = refl
  lookup-remove_other key other ((k, v) ∷ m) ne =
      ground
        (arith, lookup-remove_other key other m ne, bytes_eq_iff k key, bytes_eq_iff k other, ne)

  pub lookup-insert : (key : Bytes) (v : V) (m : Map V) → lookup key (insert key v m) ≡ some v
  unfolding insert lookup
  lookup-insert key v m = ground (arith, bytes_eq_refl key)

  pub lookup-insert_other :
      (key other : Bytes) (v : V) (m : Map V)
      → other ≢ key
      → lookup other (insert key v m) ≡ lookup other m
  unfolding insert lookup
  lookup-insert_other key other v m ne =
      ground (arith, bytes_eq_iff key other, ne, lookup-remove_other key other m ne)

  -- No key stands in the list twice.
  abbrev pub Distinct : Map V → Type ℓ
  Distinct [] = Unit
  Distinct ((k, v) ∷ m) = (lookup k m ≡ none) × Distinct m

  pub remove-none :
      (key other : Bytes) (m : Map V) → lookup other m ≡ none → lookup other (remove key m) ≡ none
  unfolding lookup remove
  remove-none key other [] h = refl
  remove-none key other ((k, v) ∷ m) h = ground (arith, remove-none key other m)

  remove-Distinct : (key : Bytes) (m : Map V) → Distinct m → Distinct (remove key m)
  unfolding remove
  remove-Distinct key [] h = tt
  remove-Distinct key ((k, v) ∷ m) (fresh, h) = elim (Bool-cases (bytes_eq k key)) [
    | inl same ↦ rw (same, Distinct) (remove-Distinct key m h)
    | inr other ↦ rw (other, Distinct) (remove-none key k m fresh, remove-Distinct key m h)
  ]

  pub insert-Distinct : (key : Bytes) (v : V) (m : Map V) → Distinct m → Distinct (insert key v m)
  unfolding insert
  insert-Distinct key v m h = (lookup-remove key m, remove-Distinct key m h)

  module _ (keep : V → Bool) where
    abbrev pub kept : Option V → Option V
    kept none = none
    kept (some v) = if keep v then some v else none

    -- The entries whose values pass a test
    abbrev pub retain : Map V → Map V
    retain m = filter (λ (_, v). keep v) m

    retain-none : (key : Bytes) (m : Map V) → lookup key m ≡ none → lookup key (retain m) ≡ none
    unfolding lookup
    retain-none key [] h = refl
    retain-none key ((k, v) ∷ m) h = ground (arith, retain-none key m)

    pub lookup-retain :
        (key : Bytes) (m : Map V) → Distinct m → lookup key (retain m) ≡ kept (lookup key m)
    unfolding lookup
    lookup-retain key [] h = refl
    lookup-retain key ((k, v) ∷ m) (fresh, h) =
        ground (arith, lookup-retain key m h, retain-none key m, bytes_eq_iff k key, fresh)

    pub retain-Distinct : (m : Map V) → Distinct m → Distinct (retain m)
    retain-Distinct [] h = tt
    retain-Distinct ((k, v) ∷ m) (fresh, h) = elim (Bool-cases (keep v)) [
      | inl stays ↦ rw (stays, Distinct) (retain-none k m fresh, retain-Distinct m h)
      | inr goes ↦ rw (goes, Distinct) (retain-Distinct m h)
    ]
