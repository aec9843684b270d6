-- ===== src/Prelude/Strings.antt =====
-- Go strings and byte slices are both lists of bytes. Literals are written as native texts.
use Prim.Native.Nat.{ℕ}
use Prim.Native.Char.{code}
use Prim.Native.String.{String}
use mathlib.Core.Path.{◌≡◌, refl, ap}
use mathlib.Core.Logic.{◌↔◌, ◌≢◌, inl, inr}
use mathlib.Core.Bool.{Bool, true, false, ◌&&◌, ◌||◌}
use mathlib.Core.List.{List, [], ◌∷◌, ◌++◌}
use native.Mathlib.Omega.{arith}
use easy_host_k8s.Prelude.Tests.{◌==◌, Bool-cases}

abbrev pub Bytes : Type 0
Bytes = List ℕ

-- The bytes of an ASCII literal.
abbrev pub codes : String → Bytes
codes String.[] = []
codes (String.◌∷◌ c s) = code c ∷ codes s

-- `a == b` on strings, and `subtle.ConstantTimeCompare(a, b) == 1`
unfoldable pub bytes_eq : Bytes → Bytes → Bool
bytes_eq [] [] = true
bytes_eq [] (y ∷ ys) = false
bytes_eq (x ∷ xs) [] = false
bytes_eq (x ∷ xs) (y ∷ ys) = x == y && bytes_eq xs ys

bytes_eq_sound : (a b : Bytes) → bytes_eq a b ≡ true → a ≡ b
unfolding bytes_eq
bytes_eq_sound [] [] h = refl
bytes_eq_sound [] (y ∷ ys) h = cc
bytes_eq_sound (x ∷ xs) [] h = cc
bytes_eq_sound (x ∷ xs) (y ∷ ys) h = ground (arith, bytes_eq_sound xs ys)

pub bytes_eq_refl : (a : Bytes) → bytes_eq a a ≡ true
unfolding bytes_eq
bytes_eq_refl [] = refl
bytes_eq_refl (x ∷ xs) = ground (arith, bytes_eq_refl xs)

pub bytes_eq_iff : (a b : Bytes) → (bytes_eq a b ≡ true) ↔ (a ≡ b)
bytes_eq_iff a b = (bytes_eq_sound a b, λ e. rw e (bytes_eq_refl b))

-- strings.HasPrefix(s, pre)
abbrev pub has_prefix : Bytes → Bytes → Bool
has_prefix s [] = true
has_prefix [] (p ∷ pre) = false
has_prefix (c ∷ s) (p ∷ pre) = c == p && has_prefix s pre

-- strings.Contains(s, sub)
abbrev pub contains : Bytes → Bytes → Bool
contains [] sub = has_prefix [] sub
contains (c ∷ s) sub = has_prefix (c ∷ s) sub || contains s sub

pub has_prefix→append :
    (s pre : Bytes) → has_prefix s pre ≡ true → (rest : Bytes) × (s ≡ pre ++ rest)
has_prefix→append s [] h = (s, refl)
has_prefix→append [] (p ∷ pre) h = cc
has_prefix→append (c ∷ s) (p ∷ pre) h =
    let first : c ≡ p = ground arith in
    let (rest, e) = has_prefix→append s pre (ground arith) in (rest, cc)

pub has_prefix-append : (pre rest : Bytes) → has_prefix (pre ++ rest) pre ≡ true
has_prefix-append [] rest = refl
has_prefix-append (p ∷ pre) rest = ground (arith, has_prefix-append pre rest)

-- Texts that the test tells apart are different.
pub bytes_ne : (a b : Bytes) → bytes_eq a b ≡ false → a ≢ b
bytes_ne a b h e = cc (h, (bytes_eq_iff a b).1 e)

-- `sub` stands somewhere in `s`.
abbrev pub Occurs : Bytes → Bytes → Type 0
Occurs sub s = (before after : Bytes) × (s ≡ before ++ (sub ++ after))

contains-of_prefix : (s sub : Bytes) → has_prefix s sub ≡ true → contains s sub ≡ true
contains-of_prefix [] sub h = h
contains-of_prefix (c ∷ s) sub h = ground arith

contains-middle : (before sub after : Bytes) → contains (before ++ (sub ++ after)) sub ≡ true
contains-middle [] sub after = contains-of_prefix (sub ++ after) sub (has_prefix-append sub after)
contains-middle (c ∷ before) sub after = ground (arith, contains-middle before sub after)

contains→Occurs : (s sub : Bytes) → contains s sub ≡ true → Occurs sub s
contains→Occurs [] sub h = let (rest, e) = has_prefix→append [] sub h in ([], rest, e)
contains→Occurs (c ∷ s) sub h = elim (Bool-cases (has_prefix (c ∷ s) sub)) [
  | inl here ↦ let (rest, e) = has_prefix→append (c ∷ s) sub here in ([], rest, e)
  | inr later ↦
      let (before, after, e) = contains→Occurs s sub (ground arith) in
      (c ∷ before, after, ap (λ l. c ∷ l) e)
]

pub contains_iff : (s sub : Bytes) → (contains s sub ≡ true) ↔ Occurs sub s
contains_iff s sub =
    (contains→Occurs s sub, λ (before, after, e). rw e (contains-middle before sub after))
