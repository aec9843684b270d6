-- ===== src/Prelude/Triples.antt =====
-- What an action does to a state, on both of its exits: a triple for each action, a rule for each way
-- to build one.
use mathlib.Core.Path.{◌≡◌, refl}
use mathlib.Core.Bool.{Bool, true, false}
use easy_host_k8s.Prelude.Tests.{if◌then◌else◌}
use easy_host_k8s.Prelude.Effects.{
  Result, ok, err, Error, Action, return, fail, lift, proceed, ◌>>=◌,
}

-- `Q` holds of a value and the state behind it, `E` of the state behind an error.
abbrev pub Outcome {ℓ} : {S A : Type ℓ} → (A → S → Type ℓ) → (S → Type ℓ) → Result A → S → Type ℓ
Outcome Q E (ok a) s = Q a s
Outcome Q E (err e) s = E s

-- From a state with `P`, the action ends in one of these two ways.
pub record Triple {ℓ} {S A : Type ℓ} (P : S → Type ℓ) (m : Action S A) (Q : A → S → Type ℓ)
    (E : S → Type ℓ) : Type ℓ where
  pub after : (s : S) → P s → Outcome Q E (m s).0 (m s).1

-- The action keeps `P`, however it ends.
abbrev pub Keeps {ℓ} : {S A : Type ℓ} → (S → Type ℓ) → Action S A → Type ℓ
Keeps P m = Triple P m (λ a s. P s) P

module _ {ℓ} {S A : Type ℓ} {P : S → Type ℓ} {Q : A → S → Type ℓ} {E : S → Type ℓ} where
  pub Triple-return : (a : A) → ((s : S) → P s → Q a s) → Triple P (return a) Q E
  Triple-return a h = record { after = h }

  pub Triple-fail : (e : Error) → ((s : S) → P s → E s) → Triple P (fail {A = A} e) Q E
  Triple-fail e h = record { after = h }

  pub Triple-lift :
      (r : Result A)
      → ((a : A) → r ≡ ok a → (s : S) → P s → Q a s)
      → ((s : S) → P s → E s)
      → Triple P (lift r) Q E
  Triple-lift (ok a) h k = record { after = h a refl }
  Triple-lift (err e) h k = record { after = k }

  pub Triple-if :
      (b : Bool) (m n : Action S A)
      → (b ≡ true → Triple P m Q E)
      → (b ≡ false → Triple P n Q E)
      → Triple P (if b then m else n) Q E
  Triple-if true m n hm hn = hm refl
  Triple-if false m n hm hn = hn refl

continue {ℓ} :
    {S A B : Type ℓ} (R : A → S → Type ℓ) (Q : B → S → Type ℓ) (E : S → Type ℓ) (r : Result A)
    (s : S) (f : A → Action S B)
    → Outcome R E r s
    → ((a : A) → Triple (R a) (f a) Q E)
    → Outcome Q E (proceed r f s).0 (proceed r f s).1
continue R Q E (ok a) s f h k = (k a).after s h
continue R Q E (err e) s f h k = h

module _ {ℓ} {S A B : Type ℓ} {P : S → Type ℓ} where
  pub Triple-bind :
      {Q : B → S → Type ℓ} {E : S → Type ℓ} (R : A → S → Type ℓ) (m : Action S A)
      (f : A → Action S B)
      → Triple P m R E
      → ((a : A) → Triple (R a) (f a) Q E)
      → Triple P (m >>= f) Q E
  Triple-bind {Q} {E} R m f hm hf = record {
    after = λ s h. continue R Q E (m s).0 (m s).1 f (hm.after s h) hf;
  }

  pub Keeps-bind :
      (m : Action S A) (f : A → Action S B)
      → Keeps P m
      → ((a : A) → Keeps P (f a))
      → Keeps P (m >>= f)
  Keeps-bind m f = Triple-bind (λ a s. P s) m f

module _ {ℓ} {S A : Type ℓ} {P : S → Type ℓ} where
  pub Keeps-return : (a : A) → Keeps P (return a)
  Keeps-return a = Triple-return a (λ s h. h)

  pub Keeps-fail : (e : Error) → Keeps P (fail {A = A} e)
  Keeps-fail e = Triple-fail e (λ s h. h)

  pub Keeps-lift : (r : Result A) → Keeps P (lift r)
  Keeps-lift r = Triple-lift r (λ a e s h. h) (λ s h. h)

-- The state behind either exit
weaken {ℓ} :
    {S A : Type ℓ} (P : S → Type ℓ) (r : Result A) (s : S) → Outcome (λ a t. P t) P r s → P s
weaken P (ok a) s o = o
weaken P (err e) s o = o

strengthen {ℓ} :
    {S A : Type ℓ} (P : S → Type ℓ) (r : Result A) (s : S) → P s → Outcome (λ a t. P t) P r s
strengthen P (ok a) s o = o
strengthen P (err e) s o = o

module _ {ℓ} {S A : Type ℓ} (P : S → Type ℓ) (m : Action S A) where
  -- A kept property holds of the state behind the action.
  pub Keeps-state : Keeps P m → (s : S) → P s → P (m s).1
  Keeps-state k s h = weaken P (m s).0 (m s).1 (k.after s h)

  -- So does what both exits ensure.
  pub Triple-state : {P' : S → Type ℓ} → Triple P' m (λ a s. P s) P → (s : S) → P' s → P (m s).1
  Triple-state k s h = weaken P (m s).0 (m s).1 (k.after s h)

  pub Keeps-of_state : ((s : S) → P s → P (m s).1) → Keeps P m
  Keeps-of_state h = record { after = λ s p. strengthen P (m s).0 (m s).1 (h s p) }

module _ {ℓ} {S A : Type ℓ} {P : S → Type ℓ} where
  -- A fact about the value that an action returns, added to what it keeps
  pub Keeps-with :
      (F : A → Type ℓ) (m : Action S A)
      → Keeps P m
      → ((s s' : S) (a : A) → P s → m s ≡ (ok a, s') → F a)
      → Triple P m (λ a s. P s × F a) P
  Keeps-with F m k f = record {
    after = λ s h. attach (m s).0 (m s).1 (k.after s h) (λ a e. f s (m s).1 a h (cc));
  }
    where
      attach :
          (r : Result A) (s : S)
          → Outcome (λ a t. P t) P r s
          → ((a : A) → r ≡ ok a → F a)
          → Outcome (λ a t. P t × F a) P r s
      attach (ok a) s o f = (o, f a refl)
      attach (err e) s o f = o

  -- A fact in the precondition that is not about the state is a hypothesis.
  pub Triple-fact :
      {Q : A → S → Type ℓ} {E : S → Type ℓ} (F : Type ℓ) (m : Action S A)
      → (F → Triple P m Q E)
      → Triple (λ s. P s × F) m Q E
  Triple-fact F m t = record { after = λ s h. (t h.1).after s h.0 }

map-Outcome {ℓ} :
    {S A : Type ℓ} (Q Q' : A → S → Type ℓ) (E E' : S → Type ℓ) (r : Result A) (s : S)
    → ((a : A) → Q a s → Q' a s)
    → (E s → E' s)
    → Outcome Q E r s
    → Outcome Q' E' r s
map-Outcome Q Q' E E' (ok a) s q e o = q a o
map-Outcome Q Q' E E' (err x) s q e o = e o

module _ {ℓ} {S A : Type ℓ} {P P' E E' : S → Type ℓ} {Q Q' : A → S → Type ℓ} where
  pub Triple-consequence :
      (m : Action S A)
      → ((s : S) → P' s → P s)
      → ((a : A) (s : S) → Q a s → Q' a s)
      → ((s : S) → E s → E' s)
      → Triple P m Q E
      → Triple P' m Q' E'
  Triple-consequence m pre post error t = record {
    after = λ s h.
        map-Outcome Q Q' E E' (m s).0 (m s).1 (λ a. post a (m s).1) (error (m s).1)
          (t.after s (pre s h));
  }

module _ {ℓ} {S A : Type ℓ} {P R : S → Type ℓ} where
  pub Keeps-both : (m : Action S A) → Keeps P m → Keeps R m → Keeps (λ s. P s × R s) m
  Keeps-both m hp hr =
      Keeps-of_state (λ s. P s × R s) m
        (λ s h. (Keeps-state P m hp s h.0, Keeps-state R m hr s h.1))
