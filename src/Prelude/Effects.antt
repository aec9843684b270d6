-- ===== src/Prelude/Effects.antt =====
-- Results that carry the program's sentinel errors, and actions on a state that may fail. What an
-- action wrote before it failed stays written, so the state comes back beside the error too.
use mathlib.Core.Path.{◌≡◌, refl}

-- The sentinel errors of `crypto` and `service`, then the errors that only reach a default branch.
pub data Error : Type 0 where
  not_found slug_exists invalid_slug invalid_file_path passphrase_required : Error
  wrong_passphrase not_encrypted corrupted empty_passphrase unlock_token : Error
  no_rows db_failure rand_failure bad_key too_short bad_params incomplete_envelope : Error
  auth_failed bad_archive bad_secret bad_ttl bad_dek_length nil_dereference : Error

pub data Result {ℓ} (A : Type ℓ) : Type ℓ where
  ok : A → Result A
  err : Error → Result A

-- `if err != nil { return … }` with another error in place of `err`
abbrev pub or_error {ℓ} : {A : Type ℓ} → Result A → Error → Result A
or_error (ok a) e = ok a
or_error (err _) e = err e

abbrev pub Action {ℓ} : Type ℓ → Type ℓ → Type ℓ
Action S A = S → Result A × S

module _ {ℓ} {S A : Type ℓ} where
  abbrev pub return : A → Action S A
  return a s = (ok a, s)

  abbrev pub fail : Error → Action S A
  fail e s = (err e, s)

  abbrev pub lift : Result A → Action S A
  lift r s = (r, s)

module _ {ℓ} {S A B : Type ℓ} where
  abbrev pub proceed : Result A → (A → Action S B) → Action S B
  proceed (ok a) f s = f a s
  proceed (err e) f s = (err e, s)

  infixl 10 ◌>>=◌ ◌>>◌
  abbrev pub ◌>>=◌ : Action S A → (A → Action S B) → Action S B
  ◌>>=◌ m f s = let (r, s') = m s in proceed r f s'

  abbrev pub ◌>>◌ : Action S A → Action S B → Action S B
  m >> k = m >>= λ _. k

proceed-eq-ok {ℓ} :
    {S A B : Type ℓ} (r : Result A) (s : S) (f : A → Action S B) {b : B} {s'' : S}
    → proceed r f s ≡ (ok b, s'')
    → (a : A) × (◌≡◌ {A = Result A × S} (r, s) (ok a, s)) × (f a s ≡ (ok b, s''))
proceed-eq-ok (ok a) s f h = (a, refl, h)
proceed-eq-ok (err e) s f h = cc

-- A block that succeeds has a first action that succeeds.
pub >>=-eq-ok {ℓ} :
    {S A B : Type ℓ} (m : Action S A) (f : A → Action S B) (s : S) {b : B} {s'' : S}
    → (m >>= f) s ≡ (ok b, s'')
    → (a : A) × (s' : S) × (m s ≡ (ok a, s')) × (f a s' ≡ (ok b, s''))
>>=-eq-ok m f s h = let (a, e, rest) = proceed-eq-ok (m s).0 (m s).1 f h in (a, (m s).1, e, rest)
