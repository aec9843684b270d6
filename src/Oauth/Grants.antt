-- ===== src/Oauth/Grants.antt =====
-- Actions on the world that end in a reply or in a protocol error.
use easy_host_k8s.Prelude.{ℕ, ◌≡◌, refl, Bytes, Result, ok, err, Action}
use easy_host_k8s.World.{World}
use easy_host_k8s.Oauth.{OauthError, Reply, granted, refused}

abbrev pub Grant : Type 0 → Type 0
Grant A = World → Reply A × World

module _ {A : Type 0} where
  abbrev pub grant : A → Grant A
  grant a w = (granted a, w)

  abbrev pub refuse : ℕ → Bytes → Grant A
  refuse status code w = (refused (record { status = status; code = code }), w)

  abbrev pub reply_of : Result A → OauthError → Reply A
  reply_of (ok a) e = granted a
  reply_of (err _) e = refused e

  -- A call whose errors are all answered with one protocol error
  abbrev pub attempt : Action World A → ℕ → Bytes → Grant A
  attempt m status code w =
      let (r, w') = m w in (reply_of r (record { status = status; code = code }), w')

module _ {A B : Type 0} where
  abbrev pub pass_on : Reply A → (A → Grant B) → Grant B
  pass_on (granted a) f w = f a w
  pass_on (refused e) f w = (refused e, w)

  infixl 10 ◌>>=◌ ◌>>◌
  abbrev pub ◌>>=◌ : Grant A → (A → Grant B) → Grant B
  ◌>>=◌ m f w = let (r, w') = m w in pass_on r f w'

  abbrev pub ◌>>◌ : Grant A → Grant B → Grant B
  m >> k = m >>= λ _. k

-- The clock, in nanoseconds
abbrev pub now : Grant ℕ
now w = (granted w.clock, w)

pass_on-eq-granted :
    {A B : Type 0} (r : Reply A) (w : World) (f : A → Grant B) {b : B} {w'' : World}
    → pass_on r f w ≡ (granted b, w'')
    → (a : A) × (◌≡◌ {A = Reply A × World} (r, w) (granted a, w)) × (f a w ≡ (granted b, w''))
pass_on-eq-granted (granted a) w f h = (a, refl, h)
pass_on-eq-granted (refused e) w f h = cc

-- A block that grants has a first action that grants.
pub >>=-eq-granted :
    {A B : Type 0} (m : Grant A) (f : A → Grant B) (w : World) {b : B} {w'' : World}
    → (m >>= f) w ≡ (granted b, w'')
    → (a : A) × (w' : World) × (m w ≡ (granted a, w')) × (f a w' ≡ (granted b, w''))
>>=-eq-granted m f w h =
    let (a, e, rest) = pass_on-eq-granted (m w).0 (m w).1 f h in (a, (m w).1, e, rest)
