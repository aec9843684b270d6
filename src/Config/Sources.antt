-- ===== src/Config/Sources.antt =====
-- What the configuration guarantees to the rest of the program.
use easy_host_k8s.Prelude.{
  ℕ, ◌*◌, ◌^◌, ◌==◌, ◌≡◌, refl, true, false, not, Option, none, some, [], ◌∷◌, ◌++◌, Bytes, codes,
  is_empty, ok, arith, Bool-cases, inl, inr, all,
}
use easy_host_k8s.Prelude.{ℤ, pos, is_positive, pos_part}
use easy_host_k8s.Crypto.{Primitives, key_len}
use easy_host_k8s.Unlock.{Unlocker, new_unlocker}
use easy_host_k8s.Config.{
  Environment, or_fallback, positive_or, default_secret, getenv, env_or, duration_or, load, before,
  behind, dsn_of, parse_jdbc_url,
}

or_fallback-filled :
    (fallback v : Bytes) → is_empty fallback ≡ false → is_empty (or_fallback fallback v) ≡ false
or_fallback-filled fallback v h = ground (arith, h)

positive_or-pos :
    (fallback : ℤ) (o : Option ℤ)
    → is_positive fallback ≡ true
    → is_positive (positive_or fallback o) ≡ true
positive_or-pos fallback none h = h
positive_or-pos fallback (some d) h = ground (arith, h)

duration_or-pos :
    (env : Environment) (key : Bytes) (fallback : ℤ)
    → is_positive fallback ≡ true
    → is_positive (duration_or env key fallback) ≡ true
unfolding duration_or
duration_or-pos env key fallback h = elim (Bool-cases (is_empty (getenv env key))) [
  | inl unset ↦ rw unset h
  | inr given ↦ rw given (positive_or-pos fallback (env.parse_duration (getenv env key)) h)
]

new_unlocker-ok :
    (p : Primitives) (secret : Bytes) (ttl : ℤ)
    → is_empty secret ≡ false
    → is_positive ttl ≡ true
    → (u : Unlocker) × (new_unlocker p secret ttl ≡ ok u)
unfolding new_unlocker
new_unlocker-ok p secret ttl filled lasting = (
  record {
    key = p.hkdf_sha256 key_len secret (codes "easy-host/unlock-token/v1");
    ttl = pos_part ttl;
  },
  rw (filled, lasting) refl,
)

-- Whatever the environment holds, and whatever time.ParseDuration makes of it, a negative duration and 0
-- included, NewUnlocker accepts the secret and the lifetime that are loaded for unlock tokens.
pub new_unlocker-load :
    (p : Primitives) (env : Environment)
    → (u : Unlocker) × (new_unlocker p (load env).unlock_token_secret (load env).unlock_ttl ≡ ok u)
unfolding load env_or
new_unlocker-load p env =
    let secret =
      or_fallback-filled (or_fallback default_secret (getenv env (codes "SESSION_SECRET")))
        (getenv env (codes "UNLOCK_TOKEN_SECRET"))
        (or_fallback-filled default_secret (getenv env (codes "SESSION_SECRET")) refl) in
    let ttl = duration_or-pos env (codes "UNLOCK_TTL") (pos (12 * (3600 * 10 ^ 9))) refl in
    new_unlocker-ok p _ _ secret ttl

-- No byte of a text is `c`.
abbrev Lacks : ℕ → Bytes → Type 0
Lacks c s = all (λ d. not (d == c)) s ≡ true

before-append : (sep : ℕ) (s rest : Bytes) → Lacks sep s → before sep (s ++ sep ∷ rest) ≡ s
before-append sep [] rest h = ground arith
before-append sep (c ∷ s) rest h = ground (arith, before-append sep s rest)

behind-append : (sep : ℕ) (s rest : Bytes) → Lacks sep s → behind sep (s ++ sep ∷ rest) ≡ rest
behind-append sep [] rest h = ground arith
behind-append sep (c ∷ s) rest h = ground (arith, behind-append sep s rest)

Lacks-append : (c : ℕ) (s t : Bytes) → Lacks c s → Lacks c t → Lacks c (s ++ t)
Lacks-append c [] t h h' = h'
Lacks-append c (d ∷ s) t h h' = ground (arith, Lacks-append c s t, h')

-- A JDBC URL with a host without slash and question mark, a database that is named without a question
-- mark, and any parameters, becomes the data source name of that host and that database with the
-- configured user and password; its own parameters are dropped.
parse_jdbc_url-dsn_of :
    (env : Environment) (host name parameters : Bytes)
    → Lacks b'/' host
    → Lacks b'?' host
    → Lacks b'?' name
    → is_empty name ≡ false
    → parse_jdbc_url env (codes "jdbc:mariadb://" ++ ((host ++ b'/' ∷ name) ++ b'?' ∷ parameters))
      ≡ dsn_of
          (env_or env (codes "SPRING_DATASOURCE_USERNAME") (codes "easyhost"))
          (env_or env (codes "SPRING_DATASOURCE_PASSWORD") (codes "easyhost"))
          host
          name
unfolding parse_jdbc_url
parse_jdbc_url-dsn_of env host name parameters no_slash no_mark name_clean named =
    rw
      (
        before-append b'?' (host ++ b'/' ∷ name) parameters
            (Lacks-append b'?' host (b'/' ∷ name) no_mark name_clean),
        before-append b'/' host name no_slash,
        behind-append b'/' host name no_slash,
        named,
      )
      refl
