-- ===== src/Middleware/Access.antt =====
-- Which requests reach a handler behind BasicAuth or SessionAuth.
use easy_host_k8s.Prelude.{
  ◌≡◌, refl, ◌⊎◌, inl, inr, Option, none, some, Bytes, codes, bytes_eq, bytes_eq_iff, Bool-cases,
}
use easy_host_k8s.Auth.{User, UserStore, Bcrypt, authenticate}
use easy_host_k8s.Http.{HttpRequest, Answer, Handler, session_text}
use easy_host_k8s.Middleware.{admit, admit_name, check_credentials, basic_auth, session_auth}

-- The request carries a name and a password of a user with this role.
pub record Shows (b : Bcrypt) (users : UserStore) (role : Bytes) (r : HttpRequest) (user : User)
    : Type 0 where
  pub username : Bytes
  pub password : Bytes
  pub sent : r.credentials ≡ some (username, password)
  pub known : authenticate b users username password ≡ some user
  pub has_role : user.role ≡ role

module _ {V S : Type 0} (b : Bcrypt) (users : UserStore) (role : Bytes)
    (next : User → Handler V S) where
  -- What is refused leaves the state as it is, with 401 or 403.
  abbrev pub IsRefused : Answer V × S → S → Type 0
  IsRefused (a, s') s = (s' ≡ s) × ((a.status ≡ 401) ⊎ (a.status ≡ 403))

  admit-cases :
      (o : Option User) (r : HttpRequest) (s : S)
      → ((user : User) × (o ≡ some user)
          × (user.role ≡ role)
          × (admit role next o r s ≡ next user r s))
        ⊎ IsRefused (admit role next o r s) s
  admit-cases none r s = inr (refl, inr refl)
  admit-cases (some user) r s = elim (Bool-cases (bytes_eq user.role role)) [
    | inl same ↦ inl (user, refl, (bytes_eq_iff user.role role).0 same, rw same refl)
    | inr other ↦ rw other (inr (refl, inr refl))
  ]

  check_credentials-cases :
      (o : Option (Bytes × Bytes)) (r : HttpRequest) (s : S)
      → r.credentials ≡ o
      → ((user : User) × Shows b users role r user
          × (check_credentials b users role next o r s ≡ next user r s))
        ⊎ IsRefused (check_credentials b users role next o r s) s
  check_credentials-cases none r s sent = inr (refl, inl refl)
  check_credentials-cases (some (username, password)) r s sent =
      elim (admit-cases (authenticate b users username password) r s) [
        | inl (user, known, has_role, runs) ↦ inl (
          user,
          record {
            username = username;
            password = password;
            sent = sent;
            known = known;
            has_role = has_role;
          },
          runs,
        )
        | inr refused ↦ inr refused
      ]

  -- A request at a handler behind basic authentication either shows the name and the password of a user
  -- with the required role, and then is answered by the handler for that user, or is answered with 401
  -- or 403 and changes nothing.
  pub basic_auth-cases :
      (r : HttpRequest) (s : S)
      → ((user : User) × Shows b users role r user
          × (basic_auth b users role next r s ≡ next user r s))
        ⊎ IsRefused (basic_auth b users role next r s) s
  unfolding basic_auth
  basic_auth-cases r s = check_credentials-cases r.credentials r s refl

module _ {V S : Type 0} (next : User → Handler V S) where
  admit_name-cases :
      (o : Option Bytes) (r : HttpRequest) (s : S)
      → session_text (codes "username") r.session ≡ o
      → ((username : Bytes) × (session_text (codes "username") r.session ≡ some username)
          × (admit_name next o r s
              ≡ next (record { username = username; role = codes "USER" }) r s))
        ⊎ (((admit_name next o r s).1 ≡ s) × ((admit_name next o r s).0.status ≡ 302))
  admit_name-cases none r s e = inr (refl, refl)
  admit_name-cases (some username) r s e = inl (username, e, refl)

  -- A request at a handler behind session authentication either carries a session with a name, and then
  -- is answered for that user, or is redirected and changes nothing.
  pub session_auth-cases :
      (r : HttpRequest) (s : S)
      → ((username : Bytes) × (session_text (codes "username") r.session ≡ some username)
          × (session_auth next r s
              ≡ next (record { username = username; role = codes "USER" }) r s))
        ⊎ (((session_auth next r s).1 ≡ s) × ((session_auth next r s).0.status ≡ 302))
  unfolding session_auth
  session_auth-cases r s = admit_name-cases (session_text (codes "username") r.session) r s refl
