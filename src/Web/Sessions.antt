-- ===== src/Web/Sessions.antt =====
-- Signing in and out, and where a browser is sent to afterwards.
use easy_host_k8s.Prelude.{
  ◌≡◌, refl, ◌≢◌, sym, ◌∙◌, ◌⊎◌, inl, inr, Bool, true, false, Option, none, some, Bytes, codes,
  bytes_eq, bytes_eq_iff, bytes_ne, is_empty, Bool-cases, Option-cases, insert, remove,
  lookup-insert, lookup-insert_other, lookup-remove, lookup-remove_other,
}
use easy_host_k8s.Auth.{User, authenticate}
use easy_host_k8s.Http.{
  Session, HttpRequest, Answer, field, session_text, save, after_answer, location,
}
use easy_host_k8s.Web.{WebHandler, pop_post_login_redirect, post_login_redirect_key, sign_in}
use easy_host_k8s.Web.Pages.{login_submit, check_login}

pub session_text-insert :
    (key v : Bytes) (s : Session) → is_empty v ≡ false → session_text key (insert key v s) ≡ some v
unfolding session_text field
session_text-insert key v s given = rw (lookup-insert key v s, given) refl

pub session_text-remove : (key : Bytes) (s : Session) → session_text key (remove key s) ≡ none
unfolding session_text field
session_text-remove key s = rw (lookup-remove key s) refl

session_text-insert_other :
    (key other v : Bytes) (s : Session)
    → other ≢ key
    → session_text other (insert key v s) ≡ session_text other s
unfolding session_text field
session_text-insert_other key other v s ne = rw (lookup-insert_other key other v s ne) refl

pub session_text-remove_other :
    (key other : Bytes) (s : Session)
    → other ≢ key
    → session_text other (remove key s) ≡ session_text other s
unfolding session_text field
session_text-remove_other key other s ne = rw (lookup-remove_other key other s ne) refl

module _ (h : WebHandler) (r : HttpRequest) where
  check_login-cases :
      (o : Option User)
      → ((user : User) × (o ≡ some user)
          × (user.role ≡ codes "USER")
          × (check_login h r.session o ≡ sign_in h.fits r.session user.username))
        ⊎ ((check_login h r.session o).saved ≡ none)
  check_login-cases none = inr refl
  check_login-cases (some user) = elim (Bool-cases (bytes_eq user.role (codes "USER"))) [
    | inl same ↦ inl (user, refl, (bytes_eq_iff user.role (codes "USER")).0 same, rw same refl)
    | inr other ↦ rw other (inr refl)
  ]

  -- The login form either carries the name and the password of a user with the role USER, and then that
  -- user is signed in; or no session is saved.
  pub login_submit-cases :
      ((user : User) × (authenticate h.bcrypt h.users
            (field (codes "username") r.form)
            (field (codes "password") r.form)
          ≡ some user)
        × (user.role ≡ codes "USER")
        × (login_submit h r ≡ sign_in h.fits r.session user.username))
      ⊎ ((login_submit h r).saved ≡ none)
  unfolding login_submit
  login_submit-cases = check_login-cases (
      authenticate h.bcrypt h.users (field (codes "username") r.form)
        (field (codes "password") r.form))

name_ne_redirect : codes "username" ≢ post_login_redirect_key
unfolding bytes_eq
name_ne_redirect = bytes_ne (codes "username") post_login_redirect_key refl

abbrev pub destination : Option Bytes → Bytes
destination none = codes "/dashboard"
destination (some dest) = dest

module _ (s : Session) where
  pop-target : (pop_post_login_redirect s).0 ≡ destination (session_text post_login_redirect_key s)
  unfolding pop_post_login_redirect
  pop-target = elim (Option-cases (session_text post_login_redirect_key s)) [
    | inl missing ↦ rw (missing, pop_post_login_redirect) refl
    | inr (dest, there) ↦ rw (there, pop_post_login_redirect) refl
  ]

  pop-spent : session_text post_login_redirect_key (pop_post_login_redirect s).1 ≡ none
  unfolding pop_post_login_redirect
  pop-spent = elim (Option-cases (session_text post_login_redirect_key s)) [
    | inl missing ↦ rw (missing, pop_post_login_redirect) missing
    | inr (dest, there) ↦
        rw (there, pop_post_login_redirect) (session_text-remove post_login_redirect_key s)
  ]

  pop-name :
      session_text (codes "username") (pop_post_login_redirect s).1
      ≡ session_text (codes "username") s
  unfolding pop_post_login_redirect
  pop-name = elim (Option-cases (session_text post_login_redirect_key s)) [
    | inl missing ↦ rw (missing, pop_post_login_redirect) refl
    | inr (dest, there) ↦
        rw (there, pop_post_login_redirect)
          (session_text-remove_other post_login_redirect_key (codes "username") s name_ne_redirect)
  ]

-- Where a browser is after an answer: its session, and the page that it is sent to
abbrev pub Lands : {V : Type 0} → Session → Answer V → Session → Bytes → Type 0
Lands before a session target = (after_answer before a.saved ≡ session) × (a.body ≡ location target)

module _ {V : Type 0} (fits : Session → Bool) (all_fit : (session : Session) → fits session ≡ true)
    (s : Session) where
  -- If every session fits into a cookie, a sign-in leaves the browser with a session in which the user is
  -- named and no destination is kept, and sends it to the destination that was kept before, or to the
  -- dashboard without one.
  pub sign_in-Lands :
      (username : Bytes)
      → is_empty username ≡ false
      → (s' : Session) × Lands s
          (sign_in {V = V} fits s username)
          s'
          (destination (session_text post_login_redirect_key s))
        × (session_text (codes "username") s' ≡ some username)
        × (session_text post_login_redirect_key s' ≡ none)
  unfolding sign_in save
  sign_in-Lands username given =
      let s1 = insert (codes "username") username s in
      (
        (pop_post_login_redirect s1).1,
        (
          rw (all_fit (pop_post_login_redirect s1).1) refl,
          rw
              (
                pop-target s1,
                session_text-insert_other (codes "username") post_login_redirect_key username s
                    (λ e. name_ne_redirect (sym e)),
              )
              refl,
        ),
        pop-name s1 ∙ session_text-insert (codes "username") username s given,
        pop-spent s1,
      )
