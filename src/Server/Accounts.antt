-- ===== src/Server/Accounts.antt =====
-- The password of the configuration is the only one that opens the site and the REST API.
use easy_host_k8s.Prelude.{
  ◌≡◌, refl, ◌≢◌, ◌⊎◌, inl, inr, sym, ◌∙◌, ap, none, some, Bytes, codes, bytes_eq, bytes_ne,
}
use easy_host_k8s.Auth.{User, authenticate}
use easy_host_k8s.Auth.Accounts.{IsFaithful, authenticate-new_user_store}
use easy_host_k8s.Http.{HttpRequest, field}
use easy_host_k8s.Middleware.Access.{Shows}
use easy_host_k8s.Web.{sign_in}
use easy_host_k8s.Web.Pages.{login_submit}
use easy_host_k8s.Web.Sessions.{login_submit-cases}
use easy_host_k8s.Server.{Server, users, web_handler}

-- Both configured passwords can be hashed, and the two accounts have different names.
pub record HasAccounts (s : Server) : Type 0 where
  pub faithful : IsFaithful s.externals.bcrypt
  pub admin_hash : Bytes
  pub actuator_hash : Bytes
  pub admin_made :
      s.externals.bcrypt.generate s.externals.admin_salt s.config.admin_password ≡ some admin_hash
  pub actuator_made :
      s.externals.bcrypt.generate s.externals.actuator_salt s.config.actuator_password
      ≡ some actuator_hash
  pub different : s.config.admin_username ≢ s.config.actuator_username

user_ne_actuator : codes "USER" ≢ codes "ACTUATOR"
unfolding bytes_eq
user_ne_actuator = bytes_ne (codes "USER") (codes "ACTUATOR") refl

module _ (s : Server) (accounts : HasAccounts s) where
  -- A user with the role USER is the administrator.
  user-admin :
      (username password : Bytes) (user : User)
      → authenticate s.externals.bcrypt (users s) username password ≡ some user
      → user.role ≡ codes "USER"
      → (username ≡ s.config.admin_username)
        × (password ≡ s.config.admin_password)
        × (user.username ≡ s.config.admin_username)
  unfolding users
  user-admin username password user known role =
      elim ((authenticate-new_user_store s.externals.bcrypt accounts.faithful s.externals.admin_salt
          s.externals.actuator_salt s.config.admin_username s.config.admin_password
          s.config.actuator_username s.config.actuator_password accounts.admin_hash
          accounts.actuator_hash accounts.admin_made accounts.actuator_made accounts.different
          username password user).0
        known) [
          | inl (name, pass, made) ↦ (name, pass, ap (λ (u : User). u.username) made)
          | inr (name, pass, made) ↦
              absurd (user_ne_actuator (sym role ∙ ap (λ (u : User). u.role) made))
        ]

  -- With a faithful bcrypt and two accounts with different names whose passwords can be hashed, the login
  -- form of the server either carries the administrator's configured name and password, and then signs
  -- in the administrator, or it saves no session.
  pub login_submit-admin :
      (r : HttpRequest)
      → ((field (codes "username") r.form ≡ s.config.admin_username)
          × (field (codes "password") r.form ≡ s.config.admin_password)
          × (login_submit (web_handler s) r
              ≡ sign_in s.externals.fits r.session s.config.admin_username))
        ⊎ ((login_submit (web_handler s) r).saved ≡ none)
  unfolding web_handler
  login_submit-admin r = elim (login_submit-cases (web_handler s) r) [
    | inl (user, known, role, signs) ↦
        let (name, pass, admin) = user-admin _ _ user known role in
        inl (name, pass, signs ∙ ap (λ n. sign_in s.externals.fits r.session n) admin)
    | inr stays ↦ inr stays
  ]

  -- Under the same conditions, whoever the REST API takes for a user is the administrator, and has sent
  -- the administrator's configured name and password.
  pub Shows-admin :
      (r : HttpRequest) (user : User)
      → Shows s.externals.bcrypt (users s) (codes "USER") r user
      → (r.credentials ≡ some (s.config.admin_username, s.config.admin_password))
        × (user.username ≡ s.config.admin_username)
  Shows-admin r user shown =
      let (name, pass, admin) =
        user-admin shown.username shown.password user shown.known shown.has_role in
      (rw (sym name, sym pass) shown.sent, admin)
