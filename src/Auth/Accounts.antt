-- ===== src/Auth/Accounts.antt =====
-- Who the user store lets in.
use easy_host_k8s.Prelude.{
  ◌≡◌, ◌≢◌, ◌↔◌, ◌⊎◌, true, some, Bytes, codes, bytes_eq_iff, lookup, insert, remove, arith,
}
use easy_host_k8s.Auth.{User, Bcrypt, new_user_store, authenticate}

-- A hash made from a password is one that this password meets, and no other.
abbrev pub IsFaithful : Bcrypt → Type 0
IsFaithful b =
    (salt hash password : Bytes)
    → b.generate salt password ≡ some hash
    → (given : Bytes) → (b.compare hash given ≡ true) ↔ (given ≡ password)

module _ (b : Bcrypt) (faithful : IsFaithful b)
    (admin_salt actuator_salt admin_user admin_pass actuator_user actuator_pass : Bytes)
    (admin_hash actuator_hash : Bytes)
    (admin_made : b.generate admin_salt admin_pass ≡ some admin_hash)
    (actuator_made : b.generate actuator_salt actuator_pass ≡ some actuator_hash)
    (ne : admin_user ≢ actuator_user) where
  -- With a faithful bcrypt, two accounts with different names whose passwords can be hashed: a name and
  -- a password are let in as a user exactly if they are the administrator's, with the role USER, or the
  -- actuator's, with the role ACTUATOR.
  pub authenticate-new_user_store :
      (username password : Bytes) (user : User)
      → (authenticate b
            (new_user_store b admin_salt actuator_salt admin_user admin_pass actuator_user
              actuator_pass)
            username
            password
          ≡ some user)
        ↔ (((username ≡ admin_user)
              × (password ≡ admin_pass)
              × (user ≡ record { username = admin_user; role = codes "USER" }))
            ⊎ ((username ≡ actuator_user)
                × (password ≡ actuator_pass)
                × (user ≡ record { username = actuator_user; role = codes "ACTUATOR" })))
  unfolding authenticate new_user_store lookup insert remove
  authenticate-new_user_store username password user = ground (
    arith,
    bytes_eq_iff actuator_user username,
    bytes_eq_iff actuator_user admin_user,
    bytes_eq_iff admin_user username,
    bytes_eq_iff admin_user actuator_user,
    faithful admin_salt admin_hash admin_pass admin_made password,
    faithful actuator_salt actuator_hash actuator_pass actuator_made password,
  )
