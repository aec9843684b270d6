-- ===== src/Auth.antt =====
-- backend-go/internal/auth/auth.go: the two accounts with a password. bcrypt is a parameter.
pub mod Accounts
use easy_host_k8s.Prelude.{
  Bool, Option, none, some, [], Bytes, codes, if◌then◌else◌, Map, lookup, insert, remove,
}

pub record User : Type 0 where
  pub username : Bytes
  pub role : Bytes

pub record UserEntry : Type 0 where
  pub hashed_password : Bytes
  pub role : Bytes

pub record UserStore : Type 0 where
  pub users : Map UserEntry

pub record Bcrypt : Type 0 where
  -- GenerateFromPassword with the default cost, for a salt; it refuses long passwords
  pub generate : Bytes → Bytes → Option Bytes
  -- CompareHashAndPassword returns no error
  pub compare : Bytes → Bytes → Bool

-- A hash whose error is ignored
abbrev pub hash_or_nil : Option Bytes → Bytes
hash_or_nil none = []
hash_or_nil (some hash) = hash

module _ (b : Bcrypt) where
  -- NewUserStore, with the two salts that it draws
  unfoldable pub new_user_store : Bytes → Bytes → Bytes → Bytes → Bytes → Bytes → UserStore
  new_user_store admin_salt actuator_salt admin_user admin_pass actuator_user actuator_pass =
      let admin : UserEntry = record {
        hashed_password = hash_or_nil (b.generate admin_salt admin_pass);
        role = codes "USER";
      } in
      let actuator : UserEntry = record {
        hashed_password = hash_or_nil (b.generate actuator_salt actuator_pass);
        role = codes "ACTUATOR";
      } in
      record { users = insert actuator_user actuator (insert admin_user admin []) }

  abbrev pub check_password : Bytes → Bytes → Option UserEntry → Option User
  check_password username password none = none
  check_password username password (some entry) =
      if b.compare entry.hashed_password password
      then some (record { username = username; role = entry.role })
      else none

  -- Authenticate
  unfoldable pub authenticate : UserStore → Bytes → Bytes → Option User
  authenticate s username password = check_password username password (lookup username s.users)
