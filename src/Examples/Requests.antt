-- ===== src/Examples/Requests.antt =====
-- Requests of a browser, and passwords.
use easy_host_k8s.Prelude.{true, none, some, [], ◌∷◌, codes, bytes_eq, bytes_eq_iff, arith}
use easy_host_k8s.Auth.{Bcrypt}
use easy_host_k8s.Auth.Accounts.{IsFaithful}
use easy_host_k8s.Http.{HttpRequest}

-- A hash that shows the password behind a byte, and refuses none
abbrev pub bcrypt : Bcrypt
bcrypt = record {
  generate = λ salt password. some (1 ∷ password);
  compare = λ hash password. bytes_eq hash (1 ∷ password);
}

pub bcrypt-IsFaithful : IsFaithful bcrypt
bcrypt-IsFaithful salt hash password made given =
    ground (arith, bytes_eq_iff hash (1 ∷ given), made)

abbrev pub request : HttpRequest
request = record {
  method = codes "GET";
  path = codes "/";
  uri = codes "/";
  credentials = none;
  session = [];
  forwarded_for = [];
  remote_addr = codes "10.0.0.1:4000";
  query = [];
  form_parses = true;
  form = [];
  post_form = [];
  unlock_cookie = none;
  file = none;
}
