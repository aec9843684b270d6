-- ===== src/Examples/Servers.antt =====
-- A server with a site of Ann's, whose administrator is Bob, and what other people ask of it.
use easy_host_k8s.Prelude.{
  ◌*◌, ◌^◌, ◌≡◌, refl, ◌≢◌, ◌↔◌, ◌⊎◌, sym, ◌∙◌, true, none, some, List, [], ◌∷◌, codes, bytes_eq,
  bytes_ne, ok, err, db_failure, All, lookup,
}
use easy_host_k8s.Prelude.{pos, negsuc}
use easy_host_k8s.Crypto.Toy.{toy}
use easy_host_k8s.Unlock.{Unlocker, new_unlocker}
use easy_host_k8s.Auth.{User, authenticate, new_user_store}
use easy_host_k8s.Auth.Accounts.{authenticate-new_user_store}
use easy_host_k8s.Http.{HttpRequest, field, session_text}
use easy_host_k8s.Content.Isolation.{Intact}
use easy_host_k8s.Oauth.Toy.{toy_platform}
use easy_host_k8s.Mcp.{undecodable}
use easy_host_k8s.Config.{Environment, Config, load}
use easy_host_k8s.Config.Sources.{new_unlocker-load}
use easy_host_k8s.Web.{sign_in}
use easy_host_k8s.Web.Pages.{login_submit}
use easy_host_k8s.Server.{Externals, Server, web_handler}
use easy_host_k8s.Server.Accounts.{HasAccounts, login_submit-admin, Shows-admin}
use easy_host_k8s.Server.Routes.{put_entry, post_delete, get_login}
use easy_host_k8s.Store.Consistent.{IsConsistent}
use easy_host_k8s.Content.Kept.{Others}
use easy_host_k8s.Server.Events.{Event, api, web, public, passes, run, SpeaksFor}
use easy_host_k8s.Server.Isolation.{run-Intact, run-IsConsistent}
use easy_host_k8s.Examples.Content.{platform, world, row, file, consistent}
use easy_host_k8s.Examples.Requests.{bcrypt, bcrypt-IsFaithful, request}

abbrev environment : Environment
environment = record {
  variables =
      (codes "APP_ADMIN_USERNAME", codes "bob")
      ∷ (codes "APP_ADMIN_PASSWORD", codes "pw")
      ∷ (codes "UNLOCK_TTL", codes "-42ns")
      ∷ [];
  parse_duration = λ text. some (negsuc 41);
}

new_unlocker-load_example :
    (u : Unlocker) × (new_unlocker toy
        (load environment).unlock_token_secret
        (load environment).unlock_ttl
      ≡ ok u)
new_unlocker-load_example = new_unlocker-load toy environment

abbrev config : Config
config = record {
  port = codes "8080";
  dsn = [];
  actuator_username = codes "actuator";
  actuator_password = codes "probe";
  admin_username = codes "bob";
  admin_password = codes "pw";
  session_secret = codes "s";
  mcp_token_secret = codes "s";
  unlock_token_secret = codes "s";
  unlock_ttl = pos (3600 * 10 ^ 9);
  max_upload_size = 10 * 2 ^ 20;
  oidc_issuer_url = [];
  oidc_client_id = [];
  oidc_client_secret = [];
  oidc_allowed_users = [];
}

abbrev externals : Externals
externals = record {
  platform = platform;
  bcrypt = bcrypt;
  admin_salt = [];
  actuator_salt = [];
  fits = λ session. true;
  query_escape = λ text. text;
  error_text = λ e. [];
  list_before = λ owner limit w. (err db_failure, w);
  suffices = λ scopes time info. true;
  decode_base64 = λ text. undecodable [];
  oauth_platform = toy_platform;
  urls = record { parses = λ url. true; with_query = λ url parameters. url };
  provider = record {
    auth_code_url = λ state. state;
    exchange = λ code. none;
    verify = λ raw. none;
    end_session_endpoint = none;
    encode_base64 = λ bytes. bytes;
  };
}

abbrev pub server : Server
server = record {
  externals = externals;
  config = config;
  given_base_url = codes "https://a.example";
  unlocker = record { key = codes "k"; ttl = 3600 * 10 ^ 9 };
}

bob_ne_actuator : codes "bob" ≢ codes "actuator"
unfolding bytes_eq
bob_ne_actuator = bytes_ne (codes "bob") (codes "actuator") refl

pub bob_ne_ann : codes "bob" ≢ codes "ann"
unfolding bytes_eq
bob_ne_ann = bytes_ne (codes "bob") (codes "ann") refl

eve_ne_ann : codes "iss|eve" ≢ codes "ann"
unfolding bytes_eq
eve_ne_ann = bytes_ne (codes "iss|eve") (codes "ann") refl

server-HasAccounts : HasAccounts server
server-HasAccounts = record {
  faithful = bcrypt-IsFaithful;
  admin_hash = 1 ∷ codes "pw";
  actuator_hash = 1 ∷ codes "probe";
  admin_made = refl;
  actuator_made = refl;
  different = bob_ne_actuator;
}

abbrev bob : User
bob = record { username = codes "bob"; role = codes "USER" }

authenticate-new_user_store_example :
    (authenticate bcrypt
        (new_user_store bcrypt [] [] (codes "bob") (codes "pw") (codes "actuator") (codes "probe"))
        (codes "bob")
        (codes "pw")
      ≡ some bob)
    ↔ (((codes "bob" ≡ codes "bob")
          × (codes "pw" ≡ codes "pw")
          × (bob ≡ record { username = codes "bob"; role = codes "USER" }))
        ⊎ ((codes "bob" ≡ codes "actuator")
            × (codes "pw" ≡ codes "probe")
            × (bob ≡ record { username = codes "actuator"; role = codes "ACTUATOR" })))
authenticate-new_user_store_example =
    authenticate-new_user_store bcrypt bcrypt-IsFaithful [] [] (codes "bob") (codes "pw")
      (codes "actuator") (codes "probe") (1 ∷ codes "pw") (1 ∷ codes "probe") refl refl
      bob_ne_actuator (codes "bob") (codes "pw") bob

abbrev form : HttpRequest
form = record request {
  form = (codes "username", codes "bob") ∷ (codes "password", codes "pw") ∷ [];
}

login_submit-admin_example :
    ((field (codes "username") form.form ≡ codes "bob")
      × (field (codes "password") form.form ≡ codes "pw")
      × (login_submit (web_handler server) form
          ≡ sign_in externals.fits form.session (codes "bob")))
    ⊎ ((login_submit (web_handler server) form).saved ≡ none)
login_submit-admin_example = login_submit-admin server server-HasAccounts form

-- Bob asks the API to change Ann's entry, and Eve deletes it on the site.
abbrev by_bob : HttpRequest
by_bob = record request {
  credentials = some (codes "bob", codes "pw");
  form = (codes "title", codes "Mine") ∷ [];
}

abbrev by_eve : HttpRequest
by_eve = record request { session = (codes "username", codes "iss|eve") ∷ [] }

abbrev events : List Event
events =
    api (put_entry (codes "docs")) by_bob
    ∷ passes 60
    ∷ public get_login request
    ∷ web (post_delete (codes "docs")) by_eve
    ∷ []

others : All (SpeaksFor server (Others platform 1 row (file ∷ []))) events
unfolding session_text field lookup bytes_eq
others = (
  λ user shown same.
      bob_ne_ann (sym (Shows-admin server server-HasAccounts by_bob user shown).1 ∙ sym same),
  (tt, (tt, (λ username named same. eve_ne_ann cc, tt))),
)

run-Intact_example : Intact platform 1 row (file ∷ []) (run server events world).db
run-Intact_example =
    run-Intact server 1 row (file ∷ []) (λ owner size w safe. safe) events world others
      (record { row = refl; own = refl }, consistent)

run-IsConsistent_example : IsConsistent platform.collate (run server events world).db
run-IsConsistent_example =
    run-IsConsistent server (λ owner size w safe. safe) events world consistent
