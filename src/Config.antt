-- ===== src/Config.antt =====
-- backend-go/internal/config/config.go: the configuration, read from the environment.
-- time.ParseDuration is a parameter; a duration is in nanoseconds.
pub mod Sources
use easy_host_k8s.Prelude.{
  ℕ, zero, suc, ◌*◌, ◌^◌, ltb, Bool, true, false, not, Option, none, some, List, [], ◌∷◌, ◌++◌, map,
  Bytes, codes, has_prefix, is_empty, drop, length, filter, if◌then◌else◌, ◌==◌, Map,
}
use easy_host_k8s.Prelude.{ℤ, pos, is_positive}
use easy_host_k8s.Paths.{split, trim_space}
use easy_host_k8s.Http.{field}

-- os.Getenv reads one of the variables, and a variable that is not set is empty.
pub record Environment : Type 0 where
  pub variables : Map Bytes
  -- time.ParseDuration, in nanoseconds; none for an error
  pub parse_duration : Bytes → Option ℤ

pub record Config : Type 0 where
  pub port : Bytes
  pub dsn : Bytes
  pub actuator_username : Bytes
  pub actuator_password : Bytes
  pub admin_username : Bytes
  pub admin_password : Bytes
  pub session_secret : Bytes
  pub mcp_token_secret : Bytes
  pub unlock_token_secret : Bytes
  pub unlock_ttl : ℤ
  pub max_upload_size : ℕ
  pub oidc_issuer_url : Bytes
  pub oidc_client_id : Bytes
  pub oidc_client_secret : Bytes
  pub oidc_allowed_users : List Bytes

-- Config.OIDCEnabled
unfoldable pub oidc_enabled : Config → Bool
oidc_enabled c = not (is_empty c.oidc_issuer_url)

abbrev pub or_fallback : Bytes → Bytes → Bytes
or_fallback fallback v = if is_empty v then fallback else v

-- The list of a variable that is split at commas
unfoldable pub allowed_users : Bytes → List Bytes
allowed_users v =
    if is_empty v then [] else filter (λ u. not (is_empty u)) (map trim_space (split b',' v))

abbrev pub positive_or : ℤ → Option ℤ → ℤ
positive_or fallback none = fallback
positive_or fallback (some d) = if is_positive d then d else fallback

abbrev pub default_secret : Bytes
default_secret = codes "change-me-in-production-32bytes!"

-- strings.Index(s, sep) and what stands before it and behind it, for a separator of one byte
abbrev pub before : ℕ → Bytes → Bytes
before sep [] = []
before sep (c ∷ s) = if c == sep then [] else c ∷ before sep s

abbrev pub behind : ℕ → Bytes → Bytes
behind sep [] = []
behind sep (c ∷ s) = if c == sep then s else behind sep s

-- Without the first of the prefixes that a text has
abbrev pub strip_prefix : List Bytes → Bytes → Bytes
strip_prefix [] s = s
strip_prefix (pre ∷ prefixes) s =
    if has_prefix s pre then drop (length pre) s else strip_prefix prefixes s

-- The data source name for user, password, address and database
unfoldable pub dsn_of : Bytes → Bytes → Bytes → Bytes → Bytes
dsn_of user pass address name =
    user
    ++ (codes ":"
        ++ (pass
            ++ (codes "@tcp("
                ++ (address
                    ++ (codes ")/"
                        ++ (name
                            ++ codes "?parseTime=true&charset=utf8mb4&multiStatements=true"))))))

module _ (env : Environment) where
  abbrev pub getenv : Bytes → Bytes
  getenv key = field key env.variables

  -- envOr
  unfoldable pub env_or : Bytes → Bytes → Bytes
  env_or key fallback = or_fallback fallback (getenv key)

  -- durationOr
  unfoldable pub duration_or : Bytes → ℤ → ℤ
  duration_or key fallback =
      if is_empty (getenv key)
      then fallback
      else positive_or fallback (env.parse_duration (getenv key))

  -- parseJDBCURL
  unfoldable pub parse_jdbc_url : Bytes → Bytes
  parse_jdbc_url jdbc =
      let s =
        before b'?' (strip_prefix (codes "jdbc:mariadb://" ∷ codes "jdbc:mysql://" ∷ []) jdbc) in
      dsn_of (env_or (codes "SPRING_DATASOURCE_USERNAME") (codes "easyhost"))
        (env_or (codes "SPRING_DATASOURCE_PASSWORD") (codes "easyhost")) (before b'/' s)
        (or_fallback (codes "easyhost") (behind b'/' s))

  -- buildDSN
  unfoldable pub build_dsn : Bytes
  build_dsn =
      if not (is_empty (getenv (codes "DATABASE_URL")))
      then getenv (codes "DATABASE_URL")
      else if not (is_empty (getenv (codes "SPRING_DATASOURCE_URL")))
      then parse_jdbc_url (getenv (codes "SPRING_DATASOURCE_URL"))
      else dsn_of (env_or (codes "SPRING_DATASOURCE_USERNAME") (codes "easyhost"))
          (env_or (codes "SPRING_DATASOURCE_PASSWORD") (codes "easyhost"))
          (env_or (codes "DB_HOST") (codes "localhost")
            ++ (codes ":" ++ env_or (codes "DB_PORT") (codes "3306")))
          (env_or (codes "DB_NAME") (codes "easyhost"))

  -- Load
  unfoldable pub load : Config
  load = record {
    port = env_or (codes "PORT") (codes "8080");
    dsn = build_dsn;
    actuator_username = env_or (codes "ACTUATOR_USERNAME") (codes "actuator");
    actuator_password = env_or (codes "ACTUATOR_PASSWORD") (codes "changeme");
    admin_username = env_or (codes "APP_ADMIN_USERNAME") (codes "admin");
    admin_password = env_or (codes "APP_ADMIN_PASSWORD") (codes "changeme");
    session_secret = env_or (codes "SESSION_SECRET") default_secret;
    mcp_token_secret =
        env_or (codes "MCP_TOKEN_SECRET") (env_or (codes "SESSION_SECRET") default_secret);
    unlock_token_secret =
        env_or (codes "UNLOCK_TOKEN_SECRET") (env_or (codes "SESSION_SECRET") default_secret);
    unlock_ttl = duration_or (codes "UNLOCK_TTL") (pos (12 * (3600 * 10 ^ 9)));
    max_upload_size = 10 * 2 ^ 20;
    oidc_issuer_url = getenv (codes "OIDC_ISSUER_URL");
    oidc_client_id = getenv (codes "OIDC_CLIENT_ID");
    oidc_client_secret = getenv (codes "OIDC_CLIENT_SECRET");
    oidc_allowed_users = allowed_users (getenv (codes "OIDC_ALLOWED_USERS"));
  }
