-- ===== src/Middleware.antt =====
-- backend-go/internal/middleware/middleware.go: what runs in front of the handlers. A middleware is a
-- function from handlers to handlers; the user that it puts into the context is the handler's argument.
-- rate.Limiter of golang.org/x/time is a parameter, and the clock is an argument.
pub mod Access
pub mod Arrivals
pub mod Limits
use easy_host_k8s.Prelude.{
  ℕ, ◌+◌, ◌*◌, ◌^◌, Bool, true, false, not, ◌&&◌, ◌||◌, Option, none, some, List, [], ◌∷◌, ◌++◌,
  Bytes, codes, bytes_eq, has_prefix, is_empty, any, ltb, if◌then◌else◌, Map, lookup, insert,
  remove, retain,
}
use easy_host_k8s.Paths.{split, trim_space}
use easy_host_k8s.Auth.{User, UserStore, Bcrypt, authenticate}
use easy_host_k8s.Http.{
  HttpRequest, Answer, Payload, nothing, Handler, error_answer, redirect_answer, session_text,
}

abbrev pub challenge : List (Bytes × Bytes)
challenge = (codes "WWW-Authenticate", codes "Basic realm=\"easy-host\"") ∷ []

abbrev pub cors_headers : List (Bytes × Bytes)
cors_headers =
    (codes "Access-Control-Allow-Origin", codes "*")
    ∷ (codes "Access-Control-Allow-Methods", codes "GET, POST, DELETE, OPTIONS")
    ∷ (
      codes "Access-Control-Allow-Headers",
      codes "Authorization, Content-Type, Mcp-Session-Id, MCP-Protocol-Version, Last-Event-ID",
    )
    ∷ (codes "Access-Control-Expose-Headers", codes "Mcp-Session-Id, WWW-Authenticate")
    ∷ (codes "Vary", codes "Origin")
    ∷ []

module _ {V S : Type 0} where
  abbrev pub with_headers : List (Bytes × Bytes) → Answer V × S → Answer V × S
  with_headers headers (a, s) = (record a { headers = headers ++ a.headers }, s)

  abbrev pub admit : Bytes → (User → Handler V S) → Option User → Handler V S
  admit required_role next none r s = (error_answer 403 (codes "Forbidden"), s)
  admit required_role next (some user) r s =
      if not (bytes_eq user.role required_role)
      then (error_answer 403 (codes "Forbidden"), s)
      else next user r s

  abbrev pub check_credentials :
      Bcrypt → UserStore → Bytes → (User → Handler V S) → Option (Bytes × Bytes) → Handler V S
  check_credentials b users required_role next none r s =
      with_headers challenge (error_answer 401 (codes "Unauthorized"), s)
  check_credentials b users required_role next (some (username, password)) r s =
      admit required_role next (authenticate b users username password) r s

  -- BasicAuth
  unfoldable pub basic_auth : Bcrypt → UserStore → Bytes → (User → Handler V S) → Handler V S
  basic_auth b users required_role next r s =
      check_credentials b users required_role next r.credentials r s

  abbrev pub admit_name : (User → Handler V S) → Option Bytes → Handler V S
  admit_name next none r s = (redirect_answer none (codes "/login"), s)
  admit_name next (some username) r s =
      next (record { username = username; role = codes "USER" }) r s

  -- SessionAuth
  unfoldable pub session_auth : (User → Handler V S) → Handler V S
  session_auth next r s = admit_name next (session_text (codes "username") r.session) r s

  -- CORS
  unfoldable pub cors : Handler V S → Handler V S
  cors next r s = with_headers cors_headers (
      if bytes_eq r.method (codes "OPTIONS")
      then (record { status = 204; headers = []; saved = none; body = nothing }, s)
      else next r s)

  -- SecurityHeaders
  unfoldable pub security_headers : Handler V S → Handler V S
  security_headers next r s =
      with_headers
        ((codes "X-Content-Type-Options", codes "nosniff")
          ∷ (codes "X-Frame-Options", codes "DENY")
          ∷ (codes "Strict-Transport-Security", codes "max-age=31536000; includeSubDomains")
          ∷ [])
        (next r s)

-- rate.NewLimiter, from tokens per second and a burst, and Allow at a time
pub record Buckets (L : Type 0) : Type 0 where
  pub new_limiter : ℕ → ℕ → L
  pub allow : ℕ → L → Bool × L

pub record VisitorEntry (L : Type 0) : Type 0 where
  pub limiter : L
  pub last_seen : ℕ

pub record RateLimiter (L : Type 0) : Type 0 where
  pub visitors : Map (VisitorEntry L)
  pub rate : ℕ
  pub burst : ℕ

-- time.Hour
abbrev pub hour : ℕ
hour = 3600 * 10 ^ 9

abbrev pub excluded : List Bytes
excluded =
    codes "/login"
    ∷ codes "/dashboard"
    ∷ codes "/upload"
    ∷ codes "/edit/"
    ∷ codes "/delete/"
    ∷ codes "/actuator"
    ∷ codes "/css/"
    ∷ codes "/js/"
    ∷ codes "/fonts/"
    ∷ codes "/mcp"
    ∷ codes "/oauth/"
    ∷ codes "/.well-known/"
    ∷ codes "/"
    ∷ []

-- Whether the limiter lets a path pass unseen
unfoldable pub is_excluded : Bytes → Bool
is_excluded path =
    any (λ ex. bytes_eq path ex || (not (bytes_eq ex (codes "/")) && has_prefix path ex)) excluded

abbrev pub first_part : List Bytes → Bytes
first_part [] = []
first_part (part ∷ parts) = part

-- clientIP
unfoldable pub client_ip : HttpRequest → Bytes
client_ip r =
    if is_empty r.forwarded_for
    then r.remote_addr
    else trim_space (first_part (split b',' r.forwarded_for))

module _ {L : Type 0} (b : Buckets L) where
  -- NewRateLimiter
  unfoldable pub new_rate_limiter : RateLimiter L
  new_rate_limiter = record { visitors = []; rate = 10; burst = 10 }

  abbrev pub put_visitor : Bytes → L → ℕ → RateLimiter L → RateLimiter L
  put_visitor ip limiter time rl = record rl {
    visitors = insert ip (record { limiter = limiter; last_seen = time }) rl.visitors;
  }

  abbrev pub limiter_of : RateLimiter L → Option (VisitorEntry L) → L
  limiter_of rl none = b.new_limiter rl.rate rl.burst
  limiter_of rl (some v) = v.limiter

  -- getVisitor: the limiter of an address, which is seen at a time
  unfoldable pub get_visitor : ℕ → Bytes → RateLimiter L → L × RateLimiter L
  get_visitor time ip rl =
      let limiter = limiter_of rl (lookup ip rl.visitors) in
      (limiter, put_visitor ip limiter time rl)

  -- rl.getVisitor(ip).Allow(), which changes the limiter in its entry
  unfoldable pub allow_visitor : ℕ → Bytes → RateLimiter L → Bool × RateLimiter L
  allow_visitor time ip rl =
      let (limiter, rl') = get_visitor time ip rl in
      let (allowed, limiter') = b.allow time limiter in (allowed, put_visitor ip limiter' time rl')

  -- A round of the loop in cleanup
  unfoldable pub cleanup : ℕ → RateLimiter L → RateLimiter L
  cleanup time rl = record rl {
    visitors = retain (λ v. not (ltb (v.last_seen + hour) time)) rl.visitors;
  }

  -- RateLimiter.Middleware, on the table of visitors beside the handler's state
  unfoldable pub limit_rate :
      {V S : Type 0}
      → ℕ
      → Handler V S
      → HttpRequest
      → RateLimiter L × S
      → Answer V × (RateLimiter L × S)
  limit_rate time next r (rl, s) =
      if is_excluded r.path
      then (let (a, s') = next r s in (a, (rl, s')))
      else (let (allowed, rl') = allow_visitor time (client_ip r) rl in
          if not allowed
          then (error_answer 429 (codes "Too Many Requests"), (rl', s))
          else (let (a, s') = next r s in (a, (rl', s'))))
