-- ===== src/Serving.antt =====
-- backend-go/internal/handler/serving.go: pages of a site, the passphrase form and the cookie that
-- keeps a visitor's data key. A handler is an action on the world that answers a request; the answer
-- holds what the handler itself gives to net/http, before a redirect's target is cleaned there.
pub mod Redirects
pub mod Headers
pub mod Locked
pub mod Visits
use easy_host_k8s.Prelude.{
  ℕ, ◌/◌, ◌^◌, Bool, true, false, not, ◌&&◌, ◌||◌, Option, none, some, List, [], ◌∷◌, ◌++◌, Bytes,
  codes, bytes_eq, has_prefix, contains, any, is_empty, ◌==◌, if◌then◌else◌, Result, ok, err, Error,
  not_found, invalid_file_path, passphrase_required, wrong_passphrase, not_encrypted, corrupted,
}
use easy_host_k8s.Unlock.{Unlocker, seal_token, open_token}
use easy_host_k8s.Model.{ContentFile}
use easy_host_k8s.World.{World, with_entropy}
use easy_host_k8s.Content.{Platform, no_dek}
use easy_host_k8s.Content.Service.{get_file, unlock}

-- What the handler reads of a request: the value of its unlock cookie, its path, and two form fields.
pub record Request : Type 0 where
  pub cookie : Option Bytes
  pub path : Bytes
  pub passphrase : Bytes
  pub next : Bytes

-- The attribute Max-Age: a number of seconds, or the past for -1
pub data MaxAge : Type 0 where
  seconds : ℕ → MaxAge
  past : MaxAge

-- A cookie named eh_unlock. It is always HttpOnly and SameSite=Lax.
pub record Cookie : Type 0 where
  pub value : Bytes
  pub path : Bytes
  pub max_age : MaxAge
  pub secure : Bool

pub record UnlockPromptData : Type 0 where
  pub slug : Bytes
  pub next : Bytes
  pub error : Bytes

-- What is written: a file, the passphrase form, the text of http.Error, or a redirect
pub data Body : Type 0 where
  page : Bytes → Body
  prompt : UnlockPromptData → Body
  message : Bytes → Body
  redirect : Bytes → Body

pub record Response : Type 0 where
  pub status : ℕ
  pub headers : List (Bytes × Bytes)
  pub cookies : List Cookie
  pub body : Body

pub record ServingHandler : Type 0 where
  pub platform : Platform
  pub unlocker : Unlocker
  pub secure_cookies : Bool

-- http.Error; the headers that it sets itself are left out
unfoldable pub http_error : ℕ → Bytes → Response
http_error status text = record { status = status; headers = []; cookies = []; body = message text }

-- http.Redirect with http.StatusFound
unfoldable pub found_at : List Cookie → Bytes → Response
found_at cookies target = record {
  status = 302;
  headers = [];
  cookies = cookies;
  body = redirect target;
}

-- contentPath
unfoldable pub content_path : Bytes → Bytes
content_path slug = codes "/s/" ++ slug

-- strings.ContainsAny(s, "\\\r\n")
abbrev pub breaks_header : Bytes → Bool
breaks_header s = any (λ c. c == b'\\' || (c == 13 || c == 10)) s

-- What safeNext refuses inside the content
abbrev pub is_unsafe : Bytes → Bool
is_unsafe next = breaks_header next || (contains next (codes "//") || contains next (codes ".."))

-- safeNext
unfoldable pub safe_next : Bytes → Bytes → Bytes
unfolding content_path
safe_next slug next =
    if bytes_eq next (content_path slug) || has_prefix next (content_path slug ++ codes "/")
    then if not (is_unsafe next) then next else content_path slug
    else content_path slug

abbrev pub no_store : List (Bytes × Bytes)
no_store =
    (codes "Cache-Control", codes "private, no-store")
    ∷ (codes "X-Robots-Tag", codes "noindex, nofollow")
    ∷ []

-- promptUnlock, behind the cookies that are set already
unfoldable pub prompt_unlock : List Cookie → Bytes → Bytes → Bytes → Response
prompt_unlock cookies slug next error = record {
  status = 401;
  headers = no_store;
  cookies = cookies;
  body = prompt (record { slug = slug; next = safe_next slug next; error = error });
}

abbrev pub key_or_none : Result Bytes → Bytes
key_or_none (ok dek) = dek
key_or_none (err _) = no_dek

abbrev pub security_policy : Bool → Bytes
security_policy true =
    codes "default-src 'self' 'unsafe-inline' *; script-src 'self' 'unsafe-inline' *; "
    ++ (codes "style-src 'self' 'unsafe-inline' *; img-src 'self' data: *; "
        ++ codes "font-src 'self' *; connect-src 'self' *; frame-ancestors 'none'")
security_policy false =
    codes "default-src 'none'; script-src 'self' 'unsafe-inline'; "
    ++ (codes "style-src 'self' 'unsafe-inline'; img-src 'self' data:; "
        ++ codes "font-src 'self'; frame-ancestors 'none'")

abbrev pub caching : Bool → List (Bytes × Bytes)
caching true = no_store ++ (codes "Vary", codes "Cookie") ∷ []
caching false = (codes "Cache-Control", codes "public, max-age=3600") ∷ []

-- The answer that carries a file
unfoldable pub file_response : ContentFile → Response
file_response f = record {
  status = 200;
  headers =
      (codes "Content-Type", f.content_type)
      ∷ (caching f.encrypted
          ++ (codes "Content-Security-Policy", security_policy f.allow_external_resources) ∷ []);
  cookies = [];
  body = page f.file_data;
}

module _ (h : ServingHandler) where
  open h use {platform, unlocker, secure_cookies}

  -- setUnlockCookie
  unfoldable pub unlock_cookie : Bytes → Bytes → Cookie
  unlock_cookie slug token = record {
    value = token;
    path = content_path slug;
    max_age = seconds (unlocker.ttl / 10 ^ 9);
    secure = secure_cookies;
  }

  -- clearUnlockCookie
  unfoldable pub cleared_cookie : Bytes → Cookie
  cleared_cookie slug = record {
    value = [];
    path = content_path slug;
    max_age = past;
    secure = secure_cookies;
  }

  abbrev pub key_in : ℕ → Bytes → Option Bytes → Bytes
  key_in now slug none = no_dek
  key_in now slug (some value) =
      if is_empty value
      then no_dek
      else key_or_none (open_token platform.primitives unlocker now slug value)

  -- dekFromCookie
  unfoldable pub dek_from_cookie : ℕ → Request → Bytes → Bytes
  dek_from_cookie now r slug = key_in now slug r.cookie

  -- The answer to what GetFile returns
  unfoldable pub respond_file : Request → Bytes → Result ContentFile → Response
  respond_file r slug (ok f) = file_response f
  respond_file r slug (err passphrase_required) = prompt_unlock [] slug r.path []
  respond_file r slug (err corrupted) =
      prompt_unlock (cleared_cookie slug ∷ []) slug r.path
        (codes "This link was locked again. Please enter the passphrase.")
  respond_file r slug (err not_found) = http_error 404 (codes "Not Found")
  respond_file r slug (err invalid_file_path) = http_error 404 (codes "Not Found")
  respond_file r slug (err e) = http_error 500 (codes "Internal error")

  -- serveFile
  unfoldable pub serve_file : Request → Bytes → Bytes → World → Response × World
  serve_file r slug path w =
      let (f, w') = get_file platform slug path (dek_from_cookie w.clock r slug) w in
      (respond_file r slug f, w')

  -- ServeIndex
  unfoldable pub serve_index : Request → Bytes → World → Response × World
  serve_index r slug = serve_file r slug (codes "index.html")

  -- ServeFile
  unfoldable pub serve_path : Request → Bytes → Bytes → World → Response × World
  serve_path r slug path w =
      if contains path (codes "..")
      then (http_error 403 (codes "Forbidden"), w)
      else serve_file r slug path w

  abbrev pub hand_over : Bytes → Bytes → Result Bytes → Response
  hand_over slug next (err e) = http_error 500 (codes "Internal error")
  hand_over slug next (ok token) = found_at (unlock_cookie slug token ∷ []) next

  -- The answer to what the service's Unlock returns
  unfoldable pub respond_unlock : Bytes → Bytes → Result Bytes → World → Response × World
  respond_unlock slug next (ok dek) w =
      let (token, w') = with_entropy (seal_token platform.primitives unlocker w.clock slug dek) w in
      (hand_over slug next token, w')
  respond_unlock slug next (err passphrase_required) w =
      (prompt_unlock [] slug next (codes "Please enter the passphrase."), w)
  respond_unlock slug next (err wrong_passphrase) w =
      (prompt_unlock [] slug next (codes "Wrong passphrase. Please try again."), w)
  respond_unlock slug next (err not_found) w = (http_error 404 (codes "Not Found"), w)
  respond_unlock slug next (err not_encrypted) w = (found_at [] next, w)
  respond_unlock slug next (err e) w = (http_error 500 (codes "Internal error"), w)

  -- Unlock
  unfoldable pub submit_passphrase : Request → Bytes → World → Response × World
  submit_passphrase r slug w =
      let (dek, w') = unlock platform slug r.passphrase w in
      respond_unlock slug (safe_next slug r.next) dek w'
