-- ===== src/Http.antt =====
-- What the handlers under backend-go/internal/handler and the middleware see of net/http and of
-- gorilla/sessions: requests, answers, and the values of the cookie "session". Decoding a request is
-- the work of those libraries, so a request holds what they return.
use easy_host_k8s.Prelude.{
  ℕ, Bool, Option, none, some, List, [], ◌∷◌, Bytes, codes, is_empty, if◌then◌else◌, Map, lookup,
}

-- session.Values
abbrev pub Session : Type 0
Session = Map Bytes

-- A file of a multipart form: its bytes and its name
pub record Upload : Type 0 where
  pub content : Bytes
  pub name : Bytes

pub record HttpRequest : Type 0 where
  pub method : Bytes
  pub path : Bytes
  -- r.URL.RequestURI()
  pub uri : Bytes
  -- r.BasicAuth()
  pub credentials : Option (Bytes × Bytes)
  -- sessions.Get: empty without a valid cookie
  pub session : Session
  -- the header X-Forwarded-For, empty if it is missing
  pub forwarded_for : Bytes
  pub remote_addr : Bytes
  -- r.URL.Query()
  pub query : Map Bytes
  -- whether ParseForm or ParseMultipartForm succeeds
  pub form_parses : Bool
  -- r.FormValue
  pub form : Map Bytes
  -- r.PostFormValue
  pub post_form : Map Bytes
  -- the value of the cookie eh_unlock
  pub unlock_cookie : Option Bytes
  -- r.FormFile("file")
  pub file : Option Upload

-- What is written: nothing, the text of http.Error, a redirect, or a value for JSON or a template
pub data Payload (V : Type 0) : Type 0 where
  nothing : Payload V
  text : Bytes → Payload V
  location : Bytes → Payload V
  value : V → Payload V

pub record Answer (V : Type 0) : Type 0 where
  pub status : ℕ
  pub headers : List (Bytes × Bytes)
  -- the values of the session cookie that is set
  pub saved : Option Session
  pub body : Payload V

abbrev pub Handler : Type 0 → Type 0 → Type 0
Handler V S = HttpRequest → S → Answer V × S

abbrev pub text_or_nil : Option Bytes → Bytes
text_or_nil none = []
text_or_nil (some s) = s

-- The value of a form or a query, empty if it is missing
unfoldable pub field : Bytes → Map Bytes → Bytes
field name values = text_or_nil (lookup name values)

abbrev pub unless_empty : Bytes → Option Bytes
unless_empty s = if is_empty s then none else some s

-- `v, ok := session.Values[key].(string)`, with the test that v is not empty
unfoldable pub session_text : Bytes → Session → Option Bytes
session_text key session = unless_empty (field key session)

-- session.Save: a session that is too long for a cookie is not set, and its error is ignored
unfoldable pub save : (Session → Bool) → Session → Option Session
save fits session = if fits session then some session else none

-- What a browser sends after an answer: the cookie that was set, or the one before
abbrev pub after_answer : Session → Option Session → Session
after_answer before none = before
after_answer before (some session) = session

module _ {V : Type 0} where
  -- http.Error
  abbrev pub error_answer : ℕ → Bytes → Answer V
  error_answer status message = record {
    status = status;
    headers = [];
    saved = none;
    body = text message;
  }

  -- http.Redirect with http.StatusFound
  abbrev pub redirect_answer : Option Session → Bytes → Answer V
  redirect_answer saved target = record {
    status = 302;
    headers = [];
    saved = saved;
    body = location target;
  }

  -- A template that is drawn
  abbrev pub page_answer : Option Session → V → Answer V
  page_answer saved v = record {
    status = 200;
    headers = (codes "Content-Type", codes "text/html; charset=utf-8") ∷ [];
    saved = saved;
    body = value v;
  }

  -- writeJSON
  unfoldable pub write_json : ℕ → V → Answer V
  write_json status v = record {
    status = status;
    headers = (codes "Content-Type", codes "application/json") ∷ [];
    saved = none;
    body = value v;
  }
