-- ===== src/Serving/Headers.antt =====
-- The caching headers of what serving.go answers for an encrypted site.
use easy_host_k8s.Prelude.{
  ◌≡◌, refl, true, Option, none, some, List, [], ◌∷◌, Bytes, codes, bytes_eq, if◌then◌else◌, Result,
  ok, err, passphrase_required, wrong_passphrase, corrupted, arith, contains, Bool-cases, inl, inr,
}
use easy_host_k8s.World.{World, with_entropy}
use easy_host_k8s.Model.{ContentFile}
use easy_host_k8s.Content.Service.{get_file, unlock}
use easy_host_k8s.Content.Confidential.{IsLocked, get_file-locked_encrypted}
use easy_host_k8s.Serving.{
  Request, Response, Body, page, prompt, message, redirect, ServingHandler, http_error,
  prompt_unlock, found_at, hand_over, file_response, respond_file, serve_file, serve_index,
  serve_path, dek_from_cookie, safe_next, respond_unlock, submit_passphrase,
}

-- The value of a header
unfoldable pub get_header : Bytes → List (Bytes × Bytes) → Option Bytes
unfolding bytes_eq
get_header name [] = none
get_header name ((key, value) ∷ headers) =
    if bytes_eq key name then some value else get_header name headers

-- Neither kept by a shared cache nor put into an index
pub record IsUnlisted (r : Response) : Type 0 where
  pub caching : get_header (codes "Cache-Control") r.headers ≡ some (codes "private, no-store")
  pub robots : get_header (codes "X-Robots-Tag") r.headers ≡ some (codes "noindex, nofollow")

-- An answer with a file or with the passphrase form is unlisted.
abbrev pub Unlisted : Response → Body → Type 0
Unlisted r (page _) = IsUnlisted r
Unlisted r (prompt _) = IsUnlisted r
Unlisted r (message _) = Unit
Unlisted r (redirect _) = Unit

abbrev pub KeepsPrivate : Response → Type 0
KeepsPrivate r = Unlisted r r.body

file_response-KeepsPrivate : (f : ContentFile) → f.encrypted ≡ true → KeepsPrivate (file_response f)
unfolding file_response get_header
file_response-KeepsPrivate f e = record { caching = ground arith; robots = ground arith }

module _ (h : ServingHandler) (r : Request) (slug : Bytes) where
  respond_file-KeepsPrivate :
      (f : Result ContentFile)
      → ((file : ContentFile) → f ≡ ok file → file.encrypted ≡ true)
      → KeepsPrivate (respond_file h r slug f)
  unfolding respond_file prompt_unlock http_error get_header
  respond_file-KeepsPrivate (ok f) encrypted = file_response-KeepsPrivate f (encrypted f refl)
  respond_file-KeepsPrivate (err passphrase_required) encrypted = record {
    caching = refl;
    robots = refl;
  }
  respond_file-KeepsPrivate (err corrupted) encrypted = record { caching = refl; robots = refl }
  respond_file-KeepsPrivate (err e) encrypted = tt

  serve_file-KeepsPrivate :
      (path : Bytes) (w : World)
      → IsLocked h.platform slug w
      → KeepsPrivate (serve_file h r slug path w).0
  unfolding serve_file
  serve_file-KeepsPrivate path w locked =
      respond_file-KeepsPrivate
        (get_file h.platform slug path (dek_from_cookie h w.clock r slug) w).0
        (get_file-locked_encrypted h.platform slug path w locked (dek_from_cookie h w.clock r slug))

  serve_path-KeepsPrivate :
      (path : Bytes) (w : World)
      → IsLocked h.platform slug w
      → KeepsPrivate (serve_path h r slug path w).0
  unfolding serve_path http_error
  serve_path-KeepsPrivate path w locked = elim (Bool-cases (contains path (codes ".."))) [
    | inl up ↦ rw up tt
    | inr inside ↦ rw inside (serve_file-KeepsPrivate path w locked)
  ]

  hand_over-KeepsPrivate :
      (next : Bytes) (token : Result Bytes) → KeepsPrivate (hand_over h slug next token)
  unfolding found_at http_error
  hand_over-KeepsPrivate next (ok token) = tt
  hand_over-KeepsPrivate next (err e) = tt

  respond_unlock-KeepsPrivate :
      (next : Bytes) (res : Result Bytes) (w : World)
      → KeepsPrivate (respond_unlock h slug next res w).0
  unfolding respond_unlock with_entropy prompt_unlock found_at http_error get_header
  respond_unlock-KeepsPrivate next (ok dek) w = hand_over-KeepsPrivate next _
  respond_unlock-KeepsPrivate next (err passphrase_required) w = record {
    caching = refl;
    robots = refl;
  }
  respond_unlock-KeepsPrivate next (err wrong_passphrase) w = record {
    caching = refl;
    robots = refl;
  }
  respond_unlock-KeepsPrivate next (err e) w = tt

  -- Whatever key a visitor has and whatever calls of the database fail, every file of an encrypted entry
  -- and every passphrase form for it, at each of the three routes of a site, goes out with the headers
  -- that keep it out of shared caches and of search indexes.
  pub serving-KeepsPrivate :
      (path : Bytes) (w : World)
      → IsLocked h.platform slug w
      → KeepsPrivate (serve_index h r slug w).0
        × KeepsPrivate (serve_path h r slug path w).0
        × KeepsPrivate (submit_passphrase h r slug w).0
  unfolding serve_index submit_passphrase
  serving-KeepsPrivate path w locked = (
    serve_file-KeepsPrivate (codes "index.html") w locked,
    serve_path-KeepsPrivate path w locked,
    respond_unlock-KeepsPrivate (safe_next slug r.next) (unlock h.platform slug r.passphrase w).0
        (unlock h.platform slug r.passphrase w).1,
  )
