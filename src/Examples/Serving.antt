-- ===== src/Examples/Serving.antt =====
-- A protected site and the visits to it, with and without its passphrase.
use easy_host_k8s.Prelude.{
  ◌+◌, ◌≡◌, refl, ◌≢◌, true, false, none, some, [], ◌∷◌, ◌++◌, Bytes, codes, bytes_eq, bytes_ne,
  contains, if◌then◌else◌, leb, ◌↔◌, ok, arith,
}
use easy_host_k8s.Params.{
  default_params, params_string, parse_params, scan_params, scan_literal, scan_int, decimal,
  scan_uint,
}
use easy_host_k8s.Crypto.{put_uint64, dek_aad, draw, seal, open_sealed, rand_read, unwrap}
use easy_host_k8s.Crypto.Toy.{frame, pad, strip, toy-IsSound, toy-IsAuthentic}
use easy_host_k8s.Unlock.{unlock_aad, seal_token, unix}
use easy_host_k8s.Model.{Content}
use easy_host_k8s.World.{World, ContentRow, query, with_entropy}
use easy_host_k8s.Store.{scan_content}
use easy_host_k8s.Store.Queries.{get_content_by_slug, file_of}
use easy_host_k8s.Content.{content_by_slug, no_dek}
use easy_host_k8s.Content.Service.{unlock, get_file}
use easy_host_k8s.Content.Confidential.{IsLocked, get_file-locked_ne}
use easy_host_k8s.Serving.{
  respond_unlock, found_at, unlock_cookie, http_error, prompt_unlock, Request, ServingHandler,
  safe_next, serve_index, serve_path, submit_passphrase, dek_from_cookie,
}
use easy_host_k8s.Serving.Locked.{serve_path-locked}
use easy_host_k8s.Serving.Redirects.{IsSafe, LeadsTo, safe_next_iff, submit_passphrase-LeadsTo}
use easy_host_k8s.Serving.Headers.{KeepsPrivate, serving-KeepsPrivate}
use easy_host_k8s.Serving.Visits.{dek_from_cookie-submit_passphrase, dek_from_cookie-other_slug}
use easy_host_k8s.Examples.Content.{platform, world, row, file}

abbrev handler : ServingHandler
handler = record {
  platform = platform;
  unlocker = record { key = draw (λ n. n) 0 32; ttl = 3600000000000 };
  secure_cookies = true;
}

-- The salt and the wrapped key of the passphrase "pw"
abbrev pub salt : Bytes
salt = draw (λ n. n) 32 16

abbrev pub wrapped : Bytes
wrapped =
    draw (λ n. n) 48 24
    ++ (frame (pad 32 (codes "pw" ++ salt)) (dek_aad (codes "docs")) ++ draw (λ n. n) 0 32)

abbrev pub locked_row : ContentRow
locked_row = record row {
  enc_kdf = some (params_string default_params);
  enc_salt = salt;
  enc_wrapped_key = wrapped;
}

abbrev pub locked_world : World
locked_world = record world { db = record world.db { contents = locked_row ∷ [] } }

abbrev pub entry : Content
entry = record {
  id = 1;
  slug = codes "docs";
  owner = codes "ann";
  title = codes "Docs";
  source_url = [];
  creator = codes "ann";
  allow_external_resources = false;
  created_at = 5;
  updated_at = 5;
  encryption =
      some (record { kdf = params_string default_params; salt = salt; wrapped_key = wrapped });
}

locked : IsLocked platform (codes "docs") locked_world
unfolding scan_content bytes_eq draw params_string frame pad dek_aad
locked = record { entry = entry; read = refl; locked = refl }

abbrev visit : Request
visit = record {
  cookie = none;
  path = codes "/s/docs/a.css";
  passphrase = codes "pw";
  next = codes "/s/docs/a/../b";
}

serve_path-locked_example :
    (serve_path handler visit (codes "docs") (codes "a.css") locked_world).0 ≡ (
      if contains (codes "a.css") (codes "..")
      then http_error 403 (codes "Forbidden")
      else prompt_unlock [] (codes "docs") visit.path [])
unfolding dek_from_cookie
serve_path-locked_example =
    serve_path-locked handler visit (codes "docs") (codes "a.css") locked_world locked refl
      (λ n. refl)

unlocked :
    unlock platform (codes "docs") (codes "pw") locked_world
    ≡ (ok (draw (λ n. n) 0 32), record locked_world { calls = 1 })
unfolding unlock content_by_slug get_content_by_slug query scan_content bytes_eq unwrap open_sealed
    parse_params params_string strip frame pad draw dek_aad scan_params scan_literal scan_int
    decimal scan_uint default_params
unlocked = refl

-- The token that the visitor is handed: it expires after an hour.
abbrev token : Bytes
token =
    draw (λ n. n) 0 24
    ++ (frame handler.unlocker.key (unlock_aad (codes "docs"))
        ++ (put_uint64 3600 ++ draw (λ n. n) 0 32))

answered :
    (submit_passphrase handler visit (codes "docs") locked_world).0.cookies
    ≡ unlock_cookie handler (codes "docs") token ∷ []
unfolding submit_passphrase respond_unlock found_at with_entropy seal_token seal rand_read draw
answered = rw unlocked refl

abbrev later : Request
later = record visit { cookie = some token }

submit_passphrase-LeadsTo_example :
    LeadsTo (codes "docs") (submit_passphrase handler visit (codes "docs") locked_world).0.body
submit_passphrase-LeadsTo_example =
    submit_passphrase-LeadsTo handler visit (codes "docs") locked_world

serving-KeepsPrivate_example :
    KeepsPrivate (serve_index handler later (codes "docs") locked_world).0
    × KeepsPrivate (serve_path handler later (codes "docs") (codes "index.html") locked_world).0
    × KeepsPrivate (submit_passphrase handler later (codes "docs") locked_world).0
serving-KeepsPrivate_example =
    serving-KeepsPrivate handler later (codes "docs") (codes "index.html") locked_world locked

dek_from_cookie-submit_passphrase_example :
    dek_from_cookie handler 2000000000000 later (codes "docs")
    ≡ (if leb (unix (10 + 3600000000000)) (unix 2000000000000) then no_dek else draw (λ n. n) 0 32)
unfolding unlock_cookie
dek_from_cookie-submit_passphrase_example =
    dek_from_cookie-submit_passphrase handler visit (codes "docs") locked_world unlocked answered
      later 2000000000000 toy-IsSound refl (omega arith)

docs_ne_blog : codes "docs" ≢ codes "blog"
unfolding bytes_eq
docs_ne_blog = bytes_ne (codes "docs") (codes "blog") refl

dek_from_cookie-other_slug_example :
    dek_from_cookie handler 2000000000000 later (codes "blog") ≡ no_dek
unfolding unlock_cookie
dek_from_cookie-other_slug_example =
    dek_from_cookie-other_slug handler visit (codes "docs") locked_world unlocked answered later
      2000000000000 (codes "blog") toy-IsSound toy-IsAuthentic refl docs_ne_blog

safe_next_iff_example :
    (safe_next (codes "docs") (codes "/s/docs/a.html") ≡ codes "/s/docs/a.html")
    ↔ IsSafe (codes "docs") (codes "/s/docs/a.html")
safe_next_iff_example = safe_next_iff (codes "docs") (codes "/s/docs/a.html")

get_file-locked_ne_example :
    (get_file platform (codes "docs") (codes "index.html") no_dek locked_world).0
    ≢ ok (file_of locked_row file)
get_file-locked_ne_example =
    get_file-locked_ne platform (codes "docs") (codes "index.html") locked_world locked
      (file_of locked_row file)
