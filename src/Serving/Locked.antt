-- ===== src/Serving/Locked.antt =====
-- The pages of an encrypted site, as a visitor sees them who has no key that opens.
use easy_host_k8s.Prelude.{◌≡◌, ℕ, false, [], Bytes, codes, contains, if◌then◌else◌, arith}
use easy_host_k8s.World.{World}
use easy_host_k8s.Content.{no_dek}
use easy_host_k8s.Content.Confidential.{IsLocked, get_file-locked}
use easy_host_k8s.Serving.{
  Request, ServingHandler, http_error, prompt_unlock, respond_file, serve_file, serve_path,
  dek_from_cookie,
}

module _ (h : ServingHandler) (r : Request) (slug path : Bytes) (w : World) where
  -- While no call of the database fails, a visitor whose cookie yields no key gets the same answer for
  -- every path of an encrypted entry, whether there is a file or not and whatever is in it: status
  -- 403 for a path with "..", and the passphrase form for every other one.
  pub serve_path-locked :
      IsLocked h.platform slug w
      → dek_from_cookie h w.clock r slug ≡ no_dek
      → ((n : ℕ) → w.fails n ≡ false)
      → (serve_path h r slug path w).0 ≡ (
          if contains path (codes "..")
          then http_error 403 (codes "Forbidden")
          else prompt_unlock [] slug r.path [])
  unfolding serve_path serve_file respond_file
  serve_path-locked locked keyless never =
      ground (arith, keyless, get_file-locked h.platform slug path w locked never)
