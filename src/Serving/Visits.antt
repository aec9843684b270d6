-- ===== src/Serving/Visits.antt =====
-- A visit of serving.go over several requests: the passphrase is submitted, and the cookie comes back.
use easy_host_k8s.Prelude.{
  ℕ, ◌+◌, ◌^◌, ◌<◌, ◌≡◌, refl, ◌≢◌, ap, ◌∙◌, some, [], ◌∷◌, Bytes, leb, if◌then◌else◌, Result, ok,
  err, arith,
}
use easy_host_k8s.Crypto.{IsSound, IsAuthentic}
use easy_host_k8s.Unlock.{seal_token, unix}
use easy_host_k8s.Unlock.Tokens.{
  seal_token-is_empty, open_token-seal_token, open_token-seal_token_moved,
}
use easy_host_k8s.World.{World, with_entropy}
use easy_host_k8s.Content.{no_dek}
use easy_host_k8s.Content.Service.{unlock}
use easy_host_k8s.Serving.{
  Request, Cookie, ServingHandler, http_error, found_at, safe_next, unlock_cookie, dek_from_cookie,
  hand_over, respond_unlock, submit_passphrase,
}

hand_over-cookies :
    (h : ServingHandler) (slug next : Bytes) (t : Result Bytes) {c : Cookie}
    → (hand_over h slug next t).cookies ≡ c ∷ []
    → (token : Bytes) × (t ≡ ok token) × (c ≡ unlock_cookie h slug token)
unfolding found_at http_error
hand_over-cookies h slug next (ok token) e = (token, refl, cc)
hand_over-cookies h slug next (err x) e = cc

module _ (h : ServingHandler) (r : Request) (slug : Bytes) (w : World) {c : Cookie} {dek : Bytes}
    {w' : World} (unlocked : unlock h.platform slug r.passphrase w ≡ (ok dek, w'))
    (answered : (submit_passphrase h r slug w).0.cookies ≡ c ∷ []) where
  open h use {platform, unlocker, secure_cookies}

  -- A later request that carries the cookie carries a token that was minted for the key.
  carried :
      (later : Request)
      → later.cookie ≡ some c.value
      → (token : Bytes) × (later.cookie ≡ some token)
        × (seal_token platform.primitives unlocker w'.clock slug dek w'.entropy
            ≡ (ok token, (seal_token platform.primitives unlocker w'.clock slug dek w'.entropy).1))
  unfolding submit_passphrase respond_unlock found_at http_error with_entropy unlock_cookie
  carried later kept =
      let (token, sealed, e) =
        hand_over-cookies h slug (safe_next slug r.next)
          (seal_token platform.primitives unlocker w'.clock slug dek w'.entropy).0
          (rw unlocked at answered) in
      (token, kept ∙ ap (λ (k : Cookie). some k.value) e, cc)

  -- With sound primitives, after a passphrase was accepted, the cookie of the answer gives later
  -- requests for that entry the data key that the passphrase opened, up to the second in which
  -- the token expires, and no key from then on. The expiry fits an int64 number of seconds.
  pub dek_from_cookie-submit_passphrase :
      (later : Request) (now : ℕ)
      → IsSound platform.primitives
      → later.cookie ≡ some c.value
      → unix (w'.clock + unlocker.ttl) < 2 ^ 63
      → dek_from_cookie h now later slug
        ≡ (if leb (unix (w'.clock + unlocker.ttl)) (unix now) then no_dek else dek)
  unfolding dek_from_cookie
  dek_from_cookie-submit_passphrase later now sound kept fits =
      let (token, held, minted) = carried later kept in
      rw
        (
          held,
          seal_token-is_empty platform.primitives sound unlocker w'.clock slug dek w'.entropy
              minted,
          open_token-seal_token platform.primitives sound unlocker w'.clock slug dek w'.entropy
              minted now fits,
        )
        (ground arith)

  -- If the primitives are sound and the cipher is authentic, the cookie gives no key for any
  -- other entry.
  pub dek_from_cookie-other_slug :
      (later : Request) (now : ℕ) (other : Bytes)
      → IsSound platform.primitives
      → IsAuthentic platform.primitives
      → later.cookie ≡ some c.value
      → slug ≢ other
      → dek_from_cookie h now later other ≡ no_dek
  unfolding dek_from_cookie
  dek_from_cookie-other_slug later now other sound authentic kept ne =
      let (token, held, minted) = carried later kept in
      rw
        (
          held,
          seal_token-is_empty platform.primitives sound unlocker w'.clock slug dek w'.entropy
              minted,
          open_token-seal_token_moved platform.primitives sound unlocker w'.clock slug dek
              w'.entropy minted now other authentic ne,
        )
        refl
