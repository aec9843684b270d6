-- ===== src/Server/Open.antt =====
-- What the routes without a user of the site leave alone.
use easy_host_k8s.Prelude.{
  ◌≡◌, refl, ◌∙◌, sym, ap, subst, none, some, Option, Bytes, codes, contains, Bool-cases, inl, inr,
  Result, ok, err, arith,
}
use easy_host_k8s.World.{World, Database, with_entropy}
use easy_host_k8s.Http.{HttpRequest, field}
use easy_host_k8s.Store.Reads.{sites}
use easy_host_k8s.Content.Service.{unlock}
use easy_host_k8s.Content.Requests.{After, get_file-After, unlock-After}
use easy_host_k8s.Serving.{
  ServingHandler, Request, respond_unlock, serve_file, serve_index, serve_path, submit_passphrase,
  dek_from_cookie, safe_next,
}
use easy_host_k8s.Oauth.Sites.{
  exchange_authorization_code-Leaves, exchange_refresh_token-Leaves, issue_authorization_code-sites,
  register_client-Leaves,
}
use easy_host_k8s.Oauth.Consent.{authorize-cases}
use easy_host_k8s.Oauth.Registration.{ClientRegistrationRequest}
use easy_host_k8s.Oauth.Endpoints.{McpOauthHandler, register, authorize, token, client_credentials}

module _ (P : Database → Type 0) (h : ServingHandler) where
  serve_file-After : (r : Request) (slug path : Bytes) → After P (serve_file h r slug path)
  unfolding serve_file
  serve_file-After r slug path w =
      get_file-After h.platform P slug path (dek_from_cookie h w.clock r slug) w

  pub serve_index-After : (r : Request) (slug : Bytes) → After P (serve_index h r slug)
  unfolding serve_index
  serve_index-After r slug = serve_file-After r slug (codes "index.html")

  pub serve_path-After : (r : Request) (slug path : Bytes) → After P (serve_path h r slug path)
  unfolding serve_path
  serve_path-After r slug path w kept = elim (Bool-cases (contains path (codes ".."))) [
    | inl climbs ↦ rw climbs kept
    | inr stays ↦ rw stays (serve_file-After r slug path w kept)
  ]

  -- What answers the service's Unlock draws random bytes at most.
  respond_unlock-db :
      (slug next : Bytes) (res : Result Bytes) (w : World)
      → (respond_unlock h slug next res w).1.db ≡ w.db
  unfolding respond_unlock with_entropy
  respond_unlock-db slug next (ok dek) w = refl
  respond_unlock-db slug next (err e) w = ground arith

  pub submit_passphrase-After : (r : Request) (slug : Bytes) → After P (submit_passphrase h r slug)
  unfolding submit_passphrase
  submit_passphrase-After r slug w kept =
      subst P
        (sym (
          respond_unlock-db slug (safe_next slug r.next) (unlock h.platform slug r.passphrase w).0
            (unlock h.platform slug r.passphrase w).1))
        (unlock-After h.platform P slug r.passphrase w kept)

module _ (h : McpOauthHandler) where
  pub register-sites :
      (o : Option ClientRegistrationRequest) (w : World) → sites (register h o w).1.db ≡ sites w.db
  unfolding register
  register-sites none w = refl
  register-sites (some r) w = (register_client-Leaves h.platform r).behind w

  pub authorize-sites : (r : HttpRequest) (w : World) → sites (authorize h r w).1.db ≡ sites w.db
  authorize-sites r w = elim (authorize-cases h r w) [
    | inl still ↦ ap sites still
    | inr (username, client, w', consents, same, issued) ↦
        ap (λ v. sites v.db) issued
        ∙ issue_authorization_code-sites h.platform h.service _ username _ _ _ _ _ w'
        ∙ ap sites same
  ]

  pub token-sites : (r : HttpRequest) (w : World) → sites (token h r w).1.db ≡ sites w.db
  unfolding token
  token-sites r w =
      let (id, secret) = client_credentials r in
      let code =
        exchange_authorization_code-Leaves h.platform h.service id secret
          (field (codes "redirect_uri") r.post_form) (field (codes "code") r.post_form)
          (field (codes "code_verifier") r.post_form) in
      let refresh =
        exchange_refresh_token-Leaves h.platform h.service id secret
          (field (codes "refresh_token") r.post_form) in
      ground (arith, code.behind w, refresh.behind w)
