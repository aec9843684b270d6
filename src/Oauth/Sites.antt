-- ===== src/Oauth/Sites.antt =====
-- The OAuth server never touches the entries and their files.
use easy_host_k8s.Prelude.{
  ℕ, ◌≡◌, refl, ◌∙◌, Bool, true, false, Option, none, some, Bytes, codes, arith, if◌then◌else◌,
}
use easy_host_k8s.Model.{OauthClient, AuthCode, RefreshToken}
use easy_host_k8s.World.{World, query, with_entropy}
use easy_host_k8s.Store.Reads.{sites}
use easy_host_k8s.Store.Oauth.{
  get_oauth_client, create_auth_code, consume_auth_code, create_refresh_token,
  consume_refresh_token, create_oauth_client,
}
use easy_host_k8s.Oauth.{Reply, granted, refused, OauthPlatform, OauthService}
use easy_host_k8s.Oauth.Grants.{Grant, refuse, pass_on, attempt, ◌>>=◌}
use easy_host_k8s.Oauth.Service.{
  get_client, issue_authorization_code, authenticate_client, issue_tokens, redeem_code,
  redeem_token, exchange_authorization_code, exchange_refresh_token,
}
use easy_host_k8s.Oauth.Registration.{ClientRegistrationRequest, register_client}

-- A grant that leaves these tables as they are
pub record Leaves {A : Type 0} (m : Grant A) : Type 0 where
  pub behind : (w : World) → sites (m w).1.db ≡ sites w.db

refuse-Leaves : {A : Type 0} {status : ℕ} {code : Bytes} → Leaves (refuse {A = A} status code)
refuse-Leaves = record { behind = λ w. refl }

pass_on-sites :
    {A B : Type 0} (reply : Reply A) (f : A → Grant B) (w : World)
    → ((a : A) → Leaves (f a))
    → sites (pass_on reply f w).1.db ≡ sites w.db
pass_on-sites (granted a) f w k = (k a).behind w
pass_on-sites (refused e) f w k = refl

>>=-Leaves :
    {A B : Type 0} (m : Grant A) (f : A → Grant B)
    → Leaves m
    → ((a : A) → Leaves (f a))
    → Leaves (m >>= f)
>>=-Leaves m f h k = record { behind = λ w. pass_on-sites (m w).0 f (m w).1 k ∙ h.behind w }

if-Leaves :
    {A : Type 0} (b : Bool) (m n : Grant A) → Leaves m → Leaves n → Leaves (if b then m else n)
if-Leaves true m n h k = h
if-Leaves false m n h k = k

module _ (p : OauthPlatform) (s : OauthService) where
  issue_tokens-Leaves :
      (client_id username target : Bytes) → Leaves (issue_tokens p s client_id username target)
  unfolding issue_tokens create_refresh_token query with_entropy
  issue_tokens-Leaves client_id username target = record { behind = λ w. ground arith }

  authenticate_client-Leaves :
      (client_id secret : Bytes) → Leaves (authenticate_client p s client_id secret)
  unfolding authenticate_client get_oauth_client query
  authenticate_client-Leaves client_id secret = record { behind = λ w. ground arith }

  redeem_code-Leaves :
      (client : OauthClient) (redirect_uri verifier : Bytes) (o : Option AuthCode)
      → Leaves (redeem_code p s client redirect_uri verifier o)
  redeem_code-Leaves client redirect_uri verifier none = record { behind = λ w. refl }
  redeem_code-Leaves client redirect_uri verifier (some c) =
      let issued = issue_tokens-Leaves client.client_id c.username c.resource in
      record { behind = λ w. ground (arith, issued.behind w) }

  redeem_token-Leaves :
      (client : OauthClient) (o : Option RefreshToken) → Leaves (redeem_token p s client o)
  redeem_token-Leaves client none = record { behind = λ w. refl }
  redeem_token-Leaves client (some t) =
      let issued = issue_tokens-Leaves client.client_id t.username t.resource in
      record { behind = λ w. ground (arith, issued.behind w) }

  taking_code-Leaves :
      (code : Bytes) (status : ℕ) (message : Bytes)
      → Leaves (attempt (consume_auth_code p.collate code) status message)
  unfolding consume_auth_code query
  taking_code-Leaves code status message = record { behind = λ w. ground arith }

  taking_token-Leaves :
      (hash : Bytes) (status : ℕ) (message : Bytes)
      → Leaves (attempt (consume_refresh_token p.collate hash) status message)
  unfolding consume_refresh_token query
  taking_token-Leaves hash status message = record { behind = λ w. ground arith }

  pub exchange_authorization_code-Leaves :
      (client_id secret redirect_uri code verifier : Bytes)
      → Leaves (exchange_authorization_code p s client_id secret redirect_uri code verifier)
  unfolding exchange_authorization_code
  exchange_authorization_code-Leaves client_id secret redirect_uri code verifier =
      >>=-Leaves _ _ (authenticate_client-Leaves client_id secret) (λ client.
        if-Leaves _ _ _ refuse-Leaves (
          >>=-Leaves _ _ (taking_code-Leaves code 500 (codes "server_error"))
            (λ taken. redeem_code-Leaves client redirect_uri verifier taken)))

  pub exchange_refresh_token-Leaves :
      (client_id secret refresh_token : Bytes)
      → Leaves (exchange_refresh_token p s client_id secret refresh_token)
  unfolding exchange_refresh_token
  exchange_refresh_token-Leaves client_id secret refresh_token =
      >>=-Leaves _ _ (authenticate_client-Leaves client_id secret) (λ client.
        if-Leaves _ _ _ refuse-Leaves (
          >>=-Leaves _ _ (taking_token-Leaves _ 500 (codes "server_error"))
            (λ taken. redeem_token-Leaves client taken)))

  pub issue_authorization_code-sites :
      (client_id username redirect_uri challenge method scope target : Bytes) (w : World)
      → sites
          (issue_authorization_code p s client_id username redirect_uri challenge method scope
            target w).1.db
        ≡ sites w.db
  unfolding issue_authorization_code create_auth_code query with_entropy
  issue_authorization_code-sites client_id username redirect_uri challenge method scope target w =
      ground arith

  pub get_client-sites :
      (client_id : Bytes) (w : World) → sites (get_client p s client_id w).1.db ≡ sites w.db
  unfolding get_client get_oauth_client query
  get_client-sites client_id w = ground arith

pub register_client-Leaves :
    (p : OauthPlatform) (r : ClientRegistrationRequest) → Leaves (register_client p r)
unfolding register_client create_oauth_client query with_entropy
register_client-Leaves p r = record { behind = λ w. ground arith }
