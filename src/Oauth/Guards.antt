-- ===== src/Oauth/Guards.antt =====
-- What the methods of the OAuth server mint for a user who holds no code and no refresh token: nothing.
use easy_host_k8s.Prelude.{
  ℕ, ◌+◌, ◌≡◌, refl, ◌≢◌, ap, Bool, true, false, Option, none, some, [], Bytes, codes, arith,
  if◌then◌else◌, Result, ok, err, ◌∙◌, sym, subst,
}
use easy_host_k8s.Model.{OauthClient, AuthCode, RefreshToken}
use easy_host_k8s.World.{World, query, with_entropy}
use easy_host_k8s.Store.Oauth.{
  get_oauth_client, consume_auth_code, consume_refresh_token, create_oauth_client,
}
use easy_host_k8s.Oauth.{
  Reply, granted, refused, OauthError, auth_code_ttl, OauthPlatform, OauthService, hash_token,
  mcp_scope, refresh_token_ttl, crypto_rand_string,
}
use easy_host_k8s.Oauth.Grants.{Grant, refuse, pass_on, reply_of, attempt, ◌>>=◌}
use easy_host_k8s.Oauth.Service.{
  TokenResponse, issue_authorization_code, authenticate_client, issue_tokens, redeem_code,
  redeem_token, generate_access_token, exchange_authorization_code, exchange_refresh_token,
}
use easy_host_k8s.Oauth.Authorized.{
  Unauthorized, consume_auth_code-safe, consume_refresh_token-safe, create_auth_code-safe,
  create_refresh_token-safe,
}
use easy_host_k8s.Oauth.Registration.{ClientRegistrationRequest, register_client}

reply_of-eq-granted :
    {A : Type 0} (r : Result A) (e : OauthError) {a : A} → reply_of r e ≡ granted a → r ≡ ok a
reply_of-eq-granted (ok b) e h = cc
reply_of-eq-granted (err x) e h = absurd cc

module _ (username : Bytes) where
  -- A grant that keeps this, and grants what is of a kind
  pub record Guards {A : Type 0} (Q : A → Type 0) (m : Grant A) : Type 0 where
    pub behind : (w : World) → Unauthorized username w.db → Unauthorized username (m w).1.db
    pub value : (w : World) (a : A) → Unauthorized username w.db → (m w).0 ≡ granted a → Q a

  refuse-Guards :
      {A : Type 0} {Q : A → Type 0} {status : ℕ} {code : Bytes} → Guards Q (refuse status code)
  refuse-Guards = record { behind = λ w h. h; value = λ w a h e. absurd cc }

  pass_on-Guards :
      {A B : Type 0} {Q : A → Type 0} {R : B → Type 0} (reply : Reply A) (f : A → Grant B)
      (w : World)
      → Unauthorized username w.db
      → ((a : A) → reply ≡ granted a → Q a)
      → ((a : A) → Q a → Guards R (f a))
      → Unauthorized username (pass_on reply f w).1.db
        × ((b : B) → (pass_on reply f w).0 ≡ granted b → R b)
  pass_on-Guards (granted a) f w h q k =
      ((k a (q a refl)).behind w h, λ b e. (k a (q a refl)).value w b h e)
  pass_on-Guards (refused r) f w h q k = (h, λ b e. absurd cc)

  >>=-Guards :
      {A B : Type 0} {Q : A → Type 0} {R : B → Type 0} (m : Grant A) (f : A → Grant B)
      → Guards Q m
      → ((a : A) → Q a → Guards R (f a))
      → Guards R (m >>= f)
  >>=-Guards m f h k = record {
    behind =
        λ w safe. (pass_on-Guards (m w).0 f (m w).1 (h.behind w safe) (λ a. h.value w a safe) k).0;
    value = λ w b safe.
        (pass_on-Guards (m w).0 f (m w).1 (h.behind w safe) (λ a. h.value w a safe) k).1 b;
  }

  if-Guards :
      {A : Type 0} {Q : A → Type 0} (b : Bool) (m n : Grant A)
      → Guards Q m
      → Guards Q n
      → Guards Q (if b then m else n)
  if-Guards true m n h k = h
  if-Guards false m n h k = k

  module _ (p : OauthPlatform) (s : OauthService) where
    open p use {collate, stored_time}

    authenticate_client-db :
        (client_id secret : Bytes) (w : World)
        → (authenticate_client p s client_id secret w).1.db ≡ w.db
    unfolding authenticate_client get_oauth_client query
    authenticate_client-db client_id secret w = ground arith

    authenticate_client-Guards :
        (client_id secret : Bytes) → Guards (λ c. Unit) (authenticate_client p s client_id secret)
    authenticate_client-Guards client_id secret = record {
      behind = λ w safe.
          subst (Unauthorized username) (sym (authenticate_client-db client_id secret w)) safe;
      value = λ w a safe e. tt;
    }

    -- An access token that was signed for somebody else
    abbrev pub ForAnother : TokenResponse → Type 0
    ForAnother t =
        (other : Bytes) × (time : ℕ) × (other ≢ username)
        × (generate_access_token p s other time ≡ some t.access_token)

    -- The refresh token that is stored for a user
    abbrev row : Bytes → Bytes → Bytes → Bytes → ℕ → RefreshToken
    row client_id other target refresh time = record {
      token_hash = hash_token p refresh;
      client_id = client_id;
      username = other;
      scope = mcp_scope;
      resource = target;
      expires_at = time + refresh_token_ttl;
    }

    abbrev text_of : Result Bytes → Bytes
    text_of (ok text) = text
    text_of (err e) = []

    issue_tokens-Guards :
        (client_id other target : Bytes)
        → other ≢ username
        → Guards ForAnother (issue_tokens p s client_id other target)
    unfolding issue_tokens with_entropy
    issue_tokens-Guards client_id other target ne = record {
      behind = λ w safe.
          let (r, entropy) = crypto_rand_string p 48 w.entropy in
          let stored =
            create_refresh_token-safe username collate stored_time
              (row client_id other target (text_of r) w.clock) (record w { entropy = entropy }) ne
              safe in
          ground (arith, safe, stored);
      value = λ w t safe e. (other, w.clock, ne, ground (arith, e));
    }

    redeem_code-Guards :
        (client : OauthClient) (redirect_uri verifier : Bytes) (o : Option AuthCode)
        → ((c : AuthCode) → o ≡ some c → c.username ≢ username)
        → Guards ForAnother (redeem_code p s client redirect_uri verifier o)
    redeem_code-Guards client redirect_uri verifier none ne = refuse-Guards
    redeem_code-Guards client redirect_uri verifier (some c) ne =
        let issued = issue_tokens-Guards client.client_id c.username c.resource (ne c refl) in
        record {
          behind = λ w safe. ground (arith, safe, issued.behind w safe);
          value = λ w t safe e. ground (arith, issued.value w t safe, e);
        }

    redeem_token-Guards :
        (client : OauthClient) (o : Option RefreshToken)
        → ((t : RefreshToken) → o ≡ some t → t.username ≢ username)
        → Guards ForAnother (redeem_token p s client o)
    redeem_token-Guards client none ne = refuse-Guards
    redeem_token-Guards client (some c) ne =
        let issued = issue_tokens-Guards client.client_id c.username c.resource (ne c refl) in
        record {
          behind = λ w safe. ground (arith, safe, issued.behind w safe);
          value = λ w t safe e. ground (arith, issued.value w t safe, e);
        }

    taking_code-Guards :
        (code : Bytes) (status : ℕ) (message : Bytes)
        → Guards
            (λ o. (c : AuthCode) → o ≡ some c → c.username ≢ username)
            (attempt (consume_auth_code collate code) status message)
    taking_code-Guards code status message = record {
      behind = λ w safe. (consume_auth_code-safe username collate code w safe).0;
      value = λ w o safe e c is.
          (consume_auth_code-safe username collate code w safe).1 c
            (reply_of-eq-granted (consume_auth_code collate code w).0 _ (e ∙ ap granted is));
    }

    taking_token-Guards :
        (hash : Bytes) (status : ℕ) (message : Bytes)
        → Guards
            (λ o. (t : RefreshToken) → o ≡ some t → t.username ≢ username)
            (attempt (consume_refresh_token collate hash) status message)
    taking_token-Guards hash status message = record {
      behind = λ w safe. (consume_refresh_token-safe username collate hash w safe).0;
      value = λ w o safe e c is.
          (consume_refresh_token-safe username collate hash w safe).1 c
            (reply_of-eq-granted (consume_refresh_token collate hash w).0 _ (e ∙ ap granted is));
    }

    pub exchange_authorization_code-Guards :
        (client_id secret redirect_uri code verifier : Bytes)
        → Guards ForAnother
            (exchange_authorization_code p s client_id secret redirect_uri code verifier)
    unfolding exchange_authorization_code
    exchange_authorization_code-Guards client_id secret redirect_uri code verifier =
        >>=-Guards _ _ (authenticate_client-Guards client_id secret) (λ client _.
          if-Guards _ _ _ refuse-Guards (
            >>=-Guards _ _ (taking_code-Guards code 500 (codes "server_error"))
              (λ taken ne. redeem_code-Guards client redirect_uri verifier taken ne)))

    pub exchange_refresh_token-Guards :
        (client_id secret refresh_token : Bytes)
        → Guards ForAnother (exchange_refresh_token p s client_id secret refresh_token)
    unfolding exchange_refresh_token
    exchange_refresh_token-Guards client_id secret refresh_token =
        >>=-Guards _ _ (authenticate_client-Guards client_id secret) (λ client _.
          if-Guards _ _ _ refuse-Guards (
            >>=-Guards _ _ (taking_token-Guards _ 500 (codes "server_error"))
              (λ taken ne. redeem_token-Guards client taken ne)))

    pub issue_authorization_code-safe :
        (client_id other redirect_uri challenge method scope target : Bytes) (w : World)
        → other ≢ username
        → Unauthorized username w.db
        → Unauthorized username
            (issue_authorization_code p s client_id other redirect_uri challenge method scope target
              w).1.db
    unfolding issue_authorization_code with_entropy
    issue_authorization_code-safe client_id other redirect_uri challenge method scope target w ne
          safe =
        let (r, entropy) = crypto_rand_string p 48 w.entropy in
        let stored =
          create_auth_code-safe username collate stored_time
            (record {
              code = text_of r;
              client_id = client_id;
              username = other;
              redirect_uri = redirect_uri;
              code_challenge = challenge;
              code_challenge_method = method;
              scope = scope;
              resource = target;
              expires_at = w.clock + auth_code_ttl;
            })
            (record w { entropy = entropy }) ne safe in
        ground (arith, safe, stored)

    pub register_client-safe :
        (r : ClientRegistrationRequest) (w : World)
        → Unauthorized username w.db
        → Unauthorized username (register_client p r w).1.db
    unfolding register_client create_oauth_client query with_entropy
    register_client-safe r w safe = ground (arith, safe)
