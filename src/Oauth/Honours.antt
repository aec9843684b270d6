-- ===== src/Oauth/Honours.antt =====
-- An authorization code that was issued is honoured: no check of the exchange refuses its owner.
use easy_host_k8s.Prelude.{
  ◌+◌, ◌≤◌, ◌≡◌, refl, sym, ◌∙◌, ap, Bool, true, false, not, ◌||◌, ◌==◌, some, List, [], ◌∷◌, ◌++◌,
  Bytes, codes, bytes_eq_iff, bytes_eq_refl, any, filter, is_empty, if◌then◌else◌, ltb, Result, ok,
  err, db_failure, is_empty-of_pos, arith, Bool-cases, inl, inr,
}
use easy_host_k8s.Model.{OauthClient, AuthCode}
use easy_host_k8s.World.{World, query, with_entropy}
use easy_host_k8s.Store.{find}
use easy_host_k8s.Store.Oauth.{
  set_codes, is_code, get_oauth_client, create_auth_code, consume_auth_code, create_refresh_token,
}
use easy_host_k8s.Oauth.{
  OauthError, Reply, granted, refused, OauthPlatform, OauthService, hash_token, verify_pkce,
  crypto_rand_string, auth_code_ttl,
}
use easy_host_k8s.Oauth.Random.{length-crypto_rand_string}
use easy_host_k8s.Oauth.Service.{
  authenticate_client, check_secret, issue_tokens, issue_authorization_code, redeem_code,
  exchange_authorization_code,
}
use easy_host_k8s.Oauth.Codes.{IsAuthenticated, IsEntitled}

-- A reply that is granted, or that fails as an error of the server and not of the request
abbrev pub is_honoured : {A : Type 0} → Reply A → Bool
is_honoured (granted a) = true
is_honoured (refused e) = e.status == 500

module _ (p : OauthPlatform) (s : OauthService) where
  open p use {collate}

  find-append_code :
      (code : Bytes) (rows : List AuthCode) (c : AuthCode)
      → any (is_code collate code) rows ≡ false
      → is_code collate code c ≡ true
      → find (is_code collate code) (rows ++ c ∷ []) ≡ some c
  find-append_code code [] c h e = ground arith
  find-append_code code (d ∷ rows) c h e = ground (arith, find-append_code code rows c)

  is_honoured-issue_tokens :
      (client_id username target : Bytes) (w : World)
      → is_honoured (issue_tokens p s client_id username target w).0 ≡ true
  unfolding issue_tokens create_refresh_token query with_entropy
  is_honoured-issue_tokens client_id username target w = ground arith

  is_honoured-redeem_code :
      (client : OauthClient) (redirect_uri verifier : Bytes) (row : AuthCode) (w : World)
      → IsEntitled p w.clock redirect_uri verifier client row
      → is_honoured (redeem_code p s client redirect_uri verifier (some row) w).0 ≡ true
  unfolding verify_pkce
  is_honoured-redeem_code client redirect_uri verifier row w entitled =
      let fresh : ltb row.expires_at w.clock ≡ false = ground (arith, entitled.fresh) in
      let own = (bytes_eq_iff row.client_id client.client_id).1 entitled.own in
      let target = (bytes_eq_iff row.redirect_uri redirect_uri).1 entitled.target in
      let method = (bytes_eq_iff row.code_challenge_method (codes "S256")).1 entitled.method in
      let challenge =
        (bytes_eq_iff (p.encode_base64 (p.sha256 verifier)) row.code_challenge).1
          entitled.challenge in
      rw (fresh, own, target, method, challenge)
        (is_honoured-issue_tokens client.client_id row.username row.resource w)

  check_secret-eq :
      (w v : World) (client_id secret : Bytes) (client : OauthClient)
      → IsAuthenticated p w client_id secret client
      → check_secret p s client secret v ≡ (granted client, v)
  check_secret-eq w v client_id secret client authenticated =
      ground
        (arith, authenticated.proven, bytes_eq_iff (hash_token p secret) client.client_secret_hash)

  abbrev server_error : OauthError
  server_error = record { status = 500; code = codes "server_error" }

  abbrev called : World → World
  called w = record w { calls = w.calls + 1 }

  authenticate_client-eq :
      (client_id secret : Bytes) (client : OauthClient) (w : World)
      → IsAuthenticated p w client_id secret client
      → is_empty client_id ≡ false
      → authenticate_client p s client_id secret w
        ≡ ((if w.fails w.calls then refused server_error else granted client), called w)
  unfolding authenticate_client get_oauth_client query
  authenticate_client-eq client_id secret client w authenticated named = ground (
    arith,
    authenticated.registered,
    check_secret-eq w (called w) client_id secret client authenticated,
  )

  abbrev taken_out : Bytes → World → World
  taken_out code w =
      set_codes (filter (λ d. not (is_code collate code d)) w.db.auth_codes) (called w)

  consume_auth_code-eq :
      (code : Bytes) (row : AuthCode) (w : World)
      → find (is_code collate code) w.db.auth_codes ≡ some row
      → consume_auth_code collate code w ≡ (
          if w.fails w.calls then (err db_failure, called w) else (ok (some row), taken_out code w))
  unfolding consume_auth_code query
  consume_auth_code-eq code row w stored = ground arith

  -- A stored code is honoured for a client that is entitled to it.
  is_honoured-exchange :
      (client_id secret redirect_uri code verifier : Bytes) (client : OauthClient) (row : AuthCode)
      (w : World)
      → IsAuthenticated p w client_id secret client
      → is_empty client_id ≡ false
      → is_empty code || is_empty verifier ≡ false
      → find (is_code collate code) w.db.auth_codes ≡ some row
      → IsEntitled p w.clock redirect_uri verifier client row
      → is_honoured
          (exchange_authorization_code p s client_id secret redirect_uri code verifier w).0
        ≡ true
  unfolding exchange_authorization_code
  is_honoured-exchange client_id secret redirect_uri code verifier client row w authenticated named
        filled stored entitled =
      rw (authenticate_client-eq client_id secret client w authenticated named)
        (elim (Bool-cases (w.fails w.calls)) [
          | inl fails ↦ rw fails refl
          | inr works ↦
              rw (works, filled, consume_auth_code-eq code row (called w) stored)
                (elim (Bool-cases (w.fails (w.calls + 1))) [
                  | inl fails ↦ rw fails refl
                  | inr works ↦ rw works (
                      is_honoured-redeem_code client redirect_uri verifier row
                        (taken_out code (called w)) entitled)
                ])
        ])

  module _ (client_id username redirect_uri challenge scope target : Bytes) (w w' : World)
      (code : Bytes)
      (given : issue_authorization_code p s client_id username redirect_uri challenge
          (codes "S256")
          scope
          target
          w
        ≡ (ok code, w')) where
    -- The row of a code that was issued
    abbrev code_row : AuthCode
    code_row = record {
      code = code;
      client_id = client_id;
      username = username;
      redirect_uri = redirect_uri;
      code_challenge = challenge;
      code_challenge_method = codes "S256";
      scope = scope;
      resource = target;
      expires_at = p.stored_time (w.clock + auth_code_ttl);
    }

    issued :
        ((crypto_rand_string p 48 w.entropy).0 ≡ ok code)
        × (any (is_code collate code) w.db.auth_codes ≡ false)
        × (w'.db.auth_codes ≡ w.db.auth_codes ++ code_row ∷ [])
    unfolding issue_authorization_code create_auth_code query with_entropy
    issued = (ground arith, ground arith, ground arith)

    code_stored : find (is_code collate code) w'.db.auth_codes ≡ some code_row
    code_stored =
        let (_, unused, added) = issued in
        ap (find (is_code collate code)) added
        ∙ find-append_code code w.db.auth_codes code_row unused (bytes_eq_refl (collate code))

    code_filled : is_empty code ≡ false
    code_filled = is_empty-of_pos code (
        omega (
          arith,
          length-crypto_rand_string p 48 w.entropy (crypto_rand_string p 48 w.entropy).1 code
              (ap (λ (r : Result Bytes). (r, (crypto_rand_string p 48 w.entropy).1)) issued.0),
        ))

    -- A code that was issued is honoured: while the stored codes are as they were and the code has not
    -- expired, an exchange by the client that it was issued to, with its redirect URI and a verifier that
    -- meets the challenge, is refused by no check. It grants tokens, or fails with status 500.
    pub is_honoured-exchange_authorization_code :
        (secret verifier : Bytes) (client : OauthClient) (later : World)
        → IsAuthenticated p later client_id secret client
        → client.client_id ≡ client_id
        → is_empty client_id ≡ false
        → is_empty verifier ≡ false
        → p.encode_base64 (p.sha256 verifier) ≡ challenge
        → later.db.auth_codes ≡ w'.db.auth_codes
        → later.clock ≤ p.stored_time (w.clock + auth_code_ttl)
        → is_honoured
            (exchange_authorization_code p s client_id secret redirect_uri code verifier later).0
          ≡ true
    is_honoured-exchange_authorization_code secret verifier client later authenticated own named
          given_verifier meets kept fresh =
        is_honoured-exchange client_id secret redirect_uri code verifier client code_row later
          authenticated named (ground (arith, code_filled))
          (ap (find (is_code collate code)) kept ∙ code_stored)
          (record { fresh = fresh; own = sym own; target = refl; method = refl; challenge = meets })
