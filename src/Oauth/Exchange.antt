-- ===== src/Oauth/Exchange.antt =====
-- ExchangeAuthorizationCode: what a grant of tokens rests on, and that a code buys tokens once.
use easy_host_k8s.Prelude.{◌≡◌, refl, ◌≢◌, subst, ◌∙◌, ap, none, some, Bytes, arith}
use easy_host_k8s.Model.{OauthClient, AuthCode}
use easy_host_k8s.World.{World, query, with_entropy}
use easy_host_k8s.Store.{find}
use easy_host_k8s.Store.Oauth.{is_code, create_refresh_token}
use easy_host_k8s.Oauth.{granted, OauthPlatform, OauthService}
use easy_host_k8s.Oauth.Service.{
  TokenResponse, issue_tokens, generate_access_token, exchange_authorization_code,
}
use easy_host_k8s.Oauth.Codes.{IsAuthenticated, IsEntitled, exchanged, issue_tokens-codes}

-- Why an exchange may grant tokens to a user: a client that has shown who it is, and a stored code of
-- that user, which was issued to this client for this redirect URI, is not expired, and has a challenge
-- that the verifier meets.
pub record IsJustified (p : OauthPlatform) (w : World)
    (client_id secret redirect_uri code verifier : Bytes) (username : Bytes) : Type 0 where
  pub client : OauthClient
  pub row : AuthCode
  pub authenticated : IsAuthenticated p w client_id secret client
  pub stored : find (is_code p.collate code) w.db.auth_codes ≡ some row
  pub entitled : IsEntitled p w.clock redirect_uri verifier client row
  pub user : row.username ≡ username

module _ (p : OauthPlatform) (s : OauthService) where
  issue_tokens-access :
      (client_id username target : Bytes) (w w' : World) (t : TokenResponse)
      → issue_tokens p s client_id username target w ≡ (granted t, w')
      → generate_access_token p s username w.clock ≡ some t.access_token
  unfolding issue_tokens create_refresh_token query with_entropy
  issue_tokens-access client_id username target w w' t h = ground arith

  module _ (client_id secret redirect_uri code verifier : Bytes) (w w' : World) (t : TokenResponse)
      (given : exchange_authorization_code p s client_id secret redirect_uri code verifier w
        ≡ (granted t, w')) where
    -- An exchange grants tokens only to a client that is registered and is public or shows its secret,
    -- for a stored code that was issued to it for the same redirect URI, has not expired, and whose
    -- S256 challenge the verifier meets; the access token is signed for the user of that code.
    pub exchange_authorization_code-eq-granted :
        (username : Bytes) × IsJustified p w client_id secret redirect_uri code verifier username
        × (generate_access_token p s username w.clock ≡ some t.access_token)
    exchange_authorization_code-eq-granted =
        let e = exchanged p s client_id secret redirect_uri code verifier w w' t given in
        (
          e.row.username,
          record {
            client = e.client;
            row = e.row;
            authenticated = e.authenticated;
            stored = e.stored;
            entitled = e.entitled;
            user = refl;
          },
          subst (λ time. generate_access_token p s e.row.username time ≡ some t.access_token)
              e.same_time
              (issue_tokens-access e.client.client_id e.row.username e.row.resource e.between w' t
                e.issued),
        )

    spent : find (is_code p.collate code) w'.db.auth_codes ≡ none
    spent =
        let e = exchanged p s client_id secret redirect_uri code verifier w w' t given in
        let same : w'.db.auth_codes ≡ e.between.db.auth_codes = cc (
          (issue_tokens-codes p s e.client.client_id e.row.username e.row.resource e.between).0,
          e.issued,
        ) in
        ap (find (is_code p.collate code)) same ∙ e.spent

    -- Once a code has bought tokens it buys none again: in every later state with the same stored codes,
    -- no client, secret, redirect URI or verifier makes an exchange of it succeed.
    pub exchange_authorization_code-once :
        (other_id other_secret other_uri other_verifier : Bytes) (later : World)
        (more : TokenResponse)
        → later.db.auth_codes ≡ w'.db.auth_codes
        → (exchange_authorization_code p s other_id other_secret other_uri code other_verifier
            later).0
          ≢ granted more
    exchange_authorization_code-once other_id other_secret other_uri other_verifier later more kept
          again =
        let at_end =
          (exchange_authorization_code p s other_id other_secret other_uri code other_verifier
            later).1 in
        let e =
          exchanged p s other_id other_secret other_uri code other_verifier later at_end more
            (cc) in
        cc (e.stored, ap (find (is_code p.collate code)) kept, spent)
