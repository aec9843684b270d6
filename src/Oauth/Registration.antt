-- ===== src/Oauth/Registration.antt =====
-- RegisterClient: dynamic registration, and what it gives a client.
use easy_host_k8s.Prelude.{
  ℕ, ◌/◌, ◌^◌, ◌≡◌, refl, ◌⊎◌, inl, inr, Bool, true, false, not, ◌||◌, some, List, [], ◌∷◌, ◌++◌,
  Bytes, codes, bytes_eq, bytes_eq_refl, is_empty, all, any, is_empty-of_pos, if◌then◌else◌, Result,
  ok, arith, Bool-cases, ap, ◌∙◌,
}
use easy_host_k8s.Oauth.Grants.{Grant, grant, refuse, attempt, now, ◌>>=◌, ◌>>◌}
use easy_host_k8s.Crypto.{Entropy}
use easy_host_k8s.Oauth.Random.{length-crypto_rand_string}
use easy_host_k8s.Model.{OauthClient, is_public}
use easy_host_k8s.World.{World, query, with_entropy}
use easy_host_k8s.Store.{find}
use easy_host_k8s.Store.Oauth.{create_oauth_client, is_client}
use easy_host_k8s.Oauth.{granted, OauthPlatform, hash_token, crypto_rand_string}
use easy_host_k8s.Oauth.Codes.{IsAuthenticated}

pub record ClientRegistrationRequest : Type 0 where
  pub client_name : Bytes
  pub redirect_uris : List Bytes
  pub grant_types : List Bytes
  pub response_types : List Bytes
  pub token_endpoint_auth_method : Bytes
  pub scope : Bytes

-- The client's fields, beside its secret in the clear
pub record ClientRegistrationResponse : Type 0 where
  pub client_id : Bytes
  pub client_secret : Bytes
  pub client_id_issued_at : ℕ
  pub client_name : Bytes
  pub redirect_uris : List Bytes
  pub grant_types : List Bytes
  pub response_types : List Bytes
  pub token_endpoint_auth_method : Bytes
  pub scope : Bytes

abbrev pub or_else : List Bytes → Bytes → List Bytes
or_else [] default = default ∷ []
or_else (x ∷ xs) default = x ∷ xs

abbrev pub method_or_none : Bytes → Bytes
method_or_none [] = codes "none"
method_or_none (c ∷ s) = c ∷ s

module _ (p : OauthPlatform) where
  open p use {collate}

  abbrev pub secret_for : Bytes → Grant Bytes
  secret_for method =
      if bytes_eq method (codes "none")
      then grant []
      else attempt (with_entropy (crypto_rand_string p 48)) 500 (codes "server_error")

  abbrev pub secret_hash : Bytes → Bytes → Bytes
  secret_hash method secret = if bytes_eq method (codes "none") then [] else hash_token p secret

  abbrev pub is_known_method : Bytes → Bool
  is_known_method method =
      bytes_eq method (codes "none")
      || (bytes_eq method (codes "client_secret_post")
          || bytes_eq method (codes "client_secret_basic"))

  abbrev pub new_client : ClientRegistrationRequest → Bytes → Bytes → OauthClient
  new_client r client_id hash = record {
    client_id = client_id;
    client_secret_hash = hash;
    client_name = r.client_name;
    redirect_uris = r.redirect_uris;
    grant_types = or_else r.grant_types (codes "authorization_code");
    response_types = or_else r.response_types (codes "code");
    token_endpoint_auth_method = method_or_none r.token_endpoint_auth_method;
    scope = r.scope;
  }

  abbrev pub registered : OauthClient → Bytes → ℕ → ClientRegistrationResponse
  registered c secret time = record {
    client_id = c.client_id;
    client_secret = secret;
    client_id_issued_at = time / 10 ^ 9;
    client_name = c.client_name;
    redirect_uris = c.redirect_uris;
    grant_types = c.grant_types;
    response_types = c.response_types;
    token_endpoint_auth_method = c.token_endpoint_auth_method;
    scope = c.scope;
  }

  -- RegisterClient
  unfoldable pub register_client : ClientRegistrationRequest → Grant ClientRegistrationResponse
  register_client r =
      let method = method_or_none r.token_endpoint_auth_method in
      if is_empty r.redirect_uris || not (all p.is_absolute_url r.redirect_uris)
      then refuse 400 (codes "invalid_redirect_uri")
      else if not (is_known_method method)
      then refuse 400 (codes "invalid_client_metadata")
      else (do
        client_id ← attempt (with_entropy (crypto_rand_string p 32)) 500 (codes "server_error")
        secret ← secret_for method
        let client = new_client r client_id (secret_hash method secret)
        attempt (create_oauth_client collate client) 500 (codes "server_error")
        time ← now
        grant (registered client secret time))

  find-append_client :
      (id : Bytes) (rows : List OauthClient) (c : OauthClient)
      → any (is_client collate id) rows ≡ false
      → is_client collate id c ≡ true
      → find (is_client collate id) (rows ++ c ∷ []) ≡ some c
  find-append_client id [] c h e = ground arith
  find-append_client id (d ∷ rows) c h e = ground (arith, find-append_client id rows c)

  -- What a registration has checked, and the client that it stored
  pub record IsRegistered (r : ClientRegistrationRequest) (w' : World)
      (a : ClientRegistrationResponse) : Type 0 where
    pub client : OauthClient
    pub absolute : all p.is_absolute_url r.redirect_uris ≡ true
    pub uris : client.redirect_uris ≡ r.redirect_uris
    pub authenticated : IsAuthenticated p w' a.client_id a.client_secret client
    pub own : client.client_id ≡ a.client_id

  module _ (r : ClientRegistrationRequest) (w w' : World) (a : ClientRegistrationResponse)
      (given : register_client r w ≡ (granted a, w')) where
    abbrev method : Bytes
    method = method_or_none r.token_endpoint_auth_method

    abbrev client : OauthClient
    client = new_client r a.client_id (secret_hash method a.client_secret)

    added :
        (any (is_client collate a.client_id) w.db.oauth_clients ≡ false)
        × (w'.db.oauth_clients ≡ w.db.oauth_clients ++ client ∷ [])
        × (all p.is_absolute_url r.redirect_uris ≡ true)
    unfolding register_client create_oauth_client query with_entropy
    added = (ground arith, ground arith, ground arith)

    minted :
        bytes_eq method (codes "none") ≡ false
        → (e : Entropy) × ((crypto_rand_string p 48 e).0 ≡ ok a.client_secret)
    unfolding register_client create_oauth_client query with_entropy
    minted confidential = ((crypto_rand_string p 32 w.entropy).1, ground arith)

    proven_by :
        (is_public client ≡ true)
        ⊎ ((is_empty a.client_secret ≡ false)
            × (hash_token p a.client_secret ≡ client.client_secret_hash))
    unfolding is_public
    proven_by = elim (Bool-cases (bytes_eq method (codes "none"))) [
      | inl public ↦ inl (rw public refl)
      | inr confidential ↦
          let (e, m) = minted confidential in
          let l =
            length-crypto_rand_string p 48 e (crypto_rand_string p 48 e).1 a.client_secret
              (ap (λ (r : Result Bytes). (r, (crypto_rand_string p 48 e).1)) m) in
          inr (is_empty-of_pos a.client_secret (omega (arith, l)), rw confidential refl)
    ]

    -- A client that was registered can show who it is, with the secret it was given if it is no public
    -- client, and is stored with the redirect URIs that it asked for, which are all absolute.
    pub register_client-eq-granted : IsRegistered r w' a
    register_client-eq-granted =
        let (unused, stored, absolute) = added in
        record {
          client = client;
          absolute = absolute;
          uris = refl;
          own = refl;
          authenticated = record {
            registered =
                ap (find (is_client collate a.client_id)) stored
                ∙ find-append_client a.client_id w.db.oauth_clients client unused
                    (bytes_eq_refl (collate a.client_id));
            proven = proven_by;
          };
        }
