-- ===== src/Oidc/SignIn.antt =====
-- Whom the callback of the provider signs in.
use easy_host_k8s.Prelude.{
  ◌≡◌, refl, ◌⊎◌, inl, inr, true, false, not, ◌||◌, Option, none, some, Bytes, codes, bytes_eq,
  bytes_eq_iff, is_empty, ◌++◌, arith, Bool-cases, Option-cases, remove,
}
use easy_host_k8s.Http.{Session, HttpRequest, Answer, field}
use easy_host_k8s.Web.{sign_in}
use easy_host_k8s.Oidc.{
  OidcClaims, IdToken, ProviderToken, OidcHandler, oauth_state_key, is_allowed, admit_claims,
  admit_exchange, callback,
}

-- What a sign-in has checked
pub record Vouches (h : OidcHandler) (r : HttpRequest) (username : Bytes) : Type 0 where
  pub token : ProviderToken
  pub raw : Bytes
  pub id : IdToken
  pub claims : OidcClaims
  pub started : is_empty (field oauth_state_key r.session) ≡ false
  pub same_state : field oauth_state_key r.session ≡ field (codes "state") r.query
  pub exchanged : h.provider.exchange (field (codes "code") r.query) ≡ some token
  pub carried : token.id_token ≡ some raw
  pub verified : h.provider.verify raw ≡ some id
  pub read : id.claims ≡ some claims
  pub allowed : is_allowed h claims.email ≡ true
  pub named : username ≡ id.issuer ++ (codes "|" ++ claims.sub)

module _ {V : Type 0} (h : OidcHandler) (session : Session) where
  -- An answer either signs a user in for whom these things hold, or saves no session.
  abbrev SignsIn : (Bytes → Type 0) → Answer V → Type 0
  SignsIn P a =
      ((username : Bytes) × P username × (a ≡ sign_in h.fits session username)) ⊎ (a.saved ≡ none)

  admit_claims-SignsIn :
      (issuer : Bytes) (o : Option OidcClaims)
      → SignsIn
          (λ username.
            (claims : OidcClaims) × (o ≡ some claims)
            × (is_allowed h claims.email ≡ true)
            × (username ≡ issuer ++ (codes "|" ++ claims.sub)))
          (admit_claims h session issuer o)
  admit_claims-SignsIn issuer none = inr refl
  admit_claims-SignsIn issuer (some claims) = elim (Bool-cases (is_allowed h claims.email)) [
    | inl listed ↦
        inl (issuer ++ (codes "|" ++ claims.sub), (claims, refl, listed, refl), rw listed refl)
    | inr missing ↦ rw missing (inr refl)
  ]

  admit_exchange-SignsIn :
      (o : Option ProviderToken)
      → SignsIn
          (λ username.
            (token : ProviderToken) × (raw : Bytes) × (id : IdToken) × (claims : OidcClaims) × (o
              ≡ some token)
            × (token.id_token ≡ some raw)
            × (h.provider.verify raw ≡ some id)
            × (id.claims ≡ some claims)
            × (is_allowed h claims.email ≡ true)
            × (username ≡ id.issuer ++ (codes "|" ++ claims.sub)))
          (admit_exchange h session o)
  admit_exchange-SignsIn none = inr refl
  admit_exchange-SignsIn (some token) = elim (Option-cases token.id_token) [
    | inl missing ↦ inr (rw missing refl)
    | inr (raw, carried) ↦ elim (Option-cases (h.provider.verify raw)) [
      | inl bad ↦ inr (rw (carried, bad) refl)
      | inr (id, verified) ↦ elim (admit_claims-SignsIn id.issuer id.claims) [
        | inl (username, (claims, read, listed, named), signs) ↦ inl (
          username,
          (token, raw, id, claims, refl, carried, verified, read, listed, named),
          rw (carried, verified) signs,
        )
        | inr stays ↦ inr (rw (carried, verified) stays)
      ]
    ]
  ]

-- The callback of the provider either signs in a user, and then the session held the state that the
-- request repeats, the code was exchanged for an ID token that the provider's keys verify, its email is
-- allowed, and the name is its issuer and subject; or it saves no session at all.
pub callback-cases :
    {V : Type 0} (h : OidcHandler) (r : HttpRequest)
    → ((username : Bytes) × Vouches h r username
        × (callback h {V = V} r ≡ sign_in h.fits (remove oauth_state_key r.session) username))
      ⊎ ((callback h {V = V} r).saved ≡ none)
unfolding callback
callback-cases {V} h r =
    elim (Bool-cases (
      is_empty (field oauth_state_key r.session)
      || not (bytes_eq (field oauth_state_key r.session) (field (codes "state") r.query)))) [
        | inl bad ↦ inr (rw bad refl)
        | inr same ↦ elim (Bool-cases (is_empty (field (codes "code") r.query))) [
          | inl missing ↦ inr (rw (same, missing) refl)
          | inr given ↦
              elim (admit_exchange-SignsIn {V = V} h (remove oauth_state_key r.session)
                (h.provider.exchange (field (codes "code") r.query))) [
                  | inl
                        (
                          username,
                          (
                            token, raw, id, claims, exchanged, carried, verified, read, listed,
                            named,
                          ),
                          signs,
                        ) ↦
                      inl (
                        username,
                        record {
                          token = token;
                          raw = raw;
                          id = id;
                          claims = claims;
                          started = ground (arith, same);
                          same_state = ground (
                            arith,
                            same,
                            bytes_eq_iff (field oauth_state_key r.session)
                                (field (codes "state") r.query),
                          );
                          exchanged = exchanged;
                          carried = carried;
                          verified = verified;
                          read = read;
                          allowed = listed;
                          named = named;
                        },
                        rw (same, given) signs,
                      )
                  | inr stays ↦ inr (rw (same, given) stays)
                ]
        ]
      ]
