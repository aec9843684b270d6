-- ===== src/Oidc.antt =====
-- backend-go/internal/handler/oidc.go: signing in at an OpenID provider. The provider is a parameter;
-- what it answers within one request is fixed.
pub mod SignIn
use easy_host_k8s.Prelude.{
  ℕ, zero, suc, Bool, true, false, not, ◌&&◌, ◌||◌, Option, none, some, List, [], ◌∷◌, ◌++◌, Bytes,
  codes, bytes_eq, is_empty, any, if◌then◌else◌, Result, ok, err, insert, remove,
}
use easy_host_k8s.Crypto.{rand_read}
use easy_host_k8s.World.{World, with_entropy}
use easy_host_k8s.Http.{
  Session, HttpRequest, Answer, redirect_answer, field, text_or_nil, session_text, save,
}
use easy_host_k8s.Web.{sign_in}

pub record OidcClaims : Type 0 where
  pub email : Bytes
  pub sub : Bytes

-- A verified ID token; the claims are missing if they cannot be read
pub record IdToken : Type 0 where
  pub issuer : Bytes
  pub claims : Option OidcClaims

-- The answer of the token endpoint, with the member "id_token" if it is a string
pub record ProviderToken : Type 0 where
  pub id_token : Option Bytes

pub record OidcProvider : Type 0 where
  -- oauth2Config.AuthCodeURL
  pub auth_code_url : Bytes → Bytes
  -- oauth2Config.Exchange
  pub exchange : Bytes → Option ProviderToken
  -- verifier.Verify
  pub verify : Bytes → Option IdToken
  -- the claim "end_session_endpoint" of the provider, if the claims can be read
  pub end_session_endpoint : Option Bytes
  -- base64.URLEncoding.EncodeToString
  pub encode_base64 : Bytes → Bytes

pub record OidcHandler : Type 0 where
  pub provider : OidcProvider
  pub fits : Session → Bool
  pub allowed_users : List Bytes

abbrev pub oauth_state_key : Bytes
oauth_state_key = codes "oauth_state"

abbrev zeros : ℕ → Bytes
zeros zero = []
zeros (suc n) = 0 ∷ zeros n

-- A slice stays zero where rand.Read fails, and its error is ignored.
abbrev pub or_zeros : Result Bytes → Bytes
or_zeros (ok b) = b
or_zeros (err e) = zeros 16

abbrev pub login_error : {V : Type 0} → Bytes → Answer V
login_error message = redirect_answer none (codes "/login?error=" ++ message)

module _ (h : OidcHandler) where
  open h use {provider, fits, allowed_users}

  -- generateState
  unfoldable pub generate_state : World → Bytes × World
  generate_state w =
      let (b, w') = with_entropy (rand_read 16) w in (provider.encode_base64 (or_zeros b), w')

  -- Login
  unfoldable pub login : {V : Type 0} → HttpRequest → World → Answer V × World
  login r w =
      let (state, w') = generate_state w in
      (
        redirect_answer (save fits (insert oauth_state_key state r.session))
            (provider.auth_code_url state),
        w',
      )

  -- The allow-list, which counts only if it is not empty
  unfoldable pub is_allowed : Bytes → Bool
  is_allowed email = is_empty allowed_users || any (λ u. bytes_eq u email) allowed_users

  abbrev pub admit_claims : {V : Type 0} → Session → Bytes → Option OidcClaims → Answer V
  admit_claims session issuer none = login_error (codes "Failed+to+read+claims")
  admit_claims session issuer (some claims) =
      if not (is_allowed claims.email)
      then login_error (codes "Access+denied")
      else sign_in fits session (issuer ++ (codes "|" ++ claims.sub))

  abbrev pub admit_token : {V : Type 0} → Session → Option IdToken → Answer V
  admit_token session none = login_error (codes "Token+verification+failed")
  admit_token session (some token) = admit_claims session token.issuer token.claims

  abbrev pub admit_raw : {V : Type 0} → Session → Option Bytes → Answer V
  admit_raw session none = login_error (codes "No+ID+token")
  admit_raw session (some raw) = admit_token session (provider.verify raw)

  abbrev pub admit_exchange : {V : Type 0} → Session → Option ProviderToken → Answer V
  admit_exchange session none = login_error (codes "Authentication+failed")
  admit_exchange session (some token) = admit_raw session token.id_token

  -- Callback; only a sign-in saves the session that has lost its state
  unfoldable pub callback : {V : Type 0} → HttpRequest → Answer V
  callback r =
      let saved_state = field oauth_state_key r.session in
      let session = remove oauth_state_key r.session in
      if is_empty saved_state || not (bytes_eq saved_state (field (codes "state") r.query))
      then login_error (codes "Invalid+OAuth+state")
      else if is_empty (field (codes "code") r.query)
      then login_error (codes "No+authorization+code")
      else admit_exchange session (provider.exchange (field (codes "code") r.query))

  -- LogoutURL
  unfoldable pub logout_url : Bytes
  logout_url = text_or_nil provider.end_session_endpoint
