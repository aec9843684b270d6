-- ===== src/Oauth/Toy.antt =====
-- A concrete platform for the OAuth server that meets what is assumed of the package jwt: a token is
-- the secret, then the claims, field by field. It shows that the assumption can hold, and it runs.
use easy_host_k8s.Prelude.{
  ℕ, ◌+◌, ◌*◌, ◌%◌, ◌^◌, ltb, ◌≡◌, refl, true, Option, none, some, [], ◌∷◌, ◌++◌, Bytes, codes,
  length, take, drop, contains, ok, if◌then◌else◌, take-append_length, drop-append_length, subst,
  sym,
}
use easy_host_k8s.Crypto.Toy.{strip, strip-append}
use easy_host_k8s.Paths.{to_lower}
use easy_host_k8s.Oauth.{Audience, single, several, no_audience, Claims, OauthPlatform}
use easy_host_k8s.Oauth.Access.{ParsesSigned}

unfoldable pub field : Bytes → Bytes → Bytes
field b rest = length b ∷ (b ++ rest)

-- The first field of a text, and the rest
unfoldable pub unfield : Bytes → Bytes × Bytes
unfield [] = ([], [])
unfield (n ∷ s) = (take n s, drop n s)

unfield-field : (b rest : Bytes) → unfield (field b rest) ≡ (b, rest)
unfolding unfield field
unfield-field b rest = rw (take-append_length b rest, drop-append_length b rest) refl

-- Only the shape of claims that the program signs is written.
abbrev pub write : Option Bytes → Option Bytes → Audience → Bytes → ℕ → Option ℕ → Option Bytes
write none scope aud iss iat exp = none
write (some u) none aud iss iat exp = none
write (some u) (some sc) (several members) iss iat exp = none
write (some u) (some sc) no_audience iss iat exp = none
write (some u) (some sc) (single a) iss iat none = none
write (some u) (some sc) (single a) iss iat (some e) =
    some (iat ∷ e ∷ field u (field sc (field a iss)))

abbrev pub read : ℕ → Bytes → Option Claims
read time [] = none
read time (iat ∷ []) = none
read time (iat ∷ e ∷ s) =
    let (u, s1) = unfield s in
    let (sc, s2) = unfield s1 in
    let (a, iss) = unfield s2 in
    if ltb time (e * 10 ^ 9)
    then some (record {
      sub = some u;
      scope = some sc;
      aud = single a;
      iss = iss;
      iat = iat;
      exp = some e;
    })
    else none

abbrev pub prefixed : Bytes → Option Bytes → Option Bytes
prefixed secret none = none
prefixed secret (some payload) = some (field secret [] ++ payload)

abbrev pub sign : Bytes → Claims → Option Bytes
sign secret c = prefixed secret (write c.sub c.scope c.aud c.iss c.iat c.exp)

abbrev pub read_claims : ℕ → Option Bytes → Option Claims
read_claims time none = none
read_claims time (some payload) = read time payload

abbrev pub parse_with : Option Bytes → ℕ → Bytes → Option Claims
parse_with none time token = none
parse_with (some secret) time token = read_claims time (strip (field secret []) token)

abbrev pub toy_platform : OauthPlatform
toy_platform = record {
  collate = to_lower;
  stored_time = λ t. t;
  sha256 = λ b. 7 ∷ b;
  encode_base64 = λ b. b;
  rand_int = λ n e. (ok (e.byte_at e.pos % n), record e { pos = e.pos + 1 });
  is_absolute_url = λ u. contains u (codes "://");
  sign_jwt = sign;
  parse_jwt = λ key time token. parse_with (key true) time token;
}

parsed :
    (secret : Bytes) (sub scope : Option Bytes) (aud : Audience) (iss : Bytes) (iat e time : ℕ)
    {token : Bytes}
    → prefixed secret (write sub scope aud iss iat (some e)) ≡ some token
    → parse_with (some secret) time token ≡ (
        if ltb time (e * 10 ^ 9)
        then some
            (record { sub = sub; scope = scope; aud = aud; iss = iss; iat = iat; exp = some e })
        else none)
parsed secret none scope aud iss iat e time h = cc
parsed secret (some u) none aud iss iat e time h = cc
parsed secret (some u) (some sc) (several members) iss iat e time h = cc
parsed secret (some u) (some sc) no_audience iss iat e time h = cc
parsed secret (some u) (some sc) (single a) iss iat e time {token} h =
    let payload = iat ∷ e ∷ field u (field sc (field a iss)) in
    let same : token ≡ field secret [] ++ payload = cc in
    rw
      (
        same,
        strip-append (field secret []) payload,
        unfield-field u (field sc (field a iss)),
        unfield-field sc (field a iss),
        unfield-field a iss,
      )
      refl

pub toy_platform-ParsesSigned : ParsesSigned toy_platform
toy_platform-ParsesSigned = record {
  parse-sign = λ key secret claims exp time {token} signed held expires. rw held (
      subst
        (λ o.
          prefixed secret (write claims.sub claims.scope claims.aud claims.iss claims.iat o)
            ≡ some token
          → parse_with (some secret) time token
            ≡ (if ltb time (exp * 10 ^ 9) then some (record claims { exp = o }) else none))
        (sym expires)
        (parsed secret claims.sub claims.scope claims.aud claims.iss claims.iat exp time) signed);
}
