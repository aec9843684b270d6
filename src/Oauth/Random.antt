-- ===== src/Oauth/Random.antt =====
-- cryptoRandString: the length of what it returns.
use easy_host_k8s.Prelude.{ℕ, zero, suc, ◌≡◌, Bytes, length, ok, arith, >>=-eq-ok}
use easy_host_k8s.Crypto.{Entropy}
use easy_host_k8s.Oauth.{OauthPlatform, crypto_rand_string}

module _ (p : OauthPlatform) where
  pub length-crypto_rand_string :
      (n : ℕ) (e e' : Entropy) (b : Bytes) → crypto_rand_string p n e ≡ (ok b, e') → length b ≡ n
  unfolding crypto_rand_string
  length-crypto_rand_string zero e e' b h = ground arith
  length-crypto_rand_string (suc n) e e' b h =
      let (i, e1, first, rest) = >>=-eq-ok (p.rand_int 62) _ e h in
      let (more, e2, second, last) = >>=-eq-ok (crypto_rand_string p n) _ e1 rest in
      ground (arith, length-crypto_rand_string n e1 e2 more second)
