-- ===== src/Examples/Crypto.antt =====
-- Parameters, envelopes, file payloads and unlock tokens at concrete inputs.
use easy_host_k8s.Prelude.{
  ◌+◌, ◌*◌, ◌^◌, ◌≡◌, refl, ◌≢◌, ◌↔◌, true, false, ◌++◌, Bytes, codes, length, ok, err, leb,
  bytes_eq, bytes_ne, if◌then◌else◌, corrupted, unlock_token, arith,
}
use easy_host_k8s.Params.{default_params, params_string, parse_params}
use easy_host_k8s.Params.RoundTrip.{parse_params-params_string, IsUsable-default}
use easy_host_k8s.Crypto.{
  Envelope, key_len, draw, rand_read, seal, wrap, new_envelope, unwrap, encrypt_file, decrypt_file,
  file_aad, dek_aad, put_uint64,
}
use easy_host_k8s.Unlock.{Unlocker, unix, unlock_aad, seal_token, open_token}
use easy_host_k8s.Unlock.Tokens.{open_token-seal_token}
use easy_host_k8s.Paths.{slug_matches}
use easy_host_k8s.Paths.Slugs.{SlugPattern, slug_matches_iff}
use easy_host_k8s.Crypto.Toy.{toy, toy-IsSound, toy-IsAuthentic, steady, pad, frame}
use easy_host_k8s.Crypto.Binding.{decrypt_file-moved}
use easy_host_k8s.Crypto.Envelopes.{unwrap-new_envelope}

parse_params-params_string_example : parse_params (params_string default_params) ≡ ok default_params
parse_params-params_string_example = parse_params-params_string default_params IsUsable-default

abbrev slug : Bytes
slug = codes "docs"

abbrev dek : Bytes
dek = draw steady.byte_at 0 key_len

abbrev salt : Bytes
salt = draw steady.byte_at 32 16

abbrev env : Envelope
env = record {
  kdf = params_string default_params;
  salt = salt;
  wrapped_key =
      draw steady.byte_at 48 24 ++ (frame (pad key_len (codes "pw" ++ salt)) (dek_aad slug) ++ dek);
}

made : new_envelope toy (codes "pw") slug steady ≡ (ok (env, dek), record steady { pos = 72 })
unfolding new_envelope wrap seal rand_read pad draw
made = refl

docs_ne_blog : slug ≢ codes "blog"
unfolding bytes_eq
docs_ne_blog = bytes_ne slug (codes "blog") refl

a_ne_b : codes "a.html" ≢ codes "b.html"
unfolding bytes_eq
a_ne_b = bytes_ne (codes "a.html") (codes "b.html") refl

unwrap-new_envelope_example : (unwrap toy env (codes "pw") slug ≡ ok dek) × (length dek ≡ key_len)
unwrap-new_envelope_example = unwrap-new_envelope toy toy-IsSound (codes "pw") slug steady made

other_kek :
    toy.id_key (codes "pw") salt default_params ≢ toy.id_key (codes "px") salt default_params
unfolding pad bytes_eq
other_kek = bytes_ne _ _ refl

abbrev page : Bytes
page = codes "<p>hi</p>"

abbrev page_sealed : Bytes
page_sealed = draw steady.byte_at 0 24 ++ (frame dek (file_aad slug (codes "a.html")) ++ page)

encrypted :
    encrypt_file toy dek slug (codes "a.html") page steady
    ≡ (ok page_sealed, record steady { pos = 24 })
unfolding encrypt_file seal rand_read draw
encrypted = refl

decrypt_file-moved_example : decrypt_file toy dek slug (codes "b.html") page_sealed ≡ err corrupted
decrypt_file-moved_example =
    decrypt_file-moved toy toy-IsSound toy-IsAuthentic dek slug slug (codes "a.html")
      (codes "b.html") page steady encrypted (omega arith) (omega arith) (λ e. a_ne_b e.1)

abbrev unlocker : Unlocker
unlocker = record { key = pad key_len (codes "secret"); ttl = 12 * 3600 * 10 ^ 9 }

abbrev token : Bytes
token =
    draw steady.byte_at 0 24
    ++ (frame unlocker.key (unlock_aad slug) ++ (put_uint64 (unix (5 + unlocker.ttl)) ++ dek))

minted : seal_token toy unlocker 5 slug dek steady ≡ (ok token, record steady { pos = 24 })
unfolding seal_token seal rand_read draw pad
minted = refl

open_token-seal_token_example :
    open_token toy unlocker (60 * 10 ^ 9) slug token
    ≡ (if leb (unix (5 + unlocker.ttl)) (unix (60 * 10 ^ 9)) then err unlock_token else ok dek)
open_token-seal_token_example =
    open_token-seal_token toy toy-IsSound unlocker 5 slug dek steady minted (60 * 10 ^ 9)
      (omega arith)

slug_matches_tests :
    (slug_matches (codes "my-site-2") ≡ true)
    × (slug_matches (codes "-x") ≡ false)
    × (slug_matches (codes "x-") ≡ false)
    × (slug_matches (codes "a/b") ≡ false)
unfolding slug_matches
slug_matches_tests = (refl, refl, refl, refl)

slug_matches_iff_example : (slug_matches slug ≡ true) ↔ SlugPattern slug
slug_matches_iff_example = slug_matches_iff slug
