-- ===== src/Crypto/Envelopes.antt =====
-- The envelope of crypto.go: the passphrase that wrapped a data key unwraps it, at its own slug only.
use easy_host_k8s.Prelude.{
  ◌+◌, ◌≡◌, ◌≢◌, false, Bytes, length, is_empty, ok, err, arith, wrong_passphrase, is_empty-of_pos,
}
use easy_host_k8s.Params.{default_params, params_string}
use easy_host_k8s.Params.RoundTrip.{parse_params-params_string, IsUsable-default}
use easy_host_k8s.Crypto.{
  Primitives, IsSound, IsAuthentic, Entropy, Envelope, key_len, salt_len, rand_read, dek_aad, seal,
  open_sealed, wrap, new_envelope, checked_dek, unwrap,
}
use easy_host_k8s.Crypto.Sealing.{length-draw, seal-is_empty, open_sealed-seal_self}
use easy_host_k8s.Crypto.Binding.{open_sealed-other_aad, open_sealed-other_key, dek_aad_inj}

-- What `new_envelope` returns: a fresh data key, and its wrapping under the passphrase.
pub record IsWrapping (p : Primitives) (passphrase slug : Bytes) (env : Envelope) (dek : Bytes)
    : Type 0 where
  pub given : is_empty passphrase ≡ false
  pub kdf : env.kdf ≡ params_string default_params
  pub salted : length env.salt ≡ salt_len
  pub wrapped : is_empty env.wrapped_key ≡ false
  pub length_dek : length dek ≡ key_len
  pub before : Entropy
  pub after : Entropy
  pub sealed :
      seal p (p.id_key passphrase env.salt default_params) (dek_aad slug) dek before
      ≡ (ok env.wrapped_key, after)

module _ (p : Primitives) where
  pub new_envelope-IsWrapping :
      (passphrase slug : Bytes) (e : Entropy) {env : Envelope} {dek : Bytes} {e' : Entropy}
      → new_envelope p passphrase slug e ≡ (ok (env, dek), e')
      → IsWrapping p passphrase slug env dek
  unfolding new_envelope wrap rand_read
  new_envelope-IsWrapping passphrase slug e {env} {dek} {e'} h = record {
    given = ground arith;
    kdf = ground arith;
    salted = ground (arith, length-draw e.byte_at (e.pos + key_len) salt_len);
    wrapped =
        seal-is_empty p (p.id_key passphrase env.salt default_params) (dek_aad slug) dek
          (record e { pos = e.pos + key_len + salt_len }) {e' = e'} (ground arith);
    length_dek = ground (arith, length-draw e.byte_at e.pos key_len);
    before = record e { pos = e.pos + key_len + salt_len };
    after = e';
    sealed = ground arith;
  }

module _ (p : Primitives) (sound : IsSound p) {passphrase slug : Bytes} {env : Envelope}
    {dek : Bytes} (w : IsWrapping p passphrase slug env dek) where
  -- Unwrapping with any passphrase, at any slug, comes down to opening the wrapped key.
  unwrap-IsWrapping :
      (given other : Bytes)
      → is_empty given ≡ false
      → unwrap p env given other
        ≡ checked_dek
            (open_sealed p (p.id_key given env.salt default_params) (dek_aad other) env.wrapped_key)
  unfolding unwrap
  unwrap-IsWrapping given other h =
      rw (h, w.kdf, parse_params-params_string default_params IsUsable-default, w.wrapped)
        (rw (is_empty-of_pos env.salt (omega (arith, w.salted))))

  pub unwrap-IsWrapping_self : unwrap p env passphrase slug ≡ ok dek
  unwrap-IsWrapping_self =
      rw
        (
          unwrap-IsWrapping passphrase slug w.given,
          open_sealed-seal_self p sound (p.id_key passphrase env.salt default_params) (dek_aad slug)
              dek w.before w.sealed,
        )
        (ground (arith, w.length_dek))

  module _ (authentic : IsAuthentic p) where
    pub unwrap-IsWrapping_moved :
        (other : Bytes) → slug ≢ other → unwrap p env passphrase other ≡ err wrong_passphrase
    unwrap-IsWrapping_moved other ne = rw (
      unwrap-IsWrapping passphrase other w.given,
      open_sealed-other_aad p sound authentic (p.id_key passphrase env.salt default_params)
          (dek_aad slug) (dek_aad other) dek w.before w.sealed
          (λ same. ne (dek_aad_inj slug other same)),
    )

    pub unwrap-IsWrapping_other :
        (other : Bytes)
        → is_empty other ≡ false
        → p.id_key passphrase env.salt default_params ≢ p.id_key other env.salt default_params
        → unwrap p env other slug ≡ err wrong_passphrase
    unwrap-IsWrapping_other other h ne = rw (
      unwrap-IsWrapping other slug h,
      open_sealed-other_key p sound authentic (p.id_key passphrase env.salt default_params)
          (p.id_key other env.salt default_params) (dek_aad slug) dek w.before w.sealed
          (sound.accepts_key_len (p.id_key other env.salt default_params)
            (sound.length-id_key other env.salt default_params))
          ne,
    )

module _ (p : Primitives) (sound : IsSound p) (passphrase slug : Bytes) (e : Entropy)
    {env : Envelope} {dek : Bytes} {e' : Entropy}
    (made : new_envelope p passphrase slug e ≡ (ok (env, dek), e')) where
  -- With sound primitives, the envelope that `new_envelope` makes gives its data key back to the
  -- same passphrase at the same slug, and that key has the length of a key.
  pub unwrap-new_envelope : (unwrap p env passphrase slug ≡ ok dek) × (length dek ≡ key_len)
  unwrap-new_envelope =
      let w = new_envelope-IsWrapping p passphrase slug e made in
      (unwrap-IsWrapping_self p sound w, w.length_dek)

  -- If the primitives are sound and the cipher is authentic, the envelope that `new_envelope`
  -- makes for a slug is useless at another one: there even the right passphrase is reported as
  -- wrong.
  pub unwrap-new_envelope_moved :
      (other : Bytes)
      → IsAuthentic p
      → slug ≢ other
      → unwrap p env passphrase other ≡ err wrong_passphrase
  unwrap-new_envelope_moved other authentic =
      unwrap-IsWrapping_moved p sound (new_envelope-IsWrapping p passphrase slug e made) authentic
        other

  -- If the primitives are sound and the cipher is authentic, a non-empty passphrase whose derived
  -- key differs from that of the passphrase given to `new_envelope` is reported as wrong.
  pub unwrap-new_envelope_other :
      (other : Bytes)
      → IsAuthentic p
      → is_empty other ≡ false
      → p.id_key passphrase env.salt default_params ≢ p.id_key other env.salt default_params
      → unwrap p env other slug ≡ err wrong_passphrase
  unwrap-new_envelope_other other authentic =
      unwrap-IsWrapping_other p sound (new_envelope-IsWrapping p passphrase slug e made) authentic
        other
