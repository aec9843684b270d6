-- ===== src/Content/Transitions.antt =====
-- The loop of decrypt, round by round, and the payloads that encryption makes.
use easy_host_k8s.Prelude.{ℕ, ◌≡◌, refl, List, [], ◌∷◌, Bytes, ok}
use easy_host_k8s.Crypto.{IsSound, encrypt_file, decrypt_file}
use easy_host_k8s.Crypto.Sealing.{decrypt_file-encrypt_file}
use easy_host_k8s.Model.{ContentFile}
use easy_host_k8s.World.{World, with_entropy}
use easy_host_k8s.Content.{Platform}
use easy_host_k8s.Content.Service.{open_files}

module _ (p : Platform) (sound : IsSound p.primitives) (slug : Bytes) where
  open p use {primitives}

  pub decrypt_file-with_entropy :
      (dek path plaintext : Bytes) (w w1 : World) (payload : Bytes)
      → with_entropy (encrypt_file primitives dek slug path plaintext) w ≡ (ok payload, w1)
      → decrypt_file primitives dek slug path payload ≡ ok plaintext
  unfolding with_entropy
  decrypt_file-with_entropy dek path plaintext w w1 payload h =
      decrypt_file-encrypt_file primitives sound dek slug path plaintext w.entropy
        {sealed = payload} {e' = (encrypt_file primitives dek slug path plaintext w.entropy).1} (cc)

  pub open_files-nil : (dek : Bytes) (v : World) → open_files p dek slug [] v ≡ (ok [], v)
  unfolding open_files
  open_files-nil dek v = refl

  -- One round of the loop that decrypts
  pub open_files-cons :
      (dek : Bytes) (f : ContentFile) (files : List ContentFile) (v : World) (a : Bytes)
      (plain : List (ℕ × Bytes))
      → decrypt_file primitives dek slug f.file_path f.file_data ≡ ok a
      → open_files p dek slug files v ≡ (ok plain, v)
      → open_files p dek slug (f ∷ files) v ≡ (ok ((f.id, a) ∷ plain), v)
  unfolding open_files
  open_files-cons dek f files v a plain opened rest = rw (opened, rest) refl
