-- ===== src/Content/Loops.antt =====
-- The loops that encrypt, decrypt and re-encrypt the files of an entry write nothing themselves.
use easy_host_k8s.Prelude.{
  List, [], ◌∷◌, Bytes, Action, Keeps, Keeps-bind, Keeps-return, Keeps-lift,
}
use easy_host_k8s.Crypto.{Entropy}
use easy_host_k8s.Model.{ContentFile}
use easy_host_k8s.World.{World, with_entropy}
use easy_host_k8s.Content.{Platform}
use easy_host_k8s.Content.Service.{seal_files, open_files, reseal_files}

module _ (p : Platform) (P : World → Type 0)
    (entropy : (m : Action Entropy Bytes) → Keeps P (with_entropy m)) where
  pub seal_files-Keeps :
      (dek slug : Bytes) (files : List ContentFile) → Keeps P (seal_files p dek slug files)
  unfolding seal_files
  seal_files-Keeps dek slug [] = Keeps-return []
  seal_files-Keeps dek slug (f ∷ files) =
      Keeps-bind _ _ (entropy _)
        (λ sealed. Keeps-bind _ _ (seal_files-Keeps dek slug files) (λ rest. Keeps-return _))

  pub open_files-Keeps :
      (dek slug : Bytes) (files : List ContentFile) → Keeps P (open_files p dek slug files)
  unfolding open_files
  open_files-Keeps dek slug [] = Keeps-return []
  open_files-Keeps dek slug (f ∷ files) =
      Keeps-bind _ _ (Keeps-lift _)
        (λ plain. Keeps-bind _ _ (open_files-Keeps dek slug files) (λ rest. Keeps-return _))

  pub reseal_files-Keeps :
      (old_dek new_dek slug : Bytes) (files : List ContentFile)
      → Keeps P (reseal_files p old_dek new_dek slug files)
  unfolding reseal_files
  reseal_files-Keeps old_dek new_dek slug [] = Keeps-return []
  reseal_files-Keeps old_dek new_dek slug (f ∷ files) = Keeps-bind _ _ (Keeps-lift _) (λ plain.
      Keeps-bind _ _ (entropy _) (λ sealed.
        Keeps-bind _ _ (reseal_files-Keeps old_dek new_dek slug files) (λ rest. Keeps-return _)))
