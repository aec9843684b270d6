-- ===== src/Examples/Content.antt =====
-- A database with one entry, and requests to the content service.
use easy_host_k8s.Prelude.{
  refl, ◌≢◌, true, false, Option, none, some, List, [], ◌∷◌, Bytes, codes, bytes_eq, bytes_ne,
  arith,
}
use easy_host_k8s.Crypto.Toy.{toy, steady}
use easy_host_k8s.World.{World, ContentRow, FileRow}
use easy_host_k8s.Store.Untouched.{HasEntry}
use easy_host_k8s.Store.Consistent.{IsConsistent}
use easy_host_k8s.Paths.{to_lower}
use easy_host_k8s.Content.{Platform, ZipEntry, CreateParams, UpdateParams}
use easy_host_k8s.Content.Service.{update}
use easy_host_k8s.Content.Isolation.{update_isolation}

-- An archive of one page, if its first byte is 80, and no archive otherwise.
abbrev read_toy_zip : Bytes → Option (List ZipEntry)
read_toy_zip [] = none
read_toy_zip (c ∷ page) = elim (bytes_eq (c ∷ []) (codes "P")) [
  | true ↦ some (record { name = codes "index.html"; is_dir = false; body = some page } ∷ [])
  | false ↦ none
]

-- Texts are compared without regard to case.
abbrev pub platform : Platform
platform = record { primitives = toy; collate = to_lower; read_zip = read_toy_zip }

abbrev pub row : ContentRow
row = record {
  id = 1;
  slug = codes "docs";
  owner = codes "ann";
  title = codes "Docs";
  source_url = [];
  creator = codes "ann";
  allow_external_resources = false;
  enc_kdf = none;
  enc_salt = [];
  enc_wrapped_key = [];
  created_at = 5;
  updated_at = 5;
}

abbrev pub file : FileRow
file = record {
  id = 1;
  content_id = 1;
  file_path = codes "index.html";
  file_data = codes "<p>hi</p>";
  content_type = codes "text/html";
}

abbrev pub world : World
world = record {
  db = record {
    contents = row ∷ [];
    files = file ∷ [];
    next_content_id = 2;
    next_file_id = 2;
    oauth_clients = [];
    auth_codes = [];
    refresh_tokens = [];
  };
  clock = 10;
  entropy = steady;
  fails = λ n. false;
  calls = 0;
}

pub consistent : IsConsistent platform.collate world.db
consistent = record {
  distinct = (refl, refl, tt);
  below = (omega arith, tt);
  owned = (refl, tt);
  files_below = (omega arith, tt);
}

abbrev creation : CreateParams
creation = record {
  slug = codes "blog";
  owner = codes "bob";
  title = [];
  source_url = [];
  creator = [];
  allow_external_resources = false;
  file_data = codes "<p>yo</p>";
  file_name = codes "page.html";
  passphrase = codes "pw";
}

abbrev edit : UpdateParams
edit = record {
  slug = codes "DOCS";
  owner = codes "bob";
  title = some (codes "Mine");
  source_url = none;
  creator = none;
  allow_external_resources = none;
  file_data = codes "<p>no</p>";
  file_name = codes "page.html";
  passphrase = codes "pw";
  new_passphrase = [];
  remove_encryption = false;
}

ann_ne_bob : codes "ann" ≢ codes "bob"
unfolding bytes_eq
ann_ne_bob = bytes_ne (codes "ann") (codes "bob") refl

update_isolation_example : HasEntry 1 row (file ∷ []) (update platform edit world).1.db
update_isolation_example = update_isolation platform world 1 row consistent refl edit ann_ne_bob
