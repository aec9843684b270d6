-- ===== src/Examples/Updates.antt =====
-- Updates that fail, and what the loops of the encryption changes make of a file.
use easy_host_k8s.Prelude.{
  ℕ, ◌≡◌, refl, List, map, Bytes, ◌∷◌, [], true, false, none, some, [], codes, bytes_eq, Result, ok,
  err, wrong_passphrase, bad_archive,
}
use easy_host_k8s.Params.{
  default_params, params_string, parse_params, scan_params, scan_literal, scan_int, decimal,
  scan_uint,
}
use easy_host_k8s.Crypto.{
  encrypt_file, decrypt_file, file_aad, seal, rand_read, dek_aad, draw, open_sealed, unwrap,
  new_envelope, wrap,
}
use easy_host_k8s.Crypto.Toy.{toy-IsSound, frame, pad, strip}
use easy_host_k8s.Model.{Content}
use easy_host_k8s.World.{World, FileRow, with_entropy, query}
use easy_host_k8s.Store.{scan_content, set_envelope, enc_columns}
use easy_host_k8s.Store.Queries.{
  get_content_by_slug, own_files, list_content_files, plain_file, apply_encryption,
}
use easy_host_k8s.Paths.{
  is_zip, is_hidden, split, normalize_file_path, clean, clean_parts, clean_step,
}
use easy_host_k8s.Content.Extraction.{IsBelow, is_skipped-IsBelow}
use easy_host_k8s.Content.{
  ZipEntry, is_skipped, UpdateParams, content_by_slug, owned_content, unwrap_dek,
}
use easy_host_k8s.Content.Service.{
  reseal_files, rotate_passphrase, update, decrypt, edit_metadata, apply_encryption_change,
}
use easy_host_k8s.Content.Atomic.{update-change_fails}
use easy_host_k8s.Content.Rotation.{Decrypts, rotate_passphrase-Decrypts}
use easy_host_k8s.Content.Uploads.{IsBadUpload, update-bad_archive}
use easy_host_k8s.Examples.Content.{platform, world}
use easy_host_k8s.Examples.Serving.{locked_world, entry}

abbrev request : UpdateParams
request = record {
  slug = codes "docs";
  owner = codes "ann";
  title = some (codes "New");
  source_url = none;
  creator = none;
  allow_external_resources = none;
  file_data = [];
  file_name = [];
  passphrase = [];
  new_passphrase = [];
  remove_encryption = false;
}

abbrev removal : UpdateParams
removal = record request { passphrase = codes "no"; remove_encryption = true }

found :
    owned_content platform (codes "docs") (codes "ann") locked_world
    ≡ (ok entry, record locked_world { calls = 1 })
unfolding owned_content content_by_slug get_content_by_slug query scan_content bytes_eq
    params_string draw frame pad dek_aad
found = refl

refused :
    apply_encryption_change platform
      (edit_metadata entry removal)
      removal
      (record locked_world { calls = 1 })
    ≡ (err wrong_passphrase, record locked_world { calls = 1 })
unfolding apply_encryption_change edit_metadata decrypt unwrap_dek unwrap open_sealed parse_params
    params_string strip frame pad draw dek_aad scan_params scan_literal scan_int decimal scan_uint
    default_params bytes_eq
refused = refl

update-change_fails_example :
    ((update platform removal locked_world).0 ≡ err wrong_passphrase)
    × ((update platform removal locked_world).1.db ≡ locked_world.db)
update-change_fails_example =
    update-change_fails platform removal locked_world (record locked_world { calls = 1 })
      (record locked_world { calls = 1 }) entry wrong_passphrase found refused

abbrev upload : UpdateParams
upload = record request { file_data = codes "no archive"; file_name = codes "site.zip" }

abbrev plain_entry : Content
plain_entry = record entry { encryption = none }

found_plain :
    owned_content platform (codes "docs") (codes "ann") world
    ≡ (ok plain_entry, record world { calls = 1 })
unfolding owned_content content_by_slug get_content_by_slug query scan_content bytes_eq
found_plain = refl

upload-IsBadUpload : IsBadUpload platform upload
unfolding is_zip bytes_eq
upload-IsBadUpload = record {
  no_passphrase = refl;
  no_new_passphrase = refl;
  no_removal = refl;
  uploaded = refl;
  named = refl;
  unreadable = refl;
}

update-bad_archive_example :
    ((update platform upload world).0 ≡ err bad_archive)
    × (own_files 1 (update platform upload world).1.db.files ≡ [])
update-bad_archive_example =
    update-bad_archive platform upload world (record world { calls = 1 }) plain_entry
      upload-IsBadUpload found_plain refl (λ n. refl)

-- Ann's encrypted entry with one file, whose passphrase is changed
abbrev key : Bytes
key = draw (λ n. n) 0 32

abbrev text_of : Result Bytes → Bytes
text_of (ok text) = text
text_of (err _) = []

abbrev payload : Bytes
payload =
    text_of
      (encrypt_file platform.primitives key (codes "docs") (codes "a.txt") (codes "hello")
        world.entropy).0

abbrev sealed_row : FileRow
sealed_row = record {
  id = 7;
  content_id = 1;
  file_path = codes "a.txt";
  file_data = payload;
  content_type = codes "text/plain";
}

abbrev sealed_world : World
sealed_world = record locked_world { db = record locked_world.db { files = sealed_row ∷ [] } }

abbrev rotated_in : Result (Content × Bytes) → Content × Bytes
rotated_in (ok rotated) = rotated
rotated_in (err _) = (entry, [])

abbrev rotating : Result (Content × Bytes) × World
rotating = rotate_passphrase platform entry (codes "pw") (codes "new") false sealed_world

rotated :
    rotate_passphrase platform entry (codes "pw") (codes "new") false sealed_world
    ≡ (ok ((rotated_in rotating.0).0, (rotated_in rotating.0).1), rotating.1)
unfolding rotate_passphrase unwrap_dek unwrap open_sealed parse_params params_string strip frame pad
    draw dek_aad scan_params scan_literal scan_int decimal scan_uint default_params new_envelope
    wrap seal rand_read with_entropy list_content_files plain_file reseal_files decrypt_file
    encrypt_file file_aad apply_encryption query
rotated = refl

rotate_passphrase-Decrypts_example :
    (old_dek : Bytes) × (plain : List (ℕ × Bytes)) × (unwrap_dek platform entry (codes "pw")
      ≡ ok old_dek)
    × (unwrap_dek platform (rotated_in rotating.0).0 (codes "new") ≡ ok (rotated_in rotating.0).1)
    × Decrypts platform entry old_dek sealed_world.db world plain
    × Decrypts platform entry (rotated_in rotating.0).1 rotating.1.db world plain
    × (rotating.1.db.contents
        ≡ map
            (set_envelope 1 (enc_columns (rotated_in rotating.0).0.encryption) rotating.1.clock)
            sealed_world.db.contents)
rotate_passphrase-Decrypts_example =
    rotate_passphrase-Decrypts platform entry (codes "pw") (codes "new") sealed_world rotating.1
      world world (rotated_in rotating.0).0 (rotated_in rotating.0).1 toy-IsSound (tt, tt) rotated

abbrev archived : ZipEntry
archived = record { name = codes "a//b.html"; is_dir = false; body = none }

passed : is_skipped platform archived ≡ false
unfolding is_skipped is_hidden split normalize_file_path clean clean_parts clean_step bytes_eq
passed = refl

is_skipped-IsBelow_example : IsBelow (normalize_file_path (codes "a//b.html"))
is_skipped-IsBelow_example = is_skipped-IsBelow platform archived passed
