-- ===== src/Store.antt =====
-- backend-go/internal/store/store.go: the content tables. Texts are compared by the collation of the
-- database, given as the key by which it compares: the columns' utf8mb4_unicode_ci maps texts that
-- differ in case to one key. What INSERT and DELETE do beyond their rows is in the migrations: a
-- duplicate slug and a file of a missing entry are refused, and deleting an entry deletes its files.
pub mod Queries
pub mod Oauth
pub mod Reads
pub mod Consistent
pub mod Rows
pub mod Rewrites
pub mod Listing
pub mod Invariant
pub mod Untouched
use easy_host_k8s.Prelude.{
  ℕ, zero, suc, ◌+◌, ◌*◌, Bool, true, false, not, ◌&&◌, ◌||◌, Option, none, some, List, [], ◌∷◌,
  ◌++◌, map, Bytes, bytes_eq, is_empty, any, filter, take, drop, length, ltb, leb, ◌==◌,
  if◌then◌else◌, Result, ok, err, Action, return, fail, lift, ◌>>=◌, ◌>>◌, no_rows, db_failure,
  incomplete_envelope,
}
use easy_host_k8s.Crypto.{Envelope}
use easy_host_k8s.Model.{Content, ContentFile, is_some}
use easy_host_k8s.World.{World, Database, ContentRow, FileRow, query}

-- The three nullable columns of an envelope
pub record EncColumns : Type 0 where
  pub kdf : Option Bytes
  pub salt : Bytes
  pub wrapped : Bytes

unfoldable pub enc_columns : Option Envelope → EncColumns
enc_columns none = record { kdf = none; salt = []; wrapped = [] }
enc_columns (some env) = record { kdf = some env.kdf; salt = env.salt; wrapped = env.wrapped_key }

abbrev has_kdf : Option Bytes → Option Bytes
has_kdf none = none
has_kdf (some []) = none
has_kdf (some (c ∷ kdf)) = some (c ∷ kdf)

abbrev fold_envelope : Option Bytes → Bytes → Bytes → Result (Option Envelope)
fold_envelope none salt wrapped = ok none
fold_envelope (some kdf) salt wrapped =
    if is_empty salt || is_empty wrapped
    then err incomplete_envelope
    else ok (some (record { kdf = kdf; salt = salt; wrapped_key = wrapped }))

abbrev content_of : ContentRow → Result (Option Envelope) → Result Content
content_of r (err e) = err e
content_of r (ok encryption) = ok (record {
  id = r.id;
  slug = r.slug;
  owner = r.owner;
  title = r.title;
  source_url = r.source_url;
  creator = r.creator;
  allow_external_resources = r.allow_external_resources;
  created_at = r.created_at;
  updated_at = r.updated_at;
  encryption = encryption;
})

-- scanContent on a row that is there
unfoldable pub scan_content : ContentRow → Result Content
scan_content r = content_of r (fold_envelope (has_kdf r.enc_kdf) r.enc_salt r.enc_wrapped_key)

unfoldable pub row_of : Content → ContentRow
unfolding enc_columns
row_of c = record {
  id = c.id;
  slug = c.slug;
  owner = c.owner;
  title = c.title;
  source_url = c.source_url;
  creator = c.creator;
  allow_external_resources = c.allow_external_resources;
  enc_kdf = (enc_columns c.encryption).kdf;
  enc_salt = (enc_columns c.encryption).salt;
  enc_wrapped_key = (enc_columns c.encryption).wrapped;
  created_at = c.created_at;
  updated_at = c.updated_at;
}

-- The first row that a WHERE clause selects
abbrev pub find {ℓ} : {A : Type ℓ} → (A → Bool) → List A → Option A
find test [] = none
find test (x ∷ xs) = if test x then some x else find test xs

abbrev pub set_contents : List ContentRow → World → World
set_contents rows w = record w { db = record w.db { contents = rows } }

abbrev pub set_files : List FileRow → World → World
set_files rows w = record w { db = record w.db { files = rows } }

unfoldable pub set_metadata : Content → ContentRow → ContentRow
set_metadata c r =
    if r.id == c.id
    then (record r {
      title = c.title;
      source_url = c.source_url;
      creator = c.creator;
      allow_external_resources = c.allow_external_resources;
      updated_at = c.updated_at;
    })
    else r

-- UPDATE content SET enc_kdf=?, enc_salt=?, enc_wrapped_key=?, updated_at=? WHERE id=?
unfoldable pub set_envelope : ℕ → EncColumns → ℕ → ContentRow → ContentRow
set_envelope id columns now r =
    if r.id == id
    then (record r {
      enc_kdf = columns.kdf;
      enc_salt = columns.salt;
      enc_wrapped_key = columns.wrapped;
      updated_at = now;
    })
    else r

-- UPDATE content_file SET file_data=? WHERE id=? AND content_id=?
unfoldable pub set_file_data : ℕ → ℕ × Bytes → FileRow → FileRow
set_file_data content_id (id, payload) f =
    if f.id == id && f.content_id == content_id then (record f { file_data = payload }) else f

-- One such statement for each rewritten file
unfoldable pub rewrite_files : ℕ → List (ℕ × Bytes) → List FileRow → List FileRow
rewrite_files content_id [] files = files
rewrite_files content_id (change ∷ rewritten) files =
    rewrite_files content_id rewritten (map (set_file_data content_id change) files)

-- ORDER BY updated_at DESC; rows with one time keep their order in the table
unfoldable pub insert_by_time : ContentRow → List ContentRow → List ContentRow
insert_by_time r [] = r ∷ []
insert_by_time r (s ∷ rows) =
    if leb s.updated_at r.updated_at then r ∷ s ∷ rows else s ∷ insert_by_time r rows

unfoldable pub order_by_time : List ContentRow → List ContentRow
unfolding insert_by_time
order_by_time [] = []
order_by_time (r ∷ rows) = insert_by_time r (order_by_time rows)

abbrev pub both : Result Content → Result (List Content) → Result (List Content)
both (err e) _ = err e
both (ok c) (err e) = err e
both (ok c) (ok cs) = ok (c ∷ cs)

-- The loop over the rows of a listing: one row that cannot be read fails them all
unfoldable pub scan_contents : List ContentRow → Result (List Content)
scan_contents [] = ok []
scan_contents (r ∷ rows) = both (scan_content r) (scan_contents rows)
