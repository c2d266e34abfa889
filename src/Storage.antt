-- ===== src/Storage.antt =====
-- internal/storage: files, as metadata rows in the database and bytes in a backend. A call is a
-- chain of steps over both; a step of the backend may fail as a statement may.
pub mod Isolation
pub mod Erasing
pub mod Bytes
pub mod Examples
use maubase.Prelude.{
  ℕ, suc, ◌+◌, Text, codes, ◌==◌, Bool, true, false, not, ◌&&◌, ◌||◌, Option, none, some, List, [],
  ◌∷◌, ◌++◌, map, length, take, drop, ltb, leb, if◌then◌else◌, select, delete, first, exists,
  sort_with, Assoc, lookup, put, remove,
}
use maubase.Sql.{
  Result, ok, err, failed, Db, Sql, pure, raise, fail, from_option, or_raise, query, exec,
  exec_checked, ◌>>=◌, ◌>>◌,
}
use maubase.Schema.{UserRow, FileRow}
use maubase.Numbers.{atoi}

pub data Error : Type 0 where
  not_found : Error

-- The table of metadata, the accounts that it refers to, and what the backend holds under each key.
pub record Shelf : Type 0 where
  pub users : List UserRow
  pub files : List FileRow
  pub blobs : Assoc Text

abbrev pub FileMeta : Type 0
FileMeta = FileRow

-- LocalBackend: Put, which makes a new file (O_EXCL), Open, and Delete, which does not mind a key
-- that is not there.
abbrev pub new_blob : Text → Text → Shelf → Option Shelf
new_blob key bytes s = elim (lookup key s.blobs) [
  | none ↦ some (record s { blobs = put key bytes s.blobs })
  | some b ↦ none
]

unfoldable pub put_blob : Text → Text → Sql Shelf Error Unit
put_blob key bytes = exec_checked (new_blob key bytes)

unfoldable pub open_blob : Text → Sql Shelf Error Text
open_blob key = do found ← query (λ s. lookup key s.blobs); from_option found

unfoldable pub delete_blob : Text → Sql Shelf Error Unit
delete_blob key = exec (λ s. record s { blobs = remove key s.blobs })

unfoldable pub insert_file : FileRow → Shelf → Option Shelf
insert_file r s =
    if exists (λ f. f.id == r.id || f.storage_key == r.storage_key) s.files
    then none
    else if exists (λ u. u.id == r.owner_id) s.users
    then some (record s { files = s.files ++ r ∷ [] })
    else none

unfoldable pub delete_row : Text → Sql Shelf Error Unit
delete_row id = exec (λ s. record s { files = delete (λ f. f.id == id) s.files })

-- get: WHERE id = ? AND owner_id = ?
abbrev pub is_owned : Text → Text → FileRow → Bool
is_owned owner_id id f = f.id == id && f.owner_id == owner_id

unfoldable pub get : Text → Text → Sql Shelf Error FileMeta
get owner_id id = do
  found ← query (λ s. first (is_owned owner_id id) s.files)
  or_raise found not_found

-- What a request uploads, once the form is parsed within the limit of bytes.
pub record Upload : Type 0 where
  pub filename : Text
  pub content_type : Text
  pub content : Text

abbrev pub content_type_of : Text → Text
content_type_of [] = codes "application/octet-stream"
content_type_of (b ∷ s) = b ∷ s

abbrev pub file_row : Text → Text → ℕ → Upload → FileRow
file_row owner_id id now u = record {
  id = id;
  owner_id = owner_id;
  filename = u.filename;
  content_type = content_type_of u.content_type;
  size_bytes = length u.content;
  storage_key = id;
  created_at = now;
}

-- Where the INSERT fails the bytes are taken back, and what that gives is ignored.
undo :
    Text
    → Result Error Unit × Db Shelf
    → (Db Shelf → Result Error FileMeta × Db Shelf)
    → Result Error FileMeta × Db Shelf
undo id (ok x, db) rest = rest db
undo id (err e, db) rest = (err e, (delete_blob id db).1)
undo id (failed, db) rest = (failed, (delete_blob id db).1)

unfoldable pub insert_or_undo : FileRow → Sql Shelf Error FileMeta
unfolding undo insert_file get delete_blob
insert_or_undo r db = undo r.id (exec_checked (insert_file r) db) (get r.owner_id r.id)

unfoldable pub handle_upload : Text → Text → ℕ → Upload → Sql Shelf Error FileMeta
unfolding put_blob insert_or_undo
handle_upload owner_id id now u = do
  put_blob id u.content
  insert_or_undo (file_row owner_id id now u)

-- ORDER BY created_at DESC
abbrev pub newer : FileRow → FileRow → Bool
newer x y = leb y.created_at x.created_at

unfoldable pub handle_list : Text → ℕ → ℕ → Sql Shelf Error (List FileMeta)
handle_list owner_id limit offset =
    query (λ s.
      take limit (drop offset (sort_with newer (select (λ f. f.owner_id == owner_id) s.files))))

abbrev pub handle_get : Text → Text → Sql Shelf Error FileMeta
handle_get = get

unfoldable pub handle_download : Text → Text → Sql Shelf Error (FileMeta × Text)
unfolding get open_blob
handle_download owner_id id = do
  meta ← get owner_id id
  bytes ← open_blob meta.id
  pure (meta, bytes)

unfoldable pub delete_file : Text → Sql Shelf Error Unit
unfolding delete_blob delete_row
delete_file id = do delete_blob id; delete_row id

unfoldable pub handle_delete : Text → Text → Sql Shelf Error Unit
unfolding get delete_file
handle_delete owner_id id = do meta ← get owner_id id; delete_file meta.id

-- ORDER BY created_at, rowid
abbrev pub older : FileRow → FileRow → Bool
older x y = leb x.created_at y.created_at

unfoldable pub owned_by : Text → Shelf → List FileRow
owned_by owner_id s = sort_with older (select (λ f. f.owner_id == owner_id) s.files)

unfoldable pub export_owned : Text → Sql Shelf Error (List FileMeta)
unfolding owned_by
export_owned owner_id = query (owned_by owner_id)

unfoldable pub delete_files : List FileRow → Sql Shelf Error Unit
unfolding delete_file
delete_files [] = pure tt
delete_files (f ∷ fs) = do delete_file f.id; delete_files fs

unfoldable pub delete_owned : Text → Sql Shelf Error Unit
unfolding owned_by delete_files
delete_owned owner_id = do fs ← query (owned_by owner_id); delete_files fs

abbrev pub default_limit : ℕ
default_limit = 50

abbrev pub max_limit : ℕ
max_limit = 200

abbrev pub limit_of : Option ℕ → ℕ
limit_of none = default_limit
limit_of (some n) = if ltb 0 n && leb n max_limit then n else default_limit

abbrev pub offset_of : Option ℕ → ℕ
offset_of none = 0
offset_of (some n) = n

-- parsePagination, of the two query parameters (empty where there is none).
unfoldable pub parse_pagination : Text → Text → ℕ × ℕ
unfolding atoi
parse_pagination limit offset = (limit_of (atoi limit), offset_of (atoi offset))
