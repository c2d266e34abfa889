-- ===== src/Storage/Examples.antt =====
-- Files at concrete owners.
use maubase.Prelude.{◌≡◌, refl, Text, codes, ◌==◌, [], ◌∷◌, exists}
use maubase.Sql.Ensures.{Ensures}
use maubase.Schema.{UserRow, FileRow}
use maubase.Numbers.{digits}
use maubase.Storage.{Shelf, delete_owned, handle_delete, parse_pagination}
use maubase.Storage.Erasing.{ErasePost, delete_owned-Ensures}
use maubase.Storage.Isolation.{DeletePost, handle_delete-Ensures}

abbrev file : Text → Text → FileRow
file id owner_id = record {
  id = id;
  owner_id = owner_id;
  filename = codes "a.txt";
  content_type = codes "text/plain";
  size_bytes = 2;
  storage_key = id;
  created_at = 1;
}

abbrev account : Text → UserRow
account id = record { id = id; email = id; password_hash = []; created_at = 1; updated_at = 1 }

abbrev shelf : Shelf
shelf = record {
  users = account (codes "ana") ∷ account (codes "bo") ∷ [];
  files =
      file (codes "f1") (codes "ana")
      ∷ file (codes "f2") (codes "bo")
      ∷ file (codes "f3") (codes "ana")
      ∷ [];
  blobs = (codes "f1", codes "hi") ∷ (codes "f2", codes "ho") ∷ [];
}

delete_owned-Ensures_example :
    Ensures (ErasePost (codes "ana") shelf) shelf (delete_owned (codes "ana"))
unfolding exists ◌==◌
delete_owned-Ensures_example = delete_owned-Ensures (codes "ana") shelf (refl, (refl, (refl, tt)))

handle_delete-Ensures_example :
    Ensures
      (DeletePost (codes "ana") (codes "f1") shelf)
      shelf
      (handle_delete (codes "ana") (codes "f1"))
handle_delete-Ensures_example = handle_delete-Ensures (codes "ana") (codes "f1") shelf

-- A limit out of range falls back to the default.
pages :
    (parse_pagination (codes "20") (codes "+7") ≡ (20, 7))
    × (parse_pagination (codes "500") (codes "-1") ≡ (50, 0))
unfolding parse_pagination digits
pages = (refl, refl)
