-- ===== src/Storage/Isolation.antt =====
-- What a caller can do with the files of others: nothing.
use maubase.Prelude.{
  ◌≡◌, refl, Text, ◌==◌, eq→path, Option, none, some, inl, inr, ◌⊎◌, first, first-some, delete,
  lookup, remove, &&-left, &&-right,
}
use maubase.Sql.{Result, ok, err, failed, query, exec}
use maubase.Sql.Ensures.{
  Ensures, Then, Ensures-pure, Ensures-query, Ensures-bind, Ensures-option, Ensures-found,
  Ensures-exec,
}
use maubase.Schema.{FileRow}
use maubase.Storage.{
  Error, not_found, Shelf, FileMeta, open_blob, delete_blob, delete_row, is_owned, get,
  handle_download, delete_file, handle_delete,
}

module _ (owner_id id : Text) (s : Shelf) where
  abbrev pub file_of : Option FileRow
  file_of = first (is_owned owner_id id) s.files

  abbrev DownloadPost : Result Error (FileMeta × Text) → Shelf → Type 0
  DownloadPost (ok (f, bytes)) s' =
      (s' ≡ s)
      × (file_of ≡ some f)
      × (f.owner_id ≡ owner_id)
      × (f.id ≡ id)
      × (lookup f.id s.blobs ≡ some bytes)
  DownloadPost (err e) s' = (s' ≡ s) × (e ≡ not_found) × (file_of ≡ none)
  DownloadPost failed s' = s' ≡ s

  abbrev pub DeletePost : Result Error Unit → Shelf → Type 0
  DeletePost (ok x) s' =
      (f : FileRow) × (file_of ≡ some f)
      × (f.owner_id ≡ owner_id)
      × (s' ≡ record s { files = delete (λ g. g.id == f.id) s.files; blobs = remove f.id s.blobs })
  DeletePost (err e) s' = (s' ≡ s) × (e ≡ not_found) × (file_of ≡ none)
  -- The bytes may be gone already where the row could not be deleted.
  DeletePost failed s' =
      (s' ≡ s)
      ⊎ ((f : FileRow) × (file_of ≡ some f) × (s' ≡ record s { blobs = remove f.id s.blobs }))

  owner_of : (f : FileRow) → file_of ≡ some f → (f.owner_id ≡ owner_id) × (f.id ≡ id)
  owner_of f e =
      let h = first-some (is_owned owner_id id) s.files f e in
      (
        eq→path f.owner_id owner_id (&&-right (f.id == id) (f.owner_id == owner_id) h),
        eq→path f.id id (&&-left (f.id == id) (f.owner_id == owner_id) h),
      )

  -- A download answers the bytes of the caller's own file of this id, and says not found alike for
  -- a file of someone else and for none; it changes nothing.
  handle_download-Ensures : Ensures DownloadPost s (handle_download owner_id id)
  unfolding handle_download get open_blob
  handle_download-Ensures = Ensures-bind Q s (get owner_id id) _ (
      Ensures-bind (Then Q _) s (query _) _ (
        Ensures-query (Then (Then Q _) _) s _ refl (
          Ensures-found (Then Q _) s file_of not_found (λ e. (refl, refl, e))
            (λ f e. Ensures-bind Q s (open_blob f.id) _ (
              Ensures-bind (Then Q _) s (query _) _ (
                Ensures-query (Then (Then Q _) _) s _ refl (
                  Ensures-option (Then Q _) s (lookup f.id s.blobs) (λ g. refl)
                    (λ bytes g.
                      let (owner, named) = owner_of f e in
                      Ensures-pure Q s (f, bytes) (refl, e, owner, named, g)))))))))
    where
      Q : Result Error (FileMeta × Text) → Shelf → Type 0
      Q = DownloadPost

  -- A deletion takes away the bytes and the row of the caller's own file of this id, and says not
  -- found alike for a file of someone else and for none. Where a step fails nothing changes, or
  -- only that file's bytes are gone.
  pub handle_delete-Ensures : Ensures DeletePost s (handle_delete owner_id id)
  unfolding handle_delete get delete_file delete_blob delete_row
  handle_delete-Ensures = Ensures-bind Q s (get owner_id id) _ (
      Ensures-bind (Then Q _) s (query _) _ (
        Ensures-query (Then (Then Q _) _) s _ (inl refl) (
          Ensures-found (Then Q _) s file_of not_found (λ e. (refl, refl, e))
            (λ f e. Ensures-bind Q s (exec _) _ (
              Ensures-exec (Then Q _) s _ (inl refl)
                (Ensures-exec Q _ _ (inr (f, e, refl)) (f, e, (owner_of f e).0, refl)))))))
    where
      Q : Result Error Unit → Shelf → Type 0
      Q = DeletePost
