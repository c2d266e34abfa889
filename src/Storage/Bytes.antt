-- ===== src/Storage/Bytes.antt =====
-- What DeleteOwned does to the bytes of the files.
use maubase.Prelude.{
  Text, ◌==◌, ◌≡◌, refl, ◌∙◌, Bool, true, false, none, List, [], ◌∷◌, Bool-cases, inl, inr, select,
  exists, exists-sort_with, sort_with, lookup, lookup-remove, remove, delete,
}
use maubase.Sql.{Result, ok, err, failed, query, exec}
use maubase.Sql.Ensures.{Ensures, Then, Ensures-pure, Ensures-query, Ensures-bind, Ensures-exec}
use maubase.Schema.{FileRow}
use maubase.Storage.{
  Error, Shelf, delete_blob, delete_row, delete_file, delete_files, older, owned_by, delete_owned,
}

abbrev among : List FileRow → Text → Bool
among fs key = exists (λ f. f.id == key) fs

-- The key of one of the owner's files.
abbrev pub is_key : Text → Shelf → Text → Bool
is_key owner_id s = among (select (λ f. f.owner_id == owner_id) s.files)

abbrev Emptied : (Text → Bool) → Shelf → Result Error Unit → Shelf → Type 0
Emptied p s (ok x) s' =
    ((key : Text) → p key ≡ true → lookup key s'.blobs ≡ none)
    × ((key : Text) → p key ≡ false → lookup key s'.blobs ≡ lookup key s.blobs)
Emptied p s (err e) s' = ⊥
Emptied p s failed s' = (key : Text) → p key ≡ false → lookup key s'.blobs ≡ lookup key s.blobs

delete_files-Emptied :
    (fs : List FileRow) (s : Shelf) → Ensures (Emptied (among fs) s) s (delete_files fs)
unfolding delete_files delete_file delete_blob delete_row exists
delete_files-Emptied [] s =
    Ensures-pure (Emptied (among []) s) s tt (λ key h. absurd (cc h), λ key h. refl)
delete_files-Emptied (f ∷ fs) s = Ensures-bind Q s (delete_file f.id) _ (
    Ensures-bind (Then Q _) s (exec _) _ (
      Ensures-exec (Then (Then Q _) _) s _ (λ key h. refl)
        (Ensures-exec (Then Q _) _ _ (λ key h. other key h)
          (record { at = λ bs. extend _ _ ((delete_files-Emptied fs after).at bs) }))))
  where
    Q : Result Error Unit → Shelf → Type 0
    Q = Emptied (among (f ∷ fs)) s

    after : Shelf
    after = record s { files = delete (λ g. g.id == f.id) s.files; blobs = remove f.id s.blobs }

    other :
        (key : Text)
        → among (f ∷ fs) key ≡ false
        → lookup key (remove f.id s.blobs) ≡ lookup key s.blobs
    other key h = elim (Bool-cases (f.id == key)) [
      | inl e ↦ absurd (cc (rw e at h))
      | inr e ↦ lookup-remove f.id key s.blobs ∙ rw e refl
    ]

    rest : (key : Text) → among (f ∷ fs) key ≡ false → among fs key ≡ false
    rest key h = elim (Bool-cases (f.id == key)) [
      | inl e ↦ absurd (cc (rw e at h))
      | inr e ↦ rw e at h
    ]

    gone :
        (key : Text) (s' : Shelf)
        → ((k : Text) → among fs k ≡ true → lookup k s'.blobs ≡ none)
        → ((k : Text) → among fs k ≡ false → lookup k s'.blobs ≡ lookup k after.blobs)
        → among (f ∷ fs) key ≡ true
        → lookup key s'.blobs ≡ none
    gone key s' empty kept h = elim (Bool-cases (among fs key)) [
      | inl e ↦ empty key e
      | inr e ↦ elim (Bool-cases (f.id == key)) [
        | inl same ↦ kept key e ∙ lookup-remove f.id key s.blobs ∙ rw same refl
        | inr differ ↦ absurd (cc (e, rw differ at h))
      ]
    ]

    extend : (r : Result Error Unit) (s' : Shelf) → Emptied (among fs) after r s' → Q r s'
    extend (ok x) s' (empty, kept) =
        (λ key h. gone key s' empty kept h, λ key h. kept key (rest key h) ∙ other key h)
    extend (err e) s' h = h
    extend failed s' kept = λ key h. kept key (rest key h) ∙ other key h

module _ (owner_id : Text) (s : Shelf) where
  -- Where DeleteOwned succeeds, the bytes under the keys of the owner's files are gone; whether it
  -- does or stops on the way, those under every other key are as they were.
  abbrev pub BytesPost : Result Error Unit → Shelf → Type 0
  BytesPost = Emptied (is_key owner_id s) s

  pub delete_owned-Emptied : Ensures BytesPost s (delete_owned owner_id)
  unfolding delete_owned owned_by
  delete_owned-Emptied = Ensures-bind BytesPost s (query (owned_by owner_id)) _ (
      Ensures-query (Then BytesPost _) s (owned_by owner_id) (λ key h. refl)
        (record {
          at = λ bs.
              sorted _ _ ((delete_files-Emptied (sort_with older (select mine s.files)) s).at bs);
        }))
    where
      mine : FileRow → Bool
      mine f = f.owner_id == owner_id

      same :
          (key : Text) → among (sort_with older (select mine s.files)) key ≡ is_key owner_id s key
      same key = exists-sort_with older (λ f. f.id == key) (select mine s.files)

      sorted :
          (r : Result Error Unit) (s' : Shelf)
          → Emptied (among (sort_with older (select mine s.files))) s r s'
          → BytesPost r s'
      sorted (ok x) s' (empty, kept) =
          (λ key h. empty key (same key ∙ h), λ key h. kept key (same key ∙ h))
      sorted (err e) s' h = h
      sorted failed s' kept = λ key h. kept key (same key ∙ h)
