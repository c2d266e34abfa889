-- ===== src/Storage/Erasing.antt =====
-- DeleteOwned, which deletes file after file and not in a transaction.
use maubase.Prelude.{
  All-exists, All-both, All-keep, ◌≡◌, refl, sym, ap, ◌∙◌, Text, ◌==◌, eq_refl, eq→path, path→eq,
  Bool, true, false, not, List, [], ◌∷◌, if◌then◌else◌, Bool-cases, inl, inr, All, All-map,
  All-select, All-delete, All-sort_with, select, delete, exists, exists-sort_with, Unique,
  sort_with, remove,
}
use maubase.Sql.{Result, ok, err, failed, query, exec}
use maubase.Sql.Ensures.{Ensures, Then, Ensures-pure, Ensures-query, Ensures-bind, Ensures-exec}
use maubase.Schema.{FileRow}
use maubase.Storage.{
  Error, Shelf, delete_blob, delete_row, delete_file, delete_files, older, owned_by, delete_owned,
}

module _ (owner_id : Text) where
  abbrev mine : FileRow → Bool
  mine f = f.owner_id == owner_id

  -- Every row of this id is the owner's.
  abbrev Own : List FileRow → FileRow → Type 0
  Own files f = All (λ g. (g.id == f.id) ≡ true → mine g ≡ true) files

  -- Deleting the owner's rows leaves the others.
  select-other :
      (id : Text) (files : List FileRow)
      → All (λ g. (g.id == id) ≡ true → mine g ≡ true) files
      → select (λ g. not (mine g)) (delete (λ g. g.id == id) files)
        ≡ select (λ g. not (mine g)) files
  unfolding select delete
  select-other id [] h = refl
  select-other id (g ∷ gs) h = elim (Bool-cases (g.id == id)) [
    | inl e ↦ rw (e, h.0 e) (select-other id gs h.1)
    | inr e ↦ elim (Bool-cases (mine g)) [
      | inl m ↦ rw (e, m) (select-other id gs h.1)
      | inr m ↦ rw (e, m) (ap (λ xs. g ∷ xs) (select-other id gs h.1))
    ]
  ]

  -- Each of the owner's rows is still to come.
  abbrev Listed : List FileRow → List FileRow → Type 0
  Listed fs files = All (λ g. mine g ≡ true → exists (λ f. f.id == g.id) fs ≡ true) files

  Listed-delete :
      (f : FileRow) (fs files : List FileRow)
      → Listed (f ∷ fs) files
      → Listed fs (delete (λ g. g.id == f.id) files)
  unfolding delete exists
  Listed-delete f fs [] h = tt
  Listed-delete f fs (g ∷ gs) h = elim (Bool-cases (g.id == f.id)) [
    | inl e ↦ rw e (Listed-delete f fs gs h.1)
    | inr e ↦ rw e (λ m. rw (other e) at (h.0 m), Listed-delete f fs gs h.1)
  ]
    where
      other : (g.id == f.id) ≡ false → (f.id == g.id) ≡ false
      other e = elim (Bool-cases (f.id == g.id)) [
        | inl k ↦ absurd (cc (e, path→eq g.id f.id (sym (eq→path f.id g.id k))))
        | inr k ↦ k
      ]

  Listed-nil : (files : List FileRow) → Listed [] files → exists mine files ≡ false
  unfolding exists
  Listed-nil [] h = refl
  Listed-nil (g ∷ gs) h = elim (Bool-cases (mine g)) [
    | inl m ↦ absurd (cc (h.0 m))
    | inr m ↦ rw m (Listed-nil gs h.1)
  ]

  abbrev pub ErasePost : Shelf → Result Error Unit → Shelf → Type 0
  ErasePost s (ok x) s' =
      (exists mine s'.files ≡ false)
      × (select (λ g. not (mine g)) s'.files ≡ select (λ g. not (mine g)) s.files)
  ErasePost s (err e) s' = ⊥
  ErasePost s failed s' = select (λ g. not (mine g)) s'.files ≡ select (λ g. not (mine g)) s.files

  delete_files-Ensures :
      (fs : List FileRow) (s : Shelf)
      → All (Own s.files) fs
      → Listed fs s.files
      → Ensures (ErasePost s) s (delete_files fs)
  unfolding delete_files delete_file delete_blob delete_row
  delete_files-Ensures [] s own listed =
      Ensures-pure (ErasePost s) s tt (Listed-nil s.files listed, refl)
  delete_files-Ensures (f ∷ fs) s own listed = Ensures-bind (ErasePost s) s (delete_file f.id) _ (
      Ensures-bind (Then (ErasePost s) _) s (exec _) _ (
        Ensures-exec (Then (Then (ErasePost s) _) _) s _ refl (
          Ensures-exec (Then (ErasePost s) _) _ _ refl (record {
            at = λ bs. extend _ _ (
                (delete_files-Ensures fs after own_after (Listed-delete f fs s.files listed)).at
                  bs);
          }))))
    where
      after : Shelf
      after = record s { files = delete (λ g. g.id == f.id) s.files; blobs = remove f.id s.blobs }

      own_after : All (Own after.files) fs
      own_after =
          All-map (Own s.files) (Own after.files)
            (λ g h. All-delete _ (λ x. x.id == f.id) s.files h) fs own.1

      extend : (r : Result Error Unit) (s' : Shelf) → ErasePost after r s' → ErasePost s r s'
      extend (ok x) s' (gone, same) = (gone, same ∙ select-other f.id s.files own.0)
      extend (err e) s' h = h
      extend failed s' same = same ∙ select-other f.id s.files own.0

  -- Ids are distinct, so a row with the id of the owner's row is that row.
  mine-Own :
      (files : List FileRow)
      → Unique (λ g. g.id) files
      → All (λ f. mine f ≡ true → Own files f) files
  mine-Own [] u = tt
  mine-Own (x ∷ xs) u = (
    λ m. (
      λ e. m,
      All-map _ _ (λ g no e. absurd (cc (no, e))) xs (All-exists (λ y. y.id == x.id) xs u.0),
    ),
    All-map _ _ (λ f h m. (λ e. absurd (cc (h.1, eq_sym_true x.id f.id e)), h.0 m)) xs
        (All-both _ _ xs (mine-Own xs u.1) (All-exists (λ y. y.id == x.id) xs u.0)),
  )
    where
      eq_sym_true : (s t : Text) → (s == t) ≡ true → (t == s) ≡ true
      eq_sym_true s t e = path→eq t s (sym (eq→path s t e))

  listed_in_select :
      (files : List FileRow)
      → All (λ g. mine g ≡ true → exists (λ f. f.id == g.id) (select mine files) ≡ true) files
  unfolding select exists
  listed_in_select [] = tt
  listed_in_select (x ∷ xs) =
      (λ m. rw (m, eq_refl x.id), All-map _ _ (λ g h m. more g (h m)) xs (listed_in_select xs))
    where
      more :
          (g : FileRow)
          → exists (λ f. f.id == g.id) (select mine xs) ≡ true
          → exists (λ f. f.id == g.id) (if mine x then x ∷ select mine xs else select mine xs)
            ≡ true
      more g h = elim (Bool-cases (mine x)) [
        | inl e ↦ rw e (elim (Bool-cases (x.id == g.id)) [ inl k ↦ rw k | inr k ↦ rw k h ])
        | inr e ↦ rw e h
      ]

  -- Where file ids are distinct, DeleteOwned leaves none of the owner's rows when it succeeds, and
  -- every other owner's rows, in their order, also when it stops on the way.
  pub delete_owned-Ensures :
      (s : Shelf) → Unique (λ g. g.id) s.files → Ensures (ErasePost s) s (delete_owned owner_id)
  unfolding delete_owned owned_by
  delete_owned-Ensures s u = Ensures-bind (ErasePost s) s (query (owned_by owner_id)) _ (
      Ensures-query (Then (ErasePost s) _) s (owned_by owner_id) refl
        (delete_files-Ensures (sort_with older (select mine s.files)) s own listed))
    where
      own : All (Own s.files) (sort_with older (select mine s.files))
      own = All-sort_with (Own s.files) older (select mine s.files) (
          All-map _ _ (λ f h. h.0 h.1) (select mine s.files)
            (All-both _ _ (select mine s.files)
              (All-keep (λ f. mine f ≡ true → Own s.files f) mine s.files (mine-Own s.files u))
              (All-select mine s.files)))

      listed : Listed (sort_with older (select mine s.files)) s.files
      listed =
          All-map _ _
            (λ g h m. exists-sort_with older (λ f. f.id == g.id) (select mine s.files) ∙ h m)
            s.files (listed_in_select s.files)
