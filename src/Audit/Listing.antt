-- ===== src/Audit/Listing.antt =====
-- Listing what was recorded.
use maubase.Prelude.{
  ℕ, suc, ◌<◌, ◌≡◌, ◌≢◌, refl, Text, ◌==◌, Bool, false, Option, none, some, List, [], ◌∷◌, ◌++◌,
  All, All-map, arith, exists, sort_with, insert_with,
}
use maubase.Sql.{ok, Db, ◌>>=◌}
use maubase.Sql.Ensures.{from_option_ok}
use maubase.Schema.{AuditRow, Tables}
use maubase.Audit.{
  Codec, Actor, Target, Entry, null_if_empty, string_of, insert_entry, newest, marshal_metadata,
  audit_row, write, read_metadata, entry_with, read_rows, page, list,
}

string_of-null_if_empty : (s : Text) → string_of (null_if_empty s) ≡ s
unfolding string_of null_if_empty
string_of-null_if_empty [] = refl
string_of-null_if_empty (b ∷ bs) = refl

-- A row that no other row stands before comes first.
sort_with-append :
    (le : AuditRow → AuditRow → Bool) (r : AuditRow) (rows : List AuditRow)
    → All (λ x. le x r ≡ false) rows
    → sort_with le (rows ++ r ∷ []) ≡ r ∷ sort_with le rows
unfolding sort_with insert_with
sort_with-append le r [] h = refl
sort_with-append le r (x ∷ rows) h = rw (sort_with-append le r rows h.1, h.0) refl

abbrev pub clean : Tables → Db Tables
clean t = record { tables = t; faults = [] }

module _ {M : Type 0} (c : Codec M) where
  -- The metadata has an encoding that decodes to it; an encoded object is not empty.
  abbrev pub IsCoded : Option M → Type 0
  IsCoded none = Unit
  IsCoded (some m) = (j : Text) × (c.marshal m ≡ some j) × (j ≢ []) × (c.unmarshal j ≡ some m)

  coded :
      (m : Option M)
      → IsCoded m
      → (j : Option Text) × (marshal_metadata c m ≡ some j) × (read_metadata c j ≡ some m)
  unfolding marshal_metadata read_metadata
  coded none h = (none, refl, refl)
  coded (some m) ([], e, full, d) = absurd (full refl)
  coded (some m) (b ∷ bs, e, full, d) =
      (some (b ∷ bs), rw (e, marshal_metadata) refl, rw (d, read_metadata) refl)

  list_ok :
      (limit : ℕ) (t : Tables) (es : List (Entry M))
      → (list c limit 0 (clean t)).0 ≡ ok es
      → read_rows c (page c limit 0 t) ≡ some es
  unfolding list ◌>>=◌
  list_ok limit t es h = from_option_ok (read_rows c (page c limit 0 t)) (clean t) es h

  list_runs :
      (limit : ℕ) (t : Tables) (es : List (Entry M))
      → read_rows c (page c limit 0 t) ≡ some es
      → (list c limit 0 (clean t)).0 ≡ ok es
  unfolding list ◌>>=◌
  list_runs limit t es h = rw (h) refl

  module _ (id : Text) (now : ℕ) (event : Text) (actor : Actor) (target : Target)
      (metadata : Option M) where
    -- The entry that Record's arguments describe.
    abbrev pub recorded : Entry M
    recorded = record {
      id = id;
      event = event;
      actor_id = actor.id;
      actor_email = actor.email;
      target_id = target.id;
      target_email = target.email;
      metadata = metadata;
      created_at = now;
    }

    recorded_lem :
        (j : Option Text)
        → entry_with c (audit_row c id now event actor target j) metadata ≡ recorded
    unfolding audit_row
    recorded_lem j =
        rw
          (
            string_of-null_if_empty actor.id,
            string_of-null_if_empty actor.email,
            string_of-null_if_empty target.id,
            string_of-null_if_empty target.email,
          )
          refl

    write_runs :
        (t : Tables) (j : Option Text)
        → marshal_metadata c metadata ≡ some j
        → exists (λ r. r.id == id) t.audit_log ≡ false
        → write c id now event actor target metadata (clean t) ≡ (
          ok tt,
          clean (record t {
            audit_log = t.audit_log ++ audit_row c id now event actor target j ∷ [];
          }),
        )
    unfolding write ◌>>=◌ insert_entry audit_row
    write_runs t j e free = rw (e) (rw (free) refl)

    -- Where no statement fails, the id is new, the clock is later than every row and the metadata
    -- is absent or has a JSON encoding that is not empty and decodes to it: Record succeeds, and if
    -- List answered some entries for a limit before, it answers for the limit and one more the new
    -- entry first, with the event, actor, target and metadata given to Record, and then those
    -- entries.
    pub list-write :
        (limit : ℕ) (t : Tables) (es : List (Entry M))
        → IsCoded metadata
        → exists (λ r. r.id == id) t.audit_log ≡ false
        → All (λ r. r.created_at < now) t.audit_log
        → (list c limit 0 (clean t)).0 ≡ ok es
        → ((write c id now event actor target metadata (clean t)).0 ≡ ok tt)
          × ((list c (suc limit) 0 (write c id now event actor target metadata (clean t)).1).0
              ≡ ok (recorded ∷ es))
    list-write limit t es h free older before =
        let (j, encoded, decoded) = coded metadata h in
        rw (write_runs t j encoded free) (
          refl,
          list_runs (suc limit) (record t { audit_log = t.audit_log ++ row j ∷ [] }) (recorded ∷ es)
              (rw
                (sort_with-append newest (row j) t.audit_log
                  (All-map _ _ (first_by_time j) t.audit_log older))
                (unfold read_rows in
                  rw (row_metadata j, decoded, list_ok limit t es before, recorded_lem j) refl)),
        )
      where
        row : Option Text → AuditRow
        row = audit_row c id now event actor target

        row_metadata : (j : Option Text) → (row j).metadata ≡ j
        row_metadata j = unfold audit_row in refl

        first_by_time :
            (j : Option Text) (x : AuditRow) → x.created_at < now → newest x (row j) ≡ false
        first_by_time j x h = unfold newest audit_row in ground arith
