-- ===== src/Audit/Examples.antt =====
-- The audit log at concrete entries.
use maubase.Prelude.{
  arith, ◌≡◌, refl, Text, codes, ◌==◌, Option, none, some, [], ◌∷◌, exists, sort_with,
}
use maubase.Sql.{ok, ◌>>=◌}
use maubase.Schema.{Tables, no_rows, AuditRow}
use maubase.Audit.{Codec, Actor, Target, string_of, write, list}
use maubase.Audit.Listing.{clean, recorded, list-write}

-- Objects with one field, of which only the text is kept.
abbrev strip : Text → Option Text
strip [] = none
strip (b ∷ bs) = some bs

abbrev codec : Codec Text
codec = record { marshal = λ m. some (123 ∷ m); unmarshal = strip }

abbrev logged_in : AuditRow
logged_in = record {
  id = codes "e1";
  event = codes "login";
  actor_id = some (codes "o1");
  actor_email = some (codes "ana@x.io");
  target_id = none;
  target_email = none;
  metadata = none;
  created_at = 3;
}

abbrev one_entry : Tables
one_entry = record no_rows { audit_log = logged_in ∷ [] }

abbrev ana : Actor
ana = record { id = codes "o1"; email = codes "ana@x.io" }

abbrev bo : Target
bo = record { id = codes "o2"; email = codes "bo@x.io" }

abbrev nobody : Target
nobody = record { id = []; email = [] }

list-write_example :
    ((write codec
        (codes "e2")
        5
        (codes "owner_create")
        ana
        bo
        (some (codes "dev"))
        (clean one_entry)).0
      ≡ ok tt)
    × ((list codec 2 0
          (write codec
            (codes "e2")
            5
            (codes "owner_create")
            ana
            bo
            (some (codes "dev"))
            (clean one_entry)).1).0
        ≡ ok (
            recorded codec (codes "e2") 5 (codes "owner_create") ana bo (some (codes "dev"))
            ∷ recorded codec (codes "e1") 3 (codes "login") ana nobody none
            ∷ []))
unfolding exists ◌==◌ list ◌>>=◌ sort_with string_of
list-write_example =
    list-write codec (codes "e2") 5 (codes "owner_create") ana bo (some (codes "dev")) 1 one_entry
      (recorded codec (codes "e1") 3 (codes "login") ana nobody none ∷ [])
      (123 ∷ codes "dev", refl, (λ h. cc h), refl) refl (omega arith, tt) refl
