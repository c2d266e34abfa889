-- ===== src/OwnerAuth/Examples.antt =====
-- The owner plane at concrete accounts.
use maubase.Prelude.{
  exists, count, ◌≡◌, refl, codes, ◌==◌, true, false, some, List, [], ◌∷◌, arith, first,
}
use maubase.Sql.{◌>>=◌, ok, err, Db}
use maubase.Sql.Ensures.{Ensures}
use maubase.Schema.{Tables, OwnerRow, no_rows}
use maubase.Email.{Unicode, normalize_email}
use maubase.Crypto.{Crypto, Fresh}
use maubase.OwnerAuth.Roles.{owner, admin, viewer}
use maubase.OwnerAuth.{last_owner, delete_owner, login}
use maubase.OwnerAuth.Team.{DeleteOwnerPost, delete_owner-Ensures}
use maubase.OwnerAuth.Staffed.{
  IsStaffed, Call, creates, deletes, logs_in, purges, run, run-IsStaffed,
}

-- A hash that is the text itself.
abbrev plain : Crypto
plain = record { hash_password = λ p. some p; verify_password = λ h p. h == p; hash_token = λ t. t }

abbrev ascii : Unicode
ascii = record { to_lower = λ s. s; trim_space = λ s. s }

abbrev ana : OwnerRow
ana = record {
  id = codes "o1";
  email = codes "ana@x.io";
  password_hash = codes "long enough";
  role = owner;
  created_at = 1;
  updated_at = 1;
}

abbrev bo : OwnerRow
bo = record {
  id = codes "o2";
  email = codes "bo@x.io";
  password_hash = codes "longer still";
  role = viewer;
  created_at = 2;
  updated_at = 2;
}

abbrev team : Tables
team = record no_rows { owner_users = ana ∷ bo ∷ [] }

abbrev at_noon : Fresh
at_noon = record { now = 100; id = codes "s1"; token = some (codes "tok") }

delete_owner-Ensures_example :
    Ensures (DeleteOwnerPost (codes "o1") team) team (delete_owner (codes "o1"))
delete_owner-Ensures_example = delete_owner-Ensures (codes "o1") team

team-IsStaffed : IsStaffed team
unfolding exists count ◌==◌
team-IsStaffed = record { distinct = (refl, (refl, tt)); staffed = omega arith }

abbrev calls : List Call
calls =
    deletes (codes "o1")
    ∷ creates at_noon (codes "cy@x.io") (codes "12345678") admin
    ∷ logs_in at_noon (codes "ANA@x.io ") (codes "long enough")
    ∷ purges 999999999
    ∷ []

run-IsStaffed_example :
    IsStaffed
      (run plain ascii calls (record { tables = team; faults = false ∷ false ∷ true ∷ [] })).tables
run-IsStaffed_example =
    run-IsStaffed plain ascii calls (record { tables = team; faults = false ∷ false ∷ true ∷ [] })
      team-IsStaffed

abbrev before_login : Db Tables
before_login = record { tables = team; faults = [] }

-- The address is normalized: case and outer white space do not matter.
ana_session :
    (login plain ascii at_noon (codes " Ana@X.io ") (codes "long enough") before_login).0
    ≡ ok (record {
      id = codes "s1";
      owner_id = codes "o1";
      token = codes "tok";
      expires_at = 604900;
    })
unfolding login ◌>>=◌ normalize_email first exists ◌==◌
ana_session = refl

-- The last account of the role owner is refused.
last_owner_refused : (delete_owner (codes "o1") before_login).0 ≡ err last_owner
unfolding delete_owner ◌>>=◌ first count ◌==◌
last_owner_refused = refl
