-- ===== src/Auth/Examples.antt =====
-- The customer plane at concrete accounts.
use maubase.Prelude.{
  ◌≡◌, ◌≢◌, refl, Text, codes, ◌==◌, Bool, true, false, none, some, List, [], ◌∷◌, arith, first,
  exists, update, delete,
}
use maubase.Sql.{◌>>=◌, ok, err, Db}
use maubase.Sql.Ensures.{Ensures}
use maubase.Schema.{Tables, UserRow, SessionRow, ResetTokenRow, no_rows}
use maubase.Email.{Unicode, normalize_email}
use maubase.Crypto.{Crypto, Fresh}
use maubase.Auth.{Error, to_user, login, validate_session, create_reset_token, reset_password}
use maubase.Auth.Social.{Draws, login_or_create_via_social}
use maubase.Auth.Linked.{IsLinked}
use maubase.Auth.Calls.{
  Call, signs_up, logs_in_social, asks_reset, resets, deletes, run, run-IsLinked,
}
use maubase.Auth.Recovery.{token_of}
use maubase.Auth.Redemption.{
  reset_password-reset_password, validate_session-reset_password, login-reset_password,
}
use maubase.Auth.Linking.{SocialPost}
use maubase.Auth.Resolving.{login_or_create_via_social-Ensures}

-- A hash that is the text itself.
abbrev pub plain : Crypto
plain = record { hash_password = λ p. some p; verify_password = λ h p. h == p; hash_token = λ t. t }

abbrev pub ascii : Unicode
ascii = record { to_lower = λ s. s; trim_space = λ s. s }

abbrev ana : UserRow
ana = record {
  id = codes "u1";
  email = codes "ana@x.io";
  password_hash = codes "long enough";
  created_at = 1;
  updated_at = 1;
}

abbrev old_session : SessionRow
old_session = record {
  id = codes "s0";
  user_id = codes "u1";
  token_hash = codes "old";
  expires_at = 999999;
}

abbrev pub accounts : Tables
accounts = record no_rows { users = ana ∷ []; sessions = old_session ∷ [] }

abbrev before : Db Tables
before = record { tables = accounts; faults = [] }

abbrev pub at_noon : Fresh
at_noon = record { now = 100; id = codes "n1"; token = some (codes "tok") }

abbrev address : Text
address = codes " Ana@X.io "

abbrev new_password : Text
new_password = codes "12345678"

accounts-IsLinked : IsLinked accounts
unfolding exists ◌==◌
accounts-IsLinked = record {
  distinct = (refl, tt);
  sessions = (refl, tt);
  reset_tokens = tt;
  social_identities = tt;
  consents = tt;
  files = tt;
}

ana_session :
    (login plain ascii at_noon address (codes "long enough") before).0
    ≡ ok (record {
      id = codes "n1";
      user_id = codes "u1";
      token = codes "tok";
      expires_at = 2592100;
    })
unfolding login ◌>>=◌ normalize_email first exists ◌==◌
ana_session = refl

abbrev draws : Draws
draws = record {
  user = record { now = 5; id = codes "u9"; token = some (codes "pw") };
  link = record { now = 5; id = codes "l1"; token = none };
  session = record { now = 5; id = codes "s9"; token = some (codes "tok9") };
}

abbrev calls : List Call
calls =
    signs_up at_noon (codes "bo@x.io") new_password
    ∷ asks_reset at_noon address
    ∷ resets 200 (codes "tok") new_password
    ∷ logs_in_social (codes "github") (codes "7") draws [] []
    ∷ deletes (codes "u1")
    ∷ []

run-IsLinked_example :
    IsLinked
      (run plain ascii calls (record { tables = accounts; faults = false ∷ true ∷ [] })).tables
run-IsLinked_example =
    run-IsLinked plain ascii calls (record { tables = accounts; faults = false ∷ true ∷ [] })
      accounts-IsLinked

-- Two tokens of one account are waiting.
abbrev token_row : Text → ResetTokenRow
token_row name = record {
  id = name;
  user_id = codes "u1";
  token_hash = name;
  expires_at = 500;
  used_at = none;
}

abbrev asked : Db Tables
asked = record {
  tables = record accounts { reset_tokens = token_row (codes "a") ∷ token_row (codes "b") ∷ [] };
  faults = [];
}

reset_done : (reset_password plain 200 (codes "a") new_password asked).0 ≡ ok (codes "u1")
unfolding reset_password ◌>>=◌ first ◌==◌
reset_done = refl

other_token : token_of plain (codes "b") asked.tables ≡ some (token_row (codes "b"))
unfolding first ◌==◌
other_token = refl

reset_password-reset_password_example :
    (reset_password plain 201 (codes "b") new_password (record {
      tables = (reset_password plain 200 (codes "a") new_password asked).1.tables;
      faults = [];
    })).0
    ≢ ok (codes "u1")
reset_password-reset_password_example =
    reset_password-reset_password plain 200 (codes "a") new_password asked (codes "u1") reset_done
      (codes "b") (token_row (codes "b")) other_token refl 201 new_password (codes "u1") []

-- A session of another account outlives the reset.
abbrev bo : UserRow
bo = record {
  id = codes "u2";
  email = codes "bo@x.io";
  password_hash = codes "bo's own";
  created_at = 2;
  updated_at = 2;
}

abbrev bo_session : SessionRow
bo_session = record {
  id = codes "s2";
  user_id = codes "u2";
  token_hash = codes "bo";
  expires_at = 999999;
}

abbrev shared : Db Tables
shared = record asked {
  tables = record asked.tables { users = ana ∷ bo ∷ []; sessions = old_session ∷ bo_session ∷ [] };
}

shared_reset : (reset_password plain 200 (codes "a") new_password shared).0 ≡ ok (codes "u1")
unfolding reset_password ◌>>=◌ first ◌==◌
shared_reset = refl

bo_stays :
    (validate_session plain 300 (codes "bo") (record {
      tables = (reset_password plain 200 (codes "a") new_password shared).1.tables;
      faults = [];
    })).0
    ≡ ok (to_user bo)
unfolding reset_password validate_session ◌>>=◌ first update delete ◌==◌
bo_stays = refl

validate_session-reset_password_example : codes "u2" ≢ codes "u1"
validate_session-reset_password_example =
    validate_session-reset_password plain 200 (codes "a") new_password shared (codes "u1")
      shared_reset 300 (codes "bo") (to_user bo) [] bo_stays

token_issued :
    (create_reset_token plain ascii at_noon address before).0 ≡ ok (some (codes "tok", codes "u1"))
unfolding create_reset_token ◌>>=◌ normalize_email first exists ◌==◌
token_issued = refl

login-reset_password_example :
    (t' : Tables) × (reset_password plain 3700 (codes "tok") new_password (record {
      tables = (create_reset_token plain ascii at_noon address before).1.tables;
      faults = [];
    })
      ≡ (ok (codes "u1"), record { tables = t'; faults = [] }))
    × ((f' : Fresh) (faults : List Bool) (e : Error)
        → (login plain ascii f' address new_password (record { tables = t'; faults = faults })).0
          ≢ err e)
unfolding ◌==◌
login-reset_password_example =
    login-reset_password plain ascii at_noon address before (codes "tok") (codes "u1") token_issued
      3700 new_password new_password (omega arith) (omega arith) refl refl

login_or_create_via_social-Ensures_example :
    Ensures
      (SocialPost (codes "github") (codes "7") (codes "u1") accounts)
      accounts
      (login_or_create_via_social plain ascii (codes "github") (codes "7") draws [] (codes "u1"))
login_or_create_via_social-Ensures_example =
    login_or_create_via_social-Ensures plain ascii (codes "github") (codes "7") draws [] accounts
      (codes "u1")
