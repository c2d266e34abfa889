-- ===== src/Oauth/Examples.antt =====
-- The OAuth storage at a concrete client and concrete grants.
use maubase.Prelude.{
  Text, Option, Bool, false, ap, ◌≡◌, ◌≢◌, refl, sym, codes, ◌==◌, true, ◌&&◌, none, some, List, [],
  ◌∷◌, first, exists, count, update,
}
use maubase.Sql.{◌>>=◌, ok, Db}
use maubase.Sql.Ensures.{Ensures}
use maubase.Schema.{Tables, GrantRow, ClientRow, no_rows}
use maubase.Oauth.{
  inactive_token, StoredRequest, Json, Requester, Client, live, authorize_codes, refresh_tokens,
  rotate_refresh_token, decode_client, create_session, get_by_table, get_active, is_of,
  revoke_for_subject, revoke_for_subject_and_client, insert_row,
}
use maubase.Oauth.Keys.{Key, Rsa, KeyDraw, ensure_key, rotate}
use maubase.Oauth.Rotation.{RotatePost, rotate_refresh_token-Ensures, Call, creates, rotates, run}
use maubase.Oauth.Once.{rotate_refresh_token-once}
use maubase.Oauth.Revocation.{
  RevokePost, revoke_for_subject-Ensures, revoke_for_subject_and_client-Ensures,
}
use maubase.Oauth.RoundTrip.{
  RoundTrips, IsClient, no_faults, request_of, get_by_table-create_session,
}

abbrev stored : StoredRequest
stored = record {
  id = codes "r1";
  requested_at = 1;
  requested_scope = codes "profile" ∷ [];
  granted_scope = codes "profile" ∷ [];
  form = [];
  requested_audience = [];
  granted_audience = [];
}

-- One request, whose document is "d"; a session document is its subject.
abbrev pub json : Json
json = record {
  marshal = λ s. some (codes "d");
  unmarshal = λ d. some stored;
  unmarshal_strings = λ d. some (d ∷ []);
  marshal_session = λ s. some s;
  unmarshal_session = λ into s. some s;
  subject = λ s. some s;
}

abbrev app : ClientRow
app = record {
  id = codes "app";
  client_name = [];
  secret_hash = [];
  redirect_uris = codes "https://app";
  grant_types = codes "refresh_token";
  response_types = codes "code";
  scopes = codes "profile";
  is_public = true;
}

abbrev client : Client
client = record {
  id = codes "app";
  secret = [];
  redirect_uris = codes "https://app" ∷ [];
  grant_types = codes "refresh_token" ∷ [];
  response_types = codes "code" ∷ [];
  scopes = codes "profile" ∷ [];
  is_public = true;
}

abbrev requester : Requester
requester = record { stored = stored; client_id = codes "app"; session = codes "u1" }

abbrev grant : GrantRow
grant = record {
  signature = codes "sig";
  request_id = codes "r1";
  client_id = codes "app";
  requester = codes "d";
  session = codes "u1";
  active = true;
}

abbrev granted : Tables
granted = record no_rows {
  clients = app ∷ [];
  refresh_tokens = grant ∷ [];
  access_tokens = grant ∷ [];
}

abbrev db : Db Tables
db = record { tables = granted; faults = [] }

granted-IsClient : IsClient json granted (codes "app") client
unfolding first decode_client ◌==◌
granted-IsClient = record { row = app; found = refl; decoded = refl }

rotate_refresh_token-Ensures_example :
    Ensures
      (RotatePost (codes "r1") (codes "sig") granted)
      granted
      (rotate_refresh_token (codes "r1") (codes "sig"))
rotate_refresh_token-Ensures_example =
    rotate_refresh_token-Ensures (codes "r1") (codes "sig") granted

rotated : (rotate_refresh_token (codes "r1") (codes "sig") db).0 ≡ ok tt
unfolding rotate_refresh_token ◌>>=◌ count ◌==◌
rotated = refl

abbrev calls : List Call
calls =
    creates refresh_tokens (codes "sig2") requester
    ∷ creates authorize_codes (codes "sig") requester
    ∷ rotates (codes "r1") (codes "sig2")
    ∷ []

rotate_refresh_token-once_example :
    (rotate_refresh_token
      (codes "r1")
      (codes "sig")
      (run json calls (rotate_refresh_token (codes "r1") (codes "sig") db).1)).0
    ≢ ok tt
unfolding ◌==◌
rotate_refresh_token-once_example =
    rotate_refresh_token-once (codes "r1") (codes "sig") json db calls rotated
      (refl, (tt, (tt, tt)))

revoke_for_subject-Ensures_example :
    Ensures
      (RevokePost (is_of json (codes "u1")) granted)
      granted
      (revoke_for_subject json (codes "u1"))
revoke_for_subject-Ensures_example = revoke_for_subject-Ensures json (codes "u1") granted

revoke_for_subject_and_client-Ensures_example :
    Ensures
      (RevokePost (λ r. is_of json (codes "u1") r && r.client_id == codes "other") granted)
      granted
      (revoke_for_subject_and_client json (codes "u1") (codes "other"))
revoke_for_subject_and_client-Ensures_example =
    revoke_for_subject_and_client-Ensures json (codes "u1") (codes "other") granted

json-RoundTrips : RoundTrips json requester
unfolding ◌==◌
json-RoundTrips = record {
  request = λ d e. refl;
  session = λ into d e. sym e;
  filled = λ d e. ap filled_text (sym e);
}
  where
    filled_text : Option Text → Bool
    filled_text none = false
    filled_text (some t) = t == []

abbrev empty : Db Tables
empty = record { tables = record no_rows { clients = app ∷ [] }; faults = [] }

created : (create_session json refresh_tokens (codes "sig") requester empty).0 ≡ ok tt
unfolding create_session insert_row ◌>>=◌ exists ◌==◌
created = refl

empty-IsClient : IsClient json empty.tables (codes "app") client
unfolding first decode_client ◌==◌
empty-IsClient = record { row = app; found = refl; decoded = refl }

get_by_table-create_session_example :
    ((get_by_table json refresh_tokens
        (codes "sig")
        (some (codes "{}"))
        (no_faults (create_session json refresh_tokens (codes "sig") requester empty).1.tables)).0
      ≡ ok (request_of requester (some (codes "{}")) client))
    × ((get_active json refresh_tokens inactive_token
          (codes "sig")
          (some (codes "{}"))
          (no_faults (create_session json refresh_tokens (codes "sig") requester empty).1.tables)).0
        ≡ ok (live (request_of requester (some (codes "{}")) client)))
get_by_table-create_session_example =
    get_by_table-create_session json refresh_tokens (codes "sig") requester client empty created
      json-RoundTrips empty-IsClient inactive_token (some (codes "{}"))

found_row : first (λ (r : GrantRow). r.signature == codes "sig") (grant ∷ []) ≡ some grant
unfolding first ◌==◌
found_row = refl

abbrev rsa : Rsa
rsa = record { parses = λ d. true }

abbrev draw : KeyDraw
draw = record { kid = codes "k1"; key = some (codes "der"); secret = none }

abbrev fresh_db : Db Tables
fresh_db = record { tables = no_rows; faults = [] }

made : (ensure_key rsa draw fresh_db).0 ≡ ok (codes "k1", codes "der")
unfolding ensure_key rotate ◌>>=◌ first exists update ◌==◌
made = refl

made_again :
    (ensure_key rsa
      (record { kid = codes "k2"; key = some (codes "der2"); secret = none })
      (record { tables = (ensure_key rsa draw fresh_db).1.tables; faults = [] })).0
    ≡ ok (codes "k1", codes "der")
unfolding ensure_key rotate ◌>>=◌ first exists update ◌==◌
made_again = refl

abbrev key : Key
key = (codes "k1", codes "der")
