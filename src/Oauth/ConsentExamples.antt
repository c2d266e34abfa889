-- ===== src/Oauth/ConsentExamples.antt =====
-- Consents of a concrete user to a concrete client.
use maubase.Prelude.{
  ◌≡◌, refl, Text, codes, ◌==◌, true, List, [], ◌∷◌, exists, select, first, delete,
}
use maubase.Sql.{◌>>=◌}
use maubase.Schema.{Tables, UserRow, ClientRow, no_rows}
use maubase.Oauth.Consent.{
  has, allow, is_allowed_scope, granted_scopes, upsert, deduped, ask, continue_authorize,
}
use maubase.Oauth.Consenting.{AllowPost, allow-Ensures}
use maubase.Oauth.Asking.{after, continue_authorize-allow}

abbrev ana : UserRow
ana = record {
  id = codes "ana";
  email = codes "ana@x.io";
  password_hash = codes "h";
  created_at = 1;
  updated_at = 1;
}

abbrev app : ClientRow
app = record {
  id = codes "app";
  client_name = [];
  secret_hash = [];
  redirect_uris = codes "[]";
  grant_types = codes "[]";
  response_types = codes "[]";
  scopes = codes "[]";
  is_public = true;
}

abbrev profile : Text
profile = codes "profile"

abbrev read_files : Text
read_files = codes "files:read"

-- Ana allowed both scopes before.
abbrev before : Tables
before = record no_rows {
  users = ana ∷ [];
  clients = app ∷ [];
  consents =
      record { user_id = codes "ana"; client_id = codes "app"; scopes = profile ∷ read_files ∷ [] }
      ∷ [];
}

-- The client asks for the profile, and she takes the files back.
allow-Ensures_example :
    AllowPost before
      (codes "ana")
      (codes "app")
      (profile ∷ [])
      (profile ∷ [])
      []
      []
      (allow
        (codes "ana")
        (codes "app")
        (profile ∷ [])
        (profile ∷ [])
        []
        (record { tables = before; faults = [] })).0
      (allow
        (codes "ana")
        (codes "app")
        (profile ∷ [])
        (profile ∷ [])
        []
        (record { tables = before; faults = [] })).1.tables
allow-Ensures_example =
    allow-Ensures before (codes "ana") (codes "app") (profile ∷ []) (profile ∷ []) [] []

abbrev left : Tables
left = after before (codes "ana") (codes "app") (profile ∷ []) (profile ∷ []) [] [] (profile ∷ [])

continue_authorize-allow_example :
    (previous : List Text) × ((continue_authorize
        (codes "ana")
        (codes "app")
        (read_files ∷ [])
        (record { tables = left; faults = [] })).0
      ≡ ask (read_files ∷ []) previous)
unfolding allow ◌>>=◌ is_allowed_scope granted_scopes has exists ◌==◌ select first delete upsert
    deduped
continue_authorize-allow_example =
    continue_authorize-allow before (codes "ana") (codes "app") (profile ∷ []) (profile ∷ []) [] []
      (profile ∷ []) (read_files ∷ []) read_files [] refl refl refl refl
