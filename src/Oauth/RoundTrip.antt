-- ===== src/Oauth/RoundTrip.antt =====
-- What the storage gives back of what fosite stored.
use maubase.Prelude.{
  ◌≡◌, refl, ap, ◌∙◌, subst, eq_refl, Text, ◌==◌, Bool, true, false, Option, none, some, List, [],
  ◌∷◌, ◌++◌, arith, if◌then◌else◌, first, update, first-append, first-some, first-update,
}
use maubase.Sql.{Result, ok, err, failed, Db, ◌>>=◌}
use maubase.Sql.Ensures.{Ensures, Ensures-from_option, Ensures-exec_checked}
use maubase.Schema.{Tables, GrantRow, ClientRow}
use maubase.Oauth.{
  Error, inactive_token, StoredRequest, Json, Requester, Client, Request, live, spent, Grants,
  refresh_tokens, rows, set_rows, by_signature, insert_row, spend, is_rotated, rotate_refresh_token,
  decode_client, get_client, read_session, hydrate, create_session, judge, get_by_table, get_active,
  get_refresh_token,
}
use maubase.Oauth.Rotation.{RotatePost, rotate_refresh_token-Ensures}

-- What encoding/json promises of one request: what it makes of a session is not empty, and decoding
-- what it encoded gives it back, into whichever session.
pub record RoundTrips (j : Json) (r : Requester) : Type 0 where
  pub request : (d : Text) → j.marshal r.stored ≡ some d → j.unmarshal d ≡ some r.stored
  pub session :
      (into d : Text)
      → j.marshal_session r.session ≡ some d
      → j.unmarshal_session into d ≡ some r.session
  pub filled : (d : Text) → j.marshal_session r.session ≡ some d → (d == []) ≡ false

-- A registered client, as GetClient decodes it.
pub record IsClient (j : Json) (t : Tables) (id : Text) (client : Client) : Type 0 where
  pub row : ClientRow
  pub found : first (λ c. c.id == id) t.clients ≡ some row
  pub decoded : decode_client j row ≡ some client

abbrev pub grant_row : Text → Requester → Text → Text → GrantRow
grant_row signature r request session = record {
  signature = signature;
  request_id = r.stored.id;
  client_id = r.client_id;
  requester = request;
  session = session;
  active = true;
}

module _ (j : Json) (g : Grants) (signature : Text) (r : Requester) (t : Tables) where
  abbrev pub CreatePost : Result Error Unit → Tables → Type 0
  CreatePost (ok x) t' =
      (request session : Text) × (j.marshal r.stored ≡ some request)
      × (j.marshal_session r.session ≡ some session)
      × (first (by_signature signature) (rows g t') ≡ some (grant_row signature r request session))
      × (t'.clients ≡ t.clients)
  CreatePost (err e) t' = ⊥
  CreatePost failed t' = t' ≡ t

insert_inv :
    {A : Type 0} (clash there : Bool) (x y : A)
    → (if clash then none else if there then some x else none) ≡ some y
    → (clash ≡ false) × (y ≡ x)
insert_inv clash there x y h = ground arith

set_rows_lem :
    (g : Grants) (xs : List GrantRow) (t : Tables)
    → (rows g (set_rows g xs t) ≡ xs) × ((set_rows g xs t).clients ≡ t.clients)
unfolding rows set_rows
set_rows_lem Grants.authorize_codes xs t = (refl, refl)
set_rows_lem Grants.access_tokens xs t = (refl, refl)
set_rows_lem Grants.refresh_tokens xs t = (refl, refl)
set_rows_lem Grants.pkce_requests xs t = (refl, refl)

insert_row-some :
    (g : Grants) (r : GrantRow) (t t' : Tables)
    → insert_row g r t ≡ some t'
    → (first (by_signature r.signature) (rows g t') ≡ some r) × (t'.clients ≡ t.clients)
unfolding insert_row
insert_row-some g r t t' h =
    let (free, same) = insert_inv _ _ _ t' h in
    let (table, clients) = set_rows_lem g (rows g t ++ r ∷ []) t in
    rw same (
      ap (first (by_signature r.signature)) table
          ∙ first-append (by_signature r.signature) (rows g t) r (eq_refl r.signature) free,
      clients,
    )

module _ (j : Json) (g : Grants) (signature : Text) (r : Requester) (t : Tables) where
  create_session-Ensures : Ensures (CreatePost j g signature r t) t (create_session j g signature r)
  unfolding create_session
  create_session-Ensures = Ensures-from_option Q t (j.marshal r.stored) _ refl (λ request e.
      Ensures-from_option Q t (j.marshal_session r.session) _ refl (λ session e'.
        Ensures-exec_checked Q t (insert_row g (grant_row signature r request session)) refl
          (λ t' h.
            let (found, clients) =
              insert_row-some g (grant_row signature r request session) t t' h in
            (request, session, e, e', found, clients))))
    where
      Q : Result Error Unit → Tables → Type 0
      Q = CreatePost j g signature r t

abbrev pub no_faults : Tables → Db Tables
no_faults t = record { tables = t; faults = [] }

-- Into no session nothing is read.
abbrev pub read_into : Option Text → Text → Option Text
read_into none session = none
read_into (some into) session = some session

abbrev pub request_of : Requester → Option Text → Client → Request
request_of r passed client = record {
  stored = r.stored;
  client = client;
  session = read_into passed r.session;
}

read_session_lem :
    (j : Json) (r : Requester) (passed : Option Text) (d : Text)
    → RoundTrips j r
    → j.marshal_session r.session ≡ some d
    → read_session j passed d ≡ some (read_into passed r.session)
unfolding ◌==◌
read_session_lem j r none d trips m = refl
read_session_lem j r (some into) [] trips m = absurd (cc (trips.filled [] m))
read_session_lem j r (some into) (b ∷ d) trips m =
    rw (trips.session into (b ∷ d) m, read_session) refl

get_client_runs :
    (j : Json) (t : Tables) (id : Text) (client : Client)
    → IsClient j t id client
    → get_client j id (no_faults t) ≡ (ok client, no_faults t)
unfolding get_client ◌>>=◌
get_client_runs j t id client c = rw (c.found, c.decoded)

hydrate_runs :
    (j : Json) (t : Tables) (passed : Option Text) (row : GrantRow) (stored : StoredRequest)
    (session : Option Text) (client : Client)
    → j.unmarshal row.requester ≡ some stored
    → read_session j passed row.session ≡ some session
    → IsClient j t row.client_id client
    → hydrate j passed row (no_faults t)
      ≡ (ok (record { stored = stored; client = client; session = session }), no_faults t)
unfolding hydrate ◌>>=◌
hydrate_runs j t passed row stored session client e e' c =
    rw (e, e', get_client_runs j t row.client_id client c)

get_active_runs :
    (j : Json) (g : Grants) (e : Error) (signature : Text) (t : Tables) (passed : Option Text)
    (row : GrantRow) (request : Request)
    → first (by_signature signature) (rows g t) ≡ some row
    → hydrate j passed row (no_faults t) ≡ (ok request, no_faults t)
    → get_active j g e signature passed (no_faults t)
      ≡ (ok (judge j row.active e request), no_faults t)
unfolding get_active ◌>>=◌
get_active_runs j g e signature t passed row request found h = rw (found, h)

get_by_table_runs :
    (j : Json) (g : Grants) (signature : Text) (t : Tables) (passed : Option Text) (row : GrantRow)
    (request : Request)
    → first (by_signature signature) (rows g t) ≡ some row
    → hydrate j passed row (no_faults t) ≡ (ok request, no_faults t)
    → get_by_table j g signature passed (no_faults t) ≡ (ok request, no_faults t)
unfolding get_by_table ◌>>=◌
get_by_table_runs j g signature t passed row request found h = rw (found, h)

module _ (j : Json) (g : Grants) (signature : Text) (r : Requester) (client : Client)
    (db : Db Tables) where
  pub get_by_table-create_session :
      (create_session j g signature r db).0 ≡ ok tt
      → RoundTrips j r
      → IsClient j db.tables r.client_id client
      → (e : Error) (passed : Option Text)
      → (get_by_table j g signature passed
            (no_faults (create_session j g signature r db).1.tables)).0
          ≡ ok (request_of r passed client)
        × (get_active j g e signature passed
            (no_faults (create_session j g signature r db).1.tables)).0
          ≡ ok (live (request_of r passed client))
  get_by_table-create_session done trips c e passed =
      let (request, session, m, m', found, clients) =
        subst
          (λ x. CreatePost j g signature r db.tables x (create_session j g signature r db).1.tables)
          done ((create_session-Ensures j g signature r db.tables).at db.faults) in
      let t' = (create_session j g signature r db).1.tables in
      let c' : IsClient j t' r.client_id client = record {
        row = c.row;
        found = ap (first (λ x. x.id == r.client_id)) clients ∙ c.found;
        decoded = c.decoded;
      } in
      let row = grant_row signature r request session in
      let h =
        hydrate_runs j t' passed row r.stored (read_into passed r.session) client
          (trips.request request m) (read_session_lem j r passed session trips m') c' in
      (
        ap (λ p. p.0)
            (get_by_table_runs j g signature t' passed row (request_of r passed client) found h),
        ap (λ p. p.0)
            (get_active_runs j g e signature t' passed row (request_of r passed client) found h),
      )

module _ (j : Json) (request_id signature : Text) (row : GrantRow) (stored : StoredRequest)
    (passed session : Option Text) (client : Client) (db : Db Tables) where
  rotated_row :
      (t : Tables)
      → first (by_signature signature) t.refresh_tokens ≡ some row
      → row.request_id ≡ request_id
      → row.active ≡ true
      → first
          (by_signature signature)
          (update (is_rotated request_id signature) spend t.refresh_tokens)
        ≡ some (spend row)
  rotated_row t found mine active =
      first-update (is_rotated request_id signature) (by_signature signature) spend t.refresh_tokens
        row (λ b. refl) found
      ∙ rw (
        first-some (by_signature signature) t.refresh_tokens row found,
        mine,
        eq_refl request_id,
        active,
      )

  -- A refresh token that was rotated away is still found, together with the error that says that it
  -- is inactive, so that a replay can be told apart from a token that never was; provided that its
  -- documents decode and that no statement of the lookup fails.
  get_refresh_token-rotate_refresh_token :
      first (by_signature signature) db.tables.refresh_tokens ≡ some row
      → row.request_id ≡ request_id
      → row.active ≡ true
      → j.unmarshal row.requester ≡ some stored
      → read_session j passed row.session ≡ some session
      → IsClient j db.tables row.client_id client
      → (rotate_refresh_token request_id signature db).0 ≡ ok tt
      → (get_refresh_token j signature passed
          (no_faults (rotate_refresh_token request_id signature db).1.tables)).0
        ≡ ok (spent (record { stored = stored; client = client; session = session }) inactive_token)
  unfolding rows
  get_refresh_token-rotate_refresh_token found mine active e e' c done =
      let (there, after) =
        subst
          (λ x.
            RotatePost request_id signature db.tables x
              (rotate_refresh_token request_id signature db).1.tables)
          done ((rotate_refresh_token-Ensures request_id signature db.tables).at db.faults) in
      let t' : Tables = record db.tables {
        refresh_tokens = update (is_rotated request_id signature) spend db.tables.refresh_tokens;
      } in
      let c' : IsClient j t' row.client_id client = record {
        row = c.row;
        found = c.found;
        decoded = c.decoded;
      } in
      let request : Request = record { stored = stored; client = client; session = session } in
      rw after (
        ap (λ p. p.0)
          (get_active_runs j refresh_tokens inactive_token signature t' passed (spend row) request
            (rotated_row db.tables found mine active)
            (hydrate_runs j t' passed (spend row) stored session client e e' c')))
