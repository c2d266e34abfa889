-- ===== src/Server/Spares.antt =====
-- What is left of an account, and of everyone else, while an account is erased.
use maubase.Prelude.{
  Text, ◌==◌, ◌≡◌, refl, ap, ◌∙◌, Bool, false, not, List, select, exists, exists-delete,
  select-delete, All, true, none, lookup,
}
use maubase.Schema.{Tables, GrantRow, AuditRow, FileRow}
use maubase.Auth.{delete_user_row}
use maubase.Oauth.{
  Grants, authorize_codes, access_tokens, refresh_tokens, pkce_requests, rows, is_of,
}
use maubase.Oauth.Revocation.{OnlyGrants, Spared}
use maubase.Storage.{Shelf}
use maubase.Storage.Bytes.{is_key}
use maubase.RestApi.Sqlite.{Store}
use maubase.RestApi.Discovery.{owned_collections}
use maubase.RestApi.Erasing.{Keeps, IsErased}
use maubase.Server.World.{World, Env, shelf, with_shelf, with_tables, with_data}
use maubase.Server.Calls.{with_log}

-- What deleting the account's row, and an entry in the audit log, do to the grants.
rows-delete_user_row :
    (g : Grants) (id : Text) (log : List AuditRow) (t : Tables)
    → rows g (record (delete_user_row id t) { audit_log = log }) ≡ rows g t
unfolding rows delete_user_row
rows-delete_user_row authorize_codes id log t = refl
rows-delete_user_row access_tokens id log t = refl
rows-delete_user_row refresh_tokens id log t = refl
rows-delete_user_row pkce_requests id log t = refl

rows-with_files :
    (g : Grants) (fs : List FileRow) (t : Tables) → rows g (record t { files = fs }) ≡ rows g t
unfolding rows
rows-with_files authorize_codes fs t = refl
rows-with_files access_tokens fs t = refl
rows-with_files refresh_tokens fs t = refl
rows-with_files pkce_requests fs t = refl

module _ (env : Env) (id : Text) where
  abbrev pub theirs : GrantRow → Bool
  theirs = is_of env.json id

  -- These of everyone else are as they were, in their order; of the application's tables so are the
  -- columns.
  pub record Spares (w w' : World) : Type 0 where
    pub data_rows : Keeps env.restapi id w.data_tables w'.data_tables
    pub files :
        select (λ f. not (f.owner_id == id)) w'.tables.files
        ≡ select (λ f. not (f.owner_id == id)) w.tables.files
    pub grants : Spared theirs w.tables w'.tables
    pub users :
        select (λ x. not (x.id == id)) w'.tables.users
        ≡ select (λ x. not (x.id == id)) w.tables.users
    pub sessions :
        select (λ s. not (s.user_id == id)) w'.tables.sessions
        ≡ select (λ s. not (s.user_id == id)) w.tables.sessions
    pub consents :
        select (λ s. not (s.user_id == id)) w'.tables.consents
        ≡ select (λ s. not (s.user_id == id)) w.tables.consents
    pub reset_tokens :
        select (λ s. not (s.user_id == id)) w'.tables.reset_tokens
        ≡ select (λ s. not (s.user_id == id)) w.tables.reset_tokens
    pub identities :
        select (λ s. not (s.user_id == id)) w'.tables.social_identities
        ≡ select (λ s. not (s.user_id == id)) w.tables.social_identities
    -- The bytes under every key that is none of the account's files.
    pub blobs :
        (key : Text) → is_key id (shelf w) key ≡ false → lookup key w'.blobs ≡ lookup key w.blobs

  -- None of these of the account is left.
  pub record IsGone (w w' : World) : Type 0 where
    pub data_rows : All (IsErased env.restapi id w'.data_tables) (owned_collections env.registry)
    pub files : exists (λ f. f.owner_id == id) w'.tables.files ≡ false
    -- The bytes of every file that the account had before.
    pub blobs : (key : Text) → is_key id (shelf w) key ≡ true → lookup key w'.blobs ≡ none
    pub grants : (g : Grants) → exists theirs (rows g w'.tables) ≡ false
    pub account : exists (λ x. x.id == id) w'.tables.users ≡ false
    pub sessions : exists (λ s. s.user_id == id) w'.tables.sessions ≡ false
    pub reset_tokens : exists (λ s. s.user_id == id) w'.tables.reset_tokens ≡ false
    pub identities : exists (λ s. s.user_id == id) w'.tables.social_identities ≡ false
    pub consents : exists (λ s. s.user_id == id) w'.tables.consents ≡ false

  -- After the rows and the files, and after the grants.
  pub after_files :
      (w : World) (s : Store) (sh : Shelf)
      → Keeps env.restapi id w.data_tables s
      → select (λ f. not (f.owner_id == id)) sh.files
        ≡ select (λ f. not (f.owner_id == id)) w.tables.files
      → ((key : Text) → is_key id (shelf w) key ≡ false → lookup key sh.blobs ≡ lookup key w.blobs)
      → Spares w (with_shelf sh (with_data s w))
  after_files w s sh kept same bytes = record {
    data_rows = kept;
    files = same;
    grants = λ g. ap (select (λ r. not (theirs r))) (rows-with_files g sh.files w.tables);
    users = refl;
    sessions = refl;
    consents = refl;
    reset_tokens = refl;
    identities = refl;
    blobs = bytes;
  }

  pub after_grants :
      (w w2 : World) (t : Tables)
      → Spares w w2
      → Spared theirs w2.tables t
      → OnlyGrants w2.tables t
      → Spares w (with_tables t w2)
  after_grants w w2 t before spared (codes, tokens, refreshes, requests, same) = record {
    data_rows = before.data_rows;
    files = ap (λ x. select (λ f. not (f.owner_id == id)) x.files) same ∙ before.files;
    grants = λ g. spared g ∙ before.grants g;
    users = ap (λ x. select (λ r. not (r.id == id)) x.users) same ∙ before.users;
    sessions = ap (λ x. select (λ r. not (r.user_id == id)) x.sessions) same ∙ before.sessions;
    consents = ap (λ x. select (λ r. not (r.user_id == id)) x.consents) same ∙ before.consents;
    reset_tokens =
        ap (λ x. select (λ r. not (r.user_id == id)) x.reset_tokens) same ∙ before.reset_tokens;
    identities =
        ap (λ x. select (λ r. not (r.user_id == id)) x.social_identities) same ∙ before.identities;
    blobs = before.blobs;
  }

  -- After the account itself.
  pub after_account :
      (w w3 : World) (log : List AuditRow)
      → Spares w w3
      → Spares w (with_log log (with_tables (delete_user_row id w3.tables) w3))
  unfolding delete_user_row
  after_account w w3 log before = record {
    data_rows = before.data_rows;
    files = select-delete (λ f. f.owner_id == id) w3.tables.files ∙ before.files;
    grants = λ g.
        ap (select (λ r. not (theirs r))) (rows-delete_user_row g id log w3.tables)
        ∙ before.grants g;
    users = select-delete (λ x. x.id == id) w3.tables.users ∙ before.users;
    sessions = select-delete (λ s. s.user_id == id) w3.tables.sessions ∙ before.sessions;
    consents = select-delete (λ s. s.user_id == id) w3.tables.consents ∙ before.consents;
    reset_tokens =
        select-delete (λ s. s.user_id == id) w3.tables.reset_tokens ∙ before.reset_tokens;
    identities =
        select-delete (λ s. s.user_id == id) w3.tables.social_identities ∙ before.identities;
    blobs = before.blobs;
  }

  pub IsGone-after :
      (w w3 : World) (log : List AuditRow)
      → All (IsErased env.restapi id w3.data_tables) (owned_collections env.registry)
      → ((key : Text) → is_key id (shelf w) key ≡ true → lookup key w3.blobs ≡ none)
      → ((g : Grants) → exists theirs (rows g w3.tables) ≡ false)
      → IsGone w (with_log log (with_tables (delete_user_row id w3.tables) w3))
  unfolding delete_user_row
  IsGone-after w w3 log erased bytes no_grants = record {
    data_rows = erased;
    files = exists-delete (λ f. f.owner_id == id) w3.tables.files;
    blobs = bytes;
    grants = λ g. ap (exists theirs) (rows-delete_user_row g id log w3.tables) ∙ no_grants g;
    account = exists-delete (λ x. x.id == id) w3.tables.users;
    sessions = exists-delete (λ s. s.user_id == id) w3.tables.sessions;
    reset_tokens = exists-delete (λ s. s.user_id == id) w3.tables.reset_tokens;
    identities = exists-delete (λ s. s.user_id == id) w3.tables.social_identities;
    consents = exists-delete (λ s. s.user_id == id) w3.tables.consents;
  }
