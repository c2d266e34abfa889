-- ===== src/Oauth/Consent.antt =====
-- internal/oauth/handlers.go and clients.go: what a user consents to for a client. A consent's
-- scopes are a list, for the JSON array in its column. The order in which Go ranges over a map of
-- scopes is open; here it is that of their first occurrences, and the theorems read such lists as
-- sets.
use maubase.Prelude.{
  Text, codes, ◌==◌, Bool, true, false, not, ◌&&◌, Option, none, some, List, [], ◌∷◌, ◌++◌, select,
  delete, first, exists, if◌then◌else◌,
}
use maubase.Sql.{Result, ok, err, failed, Db, Sql, pure, or_raise, query, exec_checked, ◌>>=◌, ◌>>◌}
use maubase.Schema.{Tables, ConsentRow}
use maubase.Oauth.{Error, not_found}

abbrev pub allowed_scopes : List Text
allowed_scopes =
    codes "profile"
    ∷ codes "records:read"
    ∷ codes "records:write"
    ∷ codes "files:read"
    ∷ codes "files:write"
    ∷ codes "offline_access"
    ∷ []

unfoldable pub has : Text → List Text → Bool
has s = exists (λ x. x == s)

unfoldable pub is_allowed_scope : Text → Bool
unfolding has
is_allowed_scope s = has s allowed_scopes

unfoldable pub scopes_not_in : List Text → List Text → List Text
unfolding has
scopes_not_in have exclude = select (λ s. not (has s exclude)) have

unfoldable pub granted_scopes : List Text → List Text → List Text
unfolding has is_allowed_scope
granted_scopes ticked requested = select (λ s. is_allowed_scope s && has s requested) ticked

unfoldable pub scope_set_contains_all : List Text → List Text → Bool
unfolding has
scope_set_contains_all have [] = true
scope_set_contains_all have (w ∷ want) =
    if has w have then scope_set_contains_all have want else false

-- The keys of a map that is filled from the list.
unfoldable pub deduped : List Text → List Text
deduped [] = []
deduped (s ∷ scopes) = s ∷ delete (λ x. x == s) (deduped scopes)

abbrev pub is_consent : Text → Text → ConsentRow → Bool
is_consent user_id client_id r = (r.user_id == user_id) && (r.client_id == client_id)

abbrev pub scopes_of : Option ConsentRow → Option (List Text)
scopes_of none = none
scopes_of (some r) = some r.scopes

unfoldable pub get_consent : Text → Text → Sql Tables Error (List Text)
get_consent user_id client_id = do
  found ← query (λ t. scopes_of (first (is_consent user_id client_id) t.consents))
  or_raise found not_found

-- INSERT ... ON CONFLICT (user_id, client_id) DO UPDATE
unfoldable pub upsert : ConsentRow → List ConsentRow → List ConsentRow
upsert r [] = r ∷ []
upsert r (x ∷ rows) =
    let rest = upsert r rows in
    if is_consent r.user_id r.client_id x then record x { scopes = r.scopes } ∷ rows else x ∷ rest

-- Both keys refer to rows of other tables.
unfoldable pub put_consent : ConsentRow → Tables → Option Tables
unfolding upsert
put_consent r t =
    if exists (λ u. u.id == r.user_id) t.users && exists (λ c. c.id == r.client_id) t.clients
    then some (record t { consents = upsert r t.consents })
    else none

unfoldable pub save_consent : Text → Text → List Text → Sql Tables Error Unit
unfolding deduped put_consent
save_consent user_id client_id scopes =
    exec_checked
      (put_consent (record { user_id = user_id; client_id = client_id; scopes = deduped scopes }))

-- existing, _ := s.getConsent(...)
abbrev pub or_empty : Result Error (List Text) → List Text
or_empty (ok scopes) = scopes
or_empty (err e) = []
or_empty failed = []

-- The consent step of the form once the user allows: it stores the consent and answers the scopes
-- granted to this request.
unfoldable pub persist :
    Text → Text → List Text → List Text → List Text → List Text → Sql Tables Error (List Text)
unfolding save_consent granted_scopes scopes_not_in
persist user_id client_id requested ticked keep existing = do
  let granted = granted_scopes ticked requested
  let kept = granted_scopes keep (scopes_not_in existing requested)
  save_consent user_id client_id (granted ++ kept)
  pure granted

unfoldable pub allow :
    Text → Text → List Text → List Text → List Text → Sql Tables Error (List Text)
unfolding get_consent persist
allow user_id client_id requested ticked keep db =
    let (existing, db') = get_consent user_id client_id db in
    persist user_id client_id requested ticked keep (or_empty existing) db'

-- What follows once the user is known: the redirect, or the consent screen with the scopes
-- requested and those granted before.
pub data Next : Type 0 where
  finish : List Text → Next
  ask : List Text → List Text → Next

abbrev next : List Text → Result Error (List Text) → Next
next requested (ok existing) =
    if scope_set_contains_all existing requested
    then finish requested
    else ask requested (scopes_not_in existing requested)
next requested (err e) = ask requested (scopes_not_in [] requested)
next requested failed = ask requested (scopes_not_in [] requested)

unfoldable pub continue_authorize : Text → Text → List Text → Db Tables → Next × Db Tables
unfolding get_consent scope_set_contains_all scopes_not_in
continue_authorize user_id client_id requested db =
    let (existing, db') = get_consent user_id client_id db in (next requested existing, db')
