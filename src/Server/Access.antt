-- ===== src/Server/Access.antt =====
-- Who gets past the middleware of the owner plane.
use maubase.Prelude.{ℕ, Text, ◌≡◌, refl, ◌⊎◌, inl, inr, true, Option, none, some, leb}
use maubase.Sql.{Result, ok, err, failed, query, guard, ◌>>=◌, ◌>>◌}
use maubase.Sql.Ensures.{
  Ensures, Then, Ensures-raise, Ensures-bind, Ensures-query, Ensures-or_raise, Ensures-guard,
  Ensures-pure, Ensures-weaken,
}
use maubase.Schema.{Tables, OwnerRow}
use maubase.OwnerAuth.{Error, Owner, joined, to_owner, session_not_found, validate_session}
use maubase.OwnerAuth.Roles.{Role, viewer, admin, owner, at_least}
use maubase.Server.World.{Env, Drawn, World, with_tables, Reply, plain, Handler, settle}
use maubase.Server.Calls.{Ensures-call}
use maubase.Server.Owners.{
  AdminCall, me, list_all, purge_sessions, create, remove, audit_log, require_owner_role, route,
}

module _ (env : Env) (d : Drawn) (w : World) where
  -- The token's session has not expired and belongs to the account.
  abbrev pub IsLive : Text → OwnerRow → Type 0
  IsLive token row =
      (expires_at : ℕ) × (joined (env.crypto.hash_token token) w.tables ≡ some (row, expires_at))
      × (leb d.first.now expires_at ≡ true)

  abbrev pub ValidPost : Text → Result Error Owner → Tables → Type 0
  ValidPost token (ok o) t' =
      (t' ≡ w.tables) × ((row : OwnerRow) × IsLive token row × (o ≡ to_owner row))
  ValidPost token (err e) t' = t' ≡ w.tables
  ValidPost token failed t' = t' ≡ w.tables

  pub validate_session-Live :
      (token : Text)
      → Ensures (ValidPost token) w.tables (validate_session env.crypto d.first.now token)
  unfolding validate_session
  validate_session-Live token = Ensures-bind Q w.tables (query _) _ (
      Ensures-query (Then Q _) w.tables _ refl (
        Ensures-or_raise Q w.tables (joined (env.crypto.hash_token token) w.tables)
          session_not_found _ (λ e. refl)
          (λ (row, expires_at) found.
            Ensures-guard Q w.tables (leb d.first.now expires_at) session_not_found _ (λ e. refl)
              (λ live. Ensures-pure Q w.tables _ (refl, (row, (expires_at, found, live), refl))))))
    where
      Q : Result Error Owner → Tables → Type 0
      Q = ValidPost token

  -- The cookie is a token whose session is of an account with at least the role.
  abbrev pub IsEntitled : Option Text → Role → Type 0
  IsEntitled cookie min =
      (token : Text) × (row : OwnerRow) × (cookie ≡ some token)
      × IsLive token row
      × (at_least row.role min ≡ true)

  abbrev pub IsRefusal : Result Reply Reply → Type 0
  IsRefusal (ok a) = ⊥
  IsRefusal (err a) = (a ≡ plain 401) ⊎ (a ≡ plain 403)
  IsRefusal failed = ⊥

  abbrev pub AccessPost : Option Text → Role → Result Reply Reply → World → Type 0
  AccessPost cookie min r w' = (IsRefusal r × (w' ≡ w)) ⊎ IsEntitled cookie min

  -- What holds of a refusal, and of the handler for whoever is entitled, holds of the guarded one.
  require_owner_role-Ensures :
      (Q : Result Reply Reply → World → Type 0) (min : Role) (cookie : Option Text)
      (next : Owner → Handler Reply)
      → Q (err (plain 401)) w
      → Q (err (plain 403)) w
      → ((row : OwnerRow) → IsEntitled cookie min → Ensures Q w (next (to_owner row)))
      → Ensures Q w (require_owner_role env d min cookie next)
  unfolding require_owner_role ◌>>=◌
  require_owner_role-Ensures Q min none next x y h = Ensures-raise Q w (plain 401) x
  require_owner_role-Ensures Q min (some token) next x y h =
      Ensures-call Q w (λ v. v.tables) with_tables (validate_session env.crypto d.first.now token) _
        (Ensures-weaken (ValidPost token) _ w.tables _ after (validate_session-Live token))
    where
      after :
          (r : Result Error Owner) (t' : Tables)
          → ValidPost token r t'
          → Ensures Q (with_tables t' w) (
              settle {A = Owner} (λ (e : Error). plain 401) (plain 401) r >>= λ o.
              guard (at_least o.role min) (plain 403) >> next o)
      after (ok o) t' (same, (row, live, is_row)) =
          rw (same, is_row)
            (Ensures-guard Q w (at_least row.role min) (plain 403) _ (λ e. y)
              (λ e. h row (token, row, refl, live, e)))
      after (err e) t' same = rw same (Ensures-raise Q w (plain 401) x)
      after failed t' same = rw same (Ensures-raise Q w (plain 401) x)

module _ (env : Env) (d : Drawn) (w : World) (cookie : Option Text) where
  entitled :
      (min : Role) (m : Handler Reply)
      → IsEntitled env d w cookie min
      → Ensures (AccessPost env d w cookie min) w m
  entitled min m e = record { at = λ bs. inr e }

  guarded :
      (min : Role) (next : Owner → Handler Reply)
      → Ensures (AccessPost env d w cookie min) w (require_owner_role env d min cookie next)
  guarded min next =
      require_owner_role-Ensures env d w (AccessPost env d w cookie min) min cookie next
        (inl (inl refl, refl)) (inl (inr refl, refl))
        (λ row e. entitled min (next (to_owner row)) e)

  -- A route in a group asks for the group's role first, and then for its own.
  nested :
      (next : Owner → Handler Reply)
      → Ensures
          (AccessPost env d w cookie owner)
          w
          (require_owner_role env d admin cookie (λ o. require_owner_role env d owner cookie next))
  nested next =
      require_owner_role-Ensures env d w (AccessPost env d w cookie owner) admin cookie _
        (inl (inl refl, refl)) (inl (inr refl, refl)) (λ row e. guarded owner next)

-- The role that each route asks for.
abbrev pub required : AdminCall → Role
required me = viewer
required list_all = admin
required (create req) = owner
required (remove id) = owner
required (audit_log limit offset) = admin
required purge_sessions = admin

-- Every route of the owner plane, signing in and signing out apart, either answers 401 or 403 and
-- changes nothing, or its caller's cookie is the token of a session that has not expired, of an
-- account whose role is at least the one that the route asks for; whichever statements fail.
pub route-Ensures :
    (env : Env) (d : Drawn) (w : World) (cookie : Option Text) (call : AdminCall)
    → Ensures (AccessPost env d w cookie (required call)) w (route env d cookie call)
unfolding route
route-Ensures env d w cookie me = guarded env d w cookie viewer _
route-Ensures env d w cookie list_all = guarded env d w cookie admin _
route-Ensures env d w cookie (create req) = nested env d w cookie _
route-Ensures env d w cookie (remove id) = nested env d w cookie _
route-Ensures env d w cookie (audit_log limit offset) = guarded env d w cookie admin _
route-Ensures env d w cookie purge_sessions = guarded env d w cookie admin _
