-- ===== src/AdminUi/Entry.antt =====
-- Who gets past the middleware of the admin UI.
use maubase.Prelude.{Text, codes, ◌≡◌, refl, ◌⊎◌, inl, inr, Option, none, some}
use maubase.Sql.{Result, ok, err, failed, guard, ◌>>=◌, ◌>>◌}
use maubase.Sql.Ensures.{Ensures, Ensures-raise, Ensures-guard, Ensures-weaken}
use maubase.Schema.{Tables, OwnerRow}
use maubase.OwnerAuth.{Error, Owner, to_owner, validate_session}
use maubase.OwnerAuth.Roles.{Role, viewer, developer, admin, owner, at_least}
use maubase.Server.World.{Env, Drawn, World, with_tables, Reply, page, with_body, Handler, settle}
use maubase.Server.Calls.{Ensures-call}
use maubase.Server.Access.{IsEntitled, ValidPost, validate_session-Live}
use maubase.AdminUi.Pages.{see_other, require_role}
use maubase.AdminUi.Routes.{
  Ui, UiCall, dashboard, collections, browse, row_fragment, user_list, user_detail, add_row,
  edit_form, edit_fragment, change_row, remove_row, add_user, remove_user, sign_out_user, new_table,
  add_table, members, audit_log, maintenance, purge, add_member, remove_member, studio,
  run_statement, mount,
}

abbrev pub to_login : Reply
to_login = see_other (codes "/admin/ui/login")

abbrev pub forbidden : Reply
forbidden = with_body 403 (page (codes "forbidden"))

module _ (env : Env) (d : Drawn) (w : World) where
  -- What holds of a refusal, and of the handler for whoever is entitled, holds of the guarded one.
  pub require_role-Ensures :
      (Q : Result Reply Reply → World → Type 0) (min : Role) (cookie : Option Text)
      (next : Owner → Handler Reply)
      → Q (err to_login) w
      → Q (err forbidden) w
      → ((row : OwnerRow) → IsEntitled env d w cookie min → Ensures Q w (next (to_owner row)))
      → Ensures Q w (require_role env d min cookie next)
  unfolding require_role ◌>>=◌
  require_role-Ensures Q min none next x y h = Ensures-raise Q w to_login x
  require_role-Ensures Q min (some token) next x y h =
      Ensures-call Q w (λ v. v.tables) with_tables (validate_session env.crypto d.first.now token) _
        (Ensures-weaken (ValidPost env d w token) _ w.tables _ after
          (validate_session-Live env d w token))
    where
      after :
          (r : Result Error Owner) (t' : Tables)
          → ValidPost env d w token r t'
          → Ensures Q (with_tables t' w) (
              settle {A = Owner} (λ (e : Error). to_login) to_login r >>= λ o.
              guard (at_least o.role min) forbidden >> next o)
      after (ok o) t' (same, (row, live, is_row)) =
          rw (same, is_row)
            (Ensures-guard Q w (at_least row.role min) forbidden _ (λ e. y)
              (λ e. h row (token, row, refl, live, e)))
      after (err e) t' same = rw same (Ensures-raise Q w to_login x)
      after failed t' same = rw same (Ensures-raise Q w to_login x)

abbrev pub IsRefusal : Result Reply Reply → Type 0
IsRefusal r = (r ≡ err to_login) ⊎ (r ≡ err forbidden)

-- The role of the group that a route stands in.
abbrev pub required : UiCall → Role
required dashboard = viewer
required collections = viewer
required (browse name limit offset sort dir) = viewer
required (row_fragment name id) = viewer
required (user_list limit offset) = viewer
required (user_detail id) = viewer
required (add_row new_id name f) = developer
required (edit_form name id) = developer
required (edit_fragment name id) = developer
required (change_row htmx name id f) = developer
required (remove_row htmx name id) = developer
required (add_user limit offset f) = developer
required (remove_user id) = developer
required (sign_out_user id) = developer
required new_table = developer
required (add_table f) = developer
required members = admin
required (audit_log limit offset) = admin
required maintenance = admin
required purge = admin
required (add_member f) = owner
required (remove_member id) = owner
required studio = owner
required (run_statement f) = owner

module _ (env : Env) (ui : Ui) (d : Drawn) (w : World) (cookie : Option Text) where
  abbrev pub EntryPost : Role → Result Reply Reply → World → Type 0
  EntryPost min r w' = (IsRefusal r × (w' ≡ w)) ⊎ IsEntitled env d w cookie min

  guarded :
      (min : Role) (next : Owner → Handler Reply)
      → Ensures (EntryPost min) w (require_role env d min cookie next)
  guarded min next =
      require_role-Ensures env d w (EntryPost min) min cookie next (inl (inl refl, refl))
        (inl (inr refl, refl)) (λ row e. record { at = λ bs. inr e })

  -- Every call of a UiCall either redirects to the login page or answers 403, and changes
  -- nothing, or its caller's cookie is the token of a session that has not expired, of an account
  -- whose role is at least the one that the page asks for; whichever statements fail.
  pub mount-Ensures :
      (call : UiCall) → Ensures (EntryPost (required call)) w (mount env ui d cookie call)
  unfolding mount
  mount-Ensures dashboard = guarded viewer _
  mount-Ensures collections = guarded viewer _
  mount-Ensures (browse name limit offset sort dir) = guarded viewer _
  mount-Ensures (row_fragment name id) = guarded viewer _
  mount-Ensures (user_list limit offset) = guarded viewer _
  mount-Ensures (user_detail id) = guarded viewer _
  mount-Ensures (add_row new_id name f) = guarded developer _
  mount-Ensures (edit_form name id) = guarded developer _
  mount-Ensures (edit_fragment name id) = guarded developer _
  mount-Ensures (change_row htmx name id f) = guarded developer _
  mount-Ensures (remove_row htmx name id) = guarded developer _
  mount-Ensures (add_user limit offset f) = guarded developer _
  mount-Ensures (remove_user id) = guarded developer _
  mount-Ensures (sign_out_user id) = guarded developer _
  mount-Ensures new_table = guarded developer _
  mount-Ensures (add_table f) = guarded developer _
  mount-Ensures members = guarded admin _
  mount-Ensures (audit_log limit offset) = guarded admin _
  mount-Ensures maintenance = guarded admin _
  mount-Ensures purge = guarded admin _
  mount-Ensures (add_member f) = guarded owner _
  mount-Ensures (remove_member id) = guarded owner _
  mount-Ensures studio = guarded owner _
  mount-Ensures (run_statement f) = guarded owner _
