-- ===== src/AdminUi/Examples.antt =====
-- Runs of the admin UI on a small state, and the theorems on it.
use maubase.Prelude.{
  ◌≡◌, refl, codes, ◌==◌, true, false, none, some, [], ◌∷◌, lookup, first, exists, has_prefix,
}
use maubase.Sql.{ok, ◌>>=◌}
use maubase.Sql.Ensures.{Ensures}
use maubase.OwnerAuth.{Owner, joined, validate_session}
use maubase.OwnerAuth.Roles.{owner, at_least, rank}
use maubase.RestApi.Sqlite.{Json}
use maubase.RestApi.Examples.{upper, all_exposed}
use maubase.Server.World.{with_body, page, run_part}
use maubase.Server.Examples.{env, drawn, world}
use maubase.AdminUi.Pages.{require_role}
use maubase.AdminUi.Users.{handle_delete_user}
use maubase.AdminUi.Data.{form_to_body}
use maubase.AdminUi.Studio.{truncate_query, is_query}
use maubase.AdminUi.Routes.{Ui, remove_user, studio, mount}
use maubase.AdminUi.Entry.{EntryPost, mount-Ensures}
use maubase.AdminUi.Viewing.{ViewPost, mount-View}
use maubase.AdminUi.Deleting.{DeletedPost, handle_delete_user-Ensures}

abbrev ui : Ui
ui = record {
  le = λ c v w. true;
  studio = record { query = λ q t s. (none, t, s); exec = λ q t s. (some 0, t, s) };
  upper = upper;
}

abbrev boss : Owner
boss = record {
  id = codes "o1";
  email = codes "boss@x.io";
  role = owner;
  created_at = 1;
  updated_at = 1;
}

mount-Ensures_example :
    Ensures
      (EntryPost env ui drawn world (some (codes "boss-token")) owner)
      world
      (mount env ui drawn (some (codes "boss-token")) studio)
mount-Ensures_example = mount-Ensures env ui drawn world (some (codes "boss-token")) studio

mount-View_example :
    Ensures
      (ViewPost env ui drawn world (some (codes "boss-token")))
      world
      (mount env ui drawn (some (codes "boss-token")) (remove_user (codes "u1")))
mount-View_example =
    mount-View env ui drawn world (some (codes "boss-token")) (remove_user (codes "u1"))

handle_delete_user-Ensures_example :
    Ensures
      (DeletedPost env (codes "u1") world)
      world
      (handle_delete_user env drawn boss (codes "u1"))
unfolding exists
handle_delete_user-Ensures_example =
    handle_delete_user-Ensures env (codes "u1") upper drawn boss world all_exposed (refl, tt)

-- The owner opens SQL Studio.
opened :
    (mount env ui drawn
      (some (codes "boss-token"))
      studio
      (record { tables = world; faults = [] })).0
    ≡ ok (with_body 200 (page (codes "sql_studio")))
unfolding mount require_role run_part at_least rank ◌>>=◌ joined validate_session first ◌==◌
opened = refl

-- A box for NULL overrides the text of its column; a field of no column is left out.
a_form :
    form_to_body
      ((codes "a", codes "1")
        ∷ (codes "a__null", codes "on")
        ∷ (codes "b", [])
        ∷ (codes "z", [])
        ∷ [])
      (record { name = codes "a"; decl_type = []; not_null = false; is_pk = false }
        ∷ record { name = codes "b"; decl_type = []; not_null = false; is_pk = false }
        ∷ [])
    ≡ (codes "a", Json.null) ∷ (codes "b", Json.text []) ∷ []
unfolding form_to_body lookup ◌==◌
a_form = refl

is_query_upper : is_query (codes "WITH x AS (SELECT 1) DELETE FROM t") ≡ true
unfolding is_query has_prefix
is_query_upper = refl

truncated : truncate_query (codes "abc") 2 ≡ 97 ∷ 98 ∷ 226 ∷ 128 ∷ 166 ∷ []
unfolding truncate_query
truncated = refl
