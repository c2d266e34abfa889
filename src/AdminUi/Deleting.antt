-- ===== src/AdminUi/Deleting.antt =====
-- Deleting a customer's account on their behalf: it erases what their own deletion erases.
use maubase.Prelude.{
  Text, codes, ◌==◌, ◌≡◌, refl, subst, ◌⊎◌, inl, inr, true, exists, exists-first, first, Unique,
}
use maubase.Sql.{Result, ok, err, failed, query}
use maubase.Sql.Ensures.{
  Ensures, Then, Ensures-bind, Ensures-query, Ensures-from_option, Ensures-pure, Ensures-weaken,
}
use maubase.Schema.{Tables}
use maubase.Auth.{User, Error, get_user, get_user_by_id}
use maubase.OwnerAuth.{Owner}
use maubase.RestApi.Exposing.{AllExposed}
use maubase.Server.World.{World, Env, Drawn, Reply, plain, with_tables}
use maubase.Server.Calls.{Ensures-call, Ensures-settle}
use maubase.Server.Erasure.{ErasedPost, cascade-Ensures}
use maubase.AdminUi.Pages.{see_other}
use maubase.AdminUi.Users.{handle_delete_user}

module _ (env : Env) (id : Text) where
  abbrev IsAccount : Tables → Type 0
  IsAccount t = exists (λ u. u.id == id) t.users ≡ true

  -- The account's row is looked at, and nothing changes.
  abbrev FoundPost : Tables → Result Error User → Tables → Type 0
  FoundPost t (ok u) t' = (t' ≡ t) × IsAccount t
  FoundPost t (err e) t' = t' ≡ t
  FoundPost t failed t' = t' ≡ t

  get_user-Found : (t : Tables) → Ensures (FoundPost t) t (get_user id)
  unfolding get_user_by_id
  get_user-Found t = Ensures-bind Q t (query _) _ (
      Ensures-query (Then Q _) t _ refl (
        Ensures-from_option Q t (first (λ x. x.id == id) t.users) _ refl (λ row found.
          Ensures-pure Q t _ (refl, exists-first (λ x. x.id == id) t.users row found))))
    where
      Q : Result Error User → Tables → Type 0
      Q = FoundPost t

  abbrev pub DeletedPost : World → Result Reply Reply → World → Type 0
  DeletedPost w r w' =
      ((r ≡ err (plain 404)) × (w' ≡ w))
      ⊎ (IsAccount w.tables × ErasedPost env id (see_other (codes "/admin/ui/users")) w r w')

  -- Deleting an account from the admin UI either answers 404 and changes nothing, or there is such
  -- an account; then either it redirects to the list, and none is left of the account's rows in the
  -- owned collections, of its files, their rows and their bytes, of its grants, sessions, reset
  -- tokens, social identities and consents, nor the account itself; or it answers 500 and the
  -- account and its sessions are still there. Whichever statements fail, all of these of everyone
  -- else are as before; provided that the collections are those that the discovery finds and that
  -- file ids are distinct.
  pub handle_delete_user-Ensures :
      (upper : Text → Text) (d : Drawn) (o : Owner) (w : World)
      → AllExposed upper w.data_tables.tables env.registry
      → Unique (λ f. f.id) w.tables.files
      → Ensures (DeletedPost w) w (handle_delete_user env d o id)
  unfolding handle_delete_user
  handle_delete_user-Ensures upper d o w exposed distinct =
      Ensures-call Q w (λ x. x.tables) with_tables (get_user id) _
        (Ensures-weaken (FoundPost w.tables) _ w.tables _
          (λ r t' p.
            Ensures-settle Q (with_tables t' w) _ _ r _
              (λ e is_err. inl (refl, unchanged t' (subst (λ s. FoundPost w.tables s t') is_err p)))
              (λ is_failed.
                inl (refl, unchanged t' (subst (λ s. FoundPost w.tables s t') is_failed p)))
              (λ u is_ok.
                let (same, is_account) = subst (λ s. FoundPost w.tables s t') is_ok p in
                rw same (
                  Ensures-weaken _ Q w _ (λ r w' p. inr (is_account, p))
                    (cascade-Ensures env id d w _ _ _ _ upper exposed distinct))))
          (get_user-Found w.tables))
    where
      Q : Result Reply Reply → World → Type 0
      Q = DeletedPost w

      unchanged : (t' : Tables) → t' ≡ w.tables → with_tables t' w ≡ w
      unchanged t' same = rw same refl
