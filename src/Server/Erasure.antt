-- ===== src/Server/Erasure.antt =====
-- Erasing an account, over every part of the state that holds something of it.
use maubase.Prelude.{Text, none, ◌≡◌, refl, sym, ap, ◌∙◌, subst, Unique}
use maubase.Sql.{Result, ok, err, failed, pure, ◌>>=◌, ◌>>◌}
use maubase.Sql.Ensures.{Ensures, Ensures-pure, Ensures-both, Ensures-exec}
use maubase.Schema.{Tables}
use maubase.Audit.{Actor, Target}
use maubase.Auth.{User, Error, delete_user, delete_user_row}
use maubase.Oauth.{Error as GrantError}
use maubase.Oauth.Provider.{revoke_all_for_subject}
use maubase.Oauth.Revocation.{
  OnlyGrants, Spared, RevokePost, revoke_for_subject-Ensures, revoke_for_subject-OnlyGrants,
}
use maubase.Storage
use maubase.Storage.{Shelf, Error as FileError}
use maubase.Storage.Bytes.{BytesPost, delete_owned-Emptied}
use maubase.Storage.Erasing.{ErasePost as FilePost, delete_owned-Ensures}
use maubase.RestApi.Owned
use maubase.RestApi.Discovery.{owned_collections}
use maubase.RestApi.Exposing.{AllExposed}
use maubase.RestApi.Erasing.{ErasePost as DataPost, delete_owned_lem}
use maubase.Server.World.{
  World, Env, Drawn, Reply, plain, shelf, with_shelf, with_tables, with_data, on_tables, on_data,
  on_shelf, or_internal, record_logged,
}
use maubase.Server.Calls.{Ensures-step, Ensures-logged, with_log}
use maubase.Server.Account.{handle_delete_account, logged_out}
use maubase.Server.Spares.{
  Spares, IsGone, theirs, after_files, after_grants, after_account, IsGone-after,
}

module _ (env : Env) (id : Text) where
  -- The answer is `done` where nothing of the account is left.
  abbrev pub ErasedPost : Reply → World → Result Reply Reply → World → Type 0
  ErasedPost done w (ok a) w' = (a ≡ done) × Spares env id w w' × IsGone env id w w'
  ErasedPost done w (err a) w' =
      (a ≡ plain 500)
      × Spares env id w w'
      × (w'.tables.users ≡ w.tables.users)
      × (w'.tables.sessions ≡ w.tables.sessions)
  ErasedPost done w failed w' = ⊥

  abbrev GrantPost : Tables → Result GrantError Unit → Tables → Type 0
  GrantPost t r t' = RevokePost (theirs env id) t r t' × OnlyGrants t t'

  abbrev AccountPost : Tables → Result Error Unit → Tables → Type 0
  AccountPost t (ok x) t' = t' ≡ delete_user_row id t
  AccountPost t (err e) t' = ⊥
  AccountPost t failed t' = t' ≡ t

  -- Stopped before the account is deleted.
  left :
      (done : Reply) (w w2 : World) (t : Tables)
      → Spares env id w w2
      → Spared (theirs env id) w2.tables t
      → OnlyGrants w2.tables t
      → w2.tables.users ≡ w.tables.users
      → w2.tables.sessions ≡ w.tables.sessions
      → ErasedPost done w (err (plain 500)) (with_tables t w2)
  left done w w2 t before spared (cs, tokens, refreshes, requests, same) us ss = (
    refl,
    after_grants env id w w2 t before spared (cs, tokens, refreshes, requests, same),
    ap (λ x. x.users) same ∙ us,
    ap (λ x. x.sessions) same ∙ ss,
  )

  abbrev ShelfPost : World → Result FileError Unit → Shelf → Type 0
  ShelfPost w r sh = FilePost id (shelf w) r sh × BytesPost id (shelf w) r sh

  -- What an account is erased by, and the order: its rows, its files, its grants, and then the
  -- account itself.
  pub cascade-Ensures :
      (d : Drawn) (w : World) (event : Text) (actor : Actor) (target : Target) (done : Reply)
      (upper : Text → Text)
      → AllExposed upper w.data_tables.tables env.registry
      → Unique (λ f. f.id) w.tables.files
      → Ensures (ErasedPost done w) w (do
        r1 ← on_data (Owned.delete_owned env.restapi env.registry id)
        or_internal r1
        r2 ← on_shelf (Storage.delete_owned id)
        or_internal r2
        r3 ← on_tables (revoke_all_for_subject env.json id)
        or_internal r3
        r4 ← on_tables (delete_user id)
        or_internal r4
        record_logged env d event actor target none
        pure done)
  unfolding delete_user
  cascade-Ensures d w event actor target done upper exposed distinct =
      Ensures-step Q w (λ x. x.data_tables) with_data _
        (DataPost env.restapi id (owned_collections env.registry) w.data_tables) _
        (delete_owned_lem env.restapi id upper w.data_tables env.registry exposed)
        (λ e s kept. (refl, after_files env id w s (shelf w) kept refl (λ key h. refl), refl, refl))
        (λ s kept. (refl, after_files env id w s (shelf w) kept refl (λ key h. refl), refl, refl))
        (λ x s (kept, erased).
          Ensures-step Q (with_data s w) shelf with_shelf _ (ShelfPost w) _
            (Ensures-both _ _ _ _ (delete_owned-Ensures id (shelf w) distinct)
              (delete_owned-Emptied id (shelf w)))
            (λ e sh h. absurd h.0)
            (λ sh (same, bytes). (refl, after_files env id w s sh kept same bytes, refl, refl))
            (λ y sh ((no_files, same), (empty, bytes)).
              let w2 = with_shelf sh (with_data s w) in
              Ensures-step Q w2 (λ x. x.tables) with_tables _ (GrantPost w2.tables) _
                (Ensures-both _ _ _ _ (revoke_for_subject-Ensures env.json id w2.tables)
                  (revoke_for_subject-OnlyGrants env.json id w2.tables))
                (λ e t h. absurd h.0)
                (λ t (spared, only).
                  left done w w2 t (after_files env id w s sh kept same bytes) spared only refl
                    refl)
                (λ z t ((no_grants, spared), only).
                  let before =
                    after_grants env id w w2 t (after_files env id w s sh kept same bytes) spared
                      only in
                  let w3 = with_tables t w2 in
                  Ensures-step Q w3 (λ x. x.tables) with_tables _ (AccountPost t) _
                    (Ensures-exec (AccountPost t) t _ refl refl) (λ e t' h. absurd h)
                    (λ t' h.
                      subst (λ x. Q (err (plain 500)) (with_tables x w3)) (sym h)
                        (left done w w2 t (after_files env id w s sh kept same bytes) spared only
                          refl refl))
                    (λ v t' h.
                      Ensures-logged env event actor target none Q (with_tables t' w3) d _ (λ log.
                        subst (λ x. Ensures Q (with_log log (with_tables x w3)) (pure done)) (sym h)
                          (Ensures-pure Q _ done (
                            refl,
                            after_account env id w w3 log before,
                            IsGone-after env id w w3 log erased empty no_grants,
                          )))))))
    where
      Q : Result Reply Reply → World → Type 0
      Q = ErasedPost done w

abbrev pub DeletePost : Env → User → World → Result Reply Reply → World → Type 0
DeletePost env user = ErasedPost env user.id logged_out

-- Erasing the account: where the answer is 204, none is left of the account's rows in the owned
-- collections, of its files, their rows and their bytes, of its grants, sessions, reset tokens,
-- social identities and consents, nor the account itself; every other answer is 500, and then the
-- account and its sessions are still there, so that it can be asked for again. Whichever statements
-- fail, all of these of everyone else are as before; provided that the collections are those that
-- the discovery finds and that file ids are distinct.
pub handle_delete_account-Ensures :
    (env : Env) (user : User) (upper : Text → Text) (d : Drawn) (w : World)
    → AllExposed upper w.data_tables.tables env.registry
    → Unique (λ f. f.id) w.tables.files
    → Ensures (DeletePost env user w) w (handle_delete_account env d user)
unfolding handle_delete_account
handle_delete_account-Ensures env user upper d w exposed distinct =
    cascade-Ensures env user.id d w _ _ _ logged_out upper exposed distinct
