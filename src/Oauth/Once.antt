-- ===== src/Oauth/Once.antt =====
-- A refresh token is redeemed at most once, whatever comes in between.
use maubase.Prelude.{
  ℕ, ◌≡◌, ◌≢◌, refl, ap, ◌∙◌, subst, Text, ◌==◌, Bool, true, false, ◌&&◌, none, some, List, [], ◌∷◌,
  arith, if◌then◌else◌, All, exists-update_gone, exists-update_less, exists-delete_keep,
  exists-append,
}
use maubase.Sql.{ok, Db}
use maubase.Sql.Keeps.{
  Keeps, Keeps-exec, Keeps-exec_with, Keeps-bind, Keeps-guard, Keeps-pure, Keeps-exec_checked,
  Keeps-from_option,
}
use maubase.Schema.{Tables, GrantRow}
use maubase.Oauth.{
  Json, Requester, Grants, authorize_codes, access_tokens, refresh_tokens, pkce_requests, rows,
  set_rows, insert_row, delete_by, spend, is_rotated, rotate_refresh_token,
  invalidate_authorize_code, delete_access_token, delete_refresh_token, delete_pkce_request,
  revoke_refresh_token, revoke_access_token, insert_jti, set_client_assertion_jwt, create_session,
  oauth_grant_tables, revoke_where, revoke_for_subject, revoke_for_subject_and_client,
}
use maubase.Oauth.Rotation.{
  RotatePost, rotate_refresh_token-Ensures, Spent, Call, creates, rotates, invalidates,
  deletes_access, deletes_refresh, deletes_pkce, revokes_refresh, revokes_access, revokes_subject,
  revokes_client, sets_jti, Avoids, step, run,
}

module _ (request_id signature : Text) where
  abbrev P : Tables → Type 0
  P = Spent request_id signature

  -- A spent row never counts, whatever its signature and its request.
  not_active : (a : GrantRow) → is_rotated request_id signature (spend a) ≡ false
  not_active a = never (a.signature == signature) (a.request_id == request_id)
    where
      never : (b c : Bool) → (b && c && false) ≡ false
      never true true = refl
      never true false = refl
      never false c = refl

  delete_by-Spent : (g : Grants) (p : GrantRow → Bool) → Keeps P (delete_by g p)
  unfolding delete_by rows set_rows
  delete_by-Spent authorize_codes p = Keeps-exec _ (λ t h. h)
  delete_by-Spent access_tokens p = Keeps-exec _ (λ t h. h)
  delete_by-Spent refresh_tokens p =
      Keeps-exec _
        (λ t h. exists-delete_keep p (is_rotated request_id signature) t.refresh_tokens h)
  delete_by-Spent pkce_requests p = Keeps-exec _ (λ t h. h)

  rotate-Spent : (rid sig : Text) → Keeps P (rotate_refresh_token rid sig)
  unfolding rotate_refresh_token
  rotate-Spent rid sig =
      Keeps-bind _ _
        (Keeps-exec_with _ _ (λ t h.
          exists-update_less (is_rotated rid sig) (is_rotated request_id signature) spend
            t.refresh_tokens not_active h))
        (λ n. Keeps-guard _ _)

  insert_inv :
      {A : Type 0} (clash there : Bool) (x y : A)
      → (if clash then none else if there then some x else none) ≡ some y
      → y ≡ x
  insert_inv clash there x y h = ground arith

  -- The row that a call inserts, where the call avoids the signature.
  insert_row-Spent :
      (g : Grants) (sig : Text) (r : Requester) (row : GrantRow)
      → row.signature ≡ sig
      → Avoids signature (creates g sig r)
      → (t t' : Tables) → P t
      → insert_row g row t ≡ some t'
      → P t'
  unfolding insert_row rows set_rows
  insert_row-Spent authorize_codes sig r row named other t t' h e = rw (insert_inv _ _ _ t' e) h
  insert_row-Spent access_tokens sig r row named other t t' h e = rw (insert_inv _ _ _ t' e) h
  insert_row-Spent pkce_requests sig r row named other t t' h e = rw (insert_inv _ _ _ t' e) h
  insert_row-Spent refresh_tokens sig r row named other t t' h e = rw (insert_inv _ _ _ t' e) (
      exists-append (is_rotated request_id signature) (is_rotated request_id signature)
        t.refresh_tokens row h (rw (ap (λ x. x == signature) named ∙ other)))

  module _ (j : Json) where
    create_session-Spent :
        (g : Grants) (sig : Text) (r : Requester)
        → Avoids signature (creates g sig r)
        → Keeps P (create_session j g sig r)
    unfolding create_session
    create_session-Spent g sig r other = Keeps-bind _ _ (Keeps-from_option _) (λ request.
        Keeps-bind _ _ (Keeps-from_option _)
          (λ session. Keeps-exec_checked _ (insert_row-Spent g sig r _ refl other)))

    revoke_where-Spent : (p : GrantRow → Bool) (gs : List Grants) → Keeps P (revoke_where j p gs)
    unfolding revoke_where
    revoke_where-Spent p [] = Keeps-pure tt
    revoke_where-Spent p (g ∷ gs) =
        Keeps-bind _ _ (delete_by-Spent g p) (λ x. revoke_where-Spent p gs)

    set_jti-Spent :
        (now : ℕ) (jti : Text) (expires_at : ℕ)
        → Keeps P (set_client_assertion_jwt now jti expires_at)
    unfolding set_client_assertion_jwt insert_jti
    set_jti-Spent now jti expires_at =
        Keeps-bind _ _ (Keeps-exec _ (λ t h. h))
          (λ x. Keeps-exec_checked _ (λ t t' h e. ground (arith, h)))

    invalidate-Spent : (code : Text) → Keeps P (invalidate_authorize_code code)
    unfolding invalidate_authorize_code
    invalidate-Spent code = Keeps-exec _ (λ t h. h)

    step-Spent :
        (call : Call)
        → Avoids signature call
        → (db : Db Tables) → P db.tables
        → P (step j call db).tables
    unfolding step delete_access_token delete_refresh_token delete_pkce_request revoke_refresh_token
        revoke_access_token revoke_for_subject revoke_for_subject_and_client
    step-Spent (creates g sig r) other db = (create_session-Spent g sig r other).at db
    step-Spent (rotates rid sig) other db = (rotate-Spent rid sig).at db
    step-Spent (invalidates code) other db = (invalidate-Spent code).at db
    step-Spent (deletes_access sig) other db = (delete_by-Spent access_tokens _).at db
    step-Spent (deletes_refresh sig) other db = (delete_by-Spent refresh_tokens _).at db
    step-Spent (deletes_pkce sig) other db = (delete_by-Spent pkce_requests _).at db
    step-Spent (revokes_refresh rid) other db = (delete_by-Spent refresh_tokens _).at db
    step-Spent (revokes_access rid) other db = (delete_by-Spent access_tokens _).at db
    step-Spent (revokes_subject subject) other db = (revoke_where-Spent _ oauth_grant_tables).at db
    step-Spent (revokes_client subject client_id) other db =
        (revoke_where-Spent _ oauth_grant_tables).at db
    step-Spent (sets_jti now jti expires_at) other db = (set_jti-Spent now jti expires_at).at db

    run-Spent :
        (calls : List Call)
        → All (Avoids signature) calls
        → (db : Db Tables) → P db.tables
        → P (run j calls db).tables
    unfolding run
    run-Spent [] other db h = h
    run-Spent (call ∷ calls) other db h =
        run-Spent calls other.1 (step j call db) (step-Spent call other.0 db h)

    spent_now :
        (db : Db Tables)
        → (rotate_refresh_token request_id signature db).0 ≡ ok tt
        → P (rotate_refresh_token request_id signature db).1.tables
    spent_now db done =
        let (there, after) =
          subst
            (λ x.
              RotatePost request_id signature db.tables x
                (rotate_refresh_token request_id signature db).1.tables)
            done ((rotate_refresh_token-Ensures request_id signature db.tables).at db.faults) in
        rw after (
          exists-update_gone (is_rotated request_id signature) spend db.tables.refresh_tokens
            not_active)

    -- Of two redemptions of one refresh token for one request at most one succeeds, whatever calls
    -- of the storage come in between and whichever statements fail, provided that no new token is
    -- given the same signature.
    pub rotate_refresh_token-once :
        (db : Db Tables) (calls : List Call)
        → (rotate_refresh_token request_id signature db).0 ≡ ok tt
        → All (Avoids signature) calls
        → (rotate_refresh_token request_id signature
            (run j calls (rotate_refresh_token request_id signature db).1)).0
          ≢ ok tt
    rotate_refresh_token-once db calls done other again =
        let later = run j calls (rotate_refresh_token request_id signature db).1 in
        let (there, after) =
          subst
            (λ x.
              RotatePost request_id signature later.tables x
                (rotate_refresh_token request_id signature later).1.tables)
            again
            ((rotate_refresh_token-Ensures request_id signature later.tables).at later.faults) in
        cc (
          there,
          run-Spent calls other (rotate_refresh_token request_id signature db).1
              (spent_now db done),
        )
