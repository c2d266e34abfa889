-- ===== src/Oauth/Rotation.antt =====
-- A refresh token is redeemed at most once.
use maubase.Prelude.{
  ℕ, ◌≡◌, refl, ap, ◌∙◌, Text, ◌==◌, Bool, true, false, not, List, [], ◌∷◌, eqb, exists, count,
  update, update_none, exists-count,
}
use maubase.Sql.{Result, ok, err, failed, Db, exec_with}
use maubase.Sql.Ensures.{Ensures, Then, Ensures-bind, Ensures-exec_with, Ensures-test}
use maubase.Schema.{Tables}
use maubase.Oauth.{
  Error, inactive_token, Json, Requester, Grants, refresh_tokens, spend, is_rotated,
  rotate_refresh_token, invalidate_authorize_code, delete_access_token, delete_refresh_token,
  delete_pkce_request, revoke_refresh_token, revoke_access_token, set_client_assertion_jwt,
  create_session, revoke_for_subject, revoke_for_subject_and_client,
}

module _ (request_id signature : Text) (t : Tables) where
  abbrev redeemable : Bool
  redeemable = exists (is_rotated request_id signature) t.refresh_tokens

  abbrev rotated : Tables
  rotated = record t {
    refresh_tokens = update (is_rotated request_id signature) spend t.refresh_tokens;
  }

  abbrev pub RotatePost : Result Error Unit → Tables → Type 0
  RotatePost (ok x) t' = (redeemable ≡ true) × (t' ≡ rotated)
  RotatePost (err e) t' = (e ≡ inactive_token) × (redeemable ≡ false) × (t' ≡ t)
  RotatePost failed t' = t' ≡ t

  -- RotateRefreshToken succeeds exactly where the token's row is active, and then that row is not
  -- active any more; where no row is active it says so and changes nothing.
  pub rotate_refresh_token-Ensures :
      Ensures RotatePost t (rotate_refresh_token request_id signature)
  unfolding rotate_refresh_token
  rotate_refresh_token-Ensures = Ensures-bind RotatePost t (exec_with _ _) _ (
      Ensures-exec_with (Then RotatePost _) t _ _ refl (
        Ensures-test RotatePost rotated
          (not (eqb (count (is_rotated request_id signature) t.refresh_tokens) 0)) inactive_token
          (λ zero.
            let none_left =
              exists-count (is_rotated request_id signature) t.refresh_tokens ∙ zero in
            (
              refl,
              none_left,
              ap (λ xs. record t { refresh_tokens = xs })
                  (update_none (is_rotated request_id signature) spend t.refresh_tokens none_left),
            ))
          (λ some_left.
            (exists-count (is_rotated request_id signature) t.refresh_tokens ∙ some_left, refl))))

-- No active row has this signature and this request.
abbrev pub Spent : Text → Text → Tables → Type 0
Spent request_id signature t = exists (is_rotated request_id signature) t.refresh_tokens ≡ false

-- The calls of the storage that change the tables.
pub data Call : Type 0 where
  creates : Grants → Text → Requester → Call
  rotates : Text → Text → Call
  invalidates : Text → Call
  deletes_access deletes_refresh deletes_pkce : Text → Call
  revokes_refresh revokes_access : Text → Call
  revokes_subject : Text → Call
  revokes_client : Text → Text → Call
  sets_jti : ℕ → Text → ℕ → Call

-- The call does not create a refresh token of this signature.
abbrev pub Avoids : Text → Call → Type 0
Avoids signature (creates refresh_tokens s r) = (s == signature) ≡ false
Avoids signature call = Unit

module _ (j : Json) where
  unfoldable pub step : Call → Db Tables → Db Tables
  step (creates g signature r) db = (create_session j g signature r db).1
  step (rotates request_id signature) db = (rotate_refresh_token request_id signature db).1
  step (invalidates code) db = (invalidate_authorize_code code db).1
  step (deletes_access signature) db = (delete_access_token signature db).1
  step (deletes_refresh signature) db = (delete_refresh_token signature db).1
  step (deletes_pkce signature) db = (delete_pkce_request signature db).1
  step (revokes_refresh request_id) db = (revoke_refresh_token request_id db).1
  step (revokes_access request_id) db = (revoke_access_token request_id db).1
  step (revokes_subject subject) db = (revoke_for_subject j subject db).1
  step (revokes_client subject client_id) db =
      (revoke_for_subject_and_client j subject client_id db).1
  step (sets_jti now jti expires_at) db = (set_client_assertion_jwt now jti expires_at db).1

  unfoldable pub run : List Call → Db Tables → Db Tables
  run [] db = db
  run (call ∷ calls) db = run calls (step call db)
