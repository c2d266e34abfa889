-- ===== src/Auth/Linked.antt =====
-- What the foreign keys promise: no row of an account outlives it.
use maubase.Prelude.{
  ℕ, ◌≡◌, refl, ap, ◌∙◌, Text, ◌==◌, eq→path, Bool, true, false, none, some, List, [], ◌∷◌, ◌++◌,
  arith, if◌then◌else◌, All, All-map, All-append, All-delete, All-update, All-delete_rest, exists,
  delete, update, Unique, Unique-append, Unique-delete, Unique-update, exists-append_keep,
  exists-delete_other, exists-update_keep, if_none_inv,
}
use maubase.Sql.Keeps.{Keeps, Keeps-exec, Keeps-exec_with, keeps_rules}
use maubase.Schema.{
  Tables, UserRow, SessionRow, ResetTokenRow, SocialIdentityRow, ConsentRow, FileRow,
}
use maubase.Auth.{
  taken, insert_user, has_user, insert_session, insert_reset_token, insert_identity,
  delete_user_row, set_password, update_password, use_at, use_tokens, revoke_sessions,
}

abbrev pub Has : List UserRow → Text → Type 0
Has users id = exists (λ x. x.id == id) users ≡ true

-- Ids of accounts are distinct, and each row that refers to an account refers to one that is there.
pub record IsLinked (t : Tables) : Type 0 where
  pub distinct : Unique (λ x. x.id) t.users
  pub sessions : All (λ s. Has t.users s.user_id) t.sessions
  pub reset_tokens : All (λ s. Has t.users s.user_id) t.reset_tokens
  pub social_identities : All (λ s. Has t.users s.user_id) t.social_identities
  pub consents : All (λ s. Has t.users s.user_id) t.consents
  pub files : All (λ f. Has t.users f.owner_id) t.files

exists-taken :
    (r : UserRow) (xs : List UserRow)
    → exists (taken r) xs ≡ false
    → exists (λ x. x.id == r.id) xs ≡ false
unfolding exists
exists-taken r [] h = refl
exists-taken r (x ∷ xs) h = ground (arith, exists-taken r xs)

-- Tables whose accounts include the old ones, and whose other rows are as before.
more_users :
    (t : Tables) (users : List UserRow)
    → Unique (λ x. x.id) users
    → ((id : Text) → Has t.users id → Has users id)
    → IsLinked t
    → IsLinked (record t { users = users })
more_users t users distinct keep l = record {
  distinct = distinct;
  sessions = All-map _ _ (λ s. keep s.user_id) t.sessions l.sessions;
  reset_tokens = All-map _ _ (λ s. keep s.user_id) t.reset_tokens l.reset_tokens;
  social_identities = All-map _ _ (λ s. keep s.user_id) t.social_identities l.social_identities;
  consents = All-map _ _ (λ s. keep s.user_id) t.consents l.consents;
  files = All-map _ _ (λ f. keep f.owner_id) t.files l.files;
}

pub insert_user-IsLinked :
    (r : UserRow) (t t' : Tables) → IsLinked t → insert_user r t ≡ some t' → IsLinked t'
unfolding insert_user
insert_user-IsLinked r t t' l e =
    let (free, same) = if_none_inv (exists (taken r) t.users) _ t' e in
    rw same (
      more_users t (t.users ++ r ∷ [])
        (Unique-append (λ x. x.id) t.users r l.distinct (exists-taken r t.users free))
        (λ id. exists-append_keep (λ x. x.id == id) t.users r) l)

-- An INSERT of a row that refers to an account: refused where a row is in its way or the account is
-- not there.
insert_inv :
    {A : Type 0} (clash there : Bool) (x y : A)
    → (if clash then none else if there then some x else none) ≡ some y
    → (there ≡ true) × (y ≡ x)
insert_inv clash there x y h = ground arith

pub insert_session-IsLinked :
    (r : SessionRow) (t t' : Tables) → IsLinked t → insert_session r t ≡ some t' → IsLinked t'
unfolding insert_session
insert_session-IsLinked r t t' l e =
    let (there, same) = insert_inv _ (has_user r.user_id t) _ t' e in
    rw same (record {
      distinct = l.distinct;
      sessions = All-append (λ s. Has t.users s.user_id) t.sessions (r ∷ []) l.sessions (there, tt);
      reset_tokens = l.reset_tokens;
      social_identities = l.social_identities;
      consents = l.consents;
      files = l.files;
    })

pub insert_reset_token-IsLinked :
    (r : ResetTokenRow) (t t' : Tables)
    → IsLinked t
    → insert_reset_token r t ≡ some t'
    → IsLinked t'
unfolding insert_reset_token
insert_reset_token-IsLinked r t t' l e =
    let (there, same) = insert_inv _ (has_user r.user_id t) _ t' e in
    rw same (record {
      distinct = l.distinct;
      sessions = l.sessions;
      reset_tokens =
          All-append (λ s. Has t.users s.user_id) t.reset_tokens (r ∷ []) l.reset_tokens
            (there, tt);
      social_identities = l.social_identities;
      consents = l.consents;
      files = l.files;
    })

pub insert_identity-IsLinked :
    (r : SocialIdentityRow) (t t' : Tables)
    → IsLinked t
    → insert_identity r t ≡ some t'
    → IsLinked t'
unfolding insert_identity
insert_identity-IsLinked r t t' l e =
    let (there, same) = insert_inv _ (has_user r.user_id t) _ t' e in
    rw same (record {
      distinct = l.distinct;
      sessions = l.sessions;
      reset_tokens = l.reset_tokens;
      social_identities =
          All-append (λ s. Has t.users s.user_id) t.social_identities (r ∷ []) l.social_identities
            (there, tt);
      consents = l.consents;
      files = l.files;
    })

-- Rows of other accounts keep their account.
Has-delete :
    (id k : Text) (users : List UserRow)
    → Has users k
    → (k == id) ≡ false
    → Has (delete (λ x. x.id == id) users) k
Has-delete id k users h other =
    exists-delete_other (λ x. x.id == id) (λ x. x.id == k) users
      (λ a e. ap (λ z. z == id) (eq→path a.id k e) ∙ other) h

module _ {A : Type 0} (user_id : A → Text) (id : Text) (users : List UserRow) where
  cascade :
      (rows : List A)
      → All (λ s. Has users (user_id s)) rows
      → All
          (λ s. Has (delete (λ x. x.id == id) users) (user_id s))
          (delete (λ s. user_id s == id) rows)
  cascade rows h =
      All-map _ _ (λ s k. Has-delete id (user_id s) users k.0 k.1) _
        (All-delete_rest (λ s. Has users (user_id s)) (λ s. user_id s == id) rows h)

pub delete_user_row-IsLinked :
    (id : Text) (t : Tables) → IsLinked t → IsLinked (delete_user_row id t)
unfolding delete_user_row
delete_user_row-IsLinked id t l = record {
  distinct = Unique-delete (λ x. x.id) (λ x. x.id == id) t.users l.distinct;
  sessions = cascade (λ (s : SessionRow). s.user_id) id t.users t.sessions l.sessions;
  reset_tokens =
      cascade (λ (s : ResetTokenRow). s.user_id) id t.users t.reset_tokens l.reset_tokens;
  social_identities =
      cascade (λ (s : SocialIdentityRow). s.user_id) id t.users t.social_identities
        l.social_identities;
  consents = cascade (λ (s : ConsentRow). s.user_id) id t.users t.consents l.consents;
  files = cascade (λ (f : FileRow). f.owner_id) id t.users t.files l.files;
}

pub update_password-IsLinked :
    (now : ℕ) (hash id : Text) (t : Tables) → IsLinked t → IsLinked (update_password now hash id t)
unfolding update_password
update_password-IsLinked now hash id t l =
    more_users t (update (λ x. x.id == id) (set_password now hash) t.users)
      (Unique-update (λ x. x.id) (λ x. x.id == id) (set_password now hash) t.users (λ a. refl)
        l.distinct)
      (λ k h.
        exists-update_keep (λ x. x.id == id) (λ x. x.id == k) (set_password now hash) t.users
          (λ a. refl)
        ∙ h)
      l

-- Deleting sessions and deleting or changing reset tokens, whichever the condition.
pub fewer_sessions :
    (p : SessionRow → Bool) (t : Tables)
    → IsLinked t
    → IsLinked (record t { sessions = delete p t.sessions })
fewer_sessions p t l = record {
  distinct = l.distinct;
  sessions = All-delete (λ s. Has t.users s.user_id) p t.sessions l.sessions;
  reset_tokens = l.reset_tokens;
  social_identities = l.social_identities;
  consents = l.consents;
  files = l.files;
}

pub fewer_reset_tokens :
    (p : ResetTokenRow → Bool) (t : Tables)
    → IsLinked t
    → IsLinked (record t { reset_tokens = delete p t.reset_tokens })
fewer_reset_tokens p t l = record {
  distinct = l.distinct;
  sessions = l.sessions;
  reset_tokens = All-delete (λ s. Has t.users s.user_id) p t.reset_tokens l.reset_tokens;
  social_identities = l.social_identities;
  consents = l.consents;
  files = l.files;
}

pub use_tokens-IsLinked :
    (now : ℕ) (id : Text) (t : Tables) → IsLinked t → IsLinked (use_tokens now id t)
unfolding use_tokens
use_tokens-IsLinked now id t l = record {
  distinct = l.distinct;
  sessions = l.sessions;
  reset_tokens =
      All-update (λ s. Has t.users s.user_id) _ (use_at now) t.reset_tokens (λ a h. h)
        l.reset_tokens;
  social_identities = l.social_identities;
  consents = l.consents;
  files = l.files;
}

pub revoke_sessions-IsLinked :
    (id : Text) (t : Tables) → IsLinked t → IsLinked (revoke_sessions id t)
unfolding revoke_sessions
revoke_sessions-IsLinked id t l = fewer_sessions (λ s. s.user_id == id) t l

pub ruleset linked_rules = (
  keeps_rules, insert_user-IsLinked, insert_session-IsLinked, insert_reset_token-IsLinked,
  insert_identity-IsLinked, delete_user_row-IsLinked, update_password-IsLinked, fewer_sessions,
  fewer_reset_tokens, use_tokens-IsLinked, revoke_sessions-IsLinked,
)
