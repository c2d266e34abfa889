-- ===== src/OwnerAuth/Staffed.antt =====
-- Once an account with the role owner is there, no call of the service removes the last one.
use maubase.Prelude.{
  ℕ, ◌+◌, ◌≤◌, ◌≡◌, ◌≢◌, refl, Text, ◌==◌, false, some, List, [], ◌∷◌, arith, if◌then◌else◌,
  Bool-cases, inl, inr, ◌⊎◌, first, count, exists, delete, Unique, Unique-append, Unique-delete,
  count-append, count-delete-first, eq→path, if_none_inv,
}
use maubase.Sql.{Result, ok, err, failed, Db}
use maubase.Sql.Keeps.{Keeps, Keeps-exec, Keeps-exec_with, keeps_rules}
use maubase.OwnerAuth.Team.{owners, DeleteOwnerPost, delete_owner-Ensures}
use maubase.Schema.{Tables, OwnerRow, OwnerSessionRow}
use maubase.Email.{Unicode}
use maubase.Crypto.{Crypto, Fresh}
use maubase.OwnerAuth.Roles.{Role, owner}
use maubase.OwnerAuth.{
  Error, Owner, taken, insert_owner, insert_session, delete_owner_row, get_owner, delete_owner,
  purge_expired_sessions, create_session, logout, add_owner, create_owner, bootstrap, login,
}

-- Ids are distinct, and an account with the role owner is there.
pub record IsStaffed (t : Tables) : Type 0 where
  pub distinct : Unique (λ o. o.id) t.owner_users
  pub staffed : 1 ≤ owners t

delete_owner_row-IsStaffed :
    (id : Text) (t : Tables) (r : OwnerRow)
    → IsStaffed t
    → first (λ x. x.id == id) t.owner_users ≡ some r
    → ((r.role ≢ owner) ⊎ (2 ≤ owners t))
    → IsStaffed (delete_owner_row id t)
unfolding delete_owner_row
delete_owner_row-IsStaffed id t r s found allowed = record {
  distinct = Unique-delete (λ o. o.id) (λ o. o.id == id) t.owner_users s.distinct;
  staffed = elim allowed [
    | inl other ↦ elim (Bool-cases (r.role == owner)) [
      | inl e ↦ absurd (other (eq→path r.role owner e))
      | inr e ↦ ground (arith, s.staffed, removed, e)
    ]
    | inr two ↦ ground (arith, removed)
  ];
}
  where
    removed :
        owners t
        ≡ count (λ o. o.role == owner) (delete (λ o. o.id == id) t.owner_users)
          + (if r.role == owner then 1 else 0)
    removed =
        count-delete-first (λ o. o.id) (λ o. o.role == owner) id t.owner_users r s.distinct found

delete_owner-IsStaffed : (id : Text) → Keeps IsStaffed (delete_owner id)
delete_owner-IsStaffed id = record {
  at = λ db s.
      go db.tables _ (delete_owner id db).1.tables s
        ((delete_owner-Ensures id db.tables).at db.faults);
}
  where
    go :
        (t : Tables) (r : Result Error Owner) (t' : Tables)
        → IsStaffed t
        → DeleteOwnerPost id t r t'
        → IsStaffed t'
    go t (ok o) t' s (r, found, same, allowed, e) =
        rw e (delete_owner_row-IsStaffed id t r s found allowed)
    go t (err e) t' s h = rw h.0 s
    go t failed t' s h = rw h s

exists-taken :
    (r : OwnerRow) (xs : List OwnerRow)
    → exists (taken r) xs ≡ false
    → exists (λ o. o.id == r.id) xs ≡ false
unfolding exists
exists-taken r [] h = refl
exists-taken r (x ∷ xs) h = ground (arith, exists-taken r xs)

insert_owner-IsStaffed :
    (r : OwnerRow) (t t' : Tables) → IsStaffed t → insert_owner r t ≡ some t' → IsStaffed t'
unfolding insert_owner
insert_owner-IsStaffed r t t' s e =
    let (free, same) = if_none_inv (exists (taken r) t.owner_users) _ t' e in
    rw same (record {
      distinct =
          Unique-append (λ o. o.id) t.owner_users r s.distinct (exists-taken r t.owner_users free);
      staffed = ground (arith, s.staffed, count-append (λ o. o.role == owner) t.owner_users r);
    })

insert_session-IsStaffed :
    (r : OwnerSessionRow) (t t' : Tables)
    → IsStaffed t
    → insert_session r t ≡ some t'
    → IsStaffed t'
unfolding insert_session
insert_session-IsStaffed r t t' s e = ground (arith, s.distinct, s.staffed)

ruleset staffed_rules =
    (keeps_rules, insert_owner-IsStaffed, insert_session-IsStaffed, delete_owner-IsStaffed)

module _ (c : Crypto) (u : Unicode) where
  add_owner-IsStaffed :
      (f : Fresh) (email password : Text) (role : Role)
      → Keeps IsStaffed (add_owner c u f email password role)
  unfolding add_owner get_owner
  add_owner-IsStaffed f email password role = search staffed_rules depth 12

  create_owner-IsStaffed :
      (f : Fresh) (email password : Text) (role : Role)
      → Keeps IsStaffed (create_owner c u f email password role)
  unfolding create_owner
  create_owner-IsStaffed f email password role = search (staffed_rules, add_owner-IsStaffed)

  bootstrap-IsStaffed :
      (f : Fresh) (email password : Text) → Keeps IsStaffed (bootstrap c u f email password)
  unfolding bootstrap
  bootstrap-IsStaffed f email password = search (staffed_rules, add_owner-IsStaffed)

  login-IsStaffed :
      (f : Fresh) (email password : Text) → Keeps IsStaffed (login c u f email password)
  unfolding login create_session
  login-IsStaffed f email password = search staffed_rules depth 12

  logout-IsStaffed : (token : Text) → Keeps IsStaffed (logout c token)
  unfolding logout
  logout-IsStaffed token =
      Keeps-exec _ (λ t s. record { distinct = s.distinct; staffed = s.staffed })

  purge-IsStaffed : (now : ℕ) → Keeps IsStaffed (purge_expired_sessions now)
  unfolding purge_expired_sessions
  purge-IsStaffed now =
      Keeps-exec_with _ _ (λ t s. record { distinct = s.distinct; staffed = s.staffed })

-- The calls that change the accounts or the sessions.
pub data Call : Type 0 where
  bootstraps : Fresh → Text → Text → Call
  creates : Fresh → Text → Text → Role → Call
  deletes : Text → Call
  logs_in : Fresh → Text → Text → Call
  logs_out : Text → Call
  purges : ℕ → Call

module _ (c : Crypto) (u : Unicode) where
  -- One call; the caller sees its result, the next call the database that it leaves.
  pub step : Call → Db Tables → Db Tables
  step (bootstraps f email password) db = (bootstrap c u f email password db).1
  step (creates f email password role) db = (create_owner c u f email password role db).1
  step (deletes id) db = (delete_owner id db).1
  step (logs_in f email password) db = (login c u f email password db).1
  step (logs_out token) db = (logout c token db).1
  step (purges now) db = (purge_expired_sessions now db).1

  pub run : List Call → Db Tables → Db Tables
  run [] db = db
  run (call ∷ calls) db = run calls (step call db)

  step-IsStaffed :
      (call : Call) (db : Db Tables) → IsStaffed db.tables → IsStaffed (step call db).tables
  unfolding step
  step-IsStaffed (bootstraps f email password) db = (bootstrap-IsStaffed c u f email password).at db
  step-IsStaffed (creates f email password role) db =
      (create_owner-IsStaffed c u f email password role).at db
  step-IsStaffed (deletes id) db = (delete_owner-IsStaffed id).at db
  step-IsStaffed (logs_in f email password) db = (login-IsStaffed c u f email password).at db
  step-IsStaffed (logs_out token) db = (logout-IsStaffed c u token).at db
  step-IsStaffed (purges now) db = (purge-IsStaffed c u now).at db

  -- From a database with distinct ids and an account of the role owner, every sequence of calls,
  -- whichever statements fail, leaves distinct ids and an account of the role owner.
  pub run-IsStaffed :
      (calls : List Call) (db : Db Tables) → IsStaffed db.tables → IsStaffed (run calls db).tables
  unfolding run
  run-IsStaffed [] db s = s
  run-IsStaffed (call ∷ calls) db s = run-IsStaffed calls (step call db) (step-IsStaffed call db s)
