-- ===== src/OwnerAuth/Team.antt =====
-- The accounts of the owner plane: there is always one that can manage the others.
use maubase.Prelude.{
  ℕ, ◌≤◌, ◌≡◌, ◌≢◌, refl, Text, ◌==◌, not, none, some, arith, leb, inl, inr, ◌⊎◌, first, count,
  eq→path, path→eq,
}
use maubase.Sql.{Result, ok, err, failed, Sql, query, guard, exec}
use maubase.Sql.Ensures.{
  Ensures, Closed, Then, Ensures-pure, Ensures-query, Ensures-bind, Ensures-or_raise, Ensures-exec,
  Ensures-transaction, Ensures-if, Ensures-test,
}
use maubase.Schema.{Tables, OwnerRow}
use maubase.OwnerAuth.Roles.{owner}
use maubase.OwnerAuth.{
  Error, owner_not_found, last_owner, Owner, to_owner, delete_owner_row, keep_last_owner,
  delete_owner_body, delete_owner,
}

abbrev pub owners : Tables → ℕ
owners t = count (λ o. o.role == owner) t.owner_users

-- What DELETE /admin/owners/{id} does, on every branch: `t` is before, `t'` after.
abbrev pub DeleteOwnerPost : Text → Tables → Result Error Owner → Tables → Type 0
DeleteOwnerPost id t (ok o) t' =
    (r : OwnerRow) × (first (λ x. x.id == id) t.owner_users ≡ some r)
    × (o ≡ to_owner r)
    × ((r.role ≢ owner) ⊎ (2 ≤ owners t))
    × (t' ≡ delete_owner_row id t)
DeleteOwnerPost id t (err e) t' =
    (t' ≡ t)
    × (((e ≡ owner_not_found) × (first (λ x. x.id == id) t.owner_users ≡ none))
        ⊎ ((r : OwnerRow) × (e ≡ last_owner)
            × (first (λ x. x.id == id) t.owner_users ≡ some r)
            × (r.role ≡ owner)
            × (owners t ≤ 1)))
DeleteOwnerPost id t failed t' = t' ≡ t

module _ {B : Type 0} (Q : Result Error B → Tables → Type 0) (t : Tables) (r : OwnerRow) where
  keep_last_owner_lem :
      (k : Unit → Sql Tables Error B)
      → Q failed t
      → (r.role ≡ owner → owners t ≤ 1 → Q (err last_owner) t)
      → ((r.role ≢ owner) ⊎ (2 ≤ owners t) → Ensures Q t (k tt))
      → Ensures (Then Q k) t (keep_last_owner r)
  unfolding keep_last_owner
  keep_last_owner_lem k x refused go =
      Ensures-if (Then Q k) t (r.role == owner) _ _
        (λ is_owner. Ensures-bind (Then Q k) t (query _) _ (
          Ensures-query (Then (Then Q k) (λ n. guard (not (leb n 1)) last_owner)) t _ x (
            Ensures-test (Then Q k) t (not (leb (owners t) 1)) last_owner
              (λ e. refused (eq→path r.role owner is_owner) (ground arith))
              (λ e. go (inr (ground arith))))))
        (λ other. Ensures-pure (Then Q k) t tt (go (inl (λ e. cc (other, path→eq r.role owner e)))))

module _ (id : Text) (t : Tables) where
  delete_owner_body-Ensures : Ensures (Closed (DeleteOwnerPost id t) t) t (delete_owner_body id)
  unfolding delete_owner_body
  delete_owner_body-Ensures = Ensures-bind Q t (query _) _ (
      Ensures-query (Then Q _) t _ refl (
        Ensures-or_raise Q t (first (λ x. x.id == id) t.owner_users) owner_not_found _
          (λ e. (refl, inl (refl, e)))
          (λ r e. Ensures-bind Q t (keep_last_owner r) _ (
            keep_last_owner_lem Q t r _ refl (λ role n. (refl, inr (r, refl, e, role, n)))
              (λ allowed. Ensures-bind Q t (exec (delete_owner_row id)) _ (
                Ensures-exec (Then Q _) t (delete_owner_row id) refl (
                  Ensures-pure Q (delete_owner_row id t) (to_owner r)
                    (refl, (r, e, refl, allowed, refl)))))))))
    where
      Q : Result Error Owner → Tables → Type 0
      Q = Closed (DeleteOwnerPost id t) t

  -- Whatever fails on the way, DeleteOwner deletes the account and its sessions in full or changes
  -- nothing, and it refuses exactly an unknown id and the last account with the role owner.
  pub delete_owner-Ensures : Ensures (DeleteOwnerPost id t) t (delete_owner id)
  unfolding delete_owner
  delete_owner-Ensures =
      Ensures-transaction (DeleteOwnerPost id t) t (delete_owner_body id) refl
        delete_owner_body-Ensures
