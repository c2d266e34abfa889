-- ===== src/Prelude/Maps.antt =====
-- Go maps with string keys as association lists, one entry to a key. Where the code ranges over a
-- map, nothing modelled depends on the order.
use maubase.Prelude.Tests.{if◌then◌else◌, Bool-cases, eq_of_some}
use maubase.Prelude.Bytes.{Text, ◌==◌, eq_iff, eq→path}
use maubase.Prelude.Table.{delete, exists}
use maubase.Prelude.Rows.{exists-delete, exists-delete_keep, All-delete}
use maubase.Prelude.Lists.{All}
use maubase.Prelude.Keys.{Unique, Unique-delete}
use mathlib.Core.Path.{◌≡◌, refl, subst, ap₂}
use mathlib.Core.Logic.{inl, inr}
use mathlib.Core.Bool.{Bool, false}
use mathlib.Core.Option.{Option, none, some}
use mathlib.Core.List.{List, [], ◌∷◌}
use native.Mathlib.Omega.{arith}

abbrev pub Assoc {ℓ} : Type ℓ → Type ℓ
Assoc V = List (Text × V)

module _ {ℓ} {V : Type ℓ} where
  unfoldable pub lookup : Text → Assoc V → Option V
  lookup k [] = none
  lookup k ((j, v) ∷ m) = let rest = lookup k m in if j == k then some v else rest

  -- delete(m, k)
  abbrev pub remove : Text → Assoc V → Assoc V
  remove k = delete (λ e. e.0 == k)

  -- m[k] = v
  abbrev pub put : Text → V → Assoc V → Assoc V
  put k v m = (k, v) ∷ remove k m

  -- A loop that deletes the entries whose value meets the test.
  abbrev pub drop_values : (V → Bool) → Assoc V → Assoc V
  drop_values p = delete (λ e. p e.1)

  abbrev pub keep_value : (V → Bool) → Option V → Option V
  keep_value p none = none
  keep_value p (some v) = if p v then none else some v

  abbrev pub IsMap : Assoc V → Type 0
  IsMap = Unique (λ e. e.0)

  pub lookup-remove :
      (k j : Text) (m : Assoc V) → lookup j (remove k m) ≡ (if k == j then none else lookup j m)
  unfolding lookup delete
  lookup-remove k j [] = ground arith
  lookup-remove k j ((i, v) ∷ m) =
      ground (arith, lookup-remove k j m, eq_iff i k, eq_iff i j, eq_iff k j)

  pub lookup-put :
      (k j : Text) (v : V) (m : Assoc V)
      → lookup j (put k v m) ≡ (if k == j then some v else lookup j m)
  unfolding lookup
  lookup-put k j v m = rw (lookup-remove k j m) (ground arith)

  lookup-none : (k : Text) (m : Assoc V) → exists (λ e. e.0 == k) m ≡ false → lookup k m ≡ none
  unfolding lookup exists
  lookup-none k [] h = refl
  lookup-none k ((j, v) ∷ m) h = ground (arith, lookup-none k m)

  pub lookup-drop_values :
      (p : V → Bool) (k : Text) (m : Assoc V)
      → IsMap m
      → lookup k (drop_values p m) ≡ keep_value p (lookup k m)
  unfolding lookup delete
  lookup-drop_values p k [] u = refl
  lookup-drop_values p k ((j, v) ∷ m) u = elim (Bool-cases (j == k)) [
    | inl e ↦
        let alone : lookup k (drop_values p m) ≡ none = lookup-none k (drop_values p m) (
          exists-delete_keep (λ e. p e.1) (λ e. e.0 == k) m
            (subst (λ (t : Text). exists (λ y. y.0 == t) m ≡ false) (eq→path j k e) u.0)) in
        ground (arith, e, alone)
    | inr e ↦ ground (arith, e, lookup-drop_values p k m u.1)
  ]

  pub put-IsMap : (k : Text) (v : V) (m : Assoc V) → IsMap m → IsMap (put k v m)
  put-IsMap k v m u =
      (exists-delete (λ e. e.0 == k) m, Unique-delete (λ e. e.0) (λ e. e.0 == k) m u)

  pub remove-IsMap : (k : Text) (m : Assoc V) → IsMap m → IsMap (remove k m)
  remove-IsMap k = Unique-delete (λ e. e.0) (λ e. e.0 == k)

  pub drop_values-IsMap : (p : V → Bool) (m : Assoc V) → IsMap m → IsMap (drop_values p m)
  drop_values-IsMap p = Unique-delete (λ e. e.0) (λ e. p e.1)

module _ {ℓ κ} {V : Type ℓ} (P : V → Type κ) where
  -- A predicate of all values holds of the one that a key finds, and of what is put.
  pub All-lookup : (k : Text) (m : Assoc V) (v : V) → All (λ e. P e.1) m → lookup k m ≡ some v → P v
  unfolding lookup
  All-lookup k [] v h e = absurd (cc)
  All-lookup k ((j, w) ∷ m) v h e = elim (Bool-cases (j == k)) [
    | inl t ↦ subst P (eq_of_some w v (rw t at e)) h.0
    | inr f ↦ All-lookup k m v h.1 (rw f at e)
  ]

  pub All-remove : (k : Text) (m : Assoc V) → All (λ e. P e.1) m → All (λ e. P e.1) (remove k m)
  All-remove k = All-delete (λ e. P e.1) (λ e. e.0 == k)

  pub All-put :
      (k : Text) (v : V) (m : Assoc V) → P v → All (λ e. P e.1) m → All (λ e. P e.1) (put k v m)
  All-put k v m p h = (p, All-remove k m h)

module _ {ℓ κ} {V : Type ℓ} (P : Text × V → Type κ) where
  -- The same of a predicate of keys and values.
  pub All-lookup_entry : (k : Text) (m : Assoc V) (v : V) → All P m → lookup k m ≡ some v → P (k, v)
  unfolding lookup
  All-lookup_entry k [] v h e = absurd (cc)
  All-lookup_entry k ((j, w) ∷ m) v h e = elim (Bool-cases (j == k)) [
    | inl t ↦
        let same : ◌≡◌ {A = Text × V} (j, w) (k, v) =
          ap₂ (λ x y. (x, y)) (eq→path j k t) (eq_of_some w v (rw t at e)) in
        subst P same h.0
    | inr f ↦ All-lookup_entry k m v h.1 (rw f at e)
  ]

  pub All-put_entry : (k : Text) (v : V) (m : Assoc V) → P (k, v) → All P m → All P (put k v m)
  All-put_entry k v m p h = (p, All-delete P (λ e. e.0 == k) m h)
