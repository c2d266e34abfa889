-- ===== src/Prelude/Rows.antt =====
-- What the statements of `Table` leave in a table.
use maubase.Prelude.Table.{select, delete, update, first, count, exists}
use maubase.Prelude.Lists.{All, length}
use maubase.Prelude.Tests.{if◌then◌else◌, Bool-cases}
use Prim.Native.Nat.{◌+◌}
use mathlib.Core.Path.{◌≡◌, refl, subst}
use mathlib.Core.Logic.{inl, inr}
use mathlib.Core.Bool.{Bool, true, false}
use mathlib.Core.Option.{none, some}
use mathlib.Core.List.{List, [], ◌∷◌, ◌++◌}
use native.Mathlib.Omega.{arith}

module _ {ℓ} {A : Type ℓ} (p : A → Bool) where
  -- Every selected row meets the test.
  pub All-select : (xs : List A) → All (λ x. p x ≡ true) (select p xs)
  unfolding select
  All-select [] = tt
  All-select (x ∷ xs) = elim (Bool-cases (p x)) [
    | inl e ↦ rw e (e, All-select xs)
    | inr e ↦ rw e (All-select xs)
  ]

  -- No row that stays after DELETE meets the test.
  pub exists-delete : (xs : List A) → exists p (delete p xs) ≡ false
  unfolding delete exists
  exists-delete [] = refl
  exists-delete (x ∷ xs) = ground (arith, exists-delete xs)

  pub first-delete : (xs : List A) → first p (delete p xs) ≡ none
  unfolding delete first
  first-delete [] = refl
  first-delete (x ∷ xs) = ground (arith, first-delete xs)

  pub count-delete_self : (xs : List A) → count p (delete p xs) ≡ 0
  unfolding delete count
  count-delete_self [] = refl
  count-delete_self (x ∷ xs) = ground (arith, count-delete_self xs)

  pub first-some : (xs : List A) (a : A) → first p xs ≡ some a → p a ≡ true
  unfolding first
  first-some [] a h = cc
  first-some (x ∷ xs) a h = ground (arith, first-some xs a)

  pub first-append :
      (xs : List A) (a : A) → p a ≡ true → exists p xs ≡ false → first p (xs ++ a ∷ []) ≡ some a
  unfolding first exists
  first-append [] a h e = ground arith
  first-append (x ∷ xs) a h e = ground (arith, first-append xs a)

  pub first-append_miss : (xs : List A) (a : A) → p a ≡ false → first p (xs ++ a ∷ []) ≡ first p xs
  unfolding first
  first-append_miss [] a h = ground arith
  first-append_miss (x ∷ xs) a h = ground (arith, first-append_miss xs a)

  pub first-none : (xs : List A) → exists p xs ≡ false → first p xs ≡ none
  unfolding first exists
  first-none [] h = refl
  first-none (x ∷ xs) h = ground (arith, first-none xs)

  pub exists-first : (xs : List A) (a : A) → first p xs ≡ some a → exists p xs ≡ true
  unfolding first exists
  exists-first [] a h = cc
  exists-first (x ∷ xs) a h = ground (arith, exists-first xs a)

  pub delete_none : (xs : List A) → exists p xs ≡ false → delete p xs ≡ xs
  unfolding delete exists
  delete_none [] h = refl
  delete_none (x ∷ xs) h = ground (arith, delete_none xs)

  pub count-append :
      (xs : List A) (a : A) → count p (xs ++ a ∷ []) ≡ count p xs + (if p a then 1 else 0)
  unfolding count
  count-append [] a = ground arith
  count-append (x ∷ xs) a = ground (arith, count-append xs a)

  pub count-exists : (xs : List A) → exists p xs ≡ false → count p xs ≡ 0
  unfolding count exists
  count-exists [] h = refl
  count-exists (x ∷ xs) h = ground (arith, count-exists xs)

  -- DELETE leaves exactly the rows that fail the test: the count falls by the rows removed.
  pub length-delete : (xs : List A) → length (delete p xs) + count p xs ≡ length xs
  unfolding delete count
  length-delete [] = refl
  length-delete (x ∷ xs) = ground (arith, length-delete xs)

module _ {ℓ} {A : Type ℓ} (p q : A → Bool) where
  -- A row that another statement's test does not meet is still found after DELETE.
  pub first-delete_keep :
      (xs : List A) → ((a : A) → q a ≡ true → p a ≡ false) → first q (delete p xs) ≡ first q xs
  unfolding delete first
  first-delete_keep [] h = refl
  first-delete_keep (x ∷ xs) h = ground (arith, h x, first-delete_keep xs h)

  pub exists-delete_keep : (xs : List A) → exists q xs ≡ false → exists q (delete p xs) ≡ false
  unfolding delete exists
  exists-delete_keep [] h = refl
  exists-delete_keep (x ∷ xs) h = ground (arith, exists-delete_keep xs)

  pub exists-update_keep :
      (f : A → A) (xs : List A) → ((a : A) → q (f a) ≡ q a) → exists q (update p f xs) ≡ exists q xs
  unfolding update exists
  exists-update_keep f [] h = refl
  exists-update_keep f (x ∷ xs) h = ground (arith, h x, exists-update_keep f xs h)

  pub exists-append :
      (xs : List A) (a : A) → exists q xs ≡ false → q a ≡ false → exists q (xs ++ a ∷ []) ≡ false
  unfolding exists
  exists-append [] a h e = ground arith
  exists-append (x ∷ xs) a h e = ground (arith, exists-append xs a)

module _ {ℓ κ} {A : Type ℓ} (P : A → Type κ) where
  pub All-delete : (p : A → Bool) (xs : List A) → All P xs → All P (delete p xs)
  unfolding delete
  All-delete p [] h = tt
  All-delete p (x ∷ xs) h = elim (Bool-cases (p x)) [
    | inl e ↦ rw e (All-delete p xs h.1)
    | inr e ↦ rw e (h.0, All-delete p xs h.1)
  ]

  pub All-keep : (p : A → Bool) (xs : List A) → All P xs → All P (select p xs)
  unfolding select
  All-keep p [] h = tt
  All-keep p (x ∷ xs) h = elim (Bool-cases (p x)) [
    | inl e ↦ rw e (h.0, All-keep p xs h.1)
    | inr e ↦ rw e (All-keep p xs h.1)
  ]

  pub All-update :
      (p : A → Bool) (f : A → A) (xs : List A)
      → ((a : A) → P a → P (f a))
      → All P xs
      → All P (update p f xs)
  unfolding update
  All-update p f [] k h = tt
  All-update p f (x ∷ xs) k h = elim (Bool-cases (p x)) [
    | inl e ↦ rw e (k x h.0, All-update p f xs k h.1)
    | inr e ↦ rw e (h.0, All-update p f xs k h.1)
  ]

  pub All-first : (p : A → Bool) (xs : List A) (a : A) → All P xs → first p xs ≡ some a → P a
  unfolding first
  All-first p [] a h e = absurd (cc)
  All-first p (x ∷ xs) a h e = elim (Bool-cases (p x)) [
    | inl b ↦ subst P (ground arith) h.0
    | inr b ↦ All-first p xs a h.1 (ground arith)
  ]
