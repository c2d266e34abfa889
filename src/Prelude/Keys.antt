-- ===== src/Prelude/Keys.antt =====
-- A UNIQUE column: no two rows have its value in common.
use maubase.Prelude.Table.{delete, update, first, count, exists}
use maubase.Prelude.Rows.{
  exists-delete_keep, exists-update_keep, exists-append, exists-first, delete_none,
}
use maubase.Prelude.Tests.{if◌then◌else◌, Bool-cases}
use maubase.Prelude.Bytes.{Text, ◌==◌, eq→path, path→eq}
use Prim.Native.Nat.{◌+◌}
use mathlib.Core.Path.{◌≡◌, refl, ap, subst, sym, ◌∙◌}
use mathlib.Core.Logic.{inl, inr}
use mathlib.Core.Bool.{Bool, true, false}
use mathlib.Core.Option.{some}
use mathlib.Core.List.{List, [], ◌∷◌, ◌++◌}
use native.Mathlib.Omega.{arith}

pub eq_sym : (s t : Text) → (s == t) ≡ false → (t == s) ≡ false
eq_sym s t h = elim (Bool-cases (t == s)) [
  | inl e ↦ absurd (cc (h, path→eq s t (sym (eq→path t s e))))
  | inr e ↦ e
]

module _ {ℓ} {A : Type ℓ} (key : A → Text) where
  abbrev pub Unique : List A → Type 0
  Unique [] = Unit
  Unique (x ∷ xs) = (exists (λ y. key y == key x) xs ≡ false) × Unique xs

  pub Unique-append :
      (xs : List A) (a : A)
      → Unique xs
      → exists (λ y. key y == key a) xs ≡ false
      → Unique (xs ++ a ∷ [])
  unfolding exists
  Unique-append [] a u h = (refl, tt)
  Unique-append (x ∷ xs) a u h = (
    exists-append (λ y. key y == key x) (λ y. key y == key x) xs a u.0
        (eq_sym (key x) (key a) (ground arith)),
    Unique-append xs a u.1 (ground arith),
  )

  pub Unique-delete : (p : A → Bool) (xs : List A) → Unique xs → Unique (delete p xs)
  unfolding delete
  Unique-delete p [] u = tt
  Unique-delete p (x ∷ xs) u = elim (Bool-cases (p x)) [
    | inl e ↦ rw e (Unique-delete p xs u.1)
    | inr e ↦ rw e (exists-delete_keep p _ xs u.0, Unique-delete p xs u.1)
  ]

  -- An update that leaves the column alone.
  pub Unique-update :
      (p : A → Bool) (f : A → A) (xs : List A)
      → ((a : A) → key (f a) ≡ key a)
      → Unique xs
      → Unique (update p f xs)
  unfolding update
  Unique-update p f [] k u = tt
  Unique-update p f (x ∷ xs) k u = elim (Bool-cases (p x)) [
    | inl e ↦
        rw (e, k x)
          (
            exists-update_keep p (λ y. key y == key x) f xs
                  (λ a. ap (λ (t : Text). t == key x) (k a))
                ∙ u.0,
            Unique-update p f xs k u.1,
          )
    | inr e ↦ rw e (
      exists-update_keep p (λ y. key y == key x) f xs (λ a. ap (λ (t : Text). t == key x) (k a))
          ∙ u.0,
      Unique-update p f xs k u.1,
    )
  ]

  -- DELETE by the column removes at most the one row that a query by it finds.
  pub count-delete-first :
      (q : A → Bool) (k : Text) (xs : List A) (a : A)
      → Unique xs
      → first (λ y. key y == k) xs ≡ some a
      → count q xs ≡ count q (delete (λ y. key y == k) xs) + (if q a then 1 else 0)
  unfolding first count delete
  count-delete-first q k [] a u h = cc
  count-delete-first q k (x ∷ xs) a u h = elim (Bool-cases (key x == k)) [
    | inl e ↦
        let alone : exists (λ y. key y == k) xs ≡ false =
          subst (λ (t : Text). exists (λ y. key y == t) xs ≡ false) (eq→path (key x) k e) u.0 in
        ground (arith, e, delete_none (λ y. key y == k) xs alone)
    | inr e ↦ ground (arith, e, count-delete-first q k xs a u.1)
  ]

  -- A row that some query finds is found by its key too.
  pub first-key :
      (p : A → Bool) (xs : List A) (a : A)
      → Unique xs
      → first p xs ≡ some a
      → first (λ y. key y == key a) xs ≡ some a
  unfolding first
  first-key p [] a u h = absurd (cc)
  first-key p (x ∷ xs) a u h = elim (Bool-cases (p x)) [
    | inl e ↦
        let same : x ≡ a = ground arith in rw (path→eq (key x) (key a) (ap key same)) (ap some same)
    | inr e ↦
        let found : first p xs ≡ some a = ground arith in
        elim (Bool-cases (key x == key a)) [
          | inl k ↦ absurd (
              cc (
                u.0,
                subst (λ (t : Text). exists (λ y. key y == t) xs ≡ true)
                    (sym (eq→path (key x) (key a) k))
                    (exists-first (λ y. key y == key a) xs a (first-key p xs a u.1 found)),
              ))
          | inr k ↦ rw k (first-key p xs a u.1 found)
        ]
  ]
