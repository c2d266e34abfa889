-- ===== src/Prelude/Changes.antt =====
-- How an UPDATE, a DELETE of other rows and an INSERT change what a query finds.
use mathlib.Core.Path.{◌∙◌, ◌≡◌, refl, ap}
use mathlib.Core.Logic.{inl, inr}
use mathlib.Core.Bool.{Bool, true, false, not}
use mathlib.Core.Option.{some}
use mathlib.Core.List.{List, [], ◌∷◌, ◌++◌}
use native.Mathlib.Omega.{arith}
use maubase.Prelude.Tests.{eqb, eq_of_some, if◌then◌else◌, Bool-cases}
use maubase.Prelude.Lists.{All}
use maubase.Prelude.Table.{select, delete, update, first, count, exists, insert_with, sort_with}

module _ {ℓ} {A : Type ℓ} where
  pub exists-append_keep :
      (q : A → Bool) (xs : List A) (a : A) → exists q xs ≡ true → exists q (xs ++ a ∷ []) ≡ true
  unfolding exists
  exists-append_keep q [] a h = cc
  exists-append_keep q (x ∷ xs) a h = ground (arith, exists-append_keep q xs a)

  -- Deleting other rows leaves a row that is there.
  pub exists-delete_other :
      (p q : A → Bool) (xs : List A)
      → ((a : A) → q a ≡ true → p a ≡ false)
      → exists q xs ≡ true
      → exists q (delete p xs) ≡ true
  unfolding delete exists
  exists-delete_other p q [] k h = h
  exists-delete_other p q (x ∷ xs) k h = elim (Bool-cases (q x)) [
    | inl e ↦ rw (k x e, e)
    | inr e ↦ ground (arith, e, exists-delete_other p q xs k)
  ]

  pub first-update :
      (p q : A → Bool) (f : A → A) (xs : List A) (a : A)
      → ((b : A) → q (f b) ≡ q b)
      → first q xs ≡ some a
      → first q (update p f xs) ≡ some (if p a then f a else a)
  unfolding first update
  first-update p q f [] a k h = absurd (cc)
  first-update p q f (x ∷ xs) a k h = elim (Bool-cases (q x)) [
    | inl e ↦
        let same : x ≡ a = eq_of_some x a (rw e at h) in
        rw (← same) (elim (Bool-cases (p x)) [ inl t ↦ rw (t, k x, e) | inr g ↦ rw (g, e) ])
    | inr e ↦
        let rest = first-update p q f xs a k (rw e at h) in
        elim (Bool-cases (p x)) [ inl t ↦ rw (t, k x, e) rest | inr g ↦ rw (g, e) rest ]
  ]

module _ {ℓ κ} {A : Type ℓ} where
  -- What is left after DELETE fails the condition.
  pub All-delete_rest :
      (P : A → Type κ) (p : A → Bool) (xs : List A)
      → All P xs
      → All (λ a. P a × (p a ≡ false)) (delete p xs)
  unfolding delete
  All-delete_rest P p [] h = tt
  All-delete_rest P p (x ∷ xs) h = elim (Bool-cases (p x)) [
    | inl e ↦ rw e (All-delete_rest P p xs h.1)
    | inr e ↦ rw e ((h.0, e), All-delete_rest P p xs h.1)
  ]

module _ {ℓ} {A : Type ℓ} where
  pub All-delete_fails : (p : A → Bool) (xs : List A) → All (λ a. p a ≡ false) (delete p xs)
  unfolding delete
  All-delete_fails p [] = tt
  All-delete_fails p (x ∷ xs) = elim (Bool-cases (p x)) [
    | inl e ↦ rw e (All-delete_fails p xs)
    | inr e ↦ rw e (e, All-delete_fails p xs)
  ]

module _ {ℓ} {A : Type ℓ} where
  -- Rows that an UPDATE takes out of a condition, and rows that never meet it.
  pub exists-update_gone :
      (p : A → Bool) (f : A → A) (xs : List A)
      → ((a : A) → p (f a) ≡ false)
      → exists p (update p f xs) ≡ false
  unfolding exists update
  exists-update_gone p f [] k = refl
  exists-update_gone p f (x ∷ xs) k = elim (Bool-cases (p x)) [
    | inl e ↦ rw (e, k x) (exists-update_gone p f xs k)
    | inr e ↦ rw (e, e) (exists-update_gone p f xs k)
  ]

  pub exists-update_less :
      (p q : A → Bool) (f : A → A) (xs : List A)
      → ((a : A) → q (f a) ≡ false)
      → exists q xs ≡ false
      → exists q (update p f xs) ≡ false
  unfolding exists update
  exists-update_less p q f [] k h = refl
  exists-update_less p q f (x ∷ xs) k h = elim (Bool-cases (p x)) [
    | inl e ↦ rw (e, k x) (exists-update_less p q f xs k (ground arith))
    | inr e ↦ ground (arith, e, exists-update_less p q f xs k)
  ]

  pub exists-update_all :
      (q : A → Bool) (f : A → A) (xs : List A)
      → ((a : A) → q (f a) ≡ false)
      → exists q (update (λ a. true) f xs) ≡ false
  unfolding exists update
  exists-update_all q f [] k = refl
  exists-update_all q f (x ∷ xs) k = rw (k x) (exists-update_all q f xs k)

  pub update_none :
      (p : A → Bool) (f : A → A) (xs : List A) → exists p xs ≡ false → update p f xs ≡ xs
  unfolding exists update
  update_none p f [] h = refl
  update_none p f (x ∷ xs) h = elim (Bool-cases (p x)) [
    | inl e ↦ absurd (cc (rw e at h))
    | inr e ↦ rw e (ap (λ ys. x ∷ ys) (update_none p f xs (rw e at h)))
  ]

  pub exists-count : (p : A → Bool) (xs : List A) → exists p xs ≡ not (eqb (count p xs) 0)
  unfolding exists count
  exists-count p [] = refl
  exists-count p (x ∷ xs) = elim (Bool-cases (p x)) [
    | inl e ↦ rw e (ground arith)
    | inr e ↦ rw e (exists-count p xs)
  ]

  -- What a DELETE does not select stays.
  pub select-delete :
      (p : A → Bool) (xs : List A)
      → select (λ a. not (p a)) (delete p xs) ≡ select (λ a. not (p a)) xs
  unfolding select delete
  select-delete p [] = refl
  select-delete p (x ∷ xs) = elim (Bool-cases (p x)) [
    | inl e ↦ rw e (select-delete p xs)
    | inr e ↦ rw (e, e) (ap (λ ys. x ∷ ys) (select-delete p xs))
  ]

module _ {ℓ} {A : Type ℓ} where
  pub exists-append_last :
      (q : A → Bool) (xs : List A) (a : A) → q a ≡ true → exists q (xs ++ a ∷ []) ≡ true
  unfolding exists
  exists-append_last q [] a h = rw h
  exists-append_last q (x ∷ xs) a h = ground (arith, exists-append_last q xs a h)

-- Sorting and selecting, as a query over them sees it.
module _ {ℓ} {A : Type ℓ} where
  exists-insert_with :
      (le : A → A → Bool) (q : A → Bool) (x : A) (ys : List A)
      → exists q (insert_with le x ys) ≡ (if q x then true else exists q ys)
  unfolding exists insert_with
  exists-insert_with le q x [] = refl
  exists-insert_with le q x (y ∷ ys) = elim (Bool-cases (le x y)) [
    | inl e ↦ rw e
    | inr e ↦ rw (e, exists-insert_with le q x ys) (swap (q x) (q y) (exists q ys))
  ]
    where
      swap :
          (a b c : Bool)
          → (if b then true else if a then true else c)
            ≡ (if a then true else if b then true else c)
      swap true true c = refl
      swap true false c = refl
      swap false true c = refl
      swap false false c = refl

  pub exists-sort_with :
      (le : A → A → Bool) (q : A → Bool) (xs : List A) → exists q (sort_with le xs) ≡ exists q xs
  unfolding exists sort_with
  exists-sort_with le q [] = refl
  exists-sort_with le q (x ∷ xs) =
      exists-insert_with le q x (sort_with le xs)
      ∙ ap (λ b. if q x then true else b) (exists-sort_with le q xs)

module _ {ℓ κ} {A : Type ℓ} (P : A → Type κ) where
  All-insert_with :
      (le : A → A → Bool) (x : A) (ys : List A) → P x → All P ys → All P (insert_with le x ys)
  unfolding insert_with
  All-insert_with le x [] h k = (h, tt)
  All-insert_with le x (y ∷ ys) h k = elim (Bool-cases (le x y)) [
    | inl e ↦ rw e (h, k)
    | inr e ↦ rw e (k.0, All-insert_with le x ys h k.1)
  ]

  pub All-sort_with : (le : A → A → Bool) (xs : List A) → All P xs → All P (sort_with le xs)
  unfolding sort_with
  All-sort_with le [] h = tt
  All-sort_with le (x ∷ xs) h = All-insert_with le x (sort_with le xs) h.0 (All-sort_with le xs h.1)

module _ {ℓ} {A : Type ℓ} where
  pub All-exists : (q : A → Bool) (xs : List A) → exists q xs ≡ false → All (λ a. q a ≡ false) xs
  unfolding exists
  All-exists q [] h = tt
  All-exists q (x ∷ xs) h = elim (Bool-cases (q x)) [
    | inl e ↦ absurd (cc (rw e at h))
    | inr e ↦ (e, All-exists q xs (rw e at h))
  ]

module _ {ℓ κ μ} {A : Type ℓ} (P : A → Type κ) (Q : A → Type μ) where
  pub All-both : (xs : List A) → All P xs → All Q xs → All (λ a. P a × Q a) xs
  All-both [] h k = tt
  All-both (x ∷ xs) h k = ((h.0, k.0), All-both xs h.1 k.1)
