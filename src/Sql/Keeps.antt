-- ===== src/Sql/Keeps.antt =====
-- Invariants of the tables: one rule for each way to build a chain of statements. They hold
-- whichever statements the driver fails.
use maubase.Prelude.{
  ◌≡◌, refl, Bool, true, false, Option, none, some, if◌then◌else◌, Bool-cases, inl, inr,
}
use maubase.Sql.{
  Result, ok, err, failed, Db, Sql, faulty, later, pure, raise, fail, from_option, or_raise, query,
  exec_with, close_tx, transaction, guard, exec, checked, exec_checked, tried, exec_unique,
  attempted, exec_attempt, continue, ◌>>=◌,
}

pub record Keeps {ℓ} {T E A : Type ℓ} (P : T → Type ℓ) (m : Sql T E A) : Type ℓ where
  pub at : (db : Db T) → P db.tables → P (m db).1.tables

module _ {ℓ} {T E A : Type ℓ} (P : T → Type ℓ) where
  close_tx-Keeps :
      (before : T) (r : Result E A) (db : Db T)
      → P before
      → P db.tables
      → P (close_tx before r db).1.tables
  unfolding close_tx
  close_tx-Keeps before (ok a) db hb h = elim (Bool-cases (faulty db.faults)) [
    | inl e ↦ rw e hb
    | inr e ↦ rw e h
  ]
  close_tx-Keeps before (err e) db hb h = hb
  close_tx-Keeps before failed db hb h = hb

module _ {ℓ} {T : Type ℓ} (E : Type ℓ) (P : T → Type ℓ) where
  checked-Keeps :
      (o : Option T) (db : Db T)
      → ((t : T) → o ≡ some t → P t)
      → P db.tables
      → P (checked {E = E} o db).1.tables
  unfolding checked
  checked-Keeps none db k h = h
  checked-Keeps (some t) db k h = k t refl

module _ {ℓ} {T E : Type ℓ} (P : T → Type ℓ) where
  tried-Keeps :
      (o : Option T) (e : E) (db : Db T)
      → ((t : T) → o ≡ some t → P t)
      → P db.tables
      → P (tried o e db).1.tables
  unfolding tried
  tried-Keeps none e db k h = h
  tried-Keeps (some t) e db k h = k t refl

module _ {ℓ} {T E A B : Type ℓ} (P : T → Type ℓ) where
  continue-Keeps :
      (r : Result E A) (f : A → Sql T E B) (db : Db T)
      → ((a : A) → Keeps P (f a))
      → P db.tables
      → P (continue r f db).1.tables
  unfolding continue
  continue-Keeps (ok a) f db k h = (k a).at db h
  continue-Keeps (err e) f db k h = h
  continue-Keeps failed f db k h = h

module _ {ℓ} {T E A : Type ℓ} {P : T → Type ℓ} where
  pub Keeps-pure : (a : A) → Keeps {E = E} P (pure a)
  unfolding pure
  Keeps-pure a = record { at = λ db h. h }

  pub Keeps-raise : (e : E) → Keeps {A = A} P (raise e)
  unfolding raise
  Keeps-raise e = record { at = λ db h. h }

  pub Keeps-fail : Keeps {E = E} {A = A} P fail
  unfolding fail
  Keeps-fail = record { at = λ db h. h }

  pub Keeps-from_option : (o : Option A) → Keeps {E = E} P (from_option o)
  unfolding from_option
  Keeps-from_option none = record { at = λ db h. h }
  Keeps-from_option (some a) = record { at = λ db h. h }

  pub Keeps-or_raise : (o : Option A) (e : E) → Keeps P (or_raise o e)
  unfolding or_raise
  Keeps-or_raise none e = record { at = λ db h. h }
  Keeps-or_raise (some a) e = record { at = λ db h. h }

  pub Keeps-query : (f : T → A) → Keeps {E = E} P (query f)
  unfolding query
  Keeps-query f = record {
    at = λ db h. elim (Bool-cases (faulty db.faults)) [ inl e ↦ rw e h | inr e ↦ rw e h ];
  }

  pub Keeps-exec_with :
      (g : T → A) (f : T → T) → ((t : T) → P t → P (f t)) → Keeps {E = E} P (exec_with g f)
  unfolding exec_with
  Keeps-exec_with g f k = record {
    at = λ db h. elim (Bool-cases (faulty db.faults)) [
      | inl e ↦ rw e h
      | inr e ↦ rw e (k db.tables h)
    ];
  }

  pub Keeps-transaction : (m : Sql T E A) → Keeps P m → Keeps P (transaction m)
  unfolding transaction
  Keeps-transaction m k = record {
    at = λ db h. elim (Bool-cases (faulty db.faults)) [
      | inl e ↦ rw e h
      | inr e ↦
          rw e (close_tx-Keeps P db.tables _ _ h (k.at (record db { faults = later db.faults }) h))
    ];
  }

  -- Which branch is taken may be used in the branch.
  pub Keeps-if :
      (test : Bool) (m n : Sql T E A)
      → (test ≡ true → Keeps P m)
      → (test ≡ false → Keeps P n)
      → Keeps P (if test then m else n)
  Keeps-if true m n on_true on_false = on_true refl
  Keeps-if false m n on_true on_false = on_false refl

module _ {ℓ} {T E : Type ℓ} {P : T → Type ℓ} where
  pub Keeps-guard : (b : Bool) (e : E) → Keeps P (guard b e)
  unfolding guard
  Keeps-guard true e = record { at = λ db h. h }
  Keeps-guard false e = record { at = λ db h. h }

  pub Keeps-exec : (f : T → T) → ((t : T) → P t → P (f t)) → Keeps {E = E} P (exec f)
  unfolding exec
  Keeps-exec f k = record {
    at = λ db h. elim (Bool-cases (faulty db.faults)) [
      | inl e ↦ rw e h
      | inr e ↦ rw e (k db.tables h)
    ];
  }

  pub Keeps-exec_checked :
      (f : T → Option T)
      → ((t t' : T) → P t → f t ≡ some t' → P t')
      → Keeps {E = E} P (exec_checked f)
  unfolding exec_checked
  Keeps-exec_checked f k = record {
    at = λ db h. elim (Bool-cases (faulty db.faults)) [
      | inl e ↦ rw e h
      | inr e ↦ rw e (checked-Keeps E P (f db.tables) _ (λ t p. k db.tables t h p) h)
    ];
  }

  pub Keeps-exec_unique :
      (f : T → Option T) (e : E)
      → ((t t' : T) → P t → f t ≡ some t' → P t')
      → Keeps P (exec_unique f e)
  unfolding exec_unique
  Keeps-exec_unique f e k = record {
    at = λ db h. elim (Bool-cases (faulty db.faults)) [
      | inl b ↦ rw b h
      | inr b ↦ rw b (tried-Keeps P (f db.tables) e _ (λ t p. k db.tables t h p) h)
    ];
  }

module _ {T : Type 0} (E : Type 0) (P : T → Type 0) where
  attempted-Keeps :
      (o : Option T) (db : Db T)
      → ((t : T) → o ≡ some t → P t)
      → P db.tables
      → P (attempted {E = E} o db).1.tables
  unfolding attempted
  attempted-Keeps none db k h = h
  attempted-Keeps (some t) db k h = k t refl

module _ {T E : Type 0} {P : T → Type 0} where
  pub Keeps-exec_attempt :
      (f : T → Option T)
      → ((t t' : T) → P t → f t ≡ some t' → P t')
      → Keeps {E = E} P (exec_attempt f)
  unfolding exec_attempt
  Keeps-exec_attempt f k = record {
    at = λ db h. elim (Bool-cases (faulty db.faults)) [
      | inl e ↦ rw e h
      | inr e ↦ rw e (attempted-Keeps E P (f db.tables) _ (λ t p. k db.tables t h p) h)
    ];
  }

module _ {ℓ} {T E A B : Type ℓ} {P : T → Type ℓ} where
  pub Keeps-bind :
      (m : Sql T E A) (f : A → Sql T E B)
      → Keeps P m
      → ((a : A) → Keeps P (f a))
      → Keeps P (m >>= f)
  unfolding ◌>>=◌
  Keeps-bind m f km kf = record {
    at = λ db h. continue-Keeps P (m db).0 f (m db).1 kf (km.at db h);
  }

pub ruleset keeps_rules = (
  Keeps-pure, Keeps-raise, Keeps-fail, Keeps-from_option, Keeps-or_raise, Keeps-query, Keeps-guard,
  Keeps-if, Keeps-bind, Keeps-transaction, Keeps-exec, Keeps-exec_with, Keeps-exec_checked,
  Keeps-exec_unique, Keeps-exec_attempt,
)
