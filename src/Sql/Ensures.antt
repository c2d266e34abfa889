-- ===== src/Sql/Ensures.antt =====
-- What a chain of statements ensures of its result and of the tables it leaves, from given tables
-- and whichever statements the driver fails: one rule for each way to build a chain.
use maubase.Prelude.{
  ◌≡◌, refl, inl, inr, Bool, true, false, Option, none, some, List, if◌then◌else◌, Bool-cases,
}
use maubase.Sql.{
  Result, ok, err, failed, Db, Sql, faulty, later, pure, raise, from_option, or_raise, query,
  exec_with, close_tx, transaction, guard, exec, checked, exec_checked, tried, exec_unique,
  attempted, exec_attempt, Ran, refused, ran, ended, exec_or, query_or, effect, continue, ◌>>=◌,
}

module _ {ℓ} {T E A : Type ℓ} where
  pub record Ensures (Q : Result E A → T → Type ℓ) (t : T) (m : Sql T E A) : Type ℓ where
    pub at :
        (bs : List Bool)
        → Q
            (m (record { tables = t; faults = bs })).0
            (m (record { tables = t; faults = bs })).1.tables

  -- After a transaction: a body that fails is rolled back, and so is one whose COMMIT fails.
  abbrev pub Closed : (Result E A → T → Type ℓ) → T → Result E A → T → Type ℓ
  Closed Q t (ok a) t' = Q failed t × Q (ok a) t'
  Closed Q t (err e) t' = Q (err e) t
  Closed Q t failed t' = Q failed t

  pub Ensures-weaken :
      (P Q : Result E A → T → Type ℓ) (t : T) (m : Sql T E A)
      → ((r : Result E A) (t' : T) → P r t' → Q r t')
      → Ensures P t m
      → Ensures Q t m
  Ensures-weaken P Q t m k h = record { at = λ bs. k _ _ (h.at bs) }

  pub Ensures-both :
      (P Q : Result E A → T → Type ℓ) (t : T) (m : Sql T E A)
      → Ensures P t m
      → Ensures Q t m
      → Ensures (λ r t'. P r t' × Q r t') t m
  Ensures-both P Q t m h k = record { at = λ bs. (h.at bs, k.at bs) }

module _ {ℓ} {T E A : Type ℓ} where
  pub from_option_ok :
      (o : Option A) (db : Db T) (a : A) → (from_option {E = E} o db).0 ≡ ok a → o ≡ some a
  unfolding from_option
  from_option_ok none db a h = absurd (cc h)
  from_option_ok (some x) db a h = cc

module _ {ℓ} {T E A : Type ℓ} (Q : Result E A → T → Type ℓ) (t : T) where
  pub Ensures-pure : (a : A) → Q (ok a) t → Ensures Q t (pure a)
  unfolding pure
  Ensures-pure a h = record { at = λ bs. h }

  pub Ensures-raise : (e : E) → Q (err e) t → Ensures Q t (raise e)
  unfolding raise
  Ensures-raise e h = record { at = λ bs. h }

  -- A value that ends a chain.
  pub Ensures-option :
      (o : Option A)
      → (o ≡ none → Q failed t)
      → ((a : A) → o ≡ some a → Q (ok a) t)
      → Ensures Q t (from_option o)
  unfolding from_option
  Ensures-option none x h = record { at = λ bs. x refl }
  Ensures-option (some a) x h = record { at = λ bs. h a refl }

  pub Ensures-found :
      (o : Option A) (e : E)
      → (o ≡ none → Q (err e) t)
      → ((a : A) → o ≡ some a → Q (ok a) t)
      → Ensures Q t (or_raise o e)
  unfolding or_raise
  Ensures-found none e x h = record { at = λ bs. x refl }
  Ensures-found (some a) e x h = record { at = λ bs. h a refl }

  pub Ensures-query : (f : T → A) → Q failed t → Q (ok (f t)) t → Ensures Q t (query f)
  unfolding query
  Ensures-query f x h = record {
    at = λ bs. elim (Bool-cases (faulty bs)) [ inl e ↦ rw e x | inr e ↦ rw e h ];
  }

  pub Ensures-exec_with :
      (g : T → A) (f : T → T) → Q failed t → Q (ok (g t)) (f t) → Ensures Q t (exec_with g f)
  unfolding exec_with
  Ensures-exec_with g f x h = record {
    at = λ bs. elim (Bool-cases (faulty bs)) [ inl e ↦ rw e x | inr e ↦ rw e h ];
  }

  close_tx_lem :
      (r : Result E A) (db : Db T)
      → Closed Q t r db.tables
      → Q (close_tx t r db).0 (close_tx t r db).1.tables
  unfolding close_tx
  close_tx_lem (ok a) db h = elim (Bool-cases (faulty db.faults)) [
    | inl e ↦ rw e h.0
    | inr e ↦ rw e h.1
  ]
  close_tx_lem (err e) db h = h
  close_tx_lem failed db h = h

  pub Ensures-transaction :
      (m : Sql T E A) → Q failed t → Ensures (Closed Q t) t m → Ensures Q t (transaction m)
  unfolding transaction
  Ensures-transaction m x h = record {
    at = λ bs. elim (Bool-cases (faulty bs)) [
      | inl e ↦ rw e x
      | inr e ↦ rw e (close_tx_lem _ _ (h.at (later bs)))
    ];
  }

  pub Ensures-if :
      (b : Bool) (m n : Sql T E A)
      → (b ≡ true → Ensures Q t m)
      → (b ≡ false → Ensures Q t n)
      → Ensures Q t (if b then m else n)
  Ensures-if true m n h k = h refl
  Ensures-if false m n h k = k refl

module _ {ℓ} {T E : Type ℓ} (Q : Result E Unit → T → Type ℓ) (t : T) where
  pub Ensures-exec : (f : T → T) → Q failed t → Q (ok tt) (f t) → Ensures Q t (exec f)
  unfolding exec
  Ensures-exec f x h = record {
    at = λ bs. elim (Bool-cases (faulty bs)) [ inl e ↦ rw e x | inr e ↦ rw e h ];
  }

  pub Ensures-test :
      (b : Bool) (e : E)
      → (b ≡ false → Q (err e) t)
      → (b ≡ true → Q (ok tt) t)
      → Ensures Q t (guard b e)
  unfolding guard
  Ensures-test true e x h = record { at = λ bs. h refl }
  Ensures-test false e x h = record { at = λ bs. x refl }

  checked_lem :
      (o : Option T) (bs : List Bool)
      → Q failed t
      → ((t' : T) → o ≡ some t' → Q (ok tt) t')
      → Q
          (checked {E = E} o (record { tables = t; faults = bs })).0
          (checked {E = E} o (record { tables = t; faults = bs })).1.tables
  unfolding checked
  checked_lem none bs x k = x
  checked_lem (some t') bs x k = k t' refl

  pub Ensures-exec_checked :
      (f : T → Option T)
      → Q failed t
      → ((t' : T) → f t ≡ some t' → Q (ok tt) t')
      → Ensures Q t (exec_checked f)
  unfolding exec_checked
  Ensures-exec_checked f x k = record {
    at = λ bs. elim (Bool-cases (faulty bs)) [
      | inl e ↦ rw e x
      | inr e ↦ rw e (checked_lem (f t) (later bs) x k)
    ];
  }

  tried_lem :
      (o : Option T) (e : E) (bs : List Bool)
      → (o ≡ none → Q (err e) t)
      → ((t' : T) → o ≡ some t' → Q (ok tt) t')
      → Q
          (tried o e (record { tables = t; faults = bs })).0
          (tried o e (record { tables = t; faults = bs })).1.tables
  unfolding tried
  tried_lem none e bs x k = x refl
  tried_lem (some t') e bs x k = k t' refl

  pub Ensures-exec_unique :
      (f : T → Option T) (e : E)
      → Q failed t
      → (f t ≡ none → Q (err e) t)
      → ((t' : T) → f t ≡ some t' → Q (ok tt) t')
      → Ensures Q t (exec_unique f e)
  unfolding exec_unique
  Ensures-exec_unique f e x y k = record {
    at = λ bs. elim (Bool-cases (faulty bs)) [
      | inl b ↦ rw b x
      | inr b ↦ rw b (tried_lem (f t) e (later bs) y k)
    ];
  }

module _ {T E : Type 0} (Q : Result E Bool → T → Type 0) (t : T) where
  attempted_lem :
      (o : Option T) (bs : List Bool)
      → (o ≡ none → Q (ok false) t)
      → ((t' : T) → o ≡ some t' → Q (ok true) t')
      → Q
          (attempted {E = E} o (record { tables = t; faults = bs })).0
          (attempted {E = E} o (record { tables = t; faults = bs })).1.tables
  unfolding attempted
  attempted_lem none bs x k = x refl
  attempted_lem (some t') bs x k = k t' refl

  pub Ensures-exec_attempt :
      (f : T → Option T)
      → Q failed t
      → (f t ≡ none → Q (ok false) t)
      → ((t' : T) → f t ≡ some t' → Q (ok true) t')
      → Ensures Q t (exec_attempt f)
  unfolding exec_attempt
  Ensures-exec_attempt f x y k = record {
    at = λ bs. elim (Bool-cases (faulty bs)) [
      | inl b ↦ rw b x
      | inr b ↦ rw b (attempted_lem (f t) (later bs) y k)
    ];
  }

module _ {ℓ} {T E A : Type ℓ} (Q : Result E A → T → Type ℓ) (t : T) where
  ended_lem :
      (o : Ran T E A) (bs : List Bool)
      → ((e : E) → o ≡ refused e → Q (err e) t)
      → ((a : A) (t' : T) → o ≡ ran a t' → Q (ok a) t')
      → Q
          (ended o (record { tables = t; faults = bs })).0
          (ended o (record { tables = t; faults = bs })).1.tables
  unfolding ended
  ended_lem (refused e) bs x k = x e refl
  ended_lem (ran a t') bs x k = k a t' refl

  pub Ensures-exec_or :
      (f : T → Ran T E A)
      → Q failed t
      → ((e : E) → f t ≡ refused e → Q (err e) t)
      → ((a : A) (t' : T) → f t ≡ ran a t' → Q (ok a) t')
      → Ensures Q t (exec_or f)
  unfolding exec_or
  Ensures-exec_or f x y k = record {
    at = λ bs. elim (Bool-cases (faulty bs)) [
      | inl b ↦ rw b x
      | inr b ↦ rw b (ended_lem (f t) (later bs) y k)
    ];
  }

  pub Ensures-query_or :
      (a : A) (f : T → A) → Q (ok a) t → Q (ok (f t)) t → Ensures Q t (query_or a f)
  unfolding query_or
  Ensures-query_or a f x h = record {
    at = λ bs. elim (Bool-cases (faulty bs)) [ inl e ↦ rw e x | inr e ↦ rw e h ];
  }

module _ {ℓ} {T E : Type ℓ} (Q : Result E Unit → T → Type ℓ) (t : T) where
  pub Ensures-effect : (f : T → T) → Q (ok tt) (f t) → Ensures Q t (effect f)
  unfolding effect
  Ensures-effect f h = record { at = λ bs. h }

module _ {ℓ} {T E A B : Type ℓ} (Q : Result E B → T → Type ℓ) where
  -- What the first part must ensure, for the rest of the chain to ensure `Q`.
  abbrev pub Then : (A → Sql T E B) → Result E A → T → Type ℓ
  Then k (ok a) t = Ensures Q t (k a)
  Then k (err e) t = Q (err e) t
  Then k failed t = Q failed t

  continue_lem :
      (r : Result E A) (k : A → Sql T E B) (db : Db T)
      → Then k r db.tables
      → Q (continue r k db).0 (continue r k db).1.tables
  unfolding continue
  continue_lem (ok a) k db h = h.at db.faults
  continue_lem (err e) k db h = h
  continue_lem failed k db h = h

  pub Ensures-bind :
      (t : T) (m : Sql T E A) (k : A → Sql T E B) → Ensures (Then k) t m → Ensures Q t (m >>= k)
  unfolding ◌>>=◌
  Ensures-bind t m k h = record {
    at = λ bs. continue_lem _ k (m (record { tables = t; faults = bs })).1 (h.at bs);
  }

  pub Ensures-or_raise :
      (t : T) (o : Option A) (e : E) (k : A → Sql T E B)
      → (o ≡ none → Q (err e) t)
      → ((a : A) → o ≡ some a → Ensures Q t (k a))
      → Ensures Q t (or_raise o e >>= k)
  unfolding ◌>>=◌
  Ensures-or_raise t none e k x h = record { at = λ bs. x refl }
  Ensures-or_raise t (some a) e k x h = h a refl

  pub Ensures-from_option :
      (t : T) (o : Option A) (k : A → Sql T E B)
      → Q failed t
      → ((a : A) → o ≡ some a → Ensures Q t (k a))
      → Ensures Q t (from_option o >>= k)
  unfolding ◌>>=◌
  Ensures-from_option t none k x h = record { at = λ bs. x }
  Ensures-from_option t (some a) k x h = h a refl

module _ {ℓ} {T E B : Type ℓ} (Q : Result E B → T → Type ℓ) where
  pub Ensures-guard :
      (t : T) (b : Bool) (e : E) (k : Unit → Sql T E B)
      → (b ≡ false → Q (err e) t)
      → (b ≡ true → Ensures Q t (k tt))
      → Ensures Q t (guard b e >>= k)
  unfolding ◌>>=◌
  Ensures-guard t true e k x h = h refl
  Ensures-guard t false e k x h = record { at = λ bs. x refl }
