-- ===== src/Sql/Agrees.antt =====
-- Chains that only read: run on two databases with the same failures to come, they answer the same
-- and leave both as they were, where each query does.
use maubase.Prelude.{
  ◌≡◌, refl, sym, ap, ◌∙◌, inl, inr, Bool, true, false, Option, none, some, List, Bool-cases,
}
use maubase.Sql.{
  Result, ok, err, failed, Sql, faulty, later, pure, raise, from_option, or_raise, query, guard,
  continue, ◌>>=◌,
}

module _ {ℓ} {T E A : Type ℓ} where
  abbrev pub Answers : Sql T E A → T → List Bool → Result E A → List Bool → Type ℓ
  Answers m t bs r fs =
      m (record { tables = t; faults = bs }) ≡ (r, record { tables = t; faults = fs })

  pub record Agrees (t t' : T) (m : Sql T E A) : Type ℓ where
    pub at :
        (bs : List Bool)
        → (r : Result E A) × (fs : List Bool) × Answers m t bs r fs × Answers m t' bs r fs

module _ {ℓ} {T E A : Type ℓ} (t t' : T) where
  pub Agrees-pure : (a : A) → Agrees {E = E} t t' (pure a)
  unfolding pure
  Agrees-pure a = record { at = λ bs. (ok a, bs, refl, refl) }

  pub Agrees-raise : (e : E) → Agrees {A = A} t t' (raise e)
  unfolding raise
  Agrees-raise e = record { at = λ bs. (err e, bs, refl, refl) }

  pub Agrees-or_raise : (o : Option A) (e : E) → Agrees t t' (or_raise o e)
  unfolding or_raise
  Agrees-or_raise none e = record { at = λ bs. (err e, bs, refl, refl) }
  Agrees-or_raise (some a) e = record { at = λ bs. (ok a, bs, refl, refl) }

  pub Agrees-from_option : (o : Option A) → Agrees {E = E} t t' (from_option o)
  unfolding from_option
  Agrees-from_option none = record { at = λ bs. (failed, bs, refl, refl) }
  Agrees-from_option (some a) = record { at = λ bs. (ok a, bs, refl, refl) }

  pub Agrees-query : (f : T → A) → f t ≡ f t' → Agrees {E = E} t t' (query f)
  unfolding query
  Agrees-query f same = record {
    at = λ bs. elim (Bool-cases (faulty bs)) [
      | inl e ↦ (failed, later bs, rw e refl, rw e refl)
      | inr e ↦ (ok (f t), later bs, rw e refl, rw (e, same) refl)
    ];
  }

module _ {ℓ} {T E : Type ℓ} (t t' : T) where
  pub Agrees-guard : (b : Bool) (e : E) → Agrees t t' (guard b e)
  unfolding guard
  Agrees-guard true e = record { at = λ bs. (ok tt, bs, refl, refl) }
  Agrees-guard false e = record { at = λ bs. (err e, bs, refl, refl) }

module _ {ℓ} {T E A B : Type ℓ} (t t' : T) where
  rest :
      (m : Sql T E A) (k : A → Sql T E B) (bs fs : List Bool) (r : Result E A)
      → Answers m t bs r fs
      → Answers m t' bs r fs
      → ((a : A) → Agrees t t' (k a))
      → (r' : Result E B) × (fs' : List Bool) × Answers (m >>= k) t bs r' fs'
        × Answers (m >>= k) t' bs r' fs'
  unfolding ◌>>=◌ continue
  rest m k bs fs (ok a) h h' agree =
      let (r, left, x, x') = (agree a).at fs in (r, left, rw h x, rw h' x')
  rest m k bs fs (err e) h h' agree = (err e, fs, rw h refl, rw h' refl)
  rest m k bs fs failed h h' agree = (failed, fs, rw h refl, rw h' refl)

  pub Agrees-bind :
      (m : Sql T E A) (k : A → Sql T E B)
      → Agrees t t' m
      → ((a : A) → Agrees t t' (k a))
      → Agrees t t' (m >>= k)
  Agrees-bind m k h agree = record {
    at = λ bs. let (r, fs, x, x') = h.at bs in rest m k bs fs r x x' agree;
  }

  -- The same of a value that is at hand, with what it is.
  pub Agrees-or_raise_then :
      (o : Option A) (e : E) (k : A → Sql T E B)
      → ((a : A) → o ≡ some a → Agrees t t' (k a))
      → Agrees t t' (or_raise o e >>= k)
  unfolding ◌>>=◌
  Agrees-or_raise_then none e k agree = record { at = λ bs. (err e, bs, refl, refl) }
  Agrees-or_raise_then (some a) e k agree = agree a refl

module _ {ℓ} {T E A : Type ℓ} {t t' : T} {m : Sql T E A} where
  pub same_answer :
      (bs : List Bool)
      → Agrees t t' m
      → (m (record { tables = t; faults = bs })).0 ≡ (m (record { tables = t'; faults = bs })).0
  same_answer bs h = let (r, fs, x, x') = h.at bs in ap (λ y. y.0) x ∙ sym (ap (λ y. y.0) x')
