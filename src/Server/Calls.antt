-- ===== src/Server/Calls.antt =====
-- Rules for the calls that a handler makes: of a component's chain on its part of the state, with
-- its error answered or not, and of the audit log.
use maubase.Prelude.{Text, ◌≡◌, refl, sym, subst, Option, some, List, [], ◌∷◌, ◌++◌, if_none_inv}
use maubase.Sql.{Result, ok, err, failed, Sql, ◌>>=◌}
use maubase.Sql.Ensures.{
  Ensures, Then, Ensures-weaken, Ensures-pure, Ensures-bind, Ensures-from_option,
  Ensures-exec_checked,
}
use maubase.Schema.{Tables, AuditRow}
use maubase.Audit.{Error as AuditError, Actor, Target, write, insert_entry, marshal_metadata}
use maubase.Server.World.{
  World, with_tables, Reply, plain, Handler, Env, Drawn, Meta, look, run_part, settle, or_internal,
  record_logged,
}

module _ {E A B : Type 0} {T : Type 0} (Q : Result Reply B → World → Type 0) (w : World) where
  -- A call whose result the rest of the handler gets as it is.
  pub Ensures-call :
      (get : World → T) (set : T → World → World) (m : Sql T E A) (k : Result E A → Handler B)
      → Ensures (λ r t'. Ensures Q (set t' w) (k r)) (get w) m
      → Ensures Q w (run_part get set m >>= k)
  unfolding run_part
  Ensures-call get set m k h =
      Ensures-bind Q w (run_part get set m) k (record { at = λ bs. h.at bs })

module _ {E A B : Type 0} (Q : Result Reply B → World → Type 0) (w : World) where
  pub Ensures-settle :
      (f : E → Reply) (other : Reply) (r : Result E A) (k : A → Handler B)
      → ((e : E) → r ≡ err e → Q (err (f e)) w)
      → (r ≡ failed → Q (err other) w)
      → ((a : A) → r ≡ ok a → Ensures Q w (k a))
      → Ensures Q w (settle f other r >>= k)
  unfolding ◌>>=◌
  Ensures-settle f other (ok a) k x y h = h a refl
  Ensures-settle f other (err e) k x y h = record { at = λ bs. x e refl }
  Ensures-settle f other failed k x y h = record { at = λ bs. y refl }

module _ {E A B : Type 0} {T : Type 0} (Q : Result Reply B → World → Type 0) (w : World) where
  -- A call of which every error is answered with 500, where `P` is what the chain ensures.
  pub Ensures-step :
      (get : World → T) (set : T → World → World) (m : Sql T E A) (P : Result E A → T → Type 0)
      (k : A → Handler B)
      → Ensures P (get w) m
      → ((e : E) (t' : T) → P (err e) t' → Q (err (plain 500)) (set t' w))
      → ((t' : T) → P failed t' → Q (err (plain 500)) (set t' w))
      → ((a : A) (t' : T) → P (ok a) t' → Ensures Q (set t' w) (k a))
      → Ensures Q w (run_part get set m >>= λ r. or_internal r >>= k)
  Ensures-step get set m P k h x y z = Ensures-call Q w get set m _ (
      Ensures-weaken P _ (get w) m
        (λ r t' p.
          Ensures-settle Q (set t' w) _ _ r k (λ e same. x e t' (subst (λ s. P s t') same p))
            (λ same. y t' (subst (λ s. P s t') same p))
            (λ a same. z a t' (subst (λ s. P s t') same p)))
        h)

module _ {A B : Type 0} (Q : Result Reply B → World → Type 0) (w : World) where
  pub Ensures-look :
      (f : World → A) (k : A → Handler B) → Ensures Q w (k (f w)) → Ensures Q w (look f >>= k)
  unfolding look ◌>>=◌
  Ensures-look f k h = record { at = λ bs. h.at bs }

-- With another audit log.
abbrev pub with_log : List AuditRow → World → World
with_log log w = record w { tables = record w.tables { audit_log = log } }

module _ (env : Env) (event : Text) (actor : Actor) (target : Target) (meta : Option Meta) where
  abbrev OnlyLog : Tables → Tables → Type 0
  OnlyLog t t' = (log : List AuditRow) × (t' ≡ record t { audit_log = log })

  insert_entry-OnlyLog : (r : AuditRow) (t t' : Tables) → insert_entry r t ≡ some t' → OnlyLog t t'
  unfolding insert_entry
  insert_entry-OnlyLog r t t' h =
      let (free, same) = if_none_inv _ _ t' h in (t.audit_log ++ r ∷ [], same)

  write-OnlyLog :
      (d : Drawn) (t : Tables)
      → Ensures
          (λ r t'. OnlyLog t t')
          t
          (write env.codec d.log_id d.log_now event actor target meta)
  unfolding write
  write-OnlyLog d t =
      Ensures-from_option Q t (marshal_metadata env.codec meta) _ (t.audit_log, refl)
        (λ encoded e.
          Ensures-exec_checked Q t _ (t.audit_log, refl) (λ t' h. insert_entry-OnlyLog _ t t' h))
    where
      Q : Result AuditError Unit → Tables → Type 0
      Q = λ r t'. OnlyLog t t'

  -- The entry may be there or not; the rest goes on.
  pub Ensures-logged :
      {B : Type 0} (Q : Result Reply B → World → Type 0) (w : World) (d : Drawn)
      (k : Unit → Handler B)
      → ((log : List AuditRow) → Ensures Q (with_log log w) (k tt))
      → Ensures Q w (record_logged env d event actor target meta >>= k)
  unfolding record_logged
  Ensures-logged Q w d k h = Ensures-bind Q w (record_logged env d event actor target meta) k (
      Ensures-call (Then Q k) w (λ x. x.tables) with_tables _ _
        (Ensures-weaken (λ r t'. OnlyLog w.tables t') _ w.tables _
          (λ r t' (log, same).
            Ensures-pure (Then Q k) _ tt
              (subst (λ t. Ensures Q (record w { tables = t }) (k tt)) (sym same) (h log)))
          (write-OnlyLog d w.tables)))
