-- ===== src/Sql.antt =====
-- database/sql over SQLite, as internal/* use it: one connection (internal/db/db.go pins the pool
-- to one), so a statement or a transaction runs alone. A statement may fail in the driver; the
-- failures still to come are a list in the state, and a statement that fails changes no table.
pub mod Keeps
pub mod Ensures
pub mod Agrees
use maubase.Prelude.{Bool, true, false, Option, none, some, List, [], ◌∷◌, if◌then◌else◌}

-- `err` carries an error value of the package, made by errors.New. `failed` is any other error:
-- one of the driver, of hashing or of the random source, which the code wraps and passes on.
pub data Result {ℓ} (E A : Type ℓ) : Type ℓ where
  ok : A → Result E A
  err : E → Result E A
  failed : Result E A

pub record Db {ℓ} (T : Type ℓ) : Type ℓ where
  pub tables : T
  -- For each statement to come, whether the driver fails. After the end nothing fails.
  pub faults : List Bool

abbrev pub Sql {ℓ} : Type ℓ → Type ℓ → Type ℓ → Type ℓ
Sql T E A = Db T → Result E A × Db T

abbrev pub faulty : List Bool → Bool
faulty [] = false
faulty (b ∷ bs) = b

abbrev pub later : List Bool → List Bool
later [] = []
later (b ∷ bs) = bs

module _ {ℓ} {T E A : Type ℓ} where
  pub pure : A → Sql T E A
  pure a db = (ok a, db)

  pub raise : E → Sql T E A
  raise e db = (err e, db)

  pub fail : Sql T E A
  fail db = (failed, db)

  pub from_option : Option A → Sql T E A
  from_option none db = (failed, db)
  from_option (some a) db = (ok a, db)

  -- errors.Is(err, sql.ErrNoRows)
  pub or_raise : Option A → E → Sql T E A
  or_raise none e db = (err e, db)
  or_raise (some a) e db = (ok a, db)

  -- A query: the tables stay as they are.
  unfoldable pub query : (T → A) → Sql T E A
  query f db =
      if faulty db.faults
      then (failed, record db { faults = later db.faults })
      else (ok (f db.tables), record db { faults = later db.faults })

  -- A statement that also answers something, such as the number of rows affected.
  pub exec_with : (T → A) → (T → T) → Sql T E A
  exec_with g f db =
      if faulty db.faults
      then (failed, record db { faults = later db.faults })
      else (ok (g db.tables), record { tables = f db.tables; faults = later db.faults })

  -- BeginTx, the body, Commit; any error on the way rolls the tables back.
  close_tx : T → Result E A → Db T → Result E A × Db T
  close_tx before (ok a) db =
      if faulty db.faults
      then (failed, record { tables = before; faults = later db.faults })
      else (ok a, record db { faults = later db.faults })
  close_tx before (err e) db = (err e, record db { tables = before })
  close_tx before failed db = (failed, record db { tables = before })

  unfoldable pub transaction : Sql T E A → Sql T E A
  unfolding close_tx
  transaction body db =
      if faulty db.faults
      then (failed, record db { faults = later db.faults })
      else let (r, db') = body (record db { faults = later db.faults }) in close_tx db.tables r db'

module _ {ℓ} {T E : Type ℓ} where
  pub guard : Bool → E → Sql T E Unit
  guard true e db = (ok tt, db)
  guard false e db = (err e, db)

  -- A statement that cannot violate a constraint.
  pub exec : (T → T) → Sql T E Unit
  exec f db =
      if faulty db.faults
      then (failed, record db { faults = later db.faults })
      else (ok tt, record { tables = f db.tables; faults = later db.faults })

  checked : Option T → Db T → Result E Unit × Db T
  checked none db = (failed, db)
  checked (some t) db = (ok tt, record db { tables = t })

  -- A statement that violates a constraint where `f` has no answer, which is an error like any
  -- other.
  unfoldable pub exec_checked : (T → Option T) → Sql T E Unit
  unfolding checked
  exec_checked f db =
      if faulty db.faults
      then (failed, record db { faults = later db.faults })
      else checked (f db.tables) (record db { faults = later db.faults })

  tried : Option T → E → Db T → Result E Unit × Db T
  tried none e db = (err e, db)
  tried (some t) e db = (ok tt, record db { tables = t })

  -- The same where the code tests for "UNIQUE constraint failed" and returns `e`.
  unfoldable pub exec_unique : (T → Option T) → E → Sql T E Unit
  unfolding tried
  exec_unique f e db =
      if faulty db.faults
      then (failed, record db { faults = later db.faults })
      else tried (f db.tables) e (record db { faults = later db.faults })

module _ {T E : Type 0} where
  attempted : Option T → Db T → Result E Bool × Db T
  attempted none db = (ok false, db)
  attempted (some t) db = (ok true, record db { tables = t })

  -- The same where the code tests for "UNIQUE constraint failed" and goes on; the answer is whether
  -- the statement ran.
  unfoldable pub exec_attempt : (T → Option T) → Sql T E Bool
  unfolding attempted
  exec_attempt f db =
      if faulty db.faults
      then (failed, record db { faults = later db.faults })
      else attempted (f db.tables) (record db { faults = later db.faults })

-- What a statement that the engine may refuse comes to: an error made of its message, or an answer
-- and the tables left.
pub data Ran {ℓ} (T E A : Type ℓ) : Type ℓ where
  refused : E → Ran T E A
  ran : A → T → Ran T E A

module _ {ℓ} {T E A : Type ℓ} where
  ended : Ran T E A → Db T → Result E A × Db T
  ended (refused e) db = (err e, db)
  ended (ran a t) db = (ok a, record db { tables = t })

  -- The same where the code makes an error value of any refusal.
  unfoldable pub exec_or : (T → Ran T E A) → Sql T E A
  unfolding ended
  exec_or f db =
      if faulty db.faults
      then (failed, record db { faults = later db.faults })
      else ended (f db.tables) (record db { faults = later db.faults })

  -- A query whose failure the code ignores.
  unfoldable pub query_or : A → (T → A) → Sql T E A
  query_or a f db =
      if faulty db.faults
      then (ok a, record db { faults = later db.faults })
      else (ok (f db.tables), record db { faults = later db.faults })

module _ {ℓ} {T E : Type ℓ} where
  -- A change of the state that is no statement, and cannot fail.
  unfoldable pub effect : (T → T) → Sql T E Unit
  effect f db = (ok tt, record db { tables = f db.tables })

module _ {ℓ} {T E A B : Type ℓ} where
  continue : Result E A → (A → Sql T E B) → Sql T E B
  continue (ok a) f db = f a db
  continue (err e) f db = (err e, db)
  continue failed f db = (failed, db)

  infixl 10 ◌>>=◌ ◌>>◌
  -- Opening this opens every statement.
  unfoldable pub ◌>>=◌ : Sql T E A → (A → Sql T E B) → Sql T E B
  unfolding continue pure raise fail from_option or_raise query exec_with guard exec exec_checked
      exec_unique exec_attempt exec_or query_or effect
  ◌>>=◌ m f db = let (r, db') = m db in continue r f db'

  abbrev pub ◌>>◌ : Sql T E A → Sql T E B → Sql T E B
  m >> n = m >>= λ _. n
