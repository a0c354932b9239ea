-- ===== src/Store/Session.antt =====
-- A run of a service method: a database, calls that may fail, and one transaction at a time.
-- Outside a transaction each query commits by itself. Inside one (`tx`) a failed statement aborts
-- the transaction, as PostgreSQL does, and what is not committed is rolled back. A COMMIT whose answer
-- is lost ends in an error, and may have been carried out.
use soa_hw.Base.{ℕ, suc, Bool, true, false, ◌||◌, if◌then◌else◌}
use soa_hw.ApiErr.{AppError}
use soa_hw.Store.Schema.{Db}
use soa_hw.Store.Env.{Env}
pub mod Laws
pub mod Atomic
pub mod Errors
pub mod Pool
pub mod Frame
pub mod Success

-- Why PostgreSQL refuses a write.
pub data Constraint : Type 0 where
  unique_violation check_violation foreign_key_violation out_of_range : Constraint
  -- A text that is too long for VARCHAR(n), a text that names no value of an enum, and a negative
  -- LIMIT or OFFSET.
  too_long invalid_text negative_limit : Constraint

-- Go's `error`: fmt.Errorf with %w keeps what errors.Is and errors.As see, so it leaves these as
-- they are. `no_rows` is pgx.ErrNoRows.
pub data Error (D : Type 0) : Type 0 where
  no_rows tx_aborted failed : Error D
  constraint : Constraint → Error D
  app : AppError D → Error D

pub data Result (D : Type 0) (A : Type 0) : Type 0 where
  ok : A → Result D A
  err : Error D → Result D A

pub record Session (D : Type 0) : Type 0 where
  pub db : Db D
  -- The number of the next step that asks the environment.
  pub step : ℕ
  -- The state of the open transaction: a statement has failed; NOW() at its begin.
  pub aborted : Bool
  pub started : ℕ

abbrev pub Action : Type 0 → Type 0 → Type 0
Action D A = Session D → Result D A × Session D

-- A query, at a fresh uuid and at NOW(). One that is refused writes nothing.
abbrev pub Query : Type 0 → Type 0 → Type 0
Query D A = ℕ → ℕ → Db D → Result D (A × Db D)

module _ {D : Type 0} where
  abbrev pub then_do :
      {A B : Type 0} → Result D A × Session D → (A → Action D B) → Result D B × Session D
  then_do (ok a, s) f = f a s
  then_do (err e, s) f = (err e, s)

  infixl 5 ◌>>=◌ ◌>>◌
  unfoldable pub ◌>>=◌ : {A B : Type 0} → Action D A → (A → Action D B) → Action D B
  ◌>>=◌ m f s = then_do (m s) f

  unfoldable pub ◌>>◌ : {A B : Type 0} → Action D A → Action D B → Action D B
  ◌>>◌ m k s = then_do (m s) λ _. k

  unfoldable pub pure : {A : Type 0} → A → Action D A
  pure a s = (ok a, s)

  unfoldable pub raise : {A : Type 0} → Error D → Action D A
  raise e s = (err e, s)

  -- `if cond { return …, err }`
  unfoldable pub raise_if : Bool → Error D → Action D (Unit {0})
  raise_if true e s = (err e, s)
  raise_if false e s = (ok tt, s)

  -- What a call returned, its error included, for the code that inspects it.
  unfoldable pub attempt : {A : Type 0} → Action D A → Action D (Result D A)
  attempt m s = let (r, s') = m s in (ok r, s')

  -- `errors.Is(err, pgx.ErrNoRows)` answered with another error
  abbrev pub no_rows_as : {A : Type 0} → Error D → Result D A × Session D → Result D A × Session D
  no_rows_as e (err no_rows, s) = (err e, s)
  no_rows_as e (r, s) = (r, s)

  unfoldable pub or_no_rows : {A : Type 0} → Action D A → Error D → Action D A
  or_no_rows m e s = no_rows_as e (m s)

  -- Whether a statement's outcome aborts the transaction around it: an empty result does not.
  abbrev pub aborts : {A : Type 0} → Result D A → Bool
  aborts (ok a) = false
  aborts (err no_rows) = false
  aborts (err e) = true

  abbrev land : {A : Type 0} → Result D (A × Db D) → Session D → Result D A × Session D
  land (ok (a, db)) s = (ok a, record s { db = db })
  land (err e) s = (err e, s)

  abbrev mark : {A : Type 0} → Result D A × Session D → Result D A × Session D
  mark (r, s) = (r, record s { aborted = aborts r })

  module _ (env : Env D) where
    -- One call of the database in a transaction.
    exec : {A : Type 0} → ℕ → Query D A → Action D A
    exec now q s =
        let s' = record s { step = suc s.step } in
        if env.fault s.step then (err failed, s') else land (q (env.uuid s.step) now s.db) s'

    -- A query on the pool, `s.q.…`, commits by itself, also where its answer is lost.
    unfoldable pub pool : {A : Type 0} → Query D A → Action D A
    pool q s =
        let s' = record s { step = suc s.step } in
        let done = land (q (env.uuid s.step) (env.clock s.step) s.db) s' in
        if env.fault s.step then (err failed, if env.committed s.step then done.1 else s') else done

    -- A query in the transaction, `qtx.…`
    unfoldable pub tx : {A : Type 0} → Query D A → Action D A
    unfolding exec
    tx q s = if s.aborted then (err tx_aborted, s) else mark (exec s.started q s)

    -- time.Now()
    unfoldable pub time_now : Action D ℕ
    time_now s = (ok (env.clock s.step), record s { step = suc s.step })

    abbrev commit : {A : Type 0} → Db D → Result D A × Session D → Result D A × Session D
    commit before (err e, s) = (err e, record s { db = before; aborted = false })
    commit before (ok a, s) =
        let s' = record s { step = suc s.step; aborted = false } in
        if s.aborted
        then (err failed, record s' { db = before })
        else if env.fault s.step
        then (err failed, record s' { db = if env.committed s.step then s.db else before })
        else (ok a, s')

    -- `s.pool.Begin`, the body, `tx.Commit`, and the deferred `tx.Rollback`
    unfoldable pub in_tx : {A : Type 0} → Action D A → Action D A
    in_tx body s =
        let s' = record s { step = suc s.step; aborted = false; started = env.clock s.step } in
        if env.fault s.step
        then (err failed, record s { step = suc s.step })
        else commit s.db (body s')
