-- ===== src/Store/Env.antt =====
-- What the program calls and does not implement: decimals (shopspring/decimal and the NUMERIC
-- columns), the clock, fresh uuids, and the failures of the database.
use soa_hw.Base.{ℕ, Bool, Option}

pub record Decimals (D : Type 0) : Type 0 where
  pub zero : D
  pub new_from_int : ℕ → D
  -- decimal.NewFromFloat(0.70)
  pub seven_tenths : D
  pub add : D → D → D
  pub sub : D → D → D
  pub mul : D → D → D
  pub div : D → D → D
  pub greater_than : D → D → Bool
  pub less_than : D → D → Bool
  pub greater_than_or_equal : D → D → Bool
  -- What a NUMERIC(12, 2) column holds after a write; `none` if the value does not fit.
  pub numeric : D → Option D

-- float64, the type `F`: 0.01, `<`, decimal.NewFromFloat and InexactFloat64; IsZero of decimals.
pub record Floats (D F : Type 0) : Type 0 where
  pub one_hundredth : F
  pub less_than : F → F → Bool
  pub new_from_float : F → D
  pub inexact_float64 : D → F
  pub is_zero : D → Bool

-- `clock`, `uuid`, `fault` and `committed` are read at the number of the step that asks.
pub record Env (D : Type 0) : Type 0 where
  pub decimal : Decimals D
  pub clock : ℕ → ℕ
  pub uuid : ℕ → ℕ
  -- Whether the database or the connection fails at that step.
  pub fault : ℕ → Bool
  -- Whether a COMMIT, or a query on the pool, that failed so was carried out all the same: its answer
  -- was lost.
  pub committed : ℕ → Bool
  -- The place of a row among the rows of one time, by its id, in the query that got this fresh
  -- number: SQL leaves it open, for each query anew.
  pub ties : ℕ → ℕ → ℕ
