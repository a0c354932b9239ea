-- ===== src/Orders/History/Units.antt =====
-- The units of a product over any calls.
use soa_hw.Base.{ℕ, List}
use soa_hw.Store.Schema.{Db}
use soa_hw.Store.Env.{Env}
use soa_hw.Store.Session.{Session}
use soa_hw.Orders.Supply.{Accounts}
use soa_hw.Orders.Conserve.Create.Tables.{Creates-Accounts}
use soa_hw.Orders.Conserve.Update.Tables.{Updates-Accounts, is_created-is_live}
use soa_hw.Orders.Conserve.Cancel.Tables.{Cancels-Accounts, is_active-is_live}
use soa_hw.Orders.History.{Call, run}
use soa_hw.Orders.History.Steps.{Step, same, created, updated, canceled, run-keeps}

module _ {D : Type 0} where
  pub Step-Accounts :
      (pid n : ℕ) (db db' : Db D) → Accounts pid n db → Step pid db db' → Accounts pid n db'
  Step-Accounts pid n db db' h (same e) = rw e h
  Step-Accounts pid n db db' h (created i c) = Creates-Accounts pid n i db db' h c
  Step-Accounts pid n db db' h (updated id o e a u) =
      Updates-Accounts pid id n _ db db' (is_created-is_live id db.orders e a) h u
  Step-Accounts pid n db db' h (canceled id o e a c) =
      Cancels-Accounts pid id n _ db db' (is_active-is_live id db.orders e a) h c

  -- For a product that is listed, and items that all have their order: after any calls of Create,
  -- Update, Cancel and Get in any order, with any arguments and any failures of the database, the
  -- units of the product on stock and in the items of orders that are not canceled come to what
  -- they came to before.
  pub run-Accounts :
      (env : Env D) (limit pid n : ℕ) (cs : List Call) (s : Session D)
      → Accounts pid n s.db
      → Accounts pid n (run env limit cs s).db
  run-Accounts env limit pid n cs s h =
      run-keeps env limit pid (Accounts pid n) (λ db k. k.listed) (λ db k. k.closed)
        (Step-Accounts pid n) cs s h
