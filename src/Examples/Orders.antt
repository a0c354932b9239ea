-- ===== src/Examples/Orders.antt =====
-- Runs of `OrderService`, and its theorems at concrete inputs.
use soa_hw.Base.{ℕ, true, ◌==◌, refl, arith, List, [], ◌∷◌}
use soa_hw.Base.Rows.{find_row}
use soa_hw.Base.Keys.{count_rows}
use soa_hw.Store.Env.{Env}
use soa_hw.Orders.Supply.{Accounts}
use soa_hw.Orders.Supply.Held.{held}
use soa_hw.Orders.History.{Call, creates, cancels, gets, run, perform}
use soa_hw.Store.Session.Atomic.{Undone}
use soa_hw.Orders.History.Steps.{Carried, perform-Undone}
use soa_hw.Orders.History.Units.{run-Accounts}
use soa_hw.Orders.History.Status.{Kept, run-Kept, OneActive, run-OneActive}
use soa_hw.Orders.History.Codes.{UsesHeld, run-UsesHeld}
use soa_hw.Examples.Data.{calm, session, shop, three_mice, old_order}

-- Buyer 6 orders three mice; buyer 5 cancels an old order, and reads it.
abbrev calls : List Call
calls = creates three_mice ∷ cancels 40 5 "USER" ∷ gets 40 5 "USER" ∷ []

pub shop-Accounts : Accounts 1 22 shop
unfolding held find_row
shop-Accounts = record { units = refl; listed = refl; closed = (refl, tt) }

-- The answer to the COMMIT of the cancelation of order 40 is lost, and it was carried out.
abbrev cut : Env ℕ
cut = record calm { fault = λ n. n == 6; committed = λ _. true }

perform-Undone_example :
    Undone
      (Carried cut 1 (cancels 40 5 "USER") shop)
      shop
      (perform cut 1 (cancels 40 5 "USER") session)
perform-Undone_example = perform-Undone cut 1 (cancels 40 5 "USER") session

run-Accounts_example : Accounts 1 22 (run calm 1 calls session).db
run-Accounts_example = run-Accounts calm 1 1 22 calls session shop-Accounts

run-Kept_example : Kept 40 old_order (run calm 1 calls session).db
unfolding find_row
run-Kept_example = run-Kept calm 1 1 22 40 old_order calls session shop-Accounts refl

pub shop-OneActive : OneActive 5 shop
unfolding count_rows find_row
shop-OneActive = record { keyed = (refl, tt); active = omega arith }

run-OneActive_example : OneActive 5 (run calm 1 calls session).db
run-OneActive_example = run-OneActive calm 1 1 22 5 calls session shop-Accounts shop-OneActive

pub shop-UsesHeld : UsesHeld 30 0 shop
unfolding count_rows find_row
shop-UsesHeld = record { listed = refl; keyed = (refl, tt); uses = refl }

run-UsesHeld_example : UsesHeld 30 0 (run calm 1 calls session).db
run-UsesHeld_example = run-UsesHeld calm 1 1 22 30 0 calls session shop-Accounts shop-UsesHeld
