-- ===== src/Orders/History.antt =====
-- Any sequence of calls of `OrderService`, one after the other, and the tables that it goes through.
pub mod Steps
pub mod Units
pub mod Status
pub mod Codes
pub mod Book
pub mod Raised
use soa_hw.Base.{ℕ, String, List, [], ◌∷◌}
use soa_hw.Store.Env.{Env}
use soa_hw.Store.Session.{Session, Action}
use soa_hw.Orders.Types.{CreateOrderInput, UpdateOrderInput, OrderWithItems}
use soa_hw.Orders.Service.{create, update, cancel, get}

-- The methods and their arguments.
pub data Call : Type 0 where
  creates : CreateOrderInput → Call
  updates : UpdateOrderInput → Call
  cancels gets : ℕ → ℕ → String → Call

module _ {D : Type 0} (env : Env D) (limit : ℕ) where
  unfoldable pub perform : Call → Action D (OrderWithItems D)
  perform (creates i) = create env limit i
  perform (updates i) = update env limit i
  perform (cancels id caller role) = cancel env id caller role
  perform (gets id caller role) = get env id caller role

  -- The session after the calls, whether they succeed or fail.
  unfoldable pub run : List Call → Session D → Session D
  run [] s = s
  run (c ∷ cs) s = run cs (perform c s).1
