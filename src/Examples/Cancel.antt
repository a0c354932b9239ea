-- ===== src/Examples/Cancel.antt =====
-- Cancel of internal/service/orders.go in the small shop, alone and with another that overlaps.
use soa_hw.Base.{◌+◌, ◌≡◌, refl, arith, [], ◌∷◌}
use soa_hw.Base.Rows.{find_row, filter_rows}
use soa_hw.Store.Session.Success.{Gives}
use soa_hw.Orders.Service.{cancel}
use soa_hw.Orders.Supply.Stock.{stock_at}
use soa_hw.Orders.Supply.Held.{ordered}
use soa_hw.Orders.Conserve.Cancel.Room.{HasRoom, HasRoomFor}
use soa_hw.Orders.Conserve.Cancel.Succeeds.{IsCanceled, cancel-Gives}
use soa_hw.Orders.Conserve.Cancel.Overlap.{units, overlapping_cancels, overlapping_cancels-Gives}
use soa_hw.Examples.Data.{calm, session, shop, old_order, old_item}

pub shop-HasRoom : HasRoom (old_item ∷ []) shop
unfolding find_row ordered
shop-HasRoom pid l = ground (arith, l)

cancel-Gives_example : Gives (λ r t. IsCanceled 40 r t.db) (cancel calm 40 5 "USER" session)
unfolding find_row filter_rows
cancel-Gives_example =
    cancel-Gives calm (λ k. refl) 40 5 "USER" old_order session refl refl refl shop-HasRoom

twice-HasRoom : HasRoomFor (λ p. units calm p 40 session) (old_item ∷ []) shop
unfolding find_row ordered filter_rows
twice-HasRoom pid l = ground (arith, l)

-- Two mice were ordered, and four go back on stock.
overlapping_cancels-Gives_example :
    Gives
      (λ r t.
        stock_at 1 t.db.products
        ≡ stock_at 1 shop.products + (units calm 1 40 session + units calm 1 40 session))
      (overlapping_cancels calm 40 5 "USER" session)
unfolding find_row filter_rows
overlapping_cancels-Gives_example =
    overlapping_cancels-Gives calm (λ k. refl) 40 5 1 "USER" old_order session refl refl refl refl
      twice-HasRoom
