-- ===== src/Orders/Discount.antt =====
-- `calcDiscount` of internal/service/orders.go.
use soa_hw.Base.{if◌then◌else◌}
use soa_hw.Store.Schema.{DiscountType, percentage, fixed_amount, PromoCode}
use soa_hw.Store.Env.{Decimals}

module _ {D : Type 0} (dec : Decimals D) where
  open dec use {new_from_int, seven_tenths, mul, div, greater_than}

  -- `d`, cut to 70% of the total
  percentage_discount : D → D → D
  percentage_discount total value =
      let d = div (mul total value) (new_from_int 100) in
      let max_discount = mul total seven_tenths in
      if greater_than d max_discount then max_discount else d

  fixed_discount : D → D → D
  fixed_discount total value = if greater_than value total then total else value

  -- The `switch`; the enum of the column leaves no other case.
  discount_of : DiscountType → D → D → D
  unfolding percentage_discount fixed_discount
  discount_of percentage = percentage_discount
  discount_of fixed_amount = fixed_discount

  unfoldable pub calc_discount : D → PromoCode D → D
  unfolding discount_of
  calc_discount total promo = discount_of promo.discount_type total promo.discount_value
