-- ===== src/Orders/Errors.antt =====
-- The application errors of each method of `OrderService` in internal/service/orders.go.
pub mod Plain
pub mod Parts
use soa_hw.Base.{
  ℕ, String, Bool, true, false, not, ◌||◌, ◌≡◌, refl, Option, none, some, List, [], ◌∷◌, ltb,
  if_cases,
}
use soa_hw.ApiErr
use soa_hw.ApiErr.{
  Code, Details, StockError, product_not_found, product_inactive, order_not_found,
  order_limit_exceeded, order_has_active, invalid_state_transition, insufficient_stock,
  promo_code_invalid, promo_code_min_amount, order_ownership_violation,
}
use soa_hw.Store.Schema.{Db, Order, OrderItem, OrderStatus, OperationType, PromoCode, UserOperation}
use soa_hw.Store.Env.{Env, Decimals}
use soa_hw.Store.Session.{
  Session, Action, Result, ok, err, no_rows, tx_aborted, failed, constraint, app, Error, time_now,
  pure, tx, attempt,
}
use soa_hw.Store.Session.Errors.{
  made, made_with, IsAmong, Among, Raises, Raises-pure, Raises-raise, Raises-bind, Raises-seq,
  Raises-or_no_rows, Raises-raise_if, Raises-attempt, Raises-attempt_bind, IsPlain, Raises-pool,
  Raises-tx, Raises-time_now, Raises-in_tx,
}
use soa_hw.Store.Queries.{
  get_order_by_id, get_active_order_by_user_id, get_promo_code_by_code,
  get_product_by_id_for_update, get_promo_code_by_id_for_update, increment_promo_uses,
  decrement_promo_uses, create_order, update_order_status, update_order_amounts, get_order_items,
  delete_order_items, decrement_stock, increment_stock, create_order_item, create_user_operation,
  get_last_user_operation,
}
use Plain.{
  get_order_by_id-IsPlain, get_active_order_by_user_id-IsPlain, get_promo_code_by_code-IsPlain,
  get_product_by_id_for_update-IsPlain, get_promo_code_by_id_for_update-IsPlain,
  increment_promo_uses-IsPlain, decrement_promo_uses-IsPlain, create_order-IsPlain,
  update_order_status-IsPlain, update_order_amounts-IsPlain, get_order_items-IsPlain,
  delete_order_items-IsPlain, decrement_stock-IsPlain, increment_stock-IsPlain,
  create_order_item-IsPlain, create_user_operation-IsPlain, get_last_user_operation-IsPlain,
}
use soa_hw.Orders.Types.{
  OrderItemInput, CreateOrderInput, UpdateOrderInput, Entry, check_rate_limit, answered, too_soon,
  app_error, app_error_with,
}
use soa_hw.Orders.Loops.{
  collect, refuse_short, decrement_all, create_items, restore_all, take_items,
}
use soa_hw.Orders.Service.{
  create, update, cancel, get, create_body, update_body, cancel_body, update_check, cancel_check,
  apply_promo, reprice, reprice_found, refund_promo, none_active, still_applies,
}
use soa_hw.Orders.Errors.Parts.{
  collect-Raises, refuse_short-Raises, decrement_all-Raises, take_items-Raises, create_items-Raises,
  restore_all-Raises, too_soon-Raises, answered-Raises, check_rate_limit-Raises, none_active-Raises,
  apply_promo-Raises, reprice_found-Raises, reprice-Raises, refund_promo-Raises,
}

abbrev pub create_codes : Code → Bool
create_codes order_limit_exceeded = true
create_codes order_has_active = true
create_codes promo_code_invalid = true
create_codes promo_code_min_amount = true
create_codes product_not_found = true
create_codes product_inactive = true
create_codes insufficient_stock = true
create_codes _ = false

abbrev pub get_codes : Code → Bool
get_codes order_not_found = true
get_codes order_ownership_violation = true
get_codes _ = false

abbrev pub cancel_codes : Code → Bool
cancel_codes order_not_found = true
cancel_codes order_ownership_violation = true
cancel_codes invalid_state_transition = true
cancel_codes _ = false

abbrev pub update_codes : Code → Bool
update_codes order_not_found = true
update_codes order_ownership_violation = true
update_codes invalid_state_transition = true
update_codes order_limit_exceeded = true
update_codes product_not_found = true
update_codes product_inactive = true
update_codes insufficient_stock = true
update_codes _ = false

module _ {D : Type 0} (env : Env D) where
  create_body-Raises :
      (i : CreateOrderInput) (s : Session D) → Raises create_codes (create_body env i s)
  unfolding create_body
  create_body-Raises i s =
      let c = create_codes in
      Raises-attempt_bind c _ _ s (Raises-tx c env _ s (get_active_order_by_user_id-IsPlain _))
        λ r s1 h. Raises-seq c _ _ s1 (none_active-Raises c env r s1 refl h) λ s2.
          Raises-bind c _ _ s2 (take_items-Raises c env refl refl refl i.items s2) λ taken s3.
            Raises-bind c _ _ s3 (apply_promo-Raises c env refl refl i.promo_code taken.1 s3)
              λ priced s4.
                Raises-bind c _ _ s4 (Raises-tx c env _ s4 (create_order-IsPlain _ _ _ _ _)) λ o s5.
                  Raises-bind c _ _ s5 (create_items-Raises c env o.id taken.0 s5) λ is s6.
                    Raises-seq c _ _ s6 (Raises-tx c env _ s6 (create_user_operation-IsPlain _ _))
                      λ s7. Raises-pure c _ s7

  pub create-Raises :
      (limit : ℕ) (i : CreateOrderInput) (s : Session D)
      → Raises create_codes (create env limit i s)
  unfolding create
  create-Raises limit i s =
      Raises-seq create_codes _ _ s
        (check_rate_limit-Raises create_codes env limit refl i.user_id OperationType.create_order s)
        λ s1. Raises-in_tx create_codes env _ s1 λ s2. create_body-Raises i s2

  -- The application errors of `Get`.
  pub get-Raises :
      (id caller : ℕ) (role : String) (s : Session D) → Raises get_codes (get env id caller role s)
  unfolding get
  get-Raises id caller role s =
      let c = get_codes in
      Raises-bind c _ _ s
        (Raises-or_no_rows c _ _ s (Raises-pool c env _ s (get_order_by_id-IsPlain id))
          (made D c _ refl))
        λ o s1. Raises-seq c _ _ s1 (Raises-raise_if c _ _ s1 (made D c _ refl)) λ s2.
          Raises-bind c _ _ s2 (Raises-pool c env _ s2 (get_order_items-IsPlain id))
            λ is s3. Raises-pure c _ s3

  pub cancel-Raises :
      (id caller : ℕ) (role : String) (s : Session D)
      → Raises cancel_codes (cancel env id caller role s)
  unfolding cancel cancel_check cancel_body
  cancel-Raises id caller role s =
      let c = cancel_codes in
      Raises-bind c _ _ s
        (Raises-bind c _ _ s
          (Raises-or_no_rows c _ _ s (Raises-pool c env _ s (get_order_by_id-IsPlain id))
            (made D c _ refl))
          λ o s1. Raises-seq c _ _ s1 (Raises-raise_if c _ _ s1 (made D c _ refl)) λ s2.
            Raises-seq c _ _ s2 (Raises-raise_if c _ _ s2 (made D c _ refl))
              λ s3. Raises-pure c o s3)
        λ o s1. Raises-in_tx c env _ s1 λ s2.
          Raises-bind c _ _ s2 (Raises-tx c env _ s2 (get_order_items-IsPlain id)) λ is s3.
            Raises-seq c _ _ s3 (restore_all-Raises c env is s3) λ s4.
              Raises-seq c _ _ s4 (refund_promo-Raises c env o.promo_code_id s4) λ s5.
                Raises-bind c _ _ s5 (Raises-tx c env _ s5 (update_order_status-IsPlain id _))
                  λ o' s6. Raises-pure c _ s6

  update_check-Raises :
      (limit : ℕ) (i : UpdateOrderInput) (s : Session D)
      → Raises update_codes (update_check env limit i s)
  unfolding update_check
  update_check-Raises limit i s =
      let c = update_codes in
      Raises-bind c _ _ s
        (Raises-or_no_rows c _ _ s (Raises-pool c env _ s (get_order_by_id-IsPlain _))
          (made D c _ refl))
        λ o s1. Raises-seq c _ _ s1 (Raises-raise_if c _ _ s1 (made D c _ refl)) λ s2.
          Raises-seq c _ _ s2 (Raises-raise_if c _ _ s2 (made D c _ refl)) λ s3.
            Raises-seq c _ _ s3
              (check_rate_limit-Raises c env limit refl i.caller_id OperationType.update_order s3)
              λ s4. Raises-pure c o s4

  update_body-Raises :
      (o : Order D) (i : UpdateOrderInput) (s : Session D)
      → Raises update_codes (update_body env o i s)
  unfolding update_body
  update_body-Raises o i s =
      let c = update_codes in
      Raises-bind c _ _ s (Raises-tx c env _ s (get_order_items-IsPlain _)) λ old s1.
        Raises-seq c _ _ s1 (restore_all-Raises c env old s1) λ s2.
          Raises-bind c _ _ s2 (take_items-Raises c env refl refl refl i.items s2) λ taken s3.
            Raises-bind c _ _ s3 (reprice-Raises c env o.promo_code_id taken.1 s3) λ priced s4.
              Raises-seq c _ _ s4 (Raises-tx c env _ s4 (delete_order_items-IsPlain _)) λ s5.
                Raises-bind c _ _ s5 (Raises-tx c env _ s5 (update_order_amounts-IsPlain _ _ _ _ _))
                  λ o' s6.
                    Raises-bind c _ _ s6 (create_items-Raises c env i.order_id taken.0 s6) λ is s7.
                      Raises-seq c _ _ s7 (Raises-tx c env _ s7 (create_user_operation-IsPlain _ _))
                        λ s8. Raises-pure c _ s8

  pub update-Raises :
      (limit : ℕ) (i : UpdateOrderInput) (s : Session D)
      → Raises update_codes (update env limit i s)
  unfolding update
  update-Raises limit i s =
      Raises-bind update_codes _ _ s (update_check-Raises limit i s)
        λ o s1. Raises-in_tx update_codes env _ s1 λ s2. update_body-Raises o i s2
