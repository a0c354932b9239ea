-- ===== src/Orders/Errors/Plain.antt =====
-- The errors of the queries in internal/db/queries that the order service calls are the database's.
use soa_hw.Base.{ℕ, String, Option, arith}
use soa_hw.Store.Schema.{OrderStatus, OperationType}
use soa_hw.Store.Env.{Decimals}
use soa_hw.Store.Session.Errors.{IsPlain}
use soa_hw.Store.Queries.{
  get_order_by_id, get_active_order_by_user_id, get_promo_code_by_code,
  get_product_by_id_for_update, get_promo_code_by_id_for_update, increment_promo_uses,
  decrement_promo_uses, create_order, update_order_status, update_order_amounts, get_order_items,
  delete_order_items, decrement_stock, increment_stock, create_order_item, create_user_operation,
  get_last_user_operation,
}

module _ {D : Type 0} where
  pub get_order_by_id-IsPlain : (id : ℕ) → IsPlain {D = D} (get_order_by_id id)
  unfolding get_order_by_id
  get_order_by_id-IsPlain id uuid now db e h = ground arith

  pub get_active_order_by_user_id-IsPlain :
      (id : ℕ) → IsPlain {D = D} (get_active_order_by_user_id id)
  unfolding get_active_order_by_user_id
  get_active_order_by_user_id-IsPlain id uuid now db e h = ground arith

  pub get_promo_code_by_code-IsPlain :
      (code : String) → IsPlain {D = D} (get_promo_code_by_code code)
  unfolding get_promo_code_by_code
  get_promo_code_by_code-IsPlain code uuid now db e h = ground arith

  pub get_product_by_id_for_update-IsPlain :
      (id : ℕ) → IsPlain {D = D} (get_product_by_id_for_update id)
  unfolding get_product_by_id_for_update
  get_product_by_id_for_update-IsPlain id uuid now db e h = ground arith

  pub get_promo_code_by_id_for_update-IsPlain :
      (id : ℕ) → IsPlain {D = D} (get_promo_code_by_id_for_update id)
  unfolding get_promo_code_by_id_for_update
  get_promo_code_by_id_for_update-IsPlain id uuid now db e h = ground arith

  pub increment_promo_uses-IsPlain : (id : ℕ) → IsPlain {D = D} (increment_promo_uses id)
  unfolding increment_promo_uses
  increment_promo_uses-IsPlain id uuid now db e h = ground arith

  pub decrement_promo_uses-IsPlain : (id : ℕ) → IsPlain {D = D} (decrement_promo_uses id)
  unfolding decrement_promo_uses
  decrement_promo_uses-IsPlain id uuid now db e h = ground arith

  pub create_order-IsPlain :
      (dec : Decimals D) (user : ℕ) (promo : Option ℕ) (total discount : D)
      → IsPlain {D = D} (create_order dec user promo total discount)
  unfolding create_order
  create_order-IsPlain dec user promo total discount uuid now db e h = ground arith

  pub update_order_status-IsPlain :
      (id : ℕ) (status : OrderStatus) → IsPlain {D = D} (update_order_status id status)
  unfolding update_order_status
  update_order_status-IsPlain id status uuid now db e h = ground arith

  pub update_order_amounts-IsPlain :
      (dec : Decimals D) (id : ℕ) (total discount : D) (promo : Option ℕ)
      → IsPlain {D = D} (update_order_amounts dec id total discount promo)
  unfolding update_order_amounts
  update_order_amounts-IsPlain dec id total discount promo uuid now db e h = ground arith

  pub get_order_items-IsPlain : (id : ℕ) → IsPlain {D = D} (get_order_items id)
  unfolding get_order_items
  get_order_items-IsPlain id uuid now db e h = ground arith

  pub delete_order_items-IsPlain : (id : ℕ) → IsPlain {D = D} (delete_order_items id)
  unfolding delete_order_items
  delete_order_items-IsPlain id uuid now db e h = ground arith

  pub decrement_stock-IsPlain : (id n : ℕ) → IsPlain {D = D} (decrement_stock id n)
  unfolding decrement_stock
  decrement_stock-IsPlain id n uuid now db e h = ground arith

  pub increment_stock-IsPlain : (id n : ℕ) → IsPlain {D = D} (increment_stock id n)
  unfolding increment_stock
  increment_stock-IsPlain id n uuid now db e h = ground arith

  pub create_order_item-IsPlain :
      (dec : Decimals D) (oid pid n : ℕ) (price : D)
      → IsPlain {D = D} (create_order_item dec oid pid n price)
  unfolding create_order_item
  create_order_item-IsPlain dec oid pid n price uuid now db e h = ground arith

  pub create_user_operation-IsPlain :
      (user : ℕ) (t : OperationType) → IsPlain {D = D} (create_user_operation user t)
  unfolding create_user_operation
  create_user_operation-IsPlain user t uuid now db e h = ground arith

  pub get_last_user_operation-IsPlain :
      (user : ℕ) (t : OperationType) → IsPlain {D = D} (get_last_user_operation user t)
  unfolding get_last_user_operation
  get_last_user_operation-IsPlain user t uuid now db e h = ground arith
