-- ===== src/Orders/History/Raised.antt =====
-- The application errors of any call of `OrderService`.
use soa_hw.Base.{ℕ, Bool}
use soa_hw.ApiErr.{Code}
use soa_hw.Store.Env.{Env}
use soa_hw.Store.Session.{Session}
use soa_hw.Store.Session.Errors.{Raises}
use soa_hw.Orders.Errors.{
  create_codes, update_codes, cancel_codes, get_codes, create-Raises, update-Raises, cancel-Raises,
  get-Raises,
}
use soa_hw.Orders.History.{Call, creates, updates, cancels, gets, perform}

abbrev pub codes_of : Call → Code → Bool
codes_of (creates i) = create_codes
codes_of (updates i) = update_codes
codes_of (cancels id caller role) = cancel_codes
codes_of (gets id caller role) = get_codes

module _ {D : Type 0} (env : Env D) (limit : ℕ) where
  -- An application error that a call returns has the HTTP status of its code, and the code is, for
  -- Create, one of ORDER_LIMIT_EXCEEDED, ORDER_HAS_ACTIVE, PRODUCT_NOT_FOUND, PRODUCT_INACTIVE,
  -- INSUFFICIENT_STOCK, PROMO_CODE_INVALID and PROMO_CODE_MIN_AMOUNT; for Get and Cancel
  -- ORDER_NOT_FOUND or ORDER_OWNERSHIP_VIOLATION, for Cancel also INVALID_STATE_TRANSITION; for
  -- Update one of those three, ORDER_LIMIT_EXCEEDED, PRODUCT_NOT_FOUND, PRODUCT_INACTIVE and
  -- INSUFFICIENT_STOCK.
  pub perform-Raises : (c : Call) (s : Session D) → Raises (codes_of c) (perform env limit c s)
  unfolding perform
  perform-Raises (creates i) s = create-Raises env limit i s
  perform-Raises (updates i) s = update-Raises env limit i s
  perform-Raises (cancels id caller role) s = cancel-Raises env id caller role s
  perform-Raises (gets id caller role) s = get-Raises env id caller role s
