-- ===== src/Orders/Errors/Parts.antt =====
-- The application errors of the parts that the methods of `OrderService` share.
use soa_hw.Base.{ℕ, String, Bool, true, ◌≡◌, Option, none, some, List, [], ◌∷◌, ltb, if_cases}
use soa_hw.ApiErr.{
  Code, StockError, product_not_found, product_inactive, order_limit_exceeded, order_has_active,
  insufficient_stock, promo_code_invalid, promo_code_min_amount,
}
use soa_hw.Store.Schema.{Order, OrderItem, OperationType, PromoCode, UserOperation}
use soa_hw.Store.Env.{Env}
use soa_hw.Store.Session.{Session, Action, Result, ok, err, no_rows}
use soa_hw.Store.Session.Errors.{
  made, made_with, Among, Raises, Raises-pure, Raises-raise, Raises-bind, Raises-seq,
  Raises-or_no_rows, Raises-raise_if, Raises-attempt, Raises-attempt_bind, Raises-pool, Raises-tx,
  Raises-time_now,
}
use soa_hw.Orders.Errors.Plain.{
  get_promo_code_by_code-IsPlain, get_product_by_id_for_update-IsPlain,
  increment_promo_uses-IsPlain, decrement_stock-IsPlain, increment_stock-IsPlain,
  create_order_item-IsPlain, get_last_user_operation-IsPlain,
}
use soa_hw.Orders.Types.{OrderItemInput, Entry, check_rate_limit, answered, too_soon}
use soa_hw.Orders.Loops.{
  collect, refuse_short, decrement_all, create_items, restore_all, take_items,
}
use soa_hw.Orders.Service.{
  apply_promo, reprice, reprice_found, refund_promo, none_active, still_applies,
}

module _ {D : Type 0} (codes : Code → Bool) (env : Env D) where
  module _ (missing : codes product_not_found ≡ true) (off : codes product_inactive ≡ true) where
    pub collect-Raises :
        (is : List OrderItemInput) (s : Session D) → Raises codes (collect env is s)
    unfolding collect
    collect-Raises [] s = Raises-pure codes _ s
    collect-Raises (i ∷ is) s =
        Raises-bind codes _ _ s
          (Raises-or_no_rows codes _ _ s
            (Raises-tx codes env _ s (get_product_by_id_for_update-IsPlain _))
            (made D codes _ missing))
          λ p s1.
            Raises-seq codes _ _ s1 (Raises-raise_if codes _ _ s1 (made D codes _ off)) λ s2.
              Raises-bind codes _ _ s2 (collect-Raises is s2) λ rest s3. Raises-pure codes _ s3

  pub refuse_short-Raises :
      (es : List StockError) (s : Session D)
      → codes insufficient_stock ≡ true
      → Raises codes (refuse_short env es s)
  unfolding refuse_short
  refuse_short-Raises [] s short = Raises-pure codes tt s
  refuse_short-Raises (e ∷ es) s short = Raises-raise codes _ _ s (made_with D codes _ _ short)

  pub decrement_all-Raises :
      (es : List (Entry D)) (total : D) (s : Session D)
      → Raises codes (decrement_all env es total s)
  unfolding decrement_all
  decrement_all-Raises [] total s = Raises-pure codes _ s
  decrement_all-Raises (e ∷ es) total s =
      Raises-seq codes _ _ s (Raises-tx codes env _ s (decrement_stock-IsPlain _ _))
        λ s1. decrement_all-Raises es _ s1

  pub take_items-Raises :
      codes product_not_found ≡ true
      → codes product_inactive ≡ true
      → codes insufficient_stock ≡ true
      → (is : List OrderItemInput) (s : Session D) → Raises codes (take_items env is s)
  unfolding take_items
  take_items-Raises missing off short is s =
      Raises-bind codes _ _ s (collect-Raises missing off is s) λ found s1.
        Raises-seq codes _ _ s1 (refuse_short-Raises found.1 s1 short) λ s2.
          Raises-bind codes _ _ s2 (decrement_all-Raises found.0 _ s2)
            λ t s3. Raises-pure codes _ s3

  pub create_items-Raises :
      (oid : ℕ) (es : List (Entry D)) (s : Session D) → Raises codes (create_items env oid es s)
  unfolding create_items
  create_items-Raises oid [] s = Raises-pure codes _ s
  create_items-Raises oid (e ∷ es) s =
      Raises-bind codes _ _ s (Raises-tx codes env _ s (create_order_item-IsPlain _ _ _ _ _))
        λ i s1.
          Raises-bind codes _ _ s1 (create_items-Raises oid es s1) λ is s2. Raises-pure codes _ s2

  pub restore_all-Raises :
      (is : List (OrderItem D)) (s : Session D) → Raises codes (restore_all env is s)
  unfolding restore_all
  restore_all-Raises [] s = Raises-pure codes _ s
  restore_all-Raises (i ∷ is) s =
      Raises-seq codes _ _ s (Raises-tx codes env _ s (increment_stock-IsPlain _ _))
        λ s1. restore_all-Raises is s1

  module _ (limit : ℕ) (early : codes order_limit_exceeded ≡ true) where
    pub too_soon-Raises : (until now : ℕ) (s : Session D) → Raises codes (too_soon env until now s)
    unfolding too_soon
    too_soon-Raises until now s =
        if_cases (λ (m : Action D (Unit {0})). Raises codes (m s)) (ltb now until)
          (λ _.
            Raises-bind codes _ _ s (Raises-time_now codes env s)
              λ t s1. Raises-raise codes _ _ s1 (made_with D codes _ _ early))
          λ _. Raises-pure codes tt s

    pub answered-Raises :
        (r : Result D UserOperation) (s : Session D)
        → Among codes r
        → Raises codes (answered env limit r s)
    unfolding answered
    answered-Raises (err no_rows) s h = Raises-pure codes tt s
    answered-Raises (err e) s h = Raises-raise codes _ _ s h
    answered-Raises (ok op) s h =
        Raises-bind codes _ _ s (Raises-time_now codes env s) λ now s1. too_soon-Raises _ now s1

    pub check_rate_limit-Raises :
        (user : ℕ) (t : OperationType) (s : Session D)
        → Raises codes (check_rate_limit env limit user t s)
    unfolding check_rate_limit
    check_rate_limit-Raises user t s =
        Raises-attempt_bind codes _ _ s
          (Raises-pool codes env _ s (get_last_user_operation-IsPlain user t))
          λ r s1 h. answered-Raises r s1 h

  pub none_active-Raises :
      (r : Result D (Order D)) (s : Session D)
      → codes order_has_active ≡ true
      → Among codes r
      → Raises codes (none_active r s)
  unfolding none_active
  none_active-Raises (ok o) s busy h = Raises-raise codes _ _ s (made D codes _ busy)
  none_active-Raises (err no_rows) s busy h = Raises-pure codes tt s
  none_active-Raises (err e) s busy h = Raises-raise codes _ _ s h

  pub apply_promo-Raises :
      codes promo_code_invalid ≡ true
      → codes promo_code_min_amount ≡ true
      → (code : Option String) (total : D) (s : Session D)
      → Raises codes (apply_promo env code total s)
  unfolding apply_promo
  apply_promo-Raises bad low none total s = Raises-pure codes _ s
  apply_promo-Raises bad low (some code) total s =
      Raises-bind codes _ _ s
        (Raises-or_no_rows codes _ _ s
          (Raises-tx codes env _ s (get_promo_code_by_code-IsPlain code)) (made D codes _ bad))
        λ p s1. Raises-bind codes _ _ s1 (Raises-time_now codes env s1) λ now s2.
          Raises-seq codes _ _ s2 (Raises-raise_if codes _ _ s2 (made D codes _ bad)) λ s3.
            Raises-seq codes _ _ s3 (Raises-raise_if codes _ _ s3 (made_with D codes _ _ low)) λ s4.
              Raises-seq codes _ _ s4 (Raises-tx codes env _ s4 (increment_promo_uses-IsPlain _))
                λ s5. Raises-pure codes _ s5

  pub reprice_found-Raises :
      (id : ℕ) (total : D) (r : Result D (PromoCode D)) (s : Session D)
      → Raises codes (reprice_found env id total r s)
  unfolding reprice_found
  reprice_found-Raises id total (err e) s = Raises-pure codes _ s
  reprice_found-Raises id total (ok p) s =
      Raises-bind codes _ _ s (Raises-time_now codes env s) λ now s1.
        if_cases (λ (m : Action D (D × Option ℕ)). Raises codes (m s1))
          (still_applies env now total p) (λ _. Raises-pure codes _ s1)
          λ _. Raises-seq codes _ _ s1 (Raises-attempt codes _ s1) λ s2. Raises-pure codes _ s2

  pub reprice-Raises :
      (promo : Option ℕ) (total : D) (s : Session D) → Raises codes (reprice env promo total s)
  unfolding reprice
  reprice-Raises none total s = Raises-pure codes _ s
  reprice-Raises (some id) total s =
      Raises-bind codes _ _ s (Raises-attempt codes _ s) λ r s1. reprice_found-Raises id total r s1

  pub refund_promo-Raises :
      (promo : Option ℕ) (s : Session D) → Raises codes (refund_promo env promo s)
  refund_promo-Raises none s = Raises-pure codes tt s
  refund_promo-Raises (some id) s =
      Raises-seq codes _ _ s (Raises-attempt codes _ s) λ s1. Raises-pure codes tt s1
