-- ===== src/Handler/Orders/Requests.antt =====
-- Which requests the handlers of internal/handler/orders.go let through to the service.
use soa_hw.Base.{
  ℕ, suc, ◌≤◌, String, true, ◌≡◌, ◌≢◌, ◌↔◌, refl, arith, List, [], ◌∷◌, length, map, Option, none,
  some, Bool-cases, inl, inr,
}
use soa_hw.Base.Int.{ℤ, pos, negsuc, above, to_int32, to_int32-pos}
use soa_hw.ApiErr
use soa_hw.ApiErr.{Field, named, Message, FieldErr, fields, access_denied, validation_error}
use soa_hw.Store.Env.{Env, Floats}
use soa_hw.Store.Session.{Session}
use soa_hw.Orders.Types.{OrderItemInput}
use soa_hw.Handler.Validation.{Validator, pattern_check, verdict, is_promo_code_pattern}
use soa_hw.Handler.Validation.Pattern.{IsCode, is_promo_code_pattern_iff}
use soa_hw.Handler.Response.{Outcome, require_role, unless, contains, err_json}
use soa_hw.Handler.Orders.{
  OrderItemCreate, OrderCreate, buyers, create_order, check_items, check_quantities,
  check_promo_code, item_inputs,
}
use soa_hw.Handler.Validation.Clean.{
  IsWithin, add_if_clean, range_clean, verdict_lem, clean-verdict,
}

abbrev pub AllWithin : List OrderItemCreate → Type 0
AllWithin [] = Unit
AllWithin (it ∷ its) = IsWithin 1 999 it.quantity × AllWithin its

-- From 1 to 50 items, of 1 to 999 units each.
abbrev pub AreItems : List OrderItemCreate → Type 0
AreItems its = (1 ≤ length its) × (length its ≤ 50) × AllWithin its

-- No promo code, or 4 to 20 characters of A-Z, 0-9 and _.
abbrev pub IsPromoCode : Option String → Type 0
IsPromoCode none = Unit
IsPromoCode (some code) = (n : ℕ) × IsCode n code × (4 ≤ n) × (n ≤ 20)

check_quantities_clean :
    (i : ℕ) (its : List OrderItemCreate) (v : Validator)
    → (check_quantities i its v ≡ []) ↔ (AllWithin its × (v ≡ []))
unfolding check_quantities
check_quantities_clean i [] v = (λ h. (tt, h), λ h. h.1)
check_quantities_clean i (it ∷ its) v = (
  λ h.
      let (later, here) = (check_quantities_clean (suc i) its _).0 h in
      let (ok, clean) = (range_clean 1 999 _ it.quantity v (omega arith)).0 here in
      ((ok, later), clean),
  λ h.
      (check_quantities_clean (suc i) its _).1
        (h.0.1, (range_clean 1 999 _ it.quantity v (omega arith)).1 (h.0.0, h.1)),
)

check_items_clean : (its : List OrderItemCreate) → (check_items its [] ≡ []) ↔ AreItems its
unfolding check_items
check_items_clean its = (
  λ h.
      let (each, here) = (check_quantities_clean 0 its _).0 h in
      let (all, clean) = (range_clean 1 50 _ (pos (length its)) [] (omega arith)).0 here in
      (all.0, all.1, each),
  λ h.
      (check_quantities_clean 0 its _).1
        (h.2, (range_clean 1 50 _ (pos (length its)) [] (omega arith)).1 ((h.0, h.1), refl)),
)

pattern_clean :
    (code : String) (v : Validator)
    → (check_promo_code (some code) v ≡ []) ↔ ((is_promo_code_pattern code ≡ true) × (v ≡ []))
unfolding check_promo_code pattern_check
pattern_clean code v = elim (Bool-cases (is_promo_code_pattern code)) [
  | inl good ↦ rw good (λ h. (refl, h), λ h. h.1)
  | inr bad ↦ rw bad (
    λ h. cc ((add_if_clean true (named "promo_code") Message.promo_code_pattern v).0 h).0,
    λ h. cc,
  )
]

check_promo_code_clean :
    (promo : Option String) (v : Validator)
    → (check_promo_code promo v ≡ []) ↔ (IsPromoCode promo × (v ≡ []))
unfolding check_promo_code
check_promo_code_clean none v = (λ h. (tt, h), λ h. h.1)
check_promo_code_clean (some code) v = (
  λ h.
      let (good, clean) = (pattern_clean code v).0 h in
      ((is_promo_code_pattern_iff code).0 good, clean),
  λ h. (pattern_clean code v).1 ((is_promo_code_pattern_iff code).1 h.0, h.1),
)

-- The checks of CreateOrder accept a body exactly if it has from 1 to 50 items of 1 to 999 units
-- each, and no promo code or one that matches ^[A-Z0-9_]{4,20}$.
pub order_checks_iff :
    {D : Type 0} (body : OrderCreate)
    → (verdict {D = D} (check_promo_code body.promo_code (check_items body.items [])) ≡ none)
      ↔ (AreItems body.items × IsPromoCode body.promo_code)
order_checks_iff body = (
  λ h.
      let (promo, clean) = (check_promo_code_clean body.promo_code _).0 ((clean-verdict _).0 h) in
      ((check_items_clean body.items).0 clean, promo),
  λ h.
      (clean-verdict _).1
        ((check_promo_code_clean body.promo_code _).1 (h.1, (check_items_clean body.items).1 h.0)),
)

-- What the service is given of each item.
abbrev pub passed_on : OrderItemInput → ℕ × ℤ
passed_on i = (i.product_id, pos i.quantity)

abbrev pub asked_for : OrderItemCreate → ℕ × ℤ
asked_for it = (it.product_id, it.quantity)

kept_quantity : (q : ℤ) → IsWithin 1 999 q → pos (above (to_int32 q)) ≡ q
kept_quantity (pos n) h = rw (to_int32-pos n (omega arith))
kept_quantity (negsuc n) h = absurd h

-- For items of 1 to 999 units, as the checks leave them, the service is given the items of the
-- request in their order, each with the product and the quantity that were asked for: int32(...)
-- changes none.
pub item_inputs-map :
    (its : List OrderItemCreate)
    → AllWithin its
    → map passed_on (item_inputs its) ≡ map asked_for its
unfolding item_inputs
item_inputs-map [] h = refl
item_inputs-map (it ∷ its) h = cc (kept_quantity it.quantity h.0, item_inputs-map its h.1)

module _ {D F : Type 0} (env : Env D) (floats : Floats D F) where
  -- For a caller with the role USER or ADMIN whose body does not have from 1 to 50 items of 1 to
  -- 999 units each and either no promo code or one that matches ^[A-Z0-9_]{4,20}$: CreateOrder
  -- answers 400 with VALIDATION_ERROR and at least one field error, and the session stays as it
  -- was.
  pub create_order-invalid :
      (role : String)
      → contains buyers role ≡ true
      → (limit caller : ℕ) (body : OrderCreate) (s : Session D)
      → ¬ (AreItems body.items × IsPromoCode body.promo_code)
      → (es : List FieldErr) × (es ≢ [])
        × (create_order env floats limit caller role body s ≡ (
          Outcome.refusal 400
              (record { error_code = validation_error; details = some (fields es) }),
          s,
        ))
  unfolding create_order unless require_role err_json ApiErr.new_with_details
  create_order-invalid role allowed limit caller body s bad =
      let v : Validator = check_promo_code body.promo_code (check_items body.items []) in
      elim (verdict_lem {D = D} v) [
        | inl h ↦ absurd (bad ((order_checks_iff body).0 h.1))
        | inr h ↦ (v, h.0, rw (allowed, h.1))
      ]
