-- ===== src/Store/Queries/Promos.antt =====
-- internal/db/queries/promo_codes.sql
use soa_hw.Base.{
  Bool, true, not, is_some, ◌∷◌, ℕ, ◌+◌, ◌-◌, String, str_eq, none, some, if◌then◌else◌, ltb,
}
use soa_hw.Base.Rows.{first_row, find_row, update_rows}
use soa_hw.Base.Int.{ℤ}
use soa_hw.Store.Env.{Decimals}
use soa_hw.Store.Schema.{PromoCode, DiscountType, parse_discount}
use soa_hw.Store.Session.{Query, ok, constraint, unique_violation, check_violation}
use soa_hw.Store.Queries.Checks.{
  promo_id, one, int4, require, enum_value, varchar, positive_amount, amount, int4_from_0, ◌>>=◌,
  ◌>>◌,
}

-- CreatePromoCodeParams; the number of uses is an int32.
pub record PromoParams (D : Type 0) : Type 0 where
  pub code : String
  pub discount_type : String
  pub discount_value : D
  pub min_order_amount : D
  pub max_uses : ℤ
  pub valid_from : ℕ
  pub valid_until : ℕ

module _ {D : Type 0} where
  abbrev pub issued_code : ℕ → PromoParams D → DiscountType → D → D → ℕ → PromoCode D
  issued_code uuid p type value least uses = record {
    id = uuid;
    code = p.code;
    discount_type = type;
    discount_value = value;
    min_order_amount = least;
    max_uses = uses;
    current_uses = 0;
    valid_from = p.valid_from;
    valid_until = p.valid_until;
    active = true;
  }

  unfoldable pub get_promo_code_by_code : String → Query D (PromoCode D)
  get_promo_code_by_code code uuid now db = do
    p ← one (first_row (λ p. str_eq p.code code) db.promo_codes)
    ok (p, db)

  unfoldable pub get_promo_code_by_id_for_update : ℕ → Query D (PromoCode D)
  get_promo_code_by_id_for_update id uuid now db = do
    p ← one (find_row promo_id id db.promo_codes)
    ok (p, db)

  abbrev pub add_use : PromoCode D → PromoCode D
  add_use p = record p { current_uses = p.current_uses + 1 }

  -- `AND current_uses > 0`
  abbrev pub drop_use : PromoCode D → PromoCode D
  drop_use p = if ltb 0 p.current_uses then record p { current_uses = p.current_uses - 1 } else p

  unfoldable pub increment_promo_uses : ℕ → Query D (Unit {0})
  increment_promo_uses id uuid now db = elim (find_row promo_id id db.promo_codes) [
    | none ↦ ok (tt, db)
    | some p ↦ do
      int4 (p.current_uses + 1)
      ok (tt, record db { promo_codes = update_rows promo_id id add_use db.promo_codes })
  ]

  unfoldable pub decrement_promo_uses : ℕ → Query D (Unit {0})
  decrement_promo_uses id uuid now db =
      ok (tt, record db { promo_codes = update_rows promo_id id drop_use db.promo_codes })

  abbrev pub has_code : String → PromoCode D → Bool
  has_code code p = str_eq p.code code

  unfoldable pub create_promo_code : Decimals D → PromoParams D → Query D (PromoCode D)
  create_promo_code dec p uuid now db = do
    type ← enum_value (parse_discount p.discount_type)
    varchar 20 p.code
    value ← positive_amount dec p.discount_value
    least ← amount dec p.min_order_amount
    uses ← int4_from_0 p.max_uses
    require (ltb 0 uses) (constraint check_violation)
    require (ltb p.valid_from p.valid_until) (constraint check_violation)
    require (not (is_some (find_row promo_id uuid db.promo_codes))) (constraint unique_violation)
    require (not (is_some (first_row (has_code p.code) db.promo_codes)))
        (constraint unique_violation)
    let row = issued_code uuid p type value least uses
    ok (row, record db { promo_codes = row ∷ db.promo_codes })
