-- ===== src/Store/Queries/Checks.antt =====
-- Keys of the tables, and the checks that the writes share.
use soa_hw.Base.{ℕ, Bool, Option, none, some, ltb, if◌then◌else◌, ◌≡◌, refl}
use Prim.Native.String.{count}
use soa_hw.Base.{String}
use soa_hw.Base.Int.{ℤ, pos, negsuc}
use soa_hw.Store.Schema.{User, Product, PromoCode, Order, OrderItem, UserOperation}
use soa_hw.Store.Env.{Decimals}
use soa_hw.Store.Session.{
  Error, Result, ok, err, no_rows, constraint, check_violation, out_of_range, too_long,
  invalid_text,
}

abbrev pub user_id : User → ℕ
user_id u = u.id

abbrev pub operation_id : UserOperation → ℕ
operation_id o = o.id

module _ {D : Type 0} where
  abbrev pub product_id : Product D → ℕ
  product_id p = p.id

  abbrev pub promo_id : PromoCode D → ℕ
  promo_id p = p.id

  abbrev pub order_id : Order D → ℕ
  order_id o = o.id

  abbrev pub item_id : OrderItem D → ℕ
  item_id i = i.id

  -- A check that fails ends the statement.
  abbrev pub require : Bool → Error D → Result D (Unit {0})
  require holds e = if holds then ok tt else err e

  infixl 5 ◌>>=◌ ◌>>◌
  abbrev pub ◌>>=◌ : {A B : Type 0} → Result D A → (A → Result D B) → Result D B
  err e >>= next = err e
  ok found >>= next = next found

  abbrev pub ◌>>◌ : {B : Type 0} → Result D (Unit {0}) → Result D B → Result D B
  check >> next = check >>= λ _. next

  -- `:one` with no row is pgx.ErrNoRows.
  abbrev pub one : {A : Type 0} → Option A → Result D A
  one none = err no_rows
  one (some a) = ok a

  -- The range of the type INTEGER, for a value that is not negative.
  abbrev pub int4 : ℕ → Result D (Unit {0})
  int4 n = if ltb n 2147483648 then ok tt else err (constraint out_of_range)

  abbrev fits : Option D → Result D D
  fits none = err (constraint out_of_range)
  fits (some v) = ok v

  -- NUMERIC(12, 2) with CHECK (x >= 0), and with CHECK (x > 0)
  abbrev pub amount : Decimals D → D → Result D D
  amount dec d = do
    v ← fits (dec.numeric d)
    if dec.less_than v dec.zero then err (constraint check_violation) else ok v

  abbrev pub positive_amount : Decimals D → D → Result D D
  positive_amount dec d = do
    v ← fits (dec.numeric d)
    if dec.less_than dec.zero v then ok v else err (constraint check_violation)

  -- VARCHAR(n), but for an excess of blanks
  abbrev pub varchar : ℕ → String → Result D (Unit {0})
  varchar n s = if ltb n (count s) then err (constraint too_long) else ok tt

  abbrev pub varchar_null : ℕ → Option String → Result D (Unit {0})
  varchar_null n none = ok tt
  varchar_null n (some s) = varchar n s

  -- INTEGER with CHECK (x >= 0), for an int32
  abbrev pub int4_from_0 : ℤ → Result D ℕ
  int4_from_0 (pos n) = ok n
  int4_from_0 (negsuc n) = err (constraint check_violation)

  -- A text that stands for a value of an enum.
  abbrev pub enum_value : {A : Type 0} → Option A → Result D A
  enum_value none = err (constraint invalid_text)
  enum_value (some a) = ok a

  -- A statement that went through passed its first part.
  pub >>=-passed :
      {A B : Type 0} {result : B} (part : Result D A) (next : A → Result D B)
      → (part >>= next) ≡ ok result
      → (found : A) × (part ≡ ok found) × (next found ≡ ok result)
  >>=-passed (err e) next went = cc
  >>=-passed (ok found) next went = (found, refl, went)
