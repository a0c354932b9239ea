-- ===== src/Store/Schema.antt =====
-- The tables of internal/migrations/000001_init.up.sql, as sqlc.yaml gives them to Go. A uuid is a
-- number, a time is a number of nanoseconds, and NULL is `none`.
use soa_hw.Base.{ℕ, String, str_eq, Bool, Option, none, some, List, if◌then◌else◌}

pub data UserRole : Type 0 where
  user seller admin : UserRole

pub data ProductStatus : Type 0 where
  active inactive archived : ProductStatus

-- An enum's values as texts.
unfoldable pub status_text : ProductStatus → String
status_text active = "ACTIVE"
status_text inactive = "INACTIVE"
status_text archived = "ARCHIVED"

unfoldable pub parse_status : String → Option ProductStatus
parse_status s =
    if str_eq s "ACTIVE"
    then some active
    else if str_eq s "INACTIVE"
    then some inactive
    else if str_eq s "ARCHIVED"
    then some archived
    else none

unfoldable pub role_text : UserRole → String
role_text user = "USER"
role_text seller = "SELLER"
role_text admin = "ADMIN"

unfoldable pub parse_role : String → Option UserRole
parse_role s =
    if str_eq s "USER"
    then some user
    else if str_eq s "SELLER"
    then some seller
    else if str_eq s "ADMIN"
    then some admin
    else none

pub data OrderStatus : Type 0 where
  created payment_pending paid shipped completed canceled : OrderStatus

pub data DiscountType : Type 0 where
  percentage fixed_amount : DiscountType

unfoldable pub parse_discount : String → Option DiscountType
parse_discount s =
    if str_eq s "PERCENTAGE"
    then some percentage
    else if str_eq s "FIXED_AMOUNT"
    then some fixed_amount
    else none

pub data OperationType : Type 0 where
  create_order update_order : OperationType

pub record User : Type 0 where
  pub id : ℕ
  pub email : String
  pub password_hash : String
  pub role : UserRole
  pub created_at : ℕ

pub record RefreshToken : Type 0 where
  pub id : ℕ
  pub user_id : ℕ
  pub token_hash : String
  pub expires_at : ℕ
  pub created_at : ℕ

-- `D` is the type of decimals.
pub record Product (D : Type 0) : Type 0 where
  pub id : ℕ
  pub name : String
  pub description : Option String
  pub price : D
  pub stock : ℕ
  pub category : String
  pub status : ProductStatus
  pub seller_id : Option ℕ
  pub created_at : ℕ
  pub updated_at : ℕ

pub record PromoCode (D : Type 0) : Type 0 where
  pub id : ℕ
  pub code : String
  pub discount_type : DiscountType
  pub discount_value : D
  pub min_order_amount : D
  pub max_uses : ℕ
  pub current_uses : ℕ
  pub valid_from : ℕ
  pub valid_until : ℕ
  pub active : Bool

pub record Order (D : Type 0) : Type 0 where
  pub id : ℕ
  pub user_id : ℕ
  pub status : OrderStatus
  pub promo_code_id : Option ℕ
  pub total_amount : D
  pub discount_amount : D
  pub created_at : ℕ
  pub updated_at : ℕ

pub record OrderItem (D : Type 0) : Type 0 where
  pub id : ℕ
  pub order_id : ℕ
  pub product_id : ℕ
  pub quantity : ℕ
  pub price_at_order : D

pub record UserOperation : Type 0 where
  pub id : ℕ
  pub user_id : ℕ
  pub operation_type : OperationType
  pub created_at : ℕ

pub record Db (D : Type 0) : Type 0 where
  pub users : List User
  pub refresh_tokens : List RefreshToken
  pub products : List (Product D)
  pub promo_codes : List (PromoCode D)
  pub orders : List (Order D)
  pub order_items : List (OrderItem D)
  pub user_operations : List UserOperation
