-- ===== src/Products.antt =====
-- internal/service/products.go: the methods of `ProductService`. It opens no transaction.
pub mod Access
pub mod Errors
pub mod Changes
pub mod Pages
use soa_hw.Base.{ℕ, String, str_eq, Bool, true, false, not, ◌&&◌, ◌==◌, Option, none, some, List}
use soa_hw.Base.Int.{ℤ, ◌*ℤ◌, to_int32}
use soa_hw.ApiErr.{product_not_found, access_denied}
use soa_hw.Store.Schema.{Product}
use soa_hw.Store.Env.{Env, Floats}
use soa_hw.Store.Session.{Action, raise_if, pure, or_no_rows, pool, ◌>>=◌, ◌>>◌}
use soa_hw.Store.Queries.{
  get_product_by_id, ProductParams, create_product, update_product, archive_product, list_products,
  count_products,
}
use soa_hw.Orders.Types.{app_error}

pub record CreateProductInput (F : Type 0) : Type 0 where
  pub name : String
  pub description : Option String
  pub price : F
  pub stock : ℤ
  pub category : String
  pub seller_id : ℕ

pub record UpdateProductInput (F : Type 0) : Type 0 where
  pub name : String
  pub description : Option String
  pub price : F
  pub stock : ℤ
  pub category : String
  pub status : String

pub record ListProductsInput : Type 0 where
  pub page : ℤ
  pub size : ℤ
  pub status : Option String
  pub category : Option String

pub record PagedProducts (D : Type 0) : Type 0 where
  pub items : List (Product D)
  pub total_elements : ℕ
  pub page : ℤ
  pub size : ℤ

-- `existing.SellerID.Valid && sellerID == callerID`
abbrev pub is_owner : ℕ → Option ℕ → Bool
is_owner caller none = false
is_owner caller (some seller) = seller == caller

abbrev pub is_denied : String → ℕ → Option ℕ → Bool
is_denied role caller seller = str_eq role "SELLER" && not (is_owner caller seller)

module _ {D : Type 0} (env : Env D) where
  -- `GetByID`
  unfoldable pub get_by_id : ℕ → Action D (Product D)
  get_by_id id = or_no_rows (pool env (get_product_by_id id)) (app_error product_not_found)

  -- The part that `Update` and `Delete` begin with.
  unfoldable pub check_owner : ℕ → ℕ → String → Action D (Unit {0})
  unfolding get_by_id
  check_owner id caller role = do
    existing ← get_by_id id
    raise_if (is_denied role caller existing.seller_id) (app_error access_denied)

  -- `Delete`
  unfoldable pub delete : ℕ → ℕ → String → Action D (Product D)
  delete id caller role = do check_owner id caller role; pool env (archive_product id)

  -- `List`: the product of the page and the size is an int32.
  unfoldable pub list : ListProductsInput → Action D (PagedProducts D)
  list input = do
    items ← pool env (
        list_products env.ties input.status input.category input.size
          (to_int32 (input.page *ℤ input.size)))
    total ← pool env (count_products input.status input.category)
    pure record { items = items; total_elements = total; page = input.page; size = input.size }

  module _ {F : Type 0} (floats : Floats D F) where
    open floats use {new_from_float}

    -- `Create`
    unfoldable pub create : CreateProductInput F → Action D (Product D)
    create input = pool env (
        create_product env.decimal
          (record {
            name = input.name;
            description = input.description;
            price = new_from_float input.price;
            stock = input.stock;
            category = input.category;
            status = "ACTIVE";
          })
          (some input.seller_id))

    -- `Update`
    unfoldable pub update : ℕ → UpdateProductInput F → ℕ → String → Action D (Product D)
    update id input caller role = do
      check_owner id caller role
      pool env (
          update_product env.decimal id (record {
            name = input.name;
            description = input.description;
            price = new_from_float input.price;
            stock = input.stock;
            category = input.category;
            status = input.status;
          }))
