-- ===== src/App/Elsewhere.antt =====
-- What the endpoints of accounts, products and promo codes leave as it was, for the orders.
pub mod Rules
pub mod Services
use soa_hw.Base.{
  ℕ, String, Bool, true, false, is_some, ◌≡◌, ◌∙◌, refl, ap, sym, arith, Option, some, none, ◌∷◌,
  ==_iff,
}
use soa_hw.Base.Int.{ℤ}
use soa_hw.Base.Rows.{find_row, update_rows, find_row-update_rows}
use soa_hw.Store.Schema.{Db, Product, PromoCode, parse_status}
use soa_hw.Store.Env.{Env, Decimals}
use soa_hw.Store.Session.Frame.{Stays}
use soa_hw.Store.Queries.{
  create_user, get_user_by_email, create_refresh_token, get_refresh_token, delete_refresh_token,
  create_product, update_product, archive_product, list_products, count_products, get_product_by_id,
  create_promo_code, ProductParams, PromoParams, column_values, shelved, with_values,
}
use soa_hw.Store.Queries.Checks.{promo_id, product_id, >>=-passed, enum_value, one}
use soa_hw.Orders.Supply.Stock.{IsListed, update_rows-IsListed}

module _ {D : Type 0} where
  -- Orders and items as before, listed products still listed, and each promo code that was there
  -- as it was.
  pub record Elsewhere (db db' : Db D) : Type 0 where
    pub orders : db'.orders ≡ db.orders
    pub order_items : db'.order_items ≡ db.order_items
    pub listed : (pid : ℕ) → IsListed pid db.products → IsListed pid db'.products
    pub codes :
        (code : ℕ)
        → is_some (find_row promo_id code db.promo_codes) ≡ true
        → find_row promo_id code db'.promo_codes ≡ find_row promo_id code db.promo_codes

  pub Elsewhere-refl : (db : Db D) → Elsewhere db db
  Elsewhere-refl db = record {
    orders = refl;
    order_items = refl;
    listed = λ pid l. l;
    codes = λ code l. refl;
  }

  pub Elsewhere-trans : (a b c : Db D) → Elsewhere a b → Elsewhere b c → Elsewhere a c
  Elsewhere-trans a b c h k = record {
    orders = k.orders ∙ h.orders;
    order_items = k.order_items ∙ h.order_items;
    listed = λ pid l. k.listed pid (h.listed pid l);
    codes = λ code l. k.codes code (rw (h.codes code l) l) ∙ h.codes code l;
  }

  -- Only users and refresh tokens are written.
  accounts_only :
      (db db' : Db D)
      → db'.orders ≡ db.orders
      → db'.order_items ≡ db.order_items
      → db'.products ≡ db.products
      → db'.promo_codes ≡ db.promo_codes
      → Elsewhere db db'
  accounts_only db db' o i p c = record {
    orders = o;
    order_items = i;
    listed = λ pid l. rw p l;
    codes = λ code l. rw c refl;
  }

  pub create_user-Stays :
      (email hash role : String) → Stays Elsewhere (create_user {D = D} email hash role)
  unfolding create_user
  create_user-Stays email hash role uuid now db a db' h =
      accounts_only db db' (ground arith) (ground arith) (ground arith) (ground arith)

  pub get_user_by_email-Stays : (email : String) → Stays Elsewhere (get_user_by_email {D = D} email)
  unfolding get_user_by_email
  get_user_by_email-Stays email uuid now db a db' h =
      accounts_only db db' (ground arith) (ground arith) (ground arith) (ground arith)

  pub create_refresh_token-Stays :
      (user : ℕ) (hash : String) (expires : ℕ)
      → Stays Elsewhere (create_refresh_token {D = D} user hash expires)
  unfolding create_refresh_token
  create_refresh_token-Stays user hash expires uuid now db a db' h =
      accounts_only db db' (ground arith) (ground arith) (ground arith) (ground arith)

  pub get_refresh_token-Stays : (hash : String) → Stays Elsewhere (get_refresh_token {D = D} hash)
  unfolding get_refresh_token
  get_refresh_token-Stays hash uuid now db a db' h =
      accounts_only db db' (ground arith) (ground arith) (ground arith) (ground arith)

  pub delete_refresh_token-Stays :
      (hash : String) → Stays Elsewhere (delete_refresh_token {D = D} hash)
  unfolding delete_refresh_token
  delete_refresh_token-Stays hash uuid now db a db' h =
      accounts_only db db' (ground arith) (ground arith) (ground arith) (ground arith)

  pub get_product_by_id-Stays : (id : ℕ) → Stays Elsewhere (get_product_by_id {D = D} id)
  unfolding get_product_by_id
  get_product_by_id-Stays id uuid now db a db' h =
      accounts_only db db' (ground arith) (ground arith) (ground arith) (ground arith)

  pub list_products-Stays :
      (ties : ℕ → ℕ → ℕ) (status category : Option String) (limit offset : ℤ)
      → Stays Elsewhere (list_products {D = D} ties status category limit offset)
  unfolding list_products
  list_products-Stays ties status category limit offset uuid now db a db' h =
      accounts_only db db' (ground arith) (ground arith) (ground arith) (ground arith)

  pub count_products-Stays :
      (status category : Option String) → Stays Elsewhere (count_products {D = D} status category)
  unfolding count_products
  count_products-Stays status category uuid now db a db' h =
      accounts_only db db' (ground arith) (ground arith) (ground arith) (ground arith)

  -- Only products are written, and those that were there are there.
  products_only :
      (db db' : Db D)
      → db'.orders ≡ db.orders
      → db'.order_items ≡ db.order_items
      → db'.promo_codes ≡ db.promo_codes
      → ((pid : ℕ) → IsListed pid db.products → IsListed pid db'.products)
      → Elsewhere db db'
  products_only db db' o i c p = record {
    orders = o;
    order_items = i;
    listed = p;
    codes = λ code l. rw c refl;
  }

  pub create_product-Stays :
      (dec : Decimals D) (p : ProductParams D) (seller : Option ℕ)
      → Stays Elsewhere (create_product dec p seller)
  unfolding create_product find_row
  create_product-Stays dec p seller uuid now db a db' h =
      products_only db db' (ground arith) (ground arith) (ground arith) (λ pid l. ground arith)

  pub update_product-Stays :
      (dec : Decimals D) (id : ℕ) (p : ProductParams D) → Stays Elsewhere (update_product dec id p)
  unfolding update_product
  update_product-Stays dec id p uuid now db a db' h =
      let (status, same, h1) = >>=-passed (enum_value (parse_status p.status)) _ h in
      let (r, e, h2) = >>=-passed (one (find_row product_id id db.products)) _ h1 in
      let (v, fit, h3) = >>=-passed (column_values dec p) _ h2 in
      let tables : db'
          ≡ record db { products = update_rows product_id id (with_values now p v) db.products } =
        cc (h3) in
      rw tables (
        products_only db _ refl refl refl
          (λ pid l. update_rows-IsListed pid id (with_values now p v) db.products (λ r. refl) l))

  pub archive_product-Stays : (id : ℕ) → Stays Elsewhere (archive_product {D = D} id)
  unfolding archive_product
  archive_product-Stays id uuid now db a db' h =
      products_only db db' (ground arith) (ground arith) (ground arith) (λ pid l.
        ground (arith, update_rows-IsListed pid id (shelved now) db.products (λ r. refl) l))

  pub create_promo_code-Stays :
      (dec : Decimals D) (p : PromoParams D) → Stays Elsewhere (create_promo_code dec p)
  unfolding create_promo_code find_row
  create_promo_code-Stays dec p uuid now db a db' h = record {
    orders = ground arith;
    order_items = ground arith;
    listed = λ pid l. ground arith;
    codes = λ code l. ground (arith, ==_iff uuid code);
  }
