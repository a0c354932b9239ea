-- ===== src/Examples/Data.antt =====
-- Decimals as whole cents, an environment without failures, and a small shop.
use soa_hw.Base.{
  ◌==◌, str_eq, String, ℕ, ◌+◌, ◌-◌, ◌*◌, ◌/◌, ltb, leb, true, false, none, some, [], ◌∷◌,
  if◌then◌else◌,
}
use soa_hw.Store.Schema.{
  User, user, Product, active, PromoCode, percentage, Order, created, OrderItem, RefreshToken, Db,
}
use soa_hw.Base.Int.{pos}
use soa_hw.Store.Env.{Decimals, Env, Floats}
use soa_hw.Products.{CreateProductInput, UpdateProductInput}
use soa_hw.Handler.Products.{ProductBody}
use soa_hw.Handler.Orders.{OrderCreate, OrderUpdate}
use soa_hw.Store.Session.{Session, Error, constraint, unique_violation}
use soa_hw.Auth.{Primitives, Settings}
use soa_hw.Orders.Types.{CreateOrderInput}

abbrev pub cents : Decimals ℕ
cents = record {
  zero = 0;
  new_from_int = λ n. n * 100;
  seven_tenths = 70;
  add = λ a b. a + b;
  sub = λ a b. a - b;
  mul = λ a b. a * b / 100;
  div = λ a b. a * 100 / b;
  greater_than = λ a b. ltb b a;
  less_than = ltb;
  greater_than_or_equal = λ a b. leb b a;
  numeric = λ a. if ltb a 1000000000000 then some a else none;
}

-- The clock moves by a second at each step.
abbrev pub calm : Env ℕ
calm = record {
  decimal = cents;
  clock = λ n. (n + 1000) * 1000000000;
  uuid = λ n. n + 100;
  fault = λ _. false;
  committed = λ _. false;
  ties = λ _ id. id;
}

abbrev pub mouse : Product ℕ
mouse = record {
  id = 1;
  name = "mouse";
  description = none;
  price = 4999;
  stock = 20;
  category = "accessories";
  status = active;
  seller_id = some 8;
  created_at = 0;
  updated_at = 0;
}

abbrev pub save20 : PromoCode ℕ
save20 = record {
  id = 30;
  code = "SAVE20";
  discount_type = percentage;
  discount_value = 2000;
  min_order_amount = 0;
  max_uses = 100;
  current_uses = 1;
  valid_from = 0;
  valid_until = 9000000000000;
  active = true;
}

abbrev pub old_order : Order ℕ
old_order = record {
  id = 40;
  user_id = 5;
  status = created;
  promo_code_id = some 30;
  total_amount = 7998;
  discount_amount = 2000;
  created_at = 0;
  updated_at = 0;
}

abbrev pub old_item : OrderItem ℕ
old_item = record { id = 50; order_id = 40; product_id = 1; quantity = 2; price_at_order = 4999 }

abbrev pub buyer : ℕ → User
buyer n = record { id = n; email = "buyer"; password_hash = "hash"; role = user; created_at = 0 }

-- Buyer 5 has an active order of two mice; buyer 6 has none.
abbrev pub shop : Db ℕ
shop = record {
  users = buyer 5 ∷ buyer 6 ∷ [];
  refresh_tokens = [];
  products = mouse ∷ [];
  promo_codes = save20 ∷ [];
  orders = old_order ∷ [];
  order_items = old_item ∷ [];
  user_operations = [];
}

abbrev pub session : Session ℕ
session = record { db = shop; step = 0; aborted = false; started = 0 }

abbrev pub three_mice : CreateOrderInput
three_mice = record {
  user_id = 6;
  items = record { product_id = 1; quantity = 3 } ∷ [];
  promo_code = some "SAVE20";
}

-- Amounts in cents stand for themselves as floats.
abbrev pub whole : Floats ℕ ℕ
whole = record {
  one_hundredth = 1;
  less_than = ltb;
  new_from_float = λ a. a;
  inexact_float64 = λ a. a;
  is_zero = λ a. a == 0;
}

-- What a seller sends.
abbrev pub lamp : CreateProductInput ℕ
lamp = record {
  name = "lamp";
  description = none;
  price = 1500;
  stock = pos 4;
  category = "home";
  seller_id = 6;
}

abbrev pub dearer_mouse : UpdateProductInput ℕ
dearer_mouse = record {
  name = "mouse";
  description = some "with a cable";
  price = 5999;
  stock = pos 7;
  category = "accessories";
  status = "INACTIVE";
}

abbrev pub basket : OrderCreate
basket = record { items = record { product_id = 1; quantity = pos 3 } ∷ []; promo_code = none }

abbrev pub new_basket : OrderUpdate
new_basket = record { items = record { product_id = 1; quantity = pos 4 } ∷ [] }

abbrev pub no_basket : OrderCreate
no_basket = record { items = []; promo_code = none }

-- Passwords and tokens that stand for themselves, and two texts of errors.
abbrev text_of : Error ℕ → String
text_of (constraint unique_violation) = "duplicate key value"
text_of _ = "error"

abbrev pub plain : Primitives ℕ
plain = record {
  generate_from_password = λ _ password. some password;
  compare_hash_and_password = str_eq;
  numeric_date = λ n. n;
  signed_string = λ _ claims. some claims.role;
  sha256_hex = λ token. token;
  new_token = λ _. "fresh";
  error_text = text_of;
}

abbrev pub settings : Settings
settings = record { jwt_secret = "secret"; access_ttl = 900000000000; refresh_ttl = 9000000000000 }

-- The clock stands still.
abbrev pub still : Env ℕ
still = record calm { clock = λ _. 5 }

abbrev pub old_token : RefreshToken
old_token = record { id = 70; user_id = 5; token_hash = "old"; expires_at = 9; created_at = 0 }

abbrev pub with_token : Session ℕ
with_token = record session { db = record shop { refresh_tokens = old_token ∷ [] } }

abbrev pub offer : ProductBody ℕ
offer = record {
  name = "lamp";
  description = some "warm";
  price = 1500;
  stock = pos 4;
  category = "home";
}
