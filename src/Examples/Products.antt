-- ===== src/Examples/Products.antt =====
-- `ProductService` in the small shop: its theorems at concrete inputs.
use mathlib.Core.List.{Perm}
use soa_hw.Base.{ℕ, List, [], ◌∷◌, ◌≡◌, ◌≢◌, refl, arith, none, some}
use soa_hw.Base.Rows.{find_row, filter_rows}
use soa_hw.Base.Lists.{take}
use soa_hw.Store.Schema.{archived, Product}
use soa_hw.Store.Session.{Session, ok, err}
use soa_hw.Store.Session.Pool.{one_step}
use soa_hw.Store.Session.Laws.{Post}
use soa_hw.Store.Queries.{is_listed}
use soa_hw.Store.Queries.Catalog.Newest.{IsNewestFirst}
use soa_hw.Store.Queries.Checks.{product_id}
use soa_hw.Products.{get_by_id, create, update, delete, list}
use soa_hw.Products.Access.{denial, seller_denied}
use soa_hw.Products.Changes.{Changes, writes-Changes, create-get}
use soa_hw.Products.Pages.{
  rank_at, listed, request, page_of, browse, browse-IsNewestFirst, list-wrapped,
}
use soa_hw.Examples.Data.{calm, whole, shop, session, mouse, lamp, dearer_mouse}

seller_denied_example :
    (update calm whole 1 dearer_mouse 9 "SELLER" session
      ≡ (err (denial calm session), one_step calm session))
    × (delete calm 1 9 "SELLER" session ≡ (err (denial calm session), one_step calm session))
unfolding find_row
seller_denied_example =
    seller_denied calm whole 1 9 dearer_mouse mouse session refl (λ h. ground arith)

writes-Changes_example :
    Post (Changes 1 8 "SELLER" shop) (update calm whole 1 dearer_mouse 8 "SELLER" session)
    × Post
        (λ p s. Changes 1 8 "SELLER" shop p s × (p.status ≡ archived))
        (delete calm 1 8 "SELLER" session)
writes-Changes_example = writes-Changes calm whole 1 8 "SELLER" dearer_mouse session

create-get_example :
    Post
      (λ p s.
        (get_by_id calm p.id s ≡ (ok p, one_step calm s))
        × (p.seller_id ≡ some 6)
        × (find_row product_id p.id shop.products ≡ none)
        × ((j : ℕ)
            → j ≢ p.id
            → find_row product_id j s.db.products ≡ find_row product_id j shop.products))
      (create calm whole lamp session)
create-get_example = create-get calm whole lamp session (λ k. refl)

-- A second, newer mouse, and a shop with both.
abbrev new_mouse : Product ℕ
new_mouse = record mouse { id = 2; created_at = 7 }

abbrev mice : Session ℕ
mice = record session { db = record shop { products = mouse ∷ new_mouse ∷ [] } }

browse-IsNewestFirst_example :
    (ps : List (Product ℕ)) × IsNewestFirst ps
    × Perm ps (filter_rows (is_listed none (some "accessories")) mice.db.products)
    × ((browse calm none (some "accessories") 1 2 mice).0 ≡ take 2 ps)
    × ((browse calm none (some "accessories") 1 2 mice).1.db ≡ mice.db)
unfolding filter_rows
browse-IsNewestFirst_example =
    browse-IsNewestFirst calm none (some "accessories") 1 2 mice (λ k. refl) (omega arith)
      (((λ e. ground arith), tt), (tt, tt))

list-wrapped_example :
    (list calm (request none none 1073741824 4) session).0
    ≡ ok (record (page_of (rank_at calm session) none none shop 1073741824 4 0) {
      items = take 4 (listed (rank_at calm session) none none shop);
    })
list-wrapped_example = list-wrapped calm none none 1073741824 4 session (λ k. refl) refl
