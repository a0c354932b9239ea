-- ===== src/Products/Pages.antt =====
-- The pages that `ProductService.List` answers.
use mathlib.Core.List.{Perm}
use soa_hw.Base.{
  ℕ, suc, zero, ◌+◌, ◌*◌, ◌%◌, ◌<◌, ◌≡◌, ◌∙◌, refl, ap, arith, false, List, [], ◌++◌, length,
  Option, String,
}
use native.Mathlib.Nat.{mul-zero, zero-mul, suc-mul}
use soa_hw.Base.Int.{pos, to_int32, to_int32-pos, ◌*ℤ◌}
use soa_hw.Base.Lists.{take, drop, take-add}
use soa_hw.Base.Rows.{filter_rows}
use soa_hw.Store.Schema.{Db, Product}
use soa_hw.Store.Env.{Env}
use soa_hw.Store.Session.{Session, Result, ok, err, pure}
use soa_hw.Store.Session.Pool.{one_step, pool-ok, >>=-ok}
use soa_hw.Store.Queries.{list_products, count_products, newest_first, is_listed}
use soa_hw.Store.Queries.Catalog.Newest.{
  IsNewestFirst, IsNewestFirst-newest_first, Perm-newest_first, HaveOwnTimes, newest_first-rank,
}
use soa_hw.Products.{ListProductsInput, PagedProducts, list}

abbrev pub request : Option String → Option String → ℕ → ℕ → ListProductsInput
request status category page size = record {
  page = pos page;
  size = pos size;
  status = status;
  category = category;
}

times_pos : (a b : ℕ) → pos a *ℤ pos b ≡ pos (a * b)
times_pos a b =
    let left : a * b + 0 * 0 ≡ a * b = omega arith in
    let right : a * 0 + 0 * b ≡ 0 = rw (mul-zero, zero-mul) in ground arith

in_range : (a b : ℕ) → a * b < 2147483648 → to_int32 (pos a *ℤ pos b) ≡ pos (a * b)
in_range a b h = rw (times_pos a b) (to_int32-pos (a * b) h)

wrapped : (a b : ℕ) → (a * b) % 4294967296 ≡ 0 → to_int32 (pos a *ℤ pos b) ≡ pos 0
unfolding to_int32
wrapped a b h = rw (times_pos a b, h) refl

module _ {D : Type 0} where
  -- The products that the filters let through, the newest first, by `rank` within one time.
  abbrev pub listed : (ℕ → ℕ) → Option String → Option String → Db D → List (Product D)
  listed rank status category db =
      newest_first rank (filter_rows (is_listed status category) db.products)

  abbrev pub page_of : (ℕ → ℕ) → Option String → Option String → Db D → ℕ → ℕ → ℕ → PagedProducts D
  page_of rank status category db page size from = record {
    items = take size (drop from (listed rank status category db));
    total_elements = length (filter_rows (is_listed status category) db.products);
    page = pos page;
    size = pos size;
  }

  module _ (env : Env D) where
    -- The order within one time that the next query gets.
    abbrev pub rank_at : Session D → ℕ → ℕ
    rank_at s = env.ties (env.uuid s.step)

    items_query :
        (status category : Option String) (size from uuid now : ℕ) (db : Db D)
        → list_products env.ties status category (pos size) (pos from) uuid now db
          ≡ ok (take size (drop from (listed (env.ties uuid) status category db)), db)
    unfolding list_products
    items_query status category size from uuid now db = refl

    count_query :
        (status category : Option String) (uuid now : ℕ) (db : Db D)
        → count_products status category uuid now db
          ≡ ok (length (filter_rows (is_listed status category) db.products), db)
    unfolding count_products
    count_query status category uuid now db = refl

    -- With an offset of `from`, and no failure, List answers `size` products from there on.
    list-from :
        (status category : Option String) (page size from : ℕ) (s : Session D)
        → env.fault s.step ≡ false
        → env.fault (suc s.step) ≡ false
        → to_int32 (pos page *ℤ pos size) ≡ pos from
        → list env (request status category page size) s ≡ (
          ok (page_of (rank_at s) status category s.db page size from),
          one_step env (one_step env s),
        )
    unfolding list pure
    list-from status category page size from s good fine offset = rw offset (
        >>=-ok _ s _ (pool-ok env _ s good (items_query status category size from _ _ s.db))
        ∙ >>=-ok _ (one_step env s) _
            (pool-ok env _ (one_step env s) fine (count_query status category _ _ s.db)))

    abbrev items_of : Result D (PagedProducts D) → List (Product D)
    items_of (ok p) = p.items
    items_of (err e) = []

    -- The products of the first `n` pages, asked for one after the other.
    pub browse : Option String → Option String → ℕ → ℕ → Session D → List (Product D) × Session D
    browse status category size zero s = ([], s)
    browse status category size (suc n) s =
        let (seen, s1) = browse status category size n s in
        let (answer, s2) = list env (request status category n size) s1 in
        (seen ++ items_of answer, s2)

    browse-take :
        (rank : ℕ → ℕ) (status category : Option String) (size n : ℕ) (s : Session D)
        → ((k : ℕ) → env.fault k ≡ false)
        → n * size < 2147483648
        → HaveOwnTimes (filter_rows (is_listed status category) s.db.products)
        → ((browse status category size n s).0 ≡ take (n * size) (listed rank status category s.db))
          × ((browse status category size n s).1.db ≡ s.db)
    unfolding browse
    browse-take rank status category size zero s good small own =
        (rw zero-mul (unfold take in refl), refl)
    browse-take rank status category size (suc n) s good small own =
        let below : n * size < 2147483648 =
          let e : suc n * size ≡ n * size + size = suc-mul n size in omega (arith, e) in
        let (before, same) = browse-take rank status category size n s good below own in
        let s1 = (browse status category size n s).1 in
        let here =
          list-from status category n size (n * size) s1 (good _) (good _)
            (in_range n size below) in
        rw here (
          rw (before, same, suc-mul n size, newest_first-rank (rank_at s1) rank _ own)
              (take-add (n * size) size (listed rank status category s.db)),
          same,
        )

    -- In a database that does not fail, with n times size below 2 ^ 31, where no two of the
    -- products that the filters let through were created at one time: there is an order of them in
    -- which none is newer than one before it, the items of the first n pages that List answers,
    -- one after the other, are the first n times size of it, and nothing is written.
    pub browse-IsNewestFirst :
        (status category : Option String) (size n : ℕ) (s : Session D)
        → ((k : ℕ) → env.fault k ≡ false)
        → n * size < 2147483648
        → HaveOwnTimes (filter_rows (is_listed status category) s.db.products)
        → (ps : List (Product D)) × IsNewestFirst ps
          × Perm ps (filter_rows (is_listed status category) s.db.products)
          × ((browse status category size n s).0 ≡ take (n * size) ps)
          × ((browse status category size n s).1.db ≡ s.db)
    browse-IsNewestFirst status category size n s good small own =
        let (pages, unwritten) = browse-take (rank_at s) status category size n s good small own in
        (
          listed (rank_at s) status category s.db,
          IsNewestFirst-newest_first _ _,
          Perm-newest_first _ _,
          pages,
          unwritten,
        )

    -- In a database that does not fail: for a page whose number times its size is a multiple of 2
    -- ^ 32, List answers with the products of the first page, since the offset is an int32.
    pub list-wrapped :
        (status category : Option String) (page size : ℕ) (s : Session D)
        → ((k : ℕ) → env.fault k ≡ false)
        → (page * size) % 4294967296 ≡ 0
        → (list env (request status category page size) s).0
          ≡ ok (record (page_of (rank_at s) status category s.db page size 0) {
            items = take size (listed (rank_at s) status category s.db);
          })
    list-wrapped status category page size s good multiple =
        ap (λ r. r.0)
          (list-from status category page size 0 s (good _) (good _) (wrapped page size multiple))
        ∙ unfold drop in refl
