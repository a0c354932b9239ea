-- ===== src/Orders/History/Book.antt =====
-- An abstract view of the orders: a book of who owns which order, and in which status it is.
use soa_hw.Base.{
  ℕ, ◌==◌, ◌≡◌, ◌∙◌, refl, sym, arith, ==_iff, true, false, Bool-cases, inl, inr, if◌then◌else◌,
  Option, none, some, List, [], ◌∷◌,
}
use mathlib.Core.Option
use soa_hw.Base.Rows.{first_row, find_row, update_rows, find_row-update_rows}
use soa_hw.Store.Schema.{Db, Order, OrderStatus, canceled}
use soa_hw.Store.Queries.{is_active, is_active_of}
use soa_hw.Store.Queries.Checks.{order_id}
use soa_hw.Orders.History.Steps.{Step, same, created, updated}

-- The owner and the status of each order.
abbrev pub Book : Type 0
Book = ℕ → Option (ℕ × OrderStatus)

abbrev entered : ℕ → ℕ × OrderStatus → Book → Book
entered id e b k = if id == k then some e else b k

-- What can happen to a book: nothing, a new order of a user who has no active one, and the
-- cancellation of an active order.
pub data Move (b b' : Book) : Type 0 where
  idle : ((k : ℕ) → b' k ≡ b k) → Move b b'
  opens :
      (id user : ℕ)
      → b id ≡ none
      → ((k : ℕ) (s : OrderStatus) → b k ≡ some (user, s) → is_active s ≡ false)
      → ((k : ℕ) → b' k ≡ entered id (user, OrderStatus.created) b k)
      → Move b b'
  closes :
      (id user : ℕ) (s : OrderStatus)
      → b id ≡ some (user, s)
      → is_active s ≡ true
      → ((k : ℕ) → b' k ≡ entered id (user, canceled) b k)
      → Move b b'

pub data Moves (b : Book) : Book → Type 0 where
  start : Moves b b
  then_move : {b' b'' : Book} → Moves b b' → Move b' b'' → Moves b b''

module _ {D : Type 0} where
  abbrev entry_of : Order D → ℕ × OrderStatus
  entry_of o = (o.user_id, o.status)

  -- The book that the tables stand for.
  abbrev pub book_of : Db D → Book
  book_of db k = Option.map entry_of (find_row order_id k db.orders)

  -- A user of whom no active order is found has none in the book.
  none_active :
      (user k : ℕ) (os : List (Order D)) (s : OrderStatus)
      → first_row (is_active_of user) os ≡ none
      → Option.map entry_of (find_row order_id k os) ≡ some (user, s)
      → is_active s ≡ false
  unfolding first_row find_row
  none_active user k [] s h e = cc
  none_active user k (o ∷ os) s h e = elim (Bool-cases (o.id == k)) [
    | inl here ↦
        let both : Path (Option (ℕ × OrderStatus)) (some (entry_of o)) (some (user, s)) =
          rw here at e in
        ground (arith, both, ==_iff o.user_id user)
    | inr other ↦ none_active user k os s (ground arith) (rw other at e)
  ]

  -- An update of one row, seen in the book.
  book-update :
      (id k : ℕ) (f : Order D → Order D) (os : List (Order D)) {o : Order D}
      → ((o : Order D) → (f o).id ≡ o.id)
      → find_row order_id id os ≡ some o
      → Option.map entry_of (find_row order_id k (update_rows order_id id f os))
        ≡ (if id == k then some (entry_of (f o)) else Option.map entry_of (find_row order_id k os))
  book-update id k f os {o} keeps found = elim (Bool-cases (id == k)) [
    | inl here ↦
        let at_k : find_row order_id k os ≡ some o = rw ((==_iff id k).0 here) at found in
        rw (find_row-update_rows order_id k id f os keeps, here, at_k) refl
    | inr other ↦ rw (find_row-update_rows order_id k id f os keeps, other) refl
  ]

  -- The row of an update that the book does not show.
  book-same :
      (id k : ℕ) (os : List (Order D)) {o : Order D}
      → find_row order_id id os ≡ some o
      → (if id == k then some (entry_of o) else Option.map entry_of (find_row order_id k os))
        ≡ Option.map entry_of (find_row order_id k os)
  book-same id k os {o} found = elim (Bool-cases (id == k)) [
    | inl here ↦
        let at_k : find_row order_id k os ≡ some o = rw ((==_iff id k).0 here) at found in
        rw (here, at_k) refl
    | inr other ↦ rw other refl
  ]

  -- A new row, seen in the book.
  book-insert :
      (k : ℕ) (o : Order D) (os : List (Order D))
      → Option.map entry_of (find_row order_id k (o ∷ os))
        ≡ (if o.id == k then some (entry_of o) else Option.map entry_of (find_row order_id k os))
  unfolding find_row
  book-insert k o os = elim (Bool-cases (o.id == k)) [
    | inl here ↦ rw here refl
    | inr other ↦ rw other refl
  ]

  pub Step-Move : (pid : ℕ) (db db' : Db D) → Step pid db db' → Move (book_of db) (book_of db')
  unfolding find_row
  Step-Move pid db db' (same e) = idle λ k. rw e refl
  Step-Move pid db db' (created i c) =
      opens c.order.id i.user_id (rw c.is_new.fresh refl)
        (λ k s e. none_active i.user_id k db.orders s c.none_before e)
        (λ k.
          rw c.orders
            (rw (sym c.is_new.owner, sym c.is_new.is_created) (book-insert k c.order db.orders)))
  Step-Move pid db db' (updated id o found act u) = idle λ k.
      rw u.orders (book-update id k _ db.orders (λ o. refl) found ∙ book-same id k db.orders found)
  Step-Move pid db db' (Step.canceled id o found act c) =
      closes id o.user_id o.status (rw found refl) act
        λ k. rw c.orders (book-update id k _ db.orders (λ o. refl) found)
