-- ===== src/Base/Keys.antt =====
-- Tables whose rows have distinct keys, and the number of rows that pass a test.
use mathlib.Core.Path.{◌≡◌, refl, subst}
use mathlib.Core.Bool.{Bool}
use mathlib.Core.Option.{none, some}
use mathlib.Core.Logic.{inl, inr}
use mathlib.Core.List.{List, [], ◌∷◌}
use Prim.Native.Nat.{ℕ, ◌+◌}
use native.Mathlib.Omega.{arith}
use soa_hw.Base.Tests.{◌==◌, ==_iff, if◌then◌else◌, Bool-cases}
use soa_hw.Base.Rows.{first_row, find_row, update_rows}

module _ {ℓ} {R : Type ℓ} where
  -- SELECT COUNT(*) … WHERE test
  unfoldable pub count_rows : (R → Bool) → List R → ℕ
  count_rows test [] = 0
  count_rows test (r ∷ rs) = (if test r then 1 else 0) + count_rows test rs

  pub count_rows-first_row :
      (test : R → Bool) (rs : List R) → first_row test rs ≡ none → count_rows test rs ≡ 0
  unfolding count_rows first_row
  count_rows-first_row test [] e = refl
  count_rows-first_row test (r ∷ rs) e = ground (arith, count_rows-first_row test rs)

  module _ (key : R → ℕ) where
    -- PRIMARY KEY
    abbrev pub IsKeyed : List R → Type ℓ
    IsKeyed [] = Unit
    IsKeyed (r ∷ rs) = (find_row key (key r) rs ≡ none) × IsKeyed rs

    -- An update of no row changes nothing.
    pub update_rows-missing :
        (k : ℕ) (f : R → R) (rs : List R) → find_row key k rs ≡ none → update_rows key k f rs ≡ rs
    unfolding find_row update_rows
    update_rows-missing k f [] e = refl
    update_rows-missing k f (r ∷ rs) e = ground (arith, update_rows-missing k f rs)

    find_row-update_missing :
        (j k : ℕ) (f : R → R) (rs : List R)
        → ((r : R) → key (f r) ≡ key r)
        → find_row key j rs ≡ none
        → find_row key j (update_rows key k f rs) ≡ none
    unfolding find_row update_rows
    find_row-update_missing j k f [] keeps e = refl
    find_row-update_missing j k f (r ∷ rs) keeps e =
        ground (arith, keeps r, find_row-update_missing j k f rs keeps)

    pub update_rows-IsKeyed :
        (k : ℕ) (f : R → R) (rs : List R)
        → ((r : R) → key (f r) ≡ key r)
        → IsKeyed rs
        → IsKeyed (update_rows key k f rs)
    unfolding update_rows
    update_rows-IsKeyed k f [] keeps h = tt
    update_rows-IsKeyed k f (r ∷ rs) keeps h = (
      ground (arith, keeps r, find_row-update_missing (key r) k f rs keeps h.0),
      update_rows-IsKeyed k f rs keeps h.1,
    )

    -- Among distinct keys, an update moves the count by what it does to the one row.
    pub count_rows-update_rows :
        (test : R → Bool) (k : ℕ) (f : R → R) (rs : List R) {r : R}
        → IsKeyed rs
        → find_row key k rs ≡ some r
        → count_rows test (update_rows key k f rs) + (if test r then 1 else 0)
          ≡ count_rows test rs + (if test (f r) then 1 else 0)
    unfolding count_rows find_row update_rows
    count_rows-update_rows test k f [] h e = cc
    count_rows-update_rows test k f (x ∷ rs) {r} h e = elim (Bool-cases (key x == k)) [
      | inl here ↦
          let missing : find_row key k rs ≡ none =
            subst (λ j. find_row key j rs ≡ none) ((==_iff (key x) k).0 here) h.0 in
          rw (here, update_rows-missing k f rs missing) (ground arith)
      | inr later ↦
          rw later (ground (arith, count_rows-update_rows test k f rs {r = r} h.1 (rw later at e)))
    ]
