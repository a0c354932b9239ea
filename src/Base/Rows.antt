-- ===== src/Base/Rows.antt =====
-- Rows of a table under a numeric column: the first row that matches, and UPDATE … WHERE.
use mathlib.Core.Path.{◌≡◌}
use mathlib.Core.Bool.{Bool, true}
use mathlib.Core.Option
use mathlib.Core.Option.{Option, none, some}
use mathlib.Core.List.{List, [], ◌∷◌}
use Prim.Native.Nat.{ℕ}
use native.Mathlib.Omega.{arith}
use soa_hw.Base.Tests.{◌==◌, if◌then◌else◌, is_some}

module _ {ℓ} {R : Type ℓ} where
  -- SELECT … WHERE test LIMIT 1
  unfoldable pub first_row : (R → Bool) → List R → Option R
  first_row test [] = none
  first_row test (r ∷ rs) = if test r then some r else first_row test rs

  -- SELECT … WHERE test
  unfoldable pub filter_rows : (R → Bool) → List R → List R
  filter_rows test [] = []
  filter_rows test (r ∷ rs) = if test r then r ∷ filter_rows test rs else filter_rows test rs

  module _ (key : R → ℕ) where
    -- SELECT … WHERE key = k LIMIT 1
    unfoldable pub find_row : ℕ → List R → Option R
    find_row k [] = none
    find_row k (r ∷ rs) = if key r == k then some r else find_row k rs

    -- UPDATE … SET f WHERE key = k
    unfoldable pub update_rows : ℕ → (R → R) → List R → List R
    update_rows k f [] = []
    update_rows k f (r ∷ rs) = (if key r == k then f r else r) ∷ update_rows k f rs

    -- An update that keeps the key acts on the row found under it, and on no other.
    pub find_row-update_rows :
        (j k : ℕ) (f : R → R) (rs : List R)
        → ((r : R) → key (f r) ≡ key r)
        → find_row j (update_rows k f rs)
          ≡ (if k == j then Option.map f (find_row j rs) else find_row j rs)
    unfolding find_row update_rows
    find_row-update_rows j k f [] keeps = ground arith
    find_row-update_rows j k f (r ∷ rs) keeps =
        ground (arith, keeps r, find_row-update_rows j k f rs keeps)

    -- A row that some search finds can be found under its own key.
    pub first_row-find_row :
        (test : R → Bool) (rs : List R) (r : R)
        → first_row test rs ≡ some r
        → is_some (find_row (key r) rs) ≡ true
    unfolding first_row find_row
    first_row-find_row test [] r e = cc
    first_row-find_row test (x ∷ rs) r e = ground (arith, first_row-find_row test rs r)
