-- ===== src/Base/Int.antt =====
-- Signed integers over the native numbers, and Go's conversion to int32.
use mathlib.Core.Path.{◌≡◌}
use mathlib.Core.Bool.{Bool}
use Prim.Native.Nat.{ℕ, suc, ◌+◌, ◌-◌, ◌*◌, ◌%◌, ◌<◌}
use native.Mathlib.Omega.{arith}
use soa_hw.Base.Tests.{ltb, leb, if◌then◌else◌}

-- `negsuc n` stands for -(n + 1).
pub data ℤ : Type 0 where
  pos : ℕ → ℤ
  negsuc : ℕ → ℤ

-- What the number has above 0 and below 0.
abbrev pub above : ℤ → ℕ
above (pos n) = n
above (negsuc n) = 0

abbrev pub below : ℤ → ℕ
below (pos n) = 0
below (negsuc n) = suc n

abbrev pub sub_ℕ : ℕ → ℕ → ℤ
sub_ℕ a b = if leb b a then pos (a - b) else negsuc (b - a - 1)

-- a < b
abbrev pub ltb_ℤ : ℤ → ℤ → Bool
ltb_ℤ a b = ltb (above a + below b) (above b + below a)

infixl 70 ◌*ℤ◌
abbrev pub ◌*ℤ◌ : ℤ → ℤ → ℤ
a *ℤ b = sub_ℕ (above a * above b + below a * below b) (above a * below b + below a * above b)

abbrev pub two32 : ℕ
two32 = 4294967296

-- The bits that int32(…) keeps, and the number that they stand for.
abbrev pub low_word : ℤ → ℕ
low_word (pos n) = n % two32
low_word (negsuc n) = two32 - 1 - n % two32

abbrev pub signed : ℕ → ℤ
signed w = if ltb w 2147483648 then pos w else negsuc (two32 - 1 - w)

unfoldable pub to_int32 : ℤ → ℤ
to_int32 a = signed (low_word a)

-- A number in range is left as it is.
pub to_int32-pos : (n : ℕ) → n < 2147483648 → to_int32 (pos n) ≡ pos n
unfolding to_int32
to_int32-pos n h = ground arith
