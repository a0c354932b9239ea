-- ===== src/Base/Texts.antt =====
-- The functions of package strings that the program calls.
use Prim.Native.Char.{code}
use Prim.Native.String.{String, ◌++◌}
use Prim.Native.Nat.{ℕ}
use mathlib.Core.Path.{◌≡◌, refl, ap}
use mathlib.Core.Bool.{Bool, true, false, ◌&&◌, ◌||◌}
use mathlib.Core.Option.{Option, none, some}
use native.Mathlib.Omega.{arith}
use text.Mathlib.TextLemmas.{nil-append, cons-append}
use soa_hw.Base.Tests.{◌==◌, if◌then◌else◌}

-- strings.HasPrefix and strings.Contains, with the text that is looked for in front
unfoldable pub has_prefix : String → String → Bool
has_prefix String.[] s = true
has_prefix (String.◌∷◌ p ps) String.[] = false
has_prefix (String.◌∷◌ p ps) (String.◌∷◌ c cs) = (code p == code c) && has_prefix ps cs

unfoldable pub contains : String → String → Bool
unfolding has_prefix
contains part String.[] = has_prefix part String.[]
contains part (String.◌∷◌ c cs) = has_prefix part (String.◌∷◌ c cs) || contains part cs

after_prefix : String → String → Option String
after_prefix String.[] s = some s
after_prefix (String.◌∷◌ p ps) String.[] = none
after_prefix (String.◌∷◌ p ps) (String.◌∷◌ c cs) =
    if code p == code c then after_prefix ps cs else none

abbrev or_all : String → Option String → String
or_all s none = s
or_all s (some rest) = rest

-- strings.TrimPrefix
unfoldable pub trim_prefix : String → String → String
unfolding after_prefix
trim_prefix p s = or_all s (after_prefix p s)

==_refl : (n : ℕ) → (n == n) ≡ true
==_refl n = ground arith

pub has_prefix-append : (p s : String) → has_prefix p (p ++ s) ≡ true
unfolding has_prefix
has_prefix-append String.[] s = refl
has_prefix-append (String.◌∷◌ p ps) s =
    rw (cons-append p ps s) (rw (==_refl (code p)) (has_prefix-append ps s))

after_prefix-append : (p s : String) → after_prefix p (p ++ s) ≡ some s
unfolding after_prefix
after_prefix-append String.[] s = ap some (nil-append s)
after_prefix-append (String.◌∷◌ p ps) s =
    rw (cons-append p ps s) (rw (==_refl (code p)) (after_prefix-append ps s))

pub trim_prefix-append : (p s : String) → trim_prefix p (p ++ s) ≡ s
unfolding trim_prefix
trim_prefix-append p s = rw (after_prefix-append p s) refl
