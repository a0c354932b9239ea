-- ===== src/Handler/Validation.antt =====
-- `validator` and `isPromoCodePattern` of internal/handler/validation.go. The validator is the list
-- of its field errors, and each check returns the new list.
pub mod Pattern
pub mod Clean
use Prim.Native.Char.{Char, code}
use Prim.Native.String.{count, len}
use soa_hw.Base.{
  ℕ, ◌+◌, String, Bool, true, false, not, ◌&&◌, ◌||◌, ltb, ◌==◌, if◌then◌else◌, List, [], ◌∷◌, ◌++◌,
  Option, none, some,
}
use soa_hw.Base.Int.{ℤ, pos, ltb_ℤ}
use soa_hw.ApiErr.{
  Field, named, Message, min_length, max_length, minimum_price, minimum, maximum, FieldErr, fields,
  validation_error,
}
use soa_hw.Store.Env.{Floats}
use soa_hw.Store.Session.{Error}
use soa_hw.Orders.Types.{app_error_with}

abbrev pub Validator : Type 0
Validator = List FieldErr

-- `if failed { v.errs = append(v.errs, fieldErr{field, message}) }`
abbrev pub add_if : Bool → Field → Message → Validator → Validator
add_if failed f m v = if failed then v ++ record { field = f; message = m } ∷ [] else v

unfoldable pub min_len : String → String → ℕ → Validator → Validator
min_len field value n = add_if (ltb (count value) n) (named field) (min_length n)

unfoldable pub max_len : String → String → ℕ → Validator → Validator
max_len field value n = add_if (ltb n (count value)) (named field) (max_length n)

-- `minFloat` with 0.01, the one bound that its callers give
unfoldable pub min_float : {D F : Type 0} → Floats D F → String → F → Validator → Validator
min_float floats field value =
    add_if (floats.less_than value floats.one_hundredth) (named field) minimum_price

unfoldable pub min_int : Field → ℤ → ℕ → Validator → Validator
min_int field value n = add_if (ltb_ℤ value (pos n)) field (minimum n)

unfoldable pub max_int : Field → ℤ → ℕ → Validator → Validator
max_int field value n = add_if (ltb_ℤ (pos n) value) field (maximum n)

-- `pattern`, with the description that its one caller gives
unfoldable pub pattern_check : String → String → (String → Bool) → Validator → Validator
pattern_check field value check =
    add_if (not (check value)) (named field) Message.promo_code_pattern

-- `v.err()`
unfoldable pub verdict : {D : Type 0} → Validator → Option (Error D)
verdict [] = none
verdict (e ∷ es) = some (app_error_with validation_error (fields (e ∷ es)))

-- The test of the loop over the runes.
abbrev is_foreign_rune : ℕ → Bool
is_foreign_rune c = (ltb c b'A' || ltb b'Z' c) && (ltb c b'0' || ltb b'9' c) && not (c == b'_')

all_runes : String → Bool
all_runes String.[] = true
all_runes (String.◌∷◌ c s) = if is_foreign_rune (code c) then false else all_runes s

-- `len` counts bytes.
unfoldable pub is_promo_code_pattern : String → Bool
unfolding all_runes
is_promo_code_pattern s = if ltb (len s) 4 || ltb 20 (len s) then false else all_runes s
