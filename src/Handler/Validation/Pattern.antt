-- ===== src/Handler/Validation/Pattern.antt =====
-- `isPromoCodePattern` against the pattern ^[A-Z0-9_]{4,20}$ that it stands for.
use Prim.Native.Char.{Char, code, len_utf8, len_utf8_def, width}
use Prim.Native.Nat.{compare, Ordering}
use Prim.Native.String.{len}
use Prim.Native.String.len
use soa_hw.Base.{
  ℕ, suc, ◌<◌, ◌∙◌, ◌+◌, ◌≤◌, ◌≡◌, ◌↔◌, ◌⊎◌, inl, inr, Bool-cases, String, true, false, arith, refl,
  ltb, ◌||◌,
}
use soa_hw.Handler.Validation.{is_promo_code_pattern, all_runes, is_foreign_rune}

-- [A-Z0-9_]
abbrev pub IsCodeChar : ℕ → Type 0
IsCodeChar c = ((b'A' ≤ c) × (c ≤ b'Z')) ⊎ ((b'0' ≤ c) × (c ≤ b'9')) ⊎ (c ≡ b'_')

-- [A-Z0-9_]{n}
pub data IsCode : ℕ → String → Type 0 where
  done : IsCode 0 String.[]
  more :
      {n : ℕ} {c : Char} {s : String}
      → IsCodeChar (code c)
      → IsCode n s
      → IsCode (suc n) (String.◌∷◌ c s)

ascii : (c : Char) → code c < 128 → len_utf8 c ≡ 1
ascii c h =
    let e : len_utf8 c
        ≡ width (compare (code c) 128) (compare (code c) 2048) (compare (code c) 65536) =
      λ i. len_utf8_def c i in
    let small : compare (code c) 128 ≡ Ordering.lt = ground arith in e ∙ rw small

len-ascii : (c : Char) (s : String) → code c < 128 → len (String.◌∷◌ c s) ≡ suc (len s)
len-ascii c s h =
    let e : len (String.◌∷◌ c s) ≡ len_utf8 c + len s = λ i. len.cons c s i in
    omega (arith, e, ascii c h)

code_char : (c : ℕ) → is_foreign_rune c ≡ false → IsCodeChar c
code_char c h = elim (Bool-cases (ltb c b'A' || ltb b'Z' c)) [
  | inl outside ↦ elim (Bool-cases (ltb c b'0' || ltb b'9' c)) [
    | inl beyond ↦ inr (inr (ground arith))
    | inr digit ↦ inr (inl (ground arith, ground arith))
  ]
  | inr letter ↦ inl (ground arith, ground arith)
]

IsCodeChar-ascii : (c : ℕ) → IsCodeChar c → (c < 128) × (is_foreign_rune c ≡ false)
IsCodeChar-ascii c (inl h) = (ground arith, ground arith)
IsCodeChar-ascii c (inr (inl h)) = (ground arith, ground arith)
IsCodeChar-ascii c (inr (inr h)) = (ground arith, ground arith)

all_runes_sound : (s : String) → all_runes s ≡ true → IsCode (len s) s
unfolding all_runes
all_runes_sound String.[] h = done
all_runes_sound (String.◌∷◌ c s) h =
    let ch : IsCodeChar (code c) = code_char (code c) (ground arith) in
    rw (len-ascii c s (IsCodeChar-ascii _ ch).0) (more ch (all_runes_sound s (ground arith)))

all_runes_complete : {n : ℕ} {s : String} → IsCode n s → (all_runes s ≡ true) × (len s ≡ n)
unfolding all_runes
all_runes_complete done = (refl, refl)
all_runes_complete (more {c} {s} h k) =
    let (small, fits) = IsCodeChar-ascii (code c) h in
    let (runes, n) = all_runes_complete k in (rw fits runes, len-ascii c s small ∙ rw n)

-- A text passes isPromoCodePattern exactly if it consists of 4 to 20 characters that are each one
-- of A-Z, 0-9 and _.
pub is_promo_code_pattern_iff :
    (s : String) → (is_promo_code_pattern s ≡ true) ↔ ((n : ℕ) × IsCode n s × (4 ≤ n) × (n ≤ 20))
unfolding is_promo_code_pattern
is_promo_code_pattern_iff s = (
  λ h. (len s, all_runes_sound s (ground arith), ground arith, ground arith),
  λ p. let q = all_runes_complete p.1 in ground arith,
)
