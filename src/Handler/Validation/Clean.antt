-- ===== src/Handler/Validation/Clean.antt =====
-- When `validator` of internal/handler/validation.go has nothing to say.
use soa_hw.Base.{
  ℕ, ◌≤◌, Bool, true, false, ◌≡◌, ◌≢◌, ◌↔◌, refl, arith, [], ◌∷◌, none, some, inl, inr, ◌⊎◌,
}
use soa_hw.Base.Int.{ℤ, pos, negsuc, ltb_ℤ}
use soa_hw.ApiErr.{Field, Message, fields, validation_error}
use soa_hw.Orders.Types.{app_error_with}
use soa_hw.Handler.Validation.{Validator, add_if, min_int, max_int, verdict}

-- An integer from `lo` to `hi`.
abbrev pub IsWithin : ℕ → ℕ → ℤ → Type 0
IsWithin lo hi (pos n) = (lo ≤ n) × (n ≤ hi)
IsWithin lo hi (negsuc n) = ⊥

pub add_if_clean :
    (failed : Bool) (f : Field) (m : Message) (v : Validator)
    → (add_if failed f m v ≡ []) ↔ ((failed ≡ false) × (v ≡ []))
add_if_clean false f m v = (λ h. (refl, h), λ h. h.1)
add_if_clean true f m [] = (λ h. cc, λ h. cc)
add_if_clean true f m (e ∷ es) = (λ h. cc, λ h. cc)

IsWithin-checks :
    (lo hi : ℕ) (q : ℤ)
    → (IsWithin lo hi q → (ltb_ℤ q (pos lo) ≡ false) × (ltb_ℤ (pos hi) q ≡ false))
      × ((ltb_ℤ q (pos lo) ≡ false) → (ltb_ℤ (pos hi) q ≡ false) → 1 ≤ lo → IsWithin lo hi q)
IsWithin-checks lo hi (pos n) =
    (λ h. (ground arith, ground arith), λ a b p. (ground arith, ground arith))
IsWithin-checks lo hi (negsuc n) = (λ h. absurd h, λ a b p. absurd (ground arith))

pub range_clean :
    (lo hi : ℕ) (f : Field) (q : ℤ) (v : Validator)
    → 1 ≤ lo
    → (max_int f q hi (min_int f q lo v) ≡ []) ↔ (IsWithin lo hi q × (v ≡ []))
unfolding max_int min_int
range_clean lo hi f q v p = (
  λ h.
      let (top, inner) = (add_if_clean (ltb_ℤ (pos hi) q) f _ _).0 h in
      let (bottom, clean) = (add_if_clean (ltb_ℤ q (pos lo)) f _ v).0 inner in
      ((IsWithin-checks lo hi q).1 bottom top p, clean),
  λ h.
      let (bottom, top) = (IsWithin-checks lo hi q).0 h.0 in
      (add_if_clean (ltb_ℤ (pos hi) q) f _ _).1
        (top, (add_if_clean (ltb_ℤ q (pos lo)) f _ v).1 (bottom, h.1)),
)

module _ {D : Type 0} where
  -- What the checks say: nothing, or a validation error with the field errors.
  pub verdict_lem :
      (v : Validator)
      → ((v ≡ []) × (verdict {D = D} v ≡ none))
        ⊎ ((v ≢ []) × (verdict {D = D} v ≡ some (app_error_with validation_error (fields v))))
  unfolding verdict
  verdict_lem [] = inl (refl, refl)
  verdict_lem (e ∷ es) = inr (λ h. cc, refl)

  pub clean-verdict : (v : Validator) → (verdict {D = D} v ≡ none) ↔ (v ≡ [])
  clean-verdict v = elim (verdict_lem v) [
    | inl h ↦ (λ e. h.0, λ e. h.1)
    | inr h ↦ (λ e. cc (h.1), λ e. absurd (h.0 e))
  ]
