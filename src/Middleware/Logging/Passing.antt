-- ===== src/Middleware/Logging/Passing.antt =====
-- What `Logger` of internal/middleware/logging.go hands to the next handler.
use soa_hw.Base.{
  ℕ, suc, zero, ◌≤◌, ◌≡◌, refl, ap, arith, List, [], ◌∷◌, length, Bool-cases, inl, inr,
}
use soa_hw.Base.Lists.{take}
use soa_hw.Middleware.Http.{Request}
use soa_hw.Middleware.Logging.{passed_on, reads_body, body_limit}

module _ (r : Request) where
  pub passed_on-method : (passed_on r).method ≡ r.method
  unfolding passed_on
  passed_on-method = ground arith

  pub passed_on-path : (passed_on r).path ≡ r.path
  unfolding passed_on
  passed_on-path = ground arith

  pub passed_on-authorization : (passed_on r).authorization ≡ r.authorization
  unfolding passed_on
  passed_on-authorization = ground arith

take-short : (n : ℕ) (xs : List ℕ) → length xs ≤ n → take n xs ≡ xs
unfolding take
take-short zero [] h = refl
take-short (suc n) [] h = refl
take-short zero (x ∷ xs) h = absurd (omega arith)
take-short (suc n) (x ∷ xs) h = ap (λ ys. x ∷ ys) (take-short n xs (omega arith))

-- A body of at most 64 KiB is handed on as it came.
pub passed_on-short : (r : Request) → length r.body ≤ body_limit → passed_on r ≡ r
unfolding passed_on
passed_on-short r h = elim (Bool-cases (reads_body r)) [
  | inl mutates ↦ rw mutates (ap (λ b. record r { body = b }) (take-short body_limit r.body h))
  | inr reads ↦ rw reads refl
]
