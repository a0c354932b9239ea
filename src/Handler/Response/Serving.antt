-- ===== src/Handler/Response/Serving.antt =====
-- How an outcome of a handler is sent: `ResponseErrorHandler` of internal/handler/errors.go.
use soa_hw.Base.{ℕ, Bool, true, ◌≡◌, ◌∙◌, refl, ap}
use soa_hw.ApiErr.{Code, AppError, http_status_code}
use soa_hw.Store.Session.{
  Error, app, no_rows, tx_aborted, failed, constraint, Result, ok, err, Session,
}
use soa_hw.Store.Session.Errors.{IsAmong, Raises}
use soa_hw.Handler.Response.{
  switched, ErrorResponse, Outcome, Reply, sent, sent_error, serve, err_json, error_status,
  app_err_code, answered, failure,
}

module _ {D A : Type 0} where
  -- The answer that the status of each error calls for.
  abbrev pub expected : {B : Type 0} → ℕ → (B → A) → Result D B → Reply D A
  expected n f (ok b) = sent n (f b)
  expected n f (err e) = sent_error (error_status e) (err_json e)

  -- The answer to an application error, if it is refused with the status of its code.
  pub refused :
      (codes : Code → Bool) (a : AppError D) (o : Outcome D A)
      → IsAmong codes (app a)
      → (codes a.error_code ≡ true
          → o ≡ Outcome.refusal (http_status_code a.error_code) (err_json (app a)))
      → serve o ≡ sent_error (error_status (app a)) (err_json (app a))
  unfolding serve
  refused codes a o h same = ap serve (same h.0) ∙ rw h.1

  pub switch_answer :
      (codes : Code → Bool) (switch : Code → ErrorResponse D → Outcome D A → Outcome D A)
      → ((c : Code) (r : ErrorResponse D) (o : Outcome D A)
          → codes c ≡ true
          → switch c r o ≡ Outcome.refusal (http_status_code c) r)
      → ((r : ErrorResponse D) (o : Outcome D A) → switch Code.empty r o ≡ o)
      → (e : Error D) → IsAmong codes e
      → serve (switched switch e) ≡ sent_error (error_status e) (err_json e)
  unfolding serve app_err_code
  switch_answer codes switch same other (app a) h =
      refused codes a _ h (same a.error_code (err_json (app a)) (failure (app a)))
  switch_answer codes switch same other no_rows h = ap serve (other _ _)
  switch_answer codes switch same other tx_aborted h = ap serve (other _ _)
  switch_answer codes switch same other failed h = ap serve (other _ _)
  switch_answer codes switch same other (constraint c) h = ap serve (other _ _)

  pub call_answer :
      {B : Type 0} (codes : Code → Bool) (n : ℕ) (f : B → A) (bad : Error D → Outcome D A)
      (r : Result D B × Session D)
      → Raises codes r
      → ((e : Error D) → IsAmong codes e → serve (bad e) ≡ sent_error (error_status e) (err_json e))
      → serve (answered bad (λ b. Outcome.success n (f b)) r).0 ≡ expected n f r.0
  unfolding Raises serve
  call_answer codes n f bad (ok b, s) h same = refl
  call_answer codes n f bad (err e, s) h same = same e h
