-- ===== src/Examples/Auth.antt =====
-- `AuthService` in the small shop: its theorems at concrete inputs.
use soa_hw.Base.{◌≡◌, refl, arith, none, eq_iff}
use soa_hw.Base.Texts.{contains}
use soa_hw.Base.Rows.{find_row, first_row}
use soa_hw.ApiErr.{user_already_exists, invalid_credentials, refresh_token_invalid}
use soa_hw.Store.Schema.{User, user, parse_role, role_text}
use soa_hw.Store.Session.{err}
use soa_hw.Store.Session.Pool.{one_step}
use soa_hw.Store.Session.Laws.{Post}
use soa_hw.Store.Queries.Checks.{user_id}
use soa_hw.Orders.Types.{app_error}
use soa_hw.Auth.{default_role, issue_tokens, register, login, refresh_tokens}
use soa_hw.Auth.Access.{login-refused}
use soa_hw.Auth.Access.Issued.{Issues, issue_tokens-Issues}
use soa_hw.Auth.Access.Register.{register-login, register-taken}
use soa_hw.Auth.Refresh.{spent, refresh-once, issue-refresh}
use soa_hw.Examples.Data.{calm, still, plain, settings, shop, session, with_token, buyer, old_token}

login-refused_example :
    login calm plain settings "nobody" "hash" session
    ≡ (err (app_error invalid_credentials), one_step calm session)
unfolding first_row
login-refused_example = login-refused calm plain settings "nobody" "hash" session refl (λ u h. cc)

issue_tokens-Issues_example :
    Post
      (Issues calm plain settings 5 "USER" 1000000000000 shop)
      (issue_tokens calm plain settings 5 "USER" session)
issue_tokens-Issues_example = issue_tokens-Issues calm plain settings 5 "USER" session

register-login_example :
    Post
      (λ pair s.
        (u : User) × (role_text u.role ≡ default_role "")
        × (find_row user_id u.id shop.users ≡ none)
        × (login calm plain settings "new" "word" s
            ≡ issue_tokens calm plain settings u.id (role_text u.role) (one_step calm s)))
      (register calm plain settings "new" "word" "" session)
register-login_example =
    register-login calm plain settings "new" "word" "" session (λ k. refl)
      (λ salt hash e. ground (arith, eq_iff hash "word"))

register-taken_example :
    register calm plain settings "buyer" "word" "" session
    ≡ (err (app_error user_already_exists), one_step calm (one_step calm session))
unfolding contains parse_role first_row
register-taken_example =
    register-taken calm plain settings "buyer" "word" "" user "word" (buyer 5) session (λ k. refl)
      refl refl refl (omega arith) (omega arith) refl

refresh-once_example :
    Post
      (λ pair s.
        refresh_tokens still plain settings "old" s
        ≡ (err (app_error refresh_token_invalid), one_step still s))
      (refresh_tokens still plain settings "old" with_token)
unfolding first_row find_row
refresh-once_example =
    refresh-once still plain settings "old" old_token (buyer 5) with_token (λ k. refl)
      (λ k e. ground (arith, eq_iff "fresh" "old")) refl refl

issue-refresh_example :
    Post
      (λ pair s.
        refresh_tokens still plain settings pair.refresh_token s
        ≡ issue_tokens still plain settings 5 "USER"
            (spent still plain settings pair.refresh_token s))
      (issue_tokens still plain settings 5 "USER" session)
unfolding find_row role_text
issue-refresh_example =
    issue-refresh still plain settings 5 "USER" (buyer 5) session (λ k. refl) (λ k. omega arith)
      refl
