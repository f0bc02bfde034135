-- ===== src/Auth/Tests.antt =====
-- The login of internal/bridge/auth.go at concrete events.
use tg_bridge.Prelude.{◌≡◌, refl, true, false, none, some, List, [], ◌∷◌, ◌++◌, Str, codes, str_eq}
use tg_bridge.Auth.{
  idle, authorized, AuthErr, rpc, Event, status_ok, sent, send_failed, go_on, receive, status_is,
  send_code_is, sign_in_is, http_phone, http_code, answers, rpc_is, is_code_invalid, is_recoverable,
  recoverable_phone_errs, new_http_authenticator, submit_phone, submit_code, submit_password, step,
  run, start,
}
use tg_bridge.Auth.Prompt.{IsShown, run-IsShown}
use tg_bridge.Auth.Ends.{rejected, login_completes}

program : Unit {0}
unfolding rpc_is is_code_invalid is_recoverable recoverable_phone_errs new_http_authenticator
    submit_phone submit_code submit_password step run start str_eq
program = tt

abbrev phone : Str
phone = codes "+15551234567"

abbrev invalid_phone : AuthErr
invalid_phone = rpc (codes "PHONE_NUMBER_INVALID")

abbrev invalid_code : AuthErr
invalid_code = rpc (codes "PHONE_CODE_INVALID")

-- The phone is rejected: the error is set, and the prompt that follows takes it away.
abbrev until_rejected : List Event
until_rejected =
    answers (status_is (status_ok false))
    ∷ answers go_on
    ∷ http_phone phone
    ∷ answers receive
    ∷ answers (send_code_is (send_failed invalid_phone))
    ∷ []

error_set : (run start until_rejected).auth.last_err ≡ some invalid_phone
unfolding program
error_set = refl

error_cleared : (run start (until_rejected ++ (answers go_on ∷ []))).auth.last_err ≡ none
unfolding program
error_cleared = refl

-- A code is accepted while nothing has been asked for, and tried later.
early_code : ((submit_code start.auth (codes "11111")).1 ≡ true) × (start.auth.state ≡ idle)
unfolding program
early_code = (refl, refl)

run-IsShown_example : IsShown (run start until_rejected)
run-IsShown_example = run-IsShown until_rejected

-- A code that comes before the prompt for the phone, and stays until the prompt for the code.
abbrev to_code : List Event
to_code =
    answers (status_is (status_ok false))
    ∷ answers go_on
    ∷ http_phone phone
    ∷ answers receive
    ∷ answers (send_code_is (sent (codes "h")))
    ∷ answers go_on
    ∷ []

login_completes_example :
    (run start (
      answers (status_is (status_ok false))
      ∷ answers go_on
      ∷ http_phone phone
      ∷ answers receive
      ∷ answers (send_code_is (sent (codes "h")))
      ∷ answers go_on
      ∷ (rejected ((codes "1", invalid_code) ∷ [])
          ++ (http_code (codes "2")
              ∷ answers receive
              ∷ answers (sign_in_is none)
              ∷ answers go_on
              ∷ [])))).auth.state
    ≡ authorized
login_completes_example =
    login_completes phone (codes "h") (codes "2") ((codes "1", invalid_code) ∷ [])
      (unfold program in refl, tt)
