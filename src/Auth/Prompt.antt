-- ===== src/Auth/Prompt.antt =====
-- What `/v1/auth/status` shows while the login of internal/bridge/auth.go waits, and what becomes of
-- a submitted value.
use tg_bridge.Prelude.{◌≡◌, ◌≢◌, ◌⊎◌, refl, true, Option, none, some, List, [], ◌∷◌, Str, arith}
use tg_bridge.Auth.{
  AuthState, idle, need_phone, need_code, need_password, authorized, error, AuthErr, Authenticator,
  Pc, Login, Answer, Event, asking_status, enter_phone, at_phone, sending, enter_code, at_code,
  signing, enter_password, at_password, checking, finished, ended, go_on, receive, sign_in_is,
  http_phone, http_code, http_password, answers, is_code_invalid, advance, step, run, start,
}

-- A login that is on its way has not ended.
abbrev IsOpen : AuthState → Type 0
IsOpen s = (s ≢ authorized) × (s ≢ error)

-- What the status shows at each point of the procedure.
abbrev pub Shows : Pc → AuthState → Option AuthErr → Type 0
Shows asking_status s err = (s ≡ idle) × (err ≡ none)
Shows at_phone s err = (s ≡ need_phone) × (err ≡ none)
Shows (at_code phone hash) s err = (s ≡ need_code) × (err ≡ none)
Shows at_password s err = (s ≡ need_password) × (err ≡ none)
Shows (ended none) s err = (s ≡ authorized) × (err ≡ none)
Shows (ended (some e)) s err = (s ≡ error) × (err ≡ some e)
Shows enter_phone s err = IsOpen s
Shows (sending phone) s err = IsOpen s
Shows (enter_code phone hash) s err = IsOpen s
Shows (signing phone c hash) s err = IsOpen s
Shows enter_password s err = IsOpen s
Shows (checking p) s err = IsOpen s
Shows (finished r) s err = IsOpen s

abbrev pub IsShown : Login → Type 0
IsShown l = Shows l.pc l.auth.state l.auth.last_err

advance-IsShown :
    (pc : Pc) (x : Answer) (a : Authenticator)
    → Shows pc a.state a.last_err
    → IsShown (advance pc x a)
unfolding advance
advance-IsShown asking_status x a h = ground arith
advance-IsShown pc x a h = ground arith

pub step-IsShown : (l : Login) (e : Event) → IsShown l → IsShown (step l e)
unfolding step
step-IsShown l (http_phone p) h = ground arith
step-IsShown l (http_code c) h = ground arith
step-IsShown l (http_password p) h = ground arith
step-IsShown l (answers x) h = advance-IsShown l.pc x l.auth h

run_from-IsShown : (l : Login) (es : List Event) → IsShown l → IsShown (run l es)
unfolding run
run_from-IsShown l [] h = h
run_from-IsShown l (e ∷ es) h = run_from-IsShown (step l e) es (step-IsShown l e h)

-- After any events, while the login waits for a phone, a code or a password, the status is that
-- prompt's and shows no error; it is `authorized` just when the login has ended well, and `error`,
-- with the error, just when it has ended badly.
pub run-IsShown : (es : List Event) → IsShown (run start es)
unfolding start
run-IsShown es = run_from-IsShown start es (refl, refl)

-- A call of an HTTP handler.
abbrev pub IsHttp : Event → Type 0
IsHttp (http_phone p) = Unit
IsHttp (http_code c) = Unit
IsHttp (http_password p) = Unit
IsHttp (answers x) = ⊥

-- The login passes a point of a kind while it goes through the events.
abbrev pub Passes : (Pc → Type 0) → Login → List Event → Type 0
Passes P l [] = P l.pc
Passes P l (e ∷ es) = P l.pc ⊎ Passes P (step l e) es

-- The value has been received and is sent to Telegram: the phone, the code, or the password.
abbrev pub SendsPhone : Str → Pc → Type 0
SendsPhone v pc = pc ≡ sending v

abbrev pub SendsCode : Str → Pc → Type 0
SendsCode v pc = (phone : Str) × (hash : Str) × (pc ≡ signing phone v hash)

abbrev pub SendsPassword : Str → Pc → Type 0
SendsPassword v pc = pc ≡ checking v

-- After an invalid code the next code is tried with the same phone and the same code hash.
code_retry :
    (a : Authenticator) (phone hash c c' : Str) (e : AuthErr)
    → is_code_invalid e ≡ true
    → a.code_ch ≡ none
    → (run
        (record { pc = signing phone c hash; auth = a })
        (answers (sign_in_is (some e)) ∷ answers go_on ∷ http_code c' ∷ answers receive ∷ [])).pc
      ≡ signing phone c' hash
unfolding run step
code_retry a phone hash c c' e bad empty = ground arith
