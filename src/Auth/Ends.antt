-- ===== src/Auth/Ends.antt =====
-- How the login of internal/bridge/auth.go can end.
use tg_bridge.Prelude.{
  ◌≡◌, ◌≢◌, inl, inr, refl, sym, ◌∙◌, Bool, true, false, not, ◌||◌, Option, none, some, List, [],
  ◌∷◌, Str, arith, Bool-cases, All, ◌++◌, codes,
}
use tg_bridge.Auth.{
  AuthState, need_code, authorized, error, AuthErr, Authenticator, Pc, Login, Answer, Event,
  status_ok, status_failed, sent, another_type, send_failed, asking_status, at_code, finished,
  ended, go_on, receive, context_ends, status_is, send_code_is, sign_in_is, password_is, http_phone,
  http_code, http_password, answers, is_code_invalid, is_recoverable, recoverable_phone_errs,
  rpc_is, is_password_needed, is_password_invalid, advance, step, run, start,
}
use tg_bridge.Auth.Prompt.{Shows, run-IsShown}

-- Telegram has accepted the account: an old session, a code or a password.
abbrev pub is_success : Event → Bool
is_success (answers (status_is (status_ok true))) = true
is_success (answers (sign_in_is none)) = true
is_success (answers (password_is none)) = true
is_success _ = false

-- The errors that end the login, by what the code tests: the end of the context, an error of the
-- status, another type of sent code, and any error that no loop takes as a reason to ask again.
abbrev is_ending : Event → Bool
is_ending (answers context_ends) = true
is_ending (answers (status_is (status_failed e))) = true
is_ending (answers (send_code_is another_type)) = true
is_ending (answers (send_code_is (send_failed e))) = not (is_recoverable e)
is_ending (answers (sign_in_is (some e))) =
    not (is_code_invalid e || is_password_needed e || is_recoverable e)
is_ending (answers (password_is (some e))) = not (is_password_invalid e)
is_ending _ = false

-- The types of Telegram's errors behind which the phone is asked for again.
abbrev pub is_phone_retry : AuthErr → Bool
is_phone_retry e = rpc_is e (
    codes "PHONE_NUMBER_INVALID"
    ∷ codes "PHONE_NUMBER_BANNED"
    ∷ codes "PHONE_NUMBER_FLOOD"
    ∷ codes "PHONE_NUMBER_OCCUPIED"
    ∷ codes "PHONE_NUMBER_UNOCCUPIED"
    ∷ codes "PHONE_PASSWORD_FLOOD"
    ∷ codes "PHONE_CODE_EXPIRED"
    ∷ codes "PHONE_CODE_EMPTY"
    ∷ codes "AUTH_RESTART"
    ∷ [])

abbrev pub is_code_retry : AuthErr → Bool
is_code_retry e = rpc_is e (codes "PHONE_CODE_INVALID" ∷ [])

-- The events that end the login.
abbrev pub is_fatal : Event → Bool
is_fatal (answers context_ends) = true
is_fatal (answers (status_is (status_failed e))) = true
is_fatal (answers (send_code_is another_type)) = true
is_fatal (answers (send_code_is (send_failed e))) = not (is_phone_retry e)
is_fatal (answers (sign_in_is (some e))) =
    not (is_code_retry e || is_password_needed e || is_phone_retry e)
is_fatal (answers (password_is (some e))) = not (is_password_invalid e)
is_fatal _ = false

abbrev pub any : (Event → Bool) → List Event → Bool
any p [] = false
any p (e ∷ es) = p e || any p es

abbrev HasNoSuccess : Pc → Type 0
HasNoSuccess (finished none) = ⊥
HasNoSuccess (ended none) = ⊥
HasNoSuccess _ = Unit

abbrev HasNoError : Pc → Type 0
HasNoError (finished (some e)) = ⊥
HasNoError (ended (some e)) = ⊥
HasNoError _ = Unit

advance-HasNoSuccess :
    (pc : Pc) (x : Answer) (a : Authenticator)
    → is_success (answers x) ≡ false
    → HasNoSuccess pc
    → HasNoSuccess (advance pc x a).pc
unfolding advance
advance-HasNoSuccess asking_status x a e h = ground arith
advance-HasNoSuccess pc x a e h = ground arith

advance-HasNoError :
    (pc : Pc) (x : Answer) (a : Authenticator)
    → is_ending (answers x) ≡ false
    → HasNoError pc
    → HasNoError (advance pc x a).pc
unfolding advance
advance-HasNoError asking_status x a e h = ground arith
advance-HasNoError pc x a e h = ground arith

run-HasNoSuccess :
    (l : Login) (es : List Event)
    → any is_success es ≡ false
    → HasNoSuccess l.pc
    → HasNoSuccess (run l es).pc
unfolding run step
run-HasNoSuccess l [] e h = h
run-HasNoSuccess l (http_phone p ∷ es) e h = run-HasNoSuccess (step l (http_phone p)) es e h
run-HasNoSuccess l (http_code p ∷ es) e h = run-HasNoSuccess (step l (http_code p)) es e h
run-HasNoSuccess l (http_password p ∷ es) e h = run-HasNoSuccess (step l (http_password p)) es e h
run-HasNoSuccess l (answers x ∷ es) e h =
    run-HasNoSuccess (step l (answers x)) es (ground arith)
      (advance-HasNoSuccess l.pc x l.auth (ground arith) h)

run-HasNoError :
    (l : Login) (es : List Event)
    → any is_ending es ≡ false
    → HasNoError l.pc
    → HasNoError (run l es).pc
unfolding run step
run-HasNoError l [] e h = h
run-HasNoError l (http_phone p ∷ es) e h = run-HasNoError (step l (http_phone p)) es e h
run-HasNoError l (http_code p ∷ es) e h = run-HasNoError (step l (http_code p)) es e h
run-HasNoError l (http_password p ∷ es) e h = run-HasNoError (step l (http_password p)) es e h
run-HasNoError l (answers x ∷ es) e h =
    run-HasNoError (step l (answers x)) es (ground arith)
      (advance-HasNoError l.pc x l.auth (ground arith) h)

not_authorized :
    (pc : Pc) (s : AuthState) (err : Option AuthErr)
    → Shows pc s err
    → HasNoSuccess pc
    → s ≢ authorized
not_authorized asking_status s err h no_success = λ e. ground arith
not_authorized pc s err h no_success = λ e. ground arith

not_error :
    (pc : Pc) (s : AuthState) (err : Option AuthErr) → Shows pc s err → HasNoError pc → s ≢ error
not_error asking_status s err h no_error = λ e. ground arith
not_error pc s err h no_error = λ e. ground arith

is_ending-is_fatal : (x : Event) → is_ending x ≡ is_fatal x
unfolding is_recoverable recoverable_phone_errs is_code_invalid
is_ending-is_fatal (http_phone p) = refl
is_ending-is_fatal (http_code p) = refl
is_ending-is_fatal (http_password p) = refl
is_ending-is_fatal (answers go_on) = refl
is_ending-is_fatal (answers receive) = refl
is_ending-is_fatal (answers context_ends) = refl
is_ending-is_fatal (answers (status_is r)) = elim r [ status_ok b ↦ refl | status_failed e ↦ refl ]
is_ending-is_fatal (answers (send_code_is r)) = elim r [
  | sent h ↦ refl
  | another_type ↦ refl
  | send_failed e ↦ refl
]
is_ending-is_fatal (answers (sign_in_is r)) = elim r [ none ↦ refl | some e ↦ refl ]
is_ending-is_fatal (answers (password_is r)) = elim r [ none ↦ refl | some e ↦ refl ]

any-is_ending : (es : List Event) → any is_ending es ≡ any is_fatal es
any-is_ending [] = refl
any-is_ending (x ∷ es) = rw (is_ending-is_fatal x, any-is_ending es) refl

pub run-status :
    (es : List Event)
    → ((run start es).auth.state ≡ authorized → any is_success es ≡ true)
      × ((run start es).auth.state ≡ error → any is_fatal es ≡ true)
unfolding start
run-status es = (
  λ e. elim (Bool-cases (any is_success es)) [
    | inl yes_one ↦ yes_one
    | inr none_of ↦
        absurd (not_authorized _ _ _ (run-IsShown es) (run-HasNoSuccess start es none_of tt) e)
  ],
  λ e. elim (Bool-cases (any is_ending es)) [
    | inl yes_one ↦ sym (any-is_ending es) ∙ yes_one
    | inr none_of ↦ absurd (not_error _ _ _ (run-IsShown es) (run-HasNoError start es none_of tt) e)
  ],
)

-- The events of codes that are submitted, tried and rejected, one after the other.
abbrev pub rejected : List (Str × AuthErr) → List Event
rejected [] = []
rejected ((c, e) ∷ tries) =
    http_code c ∷ answers receive ∷ answers (sign_in_is (some e)) ∷ answers go_on ∷ rejected tries

code_rounds :
    (a : Authenticator) (phone hash : Str) (tries : List (Str × AuthErr)) (last : Str)
    → All (λ t. is_code_invalid t.1 ≡ true) tries
    → a.code_ch ≡ none
    → (run
        (record { pc = at_code phone hash; auth = a })
        (rejected tries
          ++ (http_code last
              ∷ answers receive
              ∷ answers (sign_in_is none)
              ∷ answers go_on
              ∷ []))).auth.state
      ≡ authorized
unfolding run step advance
code_rounds a phone hash [] last bad empty = ground arith
code_rounds a phone hash ((c, e) ∷ tries) last (b, bad) empty = ground (
  arith,
  code_rounds (record a { state = need_code; last_err = none; code_ch = none }) phone hash tries
      last bad refl,
)

-- A login without a second factor ends well: the phone is sent, any number of codes is rejected as
-- invalid, and the code that Telegram accepts makes the status `authorized`.
pub login_completes :
    (phone hash last : Str) (tries : List (Str × AuthErr))
    → All (λ t. is_code_invalid t.1 ≡ true) tries
    → (run start (
        answers (status_is (status_ok false))
        ∷ answers go_on
        ∷ http_phone phone
        ∷ answers receive
        ∷ answers (send_code_is (sent hash))
        ∷ answers go_on
        ∷ (rejected tries
            ++ (http_code last
                ∷ answers receive
                ∷ answers (sign_in_is none)
                ∷ answers go_on
                ∷ [])))).auth.state
      ≡ authorized
unfolding run start step
login_completes phone hash last tries bad =
    code_rounds
      (record {
        state = need_code;
        last_err = none;
        phone_ch = none;
        code_ch = none;
        passwd_ch = none;
      })
      phone hash tries last bad refl
