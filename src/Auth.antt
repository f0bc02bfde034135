-- ===== src/Auth.antt =====
-- The login of internal/bridge/auth.go: the authenticator that the HTTP handlers feed, and the
-- login procedure that reads from it, with the end of it in `Run` of internal/bridge/bridge.go.
--
-- The procedure blocks on channels and on calls of the Telegram client, so it is a machine: `Pc`
-- says at which of its blocking points it stands, and `step` takes it on by one event. What the
-- client answers and when the context ends are events, as are the calls of the HTTP handlers.
pub mod Prompt
pub mod Ends
mod Tests
use tg_bridge.Prelude.{
  Bool, true, false, ◌||◌, Option, none, some, List, [], ◌∷◌, Str, codes, str_eq, if◌then◌else◌,
}

pub data AuthState : Type 0 where
  idle need_phone need_code need_password authorized error : AuthState

-- The texts that `fmt.Errorf` puts in front of an error that it wraps.
pub data Stage : Type 0 where
  auth_status get_phone send_code sign_in get_code get_password sign_in_password : Stage

-- What `tgerr.Is` and `errors.Is` see of an error: an RPC error of a type, one of the errors of the
-- client's auth package, the end of the context, or another error; and wrapping.
pub data AuthErr : Type 0 where
  rpc : Str → AuthErr
  password_auth_needed password_invalid context_done unexpected_sent_code : AuthErr
  other : Str → AuthErr
  wrapped : Stage → AuthErr → AuthErr

abbrev member : Str → List Str → Bool
member s [] = false
member s (t ∷ ts) = str_eq s t || member s ts

-- `tgerr.Is(err, types...)`
unfoldable pub rpc_is : AuthErr → List Str → Bool
rpc_is (rpc t) types = member t types
rpc_is (wrapped s e) types = rpc_is e types
rpc_is password_auth_needed types = false
rpc_is password_invalid types = false
rpc_is context_done types = false
rpc_is unexpected_sent_code types = false
rpc_is (other t) types = false

-- `errors.Is(err, auth.ErrPasswordAuthNeeded)` and `errors.Is(err, auth.ErrPasswordInvalid)`
unfoldable pub is_password_needed : AuthErr → Bool
is_password_needed password_auth_needed = true
is_password_needed (wrapped s e) = is_password_needed e
is_password_needed (rpc t) = false
is_password_needed password_invalid = false
is_password_needed context_done = false
is_password_needed unexpected_sent_code = false
is_password_needed (other t) = false

unfoldable pub is_password_invalid : AuthErr → Bool
is_password_invalid password_invalid = true
is_password_invalid (wrapped s e) = is_password_invalid e
is_password_invalid (rpc t) = false
is_password_invalid password_auth_needed = false
is_password_invalid context_done = false
is_password_invalid unexpected_sent_code = false
is_password_invalid (other t) = false

unfoldable pub recoverable_phone_errs : List Str
recoverable_phone_errs =
    codes "PHONE_NUMBER_INVALID"
    ∷ codes "PHONE_NUMBER_BANNED"
    ∷ codes "PHONE_NUMBER_FLOOD"
    ∷ codes "PHONE_NUMBER_OCCUPIED"
    ∷ codes "PHONE_NUMBER_UNOCCUPIED"
    ∷ codes "PHONE_PASSWORD_FLOOD"
    ∷ codes "PHONE_CODE_EXPIRED"
    ∷ codes "PHONE_CODE_EMPTY"
    ∷ codes "AUTH_RESTART"
    ∷ []

unfoldable pub is_recoverable : AuthErr → Bool
is_recoverable e = rpc_is e recoverable_phone_errs

unfoldable pub is_code_invalid : AuthErr → Bool
is_code_invalid e = rpc_is e (codes "PHONE_CODE_INVALID" ∷ [])

-- `httpAuthenticator`. Each channel has a buffer of one value.
pub record Authenticator : Type 0 where
  pub state : AuthState
  pub last_err : Option AuthErr
  pub phone_ch : Option Str
  pub code_ch : Option Str
  pub passwd_ch : Option Str

unfoldable pub new_http_authenticator : Authenticator
new_http_authenticator = record {
  state = idle;
  last_err = none;
  phone_ch = none;
  code_ch = none;
  passwd_ch = none;
}

unfoldable pub set_state : AuthState → Option AuthErr → Authenticator → Authenticator
set_state s err a = record a { state = s; last_err = err }

unfoldable pub status : Authenticator → AuthState × Option AuthErr
status a = (a.state, a.last_err)

-- A send that does not block: the channel afterwards, and whether it took the value.
unfoldable pub try_send : Option Str → Str → Option Str × Bool
try_send none v = (some v, true)
try_send (some u) v = (some u, false)

unfoldable pub submit_phone : Authenticator → Str → Authenticator × Bool
unfolding try_send
submit_phone a p = let (ch, taken) = try_send a.phone_ch p in (record a { phone_ch = ch }, taken)

unfoldable pub submit_code : Authenticator → Str → Authenticator × Bool
unfolding try_send
submit_code a c = let (ch, taken) = try_send a.code_ch c in (record a { code_ch = ch }, taken)

unfoldable pub submit_password : Authenticator → Str → Authenticator × Bool
unfolding try_send
submit_password a p =
    let (ch, taken) = try_send a.passwd_ch p in (record a { passwd_ch = ch }, taken)

-- The blocking points of `runAuth`, `signInWithCodeRetry` and `passwordLoop`. The three `enter`
-- points stand just before a prompt method is called, `finished` before the state is set for the
-- result in `Run`.
pub data Pc : Type 0 where
  asking_status : Pc
  enter_phone at_phone : Pc
  sending : Str → Pc
  enter_code at_code : Str → Str → Pc
  signing : Str → Str → Str → Pc
  enter_password at_password : Pc
  checking : Str → Pc
  finished : Option AuthErr → Pc
  ended : Option AuthErr → Pc

pub record Login : Type 0 where
  pub pc : Pc
  pub auth : Authenticator

-- What `SendCode` answers: the sent code's hash, another type of answer, or an error.
pub data SendAnswer : Type 0 where
  sent : Str → SendAnswer
  another_type : SendAnswer
  send_failed : AuthErr → SendAnswer

pub data StatusAnswer : Type 0 where
  status_ok : Bool → StatusAnswer
  status_failed : AuthErr → StatusAnswer

-- What the procedure waits for: nothing (`go_on`), a value on the channel of its prompt, the end
-- of the context, or an answer of the client (`none` is success).
pub data Answer : Type 0 where
  go_on receive context_ends : Answer
  status_is : StatusAnswer → Answer
  send_code_is : SendAnswer → Answer
  sign_in_is : Option AuthErr → Answer
  password_is : Option AuthErr → Answer

pub data Event : Type 0 where
  http_phone http_code http_password : Str → Event
  answers : Answer → Event

-- `runAuth` after `signInWithCodeRetry` has returned an error.
unfoldable pub sign_in_failed : AuthErr → Authenticator → Login
unfolding set_state
sign_in_failed e a =
    if is_password_needed e
    then record { pc = enter_password; auth = a }
    else if is_recoverable e
    then record { pc = enter_phone; auth = set_state need_phone (some e) a }
    else record { pc = finished (some (wrapped sign_in e)); auth = a }

-- `signInWithCodeRetry` after `SignIn` has failed.
unfoldable pub code_failed : Str → Str → AuthErr → Authenticator → Login
unfolding sign_in_failed set_state
code_failed phone hash e a =
    if is_code_invalid e
    then record { pc = enter_code phone hash; auth = set_state need_code (some e) a }
    else sign_in_failed e a

-- `runAuth` after `SendCode` has failed.
unfoldable pub send_code_failed : AuthErr → Authenticator → Login
unfolding set_state
send_code_failed e a =
    if is_recoverable e
    then record { pc = enter_phone; auth = set_state need_phone (some e) a }
    else record { pc = finished (some (wrapped send_code e)); auth = a }

-- `passwordLoop` after `Password` has failed.
unfoldable pub password_failed : AuthErr → Authenticator → Login
unfolding set_state
password_failed e a =
    if is_password_invalid e
    then record { pc = enter_password; auth = set_state need_password (some e) a }
    else record { pc = finished (some (wrapped sign_in_password e)); auth = a }

-- The receive of a prompt: the value and the emptied channel, or it blocks on.
unfoldable pub receive_phone : Option Str → Authenticator → Login
receive_phone none a = record { pc = at_phone; auth = a }
receive_phone (some p) a = record { pc = sending p; auth = record a { phone_ch = none } }

unfoldable pub receive_code : Str → Str → Option Str → Authenticator → Login
receive_code phone hash none a = record { pc = at_code phone hash; auth = a }
receive_code phone hash (some c) a = record {
  pc = signing phone c hash;
  auth = record a { code_ch = none };
}

unfoldable pub receive_password : Option Str → Authenticator → Login
receive_password none a = record { pc = at_password; auth = a }
receive_password (some p) a = record { pc = checking p; auth = record a { passwd_ch = none } }

-- One step of the procedure. An event that it does not wait for leaves it where it is.
unfoldable pub advance : Pc → Answer → Authenticator → Login
unfolding set_state sign_in_failed code_failed send_code_failed password_failed receive_phone
    receive_code receive_password
advance asking_status (status_is (status_failed e)) a = record {
  pc = finished (some (wrapped auth_status e));
  auth = a;
}
advance asking_status (status_is (status_ok true)) a = record { pc = finished none; auth = a }
advance asking_status (status_is (status_ok false)) a = record { pc = enter_phone; auth = a }
advance enter_phone go_on a = record { pc = at_phone; auth = set_state need_phone none a }
advance at_phone receive a = receive_phone a.phone_ch a
advance at_phone context_ends a = record {
  pc = finished (some (wrapped get_phone context_done));
  auth = a;
}
advance (sending phone) (send_code_is (send_failed e)) a = send_code_failed e a
advance (sending phone) (send_code_is another_type) a = record {
  pc = finished (some unexpected_sent_code);
  auth = a;
}
advance (sending phone) (send_code_is (sent hash)) a = record {
  pc = enter_code phone hash;
  auth = a;
}
advance (enter_code phone hash) go_on a = record {
  pc = at_code phone hash;
  auth = set_state need_code none a;
}
advance (at_code phone hash) receive a = receive_code phone hash a.code_ch a
advance (at_code phone hash) context_ends a = sign_in_failed (wrapped get_code context_done) a
advance (signing phone c hash) (sign_in_is none) a = record { pc = finished none; auth = a }
advance (signing phone c hash) (sign_in_is (some e)) a = code_failed phone hash e a
advance enter_password go_on a = record { pc = at_password; auth = set_state need_password none a }
advance at_password receive a = receive_password a.passwd_ch a
advance at_password context_ends a = record {
  pc = finished (some (wrapped get_password context_done));
  auth = a;
}
advance (checking p) (password_is none) a = record { pc = finished none; auth = a }
advance (checking p) (password_is (some e)) a = password_failed e a
advance (finished none) go_on a = record { pc = ended none; auth = set_state authorized none a }
advance (finished (some e)) go_on a = record {
  pc = ended (some e);
  auth = set_state error (some e) a;
}
advance pc _ a = record { pc = pc; auth = a }

unfoldable pub step : Login → Event → Login
unfolding advance submit_phone submit_code submit_password
step s (http_phone p) = record s { auth = (submit_phone s.auth p).0 }
step s (http_code c) = record s { auth = (submit_code s.auth c).0 }
step s (http_password p) = record s { auth = (submit_password s.auth p).0 }
step s (answers x) = advance s.pc x s.auth

unfoldable pub run : Login → List Event → Login
run s [] = s
run s (e ∷ es) = run (step s e) es

unfoldable pub start : Login
unfolding new_http_authenticator
start = record { pc = asking_status; auth = new_http_authenticator }
