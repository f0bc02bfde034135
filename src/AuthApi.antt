-- ===== src/AuthApi.antt =====
-- The auth routes of internal/httpapi: the handlers of auth.go behind `withAuth` (middleware.go)
-- and `withRateLimit` (ratelimit.go), over the submissions of internal/bridge/bridge.go.
pub mod HostPort
pub mod Serve
pub mod Brake
mod Tests
use tg_bridge.Prelude.{ℕ, Bool, true, false, Option, none, some, Str, is_empty, if◌then◌else◌}
use tg_bridge.Config.{Config, token_to_client}
use tg_bridge.Http.{Request, bearer_token}
use tg_bridge.Auth.{
  AuthState, AuthErr, Authenticator, Answer, Login, answers, status, submit_phone, submit_code,
  submit_password, step,
}
use tg_bridge.RateLimit.{RateLimiter, new_rate_limiter, allow}
use tg_bridge.AuthApi.HostPort.{client_ip}

pub data AuthRoute : Type 0 where
  get_status : AuthRoute
  post_phone : AuthRoute
  post_code : AuthRoute
  post_password : AuthRoute

-- A request: its token, the socket's address, and the field of the JSON body, `none` where the
-- decoder fails and "" where the field is not there. `victim` is the key that a full map of the
-- limiter gives up.
pub record AuthRequest : Type 0 where
  pub request : Request
  pub remote_addr : Str
  pub field : Option Str
  pub now : ℕ
  pub victim : Str

-- A response: the status of the login, `{"status": "accepted"}`, or an error by its code.
pub data AuthResponse : Type 0 where
  status_is : AuthState → Option AuthErr → AuthResponse
  accepted : AuthResponse
  failed : ℕ → AuthResponse

-- The decoded field, when the handlers go on with it.
unfoldable pub required : Option Str → Option Str
required none = none
required (some s) = if is_empty s then none else some s

-- What the three submitting handlers do with the decoded field and the bridge's submission.
unfoldable pub handle_submit :
    (Authenticator → Str → Authenticator × Bool)
    → Option Str
    → Authenticator
    → Authenticator × AuthResponse
handle_submit submit field a = elim (required field) [
  | none ↦ (a, failed 400)
  | some s ↦ let (a', taken) = submit a s in (a', if taken then accepted else failed 409)
]

unfoldable pub handle_auth_status : Authenticator → Authenticator × AuthResponse
handle_auth_status a = let (s, e) = status a in (a, status_is s e)

unfoldable pub handle_auth_phone : Option Str → Authenticator → Authenticator × AuthResponse
handle_auth_phone field a = handle_submit submit_phone field a

unfoldable pub handle_auth_code : Option Str → Authenticator → Authenticator × AuthResponse
handle_auth_code field a = handle_submit submit_code field a

unfoldable pub handle_auth_password : Option Str → Authenticator → Authenticator × AuthResponse
handle_auth_password field a = handle_submit submit_password field a

unfoldable pub handle : AuthRoute → Option Str → Authenticator → Authenticator × AuthResponse
handle get_status field a = handle_auth_status a
handle post_phone field a = handle_auth_phone field a
handle post_code field a = handle_auth_code field a
handle post_password field a = handle_auth_password field a

-- The state behind the routes: the limiter that they share, and the login.
pub record AuthServer : Type 0 where
  pub auth_rl : RateLimiter
  pub login : Login

-- The limiter of `New`: ten requests a minute, five at once.
unfoldable pub auth_rate_limiter : RateLimiter
auth_rate_limiter = new_rate_limiter 10 5

unfoldable pub with_rate_limit :
    AuthServer
    → AuthRequest
    → (Authenticator → Authenticator × AuthResponse)
    → AuthServer × AuthResponse
with_rate_limit s r h =
    let (rl, ok) = allow s.auth_rl r.victim r.now (client_ip r.remote_addr) in
    let (a, response) = h s.login.auth in
    if ok
    then (record { auth_rl = rl; login = record s.login { auth = a } }, response)
    else (record s { auth_rl = rl }, failed 429)

-- Whether `withAuth` lets a request pass.
unfoldable pub is_known : Config → AuthRequest → Bool
is_known c r =
    if is_empty (bearer_token r.request)
    then false
    else elim (token_to_client c (bearer_token r.request)) [ none ↦ false | some cl ↦ true ]

unfoldable pub serve : Config → AuthServer → AuthRoute → AuthRequest → AuthServer × AuthResponse
serve c s route r = elim (is_known c r) [
  | false ↦ (s, failed 401)
  | true ↦ with_rate_limit s r (handle route r.field)
]

-- What happens to the server: a request, or an answer that the login waits for.
pub data Turn : Type 0 where
  asks : AuthRoute → AuthRequest → Turn
  goes_on : Answer → Turn

unfoldable pub turn : Config → AuthServer → Turn → AuthServer
turn c s (asks route r) = (serve c s route r).0
turn c s (goes_on answer) = record s { login = step s.login (answers answer) }
