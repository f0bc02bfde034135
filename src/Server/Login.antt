-- ===== src/Server/Login.antt =====
-- What the auth requests of internal/httpapi do to the login, and what `Run` of
-- internal/bridge/bridge.go needs of the state and leaves of it.
use tg_bridge.Prelude.{
  ◌≡◌, ◌⊎◌, inl, inr, refl, ap, ◌∙◌, Bool, Option, Str, Bool-cases, Option-cases,
}
use tg_bridge.Prelude.Int.{pos}
use tg_bridge.Config.{Config}
use tg_bridge.RateLimit.{allow}
use tg_bridge.Auth.{
  Authenticator, Login, Event, http_phone, http_code, http_password, answers, step, submit_phone,
  submit_code, submit_password,
}
use tg_bridge.Auth.Prompt.{IsHttp}
use tg_bridge.AuthApi.{
  AuthRoute, get_status, post_phone, post_code, post_password, AuthRequest, AuthResponse,
  AuthServer, required, handle_submit, handle_auth_status, handle_auth_phone, handle_auth_code,
  handle_auth_password, handle, with_rate_limit, is_known, serve,
}
use tg_bridge.AuthApi.Serve.{serve-known, serve-unknown}
use tg_bridge.AuthApi.HostPort.{client_ip}
use tg_bridge.Chats.Peers.{IsKeyed, list_chats-IsKeyed}
use tg_bridge.Start.{
  Bridge, Phase, connecting, at_login, at_self, at_warm, returned, RunEvent, connects, login_event,
  self_is, self_fails, dialogs_are, is_ready, warm_peer_cache, log_in, run_step,
}
use tg_bridge.Start.Known.{Fits}

-- The login is left, or takes in a submitted value.
abbrev pub Submits : Login → Login → Type 0
Submits l l' = (l' ≡ l) ⊎ ((x : Event) × IsHttp x × (l' ≡ step l x))

handle_submit-Submits :
    (l : Login) (submit : Authenticator → Str → Authenticator × Bool) (event : Str → Event)
    (field : Option Str)
    → ((v : Str) → IsHttp (event v))
    → ((v : Str) → record l { auth = (submit l.auth v).0 } ≡ step l (event v))
    → Submits l (record l { auth = (handle_submit submit field l.auth).0 })
unfolding handle_submit
handle_submit-Submits l submit event field http same = elim (Option-cases (required field)) [
  | inl n ↦ inl (rw (handle_submit, n) refl)
  | inr (v, n) ↦ inr (event v, http v, rw (handle_submit, n) (same v))
]

handle-Submits :
    (l : Login) (route : AuthRoute) (field : Option Str)
    → Submits l (record l { auth = (handle route field l.auth).0 })
unfolding handle handle_auth_status handle_auth_phone handle_auth_code handle_auth_password step
handle-Submits l get_status field = inl refl
handle-Submits l post_phone field =
    handle_submit-Submits l submit_phone http_phone field (λ v. tt) (λ v. refl)
handle-Submits l post_code field =
    handle_submit-Submits l submit_code http_code field (λ v. tt) (λ v. refl)
handle-Submits l post_password field =
    handle_submit-Submits l submit_password http_password field (λ v. tt) (λ v. refl)

pub serve-Submits :
    (cfg : Config) (s : AuthServer) (route : AuthRoute) (r : AuthRequest)
    → Submits s.login (serve cfg s route r).0.login
unfolding with_rate_limit
serve-Submits cfg s route r = elim (Bool-cases (is_known cfg r)) [
  | inr e ↦ inl (ap (λ (x : AuthServer × AuthResponse). x.0.login) (serve-unknown cfg s route r e))
  | inl e ↦
      rw (serve-known cfg s route r e)
        (elim (Bool-cases (allow s.auth_rl r.victim r.now (client_ip r.remote_addr)).1) [
          | inr o ↦ rw o (inl refl)
          | inl o ↦ rw o (handle-Submits s.login route r.field)
        ])
]

pub step_http-pc : (l : Login) (x : Event) → IsHttp x → (step l x).pc ≡ l.pc
unfolding step
step_http-pc l (http_phone p) h = refl
step_http-pc l (http_code c) h = refl
step_http-pc l (http_password p) h = refl
step_http-pc l (answers x) h = absurd h

-- What `Run` does not look at may change.
pub Fits-record :
    (phase : Phase) (b b' : Bridge)
    → b'.self ≡ b.self
    → b'.client_ready ≡ b.client_ready
    → b'.login.pc ≡ b.login.pc
    → Fits phase b
    → Fits phase b'
Fits-record connecting b b' s r p h = s ∙ h
Fits-record at_login b b' s r p h = (s ∙ h.0, r ∙ h.1)
Fits-record (returned e) b b' s r p h = elim h [
  | inl unknown ↦ inl (s ∙ unknown)
  | inr (on, over) ↦ inr (r ∙ on, p ∙ over)
]
Fits-record phase b b' s r p h = (r ∙ h.0, p ∙ h.1)

pub run_step-cache :
    (phase : Phase) (e : RunEvent) (b : Bridge) → (run_step phase e b).cache ≡ b.cache
unfolding run_step log_in
run_step-cache connecting connects b = refl
run_step-cache phase (login_event (http_phone p)) b = refl
run_step-cache phase (login_event (http_code c)) b = refl
run_step-cache phase (login_event (http_password p)) b = refl
run_step-cache at_login (login_event (answers x)) b = refl
run_step-cache at_self (self_fails ended_by) b = refl
run_step-cache at_self (self_is user) b = refl
run_step-cache phase e b = refl

pub run_step-IsKeyed :
    (phase : Phase) (e : RunEvent) (b : Bridge)
    → IsKeyed b.peer_cache
    → IsKeyed (run_step phase e b).peer_cache
unfolding run_step log_in warm_peer_cache
run_step-IsKeyed connecting connects b k = k
run_step-IsKeyed phase (login_event (http_phone p)) b k = k
run_step-IsKeyed phase (login_event (http_code c)) b k = k
run_step-IsKeyed phase (login_event (http_password p)) b k = k
run_step-IsKeyed at_login (login_event (answers x)) b k = k
run_step-IsKeyed at_self (self_fails ended_by) b k = k
run_step-IsKeyed at_self (self_is user) b k = k
run_step-IsKeyed at_warm (dialogs_are dialogs) b k =
    list_chats-IsKeyed (record { ready = is_ready b; get_dialogs = λ limit. dialogs }) b.peer_cache
      (pos 100) k
run_step-IsKeyed phase e b k = k
