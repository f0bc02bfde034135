-- ===== src/Start/Known.antt =====
-- When the account is known to the bridge, in `Run` of internal/bridge/bridge.go.
use tg_bridge.Prelude.{
  ◌≡◌, ◌⊎◌, inl, inr, refl, sym, ap, ◌∙◌, subst, Bool, true, false, ◌||◌, none, some, List, Str, [],
  ◌∷◌, arith, Option-cases,
}
use tg_bridge.Chats.{User}
use tg_bridge.Auth.{
  authorized, Pc, Login, Event, http_phone, http_code, http_password, answers, ended, start, step,
  run,
}
use tg_bridge.Auth.Prompt.{Shows, IsShown, run-IsShown}
use tg_bridge.Auth.Ends.{is_success, any, run-status}
use tg_bridge.Config.{Config}
use tg_bridge.Start.Closed.{IsNew, new_bridge-IsNew}
use tg_bridge.Start.{
  NewIo, NewErr, Place, new_bridge, Bridge, Phase, connecting, at_login, at_self, at_warm,
  at_updates, returned, RunEvent, connects, login_event, self_is, self_fails, dialogs_are,
  updates_end, client_ends, after_login, is_ready, log_in, run_step, run_bridge,
}

-- The login has ended well behind a client that is connected.
abbrev pub IsLoggedIn : Bridge → Type 0
IsLoggedIn b = (b.client_ready ≡ true) × (b.login.pc ≡ ended none)

abbrev pub Fits : Phase → Bridge → Type 0
Fits connecting b = b.self ≡ none
Fits at_login b = (b.self ≡ none) × (b.client_ready ≡ true)
Fits at_self b = IsLoggedIn b
Fits at_warm b = IsLoggedIn b
Fits at_updates b = IsLoggedIn b
Fits (returned e) b = (b.self ≡ none) ⊎ IsLoggedIn b

after_login-Fits :
    (pc : Pc) (b : Bridge)
    → b.self ≡ none
    → b.client_ready ≡ true
    → b.login.pc ≡ pc
    → Fits (after_login pc) b
unfolding after_login
after_login-Fits (ended none) b s r e = (r, e)
after_login-Fits (ended (some x)) b s r e = inl s
after_login-Fits pc b s r e = (s, r)

pub keeps_http :
    (phase : Phase) (b : Bridge) (l : Login)
    → b.phase ≡ phase
    → l.pc ≡ b.login.pc
    → Fits phase b
    → Fits b.phase (record b { login = l })
keeps_http connecting b l same e h = subst (λ q. Fits q (record b { login = l })) (sym same) h
keeps_http at_login b l same e h = subst (λ q. Fits q (record b { login = l })) (sym same) h
keeps_http (returned x) b l same e h =
    subst (λ q. Fits q (record b { login = l })) (sym same)
      (elim h [ inl unknown ↦ inl unknown | inr (r, p) ↦ inr (r, e ∙ p) ])
keeps_http phase b l same e h =
    subst (λ q. Fits q (record b { login = l })) (sym same) (h.0, e ∙ h.1)

pub step-Fits :
    (phase : Phase) (e : RunEvent) (b : Bridge)
    → b.phase ≡ phase
    → Fits phase b
    → Fits (run_step phase e b).phase (run_step phase e b)
unfolding run_step log_in step
step-Fits connecting connects b same h = (h, refl)
step-Fits phase (login_event (http_phone p)) b same h = keeps_http phase b _ same refl h
step-Fits phase (login_event (http_code c)) b same h = keeps_http phase b _ same refl h
step-Fits phase (login_event (http_password p)) b same h = keeps_http phase b _ same refl h
step-Fits at_login (login_event (answers x)) b same (s, r) =
    let login = step b.login (answers x) in
    after_login-Fits login.pc (record b { login = login; phase = after_login login.pc }) s r refl
step-Fits at_self (self_fails ended_by) b same h = inr h
step-Fits at_self (self_is user) b same h = h
step-Fits at_warm (dialogs_are dialogs) b same h = h
step-Fits at_updates (updates_end e) b same h = inr h
step-Fits connecting (client_ends e) b same h = inl h
step-Fits at_login (client_ends e) b same (s, r) = inl s
step-Fits at_self (client_ends e) b same h = inr h
step-Fits at_warm (client_ends e) b same h = inr h
step-Fits at_updates (client_ends e) b same h = inr h
step-Fits phase e b same h = subst (λ q. Fits q b) (sym same) h

-- Telegram has accepted the account in one of the events.
abbrev pub is_accepted : RunEvent → Bool
is_accepted (login_event e) = is_success e
is_accepted e = false

abbrev pub any_accepted : List RunEvent → Bool
any_accepted [] = false
any_accepted (e ∷ es) = is_accepted e || any_accepted es

pub step_login :
    (phase : Phase) (e : RunEvent) (b : Bridge)
    → ((run_step phase e b).login ≡ b.login)
      ⊎ ((x : Event) × (e ≡ login_event x) × ((run_step phase e b).login ≡ step b.login x))
unfolding run_step log_in
step_login connecting connects b = inl refl
step_login phase (login_event (http_phone p)) b = inr (http_phone p, refl, refl)
step_login phase (login_event (http_code c)) b = inr (http_code c, refl, refl)
step_login phase (login_event (http_password p)) b = inr (http_password p, refl, refl)
step_login at_login (login_event (answers x)) b = inr (answers x, refl, refl)
step_login at_self (self_fails ended_by) b = inl refl
step_login at_self (self_is user) b = inl refl
step_login phase e b = inl refl

-- The login has met some of the events, in their order.
history :
    (b : Bridge) (es : List RunEvent)
    → (ls : List Event) × ((run_bridge b es).login ≡ run b.login ls)
      × (any is_success ls ≡ true → any_accepted es ≡ true)
unfolding run_bridge run
history b [] = ([], refl, λ e. e)
history b (e ∷ es) =
    let (ls, same, accepted) = history (run_step b.phase e b) es in
    elim (step_login b.phase e b) [
      | inl kept ↦ (ls, same ∙ ap (λ l. run l ls) kept, λ h. ground (arith, accepted h))
      | inr (x, is_x, stepped) ↦ (
        x ∷ ls,
        same ∙ ap (λ l. run l ls) stepped,
        λ h. ground (arith, ap is_accepted is_x, h, accepted),
      )
    ]

run-Fits :
    (b : Bridge) (es : List RunEvent)
    → Fits b.phase b
    → Fits (run_bridge b es).phase (run_bridge b es)
unfolding run_bridge
run-Fits b [] h = h
run-Fits b (e ∷ es) h = run-Fits (run_step b.phase e b) es (step-Fits b.phase e b refl h)

pub known-IsLoggedIn :
    (phase : Phase) (b : Bridge) (user : User) → b.self ≡ some user → Fits phase b → IsLoggedIn b
known-IsLoggedIn connecting b user known h = absurd (cc)
known-IsLoggedIn at_login b user known h = absurd (cc h.0)
known-IsLoggedIn (returned e) b user known h = elim h [
  | inl unknown ↦ absurd (cc)
  | inr logged_in ↦ logged_in
]
known-IsLoggedIn phase b user known h = h

pub ended_shows : (l : Login) → l.pc ≡ ended none → IsShown l → l.auth.state ≡ authorized
ended_shows l e h = (subst (λ pc. Shows pc l.auth.state l.auth.last_err) e h).0

-- A bridge that `New` has made is ready, for `waitReady` and for the handlers that need the
-- account, only after Telegram has accepted the account, and the status of the login then is
-- `authorized`, whatever the handlers do.
pub ready-accepted :
    (sha256 : Str → Str) (removable : Str → Bool) (cfg : Config) (io : NewIo) (at : Place)
    (b : Bridge) (es : List RunEvent)
    → at.db_open ≡ false
    → (new_bridge sha256 removable cfg io at).1 ≡ inr b
    → is_ready (run_bridge b es) ≡ true
    → ((run_bridge b es).login.auth.state ≡ authorized) × (any_accepted es ≡ true)
unfolding is_ready
ready-accepted sha256 removable cfg io at b es shut made ready =
    let (_, at_start, _, unknown, logged_out, _) =
      subst (λ (r : NewErr ⊎ Bridge). IsNew ((new_bridge sha256 removable cfg io at).0, r)) made
        (new_bridge-IsNew sha256 removable cfg io at shut) in
    elim (Option-cases (run_bridge b es).self) [
      | inl none_known ↦ absurd (ground (arith, none_known, ready))
      | inr (user, known) ↦
          let (ls, same, accepted) = history b es in
          let (connected, over) =
            known-IsLoggedIn (run_bridge b es).phase (run_bridge b es) user known
              (run-Fits b es (subst (λ p. Fits p b) (sym at_start) unknown)) in
          let login : (run_bridge b es).login ≡ run start ls =
            same ∙ ap (λ l. run l ls) logged_out in
          let shows =
            ended_shows (run start ls) (ap (λ (l : Login). l.pc) (sym login) ∙ over)
              (run-IsShown ls) in
          (ap (λ (l : Login). l.auth.state) login ∙ shows, accepted ((run-status ls).0 shows))
    ]
