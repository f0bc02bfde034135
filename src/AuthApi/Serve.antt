-- ===== src/AuthApi/Serve.antt =====
-- What a request to the auth routes of internal/httpapi can do: auth.go behind `withAuth` and
-- `withRateLimit`.
use tg_bridge.Prelude.{
  ◌≡◌, ◌⊎◌, inl, inr, refl, ap, Bool, true, false, Option, Str, arith, Bool-cases, Option-cases,
}
use tg_bridge.Config.{Config}
use tg_bridge.Auth.{Authenticator, submit_phone, submit_code, submit_password}
use tg_bridge.RateLimit.{allow}
use tg_bridge.AuthApi.HostPort.{client_ip}
use tg_bridge.AuthApi.{
  AuthRoute, AuthRequest, AuthResponse, status_is, accepted, failed, AuthServer, with_rate_limit,
  is_known, handle, handle_submit, required, handle_auth_status, handle_auth_phone,
  handle_auth_code, handle_auth_password, get_status, post_phone, post_code, post_password, serve,
}

abbrev pub is_accepted : AuthResponse → Bool
is_accepted (status_is s e) = false
is_accepted accepted = true
is_accepted (failed code) = false

module _ (s : AuthServer) (r : AuthRequest) (h : Authenticator → Authenticator × AuthResponse) where
  pub auth_rl-with_rate_limit :
      (with_rate_limit s r h).0.auth_rl
      ≡ (allow s.auth_rl r.victim r.now (client_ip r.remote_addr)).0
  unfolding with_rate_limit
  auth_rl-with_rate_limit = ground arith

  pub with_rate_limit-accepted :
      is_accepted (with_rate_limit s r h).1 ≡ true
      → (allow s.auth_rl r.victim r.now (client_ip r.remote_addr)).1 ≡ true
  unfolding with_rate_limit
  with_rate_limit-accepted e = ground arith

pub serve-unknown :
    (c : Config) (s : AuthServer) (route : AuthRoute) (r : AuthRequest)
    → is_known c r ≡ false
    → serve c s route r ≡ (s, failed 401)
unfolding serve
serve-unknown c s route r e = rw (serve, e) refl

pub serve-known :
    (c : Config) (s : AuthServer) (route : AuthRoute) (r : AuthRequest)
    → is_known c r ≡ true
    → serve c s route r ≡ with_rate_limit s r (handle route r.field)
unfolding serve
serve-known c s route r e = rw (serve, e) refl

phone_kept : (a : Authenticator) (v : Str) → (submit_phone a v).1 ≡ false → (submit_phone a v).0 ≡ a
unfolding submit_phone
phone_kept a v e = ground arith

code_kept : (a : Authenticator) (v : Str) → (submit_code a v).1 ≡ false → (submit_code a v).0 ≡ a
unfolding submit_code
code_kept a v e = ground arith

password_kept :
    (a : Authenticator) (v : Str) → (submit_password a v).1 ≡ false → (submit_password a v).0 ≡ a
unfolding submit_password
password_kept a v e = ground arith

submit-rejected :
    (submit : Authenticator → Str → Authenticator × Bool) (field : Option Str) (a : Authenticator)
    → ((v : Str) → (submit a v).1 ≡ false → (submit a v).0 ≡ a)
    → is_accepted (handle_submit submit field a).1 ≡ false
    → (handle_submit submit field a).0 ≡ a
unfolding handle_submit
submit-rejected submit field a keeps e = elim (Option-cases (required field)) [
  | inl n ↦ rw (handle_submit, n) refl
  | inr (v, n) ↦ elim (Bool-cases (submit a v).1) [
    | inl ok ↦
        let yes_accepted : is_accepted (handle_submit submit field a).1 ≡ true =
          rw (handle_submit, n, ok) refl in
        cc
    | inr no_ok ↦ rw (handle_submit, n) (keeps v no_ok)
  ]
]

handle-rejected :
    (route : AuthRoute) (field : Option Str) (a : Authenticator)
    → is_accepted (handle route field a).1 ≡ false
    → (handle route field a).0 ≡ a
unfolding handle handle_auth_status handle_auth_phone handle_auth_code handle_auth_password
handle-rejected get_status field a e = refl
handle-rejected post_phone field a e = submit-rejected submit_phone field a (phone_kept a) e
handle-rejected post_code field a e = submit-rejected submit_code field a (code_kept a) e
handle-rejected post_password field a e =
    submit-rejected submit_password field a (password_kept a) e

-- What a request can do. Without a known token it gets 401 and changes nothing, not even the
-- limiter. With one it is put to the limiter, and where its address has no token left it gets 429
-- and leaves the login. Else its handler answers, and the login changes only when a value is
-- accepted.
pub serve_cases :
    (c : Config) (s : AuthServer) (route : AuthRoute) (r : AuthRequest)
    → ((is_known c r ≡ false) × (serve c s route r ≡ (s, failed 401)))
      ⊎ ((is_known c r ≡ true)
          × ((serve c s route r).0.auth_rl
              ≡ (allow s.auth_rl r.victim r.now (client_ip r.remote_addr)).0)
          × ((((allow s.auth_rl r.victim r.now (client_ip r.remote_addr)).1 ≡ false)
                × ((serve c s route r).1 ≡ failed 429)
                × ((serve c s route r).0.login ≡ s.login))
              ⊎ (((allow s.auth_rl r.victim r.now (client_ip r.remote_addr)).1 ≡ true)
                  × ((serve c s route r).1 ≡ (handle route r.field s.login.auth).1)
                  × ((is_accepted (serve c s route r).1 ≡ true)
                      ⊎ ((serve c s route r).0.login ≡ s.login)))))
unfolding with_rate_limit
serve_cases c s route r = elim (Bool-cases (is_known c r)) [
  | inr e ↦ inl (e, serve-unknown c s route r e)
  | inl e ↦
      let kept = handle-rejected route r.field s.login.auth in
      inr (
        rw (serve-known c s route r e) (
          e,
          auth_rl-with_rate_limit s r (handle route r.field),
          elim (Bool-cases (allow s.auth_rl r.victim r.now (client_ip r.remote_addr)).1) [
            | inr full ↦
                inl (full, rw (with_rate_limit, full) refl, rw (with_rate_limit, full) refl)
            | inl ok ↦
                inr (ok, rw (with_rate_limit, ok) refl, rw (with_rate_limit, ok) (changed kept))
          ],
        ))
]
  where
    changed :
        (is_accepted (handle route r.field s.login.auth).1 ≡ false
          → (handle route r.field s.login.auth).0 ≡ s.login.auth)
        → (is_accepted (handle route r.field s.login.auth).1 ≡ true)
          ⊎ (record s.login { auth = (handle route r.field s.login.auth).0 } ≡ s.login)
    changed kept = elim (Bool-cases (is_accepted (handle route r.field s.login.auth).1)) [
      | inl e ↦ inl e
      | inr e ↦ inr (ap (λ x. record s.login { auth = x }) (kept e))
    ]
