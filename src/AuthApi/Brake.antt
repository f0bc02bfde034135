-- ===== src/AuthApi/Brake.antt =====
-- The limiter of internal/httpapi/ratelimit.go as a brake on the submissions of auth.go.
use tg_bridge.Prelude.{
  ℕ, ◌+◌, ◌-◌, ◌*◌, ◌≡◌, ◌≤◌, inl, inr, false, List, [], ◌∷◌, Str, str_eq, All, arith, Bool-cases,
  if◌then◌else◌, subst, refl, sym, ap, ◌∙◌,
}
use tg_bridge.Config.{Config}
use tg_bridge.Auth.{Login, step, answers}
use tg_bridge.RateLimit.{token, allow}
use tg_bridge.RateLimit.Window.{Call, passes, run_calls, IsOrdered, passes-run_calls}
use tg_bridge.AuthApi.HostPort.{client_ip}
use tg_bridge.AuthApi.Serve.{
  is_accepted, auth_rl-with_rate_limit, with_rate_limit-accepted, serve-unknown, serve-known,
}
use tg_bridge.AuthApi.{
  AuthRequest, AuthResponse, AuthServer, auth_rate_limiter, with_rate_limit, is_known, handle,
  serve, Turn, asks, goes_on, turn,
}

-- How many values from one address are accepted, by turns one after the other.
unfoldable pub accepted_from : Config → Str → AuthServer → List Turn → ℕ
accepted_from c ip s [] = 0
accepted_from c ip s (goes_on answer ∷ ts) = accepted_from c ip (turn c s (goes_on answer)) ts
accepted_from c ip s (asks route r ∷ ts) =
    let rest = accepted_from c ip (turn c s (asks route r)) ts in
    if str_eq (client_ip r.remote_addr) ip
    then (if is_accepted (serve c s route r).1 then rest + 1 else rest)
    else rest

-- The calls of the limiter that the turns make.
unfoldable pub calls_of : Config → List Turn → List Call
calls_of c [] = []
calls_of c (goes_on answer ∷ ts) = calls_of c ts
calls_of c (asks route r ∷ ts) =
    let rest = calls_of c ts in
    if is_known c r
    then record { victim = r.victim; now = r.now; ip = client_ip r.remote_addr } ∷ rest
    else rest

abbrev call : AuthRequest → Call
call r = record { victim = r.victim; now = r.now; ip = client_ip r.remote_addr }

-- A value is accepted only when the limiter has let its request through.
accepted_from-le :
    (c : Config) (ip : Str) (s : AuthServer) (ts : List Turn)
    → accepted_from c ip s ts ≤ passes s.auth_rl ip (calls_of c ts)
unfolding accepted_from calls_of passes turn
accepted_from-le c ip s [] = omega arith
accepted_from-le c ip s (goes_on answer ∷ ts) =
    accepted_from-le c ip (record s { login = step s.login (answers answer) }) ts
accepted_from-le c ip s (asks route r ∷ ts) = elim (Bool-cases (is_known c r)) [
  | inr e ↦ rw (turn, e, serve-unknown c s route r e) (ground (arith, accepted_from-le c ip s ts))
  | inl e ↦
      let go = with_rate_limit s r (handle route r.field) in
      let r' = (allow s.auth_rl r.victim r.now (client_ip r.remote_addr)).0 in
      let rest : accepted_from c ip go.0 ts ≤ passes r' ip (calls_of c ts) =
        subst (λ x. accepted_from c ip go.0 ts ≤ passes x ip (calls_of c ts))
          (auth_rl-with_rate_limit s r (handle route r.field)) (accepted_from-le c ip go.0 ts) in
      let passed = with_rate_limit-accepted s r (handle route r.field) in
      rw (turn, e, serve-known c s route r e)
        (elim (Bool-cases (str_eq (client_ip r.remote_addr) ip)) [
          | inr other ↦ rw other rest
          | inl same ↦ elim (Bool-cases (is_accepted go.1)) [
            | inl ok ↦ rw (same, ok, passed ok) (omega (arith, rest))
            | inr no_ok ↦ rw (same, no_ok) (ground (arith, rest))
          ]
        ])
]

-- The times of the requests do not go back, and stay in a span.
abbrev pub IsTimed : ℕ → ℕ → List Turn → Type 0
IsTimed start finish [] = start ≤ finish
IsTimed start finish (goes_on answer ∷ ts) = IsTimed start finish ts
IsTimed start finish (asks route r ∷ ts) = (start ≤ r.now) × IsTimed r.now finish ts

-- No request makes the limiter give up the address.
abbrev pub IsKept : Str → List Turn → Type 0
IsKept ip [] = Unit
IsKept ip (goes_on answer ∷ ts) = IsKept ip ts
IsKept ip (asks route r ∷ ts) = (str_eq r.victim ip ≡ false) × IsKept ip ts

IsOrdered-earlier :
    (start later finish : ℕ) (ks : List Call)
    → start ≤ later
    → IsOrdered later finish ks
    → IsOrdered start finish ks
IsOrdered-earlier start later finish [] le o = omega arith
IsOrdered-earlier start later finish (k ∷ ks) le (next, o) = (omega arith, o)

IsOrdered-calls_of :
    (c : Config) (start finish : ℕ) (ts : List Turn)
    → IsTimed start finish ts
    → IsOrdered start finish (calls_of c ts)
unfolding calls_of
IsOrdered-calls_of c start finish [] t = t
IsOrdered-calls_of c start finish (goes_on answer ∷ ts) t = IsOrdered-calls_of c start finish ts t
IsOrdered-calls_of c start finish (asks route r ∷ ts) (le, t) =
    let rest = IsOrdered-calls_of c r.now finish ts t in
    elim (Bool-cases (is_known c r)) [
      | inl e ↦ rw e (le, rest)
      | inr e ↦ rw e (IsOrdered-earlier start r.now finish (calls_of c ts) le rest)
    ]

All-calls_of :
    (c : Config) (ip : Str) (ts : List Turn)
    → IsKept ip ts
    → All (λ k. str_eq k.victim ip ≡ false) (calls_of c ts)
unfolding calls_of
All-calls_of c ip [] k = tt
All-calls_of c ip (goes_on answer ∷ ts) k = All-calls_of c ip ts k
All-calls_of c ip (asks route r ∷ ts) (ne, k) = elim (Bool-cases (is_known c r)) [
  | inl e ↦ rw e (ne, All-calls_of c ip ts k)
  | inr e ↦ rw e (All-calls_of c ip ts k)
]

-- The server after turns one after the other.
unfoldable pub run_turns : Config → AuthServer → List Turn → AuthServer
run_turns c s [] = s
run_turns c s (t ∷ ts) = run_turns c (turn c s t) ts

-- The turns before leave the limiter that their calls leave.
auth_rl-run_turns :
    (c : Config) (s : AuthServer) (ts : List Turn)
    → (run_turns c s ts).auth_rl ≡ run_calls s.auth_rl (calls_of c ts)
unfolding run_turns run_calls calls_of turn
auth_rl-run_turns c s [] = refl
auth_rl-run_turns c s (goes_on answer ∷ ts) =
    auth_rl-run_turns c (record s { login = step s.login (answers answer) }) ts
auth_rl-run_turns c s (asks route r ∷ ts) =
    let rest = auth_rl-run_turns c (serve c s route r).0 ts in
    elim (Bool-cases (is_known c r)) [
      | inr e ↦ rw e (
          rest
          ∙ ap (λ (x : AuthServer × AuthResponse). run_calls x.0.auth_rl (calls_of c ts))
              (serve-unknown c s route r e))
      | inl e ↦
          let limited : (serve c s route r).0.auth_rl
              ≡ (allow s.auth_rl r.victim r.now (client_ip r.remote_addr)).0 =
            ap (λ (x : AuthServer × AuthResponse). x.0.auth_rl) (serve-known c s route r e)
            ∙ auth_rl-with_rate_limit s r (handle route r.field) in
          rw e (rest ∙ ap (λ x. run_calls x (calls_of c ts)) limited)
    ]

-- At any time in the life of a server, whatever it has met before, whatever the login is and is
-- answered, and whatever is asked from elsewhere or without a token: of the phones, codes and
-- passwords that one address sends in a span of time, at most five and ten for each minute are
-- accepted. The times do not go back, and in the span the bound on the number of buckets does not
-- give up the address's own bucket.
pub accepted_from-auth_rate_limiter :
    (c : Config) (ip : Str) (login : Login) (first start finish : ℕ) (before ts : List Turn)
    → IsTimed first start before
    → IsTimed start finish ts
    → IsKept ip ts
    → let s = run_turns c (record { auth_rl = auth_rate_limiter; login = login }) before in
      accepted_from c ip s ts * token ≤ 5 * token + (finish - start) * 10
unfolding auth_rate_limiter
accepted_from-auth_rate_limiter c ip login first start finish before ts earlier timed kept =
    let s₀ : AuthServer = record { auth_rl = auth_rate_limiter; login = login } in
    let few = accepted_from-le c ip (run_turns c s₀ before) ts in
    let same = auth_rl-run_turns c s₀ before in
    let most =
      passes-run_calls 10 5 ip first start finish (calls_of c before) (calls_of c ts)
        (IsOrdered-calls_of c first start before earlier)
        (IsOrdered-calls_of c start finish ts timed) (All-calls_of c ip ts kept) in
    let most' : passes (run_turns c s₀ before).auth_rl ip (calls_of c ts) * token
        ≤ 5 * token + (finish - start) * 10 =
      subst (λ r. passes r ip (calls_of c ts) * token ≤ 5 * token + (finish - start) * 10)
        (sym same) most in
    omega (arith, few, most')
