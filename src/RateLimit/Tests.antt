-- ===== src/RateLimit/Tests.antt =====
-- The limiter of internal/httpapi/ratelimit.go at concrete times.
use tg_bridge.Prelude.{
  ℕ, inl, inr, length, ◌+◌, ◌-◌, ◌*◌, ◌≡◌, ◌≤◌, refl, List, [], ◌∷◌, codes, str_eq, arith,
}
use tg_bridge.Prelude.Map
use tg_bridge.RateLimit.{token, new_rate_limiter, take_token, make_room, allow}
use tg_bridge.RateLimit.Room.{AllRanged, run_calls-new_rate_limiter}
use tg_bridge.RateLimit.Window.{Call, passes, run_calls, passes-run_calls}

abbrev second : ℕ
second = 1000000000

abbrev call : ℕ → Call
call now = record { victim = codes "z"; now = now; ip = codes "a" }

-- The limiter of the auth routes: ten calls a minute, and five at once.
abbrev calls : List Call
calls =
    call 0 ∷ call 0 ∷ call 0 ∷ call 0 ∷ call 0 ∷ call 1 ∷ call (5 * second) ∷ call (6 * second) ∷ []

-- The sixth call waits for six seconds.
six_through : passes (new_rate_limiter 10 5) (codes "a") calls ≡ 6
unfolding passes allow take_token make_room new_rate_limiter Map.get Map.set Map.delete str_eq
six_through = refl

-- After the calls above and a pause of an hour, five more at once are let through, and not six.
abbrev hour : ℕ
hour = 3600 * second

abbrev later : List Call
later = call hour ∷ call hour ∷ call hour ∷ call hour ∷ call hour ∷ call hour ∷ []

five_more : passes (run_calls (new_rate_limiter 10 5) calls) (codes "a") later ≡ 5
unfolding run_calls passes allow take_token make_room new_rate_limiter Map.get Map.set Map.delete
    str_eq
five_more = refl

passes-run_calls_example :
    passes (run_calls (new_rate_limiter 10 5) calls) (codes "a") later * token
    ≤ 5 * token + (hour - hour) * 10
passes-run_calls_example =
    passes-run_calls 10 5 (codes "a") 0 hour hour calls later
      (
        omega arith,
        (
          omega arith,
          (
            omega arith,
            (omega arith, (omega arith, (omega arith, (omega arith, (omega arith, omega arith))))),
          ),
        ),
      )
      (
        omega arith,
        (omega arith, (omega arith, (omega arith, (omega arith, (omega arith, omega arith))))),
      )
      (unfold str_eq in (refl, (refl, (refl, (refl, (refl, (refl, tt)))))))

abbrev two_calls : List Call
two_calls =
    record { victim = codes "a"; now = 0; ip = codes "a" }
    ∷ record { victim = codes "a"; now = 1; ip = codes "b" }
    ∷ []

two_ranged : AllRanged (new_rate_limiter 10 5) two_calls
unfolding allow take_token make_room new_rate_limiter Map.get Map.set Map.delete str_eq
two_ranged = (inl refl, (inr (record { tokens = 4 * token; last = 0 }, refl), tt))

run_calls-new_rate_limiter_example :
    length (run_calls (new_rate_limiter 10 5) two_calls).buckets ≤ 10001
run_calls-new_rate_limiter_example = run_calls-new_rate_limiter 10 5 two_calls two_ranged
