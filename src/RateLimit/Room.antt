-- ===== src/RateLimit/Room.antt =====
-- How many buckets the limiter of internal/httpapi/ratelimit.go holds.
use tg_bridge.Prelude.{
  ℕ, ◌+◌, ◌≡◌, ◌≤◌, ◌⊎◌, inl, inr, sym, some, List, [], ◌∷◌, Str, length, arith, Option-cases,
  subst,
}
use tg_bridge.Prelude.Map
use tg_bridge.RateLimit.{Bucket, RateLimiter, new_rate_limiter, make_room, allow}
use tg_bridge.RateLimit.Window.{Call, run_calls}

module _ {ℓ} {V : Type ℓ} where
  length-delete : (k : Str) (m : List (Str × V)) → length (Map.delete k m) ≤ length m
  unfolding Map.delete
  length-delete k [] = omega arith
  length-delete k ((j, v) ∷ m) = ground (arith, length-delete k m)

  length-delete_found :
      (k : Str) (m : List (Str × V)) (v : V)
      → Map.get k m ≡ some v
      → length (Map.delete k m) + 1 ≤ length m
  unfolding Map.delete Map.get
  length-delete_found k [] v e = cc
  length-delete_found k ((j, u) ∷ m) v e =
      ground (arith, e, length-delete k m, length-delete_found k m v)

-- What a range over a Go map gives first: one of its keys, when it has any.
abbrev IsRanged : Str → List (Str × Bucket) → Type 0
IsRanged victim m = (m ≡ []) ⊎ ((b : Bucket) × (Map.get victim m ≡ some b))

make_room-length :
    (victim : Str) (m : List (Str × Bucket))
    → IsRanged victim m
    → length m ≤ 10001
    → length (make_room victim m) ≤ 10000
unfolding make_room
make_room-length victim m (inl e) le =
    subst (λ x. length (make_room victim x) ≤ 10000) (sym e) (omega arith)
make_room-length victim m (inr (b, e)) le = ground (arith, length-delete_found victim m b e)

allow-length :
    (r : RateLimiter) (k : Call)
    → IsRanged k.victim r.buckets
    → length r.buckets ≤ 10001
    → length (allow r k.victim k.now k.ip).0.buckets ≤ 10001
unfolding allow Map.set
allow-length r k ranged le = elim (Option-cases (Map.get k.ip r.buckets)) [
  | inl e ↦
      let roomy = make_room-length k.victim r.buckets ranged le in
      let fewer = length-delete k.ip (make_room k.victim r.buckets) in
      rw (allow, e, Map.set) (omega (arith, roomy, fewer))
  | inr (b, e) ↦
      let fewer = length-delete_found k.ip r.buckets b e in
      rw (allow, e, Map.set) (omega (arith, fewer, le))
]

-- Each call's range over the buckets gives one of their keys.
abbrev pub AllRanged : RateLimiter → List Call → Type 0
AllRanged r [] = Unit
AllRanged r (k ∷ ks) = IsRanged k.victim r.buckets × AllRanged (allow r k.victim k.now k.ip).0 ks

run_calls-length :
    (r : RateLimiter) (ks : List Call)
    → AllRanged r ks
    → length r.buckets ≤ 10001
    → length (run_calls r ks).buckets ≤ 10001
unfolding run_calls
run_calls-length r [] ranged le = le
run_calls-length r (k ∷ ks) (here, ranged) le =
    run_calls-length (allow r k.victim k.now k.ip).0 ks ranged (allow-length r k here le)

-- However many addresses call, a new limiter never holds more than 10001 buckets, when each range
-- over the map gives one of its keys.
pub run_calls-new_rate_limiter :
    (per_minute burst : ℕ) (ks : List Call)
    → AllRanged (new_rate_limiter per_minute burst) ks
    → length (run_calls (new_rate_limiter per_minute burst) ks).buckets ≤ 10001
unfolding new_rate_limiter
run_calls-new_rate_limiter per_minute burst ks ranged =
    run_calls-length (new_rate_limiter per_minute burst) ks ranged (omega arith)
