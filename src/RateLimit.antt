-- ===== src/RateLimit.antt =====
-- The token buckets of internal/httpapi/ratelimit.go. Times are nanoseconds. A token is counted in
-- units of 1/60000000000, so that a rate per minute adds whole units in each nanosecond; the
-- source's floating-point numbers are these fractions up to their rounding.
pub mod Room
pub mod Window
mod Tests
use tg_bridge.Prelude.{
  ℕ, ◌+◌, ◌-◌, ◌*◌, Bool, true, false, Option, none, some, List, [], ◌∷◌, Str, length, ltb, str_eq,
  if◌then◌else◌,
}
use tg_bridge.Prelude.Map

abbrev pub token : ℕ
token = 60000000000

pub record Bucket : Type 0 where
  pub tokens : ℕ
  pub last : ℕ

pub record RateLimiter : Type 0 where
  pub rate : ℕ
  pub burst : ℕ
  pub buckets : List (Str × Bucket)

unfoldable pub new_rate_limiter : ℕ → ℕ → RateLimiter
new_rate_limiter per_minute burst = record {
  rate = per_minute;
  burst = burst * token;
  buckets = [];
}

abbrev pub min : ℕ → ℕ → ℕ
min a b = if ltb b a then b else a

-- The part of `allow` from the time that has passed.
unfoldable pub take_token : RateLimiter → ℕ → Bucket → Bucket × Bool
take_token r now b =
    let filled = min (b.tokens + (now - b.last) * r.rate) r.burst in
    if ltb filled token
    then (record { tokens = filled; last = now }, false)
    else (record { tokens = filled - token; last = now }, true)

-- The bound on the number of buckets: a range over the map gives some key first, `victim`.
unfoldable pub make_room : Str → List (Str × Bucket) → List (Str × Bucket)
make_room victim m = let less = Map.delete victim m in if ltb 10000 (length m) then less else m

unfoldable pub allow : RateLimiter → Str → ℕ → Str → RateLimiter × Bool
allow r victim now ip = elim (Map.get ip r.buckets) [
  | some b ↦
      let (b', ok) = take_token r now b in (record r { buckets = Map.set ip b' r.buckets }, ok)
  | none ↦
      let (b', ok) = take_token r now (record { tokens = r.burst; last = now }) in
      (record r { buckets = Map.set ip b' (make_room victim r.buckets) }, ok)
]
