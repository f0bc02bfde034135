-- ===== src/RateLimit/Window.antt =====
-- How many calls the limiter of internal/httpapi/ratelimit.go lets through in a span of time.
use tg_bridge.Prelude.{
  ℕ, ◌+◌, ◌-◌, ◌*◌, ◌≡◌, ◌≤◌, inl, inr, refl, sym, ap, ◌∙◌, true, false, Option, none, some, List,
  [], ◌∷◌, ◌⊎◌, length, Str, ltb, str_eq, str_eq_iff, str_eq_refl, subst, All, arith, Bool-cases,
  Option-cases, if◌then◌else◌,
}
use tg_bridge.Prelude.Map
use tg_bridge.RateLimit.{
  token, Bucket, RateLimiter, new_rate_limiter, min, take_token, make_room, allow,
}

-- A call: the key that a full map gives up, the time and the address.
pub record Call : Type 0 where
  pub victim : Str
  pub now : ℕ
  pub ip : Str

-- How often an address is let through, by calls one after the other.
unfoldable pub passes : RateLimiter → Str → List Call → ℕ
passes r ip [] = 0
passes r ip (k ∷ ks) =
    let (r', ok) = allow r k.victim k.now k.ip in
    let rest = passes r' ip ks in if str_eq k.ip ip then (if ok then rest + 1 else rest) else rest

-- What a bucket would hold at a time; an address without a bucket gets a full one.
unfoldable holds_at : ℕ → ℕ → ℕ → Option Bucket → ℕ
holds_at rate burst now none = burst
holds_at rate burst now (some b) = min (b.tokens + (now - b.last) * rate) burst

abbrev IsPast : ℕ → Option Bucket → Type 0
IsPast now none = Unit
IsPast now (some b) = b.last ≤ now

times_add : (a b r : ℕ) → (a + b) * r ≡ a * r + b * r
times_add a b r = ground arith

holds_at-later :
    (rate burst now later : ℕ) (o : Option Bucket)
    → IsPast now o
    → now ≤ later
    → holds_at rate burst later o ≤ holds_at rate burst now o + (later - now) * rate
unfolding holds_at
holds_at-later rate burst now later none p le = omega arith
holds_at-later rate burst now later (some b) p le =
    let split : later - b.last ≡ (now - b.last) + (later - now) = omega arith in
    let more : (later - b.last) * rate ≡ (now - b.last) * rate + (later - now) * rate =
      ap (λ x. x * rate) split ∙ times_add _ _ rate in
    ground arith

-- A token taken at a time lowers what the bucket holds at that time.
take_token-holds :
    (r : RateLimiter) (now : ℕ) (b : Bucket)
    → holds_at r.rate r.burst now (some (take_token r now b).0)
        + (if (take_token r now b).1 then token else 0)
      ≤ holds_at r.rate r.burst now (some b)
unfolding holds_at take_token
take_token-holds r now b =
    let none_left : now - now ≡ 0 = omega arith in
    let z : (now - now) * r.rate ≡ 0 = ap (λ x. x * r.rate) none_left ∙ omega arith in
    elim (Bool-cases (ltb (min (b.tokens + (now - b.last) * r.rate) r.burst) token)) [
      | inl e ↦ rw e (ground (arith, z))
      | inr e ↦ rw e (ground (arith, z))
    ]

-- What one call does to the bucket of an address that is not the victim: a call for another address
-- leaves it, and a call for it takes what it lets through.
abbrev Takes : RateLimiter → Str → Call → Type 0
Takes r ip k =
    let o = Map.get ip r.buckets in
    let (r', ok) = allow r k.victim k.now k.ip in
    let o' = Map.get ip r'.buckets in
    (r'.rate ≡ r.rate)
    × (r'.burst ≡ r.burst)
    × (str_eq k.ip ip ≡ false → o' ≡ o)
    × (str_eq k.ip ip ≡ true
        → IsPast k.now o'
          × (holds_at r.rate r.burst k.now o' + (if ok then token else 0)
              ≤ holds_at r.rate r.burst k.now o))

get-make_room :
    (victim ip : Str) (m : List (Str × Bucket))
    → str_eq victim ip ≡ false
    → Map.get ip (make_room victim m) ≡ Map.get ip m
unfolding make_room
get-make_room victim ip m ne = ground (arith, Map.get-delete victim ip m)

get-set_same :
    (ip : Str) (b : Bucket) (m : List (Str × Bucket)) → Map.get ip (Map.set ip b m) ≡ some b
get-set_same ip b m = Map.get-set ip ip b m ∙ rw (str_eq_refl ip) refl

take_token-last : (r : RateLimiter) (now : ℕ) (b : Bucket) → (take_token r now b).0.last ≤ now
unfolding take_token
take_token-last r now b = ground arith

-- What a call for an address does to its bucket.
abbrev TakesOwn : RateLimiter → Str → Str → ℕ → Type 0
TakesOwn r ip victim now =
    let (r', ok) = allow r victim now ip in
    let o' = Map.get ip r'.buckets in
    (r'.rate ≡ r.rate)
    × (r'.burst ≡ r.burst)
    × IsPast now o'
    × (holds_at r.rate r.burst now o' + (if ok then token else 0)
        ≤ holds_at r.rate r.burst now (Map.get ip r.buckets))

allow-TakesOwn : (r : RateLimiter) (ip victim : Str) (now : ℕ) → TakesOwn r ip victim now
unfolding allow holds_at
allow-TakesOwn r ip victim now = elim (Option-cases (Map.get ip r.buckets)) [
  | inl e ↦
      let full : Bucket = record { tokens = r.burst; last = now } in
      let (b', ok) = take_token r now full in
      let found = get-set_same ip b' (make_room victim r.buckets) in
      let bound = take_token-holds r now full in
      let past = take_token-last r now full in
      rw (allow, e)
        (
          refl,
          refl,
          subst (IsPast now) (sym found) past,
          subst (λ o. holds_at r.rate r.burst now o + (if ok then token else 0) ≤ r.burst)
              (sym found) (ground (arith, bound)),
        )
  | inr (b, e) ↦
      let (b', ok) = take_token r now b in
      let found = get-set_same ip b' r.buckets in
      let past = take_token-last r now b in
      rw (allow, e)
        (
          refl,
          refl,
          subst (IsPast now) (sym found) past,
          subst
              (λ o.
                holds_at r.rate r.burst now o + (if ok then token else 0)
                ≤ holds_at r.rate r.burst now (some b))
              (sym found) (take_token-holds r now b),
        )
]

allow-Takes : (r : RateLimiter) (ip : Str) (k : Call) → str_eq k.victim ip ≡ false → Takes r ip k
unfolding allow
allow-Takes r ip k ne = elim (Bool-cases (str_eq k.ip ip)) [
  | inr other ↦ elim (Option-cases (Map.get k.ip r.buckets)) [
    | inl e ↦
        rw (allow, e)
          (
            refl,
            refl,
            λ q. Map.get-set k.ip ip _ _ ∙ rw other (get-make_room k.victim ip r.buckets ne),
            λ q. cc,
          )
    | inr (b, e) ↦ rw (allow, e) (refl, refl, λ q. Map.get-set k.ip ip _ _ ∙ rw other refl, λ q. cc)
  ]
  | inl same ↦
      let here : k.ip ≡ ip = (str_eq_iff k.ip ip).0 same in
      let (rate, burst, past, le) = allow-TakesOwn r k.ip k.victim k.now in
      (
        rate,
        burst,
        λ q. cc,
        λ q.
            subst
              (λ x.
                IsPast k.now (Map.get x (allow r k.victim k.now k.ip).0.buckets)
                × (holds_at r.rate r.burst k.now (Map.get x (allow r k.victim k.now k.ip).0.buckets)
                      + (if (allow r k.victim k.now k.ip).1 then token else 0)
                    ≤ holds_at r.rate r.burst k.now (Map.get x r.buckets)))
              here (past, le),
      )
]

abbrev pub IsOrdered : ℕ → ℕ → List Call → Type 0
IsOrdered start finish [] = start ≤ finish
IsOrdered start finish (k ∷ ks) = (start ≤ k.now) × IsOrdered k.now finish ks

IsOrdered-le : (start finish : ℕ) (ks : List Call) → IsOrdered start finish ks → start ≤ finish
IsOrdered-le start finish [] le = le
IsOrdered-le start finish (k ∷ ks) (le, more) =
    let rest = IsOrdered-le k.now finish ks more in omega arith

IsPast-later : (now later : ℕ) (o : Option Bucket) → now ≤ later → IsPast now o → IsPast later o
IsPast-later now later none le p = tt
IsPast-later now later (some b) le p = omega arith

passes-holds :
    (r : RateLimiter) (ip : Str) (start finish : ℕ) (ks : List Call)
    → IsOrdered start finish ks
    → All (λ k. str_eq k.victim ip ≡ false) ks
    → IsPast start (Map.get ip r.buckets)
    → passes r ip ks * token
      ≤ holds_at r.rate r.burst start (Map.get ip r.buckets) + (finish - start) * r.rate
unfolding passes
passes-holds r ip start finish [] le all past = omega arith
passes-holds r ip start finish (k ∷ ks) (le, more) (ne, all) past =
    let (rate, burst, leaves, takes) = allow-Takes r ip k ne in
    let r' = (allow r k.victim k.now k.ip).0 in
    let o = Map.get ip r.buckets in
    let o' = Map.get ip r'.buckets in
    let grown = holds_at-later r.rate r.burst start k.now o past le in
    let le' = IsOrdered-le k.now finish ks more in
    let split : finish - start ≡ (k.now - start) + (finish - k.now) = omega arith in
    let time : (finish - start) * r.rate ≡ (k.now - start) * r.rate + (finish - k.now) * r.rate =
      ap (λ x. x * r.rate) split ∙ times_add _ _ r.rate in
    let settled : IsPast k.now o'
        → passes r' ip ks * token ≤ holds_at r.rate r.burst k.now o' + (finish - k.now) * r.rate =
      λ past'.
        subst (λ x. passes r' ip ks * token ≤ holds_at x r.burst k.now o' + (finish - k.now) * x)
          rate
          (subst
            (λ x.
              passes r' ip ks * token ≤ holds_at r'.rate x k.now o' + (finish - k.now) * r'.rate)
            burst (passes-holds r' ip k.now finish ks more all past')) in
    elim (Bool-cases (str_eq k.ip ip)) [
      | inl same ↦
          let (past', taken) = takes same in
          let rest = settled past' in rw (passes, same) (ground arith)
      | inr other ↦
          let kept = leaves other in
          let rest =
            settled (subst (IsPast k.now) (sym kept) (IsPast-later start k.now o le past)) in
          let rest' : passes r' ip ks * token
              ≤ holds_at r.rate r.burst k.now o + (finish - k.now) * r.rate =
            subst
              (λ x.
                passes r' ip ks * token
                ≤ holds_at r.rate r.burst k.now x + (finish - k.now) * r.rate)
              kept rest in
          rw (passes, other) (omega arith)
    ]

-- The limiter after calls one after the other.
unfoldable pub run_calls : RateLimiter → List Call → RateLimiter
run_calls r [] = r
run_calls r (k ∷ ks) = run_calls (allow r k.victim k.now k.ip).0 ks

-- The bucket of an address stays when a full map gives one up, or is the one that is given up.
make_room-cases :
    (victim ip : Str) (m : List (Str × Bucket))
    → (Map.get ip (make_room victim m) ≡ none) ⊎ (Map.get ip (make_room victim m) ≡ Map.get ip m)
unfolding make_room
make_room-cases victim ip m = elim (Bool-cases (str_eq victim ip)) [
  | inr ne ↦ inr (get-make_room victim ip m ne)
  | inl e ↦ elim (Bool-cases (ltb 10000 (length m))) [
    | inl full ↦ inl (rw (make_room, full) (Map.get-delete victim ip m ∙ rw e refl))
    | inr room ↦ inr (rw (make_room, room) refl)
  ]
]

allow-IsPast :
    (r : RateLimiter) (ip : Str) (start : ℕ) (k : Call)
    → IsPast start (Map.get ip r.buckets)
    → start ≤ k.now
    → IsPast k.now (Map.get ip (allow r k.victim k.now k.ip).0.buckets)
unfolding allow
allow-IsPast r ip start k past le =
    let later = IsPast-later start k.now (Map.get ip r.buckets) le past in
    elim (Bool-cases (str_eq k.ip ip)) [
      | inl same ↦
          let (_, _, own, _) = allow-TakesOwn r k.ip k.victim k.now in
          subst (λ x. IsPast k.now (Map.get x (allow r k.victim k.now k.ip).0.buckets))
            ((str_eq_iff k.ip ip).0 same) own
      | inr other ↦ elim (Option-cases (Map.get k.ip r.buckets)) [
        | inr (b, e) ↦
            rw (allow, e)
              (subst (IsPast k.now) (sym (Map.get-set k.ip ip _ _ ∙ rw other refl)) later)
        | inl e ↦
            rw (allow, e)
              (subst (IsPast k.now) (sym (Map.get-set k.ip ip _ _ ∙ rw other refl))
                (elim (make_room-cases k.victim ip r.buckets) [
                  | inl gone ↦ subst (IsPast k.now) (sym gone) tt
                  | inr kept ↦ subst (IsPast k.now) (sym kept) later
                ]))
      ]
    ]

run_calls-IsPast :
    (r : RateLimiter) (ip : Str) (start finish : ℕ) (ks : List Call)
    → IsOrdered start finish ks
    → IsPast start (Map.get ip r.buckets)
    → ((run_calls r ks).rate ≡ r.rate)
      × ((run_calls r ks).burst ≡ r.burst)
      × IsPast finish (Map.get ip (run_calls r ks).buckets)
unfolding run_calls
run_calls-IsPast r ip start finish [] le past = (refl, refl, IsPast-later start finish _ le past)
run_calls-IsPast r ip start finish (k ∷ ks) (le, more) past =
    let (rate, burst, _, _) = allow-TakesOwn r k.ip k.victim k.now in
    let (rate', burst', past') =
      run_calls-IsPast (allow r k.victim k.now k.ip).0 ip k.now finish ks more
        (allow-IsPast r ip start k past le) in
    (rate' ∙ rate, burst' ∙ burst, past')

-- However long an address stays away, it never holds more than the burst.
holds_at-le : (rate burst now : ℕ) (o : Option Bucket) → holds_at rate burst now o ≤ burst
unfolding holds_at
holds_at-le rate burst now none = omega arith
holds_at-le rate burst now (some b) = ground arith

-- At any time in the life of a limiter, after any calls: of the calls in a span of time at most
-- `burst` and the rate's share of the span are let through for one address, whatever the calls for
-- other addresses, when the times do not go back and, in the span, the bound on the number of
-- buckets does not give up the address's own bucket.
pub passes-run_calls :
    (per_minute burst : ℕ) (ip : Str) (first start finish : ℕ) (before ks : List Call)
    → IsOrdered first start before
    → IsOrdered start finish ks
    → All (λ k. str_eq k.victim ip ≡ false) ks
    → passes (run_calls (new_rate_limiter per_minute burst) before) ip ks * token
      ≤ burst * token + (finish - start) * per_minute
unfolding new_rate_limiter Map.get
passes-run_calls per_minute burst ip first start finish before ks earlier times kept =
    let r = run_calls (new_rate_limiter per_minute burst) before in
    let (rate, most, past) =
      run_calls-IsPast (new_rate_limiter per_minute burst) ip first start before earlier tt in
    let held = holds_at-le r.rate r.burst start (Map.get ip r.buckets) in
    let few = passes-holds r ip start finish ks times kept past in
    let share : (finish - start) * r.rate ≡ (finish - start) * per_minute =
      ap (λ x. (finish - start) * x) rate in
    omega (arith, held, few, share, most)
