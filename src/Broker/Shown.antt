-- ===== src/Broker/Shown.antt =====
-- When a broker of internal/bridge/updates.go shows the queues of the abstract specification.
use tg_bridge.Prelude.{
  ℕ, ◌+◌, ◌^◌, ◌≡◌, ◌≤◌, ◌<◌, inl, inr, refl, ap, ◌∙◌, true, false, Option, none, some, List, [],
  ◌∷◌, ◌==◌, All, arith, Bool-cases, if◌then◌else◌,
}
use tg_bridge.Broker.{
  Broker, update, lookup, delete, receive, Call, subscribes, unsubscribes, publishes, receives,
  step,
}
use tg_bridge.Broker.Valid.{All-delete}
use tg_bridge.Broker.Safe.{subscribed, subscribe-subscribed}
use tg_bridge.Broker.Delivery.{has}
use tg_bridge.Broker.Fan.{Fan, join, act}

pub lookup-delete :
    (i j : ℕ) (s : List (ℕ × ℕ)) → lookup j (delete i s) ≡ (if i == j then none else lookup j s)
unfolding lookup delete
lookup-delete i j [] = ground arith
lookup-delete i j ((k, a) ∷ s) = ground (arith, lookup-delete i j s)

has-lookup :
    (n : ℕ) (s : List (ℕ × ℕ))
    → All (λ t. t.0 ≡ t.1 + 1) s
    → has n s ≡ elim (lookup (n + 1) s) [ none ↦ false | some a ↦ true ]
unfolding has lookup
has-lookup n [] all = refl
has-lookup n ((i, a) ∷ s) (e, all) = elim (Bool-cases (a == n)) [
  | inl same ↦ let t : (i == n + 1) ≡ true = ground arith in rw (same, t) refl
  | inr other ↦ let t : (i == n + 1) ≡ false = ground arith in rw (other, t) (has-lookup n s all)
]

pub lookup-zero : (s : List (ℕ × ℕ)) → All (λ t. t.0 ≡ t.1 + 1) s → lookup 0 s ≡ none
unfolding lookup
lookup-zero [] all = refl
lookup-zero ((i, a) ∷ s) (e, all) =
    let t : (i == 0) ≡ false = ground arith in rw t (lookup-zero s all)

module _ {E : Type 0} where
  -- What a call gives to its caller: a received event.
  unfoldable pub reply : Broker E → Call E → Option E
  reply b subscribes = none
  reply b (unsubscribes id) = none
  reply b (publishes e) = none
  reply b (receives a) = (receive b a).1

  -- The replies of calls one after the other, unless one panics.
  unfoldable pub run_replies : Broker E → List (Call E) → Option (List (Option E))
  run_replies b [] = some []
  run_replies b (k ∷ ks) = elim (step b k) [
    | none ↦ none
    | some b' ↦ elim (run_replies b' ks) [ none ↦ none | some rs ↦ some (reply b k ∷ rs) ]
  ]

  pub record IsFan (b : Broker E) (f : Fan E) : Type 0 where
    pub count : b.next_addr ≡ f.count
    pub ids : b.next_id ≡ f.count
    pub cap : b.buf_size ≡ f.cap
    pub own_id : All (λ t. t.0 ≡ t.1 + 1) b.subs
    pub known : (n : ℕ) → lookup (n + 1) b.subs ≡ (if f.stays n then some n else none)
    pub later : (n : ℕ) → f.count ≤ n → f.stays n ≡ false
    pub caps : (n : ℕ) → n < f.count → (b.chans n).cap ≡ f.cap
    pub queue : (n : ℕ) → (b.chans n).buffer ≡ f.queue n

  pub has-stays : (b : Broker E) (f : Fan E) (n : ℕ) → IsFan b f → has n b.subs ≡ f.stays n
  has-stays b f n i = has-lookup n b.subs i.own_id ∙ rw (i.known n) (ground arith)

  -- What one call leaves, and what it replies.
  abbrev pub Acts : Broker E → Fan E → Call E → Type 0
  Acts b f k =
      (b' : Broker E) × (step b k ≡ some b') × IsFan b' (act f k).0 × (reply b k ≡ (act f k).1)

  pub subscribe-Acts :
      (b : Broker E) (f : Fan E) → IsFan b f → b.next_id + 1 < 2 ^ 64 → Acts b f subscribes
  unfolding step act join subscribed reply lookup update
  subscribe-Acts b f i lt = (
    subscribed b,
    ap (λ (r : Broker E × ℕ × ℕ). some r.0) (subscribe-subscribed b lt),
    record {
      count = ground (arith, i.count);
      ids = ground (arith, i.ids);
      cap = i.cap;
      own_id = (
        omega (arith, i.ids, i.count),
        All-delete (λ t. t.0 ≡ t.1 + 1) (b.next_id + 1) b.subs i.own_id,
      );
      known = λ n.
          ground (arith, i.known n, i.ids, i.count, lookup-delete (b.next_id + 1) (n + 1) b.subs);
      later = λ n le. ground (arith, i.later n);
      caps = λ n below. ground (arith, i.caps n, i.count, i.cap);
      queue = λ n. ground (arith, i.queue n, i.count);
    },
    refl,
  )
