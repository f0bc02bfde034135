-- ===== src/Broker.antt =====
-- The event broker of internal/bridge/updates.go. A channel is a cell of a heap: `chans` gives the
-- channel at an address, and `subs` the address that is registered under an id.
pub mod Valid
pub mod Safe
pub mod Delivery
pub mod Fan
pub mod Shown
pub mod Refine
mod Tests
use tg_bridge.Prelude.{
  ℕ, suc, ◌+◌, ◌%◌, ◌^◌, Bool, true, false, Option, none, some, List, [], ◌∷◌, ◌++◌, length, ltb,
  ◌==◌, if◌then◌else◌,
}

-- A buffered channel of Go.
pub record Chan (E : Type 0) : Type 0 where
  pub buffer : List E
  pub cap : ℕ
  pub closed : Bool

-- `nextID` is a uint64. `next_addr` is the first address without a channel.
pub record Broker (E : Type 0) : Type 0 where
  pub next_id : ℕ
  pub subs : List (ℕ × ℕ)
  pub buf_size : ℕ
  pub chans : ℕ → Chan E
  pub next_addr : ℕ

-- The address that an id has in the map, and the map without an id.
unfoldable pub lookup : ℕ → List (ℕ × ℕ) → Option ℕ
lookup id [] = none
lookup id ((i, a) ∷ s) = let rest = lookup id s in if i == id then some a else rest

unfoldable pub delete : ℕ → List (ℕ × ℕ) → List (ℕ × ℕ)
delete id [] = []
delete id ((i, a) ∷ s) = let rest = delete id s in if i == id then rest else (i, a) ∷ rest

module _ {E : Type 0} where
  unfoldable pub update : (ℕ → Chan E) → ℕ → Chan E → ℕ → Chan E
  update h a c b = if b == a then c else h b

  abbrev pub fresh : ℕ → Chan E
  fresh cap = record { buffer = []; cap = cap; closed = false }

  unfoldable pub new_broker : ℕ → Broker E
  new_broker buf_size = record {
    next_id = 0;
    subs = [];
    buf_size = buf_size;
    chans = λ a. fresh 0;
    next_addr = 0;
  }

  -- `Subscribe`: the broker, the id for the unsubscribe function and the channel's address.
  unfoldable pub subscribe : Broker E → Broker E × ℕ × ℕ
  subscribe b =
      let id = (b.next_id + 1) % 2 ^ 64 in
      (
        record b {
          next_id = id;
          subs = (id, b.next_addr) ∷ delete id b.subs;
          chans = update b.chans b.next_addr (fresh b.buf_size);
          next_addr = suc b.next_addr;
        },
        id,
        b.next_addr,
      )

  -- `close(c)`, which panics on a closed channel (`none`).
  unfoldable pub close : Chan E → Option (Chan E)
  close c = if c.closed then none else some (record c { closed = true })

  -- The function that `Subscribe` returns.
  unfoldable pub unsubscribe : Broker E → ℕ → Option (Broker E)
  unsubscribe b id = elim (lookup id b.subs) [
    | none ↦ some b
    | some a ↦ elim (close (b.chans a)) [
      | none ↦ none
      | some c ↦ some (record b { subs = delete id b.subs; chans = update b.chans a c })
    ]
  ]

  -- `select { case ch <- e: default: }`: a full channel drops the event, a closed one panics.
  unfoldable pub offer : E → Chan E → Option (Chan E)
  offer e c =
      if c.closed
      then none
      else if ltb (length c.buffer) c.cap
      then some (record c { buffer = c.buffer ++ (e ∷ []) })
      else some c

  unfoldable pub publish_to : E → List (ℕ × ℕ) → (ℕ → Chan E) → Option (ℕ → Chan E)
  publish_to e [] h = some h
  publish_to e ((i, a) ∷ s) h = elim (offer e (h a)) [
    | none ↦ none
    | some c ↦ publish_to e s (update h a c)
  ]

  unfoldable pub publish : Broker E → E → Option (Broker E)
  publish b e = elim (publish_to e b.subs b.chans) [
    | none ↦ none
    | some h ↦ some (record b { chans = h })
  ]

  -- A subscriber takes the first event out of its channel, if there is one.
  unfoldable pub receive : Broker E → ℕ → Broker E × Option E
  receive b a = elim (b.chans a).buffer [
    | [] ↦ (b, none)
    | e ∷ rest ↦
        (record b { chans = update b.chans a (record (b.chans a) { buffer = rest }) }, some e)
  ]

pub data Call (E : Type 0) : Type 0 where
  subscribes : Call E
  unsubscribes : ℕ → Call E
  publishes : E → Call E
  receives : ℕ → Call E

module _ {E : Type 0} where
  unfoldable pub step : Broker E → Call E → Option (Broker E)
  unfolding subscribe unsubscribe publish receive
  step b subscribes = some (subscribe b).0
  step b (unsubscribes id) = unsubscribe b id
  step b (publishes e) = publish b e
  step b (receives a) = some (receive b a).0

  unfoldable pub run : Broker E → List (Call E) → Option (Broker E)
  run b [] = some b
  run b (k ∷ ks) = elim (step b k) [ none ↦ none | some b' ↦ run b' ks ]
