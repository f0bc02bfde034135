-- ===== src/Broker/Fan.antt =====
-- What internal/bridge/updates.go promises: each subscriber has a queue of its own, of bounded
-- length, and everything published while it stays is put at the end of the queue, or is lost to
-- it when the queue is full. There are no ids, no channels and no map.
use tg_bridge.Prelude.{
  ℕ, ◌+◌, ◌-◌, Bool, true, false, Option, none, some, List, [], ◌∷◌, ◌++◌, length, ltb, ◌==◌,
  if◌then◌else◌,
}
use tg_bridge.Broker.{Call, subscribes, unsubscribes, publishes, receives}

-- The subscribers are numbered as they come; `stays` says which of them have not left.
pub record Fan (E : Type 0) : Type 0 where
  pub count : ℕ
  pub cap : ℕ
  pub stays : ℕ → Bool
  pub queue : ℕ → List E

module _ {E : Type 0} where
  unfoldable pub empty : ℕ → Fan E
  empty cap = record { count = 0; cap = cap; stays = λ n. false; queue = λ n. [] }

  unfoldable pub join : Fan E → Fan E
  join f = record f {
    count = f.count + 1;
    stays = λ n. if n == f.count then true else f.stays n;
    queue = λ n. if n == f.count then [] else f.queue n;
  }

  unfoldable pub leave : Fan E → ℕ → Fan E
  leave f k = record f { stays = λ n. if n == k then false else f.stays n }

  abbrev pub put : ℕ → E → List E → List E
  put cap e q = if ltb (length q) cap then q ++ (e ∷ []) else q

  unfoldable pub tell : Fan E → E → Fan E
  tell f e = record f { queue = λ n. if f.stays n then put f.cap e (f.queue n) else f.queue n }

  abbrev pub front : List E → Option E
  front [] = none
  front (e ∷ q) = some e

  abbrev pub rest : List E → List E
  rest [] = []
  rest (e ∷ q) = q

  unfoldable pub take : Fan E → ℕ → Fan E
  take f k = record f { queue = λ n. if n == k then rest (f.queue n) else f.queue n }

  -- The subscriber with number `n` has the id `n + 1`.
  unfoldable pub act : Fan E → Call E → Fan E × Option E
  act f subscribes = (join f, none)
  act f (unsubscribes id) = (if id == 0 then f else leave f (id - 1), none)
  act f (publishes e) = (tell f e, none)
  act f (receives k) = (take f k, front (f.queue k))

  -- What the receivers get.
  unfoldable pub replies : Fan E → List (Call E) → List (Option E)
  replies f [] = []
  replies f (k ∷ ks) = let (f', reply) = act f k in reply ∷ replies f' ks
