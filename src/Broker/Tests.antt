-- ===== src/Broker/Tests.antt =====
-- The broker of internal/bridge/updates.go at concrete calls.
use tg_bridge.Prelude.{
  ◌++◌, ℕ, ◌≡◌, refl, Bool, true, false, Option, none, some, List, [], ◌∷◌, arith,
}
use tg_bridge.Broker.{
  receives, Broker, fresh, update, new_broker, lookup, delete, subscribe, close, unsubscribe, offer,
  publish_to, publish, receive, Call, subscribes, unsubscribes, publishes, step, run,
}
use tg_bridge.Broker.Valid.{IsValid}
use tg_bridge.Broker.Fan.{replies, empty, act, join, leave, tell, take}
use tg_bridge.Broker.Shown.{run_replies}
use tg_bridge.Broker.Refine.{run_replies_refines}

program : Unit {0}
unfolding new_broker lookup delete update subscribe close unsubscribe offer publish_to publish
    receive step run
program = tt

-- Two subscribers, one of which leaves twice.
abbrev calls : List (Call ℕ)
calls =
    subscribes
    ∷ subscribes
    ∷ publishes 7
    ∷ unsubscribes 1
    ∷ unsubscribes 1
    ∷ publishes 8
    ∷ publishes 9
    ∷ []

abbrev buffers : Option (Broker ℕ) → List ℕ × List ℕ × Bool
buffers none = ([], [], false)
buffers (some b) = ((b.chans 0).buffer, (b.chans 1).buffer, (b.chans 0).closed)

-- The second subscriber's channel holds two events, so it misses the last.
two_held : buffers (run (new_broker 2) calls) ≡ (7 ∷ [], 7 ∷ 8 ∷ [], true)
unfolding program
two_held = refl

-- One subscriber on a channel of one event.
abbrev listening : Broker ℕ
listening = record {
  next_id = 1;
  subs = (1, 0) ∷ [];
  buf_size = 1;
  chans = λ a. fresh 1;
  next_addr = 1;
}

listening-IsValid : IsValid listening
listening-IsValid = record {
  registered = (refl, omega arith, omega arith, tt, tt);
  roomy = λ a. omega arith;
}

run_replies_refines_example :
    run_replies (new_broker {E = ℕ} 2) (calls ++ (receives 1 ∷ []))
    ≡ some (replies (empty 2) (calls ++ (receives 1 ∷ [])))
run_replies_refines_example = run_replies_refines 2 (calls ++ (receives 1 ∷ [])) (omega arith)

-- The second subscriber gets the first event; a subscriber that never came gets none.
first_reply :
    replies (empty {E = ℕ} 2) (calls ++ (receives 1 ∷ receives 5 ∷ []))
    ≡ none ∷ none ∷ none ∷ none ∷ none ∷ none ∷ none ∷ some 7 ∷ none ∷ []
unfolding replies empty act join leave tell take
first_reply = refl
