-- ===== src/Events.antt =====
-- The event streams of internal/httpapi/ws.go over the broker of internal/bridge/updates.go, and
-- the bridge that publishes to it (bridge.go).
pub mod Closing
pub mod Proper
pub mod Private
pub mod Clients
mod Tests
use tg_bridge.Prelude.{
  ℕ, Bool, true, false, not, Option, none, some, List, [], ◌∷◌, ◌++◌, ◌==◌, Str, if◌then◌else◌,
}
use tg_bridge.Config.{ClientConfig, Config}
use tg_bridge.Http.{event_allowed}
use tg_bridge.MediaId.{MediaCrypto}
use tg_bridge.Chats.{MessageClass}
use tg_bridge.Messages.{Event, Entities, dispatch_message}
use tg_bridge.Broker.{Broker, new_broker, subscribe, unsubscribe, receive}

-- The state of a call of `handleEvents`: its subscription, its client, whether its loop runs, and
-- the events it has written to the socket.
pub record Session : Type 0 where
  pub id : ℕ
  pub addr : ℕ
  pub client : Option ClientConfig
  pub is_running : Bool
  pub written : List Event

-- What the `select` of the loop goes on with: the end of the context, which also follows when
-- reading from the socket fails; the subscription's channel, and whether a write then succeeds;
-- the ticker, and whether the ping succeeds.
pub data Wake : Type 0 where
  context_ends : Wake
  channel : Bool → Wake
  ticker : Bool → Wake

unfoldable pub open_session : Option ClientConfig → Broker Event → Broker Event × Session
open_session client b =
    let (b', id, addr) = subscribe b in
    (b', record { id = id; addr = addr; client = client; is_running = true; written = [] })

-- The return of `handleEvents`, with its deferred call of the unsubscribe function; `none` is a
-- panic.
unfoldable pub close_session : Broker Event → Session → Option (Broker Event × Session)
close_session b s = elim (unsubscribe b s.id) [
  | none ↦ none
  | some b' ↦ some (b', record s { is_running = false })
]

-- What the loop does with a received event.
unfoldable pub handle_event :
    Broker Event → Session → Bool → Event → Option (Broker Event × Session)
handle_event b s ok ev = elim (event_allowed s.client ev.chat_id) [
  | false ↦ some (b, s)
  | true ↦ elim ok [
    | false ↦ close_session b s
    | true ↦ some (b, record s { written = s.written ++ (ev ∷ []) })
  ]
]

-- A receive from an empty channel ends the loop when the channel is closed, and waits when not.
unfoldable pub receive_event : Broker Event → Session → Bool → Option (Broker Event × Session)
receive_event b s ok =
    let (b', r) = receive b s.addr in
    elim r [
      | none ↦ elim (b.chans s.addr).closed [ true ↦ close_session b' s | false ↦ some (b', s) ]
      | some ev ↦ handle_event b' s ok ev
    ]

unfoldable pub session_step : Broker Event → Session → Wake → Option (Broker Event × Session)
session_step b s context_ends = close_session b s
session_step b s (channel ok) = receive_event b s ok
session_step b s (ticker true) = some (b, s)
session_step b s (ticker false) = close_session b s

-- The broker and the calls of `handleEvents`, the newest first.
pub record Streams : Type 0 where
  pub broker : Broker Event
  pub sessions : List Session

-- `newBroker(64)` of `New`.
unfoldable pub no_streams : Streams
no_streams = record { broker = new_broker 64; sessions = [] }

-- A client opens a stream; a stream goes on; an update arrives from Telegram.
pub data Turn : Type 0 where
  opens : Option ClientConfig → Turn
  wakes : ℕ → Wake → Turn
  arrives : Entities → MessageClass → Turn

-- A step of the running session with an address, and the broker and the sessions afterwards.
unfoldable pub wake_session :
    Broker Event → ℕ → Wake → List Session → Option (Broker Event × List Session)
wake_session b addr w [] = some (b, [])
wake_session b addr w (s ∷ ss) = elim (s.addr == addr) [
  | true ↦ elim s.is_running [
    | false ↦ some (b, s ∷ ss)
    | true ↦ elim (session_step b s w) [ none ↦ none | some (b', s') ↦ some (b', s' ∷ ss) ]
  ]
  | false ↦ elim (wake_session b addr w ss) [ none ↦ none | some (b', ss') ↦ some (b', s ∷ ss') ]
]

module _ (c : MediaCrypto) (media_key : Str) (cfg : Config) where
  unfoldable pub turn : Streams → Turn → Option Streams
  turn t (opens client) =
      let (b, s) = open_session client t.broker in
      some (record { broker = b; sessions = s ∷ t.sessions })
  turn t (wakes addr w) = elim (wake_session t.broker addr w t.sessions) [
    | none ↦ none
    | some (b, ss) ↦ some (record { broker = b; sessions = ss })
  ]
  turn t (arrives e m) = elim (dispatch_message c media_key cfg t.broker e m) [
    | none ↦ none
    | some b ↦ some (record t { broker = b })
  ]

  unfoldable pub run : Streams → List Turn → Option Streams
  run t [] = some t
  run t (x ∷ xs) = elim (turn t x) [ none ↦ none | some t' ↦ run t' xs ]
