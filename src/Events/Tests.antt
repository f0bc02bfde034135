-- ===== src/Events/Tests.antt =====
-- The event streams of internal/httpapi/ws.go at a concrete course.
use tg_bridge.Prelude.{◌≡◌, refl, Bool, true, false, Option, none, some, List, [], ◌∷◌, map}
use tg_bridge.Prelude.Int.{ℤ, pos}
use tg_bridge.Config.Tests.{phone, watch, two_clients}
use tg_bridge.Http.{holds, event_allowed, chat_allowed}
use tg_bridge.MediaId.Tests.{toy}
use tg_bridge.Chats.{peer_user, a_message, peer_to_chat_id, find}
use tg_bridge.Messages.{Event, sender_id, replied_to, summary_of, message_event, dispatch_message}
use tg_bridge.Messages.Tests.{hello, people}
use tg_bridge.Broker.{
  lookup, delete, update, new_broker, subscribe, close, unsubscribe, offer, publish_to, publish,
  receive,
}
use tg_bridge.Events.{
  Session, channel, ticker, open_session, close_session, handle_event, receive_event, session_step,
  Streams, no_streams, Turn, opens, wakes, arrives, wake_session, turn, run,
}

program : Unit {0}
unfolding holds event_allowed chat_allowed peer_to_chat_id find sender_id replied_to summary_of
    message_event dispatch_message lookup delete update new_broker subscribe close unsubscribe offer
    publish_to publish receive open_session close_session handle_event receive_event session_step
    no_streams wake_session turn run
program = tt

-- Two streams; a message for both arrives, and one of another chat; the second stream ends.
abbrev turns : List Turn
turns =
    opens (some phone)
    ∷ opens (some watch)
    ∷ arrives people (a_message hello)
    ∷ arrives people (a_message (record hello { peer_id = peer_user (pos 8) }))
    ∷ wakes 1 (channel true)
    ∷ wakes 1 (ticker false)
    ∷ wakes 0 (channel true)
    ∷ wakes 0 (channel true)
    ∷ []

abbrev seen : Option Streams → List (Bool × List ℤ)
seen none = []
seen (some t) =
    map (λ (s : Session). (s.is_running, map (λ (ev : Event). ev.chat_id) s.written)) t.sessions

both_got_one :
    seen (run toy [] two_clients no_streams turns) ≡ (false, pos 7 ∷ []) ∷ (true, pos 7 ∷ []) ∷ []
unfolding program
both_got_one = refl
