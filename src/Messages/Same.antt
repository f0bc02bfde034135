-- ===== src/Messages/Same.antt =====
-- The event of a message in internal/bridge/bridge.go and the message in a history of chats.go.
use tg_bridge.Prelude.{
  ◌≡◌, ◌⊎◌, inl, inr, refl, true, false, none, some, List, Str, codes, Bool-cases,
}
use tg_bridge.Prelude.Int.{ℤ}
use tg_bridge.Config.{Config}
use tg_bridge.Http.{chat_allowed}
use tg_bridge.MediaId.{MediaCrypto}
use tg_bridge.Chats.{User, Message, a_message, peer_to_chat_id}
use tg_bridge.Messages.{ChatMessage, Event, Entities, resolve_name, to_message, message_event}

-- A message of a history as an event, under a name of its sender.
abbrev pub as_event : Str → ChatMessage → Event
as_event from m = record {
  kind = codes "message";
  chat_id = m.chat_id;
  msg_id = m.id;
  from = from;
  from_id = m.from_id;
  text = m.text;
  media = m.media;
  ts = m.ts;
  reply_to = m.reply_to;
}

module _ (c : MediaCrypto) (media_key : Str) where
  -- A message makes an event exactly when it is incoming and the bridge's allow-list permits its
  -- chat. The event then has the ids, the text, the time, the reply and the media that the history
  -- of that chat gives for the message; its name is that of the sender, or of the chat where the
  -- message has no sender.
  pub message_event-to_message :
      (cfg : Config) (e : Entities) (users : List (ℤ × User)) (m : Message)
      → let chat_id = peer_to_chat_id m.peer_id in
        let made = message_event c media_key cfg e (a_message m) in
        ((made ≡ none) × ((m.out ≡ true) ⊎ (chat_allowed cfg chat_id ≡ false)))
        ⊎ ((made
              ≡ some (
                  as_event
                    (elim m.from_id [ some p ↦ resolve_name e p | none ↦ resolve_name e m.peer_id ])
                    (to_message c media_key users chat_id m)))
            × (m.out ≡ false)
            × (chat_allowed cfg chat_id ≡ true))
  unfolding message_event to_message
  message_event-to_message cfg e users m = elim (Bool-cases m.out) [
    | inl out ↦ inl (rw (message_event, out) refl, inl out)
    | inr incoming ↦ elim (Bool-cases (chat_allowed cfg (peer_to_chat_id m.peer_id))) [
      | inr no_ok ↦ inl (rw (message_event, incoming, no_ok) refl, inr no_ok)
      | inl ok ↦ inr (rw (message_event, incoming, ok) refl, incoming, ok)
    ]
  ]
