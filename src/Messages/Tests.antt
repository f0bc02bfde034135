-- ===== src/Messages/Tests.antt =====
-- The messages of internal/bridge at a concrete message.
use tg_bridge.Prelude.{◌≡◌, ◌⊎◌, refl, true, false, none, some, [], ◌∷◌, codes}
use tg_bridge.Prelude.Int.{pos}
use tg_bridge.Config.Tests.{two_clients}
use tg_bridge.Http.{chat_allowed}
use tg_bridge.Http.Strings.{trim_space, trim, space_width, reverse_onto}
use tg_bridge.MediaId.Tests.{toy}
use tg_bridge.Media.{just, other_media, summarize_media}
use tg_bridge.Chats.{
  peer_user, User, a_user, reply_header, Message, a_message, other_message, peer_to_chat_id, find,
  index_users,
}
use tg_bridge.Messages.{
  Entities, all_messages, resolve_name, sender_name, sender_id, replied_to, summary_of, to_message,
  to_messages, history_answer, message_event,
}
use tg_bridge.Messages.Same.{as_event, message_event-to_message}

program : Unit {0}
unfolding find index_users sender_name sender_id replied_to summary_of to_message to_messages
    history_answer trim_space trim space_width reverse_onto peer_to_chat_id summarize_media
program = tt

abbrev pub ann : User
ann = record {
  id = pos 7;
  access_hash = pos 1;
  first_name = codes "Ann";
  last_name = [];
  username = [];
}

-- A message from a user in her own chat.
abbrev pub hello : Message
hello = record {
  id = pos 4;
  peer_id = peer_user (pos 7);
  message = codes "hi";
  date = pos 99;
  out = false;
  from_id = some (peer_user (pos 7));
  reply_to = some (reply_header (pos 3));
  media = some other_media;
}

abbrev pub people : Entities
people = record { users = (pos 7, ann) ∷ []; chats = []; channels = [] }

-- A service message is left out of a history.
history_kept :
    history_answer toy [] (pos 7) (
      all_messages
        (record { messages = other_message ∷ a_message hello ∷ []; users = a_user ann ∷ [] }))
    ≡ some (
        record {
          id = pos 4;
          chat_id = pos 7;
          from = codes "Ann";
          from_id = pos 7;
          text = codes "hi";
          ts = pos 99;
          out = false;
          reply_to = pos 3;
          media = some (just (codes "other"));
        }
        ∷ [])
unfolding program
history_kept = refl

message_event-to_message_example :
    let chat_id = peer_to_chat_id hello.peer_id in
    let made = message_event toy [] two_clients people (a_message hello) in
    ((made ≡ none) × ((hello.out ≡ true) ⊎ (chat_allowed two_clients chat_id ≡ false)))
    ⊎ ((made
          ≡ some (
              as_event
                (resolve_name people (peer_user (pos 7)))
                (to_message toy [] [] chat_id hello)))
        × (hello.out ≡ false)
        × (chat_allowed two_clients chat_id ≡ true))
message_event-to_message_example = message_event-to_message toy [] two_clients people [] hello
