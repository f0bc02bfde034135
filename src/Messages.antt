-- ===== src/Messages.antt =====
-- The messages of internal/bridge: `GetMessages` and `resolveName` of chats.go, and the update
-- handlers of bridge.go, whose `dispatchMessage` makes the events of updates.go.
pub mod Same
pub mod Tests
use tg_bridge.Prelude.{
  Bool, true, false, Option, none, some, List, [], ◌∷◌, ◌++◌, Str, codes, if◌then◌else◌,
}
use tg_bridge.Prelude.Int.{ℤ, pos}
use tg_bridge.Config.{Config}
use tg_bridge.Http.{chat_allowed}
use tg_bridge.Http.Strings.{trim_space}
use tg_bridge.MediaId.{MediaCrypto}
use tg_bridge.Media.{MessageMedia, MediaSummary, summarize_media}
use tg_bridge.Chats.{
  Peer, peer_user, peer_chat, peer_channel, other_peer, InputPeer, User, UserClass, ReplyTo,
  reply_header, other_reply, Message, MessageClass, a_message, other_message, peer_to_chat_id, find,
  index_users, Api, ApiCall, gets_history, sends_text, reads_channel, reads_history, get_messages,
}
use tg_bridge.Broker.{Broker, publish}

-- A message of a history, as the HTTP clients get it.
pub record ChatMessage : Type 0 where
  pub id : ℤ
  pub chat_id : ℤ
  pub from : Str
  pub from_id : ℤ
  pub text : Str
  pub ts : ℤ
  pub out : Bool
  pub reply_to : ℤ
  pub media : Option MediaSummary

pub record Event : Type 0 where
  pub kind : Str
  pub chat_id : ℤ
  pub msg_id : ℤ
  pub from : Str
  pub from_id : ℤ
  pub text : Str
  pub media : Option MediaSummary
  pub ts : ℤ
  pub reply_to : ℤ

abbrev full_name : User → Str
full_name u = trim_space (u.first_name ++ 32 ∷ u.last_name)

-- `msg.From`: only the name of a user that the answer holds.
unfoldable pub sender_name : List (ℤ × User) → Option Peer → Str
sender_name users none = []
sender_name users (some (peer_user id)) = elim (find id users) [ none ↦ [] | some u ↦ full_name u ]
sender_name users (some (peer_chat id)) = []
sender_name users (some (peer_channel id)) = []
sender_name users (some other_peer) = []

unfoldable pub sender_id : Option Peer → ℤ
sender_id none = pos 0
sender_id (some p) = peer_to_chat_id p

unfoldable pub replied_to : Option ReplyTo → ℤ
replied_to none = pos 0
replied_to (some (reply_header id)) = id
replied_to (some other_reply) = pos 0

-- The maps of `tg.Entities`; a group has a title, and so has a channel.
pub record Entities : Type 0 where
  pub users : List (ℤ × User)
  pub chats : List (ℤ × Str)
  pub channels : List (ℤ × Str)

abbrev or_empty : Option Str → Str
or_empty none = []
or_empty (some s) = s

unfoldable pub resolve_name : Entities → Peer → Str
resolve_name e (peer_user id) = elim (find id e.users) [ none ↦ [] | some u ↦ full_name u ]
resolve_name e (peer_chat id) = or_empty (find id e.chats)
resolve_name e (peer_channel id) = or_empty (find id e.channels)
resolve_name e other_peer = []

-- The answer to a query of a history.
pub record Messages : Type 0 where
  pub messages : List MessageClass
  pub users : List UserClass

pub data MessagesClass : Type 0 where
  all_messages : Messages → MessagesClass
  messages_slice : Messages → MessagesClass
  channel_messages : Messages → MessagesClass
  other_messages : MessagesClass

module _ (c : MediaCrypto) (media_key : Str) where
  unfoldable pub summary_of : Option MessageMedia → Option MediaSummary
  summary_of none = none
  summary_of (some m) = some (summarize_media c media_key m)

  -- The body of the loop of `GetMessages`.
  unfoldable pub to_message : List (ℤ × User) → ℤ → Message → ChatMessage
  to_message users chat_id m = record {
    id = m.id;
    chat_id = chat_id;
    from = sender_name users m.from_id;
    from_id = sender_id m.from_id;
    text = m.message;
    ts = m.date;
    out = m.out;
    reply_to = replied_to m.reply_to;
    media = summary_of m.media;
  }

  unfoldable pub to_messages : List (ℤ × User) → ℤ → List MessageClass → List ChatMessage
  to_messages users chat_id [] = []
  to_messages users chat_id (a_message m ∷ ms) =
      to_message users chat_id m ∷ to_messages users chat_id ms
  to_messages users chat_id (other_message ∷ ms) = to_messages users chat_id ms

  unfoldable pub history_answer : ℤ → MessagesClass → Option (List ChatMessage)
  history_answer chat_id (all_messages v) =
      some (to_messages (index_users [] v.users) chat_id v.messages)
  history_answer chat_id (messages_slice v) =
      some (to_messages (index_users [] v.users) chat_id v.messages)
  history_answer chat_id (channel_messages v) =
      some (to_messages (index_users [] v.users) chat_id v.messages)
  history_answer chat_id other_messages = none

  -- The rest of `GetMessages` from its call of Telegram, for the answer that the call gets.
  unfoldable pub history_of :
      (InputPeer → ℤ → ℤ → Option MessagesClass) → ℤ → Option ApiCall → Option (List ChatMessage)
  history_of history chat_id (some (gets_history p limit before)) = elim (history p limit before) [
    | none ↦ none
    | some answer ↦ history_answer chat_id answer
  ]
  history_of history chat_id none = none
  history_of history chat_id (some (sends_text p text)) = none
  history_of history chat_id (some (reads_channel id hash up_to)) = none
  history_of history chat_id (some (reads_history p up_to)) = none

  unfoldable pub load_messages :
      Api
      → (InputPeer → ℤ → ℤ → Option MessagesClass)
      → List (ℤ × InputPeer)
      → ℤ
      → ℤ
      → ℤ
      → List (ℤ × InputPeer) × Option (List ChatMessage)
  load_messages api history cache chat_id limit before =
      let (cache', k) = get_messages api cache chat_id limit before in
      (cache', history_of history chat_id k)

  -- The event that `dispatchMessage` publishes, if it publishes one.
  unfoldable pub message_event : Config → Entities → MessageClass → Option Event
  message_event cfg e other_message = none
  message_event cfg e (a_message m) =
      let chat_id = peer_to_chat_id m.peer_id in
      if m.out
      then none
      else if chat_allowed cfg chat_id
      then some (record {
        kind = codes "message";
        chat_id = chat_id;
        msg_id = m.id;
        from = elim m.from_id [ some p ↦ resolve_name e p | none ↦ resolve_name e m.peer_id ];
        from_id = sender_id m.from_id;
        text = m.message;
        media = summary_of m.media;
        ts = m.date;
        reply_to = replied_to m.reply_to;
      })
      else none

  -- `dispatchMessage`, which both update handlers call; `none` is a panic of the broker.
  unfoldable pub dispatch_message :
      Config → Broker Event → Entities → MessageClass → Option (Broker Event)
  dispatch_message cfg b e m = elim (message_event cfg e m) [
    | none ↦ some b
    | some ev ↦ publish b ev
  ]
