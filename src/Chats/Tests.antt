-- ===== src/Chats/Tests.antt =====
-- The chats of internal/bridge/chats.go at a concrete answer of Telegram.
use tg_bridge.Prelude.{
  ◌≡◌, ◌≤◌, ◌<◌, refl, none, some, List, [], ◌∷◌, codes, length, take, All, arith, true, false,
}
use tg_bridge.Prelude.Int.{ℤ, pos, negsuc, ◌-ℤ◌, to_u64, of_u64}
use tg_bridge.Http.Strings.{trim_space}
use tg_bridge.Chats.{
  peer_user, peer_channel, input_user, a_user, a_channel, a_message, a_dialog, Dialogs, all_dialogs,
  wrap, peer_to_chat_id, find, find_message, index_messages, index_users, index_chats, unlined,
  truncate, chat_of_peer, with_last, cache_peer, list_dialogs, Api, list_answer, list_chats,
  resolve_peer, sends_text, reads_channel, read_call, send_text, mark_read, get_messages, Op, sends,
  marks, log_call, trace,
}
use tg_bridge.Chats.Ids.{channel, peer_to_chat_id_injective}
use tg_bridge.Chats.Truncate.{truncate_lem}
use tg_bridge.Chats.Peers.{IsFor, trace-empty}

program : Unit {0}
unfolding wrap peer_to_chat_id find find_message index_messages index_users index_chats unlined
    truncate chat_of_peer with_last cache_peer list_dialogs list_answer list_chats resolve_peer
    read_call send_text mark_read get_messages log_call trace trim_space ◌-ℤ◌ to_u64 of_u64
program = tt

-- A dialog with a user and one with a channel.
abbrev pub answer : Dialogs
answer = record {
  dialogs =
      a_dialog (record { peer = peer_user (pos 5); top_message = pos 1; unread_count = pos 2 })
      ∷ a_dialog (record { peer = peer_channel (pos 9); top_message = pos 3; unread_count = pos 0 })
      ∷ [];
  messages =
      a_message (record {
        id = pos 1;
        peer_id = peer_user (pos 5);
        message = codes "hi";
        date = pos 77;
        out = false;
        from_id = none;
        reply_to = none;
        media = none;
      })
      ∷ [];
  users =
      a_user (record {
        id = pos 5;
        access_hash = pos 50;
        first_name = codes "Ann";
        last_name = [];
        username = codes "ann";
      })
      ∷ [];
  chats =
      a_channel (record { id = pos 9; access_hash = pos 90; title = codes "News"; username = [] })
      ∷ [];
}

abbrev telegram : Api
telegram = record { ready = true; get_dialogs = λ limit. some (all_dialogs answer) }

abbrev news : ℤ
news = negsuc 1000000000008

abbrev ops : List (Api × Op)
ops =
    (telegram, sends (pos 5) (codes "yo"))
    ∷ (telegram, marks news (pos 3))
    ∷ (telegram, marks (pos 6) (pos 3))
    ∷ []

-- The text goes to the user, the read mark to the channel, and an unknown chat gets nothing.
traced :
    trace [] ops
    ≡ (pos 5, sends_text (input_user (pos 5) (pos 50)) (codes "yo"))
      ∷ (news, reads_channel (pos 9) (pos 90) (pos 3))
      ∷ []
unfolding program
traced = refl

truncated : truncate (codes "ab\ncd") 4 ≡ 97 ∷ 98 ∷ 32 ∷ 226 ∷ 128 ∷ 166 ∷ []
unfolding program
truncated = refl

trace-empty_example : All IsFor (trace [] ops)
trace-empty_example = trace-empty ops

peer_to_chat_id_injective_example : peer_channel (pos 9) ≡ peer_channel (pos 9)
peer_to_chat_id_injective_example =
    peer_to_chat_id_injective (peer_channel (pos 9)) (peer_channel (pos 9))
      (channel 9 (omega arith) (omega arith)) (channel 9 (omega arith) (omega arith)) refl

truncate_lem_example :
    (length (codes "ab\ncd") ≤ 4 → truncate (codes "ab\ncd") 4 ≡ unlined (codes "ab\ncd"))
    × (4 < length (codes "ab\ncd")
        → (take 3 (truncate (codes "ab\ncd") 4) ≡ take 3 (unlined (codes "ab\ncd")))
          × (length (truncate (codes "ab\ncd") 4) ≡ 6))
truncate_lem_example = truncate_lem (codes "ab\ncd") 4 (omega arith)
