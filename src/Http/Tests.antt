-- ===== src/Http/Tests.antt =====
-- The handlers of internal/httpapi at concrete requests.
use tg_bridge.Prelude.{
  ◌≡◌, ◌≢◌, ◌⊎◌, refl, true, false, ◌&&◌, none, some, [], ◌∷◌, ◌++◌, Str, codes, str_eq,
}
use tg_bridge.Prelude.Int.{ℤ, pos, negsuc}
use tg_bridge.Config.{ClientConfig, find_token, token_to_client}
use tg_bridge.Config.Tests.{watch, two_clients}
use tg_bridge.Http.{
  Chat, Request, bearer_token, holds, client_can_access, event_allowed, chat_allowed, gets_messages,
  BridgeApi, failed, messages, get_chats, get_chat_messages, keep_allowed, filter_chats,
  handle_list_chats, with_chat, handle_get_messages, handle, with_auth,
}
use tg_bridge.Http.Strings.{
  cut_prefix, space_width, trim, reverse_onto, trim_space, value, range, parse_uint, digits,
  positive, negative, parse_int, atoi,
}
use tg_bridge.Http.Allowed.{IsPermitted, with_auth-IsPermitted}

program : Unit {0}
unfolding find_token token_to_client str_eq bearer_token holds client_can_access event_allowed
    chat_allowed keep_allowed filter_chats handle_list_chats with_chat handle_get_messages handle
    with_auth cut_prefix space_width trim reverse_onto trim_space parse_uint digits positive
    negative parse_int atoi
program = tt

abbrev chat : ℤ → Chat
chat id = record {
  id = id;
  kind = codes "user";
  title = [];
  unread = pos 0;
  last_msg = [];
  last_ts = pos 0;
  username = [];
}

abbrev bridge : BridgeApi Str Str
bridge = record {
  self = some (codes "me");
  list_chats = λ limit. some (chat (pos 3) ∷ chat (pos 7) ∷ []);
  get_messages = λ id limit before. some (codes "hi" ∷ []);
  send_text = λ id text. none;
  mark_read = λ id up_to. true;
}

-- The request of a token for the messages of a chat.
abbrev request : Str → Str → Request
request token id = record {
  authorization = codes "Bearer  " ++ token;
  query_token = [];
  query_limit = codes "20";
  query_before = codes "x";
  path_id = id;
  body_text = none;
  body_up_to = none;
}

trimmed : trim_space (codes " \t a b \n") ≡ codes "a b"
unfolding program
trimmed = refl

parsed_min : parse_int (codes "-9223372036854775808") ≡ value (negsuc 9223372036854775807)
unfolding program
parsed_min = refl

parsed_over : parse_int (codes "9223372036854775808") ≡ range (pos 9223372036854775807)
unfolding program
parsed_over = refl

allowed_chat :
    with_auth bridge two_clients get_chat_messages (request (codes "t1") (codes "7"))
    ≡ (gets_messages (pos 7) (pos 20) (pos 0) ∷ [], messages (codes "hi" ∷ []))
unfolding program
allowed_chat = refl

other_chat :
    with_auth bridge two_clients get_chat_messages (request (codes "t1") (codes "3"))
    ≡ ([], failed 403)
unfolding program
other_chat = refl

-- The watch may read every chat, but the list of the phone keeps chat 3 from its event stream.
unheard :
    (client_can_access (some watch) (pos 3) ≡ true)
    × (chat_allowed two_clients (pos 3) && event_allowed (some watch) (pos 3) ≡ false)
unfolding program
unheard = (refl, refl)

with_auth-IsPermitted_example :
    let r = request (codes "t1") [] in
    (with_auth bridge two_clients get_chats r ≡ ([], failed 401))
    ⊎ ((cl : ClientConfig) × (bearer_token r ≢ [])
        × (token_to_client two_clients (bearer_token r) ≡ some cl)
        × IsPermitted bridge cl.allowed_chats (with_auth bridge two_clients get_chats r))
with_auth-IsPermitted_example =
    with_auth-IsPermitted bridge two_clients get_chats (request (codes "t1") [])
