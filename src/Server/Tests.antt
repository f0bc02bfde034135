-- ===== src/Server/Tests.antt =====
-- The server of internal/httpapi at a concrete course.
use tg_bridge.Prelude.{
  ◌≡◌, refl, true, false, Option, none, some, List, [], ◌∷◌, ◌++◌, Str, codes, str_eq, map, All,
  inl, inr, arith, subst,
}
use tg_bridge.Prelude.Int.{ℤ, pos, ◌-ℤ◌, ◌+ℤ◌, to_u64, of_u64}
use tg_bridge.Config.{Config, load, find_token, token_to_client}
use tg_bridge.Config.Tests.{watch}
use tg_bridge.MediaId.Tests.{toy}
use tg_bridge.MediaCache.Books.{IsSerial}
use tg_bridge.MediaCache.Serial.{IsBooked}
use tg_bridge.MediaCache.Load.{NoTwins, IsListing}
use tg_bridge.Http.{
  bearer_token, holds, client_can_access, event_allowed, chat_allowed, post_message, with_chat,
  handle_send_message, handle, with_auth,
}
use tg_bridge.Http.Strings.{
  cut_prefix, space_width, trim, reverse_onto, trim_space, parse_uint, digits, positive, negative,
  parse_int, atoi,
}
use tg_bridge.Auth.{
  AuthState, authorized, status_ok, status_is, go_on, set_state, advance, step, run,
  new_http_authenticator, start,
}
use tg_bridge.Auth.Prompt.{IsShown}
use tg_bridge.RateLimit.{new_rate_limiter}
use tg_bridge.AuthApi.{AuthRequest, auth_rate_limiter}
use tg_bridge.Chats.{
  input_user, a_message, all_dialogs, ApiCall, sends_text, peer_to_chat_id, find, wrap,
  find_message, index_messages, index_users, index_chats, unlined, truncate, chat_of_peer,
  with_last, cache_peer, list_dialogs, list_answer, list_chats, resolve_peer, send_text,
}
use tg_bridge.Chats.Tests.{answer}
use tg_bridge.Chats.Sent.{message_id, updates, first_id, extract_message_id, send_message}
use tg_bridge.Messages.{sender_id, replied_to, summary_of, message_event, dispatch_message}
use tg_bridge.Messages.Tests.{hello, people}
use tg_bridge.Broker.{
  lookup, delete, update, new_broker, subscribe, close, unsubscribe, offer, publish_to, publish,
  receive,
}
use tg_bridge.Events.{
  Session, channel, open_session, close_session, handle_event, receive_event, session_step,
  no_streams, wake_session, turn,
}
use tg_bridge.Events.Proper.{IsProper}
use tg_bridge.Start.{after_login, is_ready, warm_peer_cache, log_in, run_step}
use tg_bridge.Start.Tests.{sha, all_removable, place, user, made, cfg}
use tg_bridge.Server.{
  Server, chat_route, get_events, Answers, Sent, ServerTurn, asks, runs, stream_wakes,
  update_arrives, client_connects, login_gets, self_is_known, dialogs_come, run_event, new_server,
  client_of, api_of, perform, perform_all, bridge_api, ask_auth, ask_chats, ask_media, turn_streams,
  ask_events, ask, server_turn, run_server,
}
use tg_bridge.Server.Calls.{IsAllowed}
use tg_bridge.Server.Refused.{refusal, ask_unknown}
use tg_bridge.Server.Safe.{IsOpened}
use tg_bridge.Server.{chat_reply}
use tg_bridge.Server.Sends.{sent_id, reply_of, IsPostable, ask-sends_text}
use tg_bridge.Server.Started.{run_server-main}
use tg_bridge.Tls.Tests
use tg_bridge.Start.Tests.{parse, quiet_io, made_serves}

program : Unit {0}
unfolding find_token token_to_client str_eq bearer_token holds client_can_access event_allowed
    chat_allowed with_chat handle_send_message handle with_auth cut_prefix space_width trim
    reverse_onto trim_space parse_uint digits positive negative parse_int atoi set_state advance
    step run new_http_authenticator start new_rate_limiter auth_rate_limiter peer_to_chat_id find
    wrap find_message index_messages index_users index_chats unlined truncate chat_of_peer with_last
    cache_peer list_dialogs list_answer list_chats resolve_peer send_text first_id
    extract_message_id send_message sender_id replied_to summary_of message_event dispatch_message
    lookup delete update new_broker subscribe close unsubscribe offer publish_to publish receive
    open_session close_session handle_event receive_event session_step no_streams wake_session turn
    after_login is_ready warm_peer_cache log_in run_step run_event new_server client_of api_of
    perform perform_all bridge_api ask_auth ask_chats ask_media turn_streams ask_events ask
    server_turn run_server ◌-ℤ◌ ◌+ℤ◌ to_u64 of_u64
program = tt

-- A request with a token, for a chat and with a text.
abbrev pub request : Str → Str → AuthRequest
request token id = record {
  request = record {
    authorization = codes "Bearer " ++ token;
    query_token = [];
    query_limit = [];
    query_before = [];
    path_id = id;
    body_text = some (codes "yo");
    body_up_to = none;
  };
  remote_addr = codes "10.0.0.7:443";
  field = none;
  now = 0;
  victim = [];
}

abbrev pub answers : Answers
answers = record {
  get_dialogs = λ limit. some (all_dialogs answer);
  history = λ p limit before. none;
  sent = some (updates (message_id (pos 9) ∷ []));
  read_ok = true;
  becomes_ready = false;
  put_io = record { opens = false; written = none; closes = true; stats = true; renames = true };
  upgrades = true;
}

-- The login, a text that comes too early, one that is let through, one that is not permitted, and
-- an update for a stream.
abbrev turns : List ServerTurn
turns =
    asks (chat_route post_message) (request (codes "t2") (codes "5")) answers
    ∷ runs client_connects
    ∷ runs (login_gets (status_is (status_ok true)))
    ∷ runs (login_gets go_on)
    ∷ runs (self_is_known user)
    ∷ runs (dialogs_come (some (all_dialogs answer)))
    ∷ asks (chat_route post_message) (request (codes "t2") (codes "5")) answers
    ∷ asks (chat_route post_message) (request (codes "t1") (codes "5")) answers
    ∷ asks get_events (request (codes "t1") []) answers
    ∷ update_arrives people (a_message hello)
    ∷ stream_wakes 0 (channel true)
    ∷ []

-- The calls that are made, with the status and the chat, and how many events each stream has seen.
abbrev seen : Option (Server × List Sent) → List (AuthState × ℤ × ApiCall) × List (List ℤ)
seen none = ([], [])
seen (some (s, sent)) = (
  map (λ (x : Sent). (x.status, x.chat_id, x.call)) sent,
  map (λ (t : Session). map (λ ev. ev.chat_id) t.written) s.streams.sessions,
)

one_sent : seen (run_server sha all_removable toy cfg (new_server made) turns) ≡ (
  (authorized, pos 5, sends_text (input_user (pos 5) (pos 50)) (codes "yo")) ∷ [],
  (pos 7 ∷ []) ∷ [],
)
unfolding program
one_sent = refl

run_server-main_example :
    (cfg : Config) × (load parse (some []) ≡ inr cfg)
    × (s : Server) × (sent : List Sent) × (run_server sha all_removable toy cfg
          (new_server made)
          turns
        ≡ some (s, sent))
    × All (IsAllowed cfg) sent
    × All (IsProper cfg s.streams.broker) s.streams.sessions
    × IsOpened cfg s
    × IsSerial sha all_removable made.cache s.bridge.cache
    × IsBooked s.bridge.cache
    × IsShown s.bridge.login
run_server-main_example =
    run_server-main sha all_removable Tests.toy toy parse (some []) quiet_io [] place made turns
      (λ ds e.
        let none_there : [] ≡ ds = cc in
        subst (λ ds. NoTwins ds × IsListing [] ds) none_there (tt, tt))
      refl made_serves (omega arith)

ask_unknown_example :
    ask sha all_removable toy cfg (new_server made) get_events (request (codes "t3") []) answers
    ≡ some (new_server made, refusal get_events, [])
ask_unknown_example =
    ask_unknown sha all_removable toy cfg (new_server made) get_events (request (codes "t3") [])
      answers (unfold program in refl)

abbrev knowing : Server
knowing = new_server (record made {
  client_ready = true;
  self = some user;
  peer_cache = (pos 5, input_user (pos 5) (pos 50)) ∷ [];
})

postable :
    IsPostable cfg knowing.bridge (request (codes "t2") (codes "5")).request (pos 5) (codes "yo")
unfolding program
postable = record {
  client = watch;
  known = refl;
  permits = inl refl;
  connected = refl;
  user = user;
  account = refl;
  path = refl;
  body = refl;
  full = refl;
}

peer_found :
    (resolve_peer (api_of knowing.bridge answers) knowing.bridge.peer_cache (pos 5)).1
    ≡ some (input_user (pos 5) (pos 50))
unfolding program
peer_found = refl

ask-sends_text_example :
    ask sha all_removable toy cfg knowing
      (chat_route post_message)
      (request (codes "t2") (codes "5"))
      answers
    ≡ some (
      record knowing {
        bridge = record knowing.bridge {
          peer_cache =
              (resolve_peer (api_of knowing.bridge answers) knowing.bridge.peer_cache (pos 5)).0;
        };
      },
      chat_reply (reply_of (sent_id answers.sent)),
      record {
        request = (request (codes "t2") (codes "5")).request;
        status = knowing.bridge.login.auth.state;
        chat_id = pos 5;
        call = sends_text (input_user (pos 5) (pos 50)) (codes "yo");
      }
          ∷ [],
    )
ask-sends_text_example =
    ask-sends_text sha all_removable toy cfg knowing (request (codes "t2") (codes "5")) answers
      (pos 5) (codes "yo") (input_user (pos 5) (pos 50)) postable peer_found
