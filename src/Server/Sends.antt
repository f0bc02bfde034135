-- ===== src/Server/Sends.antt =====
-- A permitted text goes out: `POST /v1/chats/{id}/messages` of internal/httpapi/chats.go through to
-- `SendText` of internal/bridge/send.go.
use tg_bridge.Prelude.{
  ◌≡◌, refl, ◌∙◌, inl, inr, Bool, true, false, Option, none, some, List, [], ◌∷◌, Str, is_empty,
  arith, Bool-cases,
}
use tg_bridge.Prelude.Int.{ℤ}
use tg_bridge.Config.{ClientConfig, Config, token_to_client}
use tg_bridge.Http.{
  Request, bearer_token, client_can_access, BridgeApi, BridgeCall, Response, post_message, Outcome,
  with_chat, handle_send_message, handle, with_auth,
}
use tg_bridge.Http
use tg_bridge.Http.Strings.{trim_space, parse_int, value}
use tg_bridge.Http.Access.{Permits, client_can_access_iff}
use tg_bridge.AuthApi.{AuthRequest}
use tg_bridge.Chats.{User, InputPeer, Api, sends_text, resolve_peer, send_text}
use tg_bridge.Chats.Sent.{SentAnswer, extract_message_id, send_message}
use tg_bridge.MediaId.{MediaCrypto}
use tg_bridge.Start.{Bridge, is_ready}
use tg_bridge.Server.{
  Server, Answers, chat_route, chat_reply, client_of, api_of, perform, perform_all, bridge_api,
  ask_chats, ask,
}

-- A request to send a text that a client may send, to a bridge that has the account.
pub record IsPostable (cfg : Config) (b : Bridge) (r : Request) (id : ℤ) (text : Str) : Type 0 where
  pub client : ClientConfig
  pub known : client_of cfg r ≡ some client
  pub permits : Permits client.allowed_chats id
  pub connected : b.client_ready ≡ true
  pub user : User
  pub account : b.self ≡ some user
  pub path : parse_int r.path_id ≡ value id
  pub body : r.body_text ≡ some text
  pub full : is_empty (trim_space text) ≡ false

is_ready_known :
    (b : Bridge) (user : User) → b.client_ready ≡ true → b.self ≡ some user → is_ready b ≡ true
unfolding is_ready
is_ready_known b user connected account = rw (is_ready, connected, account) refl

with_auth_known :
    {U M : Type 0} (br : BridgeApi U M) (cfg : Config) (r : Request) (cl : ClientConfig)
    → client_of cfg r ≡ some cl
    → with_auth br cfg post_message r ≡ handle_send_message br (some cl) r
unfolding with_auth client_of handle
with_auth_known br cfg r cl known = elim (Bool-cases (is_empty (bearer_token r))) [
  | inl e ↦ absurd (ground (arith, e, known))
  | inr e ↦
      let found : token_to_client cfg (bearer_token r) ≡ some cl = rw (client_of, e) at known in
      rw (with_auth, e, found) refl
]

send_text_resolved :
    (api : Api) (cache : List (ℤ × InputPeer)) (id : ℤ) (text : Str) (peer : InputPeer)
    → api.ready ≡ true
    → (resolve_peer api cache id).1 ≡ some peer
    → send_text api cache id text ≡ ((resolve_peer api cache id).0, some (sends_text peer text))
unfolding send_text
send_text_resolved api cache id text peer ready found = ground (arith, ready, found)

-- The id that an answer carries, 0 where it carries none; `none` when Telegram does not answer.
abbrev pub sent_id : Option SentAnswer → Option ℤ
sent_id none = none
sent_id (some u) = some (extract_message_id u)

-- The reply to a text that is sent.
abbrev pub reply_of : {U M : Type 0} → Option ℤ → Response U M
reply_of none = Http.failed 502
reply_of (some n) = Http.sent n

send_message_resolved :
    (api : Api) (cache : List (ℤ × InputPeer)) (id : ℤ) (text : Str) (peer : InputPeer)
    (answer : Option SentAnswer)
    → api.ready ≡ true
    → (resolve_peer api cache id).1 ≡ some peer
    → (send_message api cache id text answer).2 ≡ sent_id answer
unfolding send_message
send_message_resolved api cache id text peer none ready found =
    rw (send_message, send_text_resolved api cache id text peer ready found) refl
send_message_resolved api cache id text peer (some u) ready found =
    rw (send_message, send_text_resolved api cache id text peer ready found) refl

handle_send_message_sent :
    {U M : Type 0} (br : BridgeApi U M) (cl : ClientConfig) (r : Request) (user : U) (id : ℤ)
    (n : Option ℤ) (text : Str)
    → br.self ≡ some user
    → parse_int r.path_id ≡ value id
    → client_can_access (some cl) id ≡ true
    → r.body_text ≡ some text
    → is_empty (trim_space text) ≡ false
    → br.send_text id text ≡ n
    → handle_send_message br (some cl) r ≡ (Http.sends_text id text ∷ [], reply_of n)
unfolding handle_send_message with_chat
handle_send_message_sent br cl r user id none text self path can body full done =
    rw (handle_send_message, with_chat, self, path, can, body, full, done) refl
handle_send_message_sent br cl r user id (some n) text self path can body full done =
    rw (handle_send_message, with_chat, self, path, can, body, full, done) refl

-- A request to send a text, with a client's token, to a chat that the client's list permits, makes
-- one call of Telegram once the account is known, whatever Telegram answers: the text, to the peer
-- that the chat's id resolves to. The reply is 502 when Telegram answers with an error, else it has
-- the id that the answer carries, 0 where it carries none. Besides the peer cache, which the
-- resolving may have filled, the server stays as it is.
pub ask-sends_text :
    (sha256 : Str → Str) (removable : Str → Bool) (c : MediaCrypto) (cfg : Config) (s : Server)
    (r : AuthRequest) (a : Answers) (id : ℤ) (text : Str) (peer : InputPeer)
    → IsPostable cfg s.bridge r.request id text
    → (resolve_peer (api_of s.bridge a) s.bridge.peer_cache id).1 ≡ some peer
    → let b = s.bridge in
      ask sha256 removable c cfg s (chat_route post_message) r a
      ≡ some (
        record s {
          bridge = record b { peer_cache = (resolve_peer (api_of b a) b.peer_cache id).0 };
        },
        chat_reply (reply_of (sent_id a.sent)),
        record {
          request = r.request;
          status = b.login.auth.state;
          chat_id = id;
          call = sends_text peer text;
        }
            ∷ [],
      )
unfolding ask ask_chats perform_all perform bridge_api api_of
ask-sends_text sha256 removable c cfg s r a id text peer p found =
    let b = s.bridge in
    let api = api_of b a in
    let ready : api.ready ≡ true = is_ready_known b p.user p.connected p.account in
    let posted = send_text_resolved api b.peer_cache id text peer ready found in
    let done : (send_message api b.peer_cache id text a.sent).2 ≡ sent_id a.sent =
      send_message_resolved api b.peer_cache id text peer a.sent ready found in
    let br = bridge_api sha256 removable c cfg b a in
    let handled : with_auth br cfg post_message r.request
        ≡ (Http.sends_text id text ∷ [], reply_of (sent_id a.sent)) =
      with_auth_known br cfg r.request p.client p.known
      ∙ handle_send_message_sent br p.client r.request p.user id _ text p.account p.path
          ((client_can_access_iff p.client id).1 p.permits) p.body p.full done in
    rw (ask, ask_chats, handled, perform_all, perform, posted) refl
