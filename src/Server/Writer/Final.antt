-- ===== src/Server/Writer/Final.antt =====
-- The statuses of the replies of internal/httpapi.
use tg_bridge.Prelude.{
  ◌≤◌, inl, inr, refl, Bool, Option, none, some, List, Str, arith, Bool-cases, Option-cases,
  is_empty, ℕ, ◌≡◌, ◌⊎◌, true, if◌then◌else◌,
}
use tg_bridge.Config.{ClientConfig, Config, token_to_client}
use tg_bridge.Auth.{Authenticator, submit_phone, submit_code, submit_password}
use tg_bridge.AuthApi.{
  AuthRoute, get_status, post_phone, post_code, post_password, AuthRequest, AuthResponse,
  AuthServer, status_is, accepted, with_rate_limit, serve, handle_submit, handle_auth_status,
  handle_auth_phone, handle_auth_code, handle_auth_password,
}
use tg_bridge.AuthApi
use tg_bridge.Chats.{User}
use tg_bridge.Messages.{ChatMessage}
use tg_bridge.Http.{
  Request, bearer_token, BridgeApi, Route, get_me, get_chats, get_chat_messages, post_message,
  post_read, handle_me, handle_list_chats, with_chat, handle_get_messages, handle_send_message,
  handle_mark_read, handle, with_auth,
}
use tg_bridge.MediaId.{MediaCrypto}
use tg_bridge.MediaCache.{Cache}
use tg_bridge.Events.{opens}
use tg_bridge.Fetch.{FetchIo, fetch_media, handle_get_media}
use tg_bridge.Fetch.Again.{Got-cases, handle_get_media-some}
use tg_bridge.MediaCache.{FilePath}
use tg_bridge.Start.{is_ready}
use tg_bridge.Server.{
  Server, Answers, Sent, Endpoint, auth_route, chat_route, get_media, get_events, Reply, auth_reply,
  chat_reply, media_reply, client_of, turn_streams, bridge_api, ask_auth, ask_chats, ask_media,
  ask_events, ask,
}
use tg_bridge.Server.Writer.{IsFinal, reply_code}

module _ (br : BridgeApi User ChatMessage) where
  handle-final :
      (route : Route) (client : Option ClientConfig) (r : Request)
      → 200 ≤ reply_code (chat_reply (handle br route client r).1)
  unfolding handle handle_me handle_list_chats with_chat handle_get_messages handle_send_message
      handle_mark_read
  handle-final get_me client r = ground arith
  handle-final get_chats client r = ground arith
  handle-final get_chat_messages client r = ground arith
  handle-final post_message client r = ground arith
  handle-final post_read client r = ground arith

handle_submit-final :
    (submit : Authenticator → Str → Authenticator × Bool) (field : Option Str) (a : Authenticator)
    → 200 ≤ reply_code (auth_reply (handle_submit submit field a).1)
unfolding handle_submit
handle_submit-final submit field a = ground arith

auth_handle-final :
    (route : AuthRoute) (field : Option Str) (a : Authenticator)
    → 200 ≤ reply_code (auth_reply (AuthApi.handle route field a).1)
unfolding AuthApi.handle handle_auth_status handle_auth_phone handle_auth_code handle_auth_password
auth_handle-final get_status field a = omega arith
auth_handle-final post_phone field a = handle_submit-final submit_phone field a
auth_handle-final post_code field a = handle_submit-final submit_code field a
auth_handle-final post_password field a = handle_submit-final submit_password field a

serve-final :
    (cfg : Config) (s : AuthServer) (route : AuthRoute) (r : AuthRequest)
    → 200 ≤ reply_code (auth_reply (serve cfg s route r).1)
unfolding serve with_rate_limit
serve-final cfg s route r = ground (arith, auth_handle-final route r.field s.login.auth)

with_auth-final :
    (br : BridgeApi User ChatMessage) (cfg : Config) (route : Route) (r : Request)
    → 200 ≤ reply_code (chat_reply (with_auth br cfg route r).1)
unfolding with_auth
with_auth-final br cfg route r = elim (Bool-cases (is_empty (bearer_token r))) [
  | inl e ↦ rw (with_auth, e) (omega arith)
  | inr e ↦ elim (Option-cases (token_to_client cfg (bearer_token r))) [
    | inl t ↦ rw (with_auth, e, t) (omega arith)
    | inr (cl, t) ↦ rw (with_auth, e, t) (handle-final br route (some cl) r)
  ]
]

module _ (sha256 : Str → Str) (removable : Str → Bool) (c : MediaCrypto) (cfg : Config) where
  handle_get_media-final :
      (media_key : Str) (k : Cache) (id : Str) (io : FetchIo) (x : ℕ ⊎ (FilePath × Str))
      → (handle_get_media sha256 removable c media_key k id io).1 ≡ some x
      → 200 ≤ reply_code (media_reply x)
  unfolding handle_get_media
  handle_get_media-final media_key k id io (inr served) e = omega arith
  handle_get_media-final media_key k id io (inl code) e = elim (Bool-cases (is_empty id)) [
    | inl i ↦ ground (arith, i, e)
    | inr i ↦ elim (Got-cases (fetch_media sha256 removable c media_key k id io).2) [
      | inl (inl (served, f)) ↦ absurd (ground (arith, i, f, e))
      | inl (inr f) ↦ ground (arith, i, f, e)
      | inr f ↦ absurd (ground (arith, i, f, e))
    ]
  ]

  -- The reply, where there is no panic, has a final status.
  abbrev pub RepliesFinally : Option (Server × Reply × List Sent) → Type 0
  RepliesFinally none = Unit
  RepliesFinally (some (s, reply, sent)) = IsFinal (reply_code reply)

  ask_media-RepliesFinally :
      (s : Server) (r : AuthRequest) (a : Answers)
      → RepliesFinally (ask sha256 removable c cfg s get_media r a)
  unfolding ask ask_media
  ask_media-RepliesFinally s r a = elim (Option-cases (client_of cfg r.request)) [
    | inl e ↦ rw (ask, ask_media, e) (inr (omega arith))
    | inr (cl, e) ↦
        let b = s.bridge in
        let io : FetchIo = record {
          ready = if is_ready b then true else a.becomes_ready;
          put_io = a.put_io;
        } in
        let (x, served) =
          handle_get_media-some sha256 removable c b.media_key_bytes b.cache r.request.path_id io in
        rw (ask, ask_media, e, served)
          (inr (handle_get_media-final b.media_key_bytes b.cache r.request.path_id io x served))
  ]

  ask_events-RepliesFinally :
      (s : Server) (r : AuthRequest) (a : Answers)
      → RepliesFinally (ask sha256 removable c cfg s get_events r a)
  unfolding ask ask_events
  ask_events-RepliesFinally s r a = elim (Option-cases (client_of cfg r.request)) [
    | inl e ↦ rw (ask, ask_events, e) (inr (omega arith))
    | inr (cl, e) ↦ elim (Bool-cases a.upgrades) [
      | inr u ↦ rw (ask, ask_events, e, u) (inr (omega arith))
      | inl u ↦ elim (Option-cases (turn_streams sha256 removable c cfg s (opens (some cl)))) [
        | inl t ↦ rw (ask, ask_events, e, u, t) tt
        | inr (s', t) ↦ rw (ask, ask_events, e, u, t) (inl refl)
      ]
    ]
  ]

  pub ask-RepliesFinally :
      (s : Server) (endpoint : Endpoint) (r : AuthRequest) (a : Answers)
      → RepliesFinally (ask sha256 removable c cfg s endpoint r a)
  unfolding ask ask_auth ask_chats
  ask-RepliesFinally s (auth_route route) r a = inr (serve-final cfg _ route r)
  ask-RepliesFinally s (chat_route route) r a =
      inr (with_auth-final (bridge_api sha256 removable c cfg s.bridge a) cfg route r.request)
  ask-RepliesFinally s get_media r a = ask_media-RepliesFinally s r a
  ask-RepliesFinally s get_events r a = ask_events-RepliesFinally s r a
