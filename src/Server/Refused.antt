-- ===== src/Server/Refused.antt =====
-- What `withAuth` of internal/httpapi/middleware.go turns away, over all the routes of server.go.
use tg_bridge.Prelude.{◌≡◌, refl, Bool, false, none, some, [], inl, inr, Str, is_empty, Bool-cases}
use tg_bridge.Config.{Config, token_to_client}
use tg_bridge.Http.{Request, bearer_token, BridgeApi, failed, Route, with_auth}
use tg_bridge.AuthApi.{AuthRoute, AuthRequest, AuthResponse, AuthServer, is_known, serve}
use tg_bridge.AuthApi.Serve.{serve-unknown}
use tg_bridge.AuthApi
use tg_bridge.MediaId.{MediaCrypto}
use tg_bridge.Server.{
  Server, Answers, Endpoint, auth_route, chat_route, get_media, get_events, Reply, auth_reply,
  chat_reply, unauthorized, client_of, perform_all, ask_auth, ask_chats, ask_media, ask_events, ask,
}

-- The reply with the status 401.
abbrev pub refusal : Endpoint → Reply
refusal (auth_route route) = auth_reply (AuthApi.failed 401)
refusal (chat_route route) = chat_reply (failed 401)
refusal get_media = unauthorized
refusal get_events = unauthorized

module _ (cfg : Config) (r : Request) (unknown : client_of cfg r ≡ none) where
  with_auth-unknown :
      {U M : Type 0} (br : BridgeApi U M) (route : Route)
      → with_auth br cfg route r ≡ ([], failed 401)
  unfolding with_auth client_of
  with_auth-unknown br route = elim (Bool-cases (is_empty (bearer_token r))) [
    | inl e ↦ rw (with_auth, e) refl
    | inr e ↦
        let no_client : token_to_client cfg (bearer_token r) ≡ none =
          rw (client_of, e) at unknown in
        rw (with_auth, e, no_client) refl
  ]

is_known-unknown :
    (cfg : Config) (r : AuthRequest) → client_of cfg r.request ≡ none → is_known cfg r ≡ false
unfolding is_known client_of
is_known-unknown cfg r unknown = elim (Bool-cases (is_empty (bearer_token r.request))) [
  | inl e ↦ rw (is_known, e) refl
  | inr e ↦
      let no_client : token_to_client cfg (bearer_token r.request) ≡ none =
        rw (client_of, e) at unknown in
      rw (is_known, e, no_client) refl
]

-- Without the token of a configured client, a request to any of the routes gets the status 401,
-- leaves the server as it is, the rate limiter included, opens no stream and calls Telegram for no
-- chat.
pub ask_unknown :
    (sha256 : Str → Str) (removable : Str → Bool) (c : MediaCrypto) (cfg : Config) (s : Server)
    (endpoint : Endpoint) (r : AuthRequest) (a : Answers)
    → client_of cfg r.request ≡ none
    → ask sha256 removable c cfg s endpoint r a ≡ some (s, refusal endpoint, [])
unfolding ask ask_auth ask_chats ask_media ask_events perform_all
ask_unknown sha256 removable c cfg s (auth_route route) r a unknown =
    rw (ask, ask_auth, serve-unknown cfg _ route r (is_known-unknown cfg r unknown)) refl
ask_unknown sha256 removable c cfg s (chat_route route) r a unknown =
    rw (ask, ask_chats, with_auth-unknown cfg r.request unknown _ route) refl
ask_unknown sha256 removable c cfg s get_media r a unknown = rw (ask, ask_media, unknown) refl
ask_unknown sha256 removable c cfg s get_events r a unknown = rw (ask, ask_events, unknown) refl
