-- ===== src/Server/Safe.antt =====
-- The state that the requests of internal/httpapi and `Run` of internal/bridge/bridge.go share stays
-- in order.
use tg_bridge.Prelude.{
  ◌≡◌, ◌⊎◌, inl, inr, refl, sym, ap, ◌∙◌, subst, Bool, true, if◌then◌else◌, List, map, Option, none,
  some, Str, All, Option-cases,
}
use tg_bridge.Config.{ClientConfig, Config}
use tg_bridge.Http.{Request, Route}
use tg_bridge.Auth.{authorized, Login}
use tg_bridge.Auth.Prompt.{IsShown, step-IsShown}
use tg_bridge.AuthApi.{AuthRoute, AuthRequest, AuthServer, serve}
use tg_bridge.Chats.Peers.{IsKeyed}
use tg_bridge.MediaId.{MediaCrypto}
use tg_bridge.MediaCache.{Cache}
use tg_bridge.MediaCache.Books.{IsSerial}
use tg_bridge.MediaCache.Overlap.{Job}
use tg_bridge.Fetch.{FetchIo, handle_get_media}
use tg_bridge.Fetch.Again.{handle_get_media-some}
use tg_bridge.Fetch.Booked.{handle_get_media-IsSerial}
use tg_bridge.Start.{is_ready}
use tg_bridge.Events.Clients.{clients_of}
use tg_bridge.Events.Private.{IsPrivate}
use tg_bridge.Start.Known.{Fits, known-IsLoggedIn, ended_shows}
use tg_bridge.Server.{
  Server, Answers, Reply, unauthorized, media_reply, with_cache, client_of, api_of, bridge_api,
  ask_auth, ask_chats, ask_media,
}
use tg_bridge.Server.Login.{serve-Submits, step_http-pc, Fits-record}
use tg_bridge.Server.Calls.{IsAllowed, with_auth-Left}

-- Each stream, the newest first, is that of the client that `withAuth` has found for the request
-- that opened it.
pub record IsOpened (cfg : Config) (s : Server) : Type 0 where
  pub own : clients_of s.streams.sessions ≡ map (client_of cfg) s.openers
  pub known : All (λ r. (cl : ClientConfig) × (client_of cfg r ≡ some cl)) s.openers

module _ (sha256 : Str → Str) (removable : Str → Bool) (k₀ : Cache) (cfg : Config) where
  -- The peers stand under their chat ids, the media cache has the books that some calls leave, one
  -- after the other, the status of the login shows where it stands, the account is known only behind
  -- it, and the streams are those of their clients.
  pub record IsSafe (s : Server) : Type 0 where
    pub peers : IsKeyed s.bridge.peer_cache
    pub cache : IsSerial sha256 removable k₀ s.bridge.cache
    pub login : IsShown s.bridge.login
    pub phase : Fits s.bridge.phase s.bridge
    pub streams : IsPrivate cfg s.streams
    pub clients : IsOpened cfg s

  known-authorized :
      (s : Server) → IsSafe s → (s.bridge.self ≡ none) ⊎ (s.bridge.login.auth.state ≡ authorized)
  known-authorized s v = elim (Option-cases s.bridge.self) [
    | inl e ↦ inl e
    | inr (user, e) ↦
        let (on, over) = known-IsLoggedIn s.bridge.phase s.bridge user e v.phase in
        inr (ended_shows s.bridge.login over v.login)
  ]

  module _ (c : MediaCrypto) (s : Server) (v : IsSafe s) where
    pub ask_auth-IsSafe :
        (route : AuthRoute) (r : AuthRequest)
        → let s' = (ask_auth sha256 removable c cfg s route r).0 in
          IsSafe s' × (s'.streams ≡ s.streams)
    unfolding ask_auth
    ask_auth-IsSafe route r =
        let l : AuthServer = record { auth_rl = s.auth_rl; login = s.bridge.login } in
        let l' = (serve cfg l route r).0.login in
        let (shown, same) : IsShown l' × (l'.pc ≡ s.bridge.login.pc) =
          elim (serve-Submits cfg l route r) [
            | inl e ↦ (subst IsShown (sym e) v.login, ap (λ (x : Login). x.pc) e)
            | inr (x, http, e) ↦ (
              subst IsShown (sym e) (step-IsShown s.bridge.login x v.login),
              ap (λ (y : Login). y.pc) e ∙ step_http-pc s.bridge.login x http,
            )
          ] in
        (
          record {
            peers = v.peers;
            cache = v.cache;
            login = shown;
            phase =
                Fits-record s.bridge.phase s.bridge (record s.bridge { login = l' }) refl refl same
                  v.phase;
            streams = v.streams;
            clients = record { own = v.clients.own; known = v.clients.known };
          },
          refl,
        )

    pub ask_chats-IsSafe :
        (route : Route) (r : Request) (a : Answers)
        → let (s', reply, sent) = ask_chats sha256 removable c cfg s route r a in
          IsSafe s' × (s'.streams ≡ s.streams) × All (IsAllowed cfg) sent
    unfolding ask_chats bridge_api
    ask_chats-IsSafe route r a =
        let b = s.bridge in
        let (peers, sent) =
          with_auth-Left cfg r b.login.auth.state (api_of b a)
            (bridge_api sha256 removable c cfg b a) route b.peer_cache (known-authorized s v)
            v.peers in
        (
          record {
            peers = peers;
            cache = v.cache;
            login = v.login;
            phase = Fits-record b.phase b (record b { peer_cache = _ }) refl refl refl v.phase;
            streams = v.streams;
            clients = record { own = v.clients.own; known = v.clients.known };
          },
          refl,
          sent,
        )

    pub with_cache-IsSafe :
        (k : Cache) (jobs : List Job)
        → IsSerial sha256 removable k₀ k
        → IsSafe (record (with_cache sha256 removable c cfg s k) { jobs = jobs })
    with_cache-IsSafe k jobs serial = record {
      peers = v.peers;
      cache = serial;
      login = v.login;
      phase =
          Fits-record s.bridge.phase s.bridge (record s.bridge { cache = k }) refl refl refl
            v.phase;
      streams = v.streams;
      clients = record { own = v.clients.own; known = v.clients.known };
    }

    -- A step that goes on and leaves the streams.
    abbrev pub StaysSafe : Option Server → Type 0
    StaysSafe o = (s' : Server) × (o ≡ some s') × IsSafe s' × (s'.streams ≡ s.streams)

    pub ask_media-IsSafe :
        (r : Request) (a : Answers)
        → (s' : Server) × (reply : Reply) × (ask_media sha256 removable c cfg s r a
            ≡ some (s', reply))
          × IsSafe s'
          × (s'.streams ≡ s.streams)
    unfolding ask_media
    ask_media-IsSafe r a = elim (Option-cases (client_of cfg r)) [
      | inl e ↦ (s, unauthorized, rw (ask_media, e) refl, v, refl)
      | inr (cl, e) ↦
          let b = s.bridge in
          let io : FetchIo = record {
            ready = if is_ready b then true else a.becomes_ready;
            put_io = a.put_io;
          } in
          let (x, served) =
            handle_get_media-some sha256 removable c b.media_key_bytes b.cache r.path_id io in
          let k = (handle_get_media sha256 removable c b.media_key_bytes b.cache r.path_id io).0 in
          (
            with_cache sha256 removable c cfg s k,
            media_reply x,
            rw (ask_media, e, served) refl,
            with_cache-IsSafe k s.jobs (
                handle_get_media-IsSerial sha256 removable c b.media_key_bytes k₀ b.cache r.path_id
                  io v.cache),
            refl,
          )
    ]
