-- ===== src/Server/Turns.antt =====
-- Every turn of the server keeps the state in order: the requests to the routes of
-- internal/httpapi/server.go, the streams of ws.go, and `Run` of internal/bridge/bridge.go.
use tg_bridge.Prelude.{
  ◌+◌, ◌^◌, ◌≡◌, ◌≤◌, ◌<◌, inl, inr, refl, sym, subst, Bool, Option, some, List, [], ◌∷◌, map, ◌∙◌,
  Str, All, arith, Bool-cases, Option-cases,
}
use tg_bridge.Config.{ClientConfig, Config}
use tg_bridge.Http.{Request}
use tg_bridge.Auth.Prompt.{IsShown, step-IsShown}
use tg_bridge.AuthApi.{AuthRequest}
use tg_bridge.MediaId.{MediaCrypto}
use tg_bridge.MediaCache.{Cache}
use tg_bridge.MediaCache.Books.{IsSerial}
use tg_bridge.Events.{Turn, opens, wakes, arrives}
use tg_bridge.Events.Clients.{clients_of, next_clients, turn-clients_of}
use tg_bridge.Events.Private.{turn-IsPrivate}
use tg_bridge.Start.{RunEvent, run_step}
use tg_bridge.Start.Known.{step-Fits, step_login}
use tg_bridge.Server.{
  Server, Answers, Sent, auth_route, chat_route, get_media, get_events, ServerTurn, asks, fetches,
  runs, stream_wakes, update_arrives, run_event, client_of, turn_streams, ask_events, ask,
  server_turn,
}
use tg_bridge.Server.Login.{run_step-cache, run_step-IsKeyed}
use tg_bridge.Server.Calls.{IsAllowed}
use tg_bridge.Server.Fetches.{fetch_step-Stays}
use tg_bridge.Server.Safe.{IsSafe, ask_auth-IsSafe, ask_chats-IsSafe, ask_media-IsSafe}

module _ (sha256 : Str → Str) (removable : Str → Bool) (k₀ : Cache) (cfg : Config) (c : MediaCrypto)
    (s : Server) (v : IsSafe sha256 removable k₀ cfg s) where
  runs-IsSafe :
      (e : RunEvent)
      → IsSafe sha256 removable k₀ cfg (record s { bridge = run_step s.bridge.phase e s.bridge })
  runs-IsSafe e =
      let b = s.bridge in
      record {
        peers = run_step-IsKeyed b.phase e b v.peers;
        cache = subst (IsSerial sha256 removable k₀) (sym (run_step-cache b.phase e b)) v.cache;
        login = elim (step_login b.phase e b) [
          | inl kept ↦ subst IsShown (sym kept) v.login
          | inr (x, made, stepped) ↦ subst IsShown (sym stepped) (step-IsShown b.login x v.login)
        ];
        phase = step-Fits b.phase e b refl v.phase;
        streams = v.streams;
        clients = record { own = v.clients.own; known = v.clients.known };
      }

  -- The requests that have opened the streams, after a turn of theirs.
  abbrev OpensFor : Turn → List Request → Type 0
  OpensFor t rs =
      (next_clients s.streams.sessions t ≡ map (client_of cfg) rs)
      × All (λ r. (cl : ClientConfig) × (client_of cfg r ≡ some cl)) rs

  turn_streams-IsSafe :
      (t : Turn) (rs : List Request)
      → OpensFor t rs
      → s.streams.broker.next_id + 1 < 2 ^ 64
      → (s' : Server) × (turn_streams sha256 removable c cfg s t ≡ some s')
        × (s'.openers ≡ s.openers)
        × IsSafe sha256 removable k₀ cfg (record s' { openers = rs })
        × (s'.streams.broker.next_id ≤ s.streams.broker.next_id + 1)
  unfolding turn_streams
  turn_streams-IsSafe t rs (own, known) lt =
      let (streams, done, private, le) =
        turn-IsPrivate cfg c s.bridge.media_key_bytes s.streams t v.streams lt in
      (
        record s { streams = streams },
        rw (turn_streams, done) refl,
        refl,
        record {
          peers = v.peers;
          cache = v.cache;
          login = v.login;
          phase = v.phase;
          streams = private;
          clients = record {
            own = turn-clients_of c s.bridge.media_key_bytes cfg s.streams streams t done ∙ own;
            known = known;
          };
        },
        le,
      )

  -- A turn that opens no stream.
  turn_streams_same :
      (t : Turn)
      → next_clients s.streams.sessions t ≡ clients_of s.streams.sessions
      → s.streams.broker.next_id + 1 < 2 ^ 64
      → (s' : Server) × (turn_streams sha256 removable c cfg s t ≡ some s')
        × IsSafe sha256 removable k₀ cfg s'
        × (s'.streams.broker.next_id ≤ s.streams.broker.next_id + 1)
  turn_streams_same t same lt =
      let (s', done, kept, safe, le) =
        turn_streams-IsSafe t s.openers (same ∙ v.clients.own, v.clients.known) lt in
      (
        s',
        done,
        subst (λ rs. IsSafe sha256 removable k₀ cfg (record s' { openers = rs })) (sym kept) safe,
        le,
      )

  -- A turn that goes on: it keeps the state in order and makes only calls that are allowed.
  abbrev pub GoesOn : Option (Server × List Sent) → Type 0
  GoesOn o =
      (s' : Server) × (sent : List Sent) × (o ≡ some (s', sent))
      × IsSafe sha256 removable k₀ cfg s'
      × All (IsAllowed cfg) sent
      × (s'.streams.broker.next_id ≤ s.streams.broker.next_id + 1)

  opened :
      {x y : Option ClientConfig} {xs ys : List (Option ClientConfig)}
      → x ≡ y
      → xs ≡ ys
      → (x ∷ xs) ≡ (y ∷ ys)
  opened p q = cc

  ask_events-IsSafe :
      (r : AuthRequest) (a : Answers)
      → s.streams.broker.next_id + 1 < 2 ^ 64
      → GoesOn (server_turn sha256 removable c cfg s (asks get_events r a))
  unfolding server_turn ask ask_events
  ask_events-IsSafe r a lt = elim (Option-cases (client_of cfg r.request)) [
    | inl e ↦ (s, [], rw (server_turn, ask, ask_events, e) refl, v, tt, omega arith)
    | inr (cl, e) ↦ elim (Bool-cases a.upgrades) [
      | inr u ↦ (s, [], rw (server_turn, ask, ask_events, e, u) refl, v, tt, omega arith)
      | inl u ↦
          let (s', done, kept, safe, le) =
            turn_streams-IsSafe (opens (some cl)) (r.request ∷ s.openers)
              (opened (sym e) v.clients.own, ((cl, e), v.clients.known)) lt in
          (
            record s' { openers = r.request ∷ s'.openers },
            [],
            rw (server_turn, ask, ask_events, e, u, done) refl,
            subst (λ rs. IsSafe sha256 removable k₀ cfg (record s' { openers = r.request ∷ rs }))
                (sym kept) safe,
            tt,
            le,
          )
    ]
  ]

  pub server_turn-IsSafe :
      (t : ServerTurn)
      → s.streams.broker.next_id + 1 < 2 ^ 64
      → GoesOn (server_turn sha256 removable c cfg s t)
  unfolding server_turn ask
  server_turn-IsSafe (asks (auth_route route) r a) lt =
      let (safe, same) = ask_auth-IsSafe sha256 removable k₀ cfg c s v route r in
      (_, [], refl, safe, tt, rw same (omega arith))
  server_turn-IsSafe (asks (chat_route route) r a) lt =
      let (safe, same, sent) = ask_chats-IsSafe sha256 removable k₀ cfg c s v route r.request a in
      (_, _, refl, safe, sent, rw same (omega arith))
  server_turn-IsSafe (asks get_media r a) lt =
      let (s', reply, done, safe, same) =
        ask_media-IsSafe sha256 removable k₀ cfg c s v r.request a in
      (s', [], rw (server_turn, ask, done) refl, safe, tt, rw same (omega arith))
  server_turn-IsSafe (asks get_events r a) lt = ask_events-IsSafe r a lt
  server_turn-IsSafe (fetches x) lt =
      let (s', done, safe, same) = fetch_step-Stays sha256 removable k₀ cfg c s v x in
      (s', [], rw (server_turn, done) refl, safe, tt, rw same (omega arith))
  server_turn-IsSafe (runs p) lt = (_, [], refl, runs-IsSafe (run_event p), tt, omega arith)
  server_turn-IsSafe (stream_wakes addr w) lt =
      let (s', done, safe, le) = turn_streams_same (wakes addr w) refl lt in
      (s', [], rw (server_turn, done) refl, safe, tt, le)
  server_turn-IsSafe (update_arrives e m) lt =
      let (s', done, safe, le) = turn_streams_same (arrives e m) refl lt in
      (s', [], rw (server_turn, done) refl, safe, tt, le)
