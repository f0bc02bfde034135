-- ===== src/Server.antt =====
-- The routes of internal/httpapi/server.go together, over the state that they share: the rate
-- limiter, the bridge of internal/bridge/bridge.go with its login, peer cache and media cache, and
-- the event streams. Requests, the progress of the bridge's `Run`, the turns of the streams and the
-- updates of Telegram follow one another in any order.
pub mod Calls
pub mod Login
pub mod Safe
pub mod Fetches
pub mod Turns
pub mod Sends
pub mod Refused
pub mod Whole
pub mod Started
pub mod Writer
mod OverlapTests
pub mod Tests
use tg_bridge.Prelude.{
  ℕ, zero, suc, ◌==◌, Bool, true, false, Option, none, some, List, [], ◌∷◌, ◌++◌, ◌⊎◌, Str,
  is_empty, if◌then◌else◌,
}
use tg_bridge.Prelude.Int.{ℤ}
use tg_bridge.Config.{ClientConfig, Config, token_to_client}
use tg_bridge.Http.{
  Request, bearer_token, BridgeCall, lists_chats, gets_messages, sends_text, marks_read, BridgeApi,
  Response, Route, with_auth,
}
use tg_bridge.RateLimit.{RateLimiter}
use tg_bridge.AuthApi.{AuthRoute, AuthRequest, AuthResponse, auth_rate_limiter, serve}
use tg_bridge.Auth.{AuthState, Answer, answers}
use tg_bridge.Chats.{User, InputPeer, DialogsClass, MessageClass, Api, ApiCall}
use tg_bridge.Chats
use tg_bridge.Chats.Sent.{SentAnswer, send_message}
use tg_bridge.Messages.{ChatMessage, Entities, MessagesClass, load_messages}
use tg_bridge.MediaId.{
  MediaRef, MediaCrypto, Outcome, ok, err, panic, media_kind_photo, decode_media_id,
}
use tg_bridge.MediaCache.{FilePath, Cache, PutIo, get}
use tg_bridge.MediaCache.Overlap.{Phase, Job, at_file, renamed, lock_and_install}
use tg_bridge.Fetch.{jpeg, handle_get_media}
use tg_bridge.Start.{
  Bridge, RunErr, RunEvent, connects, login_event, self_is, self_fails, dialogs_are, updates_end,
  client_ends, is_ready, run_step,
}
use tg_bridge.Events.{Streams, no_streams, Turn, Wake, opens, wakes, arrives}
use tg_bridge.Events

-- The patterns of `registerRoutes`.
pub data Endpoint : Type 0 where
  auth_route : AuthRoute → Endpoint
  chat_route : Route → Endpoint
  get_media : Endpoint
  get_events : Endpoint

-- The limiter of `httpapi.New`, the bridge that the server is given, and its event streams; the
-- requests that have opened a stream, the newest first, and the downloads that are under way.
pub record Server : Type 0 where
  pub auth_rl : RateLimiter
  pub bridge : Bridge
  pub streams : Streams
  pub openers : List Request
  pub jobs : List Job

unfoldable pub new_server : Bridge → Server
new_server b = record {
  auth_rl = auth_rate_limiter;
  bridge = b;
  streams = no_streams;
  openers = [];
  jobs = [];
}

-- How Telegram, the file system and the socket answer during one request: the dialogs, a history,
-- a sent text and a read mark, the wait of a download for a bridge that is not ready, the download,
-- and the upgrade to a web socket.
pub record Answers : Type 0 where
  pub get_dialogs : ℤ → Option DialogsClass
  pub history : InputPeer → ℤ → ℤ → Option MessagesClass
  pub sent : Option SentAnswer
  pub read_ok : Bool
  pub becomes_ready : Bool
  pub put_io : PutIo
  pub upgrades : Bool

pub data Reply : Type 0 where
  auth_reply : AuthResponse → Reply
  chat_reply : Response User ChatMessage → Reply
  media_reply : ℕ ⊎ (FilePath × Str) → Reply
  stream_opened upgrade_failed unauthorized : Reply

-- A call of Telegram for a chat, with the request that it is made for and what the status of the
-- login is then.
pub record Sent : Type 0 where
  pub request : Request
  pub status : AuthState
  pub chat_id : ℤ
  pub call : ApiCall

-- The client that `withAuth` passes on.
unfoldable pub client_of : Config → Request → Option ClientConfig
client_of cfg r = if is_empty (bearer_token r) then none else token_to_client cfg (bearer_token r)

-- `waitReady` behind the handlers of the chats, which have seen the account, and the dialogs.
unfoldable pub api_of : Bridge → Answers → Api
api_of b a = record { ready = is_ready b; get_dialogs = a.get_dialogs }

module _ (r : Request) (status : AuthState) (api : Api) where
  abbrev pub tag : ℤ → Option ApiCall → List Sent
  tag id none = []
  tag id (some call) = record { request = r; status = status; chat_id = id; call = call } ∷ []

  -- What a call of the bridge does with the peer cache, and the call of Telegram that it makes.
  unfoldable pub perform : List (ℤ × InputPeer) → BridgeCall → List (ℤ × InputPeer) × List Sent
  perform peers (lists_chats limit) = ((Chats.list_chats api peers limit).0, [])
  perform peers (gets_messages id limit before) =
      let (peers', call) = Chats.get_messages api peers id limit before in (peers', tag id call)
  perform peers (sends_text id text) =
      let (peers', call) = Chats.send_text api peers id text in (peers', tag id call)
  perform peers (marks_read id up_to) =
      let (peers', call) = Chats.mark_read api peers id up_to in (peers', tag id call)

  unfoldable pub perform_all :
      List (ℤ × InputPeer) → List BridgeCall → List (ℤ × InputPeer) × List Sent
  perform_all peers [] = (peers, [])
  perform_all peers (k ∷ ks) =
      let (peers', sent) = perform peers k in
      let (peers'', more) = perform_all peers' ks in (peers'', sent ++ more)

-- What `Run` of the bridge goes on with, the login's answers among it.
pub data Progress : Type 0 where
  client_connects : Progress
  login_gets : Answer → Progress
  self_is_known : User → Progress
  self_is_refused : Bool → Progress
  dialogs_come : Option DialogsClass → Progress
  updates_stop client_stops : Option RunErr → Progress

unfoldable pub run_event : Progress → RunEvent
run_event client_connects = connects
run_event (login_gets x) = login_event (answers x)
run_event (self_is_known user) = self_is user
run_event (self_is_refused ended_by) = self_fails ended_by
run_event (dialogs_come dialogs) = dialogs_are dialogs
run_event (updates_stop e) = updates_end e
run_event (client_stops e) = client_ends e

-- The parts of a request for media that others come in between: the look-up, up to the start of a
-- download; what the downloads do to the files; the rename of a download's file, with its size; its
-- failure; and what `Put` does under its lock. A download is named by its place in the list.
pub data FetchStep : Type 0 where
  looks_up : Request → Bool → FetchStep
  files_change : List (Str × ℕ) → FetchStep
  file_renamed : ℕ → ℕ → FetchStep
  download_fails download_installs : ℕ → FetchStep

unfoldable pub job_at : ℕ → List Job → Option Job
job_at i [] = none
job_at zero (j ∷ js) = some j
job_at (suc i) (j ∷ js) = job_at i js

unfoldable pub without_job : ℕ → List Job → List Job
without_job i [] = []
without_job zero (j ∷ js) = js
without_job (suc i) (j ∷ js) = j ∷ without_job i js

unfoldable pub rename_job : ℕ → ℕ → List Job → List Job
rename_job i n [] = []
rename_job zero n (j ∷ js) = elim j.phase [
  | at_file ↦ record j { phase = renamed n } ∷ js
  | renamed m ↦ j ∷ js
]
rename_job (suc i) n (j ∷ js) = j ∷ rename_job i n js

-- What happens to the server: a request, from its start to its end; a step of one that others come
-- in between; `Run` goes on; the goroutine of a stream goes on; an update arrives.
pub data ServerTurn : Type 0 where
  asks : Endpoint → AuthRequest → Answers → ServerTurn
  fetches : FetchStep → ServerTurn
  runs : Progress → ServerTurn
  stream_wakes : ℕ → Wake → ServerTurn
  update_arrives : Entities → MessageClass → ServerTurn

module _ (sha256 : Str → Str) (removable : Str → Bool) (c : MediaCrypto) (cfg : Config) where
  -- The bridge that the handlers of the chats call, before the call changes its peer cache.
  unfoldable pub bridge_api : Bridge → Answers → BridgeApi User ChatMessage
  bridge_api b a = record {
    self = b.self;
    list_chats = λ limit. (Chats.list_chats (api_of b a) b.peer_cache limit).1;
    get_messages = λ id limit before.
        (load_messages c b.media_key_bytes (api_of b a) a.history b.peer_cache id limit before).1;
    send_text = λ id text. (send_message (api_of b a) b.peer_cache id text a.sent).2;
    mark_read = λ id up_to. elim (Chats.mark_read (api_of b a) b.peer_cache id up_to).1 [
      | none ↦ false
      | some call ↦ a.read_ok
    ];
  }

  unfoldable pub ask_auth : Server → AuthRoute → AuthRequest → Server × Reply
  ask_auth s route r =
      let (auth, response) =
        serve cfg (record { auth_rl = s.auth_rl; login = s.bridge.login }) route r in
      (
        record s { auth_rl = auth.auth_rl; bridge = record s.bridge { login = auth.login } },
        auth_reply response,
      )

  unfoldable pub ask_chats : Server → Route → Request → Answers → Server × Reply × List Sent
  ask_chats s route r a =
      let b = s.bridge in
      let (calls, response) = with_auth (bridge_api b a) cfg route r in
      let (peers, sent) = perform_all r b.login.auth.state (api_of b a) b.peer_cache calls in
      (record s { bridge = record b { peer_cache = peers } }, chat_reply response, sent)

  -- A request for media that nothing comes in between; `none` would be a panic.
  unfoldable pub ask_media : Server → Request → Answers → Option (Server × Reply)
  ask_media s r a = elim (client_of cfg r) [
    | none ↦ some (s, unauthorized)
    | some client ↦
        let ready = if is_ready s.bridge then true else a.becomes_ready in
        let (cache, served) =
          handle_get_media sha256 removable c s.bridge.media_key_bytes s.bridge.cache r.path_id
            (record { ready = ready; put_io = a.put_io }) in
        elim served [
          | none ↦ none
          | some x ↦ some (record s { bridge = record s.bridge { cache = cache } }, media_reply x)
        ]
  ]

  abbrev pub with_cache : Server → Cache → Server
  with_cache s k = record s { bridge = record s.bridge { cache = k } }

  -- Behind a miss of the cache a download starts, for a photo's id when the bridge is ready.
  unfoldable pub start_download : Server → Str → Bool → Outcome MediaRef → Option Server
  start_download s media_id ready panic = none
  start_download s media_id ready (err e) = some s
  start_download s media_id ready (ok ref) =
      if ready
      then (if ref.kind == media_kind_photo
          then some (record s {
            jobs = s.jobs ++ (record { media_id = media_id; mime = jpeg; phase = at_file } ∷ []);
          })
          else some s)
      else some s

  unfoldable pub look_up : Server → Request → Bool → Option Server
  look_up s r becomes_ready = elim (client_of cfg r) [
    | none ↦ some s
    | some client ↦
        let (k, hit) = get sha256 removable s.bridge.cache r.path_id in
        let ready = if is_ready s.bridge then true else becomes_ready in
        if is_empty r.path_id then some s else elim hit [
          | some found ↦ some (with_cache s k)
          | none ↦
              start_download (with_cache s k) r.path_id ready
                (decode_media_id c s.bridge.media_key_bytes r.path_id)
        ]
  ]

  -- `Put` of a download that has its file, under the lock.
  unfoldable pub install_phase : Server → ℕ → Job → Phase → Server
  install_phase s i j at_file = s
  install_phase s i j (renamed n) =
      record (with_cache s (lock_and_install sha256 removable j n s.bridge.cache)) {
        jobs = without_job i s.jobs;
      }

  unfoldable pub install_job : Server → ℕ → Option Job → Server
  install_job s i none = s
  install_job s i (some j) = install_phase s i j j.phase

  unfoldable pub fail_job : Server → ℕ → Option Job → Server
  fail_job s i none = s
  fail_job s i (some j) = elim j.phase [
    | at_file ↦ record s { jobs = without_job i s.jobs }
    | renamed n ↦ s
  ]

  unfoldable pub fetch_step : Server → FetchStep → Option Server
  fetch_step s (looks_up r becomes_ready) = look_up s r becomes_ready
  fetch_step s (files_change files) = some (with_cache s (record s.bridge.cache { files = files }))
  fetch_step s (file_renamed i n) = some (record s { jobs = rename_job i n s.jobs })
  fetch_step s (download_fails i) = some (fail_job s i (job_at i s.jobs))
  fetch_step s (download_installs i) = some (install_job s i (job_at i s.jobs))

  -- A turn of the streams; `none` would be a panic.
  unfoldable pub turn_streams : Server → Turn → Option Server
  turn_streams s t = elim (Events.turn c s.bridge.media_key_bytes cfg s.streams t) [
    | none ↦ none
    | some streams ↦ some (record s { streams = streams })
  ]

  unfoldable pub ask_events : Server → Request → Answers → Option (Server × Reply)
  ask_events s r a = elim (client_of cfg r) [
    | none ↦ some (s, unauthorized)
    | some client ↦ elim a.upgrades [
      | false ↦ some (s, upgrade_failed)
      | true ↦ elim (turn_streams s (opens (some client))) [
        | none ↦ none
        | some s' ↦ some (record s' { openers = r ∷ s'.openers }, stream_opened)
      ]
    ]
  ]

  -- A request: the server afterwards, the reply, and the calls of Telegram for a chat.
  unfoldable pub ask :
      Server → Endpoint → AuthRequest → Answers → Option (Server × Reply × List Sent)
  ask s (auth_route route) r a = let (s', reply) = ask_auth s route r in some (s', reply, [])
  ask s (chat_route route) r a = some (ask_chats s route r.request a)
  ask s get_media r a = elim (ask_media s r.request a) [
    | none ↦ none
    | some (s', reply) ↦ some (s', reply, [])
  ]
  ask s get_events r a = elim (ask_events s r.request a) [
    | none ↦ none
    | some (s', reply) ↦ some (s', reply, [])
  ]

  abbrev pub quiet : Option Server → Option (Server × List Sent)
  quiet none = none
  quiet (some s) = some (s, [])

  unfoldable pub server_turn : Server → ServerTurn → Option (Server × List Sent)
  server_turn s (asks endpoint r a) = elim (ask s endpoint r a) [
    | none ↦ none
    | some (s', reply, sent) ↦ some (s', sent)
  ]
  server_turn s (fetches x) = quiet (fetch_step s x)
  server_turn s (runs p) =
      some (record s { bridge = run_step s.bridge.phase (run_event p) s.bridge }, [])
  server_turn s (stream_wakes addr w) = quiet (turn_streams s (wakes addr w))
  server_turn s (update_arrives e m) = quiet (turn_streams s (arrives e m))

  unfoldable pub run_server : Server → List ServerTurn → Option (Server × List Sent)
  run_server s [] = some (s, [])
  run_server s (t ∷ ts) = elim (server_turn s t) [
    | none ↦ none
    | some (s', sent) ↦ elim (run_server s' ts) [
      | none ↦ none
      | some (s'', more) ↦ some (s'', sent ++ more)
    ]
  ]
