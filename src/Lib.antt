-- ===== src/Lib.antt =====
-- tg-bridge is a Go service that signs in to one Telegram account and gives small devices a narrow
-- HTTP interface to it. These modules model its own logic and prove it correct.
--
-- The parts, and the files that model them:
--   * Config (internal/config/config.go): `Load` with the checks and the defaults of `validate`, and
--     `TokenToClient`, which finds the client of a bearer token.
--   * Http (internal/httpapi/middleware.go, chats.go, ws.go and server.go): `bearerToken`,
--     `withAuth`, the handlers for the account and the chats, and the allow-lists of
--     `clientCanAccess`, `eventAllowed` and `Bridge.chatAllowed` (internal/bridge/bridge.go). A
--     handler is a function from the client and the request to the calls of the bridge it makes and
--     its response; the bridge's answers are a record, `BridgeApi`. Http/Strings has the functions
--     of Go's strings and strconv packages that they use, on bytes.
--   * AuthApi (internal/httpapi/auth.go, ratelimit.go and server.go): the four auth routes behind
--     `withAuth` and `withRateLimit`, over the limiter of `New` and the authenticator; `clientIP`
--     is in AuthApi/HostPort.
--   * Events (internal/httpapi/ws.go): the loop of `handleEvents` for any number of clients, over one
--     broker and the updates that `dispatchMessage` publishes. `none` is a panic.
--   * Fetch (internal/bridge/media.go and bridge.go, internal/httpapi/chats.go): `FetchMedia`,
--     `waitReady` and `handleGetMedia`.
--   * RateLimit (internal/httpapi/ratelimit.go): `allow` with its token buckets. Time is in
--     nanoseconds and a token in fractions that make every rate per minute whole; the rounding of
--     float64 is not modelled. The key that a range over a Go map gives first is an argument.
--   * Chats (internal/bridge/chats.go and send.go): `peerToChatID`, `ListChats` with its indexes,
--     `truncate`, the peer cache with `resolvePeer`, and `SendText`, `MarkRead` and `GetMessages` up
--     to their call of Telegram; Messages has what follows that call in `GetMessages`, and Chats/Sent
--     what follows it in `SendText`, with `extractMessageID` (internal/bridge/media.go). A map with
--     int64 keys is a list of pairs, the newest first. What Telegram answers is a record, `Api`, which
--     may be another one for each operation.
--   * Messages (internal/bridge/chats.go, bridge.go and updates.go): the messages that `GetMessages`
--     makes of a history, `resolveName`, and the events of `dispatchMessage`.
--   * Auth (internal/bridge/auth.go): the authenticator with its state, its last error and its three
--     channels of one value, and `runAuth` with its two inner loops, as a machine whose points are
--     the places where the code waits. An event is an answer (of Telegram, of a channel or of the
--     context) or a call of an HTTP handler, in any order.
--   * Broker (internal/bridge/updates.go): `Subscribe`, the function it returns, and `Publish`, over
--     a heap of buffered channels. `none` is Go's panic. Broker/Fan is the abstract specification, a
--     bounded queue for each subscriber, which Broker/Refine compares with it.
--   * MediaId (internal/bridge/media.go): the byte layout of a media reference and the ids that are
--     signed with a truncated HMAC. Slices out of range are a panic.
--   * Media (internal/bridge/media.go): `summarizeMedia`, `classifyDoc` and
--     `pickSmallestPhotoSize`.
--   * MediaKey (internal/bridge/mediakey.go): the secret of the ids and the file that keeps it.
--   * MediaCache (internal/bridge/mediacache.go): the cache of media files with its linked list, its
--     map, its counted bytes and the directory. MediaCache/Overlap has calls that overlap, as a step
--     relation: `Put` takes the lock only behind the rename of its file.
--   * Tls (internal/tlsutil/tlsutil.go): `EnsureSelfSigned` over a disk of files with permissions.
--   * Start (internal/bridge/bridge.go and cmd/tg-bridge/main.go): `New`, `Close` and `Run`, which is a
--     machine over that of Auth, and in Start/Main `main` from the file of the configuration to the
--     exit status, over Config, Tls, MediaKey, MediaCache and the bridge.
--   * Server (internal/httpapi/server.go and middleware.go): the routes of `registerRoutes` over the
--     state that they share, which is the rate limiter, the bridge of Start and the streams of Events.
--     `ask` is a request to any of them, and `run_server` a course of requests, parts of overlapping
--     requests for media, steps of `Run`, turns of the streams and updates. Each call of Telegram for
--     a chat is recorded with its request. Server/Writer has `requestLog`, `statusWriter`, `writeJSON`
--     and `writeError`, and what each reply writes.
--   * Prelude: the names that all share, lists, byte strings, maps and signed integers.
--
-- How they interact: `main` makes the certificate of Tls and the bridge, whose `Run` drives the login
-- of Auth; the handlers of Http and AuthApi ask Config for the client of a token, give what is posted
-- to the channels of Auth, and call the bridge; Messages turns updates into events and publishes them
-- to Broker, whose channels the streams of Events read behind the allow-list of each client; the ids
-- of MediaId, which Media puts into summaries, name the media that Fetch downloads into MediaCache.
--
-- Parameters: HMAC-SHA-256 and base64 (MediaCrypto), SHA-256 of a cache key, the random bytes of a new
-- media key, the YAML parser, the response writer of net/http with what it documents (HttpLib), the
-- JSON encoder, `http.ServeFile` and `websocket.Accept` (Encoders), the creation and loading of
-- certificates (TlsLib), and which files can be written, renamed and removed. JSON bodies are given as
-- decoded, and the answers of Telegram are events.
--
-- Fuel: the loops of `Put` and `newMediaCache` that evict run on the length of the list, which each
-- round makes shorter by one. All else recurs on its argument; the loop of `waitReady` recurs on the
-- ticks that it meets.
--
-- Not modelled: the Telegram library and the connection to it, the log but for the status of a
-- request, flags, and the time limit of the shutdown. The text of an error response is a parameter. A
-- call of the broker or of the cache is one step, as each holds its mutex, save the part of `Put`
-- before its lock. In Server a request (`asks`) is one step too, and what its handler waits for is
-- given with it; a request for media comes also in parts (`fetches`), the look-up, the download and
-- the lock of `Put`, so that downloads overlap with one another and with all else.
pub mod Prelude
pub mod MediaId
pub mod MediaCache
pub mod Auth
pub mod Broker
pub mod Config
pub mod Http
pub mod Chats
pub mod RateLimit
pub mod MediaKey
pub mod AuthApi
pub mod Media
pub mod Messages
pub mod Events
pub mod Fetch
pub mod Tls
pub mod Start
pub mod Server
