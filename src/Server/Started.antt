-- ===== src/Server/Started.antt =====
-- The program of cmd/tg-bridge/main.go, from its start on.
use tg_bridge.Prelude.{◌^◌, ◌≡◌, ◌<◌, inr, Bool, false, Option, some, List, Str, All, length}
use tg_bridge.Config.{Config, load}
use tg_bridge.Auth.Prompt.{IsShown}
use tg_bridge.MediaId.{MediaCrypto}
use tg_bridge.MediaCache.{DirEntry}
use tg_bridge.MediaCache.Books.{IsSerial}
use tg_bridge.MediaCache.Serial.{IsBooked}
use tg_bridge.MediaCache.Load.{NoTwins, IsListing}
use tg_bridge.Events.Proper.{IsProper}
use tg_bridge.Tls.{TlsLib, Disk}
use tg_bridge.Start.{Place, Bridge}
use tg_bridge.Start.Main.{MainIo, serving, main}
use tg_bridge.Start.Serving.{main-serving}
use tg_bridge.Server.{Server, Sent, ServerTurn, new_server, run_server}
use tg_bridge.Server.Calls.{IsAllowed}
use tg_bridge.Server.Safe.{IsOpened}
use tg_bridge.Server.Whole.{run_server-new_server}

-- When `main` comes to serve, from a directory of media that tells its files and where no two share
-- a name up to the extension, the server goes through any fewer than 2^64 requests, steps of
-- overlapping downloads, steps of `Run`, turns of streams and updates without a panic, under the
-- configuration that was loaded; no string asked for as a media id makes the decoder slice or index
-- out of range. Each call of Telegram for a chat was made while the status of the login was
-- `authorized`, for a request with a client's token, for a chat that the client's list permits, and
-- went to the peer of that chat. Each stream is that of the client whose token the request that
-- opened it has, and each event that it has written is of a chat that the bridge's allow-list and
-- that client's allow. However downloads overlap and whatever happens to the files, the list, map
-- and total of the media cache are those that some calls of it leave, one after the other: one
-- element for each key, the map just those, the total the sum of their sizes, within the limit or at
-- most one file. The login's status shows where the login stands.
pub run_server-main :
    (sha256 : Str → Str) (removable : Str → Bool) (lib : TlsLib) (c : MediaCrypto)
    (unmarshal : Str → Option Config) (file : Option Str) (io : MainIo) (d : Disk) (at : Place)
    (b : Bridge) (ts : List ServerTurn)
    → ((ds : List DirEntry) → io.new_io.listing ≡ some ds → NoTwins ds × IsListing at.files ds)
    → at.db_open ≡ false
    → (main sha256 removable lib unmarshal file io d at).2 ≡ serving b
    → length ts < 2 ^ 64
    → (cfg : Config) × (load unmarshal file ≡ inr cfg)
      × (s : Server) × (sent : List Sent) × (run_server sha256 removable c cfg (new_server b) ts
          ≡ some (s, sent))
      × All (IsAllowed cfg) sent
      × All (IsProper cfg s.streams.broker) s.streams.sessions
      × IsOpened cfg s
      × IsSerial sha256 removable b.cache s.bridge.cache
      × IsBooked s.bridge.cache
      × IsShown s.bridge.login
run_server-main sha256 removable lib c unmarshal file io d at b ts told shut serves lt =
    let (cfg, loaded, made) = main-serving sha256 removable lib unmarshal file io d at b serves in
    let (s, sent, done, allowed, proper, opened, serial, booked, shown) =
      run_server-new_server sha256 removable c cfg io.new_io at b ts told shut made lt in
    (cfg, loaded, s, sent, done, allowed, proper, opened, serial, booked, shown)
