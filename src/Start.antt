-- ===== src/Start.antt =====
-- The start and the end of the program: `New`, `Close` and `Run` of internal/bridge/bridge.go and
-- `main` of cmd/tg-bridge/main.go.
pub mod Main
pub mod Closed
pub mod Known
pub mod Serving
pub mod Tests
use tg_bridge.Prelude.{
  ℕ, Bool, true, false, ◌&&◌, not, Option, none, some, List, [], ◌∷◌, ◌⊎◌, inl, inr, Str,
  if◌then◌else◌,
}
use tg_bridge.Prelude.Int.{ℤ, pos}
use tg_bridge.Config.{Config}
use tg_bridge.MediaKey.{KeyFile, KeyIo, load_or_create_media_key}
use tg_bridge.MediaCache.{Cache, DirEntry, new_media_cache}
use tg_bridge.Chats.{User, InputPeer, DialogsClass, list_chats}
use tg_bridge.Auth.{
  AuthErr, Pc, Login, Answer, Event, http_phone, http_code, http_password, answers, ended, start,
  step,
}

-- The calls that may fail: the directory of the session, the database, the key's file, the
-- directory of the media.
pub record NewIo : Type 0 where
  pub makes_session_dir : Bool
  pub opens_db : Bool
  pub key_io : KeyIo
  pub makes_cache_dir : Bool
  pub listing : Option (List DirEntry)

-- What the bridge finds on the disk: the key's file, and the media with their sizes. `db_open` says
-- whether the database file is held open.
pub record Place : Type 0 where
  pub key_file : KeyFile
  pub files : List (Str × ℕ)
  pub db_open : Bool

pub data NewErr : Type 0 where
  session_dir updates_db media_key media_cache : NewErr

-- Where `Run` stands: before the client has connected, in `runAuth`, before `Self` or
-- `warmPeerCache` answers, in the updates manager, or back with an error, if there is one. The
-- failure of `Self` says whether it is the end of the context.
pub data RunErr : Type 0 where
  auth_failed : AuthErr → RunErr
  self_failed : Bool → RunErr
  client_failed canceled : RunErr

pub data Phase : Type 0 where
  connecting at_login at_self at_warm at_updates : Phase
  returned : Option RunErr → Phase

pub record Bridge : Type 0 where
  pub phase : Phase
  pub client_ready : Bool
  pub self : Option User
  pub login : Login
  pub peer_cache : List (ℤ × InputPeer)
  pub media_key_bytes : Str
  pub cache : Cache

module _ (sha256 : Str → Str) (removable : Str → Bool) where
  -- `New` with the open database: each error closes it.
  unfoldable pub new_opened : Config → NewIo → Place → Place × (NewErr ⊎ Bridge)
  new_opened cfg io at =
      let (file, key) = load_or_create_media_key io.key_io at.key_file in
      let made =
        new_media_cache sha256 removable cfg.media.cache_dir cfg.media.max_bytes io.makes_cache_dir
          io.listing at.files in
      elim key [
        | none ↦ (record at { key_file = file; db_open = false }, inl media_key)
        | some k ↦ elim made [
          | none ↦ (record at { key_file = file; db_open = false }, inl media_cache)
          | some c ↦ (
            record { key_file = file; files = c.files; db_open = true },
            inr (record {
              phase = connecting;
              client_ready = false;
              self = none;
              login = start;
              peer_cache = [];
              media_key_bytes = k;
              cache = c;
            }),
          )
        ]
      ]

  unfoldable pub new_bridge : Config → NewIo → Place → Place × (NewErr ⊎ Bridge)
  new_bridge cfg io at =
      if io.makes_session_dir
      then (if io.opens_db
          then new_opened cfg io (record at { db_open = true })
          else (at, inl updates_db))
      else (at, inl session_dir)

unfoldable pub close_bridge : Place → Place
close_bridge at = record at { db_open = false }

-- What `Run` meets: the client connects, an event of the login, the answer of `Self`, the dialogs
-- for `warmPeerCache`, the end of the updates manager, or the end of the client.
pub data RunEvent : Type 0 where
  connects : RunEvent
  login_event : Event → RunEvent
  self_is : User → RunEvent
  self_fails : Bool → RunEvent
  dialogs_are : Option DialogsClass → RunEvent
  updates_end client_ends : Option RunErr → RunEvent

-- `Run` behind `runAuth`.
unfoldable pub after_login : Pc → Phase
after_login (ended none) = at_self
after_login (ended (some e)) = returned (some (auth_failed e))
after_login pc = at_login

-- The condition of `waitReady`.
unfoldable pub is_ready : Bridge → Bool
is_ready b = if b.client_ready then elim b.self [ none ↦ false | some user ↦ true ] else false

unfoldable pub warm_peer_cache : Bridge → Option DialogsClass → List (ℤ × InputPeer)
warm_peer_cache b dialogs =
    (list_chats (record { ready = is_ready b; get_dialogs = λ limit. dialogs }) b.peer_cache
      (pos 100)).0

-- The handlers put values into the authenticator at any time; `runAuth` moves only in its phase.
unfoldable pub log_in : Phase → Event → Bridge → Bridge
log_in phase (http_phone p) b = record b { login = step b.login (http_phone p) }
log_in phase (http_code c) b = record b { login = step b.login (http_code c) }
log_in phase (http_password p) b = record b { login = step b.login (http_password p) }
log_in at_login (answers x) b =
    let login = step b.login (answers x) in record b { login = login; phase = after_login login.pc }
log_in phase (answers x) b = b

unfoldable pub run_step : Phase → RunEvent → Bridge → Bridge
run_step connecting connects b = record b { client_ready = true; phase = at_login }
run_step phase (login_event e) b = log_in phase e b
run_step at_self (self_fails ended_by) b = record b {
  phase = returned (some (self_failed ended_by));
}
run_step at_self (self_is user) b = record b { self = some user; phase = at_warm }
run_step at_warm (dialogs_are dialogs) b = record b {
  peer_cache = warm_peer_cache b dialogs;
  phase = at_updates;
}
run_step at_updates (updates_end e) b = record b { phase = returned e }
run_step (returned e) (client_ends f) b = b
run_step phase (client_ends e) b = record b { phase = returned e }
run_step phase event b = b

unfoldable pub run_bridge : Bridge → List RunEvent → Bridge
run_bridge b [] = b
run_bridge b (e ∷ es) = run_bridge (run_step b.phase e b) es
