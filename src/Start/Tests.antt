-- ===== src/Start/Tests.antt =====
-- The start of the program at concrete answers of the system.
use tg_bridge.Prelude.{
  ◌*◌, ◌^◌, ◌≡◌, refl, Bool, true, false, Option, none, some, List, [], ◌∷◌, Str, codes, str_eq,
}
use tg_bridge.Prelude.Int.{pos, ◌+ℤ◌, ◌-ℤ◌}
use tg_bridge.Prelude.Map
use tg_bridge.Config.{Config, token_missing, set_defaults, validate, load}
use tg_bridge.Config.Tests.{two_clients}
use tg_bridge.MediaKey.{bytes, load_or_create_media_key}
use tg_bridge.MediaCache.Names.{hex, hex_digit}
use tg_bridge.MediaCache.{evict_locked, evict_all, load_entries, new_media_cache}
use tg_bridge.Tls.{
  is_there, read_file, mode_of, write_pem, add_hosts, template_of, fingerprint, load_key_pair,
  load_marked, new_certificate, write_key_file, write_pair, create_self_signed, ensure_self_signed,
}
use tg_bridge.Tls.Tests.{toy, io}
use tg_bridge.Chats.{User}
use tg_bridge.Auth.{
  idle, authorized, asking_status, status_ok, status_is, go_on, answers, set_state, advance, step,
  run, new_http_authenticator, start,
}
use tg_bridge.Start.{
  NewIo, Place, Bridge, self_failed, new_opened, new_bridge, close_bridge, RunEvent, connecting,
  connects, login_event, self_is, after_login, is_ready, log_in, run_step, run_bridge,
}
use tg_bridge.Start.Main.{
  MainIo, serving, exited, run_ends, is_canceled, is_sent, await, serve_until, main_bridge,
  main_tls, main_loaded, main,
}
use tg_bridge.Start.Closed.{IsLeft, HasNoBridge, main-IsLeft}
use tg_bridge.Start.Known.{any_accepted, ready-accepted}

abbrev pub sha : Str → Str
sha s = s

abbrev pub all_removable : Str → Bool
all_removable name = true

abbrev key : Str
key = codes "0123456789abcdef0123456789abcdef"

abbrev pub place : Place
place = record { key_file = bytes key; files = []; db_open = false }

abbrev pub new_io : NewIo
new_io = record {
  makes_session_dir = true;
  opens_db = true;
  key_io = record { random = none; spoiled = none };
  makes_cache_dir = true;
  listing = some [];
}

abbrev pub file : Config
file = record two_clients {
  tls = record { auto = true; cert_path = codes "c"; key_path = codes "k"; hosts = [] };
}

abbrev pub parse : Str → Option Config
parse text = some file

abbrev failing : MainIo
failing = record {
  tls_io = io;
  new_io = new_io;
  signals = run_ends (some (self_failed false)) ∷ [];
}

program : Unit {0}
unfolding is_canceled is_there read_file mode_of write_pem add_hosts template_of fingerprint
    load_key_pair load_marked new_certificate write_key_file write_pair create_self_signed
    ensure_self_signed Map.get Map.set Map.delete str_eq hex hex_digit ◌+ℤ◌ ◌-ℤ◌ token_missing
    set_defaults validate load load_or_create_media_key evict_locked evict_all load_entries
    new_media_cache set_state advance step run new_http_authenticator start new_opened new_bridge
    close_bridge after_login is_ready log_in run_step run_bridge is_sent await serve_until
    main_bridge main_tls main_loaded main
program = tt

-- An error of `Run` ends the program with the status 0.
fatal_zero : (main sha all_removable toy parse (some []) failing [] place).2 ≡ exited 0
unfolding program
fatal_zero = refl

-- A media directory that cannot be read ends it with 1.
unread_directory :
    (main sha all_removable toy parse
      (some [])
      (record failing { new_io = record new_io { listing = none } })
      []
      place).2
    ≡ exited 1
unfolding program
unread_directory = refl

main-IsLeft_example :
    let (d', at', out) = main sha all_removable toy parse (some []) failing [] place in
    IsLeft
      (HasNoBridge sha all_removable toy (load parse (some [])) failing [] place)
      failing.signals
      (at', out)
main-IsLeft_example = main-IsLeft sha all_removable toy parse (some []) failing [] place refl

abbrev pub user : User
user = record {
  id = pos 5;
  access_hash = pos 6;
  first_name = [];
  last_name = [];
  username = codes "me";
}

abbrev events : List RunEvent
events =
    connects
    ∷ login_event (answers (status_is (status_ok true)))
    ∷ login_event (answers go_on)
    ∷ self_is user
    ∷ []

abbrev pub made : Bridge
made = record {
  phase = connecting;
  client_ready = false;
  self = none;
  login = record {
    pc = asking_status;
    auth = record {
      state = idle;
      last_err = none;
      phone_ch = none;
      code_ch = none;
      passwd_ch = none;
    };
  };
  peer_cache = [];
  media_key_bytes = key;
  cache = record {
    dir = codes "./data/media";
    max_bytes = pos (100 * 2 ^ 20);
    entries = [];
    lru = [];
    total = pos 0;
    next = 0;
    files = [];
  };
}

abbrev pub quiet_io : MainIo
quiet_io = record failing { signals = [] }

-- Without a signal the program serves.
pub made_serves : (main sha all_removable toy parse (some []) quiet_io [] place).2 ≡ serving made
unfolding program
made_serves = refl

-- The configuration with its defaults.
abbrev pub cfg : Config
cfg = record file {
  media = record { cache_dir = codes "./data/media"; max_bytes = pos (100 * 2 ^ 20) };
  log_level = codes "info";
}

ready-accepted_example :
    ((run_bridge made events).login.auth.state ≡ authorized) × (any_accepted events ≡ true)
ready-accepted_example =
    ready-accepted sha all_removable cfg new_io place made events refl (unfold program in refl)
      (unfold program in refl)
