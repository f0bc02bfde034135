-- ===== src/MediaKey.antt =====
-- The secret of the media ids, in internal/bridge/mediakey.go, with the file that keeps it.
pub mod Stable
mod Tests
use tg_bridge.Prelude.{ℕ, Bool, true, false, Option, none, some, Str, length, ◌==◌, if◌then◌else◌}

-- The file media.key: it is not there, cannot be read, or has bytes.
pub data KeyFile : Type 0 where
  missing : KeyFile
  unreadable : KeyFile
  bytes : Str → KeyFile

-- How the system answers: the random bytes, if there are any, and what a write leaves when it fails
-- (`none` when it does not).
pub record KeyIo : Type 0 where
  pub random : Option Str
  pub spoiled : Option KeyFile

abbrev pub media_key_size : ℕ
media_key_size = 32

-- The file afterwards, and the key or (`none`) an error.
unfoldable pub load_or_create_media_key : KeyIo → KeyFile → KeyFile × Option Str
load_or_create_media_key io (bytes stored) =
    if length stored == media_key_size then (bytes stored, some stored) else (bytes stored, none)
load_or_create_media_key io unreadable = (unreadable, none)
load_or_create_media_key io missing = elim io.random [
  | none ↦ (missing, none)
  | some key ↦ elim io.spoiled [ some left ↦ (left, none) | none ↦ (bytes key, some key) ]
]
