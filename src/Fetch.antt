-- ===== src/Fetch.antt =====
-- Serving media: `FetchMedia` of internal/bridge/media.go over the cache and the signed ids,
-- `waitReady` of bridge.go, and `handleGetMedia` of internal/httpapi/chats.go.
pub mod Ready
pub mod Again
pub mod Booked
pub mod Inside
pub mod Photo
mod Tests
use tg_bridge.Prelude.{
  ℕ, Bool, true, false, Option, none, some, List, [], ◌∷◌, ◌⊎◌, inl, inr, Str, codes, ◌==◌,
  is_empty, if◌then◌else◌,
}
use tg_bridge.MediaId.{
  MediaRef, MediaCrypto, Outcome, ok, err, panic, media_kind_photo, decode_media_id,
}
use tg_bridge.MediaCache.{FilePath, Cache, PutIo, get, put}

-- What the loop of `waitReady` meets: a tick, with whether the client then runs and the account is
-- known, or the end of the context.
pub data Tick : Type 0 where
  tick : Bool → Tick
  context_ends : Tick

-- The loop: `none` while it waits, else whether the bridge is ready.
unfoldable pub wait_loop : List Tick → Option Bool
wait_loop [] = none
wait_loop (context_ends ∷ ts) = some false
wait_loop (tick true ∷ ts) = some true
wait_loop (tick false ∷ ts) = wait_loop ts

unfoldable pub wait_ready : Bool → List Tick → Option Bool
wait_ready true ts = some true
wait_ready false ts = wait_loop ts

-- What a fetch meets: the result of `waitReady`, and how the file system and the download answer.
pub record FetchIo : Type 0 where
  pub ready : Bool
  pub put_io : PutIo

-- How a fetch ends: with the path and the mime type, with an error, or with a panic.
pub data Got : Type 0 where
  file_is : FilePath × Str → Got
  no_file panics : Got

-- A fetch: the cache afterwards, the reference that Telegram is asked for, if any, and how it ends.
abbrev pub Fetched : Type 0
Fetched = Cache × Option MediaRef × Got

abbrev pub jpeg : Str
jpeg = codes "image/jpeg"

module _ (sha256 : Str → Str) (removable : Str → Bool) (c : MediaCrypto) (media_key : Str) where
  -- `Put` asks Telegram only when it can open its temporary file.
  unfoldable pub download : Cache → Str → MediaRef → PutIo → Fetched
  download k media_id ref io =
      let (k', path) = put sha256 removable k media_id jpeg io in
      (
        k',
        if io.opens then some ref else none,
        elim path [ none ↦ no_file | some p ↦ file_is (p, jpeg) ],
      )

  -- The part of `FetchMedia` behind a miss of the cache.
  unfoldable pub fetch_ref : Cache → Str → FetchIo → Outcome MediaRef → Fetched
  fetch_ref k media_id io (err e) = (k, none, no_file)
  fetch_ref k media_id io panic = (k, none, panics)
  fetch_ref k media_id io (ok ref) =
      if io.ready
      then (if ref.kind == media_kind_photo
          then download k media_id ref io.put_io
          else (k, none, no_file))
      else (k, none, no_file)

  unfoldable pub fetch_media : Cache → Str → FetchIo → Fetched
  fetch_media k media_id io =
      let (k', hit) = get sha256 removable k media_id in
      elim hit [
        | some found ↦ (k', none, file_is found)
        | none ↦ fetch_ref k' media_id io (decode_media_id c media_key media_id)
      ]

  -- `handleGetMedia`: the file that is served with its content type, or the status of an error;
  -- `none` is a panic.
  unfoldable pub handle_get_media : Cache → Str → FetchIo → Cache × Option (ℕ ⊎ (FilePath × Str))
  handle_get_media k media_id io =
      let (k', asked, found) = fetch_media k media_id io in
      if is_empty media_id then (k, some (inl 400)) else (
        k',
        elim found [
          | panics ↦ none
          | no_file ↦ some (inl 400)
          | file_is served ↦ some (inr served)
        ],
      )
