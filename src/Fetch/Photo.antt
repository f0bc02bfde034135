-- ===== src/Fetch/Photo.antt =====
-- The id that `summarizeMedia` of internal/bridge/media.go puts into a message leads `FetchMedia` to
-- the photo of that message.
use tg_bridge.Prelude.{
  ◌≡◌, ◌<◌, ◌^◌, inl, inr, refl, sym, ap, ◌∙◌, subst, Bool, true, none, some, Str, length, arith,
}
use tg_bridge.MediaId.{MediaRef, MediaCrypto, ok, decode_media_id, media_kind_photo}
use tg_bridge.Prelude.Int.{IsInt64}
use tg_bridge.MediaCache.{Cache, get}
use tg_bridge.Media.{Photo, media_photo, pick_smallest_photo_size, photo_ref, summarize_media}
use tg_bridge.Media.Summary.{decode-summarize_media}
use tg_bridge.Fetch.{FetchIo, Fetched, download, fetch_ref, fetch_media}
use tg_bridge.Fetch.Again.{fetch_miss}

module _ (sha256 : Str → Str) (removable : Str → Bool) (c : MediaCrypto) (media_key : Str) where
  fetch_ref_photo :
      (k : Cache) (media_id : Str) (io : FetchIo) (ref : MediaRef)
      → io.ready ≡ true
      → io.put_io.opens ≡ true
      → ref.kind ≡ media_kind_photo
      → (fetch_ref sha256 removable c media_key k media_id io (ok ref)).1 ≡ some ref
  unfolding fetch_ref download
  fetch_ref_photo k media_id io ref ready opens photo = ground (arith, ready, opens, photo)

  -- The id in the summary of a photo of which a size can be downloaded leads to that photo: when
  -- the file is not in the cache, the bridge is ready and the file to write can be opened, a fetch
  -- of the id asks Telegram for the photo's id, access hash and file reference, in the size that was
  -- picked. The ids are int64, the file reference has fewer than 65536 bytes and the type of the
  -- size fewer than 256.
  pub fetch_media-summarize_media :
      (k : Cache) (io : FetchIo) (p : Photo)
      → IsInt64 p.id
      → IsInt64 p.access_hash
      → length p.file_reference < 2 ^ 16
      → length (pick_smallest_photo_size p.sizes).size_type < 256
      → (pick_smallest_photo_size p.sizes).ok ≡ true
      → let media_id = (summarize_media c media_key (media_photo (some p))).media_id in
        (get sha256 removable k media_id).1 ≡ none
        → io.ready ≡ true
        → io.put_io.opens ≡ true
        → (fetch_media sha256 removable c media_key k media_id io).1
          ≡ some (photo_ref p (pick_smallest_photo_size p.sizes).size_type)
  fetch_media-summarize_media k io p i h f t picked miss ready opens =
      let media_id = (summarize_media c media_key (media_photo (some p))).media_id in
      let ref = photo_ref p (pick_smallest_photo_size p.sizes).size_type in
      elim (decode-summarize_media c media_key p i h f t) [
        | inl (none_picked, _) ↦ absurd (cc)
        | inr (_, decoded) ↦
            let asked : (fetch_ref sha256 removable c media_key k media_id io
                  (decode_media_id c media_key media_id)).1
                ≡ some ref =
              subst (λ o. (fetch_ref sha256 removable c media_key k media_id io o).1 ≡ some ref)
                (sym decoded) (fetch_ref_photo k media_id io ref ready opens refl) in
            ap (λ (r : Fetched). r.1) (fetch_miss sha256 removable c media_key k media_id io miss)
            ∙ asked
      ]
