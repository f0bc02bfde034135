-- ===== src/Media/Summary.antt =====
-- The ids in the summaries of internal/bridge/media.go name their media.
use tg_bridge.Prelude.{
  ◌^◌, ◌≡◌, ◌<◌, ◌⊎◌, inl, inr, refl, true, false, some, [], Str, length, arith, Bool-cases,
}
use tg_bridge.Prelude.Int.{IsInt64}
use tg_bridge.MediaId.{MediaCrypto, ok, decode_media_id}
use tg_bridge.MediaId.Signed.{decode-encode_lem}
use tg_bridge.Media.{
  Photo, media_photo, pick_smallest_photo_size, photo_ref, summarize_photo, summarize_media,
}

module _ (c : MediaCrypto) (media_key : Str) where
  -- The summary of a photo of which a size can be downloaded has an id. The bridge accepts that id,
  -- and it gives back the photo's id, access hash and file reference with the type of the picked
  -- size. The summary of a photo without such a size has no id. The ids are int64, the file
  -- reference has fewer than 65536 bytes and the type fewer than 256.
  pub decode-summarize_media :
      (p : Photo)
      → IsInt64 p.id
      → IsInt64 p.access_hash
      → length p.file_reference < 2 ^ 16
      → length (pick_smallest_photo_size p.sizes).size_type < 256
      → (((pick_smallest_photo_size p.sizes).ok ≡ false)
          × ((summarize_media c media_key (media_photo (some p))).media_id ≡ []))
        ⊎ (((pick_smallest_photo_size p.sizes).ok ≡ true)
            × (decode_media_id c media_key
                  (summarize_media c media_key (media_photo (some p))).media_id
                ≡ ok (photo_ref p (pick_smallest_photo_size p.sizes).size_type)))
  unfolding summarize_media summarize_photo
  decode-summarize_media p i h f t = elim (Bool-cases (pick_smallest_photo_size p.sizes).ok) [
    | inr e ↦ inl (e, rw (summarize_media, summarize_photo, e) refl)
    | inl e ↦ inr (
      e,
      rw (summarize_media, summarize_photo, e)
          (decode-encode_lem c media_key (photo_ref p (pick_smallest_photo_size p.sizes).size_type)
            (omega arith) i h f t),
    )
  ]
