-- ===== src/Fetch/Booked.antt =====
-- A request for media, `handleGetMedia` of internal/httpapi/chats.go over `FetchMedia` of
-- internal/bridge/media.go, keeps the books of the cache as calls of the cache do.
use tg_bridge.Prelude.{inl, inr, Bool, Str, Option-cases, Bool-cases, ◌==◌, is_empty}
use tg_bridge.MediaId.{
  MediaRef, MediaCrypto, Outcome, ok, err, panic, media_kind_photo, decode_media_id,
}
use tg_bridge.MediaCache.{Cache, get}
use tg_bridge.MediaCache.Books.{IsSerial, IsSerial-get, IsSerial-put}
use tg_bridge.Fetch.{FetchIo, jpeg, download, fetch_ref, fetch_media, handle_get_media}
use tg_bridge.Fetch.Again.{fetch_hit, fetch_miss}

module _ (sha256 : Str → Str) (removable : Str → Bool) (c : MediaCrypto) (media_key : Str)
    (k₀ : Cache) where
  fetch_ref-IsSerial :
      (k : Cache) (media_id : Str) (io : FetchIo) (o : Outcome MediaRef)
      → IsSerial sha256 removable k₀ k
      → IsSerial sha256 removable k₀ (fetch_ref sha256 removable c media_key k media_id io o).0
  unfolding fetch_ref download
  fetch_ref-IsSerial k media_id io (err x) v = v
  fetch_ref-IsSerial k media_id io panic v = v
  fetch_ref-IsSerial k media_id io (ok ref) v = elim (Bool-cases io.ready) [
    | inr e ↦ rw e v
    | inl e ↦ elim (Bool-cases (ref.kind == media_kind_photo)) [
      | inr p ↦ rw (e, p) v
      | inl p ↦ rw (e, p) (IsSerial-put sha256 removable k₀ k media_id jpeg io.put_io v)
    ]
  ]

  fetch_media-IsSerial :
      (k : Cache) (media_id : Str) (io : FetchIo)
      → IsSerial sha256 removable k₀ k
      → IsSerial sha256 removable k₀ (fetch_media sha256 removable c media_key k media_id io).0
  fetch_media-IsSerial k media_id io v = elim (Option-cases (get sha256 removable k media_id).1) [
    | inr (found, h) ↦
        rw (fetch_hit sha256 removable c media_key k media_id io found h)
          (IsSerial-get sha256 removable k₀ k media_id v)
    | inl m ↦
        rw (fetch_miss sha256 removable c media_key k media_id io m)
          (fetch_ref-IsSerial k media_id io (decode_media_id c media_key media_id) v)
  ]

  pub handle_get_media-IsSerial :
      (k : Cache) (media_id : Str) (io : FetchIo)
      → IsSerial sha256 removable k₀ k
      → IsSerial sha256 removable k₀ (handle_get_media sha256 removable c media_key k media_id io).0
  unfolding handle_get_media
  handle_get_media-IsSerial k media_id io v = elim (Bool-cases (is_empty media_id)) [
    | inl e ↦ rw e v
    | inr e ↦ rw e (fetch_media-IsSerial k media_id io v)
  ]
