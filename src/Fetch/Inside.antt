-- ===== src/Fetch/Inside.antt =====
-- `handleGetMedia` of internal/httpapi/chats.go serves no file from outside of the cache's directory.
use tg_bridge.Prelude.{
  ℕ, ◌≡◌, inl, inr, sym, ap, ◌∙◌, Bool, some, Option, List, Str, arith, Option-cases, Bool-cases,
  All, is_empty,
}
use tg_bridge.Prelude.Int.{ℤ}
use tg_bridge.MediaId.{MediaCrypto}
use tg_bridge.MediaCache.{FilePath, Cache, DirEntry, get, new_media_cache}
use tg_bridge.MediaCache.History.{Call, run}
use tg_bridge.MediaCache.Plain.{IsPlain, IsPlainIn, get_plain}
use tg_bridge.MediaCache.Inside.{put_plain, new_media_cache-IsPlainIn, run-IsPlainIn}
use tg_bridge.Fetch.{file_is, FetchIo, Fetched, jpeg, fetch_media, handle_get_media}
use tg_bridge.Fetch.Again.{Got-cases, fetch_hit, fetch_miss, fetch_ref-some}

module _ (sha256 : Str → Str) (removable : Str → Bool) (c : MediaCrypto) (media_key : Str) where
  fetch_media_plain :
      (dir : Str) (k : Cache) (media_id : Str) (io : FetchIo) (path : FilePath) (mime : Str)
      → IsPlainIn dir k
      → (fetch_media sha256 removable c media_key k media_id io).2 ≡ file_is (path, mime)
      → (path.dir ≡ dir) × IsPlain path.name
  fetch_media_plain dir k media_id io path mime p h =
      elim (Option-cases (get sha256 removable k media_id).1) [
        | inr (found, g) ↦
            let same : found ≡ (path, mime) =
              ground (arith, fetch_hit sha256 removable c media_key k media_id io found g, h) in
            get_plain sha256 removable dir k media_id path mime p (g ∙ ap some same)
        | inl g ↦
            let miss = fetch_miss sha256 removable c media_key k media_id io g in
            let (is_jpeg, stored, cache) =
              fetch_ref-some sha256 removable c media_key k media_id io _ path mime
                (ap (λ (r : Fetched). r.2) (sym miss) ∙ h) in
            put_plain sha256 removable dir k media_id jpeg io.put_io path p stored
      ]

  -- Whatever calls the cache has met since start-up and whatever is asked for, the path that is
  -- served is a file of the cache's directory itself: the name has no slash and is not "..". The
  -- names that the system lists at start-up are assumed to be so.
  pub handle_get_media-IsPlain :
      (dir : Str) (max_bytes : ℤ) (made : Bool) (listing : Option (List DirEntry))
      (files : List (Str × ℕ)) (k : Cache) (ks : List Call) (media_id : Str) (io : FetchIo)
      (path : FilePath) (mime : Str)
      → ((ds : List DirEntry) → listing ≡ some ds → All (λ d. IsPlain d.name) ds)
      → new_media_cache sha256 removable dir max_bytes made listing files ≡ some k
      → (handle_get_media sha256 removable c media_key (run sha256 removable k ks) media_id io).1
        ≡ some (inr (path, mime))
      → (path.dir ≡ dir) × IsPlain path.name
  unfolding handle_get_media
  handle_get_media-IsPlain dir max_bytes made listing files k ks media_id io path mime plain start
        h =
      let k' = run sha256 removable k ks in
      let inside = run-IsPlainIn sha256 removable dir k ks (
        new_media_cache-IsPlainIn sha256 removable dir max_bytes made listing files k plain
          start) in
      elim (Bool-cases (is_empty media_id)) [
        | inl e ↦ absurd (ground (arith, e, h))
        | inr e ↦ elim (Got-cases (fetch_media sha256 removable c media_key k' media_id io).2) [
          | inl (inr n) ↦ absurd (ground (arith, e, n, h))
          | inr n ↦ absurd (ground (arith, e, n, h))
          | inl (inl (served, n)) ↦
              let same : served ≡ (path, mime) = ground (arith, e, n, h) in
              fetch_media_plain dir k' media_id io path mime inside (n ∙ ap file_is same)
        ]
      ]
