-- ===== src/Fetch/Again.antt =====
-- `FetchMedia` of internal/bridge/media.go downloads only what the bridge has signed, and only once.
use tg_bridge.Prelude.{
  ℕ, ◌≡◌, inl, inr, refl, sym, ap, ◌∙◌, Bool, true, none, some, Str, arith, Option-cases,
  Bool-cases, is_empty, ◌≢◌, ◌⊎◌,
}
use tg_bridge.Prelude.Map
use tg_bridge.MediaId.{
  MediaRef, MediaCrypto, Outcome, ok, err, panic, media_kind_photo, decode_media_id,
  unmarshal_media_ref,
}
use tg_bridge.MediaId.Signed.{IsSigned, decode-IsSigned_iff, decode-ne-panic}
use tg_bridge.MediaCache.Valid.{IsValid}
use tg_bridge.MediaCache.{FilePath, Cache, get, put, cache_key}
use tg_bridge.MediaCache.Order.{get-put}
use tg_bridge.MediaCache.Read.{get-present, get-IsValid}
use tg_bridge.MediaCache.Put.{put-IsValid}
use tg_bridge.Fetch.{
  Got, file_is, no_file, panics, FetchIo, Fetched, jpeg, download, fetch_ref, fetch_media,
  handle_get_media,
}

pub Got-cases :
    (g : Got) → (((file : FilePath × Str) × (g ≡ file_is file)) ⊎ (g ≡ no_file)) ⊎ (g ≡ panics)
Got-cases (file_is file) = inl (inl (file, refl))
Got-cases no_file = inl (inr refl)
Got-cases panics = inr refl

module _ (sha256 : Str → Str) (removable : Str → Bool) (c : MediaCrypto) (media_key : Str) where
  pub fetch_hit :
      (k : Cache) (media_id : Str) (io : FetchIo) (found : FilePath × Str)
      → (get sha256 removable k media_id).1 ≡ some found
      → fetch_media sha256 removable c media_key k media_id io
        ≡ ((get sha256 removable k media_id).0, none, file_is found)
  unfolding fetch_media
  fetch_hit k media_id io found e = rw (fetch_media, e) refl

  get-none :
      (k : Cache) (media_id : Str)
      → (get sha256 removable k media_id).1 ≡ none
      → (get sha256 removable k media_id).0 ≡ k
  unfolding get
  get-none k media_id e =
      elim (Option-cases (Map.get (cache_key sha256 removable media_id) k.entries)) [
        | inl m ↦ rw (get, m) refl
        | inr (el, m) ↦ ground (arith, m, e)
      ]

  pub fetch_miss :
      (k : Cache) (media_id : Str) (io : FetchIo)
      → (get sha256 removable k media_id).1 ≡ none
      → fetch_media sha256 removable c media_key k media_id io
        ≡ fetch_ref sha256 removable c media_key k media_id io
            (decode_media_id c media_key media_id)
  unfolding fetch_media
  fetch_miss k media_id io e = rw (fetch_media, e, get-none k media_id e) refl

  -- `Get` again answers as before, and leaves the files.
  get_again :
      (k : Cache) (media_id : Str) (found : FilePath × Str)
      → (get sha256 removable k media_id).1 ≡ some found
      → ((get sha256 removable (get sha256 removable k media_id).0 media_id).1 ≡ some found)
        × ((get sha256 removable k media_id).0.files ≡ k.files)
  unfolding get
  get_again k media_id found e =
      elim (Option-cases (Map.get (cache_key sha256 removable media_id) k.entries)) [
        | inl m ↦ let miss : (get sha256 removable k media_id).1 ≡ none = rw (get, m) refl in cc
        | inr (el, m) ↦ ground (arith, m, e)
      ]

  -- A fetch that succeeds behind a miss has stored a download.
  pub fetch_ref-some :
      (k : Cache) (media_id : Str) (io : FetchIo) (o : Outcome MediaRef) (p : FilePath) (mime : Str)
      → (fetch_ref sha256 removable c media_key k media_id io o).2 ≡ file_is (p, mime)
      → (mime ≡ jpeg)
        × ((put sha256 removable k media_id jpeg io.put_io).1 ≡ some p)
        × ((fetch_ref sha256 removable c media_key k media_id io o).0
            ≡ (put sha256 removable k media_id jpeg io.put_io).0)
  unfolding fetch_ref download
  fetch_ref-some k media_id io (err x) p mime e = cc
  fetch_ref-some k media_id io panic p mime e = cc
  fetch_ref-some k media_id io (ok ref) p mime e = ground arith

  fetch_ref_asked :
      (k : Cache) (media_id : Str) (io : FetchIo) (o : Outcome MediaRef) (ref : MediaRef)
      → (fetch_ref sha256 removable c media_key k media_id io o).1 ≡ some ref
      → (io.ready ≡ true) × (ref.kind ≡ media_kind_photo) × (o ≡ ok ref)
  unfolding fetch_ref download
  fetch_ref_asked k media_id io (err x) ref e = cc
  fetch_ref_asked k media_id io panic ref e = cc
  fetch_ref_asked k media_id io (ok r) ref e = ground arith

  -- Only what the bridge has signed is asked of Telegram: a fetch downloads a reference only when
  -- the id is not in the cache, the bridge is ready, and the id is a base64 of a payload that reads
  -- as the reference of a photo with the payload's tag under the bridge's key.
  pub fetch_media-IsSigned :
      (k : Cache) (media_id : Str) (io : FetchIo) (ref : MediaRef)
      → (fetch_media sha256 removable c media_key k media_id io).1 ≡ some ref
      → ((get sha256 removable k media_id).1 ≡ none)
        × (io.ready ≡ true)
        × (ref.kind ≡ media_kind_photo)
        × ((payload : Str) × IsSigned c media_key media_id payload
            × (unmarshal_media_ref payload ≡ ok ref))
  fetch_media-IsSigned k media_id io ref e =
      elim (Option-cases (get sha256 removable k media_id).1) [
        | inr (found, h) ↦
            let none_asked = ap (λ (r : Fetched). r.1) (fetch_hit k media_id io found h) in cc
        | inl m ↦
            let (ready, photo, decoded) =
              fetch_ref_asked k media_id io (decode_media_id c media_key media_id) ref
                (ap (λ (r : Fetched). r.1) (sym (fetch_miss k media_id io m)) ∙ e) in
            (m, ready, photo, (decode-IsSigned_iff c media_key media_id ref).0 decoded)
      ]

  fetch_ref-ne-panics :
      (k : Cache) (media_id : Str) (io : FetchIo) (o : Outcome MediaRef)
      → o ≢ panic
      → (fetch_ref sha256 removable c media_key k media_id io o).2 ≢ panics
  unfolding fetch_ref download
  fetch_ref-ne-panics k media_id io (err x) ne = λ e. cc
  fetch_ref-ne-panics k media_id io panic ne = λ e. ne refl
  fetch_ref-ne-panics k media_id io (ok ref) ne = λ e. ground arith

  fetch_media-ne-panics :
      (k : Cache) (media_id : Str) (io : FetchIo)
      → (fetch_media sha256 removable c media_key k media_id io).2 ≢ panics
  fetch_media-ne-panics k media_id io e = elim (Option-cases (get sha256 removable k media_id).1) [
    | inr (found, h) ↦ let hit = ap (λ (r : Fetched). r.2) (fetch_hit k media_id io found h) in cc
    | inl m ↦
        fetch_ref-ne-panics k media_id io (decode_media_id c media_key media_id)
          (decode-ne-panic c media_key media_id)
          (ap (λ (r : Fetched). r.2) (sym (fetch_miss k media_id io m)) ∙ e)
  ]

  -- The handler of a media id does not panic, whatever the id is.
  pub handle_get_media-some :
      (k : Cache) (media_id : Str) (io : FetchIo)
      → (served : ℕ ⊎ (FilePath × Str)) × ((handle_get_media sha256 removable c media_key k media_id
            io).1
          ≡ some served)
  unfolding handle_get_media
  handle_get_media-some k media_id io = elim (Bool-cases (is_empty media_id)) [
    | inl e ↦ (inl 400, rw (handle_get_media, e) refl)
    | inr e ↦ elim (Got-cases (fetch_media sha256 removable c media_key k media_id io).2) [
      | inl (inl (file, f)) ↦ (inr file, rw (handle_get_media, e, f) refl)
      | inl (inr f) ↦ (inl 400, rw (handle_get_media, e, f) refl)
      | inr f ↦ absurd (fetch_media-ne-panics k media_id io f)
    ]
  ]

  -- A fetch from a valid cache that succeeds leaves the cache valid; a second one then answers with
  -- the same path and mime type and downloads nothing, whatever the bridge and the file system do
  -- then, and the file is there.
  pub fetch_media-fetch_media :
      (k : Cache) (media_id : Str) (io later : FetchIo) (p : FilePath) (mime : Str)
      → IsValid k
      → (fetch_media sha256 removable c media_key k media_id io).2 ≡ file_is (p, mime)
      → let k' = (fetch_media sha256 removable c media_key k media_id io).0 in
        IsValid k'
        × ((fetch_media sha256 removable c media_key k' media_id later).1 ≡ none)
        × ((fetch_media sha256 removable c media_key k' media_id later).2 ≡ file_is (p, mime))
        × ((n : ℕ) × (Map.get p.name k'.files ≡ some n))
  fetch_media-fetch_media k media_id io later p mime v e =
      elim (Option-cases (get sha256 removable k media_id).1) [
        | inr (found, h) ↦
            let hit = fetch_hit k media_id io found h in
            let (again, files) = get_again k media_id found h in
            let same : found ≡ (p, mime) = ground (arith, hit, e) in
            let next = fetch_hit (get sha256 removable k media_id).0 media_id later found again in
            let (el, _, _, _, there, _) =
              get-present sha256 removable k media_id v p mime (h ∙ ap some same) in
            rw (hit) (
              get-IsValid sha256 removable k media_id v,
              ap (λ (r : Fetched). r.1) next,
              ap (λ (r : Fetched). r.2) next ∙ ap file_is same,
              (el.value.size, rw (files) there),
            )
        | inl m ↦
            let o = decode_media_id c media_key media_id in
            let miss = fetch_miss k media_id io m in
            let (is_jpeg, stored, cache) =
              fetch_ref-some k media_id io o p mime (ap (λ (r : Fetched). r.2) (sym miss) ∙ e) in
            let (found, (n, _, there)) =
              get-put sha256 removable k media_id jpeg io.put_io p v stored in
            let k' = (put sha256 removable k media_id jpeg io.put_io).0 in
            let next = fetch_hit k' media_id later (p, jpeg) found in
            rw (miss, cache)
              (
                put-IsValid sha256 removable k media_id jpeg io.put_io v,
                ap (λ (r : Fetched). r.1) next,
                ap (λ (r : Fetched). r.2) next ∙ ap (λ x. file_is (p, x)) (sym is_jpeg),
                (n, there),
              )
      ]
