-- ===== src/MediaCache/History.antt =====
-- The cache of internal/bridge/mediacache.go over any sequence of calls.
use tg_bridge.Prelude.{
  ℕ, ◌≡◌, ◌≤◌, sym, Bool, true, some, List, [], ◌∷◌, Str, arith, inl, inr, subst, Option-cases,
  length, ◌⊎◌,
}
use tg_bridge.Prelude.Int.{ℤ, ◌≤ℤ◌}
use tg_bridge.MediaCache.{Cache, PutIo, DirEntry, cache_key, write_file, put, get, new_media_cache}
use tg_bridge.MediaCache.Lru.{find_key, length-move_to_front}
use tg_bridge.MediaCache.Valid.{IsValid}
use tg_bridge.MediaCache.Put.{put-IsValid, put_failed, file_name}
use tg_bridge.MediaCache.Order.{put-IsPut, get_hit, get_miss}
use tg_bridge.MediaCache.Read.{get-IsValid}
use tg_bridge.MediaCache.Load.{NoTwins, IsListing, new_media_cache-IsValid}

pub data Call : Type 0 where
  gets : Str → Call
  puts : Str → Str → PutIo → Call

-- The bytes that are counted are within the limit, or at most one file is.
abbrev pub IsLimited : Cache → Type 0
IsLimited c = (c.total ≤ℤ c.max_bytes) ⊎ (length c.lru ≤ 1)

module _ (sha256 : Str → Str) (removable : Str → Bool) where
  unfoldable pub step : Cache → Call → Cache
  step c (gets media_id) = (get sha256 removable c media_id).0
  step c (puts media_id mime io) = (put sha256 removable c media_id mime io).0

  unfoldable pub run : Cache → List Call → Cache
  run c [] = c
  run c (k ∷ ks) = run (step c k) ks

  put_limit :
      (c : Cache) (media_id mime : Str) (io : PutIo)
      → IsValid c
      → IsLimited c
      → IsLimited (put sha256 removable c media_id mime io).0
  put_limit c media_id mime io v lim =
      elim (Option-cases
        (write_file sha256 removable (file_name sha256 removable media_id mime) io c.files).1) [
          | inl e ↦ rw (put_failed sha256 removable c media_id mime io e) lim
          | inr (n, e) ↦
              let r = put-IsPut sha256 removable c media_id mime io n v e in
              elim r.enough [
                | inl h ↦ inl (
                    subst (λ x. (put sha256 removable c media_id mime io).0.total ≤ℤ x)
                      (sym r.same_limit) h)
                | inr h ↦ inr (omega arith)
              ]
        ]

  get_limit :
      (c : Cache) (media_id : Str)
      → IsValid c
      → IsLimited c
      → IsLimited (get sha256 removable c media_id).0
  get_limit c media_id v lim =
      elim (Option-cases (find_key (cache_key sha256 removable media_id) c.lru)) [
        | inl e ↦ rw (get_miss sha256 removable c media_id v e) lim
        | inr (el, e) ↦ rw (get_hit sha256 removable c media_id el v e) (elim lim [
          | inl h ↦ inl h
          | inr h ↦ inr (omega (arith, length-move_to_front el c.lru))
        ])
      ]

  step-IsValid :
      (c : Cache) (k : Call) → IsValid c → IsLimited c → IsValid (step c k) × IsLimited (step c k)
  unfolding step
  step-IsValid c (gets media_id) v lim =
      (get-IsValid sha256 removable c media_id v, get_limit c media_id v lim)
  step-IsValid c (puts media_id mime io) v lim =
      (put-IsValid sha256 removable c media_id mime io v, put_limit c media_id mime io v lim)

  run-IsValid :
      (c : Cache) (ks : List Call)
      → IsValid c
      → IsLimited c
      → IsValid (run c ks) × IsLimited (run c ks)
  unfolding run
  run-IsValid c [] v lim = (v, lim)
  run-IsValid c (k ∷ ks) v lim =
      let (v', lim') = step-IsValid c k v lim in run-IsValid (step c k) ks v' lim'

  -- After start-up on a directory without twins and any calls of `Get` and `Put`, the file
  -- system answering as it may: the map, the list, the total and the files agree, and the total is
  -- within the limit or at most one file is held.
  pub run-new_media_cache :
      (dir : Str) (max_bytes : ℤ) (ds : List DirEntry) (files : List (Str × ℕ)) (ks : List Call)
      → NoTwins ds
      → IsListing files ds
      → (c : Cache) × (new_media_cache sha256 removable dir max_bytes true (some ds) files ≡ some c)
        × IsValid (run c ks)
        × IsLimited (run c ks)
  run-new_media_cache dir max_bytes ds files ks tw listing =
      let (c, made, v, lim, same, _) =
        new_media_cache-IsValid sha256 removable dir max_bytes ds files tw listing in
      let limited : IsLimited c = elim lim [
        | inl h ↦ inl (subst (λ m. c.total ≤ℤ m) (sym same) h)
        | inr h ↦ inr (omega arith)
      ] in
      let (v', lim') = run-IsValid c ks v limited in (c, made, v', lim')
