-- ===== src/MediaCache/Serial.antt =====
-- Overlapping calls of the cache of internal/bridge/mediacache.go keep its books as calls one after
-- the other do.
use tg_bridge.Prelude.{ℕ, ◌≡◌, sym, ap, ◌∙◌, subst, Bool, true, some, List, Str}
use tg_bridge.Prelude.Int.{ℤ, pos}
use tg_bridge.Prelude.Map
use tg_bridge.MediaCache.{Cache, DirEntry, new_media_cache}
use tg_bridge.MediaCache.Valid.{IsValid}
use tg_bridge.MediaCache.History.{Call, run, IsLimited, run-new_media_cache}
use tg_bridge.MediaCache.Lru.{IsDistinct, find_key, sum_sizes}
use tg_bridge.MediaCache.Load.{NoTwins, IsListing}
use tg_bridge.MediaCache.Books.{
  SameBooks, IsSerial, IsSerial-start, IsSerial-get, IsSerial-lock_and_install,
}
use tg_bridge.MediaCache.Overlap
use tg_bridge.MediaCache.Overlap.{Job, World, Step, Reach, renamed, lock_and_install}

-- The books of the cache: the list has one element for each key, the map finds just the elements of
-- the list, the total counts their sizes, and it is within the limit or at most one file is held.
pub record IsBooked (c : Cache) : Type 0 where
  pub distinct : IsDistinct c.lru
  pub indexed : (k : Str) → Map.get k c.entries ≡ find_key k c.lru
  pub counted : c.total ≡ pos (sum_sizes c.lru)
  pub limited : IsLimited c

booked : (c : Cache) → IsValid c → IsLimited c → IsBooked c
booked c v lim = record {
  distinct = v.distinct;
  indexed = v.indexed;
  counted = v.counted;
  limited = lim;
}

cache_of : (c d : Cache) → some c ≡ some d → c ≡ d
cache_of c d e = cc

module _ (sha256 : Str → Str) (removable : Str → Bool) where
  -- The books of overlapping calls are those of calls one after the other.
  Reach-SameBooks :
      {c : Cache} {w : World}
      → Reach sha256 removable c w
      → (ks : List Call) × SameBooks w.cache (run sha256 removable c ks)
  Reach-SameBooks {c} Overlap.start = IsSerial-start sha256 removable c
  Reach-SameBooks (Overlap.later r (Overlap.begins media_id mime)) = Reach-SameBooks r
  Reach-SameBooks (Overlap.later r (Overlap.changes files)) = Reach-SameBooks r
  Reach-SameBooks (Overlap.later r (Overlap.renames before after media_id mime n e)) =
      Reach-SameBooks r
  Reach-SameBooks (Overlap.later r (Overlap.fails before after media_id mime e)) = Reach-SameBooks r
  Reach-SameBooks {c} {w} (Overlap.later {w = v} r (Overlap.installs before after j n p e)) =
      IsSerial-lock_and_install sha256 removable c v.cache j n (Reach-SameBooks r)
  Reach-SameBooks {c} (Overlap.later {w = v} r (Overlap.gets media_id)) =
      IsSerial-get sha256 removable c v.cache media_id (Reach-SameBooks r)

  -- The books that some calls after start-up leave are in order.
  pub IsSerial-IsBooked :
      (dir : Str) (max_bytes : ℤ) (ds : List DirEntry) (files : List (Str × ℕ)) (c k : Cache)
      → NoTwins ds
      → IsListing files ds
      → new_media_cache sha256 removable dir max_bytes true (some ds) files ≡ some c
      → IsSerial sha256 removable c k
      → IsBooked k
  IsSerial-IsBooked dir max_bytes ds files c k tw listing made (ks, same) =
      let (c', made', v, lim) =
        run-new_media_cache sha256 removable dir max_bytes ds files ks tw listing in
      let start = cache_of c' c (sym made' ∙ made) in
      let at_end : run sha256 removable c' ks ≡ record k { files = same.0 } =
        ap (λ d. run sha256 removable d ks) start ∙ same.1 in
      let b = subst IsBooked at_end (booked _ v lim) in
      record {
        distinct = b.distinct;
        indexed = b.indexed;
        counted = b.counted;
        limited = b.limited;
      }

  -- However calls of `Get` and `Put` overlap after start-up, and whatever happens to the files: some
  -- calls, one after the other, leave the same list, map and total. So the list has one element for
  -- each key, the map finds just those, the total counts their sizes, and it is within the limit or
  -- at most one file is held.
  pub Reach-IsBooked :
      (dir : Str) (max_bytes : ℤ) (ds : List DirEntry) (files : List (Str × ℕ)) (c : Cache)
      (w : World)
      → NoTwins ds
      → IsListing files ds
      → new_media_cache sha256 removable dir max_bytes true (some ds) files ≡ some c
      → Reach sha256 removable c w
      → ((ks : List Call) × SameBooks w.cache (run sha256 removable c ks)) × IsBooked w.cache
  Reach-IsBooked dir max_bytes ds files c w tw listing made r =
      let s = Reach-SameBooks r in
      (s, IsSerial-IsBooked dir max_bytes ds files c w.cache tw listing made s)
