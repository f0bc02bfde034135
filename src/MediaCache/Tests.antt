-- ===== src/MediaCache/Tests.antt =====
-- The media cache at concrete directories and calls.
use tg_bridge.Prelude.{
  ℕ, ◌≡◌, ◌≢◌, refl, Bool, true, false, none, some, List, [], ◌∷◌, ◌++◌, Str, codes, str_eq, arith,
  ◌⊎◌, length, str_eq_iff, sym, ◌∙◌, subst,
}
use tg_bridge.Prelude.Int.{pos, ◌+ℤ◌, ◌-ℤ◌, ◌≤ℤ◌}
use tg_bridge.Prelude.Map
use tg_bridge.MediaCache.{
  Cache, PutIo, DirEntry, cache_key, remove_file, evict_locked, evict_all, evict_but_one, get,
  write_file, forget, push_entry, install, put, load_entry, load_entries, new_media_cache,
}
use tg_bridge.MediaCache.Names.{
  hex_digit, hex, split_ext, ext_of, stem_of, has_suffix, tmp_suffix, to_lower, mime_from_ext,
  ext_from_mime,
}
use tg_bridge.MediaCache.Lru.{remove_element, contains_element, move_to_front, find_key}
use tg_bridge.MediaCache.Valid.{IsValid}
use tg_bridge.MediaCache.Put.{put-failure, file_name}
use tg_bridge.MediaCache.Order.{IsPut, put-IsPut, get-put}
use tg_bridge.MediaCache.Load.{NoTwins, IsListing, new_media_cache-IsValid}
use tg_bridge.MediaCache.Overlap.{
  at_file, renamed, lock_and_install, begins, renames, installs, Reach, later,
}
use tg_bridge.MediaCache.Books.{SameBooks}
use tg_bridge.MediaCache.Serial.{IsBooked, Reach-IsBooked}
use tg_bridge.MediaCache.History.{Call, gets, puts, step, run, IsLimited, run-new_media_cache}

program : Unit {0}
unfolding cache_key remove_file evict_locked evict_all evict_but_one get write_file forget
    push_entry install put load_entry load_entries new_media_cache hex_digit hex split_ext ext_of
    stem_of has_suffix to_lower mime_from_ext ext_from_mime remove_element contains_element
    move_to_front find_key step run str_eq Map.get Map.set Map.delete ◌+ℤ◌ ◌-ℤ◌
program = tt

-- A stand-in for SHA-256: the text itself. Every file can be removed.
abbrev sha : Str → Str
sha s = s

abbrev all_removable : Str → Bool
all_removable name = true

abbrev writes : ℕ → PutIo
writes n = record { opens = true; written = some n; closes = true; stats = true; renames = true }

abbrev breaks : PutIo
breaks = record { opens = true; written = none; closes = true; stats = true; renames = true }

abbrev jpeg : Str
jpeg = codes "image/jpeg"

abbrev dir : Str
dir = codes "media"

abbrev old_file : Str
old_file = codes "old.JPG"

abbrev half_file : Str
half_file = codes "half.jpg.tmp"

abbrev listing : List DirEntry
listing =
    record { name = half_file; is_dir = false; info = some 9 }
    ∷ record { name = old_file; is_dir = false; info = some 60 }
    ∷ []

abbrev disk : List (Str × ℕ)
disk = (half_file, 9) ∷ (old_file, 60) ∷ []

-- The cache of 100 bytes that the directory is read into.
abbrev start : Cache
start = record {
  dir = dir;
  max_bytes = pos 100;
  entries =
      (
        codes "old",
        record {
          at = 0;
          value = record { key = codes "old"; filename = old_file; size = 60; mime = jpeg };
        },
      )
      ∷ [];
  lru =
      record {
        at = 0;
        value = record { key = codes "old"; filename = old_file; size = 60; mime = jpeg };
      }
      ∷ [];
  total = pos 60;
  next = 1;
  files = (old_file, 60) ∷ [];
}

start_made : new_media_cache sha all_removable dir (pos 100) true (some listing) disk ≡ some start
unfolding program
start_made = refl

abbrev photo_id : Str
photo_id = codes "A"

-- "A" is 0x41, and 60 + 50 bytes are too many: the old file goes.
photo_put :
    ((put sha all_removable start photo_id jpeg (writes 50)).0.files ≡ (codes "41.jpg", 50) ∷ [])
    × ((put sha all_removable start photo_id jpeg (writes 50)).0.total ≡ pos 50)
unfolding program
photo_put = (refl, refl)

-- A file larger than the limit stays alone in the cache.
huge_put : (put sha all_removable start photo_id jpeg (writes 500)).0.total ≡ pos 500
unfolding program
huge_put = refl

-- A file that is replaced under another extension stays in the directory.
replaced_stays :
    Map.get
      (codes "41.jpg")
      (put sha all_removable
        (put sha all_removable start photo_id jpeg (writes 10)).0
        photo_id
        (codes "image/png")
        (writes 10)).0.files
    ≡ some 10
unfolding program
replaced_stays = refl

-- Two calls of `Put` that overlap: the first has renamed its file and waits for the lock, the
-- second evicts the old entry of that key and removes the file, then the first installs its entry.
-- `Get` then answers with a path where no file is.
overlap : Cache × Cache
unfolding program
overlap =
    let c = (put sha all_removable start photo_id jpeg (writes 30)).0 in
    let (files, _) = write_file sha all_removable (codes "41.jpg") (writes 30) c.files in
    let d = (put sha all_removable (record c { files = files }) (codes "B") jpeg (writes 80)).0 in
    (
      d,
      install sha all_removable
          (record { key = codes "41"; filename = codes "41.jpg"; size = 30; mime = jpeg }) d,
    )

overlap_lost :
    ((get sha all_removable overlap.1 photo_id).1
      ≡ some (record { dir = dir; name = codes "41.jpg" }, jpeg))
    × (Map.get (codes "41.jpg") overlap.1.files ≡ none)
unfolding overlap
overlap_lost = (refl, refl)

no_twins : NoTwins listing
unfolding stem_of split_ext
no_twins = (((λ e. ground (arith, str_eq_iff (codes "half.jpg") (codes "old"))), tt), (tt, tt))

is_listing : IsListing disk listing
unfolding program
is_listing = ((λ n (_, no_tmp, _). cc), ((λ n (_, _, e). e), tt))

start_loaded :
    (c : Cache) × (new_media_cache sha all_removable dir (pos 100) true (some listing) disk
      ≡ some c)
    × IsValid c
    × ((c.total ≤ℤ pos 100) ⊎ (length c.lru ≡ 0))
    × (c.max_bytes ≡ pos 100)
    × (c.dir ≡ dir)
start_loaded =
    new_media_cache-IsValid sha all_removable dir (pos 100) listing disk no_twins is_listing

abbrev calls : List Call
calls = puts photo_id jpeg (writes 50) ∷ gets photo_id ∷ puts photo_id jpeg breaks ∷ []

run-new_media_cache_example :
    (c : Cache) × (new_media_cache sha all_removable dir (pos 100) true (some listing) disk
      ≡ some c)
    × IsValid (run sha all_removable c calls)
    × IsLimited (run sha all_removable c calls)
run-new_media_cache_example =
    run-new_media_cache sha all_removable dir (pos 100) listing disk calls no_twins is_listing

cache_of : (c d : Cache) → some c ≡ some d → c ≡ d
cache_of c d e = ground arith

start-IsValid : IsValid start
start-IsValid =
    let (c, made, v, _, _, _) = start_loaded in
    subst IsValid (cache_of c start (sym made ∙ start_made)) v

put-IsPut_example :
    IsPut sha all_removable start
      (put sha all_removable start photo_id jpeg (writes 50)).0
      photo_id
      jpeg
      50
put-IsPut_example =
    put-IsPut sha all_removable start photo_id jpeg (writes 50) 50 start-IsValid
      (unfold program in refl)

get-put_example :
    let c' = (put sha all_removable start photo_id jpeg (writes 50)).0 in
    ((get sha all_removable c' photo_id).1
      ≡ some (record { dir = dir; name = codes "41.jpg" }, jpeg))
    × ((n : ℕ) × ((writes 50).written ≡ some n) × (Map.get (codes "41.jpg") c'.files ≡ some n))
get-put_example =
    get-put sha all_removable start photo_id jpeg (writes 50)
      (record { dir = dir; name = codes "41.jpg" }) start-IsValid (unfold program in refl)

put-failure_example :
    let c' = (put sha all_removable start photo_id jpeg breaks).0 in
    (c'.lru ≡ start.lru)
    × (c'.entries ≡ start.entries)
    × (c'.total ≡ start.total)
    × ((other : Str)
        → ext_of other ≢ tmp_suffix
        → Map.get other c'.files ≡ Map.get other start.files)
    × ((all_removable (file_name sha all_removable photo_id jpeg ++ tmp_suffix) ≡ false)
        ⊎ (Map.get (file_name sha all_removable photo_id jpeg ++ tmp_suffix) start.files ≢ none)
        ⊎ (Map.get (file_name sha all_removable photo_id jpeg ++ tmp_suffix) c'.files ≡ none))
put-failure_example =
    put-failure sha all_removable start photo_id jpeg breaks (unfold program in refl)

-- Two calls of `Put` for the same id: both have renamed their files before either takes the lock.
both : Reach sha all_removable start (record {
  cache =
      lock_and_install sha all_removable
        (record { media_id = photo_id; mime = jpeg; phase = renamed 20 })
        20
        start;
  jobs = record { media_id = photo_id; mime = jpeg; phase = renamed 30 } ∷ [];
})
both =
    later
      (later
        (later (later (later Reach.start (begins photo_id jpeg)) (begins photo_id jpeg)) (
          renames [] (record { media_id = photo_id; mime = jpeg; phase = at_file } ∷ []) photo_id
            jpeg 30 refl))
        (renames (record { media_id = photo_id; mime = jpeg; phase = renamed 30 } ∷ []) [] photo_id
          jpeg 20 refl))
      (installs (record { media_id = photo_id; mime = jpeg; phase = renamed 30 } ∷ []) []
        (record { media_id = photo_id; mime = jpeg; phase = renamed 20 }) 20 refl refl)

Reach-IsBooked_example :
    let c =
      lock_and_install sha all_removable
        (record { media_id = photo_id; mime = jpeg; phase = renamed 20 })
        20
        start in
    ((ks : List Call) × SameBooks c (run sha all_removable start ks)) × IsBooked c
Reach-IsBooked_example =
    Reach-IsBooked sha all_removable dir (pos 100) listing disk start _ no_twins is_listing
      start_made both
