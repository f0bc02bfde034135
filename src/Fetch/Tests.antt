-- ===== src/Fetch/Tests.antt =====
-- The fetching of media at concrete ids, with stand-ins for the cryptography and the file system.
use tg_bridge.Prelude.{
  ◌≡◌, refl, ℕ, Bool, true, false, none, some, List, [], ◌∷◌, All, length, ap, ◌++◌, Str, codes,
  str_eq, arith, inl, sym, ◌∙◌, subst,
}
use tg_bridge.Prelude.Int.{pos, negsuc, to_u64, of_u64, ◌+ℤ◌, ◌-ℤ◌}
use tg_bridge.Prelude.Map
use tg_bridge.MediaId.{
  MediaRef, ok, put_uint64, put_uint16, marshal_media_ref, unmarshal_media_ref, unmarshal_tail,
  media_tag, encode_media_id, decode_raw, decode_media_id, media_kind_photo,
}
use tg_bridge.MediaId.Signed.{IsSigned}
use tg_bridge.MediaId.Tests.{toy}
use tg_bridge.MediaCache.{
  Cache, DirEntry, FilePath, cache_key, remove_file, evict_locked, evict_all, evict_but_one, get,
  write_file, forget, push_entry, install, put, load_entry, load_entries, new_media_cache,
}
use tg_bridge.MediaCache.Names.{
  Element, hex_digit, hex, split_ext, ext_of, stem_of, has_suffix, to_lower, mime_from_ext,
  ext_from_mime,
}
use tg_bridge.MediaCache.Lru.{remove_element, contains_element, move_to_front, find_key}
use tg_bridge.MediaCache.Valid.{IsValid}
use tg_bridge.MediaCache.Load.{new_media_cache-IsValid}
use tg_bridge.Fetch.{
  tick, context_ends, wait_loop, wait_ready, file_is, no_file, FetchIo, jpeg, download, fetch_ref,
  fetch_media, handle_get_media,
}
use tg_bridge.MediaCache.History.{Call, puts, step, run}
use tg_bridge.MediaCache.Plain.{IsPlain}
use tg_bridge.Fetch.Inside.{handle_get_media-IsPlain}
use tg_bridge.Media.{pick_smallest_photo_size, photo_ref, media_photo, summarize_media}
use tg_bridge.Media.Tests
use tg_bridge.Media.Tests.{picked_ok, picked_short}
use tg_bridge.Fetch.Photo.{fetch_media-summarize_media}
use tg_bridge.Fetch.Ready.{wait_ready_returns}
use tg_bridge.Fetch.Again.{fetch_media-fetch_media, fetch_media-IsSigned}

program : Unit {0}
unfolding put_uint64 put_uint16 marshal_media_ref unmarshal_media_ref unmarshal_tail media_tag
    encode_media_id decode_raw decode_media_id to_u64 of_u64 str_eq cache_key remove_file
    evict_locked evict_all evict_but_one get write_file forget push_entry install put load_entry
    load_entries new_media_cache hex_digit hex split_ext ext_of stem_of has_suffix to_lower
    mime_from_ext ext_from_mime remove_element contains_element move_to_front find_key Map.get
    Map.set Map.delete ◌+ℤ◌ ◌-ℤ◌ wait_loop wait_ready download fetch_ref fetch_media
    handle_get_media step run
program = tt

wait_ready_returns_example :
    wait_ready false (tick false ∷ tick true ∷ context_ends ∷ []) ≡ some true
wait_ready_returns_example =
    wait_ready_returns false (tick false ∷ tick true ∷ []) [] (tt, (tt, tt))

-- A stand-in for SHA-256: the text itself.
abbrev sha : Str → Str
sha s = s

abbrev all_removable : Str → Bool
all_removable name = true

abbrev dir : Str
dir = codes "media"

abbrev start : Cache
start = record {
  dir = dir;
  max_bytes = pos 100;
  entries = [];
  lru = [];
  total = pos 0;
  next = 0;
  files = [];
}

some_injective : (c d : Cache) → some c ≡ some d → c ≡ d
some_injective c d e = ground arith

start-IsValid : IsValid start
start-IsValid =
    let (c, made, v, _, _, _) =
      new_media_cache-IsValid sha all_removable dir (pos 100) [] [] tt tt in
    let made_start : new_media_cache sha all_removable dir (pos 100) true (some []) []
        ≡ some start =
      unfold program in refl in
    subst IsValid (some_injective c start (sym made ∙ made_start)) v

abbrev key : Str
key = 1 ∷ 2 ∷ 3 ∷ []

abbrev photo : MediaRef
photo = record {
  kind = 1;
  id = pos 258;
  access_hash = negsuc 0;
  file_ref = 7 ∷ 8 ∷ [];
  thumb_size = b'm' ∷ [];
}

abbrev video : MediaRef
video = record photo { kind = 2 }

abbrev signed_id : Str
signed_id = encode_media_id toy key photo

abbrev saved : FetchIo
saved = record {
  ready = true;
  put_io = record { opens = true; written = some 50; closes = true; stats = true; renames = true };
}

abbrev cut_off : FetchIo
cut_off = record {
  ready = true;
  put_io = record { opens = true; written = none; closes = true; stats = true; renames = true };
}

abbrev photo_path : FilePath
photo_path = record { dir = dir; name = cache_key sha all_removable signed_id ++ codes ".jpg" }

first_fetch :
    (fetch_media sha all_removable toy key start signed_id saved).2 ≡ file_is (photo_path, jpeg)
unfolding program
first_fetch = refl

first_asked : (fetch_media sha all_removable toy key start signed_id saved).1 ≡ some photo
unfolding program
first_asked = refl

-- A download that breaks off gives an error and caches nothing.
broken_off : (handle_get_media sha all_removable toy key start signed_id cut_off).1 ≡ some (inl 400)
unfolding program
broken_off = refl

-- The kind of a reference has to be a photo's.
video_refused :
    (fetch_media sha all_removable toy key start (encode_media_id toy key video) saved)
    ≡ (start, none, no_file)
unfolding program
video_refused = refl

fetch_media-fetch_media_example :
    let k = (fetch_media sha all_removable toy key start signed_id saved).0 in
    IsValid k
    × ((fetch_media sha all_removable toy key k signed_id cut_off).1 ≡ none)
    × ((fetch_media sha all_removable toy key k signed_id cut_off).2 ≡ file_is (photo_path, jpeg))
    × ((n : ℕ) × (Map.get photo_path.name k.files ≡ some n))
fetch_media-fetch_media_example =
    fetch_media-fetch_media sha all_removable toy key start signed_id saved cut_off photo_path jpeg
      start-IsValid first_fetch

fetch_media-IsSigned_example :
    ((get sha all_removable start signed_id).1 ≡ none)
    × (saved.ready ≡ true)
    × (photo.kind ≡ media_kind_photo)
    × ((payload : Str) × IsSigned toy key signed_id payload
        × (unmarshal_media_ref payload ≡ ok photo))
fetch_media-IsSigned_example =
    fetch_media-IsSigned sha all_removable toy key start signed_id saved photo first_asked

abbrev listed : List DirEntry
listed = record { name = codes "a.jpg"; is_dir = false; info = some 9 } ∷ []

abbrev old_element : Element
old_element = record {
  at = 0;
  value = record { key = codes "a"; filename = codes "a.jpg"; size = 9; mime = jpeg };
}

abbrev loaded : Cache
loaded = record start {
  entries = (codes "a", old_element) ∷ [];
  lru = old_element ∷ [];
  total = pos 9;
  next = 1;
  files = (codes "a.jpg", 9) ∷ [];
}

listed-IsPlain : All (λ d. IsPlain d.name) listed
listed-IsPlain = (
  (
    ((λ e. cc), ((λ e. cc), ((λ e. cc), ((λ e. cc), ((λ e. cc), tt))))),
    λ e. omega (arith, ap length e),
  ),
  tt,
)

abbrev one_put : List Call
one_put = puts signed_id jpeg saved.put_io ∷ []

handle_get_media-IsPlain_example : (photo_path.dir ≡ dir) × IsPlain photo_path.name
handle_get_media-IsPlain_example =
    handle_get_media-IsPlain sha all_removable toy key dir (pos 100) true (some listed)
      ((codes "a.jpg", 9) ∷ []) loaded one_put signed_id cut_off photo_path jpeg
      (λ ds e. let same : listed ≡ ds = cc in subst (All (λ d. IsPlain d.name)) same listed-IsPlain)
      (unfold program in refl) (unfold program in refl)

start_miss : (media_id : Str) → (get sha all_removable start media_id).1 ≡ none
unfolding program
start_miss media_id = refl

fetch_media-summarize_media_example :
    (fetch_media sha all_removable toy key start
      (summarize_media toy key (media_photo (some Tests.photo))).media_id
      saved).1
    ≡ some (photo_ref Tests.photo (pick_smallest_photo_size Tests.sizes).size_type)
fetch_media-summarize_media_example =
    fetch_media-summarize_media sha all_removable toy key start saved Tests.photo (omega arith)
      (omega arith) (omega arith) picked_short picked_ok (start_miss _) refl refl
