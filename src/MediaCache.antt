-- ===== src/MediaCache.antt =====
-- internal/bridge/mediacache.go: the LRU cache of media files on disk.
--
-- `lru` is the linked list from its back, the least recently used element, to its front. An
-- element has an identity `at`, as a pointer has, beside its value; `entries` maps a key to an
-- element. `files` is the cache directory: the names of its files, with their sizes.
pub mod Names
pub mod Lru
pub mod Valid
pub mod Evict
pub mod Files
pub mod Put
pub mod Order
pub mod Read
pub mod Load
pub mod History
pub mod Overlap
pub mod Books
pub mod Serial
pub mod Plain
pub mod Inside
mod Tests
pub use Names.{Entry, Element}
use tg_bridge.Prelude.{
  ℕ, zero, suc, ◌+◌, ◌≡◌, Bool, true, false, ◌&&◌, Option, none, some, List, [], ◌∷◌, ◌++◌, Str,
  codes, length, take, ltb, if◌then◌else◌,
}
use tg_bridge.Prelude.Int.{ℤ, pos, ◌+ℤ◌, ◌-ℤ◌, ltb_ℤ}
use tg_bridge.Prelude.Map
use tg_bridge.MediaCache.Names.{
  hex, ext_of, stem_of, has_suffix, tmp_suffix, mime_from_ext, ext_from_mime,
}
use tg_bridge.MediaCache.Lru.{remove_element, move_to_front}

-- The path of a file in the cache directory, `filepath.Join(dir, name)`.
pub record FilePath : Type 0 where
  pub dir : Str
  pub name : Str

pub record Cache : Type 0 where
  pub dir : Str
  pub max_bytes : ℤ
  pub entries : List (Str × Element)
  pub lru : List Element
  pub total : ℤ
  pub next : ℕ
  pub files : List (Str × ℕ)

-- How the file system answers during one `Put`: `written` is the number of bytes that `fn` wrote,
-- or its failure.
pub record PutIo : Type 0 where
  pub opens : Bool
  pub written : Option ℕ
  pub closes : Bool
  pub stats : Bool
  pub renames : Bool

-- An element of `os.ReadDir`; `info` is the size that `Info` reports, or its failure.
pub record DirEntry : Type 0 where
  pub name : Str
  pub is_dir : Bool
  pub info : Option ℕ

-- `sha256` is `sha256.Sum256`; `removable` says which files `os.Remove` can remove.
module _ (sha256 : Str → Str) (removable : Str → Bool) where
  unfoldable pub cache_key : Str → Str
  cache_key media_id = hex (take 10 (sha256 media_id))

  -- `_ = os.Remove(...)`: the error is dropped.
  unfoldable pub remove_file : Str → List (Str × ℕ) → List (Str × ℕ)
  remove_file name files = if removable name then Map.delete name files else files

  -- `evictLocked`
  unfoldable pub evict_locked : Cache → Cache × Bool
  evict_locked c = elim c.lru [
    | [] ↦ (c, false)
    | el ∷ rest ↦ (
      record c {
        lru = rest;
        entries = Map.delete el.value.key c.entries;
        total = c.total -ℤ pos el.value.size;
        files = remove_file el.value.filename c.files;
      },
      true,
    )
  ]

  -- The loop of `newMediaCache`: evict while over the limit, until nothing is left.
  unfoldable pub evict_all : ℕ → Cache → Cache
  evict_all zero c = c
  evict_all (suc fuel) c = elim (ltb_ℤ c.max_bytes c.total) [
    | false ↦ c
    | true ↦
        let (c', evicted) = evict_locked c in elim evicted [ true ↦ evict_all fuel c' | false ↦ c' ]
  ]

  -- The loop of `Put`: evict while over the limit and more than one element is left.
  unfoldable pub evict_but_one : ℕ → Cache → Cache
  evict_but_one zero c = c
  evict_but_one (suc fuel) c = elim (ltb_ℤ c.max_bytes c.total && ltb 1 (length c.lru)) [
    | false ↦ c
    | true ↦ evict_but_one fuel (evict_locked c).0
  ]

  unfoldable pub get : Cache → Str → Cache × Option (FilePath × Str)
  get c media_id = elim (Map.get (cache_key media_id) c.entries) [
    | none ↦ (c, none)
    | some el ↦ (
      record c { lru = move_to_front el c.lru },
      some (record { dir = c.dir; name = el.value.filename }, el.value.mime),
    )
  ]

  -- `Put` up to the lock: the file is written under a temporary name and renamed. The result is
  -- the size that `os.Stat` reports, or a failure.
  unfoldable pub write_file : Str → PutIo → List (Str × ℕ) → List (Str × ℕ) × Option ℕ
  write_file fname io files =
      let tmp = fname ++ tmp_suffix in
      if io.opens
      then elim io.written [
        | none ↦ (remove_file tmp (Map.set tmp 0 files), none)
        | some n ↦
            let written = Map.set tmp n files in
            if io.closes && io.stats && io.renames
            then (Map.set fname n (Map.delete tmp written), some n)
            else (remove_file tmp written, none)
      ]
      else (files, none)

  -- An element that is replaced leaves the list and the total.
  unfoldable pub forget : Str → Cache → Cache
  forget key c = elim (Map.get key c.entries) [
    | none ↦ c
    | some old ↦ record c { total = c.total -ℤ pos old.value.size; lru = remove_element old c.lru }
  ]

  -- `c.lru.PushFront(entry)`, `c.entries[key] = el`, `c.total += size`
  unfoldable pub push_entry : Entry → Cache → Cache
  push_entry e c =
      let el : Element = record { at = c.next; value = e } in
      record c {
        lru = c.lru ++ (el ∷ []);
        entries = Map.set e.key el c.entries;
        total = c.total +ℤ pos e.size;
        next = suc c.next;
      }

  -- `Put` under the lock.
  unfoldable pub install : Entry → Cache → Cache
  install e c =
      let pushed = push_entry e (forget e.key c) in evict_but_one (length pushed.lru) pushed

  unfoldable pub put : Cache → Str → Str → PutIo → Cache × Option FilePath
  put c media_id mime io =
      let key = cache_key media_id in
      let fname = key ++ ext_from_mime mime in
      let (files, result) = write_file fname io c.files in
      elim result [
        | none ↦ (record c { files = files }, none)
        | some size ↦ (
          install (record { key = key; filename = fname; size = size; mime = mime })
              (record c { files = files }),
          some (record { dir = c.dir; name = fname }),
        )
      ]

  -- The loop of `newMediaCache` over the directory.
  unfoldable pub load_entry : DirEntry → Cache → Cache
  load_entry d c =
      if d.is_dir
      then c
      else if has_suffix d.name tmp_suffix
      then record c { files = remove_file d.name c.files }
      else elim d.info [
        | none ↦ c
        | some size ↦
            push_entry
              (record {
                key = stem_of d.name;
                filename = d.name;
                size = size;
                mime = mime_from_ext (ext_of d.name);
              })
              c
      ]

  unfoldable pub load_entries : List DirEntry → Cache → Cache
  load_entries [] c = c
  load_entries (d ∷ ds) c = load_entries ds (load_entry d c)

  -- `newMediaCache` over a directory that holds `files`; `none` where `os.MkdirAll` fails, or
  -- `os.ReadDir`, whose answer is `listing`.
  unfoldable pub new_media_cache :
      Str → ℤ → Bool → Option (List DirEntry) → List (Str × ℕ) → Option Cache
  new_media_cache dir max_bytes mkdir_ok listing files =
      if mkdir_ok
      then elim listing [
        | none ↦ none
        | some ds ↦
            let c = load_entries ds (record {
              dir = dir;
              max_bytes = max_bytes;
              entries = [];
              lru = [];
              total = pos 0;
              next = 0;
              files = files;
            }) in
            some (evict_all (suc (length c.lru)) c)
      ]
      else none
