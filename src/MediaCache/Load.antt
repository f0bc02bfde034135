-- ===== src/MediaCache/Load.antt =====
-- `newMediaCache` of internal/bridge/mediacache.go: the cache that a directory is read into.
use tg_bridge.Prelude.{
  ℕ, suc, ◌-◌, ◌≡◌, ◌≢◌, ◌≤◌, refl, sym, ap, ◌∙◌, Bool, true, false, none, some, List, [], ◌∷◌,
  ◌++◌, Str, str_eq_refl, str_eq_iff, arith, inl, inr, subst, Option-cases, Bool-cases, All, length,
  length-append, drop, drop-length, take, take-append-drop, ◌⊎◌,
}
use tg_bridge.Prelude.Int.{ℤ, pos, ◌≤ℤ◌}
use tg_bridge.Prelude.Map
use tg_bridge.Prelude.Map.{get-set}
use tg_bridge.MediaCache.{
  Cache, DirEntry, remove_file, load_entry, load_entries, push_entry, evict_all, new_media_cache,
}
use tg_bridge.MediaCache.Names.{
  Entry, Element, has_suffix, tmp_suffix, ext_of, stem_of, split_ext, split_ext-join, ext_of-tmp,
  mime_from_ext,
}
use tg_bridge.MediaCache.Lru.{find_key, find_key-push, sum_sizes}
use tg_bridge.MediaCache.Valid.{
  AllStored-keep, IsValid, IsReady-of_IsValid, push-IsValid, get-remove_file,
}
use tg_bridge.MediaCache.Evict.{evict_all-IsEvicted}

has_suffix-append : (s t : Str) → has_suffix (s ++ t) t ≡ true
unfolding has_suffix
has_suffix-append s t =
    ground (arith, length-append s t, drop-length (length (s ++ t) - length t) s t, str_eq_refl t)

-- A name that does not end in `.tmp` has another extension.
ext_of-lasting : (name : Str) → has_suffix name tmp_suffix ≡ false → ext_of name ≢ tmp_suffix
unfolding ext_of
ext_of-lasting name h e = elim (Option-cases (split_ext name)) [
  | inl none_left ↦ cc (rw (none_left, ext_of) at e)
  | inr ((stem, ext), split) ↦
      let same : ext ≡ tmp_suffix = rw (split, ext_of) at e in
      let joined : name ≡ stem ++ tmp_suffix =
        split_ext-join name stem ext split ∙ ap (◌++◌ stem) same in
      cc (ap (λ s. has_suffix s tmp_suffix) joined, has_suffix-append stem tmp_suffix)
]

ext_of_tmp_file : (name : Str) → has_suffix name tmp_suffix ≡ true → ext_of name ≡ tmp_suffix
unfolding has_suffix
ext_of_tmp_file name h =
    let n = length name - 4 in
    let last : drop n name ≡ tmp_suffix = ground (arith, str_eq_iff (drop n name) tmp_suffix) in
    ap ext_of (sym (take-append-drop n name) ∙ ap (◌++◌ (take n name)) last)
    ∙ ext_of-tmp (take n name)

-- The directory entries that are loaded, and the key that each gets.
abbrev pub IsLoaded : DirEntry → ℕ → Type 0
IsLoaded d n = (d.is_dir ≡ false) × (has_suffix d.name tmp_suffix ≡ false) × (d.info ≡ some n)

-- No two files of the directory have one name up to the extension.
abbrev pub NoTwins : List DirEntry → Type 0
NoTwins [] = Unit
NoTwins (d ∷ ds) = All (λ d'. stem_of d.name ≢ stem_of d'.name) ds × NoTwins ds

-- The listing tells the size of each file that is in the directory.
abbrev pub IsListing : List (Str × ℕ) → List DirEntry → Type 0
IsListing files = All (λ d. (n : ℕ) → IsLoaded d n → Map.get d.name files ≡ some n)

module _ (sha256 : Str → Str) (removable : Str → Bool) where
  -- An entry that can be loaded: its file is there, and its key is not in the list.
  abbrev CanLoad : Cache → DirEntry → Type 0
  CanLoad c d =
      (n : ℕ)
      → IsLoaded d n
      → (Map.get d.name c.files ≡ some n) × (find_key (stem_of d.name) c.lru ≡ none)

  abbrev entry_of : DirEntry → ℕ → Entry
  entry_of d n = record {
    key = stem_of d.name;
    filename = d.name;
    size = n;
    mime = mime_from_ext (ext_of d.name);
  }

  -- The three things that the loop does with an entry.
  data Loads (d : DirEntry) (c : Cache) : Cache → Type 0 where
    skipped : Loads d c c
    cleaned :
        has_suffix d.name tmp_suffix ≡ true
        → Loads d c (record c { files = remove_file sha256 removable d.name c.files })
    loaded : (n : ℕ) → IsLoaded d n → Loads d c (push_entry sha256 removable (entry_of d n) c)

  load_entry-Loads : (d : DirEntry) (c : Cache) → Loads d c (load_entry sha256 removable d c)
  unfolding load_entry
  load_entry-Loads d c = elim (Bool-cases d.is_dir) [
    | inl dir ↦ rw (dir, load_entry) skipped
    | inr no_dir ↦ elim (Bool-cases (has_suffix d.name tmp_suffix)) [
      | inl tmp ↦ subst (Loads d c) (sym (rw (no_dir, tmp, load_entry))) (cleaned tmp)
      | inr lasts ↦ elim (Option-cases d.info) [
        | inl gone ↦ subst (Loads d c) (sym (rw (no_dir, lasts, gone, load_entry))) skipped
        | inr (n, e) ↦
            subst (Loads d c) (sym (rw (no_dir, lasts, e, load_entry)))
              (loaded n (no_dir, lasts, e))
      ]
    ]
  ]

  keep_clean :
      (c : Cache) (name other : Str)
      → has_suffix name tmp_suffix ≡ true
      → ext_of other ≢ tmp_suffix
      → Map.get other (remove_file sha256 removable name c.files) ≡ Map.get other c.files
  keep_clean c name other h ne =
      get-remove_file sha256 removable name other c.files
        (λ same. ne (sym (ap ext_of same) ∙ ext_of_tmp_file name h))

  Loads-IsValid :
      (d : DirEntry) (c : Cache) {c' : Cache} → Loads d c c' → IsValid c → CanLoad c d → IsValid c'
  Loads-IsValid d c skipped v can = v
  Loads-IsValid d c (cleaned tmp) v can = record {
    distinct = v.distinct;
    bounded = v.bounded;
    indexed = v.indexed;
    counted = v.counted;
    stored =
        AllStored-keep c.files _ c.lru
          (λ e s _. keep_clean c d.name e.filename tmp s.lasting ∙ s.present) v.stored;
  }
  Loads-IsValid d c (loaded n is) v can =
      let (present, absent) = can n is in
      push-IsValid sha256 removable (entry_of d n) c
        (IsReady-of_IsValid (stem_of d.name) c absent v)
        (record { named = refl; lasting = ext_of-lasting d.name is.1; present = present })

  Loads-CanLoad :
      (d d' : DirEntry) (c : Cache) {c' : Cache}
      → Loads d c c'
      → stem_of d.name ≢ stem_of d'.name
      → CanLoad c d
      → CanLoad c d'
      → CanLoad c' d'
  Loads-CanLoad d d' c skipped ne can can' = can'
  Loads-CanLoad d d' c (cleaned tmp) ne can can' = λ n is.
      (keep_clean c d.name d'.name tmp (ext_of-lasting d'.name is.1) ∙ (can' n is).0, (can' n is).1)
  Loads-CanLoad d d' c (loaded n is) ne can can' = λ m is'.
      let front : Element = record { at = c.next; value = entry_of d n } in
      unfold push_entry in
      (
        (can' m is').0,
        ground (
          arith,
          find_key-push front (stem_of d'.name) c.lru (can n is).1,
          (can' m is').1,
          str_eq_iff (stem_of d.name) (stem_of d'.name),
        ),
      )

  load_entries-IsValid :
      (ds : List DirEntry) (c : Cache)
      → NoTwins ds
      → All (CanLoad c) ds
      → IsValid c
      → IsValid (load_entries sha256 removable ds c)
  unfolding load_entries
  load_entries-IsValid [] c tw can v = v
  load_entries-IsValid (d ∷ ds) c (apart, tw) (can, cans) v =
      let step = load_entry-Loads d c in
      load_entries-IsValid ds _ tw (all_can ds apart cans) (Loads-IsValid d c step v can)
    where
      all_can :
          (rest : List DirEntry)
          → All (λ d'. stem_of d.name ≢ stem_of d'.name) rest
          → All (CanLoad c) rest
          → All (CanLoad (load_entry sha256 removable d c)) rest
      all_can [] a s = tt
      all_can (d' ∷ rest) (a, as') (s, ss) =
          (Loads-CanLoad d d' c (load_entry-Loads d c) a can s, all_can rest as' ss)

  Loads-fields :
      (d : DirEntry) (c : Cache) {c' : Cache}
      → Loads d c c'
      → (c'.max_bytes ≡ c.max_bytes) × (c'.dir ≡ c.dir)
  unfolding push_entry
  Loads-fields d c skipped = (refl, refl)
  Loads-fields d c (cleaned tmp) = (refl, refl)
  Loads-fields d c (loaded n is) = (refl, refl)

  load_fields :
      (ds : List DirEntry) (c : Cache)
      → ((load_entries sha256 removable ds c).max_bytes ≡ c.max_bytes)
        × ((load_entries sha256 removable ds c).dir ≡ c.dir)
  unfolding load_entries
  load_fields [] c = (refl, refl)
  load_fields (d ∷ ds) c =
      let (lim, dir) = load_fields ds (load_entry sha256 removable d c) in
      let (lim', dir') = Loads-fields d c (load_entry-Loads d c) in (lim ∙ lim', dir ∙ dir')

  blank : Str → ℤ → List (Str × ℕ) → Cache
  blank dir max_bytes files = record {
    dir = dir;
    max_bytes = max_bytes;
    entries = [];
    lru = [];
    total = pos 0;
    next = 0;
    files = files;
  }

  blank-IsValid :
      (dir : Str) (max_bytes : ℤ) (files : List (Str × ℕ)) → IsValid (blank dir max_bytes files)
  unfolding blank find_key sum_sizes
  blank-IsValid dir max_bytes files = record {
    distinct = tt;
    bounded = tt;
    indexed = λ k. unfold Map.get in refl;
    counted = refl;
    stored = tt;
  }

  -- A directory whose listing is right and where no two files share a name up to the extension
  -- gives a valid cache that is within the limit, or empty; it fails only where the directory
  -- cannot be made or read.
  pub new_media_cache-IsValid :
      (dir : Str) (max_bytes : ℤ) (ds : List DirEntry) (files : List (Str × ℕ))
      → NoTwins ds
      → IsListing files ds
      → (c : Cache) × (new_media_cache sha256 removable dir max_bytes true (some ds) files ≡ some c)
        × IsValid c
        × ((c.total ≤ℤ max_bytes) ⊎ (length c.lru ≡ 0))
        × (c.max_bytes ≡ max_bytes)
        × (c.dir ≡ dir)
  unfolding new_media_cache blank
  new_media_cache-IsValid dir max_bytes ds files tw listing =
      let c = load_entries sha256 removable ds (blank dir max_bytes files) in
      let (lim, d) = load_fields ds (blank dir max_bytes files) in
      let valid =
        load_entries-IsValid ds (blank dir max_bytes files) tw (start ds listing)
          (blank-IsValid dir max_bytes files) in
      let r = evict_all-IsEvicted sha256 removable (suc (length c.lru)) c (omega arith) valid in
      (
        evict_all sha256 removable (suc (length c.lru)) c,
        refl,
        r.valid,
        limit _ _ _ lim r.enough,
        r.same_limit ∙ lim,
        r.same_dir ∙ d,
      )
    where
      start :
          (rest : List DirEntry)
          → IsListing files rest
          → All (CanLoad (blank dir max_bytes files)) rest
      start [] s = tt
      start (d ∷ rest) (s, ss) = (λ n is. (s n is, unfold find_key in refl), start rest ss)

      limit :
          (t : ℤ) (n : ℕ) (m : ℤ) → m ≡ max_bytes → (t ≤ℤ m) ⊎ (n ≤ 0) → (t ≤ℤ max_bytes) ⊎ (n ≡ 0)
      limit t n m e (inl h) = inl (subst (λ x. t ≤ℤ x) e h)
      limit t n m e (inr h) = inr (omega arith)
