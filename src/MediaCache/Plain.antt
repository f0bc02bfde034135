-- ===== src/MediaCache/Plain.antt =====
-- The cache of internal/bridge/mediacache.go keeps to its directory: the names of its files have no
-- slash and are not the parent directory.
use tg_bridge.Prelude.{
  ℕ, zero, suc, ◌≡◌, ◌≢◌, ◌≤◌, inl, inr, sym, ap, ◌∙◌, subst, Bool, true, ◌&&◌, some, List, [], ◌∷◌,
  ◌++◌, Str, codes, str_eq, length, length-append, ltb, ◌==◌, not, arith, All, All-append,
  Bool-cases, Option-cases, List-cases,
}
use tg_bridge.Prelude.Int.{ltb_ℤ}
use tg_bridge.Prelude.Map
use tg_bridge.MediaCache.Names.{Entry, hex_digit, hex, ext_from_mime}
use tg_bridge.MediaCache.{
  FilePath, Cache, cache_key, evict_locked, evict_all, evict_but_one, get, forget, push_entry,
  install,
}

-- A name of a file in the directory itself: no slash in it, and not the parent directory.
abbrev pub IsPlain : Str → Type 0
IsPlain name = All (λ b. b ≢ b'/') name × (name ≢ codes "..")

no_slash : Str → Bool
no_slash [] = true
no_slash (b ∷ s) = not (b == b'/') && no_slash s

no_slash-All : (s : Str) → no_slash s ≡ true → All (λ b. b ≢ b'/') s
unfolding no_slash
no_slash-All [] e = tt
no_slash-All (b ∷ s) e = ((λ same. ground arith), no_slash-All s (ground arith))

hex_digit-ne : (n : ℕ) → hex_digit n ≢ b'/'
unfolding hex_digit
hex_digit-ne n e = ground arith

hex-All : (s : Str) → All (λ b. b ≢ b'/') (hex s)
unfolding hex
hex-All [] = tt
hex-All (b ∷ s) = (hex_digit-ne _, (hex_digit-ne _, hex-All s))

ext_from_mime-no_slash :
    (mime : Str) → (no_slash (ext_from_mime mime) ≡ true) × (4 ≤ length (ext_from_mime mime))
unfolding ext_from_mime no_slash
ext_from_mime-no_slash mime = ground arith

-- The name that `Put` gives to the file of an id.
pub key-IsPlain :
    (media_id mime : Str) (sha256 : Str → Str) (removable : Str → Bool)
    → IsPlain (cache_key sha256 removable media_id ++ ext_from_mime mime)
unfolding cache_key
key-IsPlain media_id mime sha256 removable =
    let key = cache_key sha256 removable media_id in
    let (clean, long) = ext_from_mime-no_slash mime in
    (
      All-append (λ b. b ≢ b'/') key (ext_from_mime mime) (hex-All _)
          (no_slash-All (ext_from_mime mime) clean),
      λ same. omega (arith, ap length same, length-append key (ext_from_mime mime), long),
    )

delete-All :
    {V : Type 0} (P : V → Type 0) (k : Str) (m : List (Str × V))
    → All (λ t. P t.1) m
    → All (λ t. P t.1) (Map.delete k m)
unfolding Map.delete
delete-All P k [] all = tt
delete-All P k ((j, v) ∷ m) (p, all) = elim (Bool-cases (str_eq j k)) [
  | inl e ↦ rw e (delete-All P k m all)
  | inr e ↦ rw e (p, delete-All P k m all)
]

get-All :
    {V : Type 0} (P : V → Type 0) (k : Str) (m : List (Str × V)) (v : V)
    → All (λ t. P t.1) m
    → Map.get k m ≡ some v
    → P v
unfolding Map.get
get-All P k [] v all e = absurd (cc)
get-All P k ((j, w) ∷ m) v (p, all) e = elim (Bool-cases (str_eq j k)) [
  | inl same ↦ let value : w ≡ v = ground (arith, same, e) in subst P value p
  | inr other ↦ get-All P k m v all (rw other at e)
]

-- The cache is at its directory, and the map's names are plain.
pub record IsPlainIn (dir : Str) (c : Cache) : Type 0 where
  pub at : c.dir ≡ dir
  pub names : All (λ t. IsPlain t.1.value.filename) c.entries

module _ (sha256 : Str → Str) (removable : Str → Bool) (dir : Str) where
  pub get-IsPlainIn :
      (c : Cache) (media_id : Str)
      → IsPlainIn dir c
      → IsPlainIn dir (get sha256 removable c media_id).0
  unfolding get
  get-IsPlainIn c media_id p =
      elim (Option-cases (Map.get (cache_key sha256 removable media_id) c.entries)) [
        | inl e ↦ rw (get, e) p
        | inr (el, e) ↦ rw (get, e) (record { at = p.at; names = p.names })
      ]

  -- What `Get` answers is a file of the directory itself.
  pub get_plain :
      (c : Cache) (media_id : Str) (path : FilePath) (mime : Str)
      → IsPlainIn dir c
      → (get sha256 removable c media_id).1 ≡ some (path, mime)
      → (path.dir ≡ dir) × IsPlain path.name
  unfolding get
  get_plain c media_id path mime p h =
      elim (Option-cases (Map.get (cache_key sha256 removable media_id) c.entries)) [
        | inl e ↦ absurd (ground (arith, e, h))
        | inr (el, e) ↦
            let same : record { dir = c.dir; name = el.value.filename } ≡ path =
              ground (arith, e, h) in
            (
              ap (λ (q : FilePath). q.dir) (sym same) ∙ p.at,
              subst (λ (q : FilePath). IsPlain q.name) same
                  (get-All (λ x. IsPlain x.value.filename) _ c.entries el p.names e),
            )
      ]

  evict_locked-IsPlainIn :
      (c : Cache) → IsPlainIn dir c → IsPlainIn dir (evict_locked sha256 removable c).0
  unfolding evict_locked
  evict_locked-IsPlainIn c p = elim (List-cases c.lru) [
    | inl e ↦ rw (evict_locked, e) p
    | inr (el, rest, e) ↦
        rw (evict_locked, e)
          (record {
            at = p.at;
            names = delete-All (λ x. IsPlain x.value.filename) el.value.key c.entries p.names;
          })
  ]

  evict_but_one-IsPlainIn :
      (fuel : ℕ) (c : Cache)
      → IsPlainIn dir c
      → IsPlainIn dir (evict_but_one sha256 removable fuel c)
  unfolding evict_but_one
  evict_but_one-IsPlainIn zero c p = p
  evict_but_one-IsPlainIn (suc fuel) c p =
      elim (Bool-cases (ltb_ℤ c.max_bytes c.total && ltb 1 (length c.lru))) [
        | inr e ↦ rw (evict_but_one, e) p
        | inl e ↦
            rw (evict_but_one, e) (evict_but_one-IsPlainIn fuel _ (evict_locked-IsPlainIn c p))
      ]

  pub evict_all-IsPlainIn :
      (fuel : ℕ) (c : Cache) → IsPlainIn dir c → IsPlainIn dir (evict_all sha256 removable fuel c)
  unfolding evict_all
  evict_all-IsPlainIn zero c p = p
  evict_all-IsPlainIn (suc fuel) c p =
      let p' = evict_locked-IsPlainIn c p in
      elim (Bool-cases (ltb_ℤ c.max_bytes c.total)) [
        | inr e ↦ rw (evict_all, e) p
        | inl e ↦ elim (Bool-cases (evict_locked sha256 removable c).1) [
          | inl t ↦ rw (evict_all, e, t) (evict_all-IsPlainIn fuel _ p')
          | inr t ↦ rw (evict_all, e, t) p'
        ]
      ]

  pub push_entry-IsPlainIn :
      (e : Entry) (c : Cache)
      → IsPlain e.filename
      → IsPlainIn dir c
      → IsPlainIn dir (push_entry sha256 removable e c)
  unfolding push_entry Map.set
  push_entry-IsPlainIn e c plain p = record {
    at = p.at;
    names = (plain, delete-All (λ x. IsPlain x.value.filename) e.key c.entries p.names);
  }

  pub install-IsPlainIn :
      (e : Entry) (c : Cache)
      → IsPlain e.filename
      → IsPlainIn dir c
      → IsPlainIn dir (install sha256 removable e c)
  unfolding install forget
  install-IsPlainIn e c plain p =
      let forgot : IsPlainIn dir (forget sha256 removable e.key c) =
        elim (Option-cases (Map.get e.key c.entries)) [
          | inl g ↦ rw (forget, g) p
          | inr (old, g) ↦ rw (forget, g) (record { at = p.at; names = p.names })
        ] in
      evict_but_one-IsPlainIn _ _ (push_entry-IsPlainIn e _ plain forgot)
