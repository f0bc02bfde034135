-- ===== src/MediaCache/Put.antt =====
-- `Put` and `Get` of internal/bridge/mediacache.go, with the lock's part and the file's together.
use tg_bridge.Prelude.{
  false, ◌⊎◌, ℕ, ◌≡◌, ◌≢◌, refl, sym, ap, ◌∙◌, Bool, Option, none, some, List, ◌++◌, Str, str_eq,
  str_eq_iff, arith, inl, inr, subst, Option-cases, Bool-cases,
}
use tg_bridge.Prelude.Map
use tg_bridge.MediaCache.{Cache, PutIo, cache_key, write_file, forget, push_entry, install, put}
use tg_bridge.MediaCache.Names.{
  Entry, stem_of, ext_of, tmp_suffix, ext_from_mime, key-ext_from_mime, ext_of-tmp,
}
use tg_bridge.MediaCache.Valid.{
  IsStored, AllStored-keep, IsValid, forget-IsReady, push-IsValid, forget_fields,
}
use tg_bridge.MediaCache.Evict.{IsEvicted, evict_but_one-IsEvicted}
use tg_bridge.MediaCache.Files.{
  write_file-keep, write_file-stored, write_file-tmp, write_file-failed,
}

-- A name with another extension is another name.
ext_ne : (a b : Str) → ext_of a ≢ ext_of b → a ≢ b
ext_ne a b ne e = ne (ap ext_of e)

module _ (sha256 : Str → Str) (removable : Str → Bool) where
  abbrev pub file_name : Str → Str → Str
  file_name media_id mime = cache_key sha256 removable media_id ++ ext_from_mime mime

  file_parts :
      (media_id mime : Str)
      → (stem_of (file_name media_id mime) ≡ cache_key sha256 removable media_id)
        × (ext_of (file_name media_id mime) ≢ tmp_suffix)
  unfolding stem_of ext_of
  file_parts media_id mime =
      let (split, ne) = key-ext_from_mime (cache_key sha256 removable media_id) mime in
      (rw (split, stem_of), rw (split, ext_of) ne)

  tmp_ne : (name other : Str) → ext_of other ≢ tmp_suffix → name ++ tmp_suffix ≢ other
  tmp_ne name other ne e = ne (sym (ap ext_of e) ∙ ext_of-tmp name)

  -- The files of other keys are there after the unlocked part as before it.
  kept_files :
      (media_id mime : Str) (io : PutIo) (files : List (Str × ℕ)) (e : Entry)
      → IsStored files e
      → cache_key sha256 removable media_id ≢ e.key
      → Map.get e.filename (write_file sha256 removable (file_name media_id mime) io files).0
        ≡ some e.size
  kept_files media_id mime io files e s ne =
      let name = file_name media_id mime in
      write_file-keep sha256 removable name io files e.filename
        (λ same. ne (sym (file_parts media_id mime).0 ∙ ap stem_of same ∙ s.named))
        (tmp_ne name e.filename s.lasting)
      ∙ s.present

  -- The locked part, once the files of the other keys and of the new entry are in place: the new
  -- element goes to the front, the old one of its key leaves, and then the loop evicts.
  pub install-IsEvicted :
      (c : Cache) (files : List (Str × ℕ)) (e : Entry)
      → IsValid c
      → ((e' : Entry)
          → IsStored c.files e'
          → e.key ≢ e'.key
          → Map.get e'.filename files ≡ some e'.size)
      → IsStored files e
      → IsEvicted 1
          (push_entry sha256 removable e
            (forget sha256 removable e.key (record c { files = files })))
          (install sha256 removable e (record c { files = files }))
  unfolding install
  install-IsEvicted c files e v keep s =
      evict_but_one-IsEvicted sha256 removable _ _ (omega arith) (
        push-IsValid sha256 removable e _ (forget-IsReady sha256 removable c files e.key v keep) (
          subst (λ f. IsStored f e)
            (sym (forget_fields sha256 removable (record c { files = files }) e.key).0) s))

  abbrev after_write : Cache → Str → Str → PutIo → List (Str × ℕ) × Option ℕ
  after_write c media_id mime io = write_file sha256 removable (file_name media_id mime) io c.files

  abbrev pub new_entry : Str → Str → ℕ → Entry
  new_entry media_id mime size = record {
    key = cache_key sha256 removable media_id;
    filename = file_name media_id mime;
    size = size;
    mime = mime;
  }

  -- A success of `Put`, in one equation.
  pub put_ok :
      (c : Cache) (media_id mime : Str) (io : PutIo) (n : ℕ)
      → (after_write c media_id mime io).1 ≡ some n
      → put sha256 removable c media_id mime io ≡ (
        install sha256 removable
            (new_entry media_id mime n)
            (record c { files = (after_write c media_id mime io).0 }),
        some (record { dir = c.dir; name = file_name media_id mime }),
      )
  unfolding put
  put_ok c media_id mime io n e = rw (e, put)

  pub put_failed :
      (c : Cache) (media_id mime : Str) (io : PutIo)
      → (after_write c media_id mime io).1 ≡ none
      → put sha256 removable c media_id mime io
        ≡ (record c { files = (after_write c media_id mime io).0 }, none)
  unfolding put
  put_failed c media_id mime io e = rw (e, put)

  new-IsStored :
      (c : Cache) (media_id mime : Str) (io : PutIo) (n : ℕ)
      → (after_write c media_id mime io).1 ≡ some n
      → IsStored (after_write c media_id mime io).0 (new_entry media_id mime n)
  new-IsStored c media_id mime io n e = record {
    named = (file_parts media_id mime).0;
    lasting = (file_parts media_id mime).1;
    present = (write_file-stored sha256 removable (file_name media_id mime) io c.files n e).1;
  }

  -- The cache that `Put` evicts from: the new element in front of all but the old one of its key.
  abbrev pub pushed : Cache → Str → Str → PutIo → ℕ → Cache
  pushed c media_id mime io n = push_entry sha256 removable (new_entry media_id mime n) (
      forget sha256 removable (cache_key sha256 removable media_id)
        (record c { files = (after_write c media_id mime io).0 }))

  pub put-IsEvicted :
      (c : Cache) (media_id mime : Str) (io : PutIo) (n : ℕ)
      → IsValid c
      → (after_write c media_id mime io).1 ≡ some n
      → IsEvicted 1 (pushed c media_id mime io n) (put sha256 removable c media_id mime io).0
  put-IsEvicted c media_id mime io n v e = rw (put_ok c media_id mime io n e) (
      install-IsEvicted c _ (new_entry media_id mime n) v
        (λ e'. kept_files media_id mime io c.files e') (new-IsStored c media_id mime io n e))

  name_ne_tmp :
      (media_id mime : Str) → file_name media_id mime ≢ file_name media_id mime ++ tmp_suffix
  name_ne_tmp media_id mime e =
      tmp_ne (file_name media_id mime) (file_name media_id mime) (file_parts media_id mime).1
        (sym e)

  -- A failed write leaves every file that is not a temporary one.
  failed_keep :
      (c : Cache) (media_id mime : Str) (io : PutIo) (other : Str)
      → (after_write c media_id mime io).1 ≡ none
      → ext_of other ≢ tmp_suffix
      → Map.get other (after_write c media_id mime io).0 ≡ Map.get other c.files
  failed_keep c media_id mime io other failed lasting =
      elim (Bool-cases (str_eq (file_name media_id mime) other)) [
        | inl same ↦
            let p = (str_eq_iff (file_name media_id mime) other).0 same in
            subst (λ x. Map.get x (after_write c media_id mime io).0 ≡ Map.get x c.files) p
              (write_file-failed sha256 removable (file_name media_id mime) io c.files
                (name_ne_tmp media_id mime) failed)
        | inr ne ↦
            write_file-keep sha256 removable (file_name media_id mime) io c.files other
              (λ p. cc ((str_eq_iff (file_name media_id mime) other).1 p))
              (tmp_ne (file_name media_id mime) other lasting)
      ]

  -- `Put` keeps the invariant, whether it succeeds or fails and however the file system answers.
  pub put-IsValid :
      (c : Cache) (media_id mime : Str) (io : PutIo)
      → IsValid c
      → IsValid (put sha256 removable c media_id mime io).0
  put-IsValid c media_id mime io v = elim (Option-cases (after_write c media_id mime io).1) [
    | inr (n, e) ↦ (put-IsEvicted c media_id mime io n v e).valid
    | inl e ↦ rw (put_failed c media_id mime io e) (record {
      distinct = v.distinct;
      bounded = v.bounded;
      indexed = v.indexed;
      counted = v.counted;
      stored =
          AllStored-keep c.files _ c.lru
            (λ e' s _. failed_keep c media_id mime io e'.filename e s.lasting ∙ s.present) v.stored;
    })
  ]

  -- The temporary file of a failed write.
  left_tmp :
      (c : Cache) (media_id mime : Str) (io : PutIo)
      → (removable (file_name media_id mime ++ tmp_suffix) ≡ false)
        ⊎ (Map.get (file_name media_id mime ++ tmp_suffix) c.files ≢ none)
        ⊎ (Map.get (file_name media_id mime ++ tmp_suffix) (after_write c media_id mime io).0
            ≡ none)
  left_tmp c media_id mime io =
      elim (Bool-cases (removable (file_name media_id mime ++ tmp_suffix))) [
        | inr stuck ↦ inl stuck
        | inl can ↦ elim (Option-cases (Map.get (file_name media_id mime ++ tmp_suffix) c.files)) [
          | inr (n, there) ↦ inr (inl (λ e. cc))
          | inl missing ↦ inr (
              inr (
                write_file-tmp sha256 removable (file_name media_id mime) io c.files
                  (name_ne_tmp media_id mime) can missing))
        ]
      ]

  -- A `Put` that fails leaves the list, the map and the total as they were, and every file that is
  -- not a temporary one; its own temporary file is gone, if it can be removed and was not there
  -- before.
  pub put-failure :
      (c : Cache) (media_id mime : Str) (io : PutIo)
      → (put sha256 removable c media_id mime io).1 ≡ none
      → let c' = (put sha256 removable c media_id mime io).0 in
        (c'.lru ≡ c.lru)
        × (c'.entries ≡ c.entries)
        × (c'.total ≡ c.total)
        × ((other : Str)
            → ext_of other ≢ tmp_suffix
            → Map.get other c'.files ≡ Map.get other c.files)
        × ((removable (file_name media_id mime ++ tmp_suffix) ≡ false)
            ⊎ (Map.get (file_name media_id mime ++ tmp_suffix) c.files ≢ none)
            ⊎ (Map.get (file_name media_id mime ++ tmp_suffix) c'.files ≡ none))
  put-failure c media_id mime io h = elim (Option-cases (after_write c media_id mime io).1) [
    | inr (n, e) ↦ absurd (cc (put_ok c media_id mime io n e))
    | inl e ↦ rw (put_failed c media_id mime io e) (
      refl,
      refl,
      refl,
      λ other ne. failed_keep c media_id mime io other e ne,
      left_tmp c media_id mime io,
    )
  ]
