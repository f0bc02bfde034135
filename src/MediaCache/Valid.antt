-- ===== src/MediaCache/Valid.antt =====
-- The invariant of the cache of internal/bridge/mediacache.go, and the parts of its operations.
use tg_bridge.Prelude.{
  ℕ, suc, ◌+◌, ◌≡◌, ◌≢◌, ◌≤◌, ◌<◌, refl, sym, ap, ◌∙◌, Bool, none, some, List, [], ◌∷◌, Str,
  str_eq_refl, str_eq_iff, arith, All, All-append, Option-cases, inl, inr, subst,
}
use tg_bridge.Prelude.Map
use tg_bridge.Prelude.Map.{get-set, get-delete}
use tg_bridge.Prelude.Int.{ℤ, pos, ◌+ℤ◌, ◌-ℤ◌}
use tg_bridge.MediaCache.{Cache, remove_file, evict_locked, forget, push_entry}
use tg_bridge.MediaCache.Names.{Entry, Element, ext_of, stem_of, tmp_suffix}
use tg_bridge.MediaCache.Lru.{
  remove_element, find_key, sum_sizes, IsDistinct, IsDistinct-remove, All-remove, find_key-remove,
  sum_sizes-remove, find_key-push, IsDistinct-push, sum_sizes-push, contains-fresh,
}

-- The file of an entry is in the directory with the entry's size, its name without the extension
-- is the key, and it is no temporary file.
pub record IsStored (files : List (Str × ℕ)) (e : Entry) : Type 0 where
  pub named : stem_of e.filename ≡ e.key
  pub lasting : ext_of e.filename ≢ tmp_suffix
  pub present : Map.get e.filename files ≡ some e.size

abbrev pub AllStored : List (Str × ℕ) → List Element → Type 0
AllStored files = All (λ el. IsStored files el.value)

pub record IsValid (c : Cache) : Type 0 where
  pub distinct : IsDistinct c.lru
  pub bounded : All (λ el. el.at < c.next) c.lru
  pub indexed : (k : Str) → Map.get k c.entries ≡ find_key k c.lru
  pub counted : c.total ≡ pos (sum_sizes c.lru)
  pub stored : AllStored c.files c.lru

-- What the entries of a list need of the files stays while their own files stay.
pub AllStored-keep :
    (files files' : List (Str × ℕ)) (l : List Element)
    → ((e : Entry)
        → IsStored files e
        → find_key e.key l ≢ none
        → Map.get e.filename files' ≡ some e.size)
    → AllStored files l
    → AllStored files' l
unfolding find_key
AllStored-keep files files' [] keep s = tt
AllStored-keep files files' (x ∷ l) keep (here, there) = (
  record {
    named = here.named;
    lasting = here.lasting;
    present = keep x.value here (ground (arith, str_eq_refl x.value.key));
  },
  AllStored-keep files files' l (λ e s f. keep e s (ground (arith, f))) there,
)

-- Files of different keys have different names.
stored_ne :
    {files files' : List (Str × ℕ)} (e e' : Entry)
    → IsStored files e
    → IsStored files' e'
    → e.key ≢ e'.key
    → e.filename ≢ e'.filename
stored_ne e e' s s' ne same = ne (sym s.named ∙ ap stem_of same ∙ s'.named)

-- A key that is found is no key that is not.
found_ne : (k j : Str) (l : List Element) → find_key k l ≡ none → find_key j l ≢ none → k ≢ j
found_ne k j l missing found same = found (subst (λ k. find_key k l ≡ none) same missing)

counted_sub : (t : ℤ) (a b : ℕ) → t ≡ pos (a + b) → t -ℤ pos a ≡ pos b
unfolding ◌-ℤ◌
counted_sub t a b e = rw e (ground arith)

counted_add : (t : ℤ) (a b : ℕ) → t ≡ pos a → t +ℤ pos b ≡ pos (a + b)
unfolding ◌+ℤ◌
counted_add t a b e = rw e (ground arith)

All-weaken : (m n : ℕ) (l : List Element) → m ≤ n → All (λ x. x.at < m) l → All (λ x. x.at < n) l
All-weaken m n [] h all = tt
All-weaken m n (x ∷ l) h (a, all) = (omega arith, All-weaken m n l h all)

-- A cache that is valid but for one key, which has no element: the map may still hold an old one.
pub record IsReady (k : Str) (c : Cache) : Type 0 where
  pub absent : find_key k c.lru ≡ none
  pub distinct : IsDistinct c.lru
  pub bounded : All (λ el. el.at < c.next) c.lru
  pub indexed : (j : Str) → k ≢ j → Map.get j c.entries ≡ find_key j c.lru
  pub counted : c.total ≡ pos (sum_sizes c.lru)
  pub stored : AllStored c.files c.lru

pub IsReady-of_IsValid : (k : Str) (c : Cache) → find_key k c.lru ≡ none → IsValid c → IsReady k c
IsReady-of_IsValid k c absent v = record {
  absent = absent;
  distinct = v.distinct;
  bounded = v.bounded;
  indexed = λ j _. v.indexed j;
  counted = v.counted;
  stored = v.stored;
}

module _ (sha256 : Str → Str) (removable : Str → Bool) where
  pub get-remove_file :
      (name other : Str) (files : List (Str × ℕ))
      → name ≢ other
      → Map.get other (remove_file sha256 removable name files) ≡ Map.get other files
  unfolding remove_file
  get-remove_file name other files ne =
      ground (arith, get-delete name other files, str_eq_iff name other)

  pub evict-IsValid :
      (c : Cache) (el : Element) (rest : List Element)
      → c.lru ≡ el ∷ rest
      → IsValid c
      → IsValid (evict_locked sha256 removable c).0
  unfolding evict_locked
  evict-IsValid c el rest e v =
      let distinct : IsDistinct (el ∷ rest) = rw e at v.distinct in
      let stored : AllStored c.files (el ∷ rest) = rw e at v.stored in
      let counted : c.total ≡ pos (sum_sizes (el ∷ rest)) =
        v.counted ∙ ap (λ l. pos (sum_sizes l)) e in
      let indexed : (k : Str) → Map.get k c.entries ≡ find_key k (el ∷ rest) =
        λ k. v.indexed k ∙ ap (find_key k) e in
      rw (e, evict_locked)
        (record {
          distinct = distinct.2;
          bounded = (subst (All (λ x. x.at < c.next)) e v.bounded).1;
          indexed = λ k.
              unfold find_key in
              ground (
                arith,
                get-delete el.value.key k c.entries,
                indexed k,
                str_eq_iff el.value.key k,
                distinct.1,
              );
          counted = unfold sum_sizes in counted_sub c.total el.value.size _ counted;
          stored =
              AllStored-keep c.files _ rest
                (λ e' s f.
                  get-remove_file el.value.filename e'.filename c.files
                    (stored_ne el.value e' stored.0 s (found_ne _ _ rest distinct.1 f))
                  ∙ s.present)
                stored.1;
        })

  -- Taking out the element of a key, once the files of the others are as they were.
  pub forget-IsReady :
      (c : Cache) (files : List (Str × ℕ)) (k : Str)
      → IsValid c
      → ((e : Entry) → IsStored c.files e → k ≢ e.key → Map.get e.filename files ≡ some e.size)
      → IsReady k (forget sha256 removable k (record c { files = files }))
  unfolding forget
  forget-IsReady c files k v keep = elim (Option-cases (find_key k c.lru)) [
    | inl e ↦
        rw (v.indexed k ∙ e, forget)
          (record {
            absent = e;
            distinct = v.distinct;
            bounded = v.bounded;
            indexed = λ j _. v.indexed j;
            counted = v.counted;
            stored =
                AllStored-keep c.files files c.lru (λ e' s f. keep e' s (found_ne k _ c.lru e f))
                  v.stored;
          })
    | inr (el, e) ↦
        let gone : find_key k (remove_element el c.lru) ≡ none =
          find_key-remove el k k c.lru v.distinct e ∙ rw (str_eq_refl k) in
        rw (v.indexed k ∙ e, forget)
          (record {
            absent = gone;
            distinct = IsDistinct-remove el c.lru v.distinct;
            bounded = All-remove el (λ x. x.at < c.next) c.lru v.bounded;
            indexed = λ j ne.
                ground
                  (arith, v.indexed j, find_key-remove el k j c.lru v.distinct e, str_eq_iff k j);
            counted =
                counted_sub c.total el.value.size _
                  (v.counted ∙ ap pos (omega (arith, sum_sizes-remove el k c.lru v.distinct e)));
            stored =
                AllStored-keep c.files files (remove_element el c.lru)
                  (λ e' s f. keep e' s (found_ne k _ _ gone f))
                  (All-remove el (λ x. IsStored c.files x.value) c.lru v.stored);
          })
  ]

  pub push-IsValid :
      (e : Entry) (c : Cache)
      → IsReady e.key c
      → IsStored c.files e
      → IsValid (push_entry sha256 removable e c)
  unfolding push_entry
  push-IsValid e c r s =
      let el : Element = record { at = c.next; value = e } in
      record {
        distinct =
            IsDistinct-push el c.lru r.distinct
              (contains-fresh el c.next c.lru r.bounded (omega arith)) r.absent;
        bounded =
            All-append (λ x. x.at < suc c.next) c.lru (el ∷ [])
              (All-weaken c.next (suc c.next) c.lru (omega arith) r.bounded) (omega arith, tt);
        indexed = λ k. ground (
          arith,
          get-set e.key k el c.entries,
          find_key-push el k c.lru r.absent,
          str_eq_iff e.key k,
          r.indexed k,
        );
        counted =
            counted_add c.total (sum_sizes c.lru) e.size r.counted
            ∙ ap pos (sym (sum_sizes-push el c.lru));
        stored = All-append (λ x. IsStored c.files x.value) c.lru (el ∷ []) r.stored (s, tt);
      }

  -- What `forget` leaves alone.
  pub forget_fields :
      (c : Cache) (k : Str)
      → ((forget sha256 removable k c).files ≡ c.files)
        × ((forget sha256 removable k c).dir ≡ c.dir)
        × ((forget sha256 removable k c).max_bytes ≡ c.max_bytes)
  unfolding forget
  forget_fields c k = elim (Option-cases (Map.get k c.entries)) [
    | inl e ↦ rw (e, forget) (refl, refl, refl)
    | inr (el, e) ↦ rw (e, forget) (refl, refl, refl)
  ]
