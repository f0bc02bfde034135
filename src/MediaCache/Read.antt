-- ===== src/MediaCache/Read.antt =====
-- `Get` of internal/bridge/mediacache.go.
use tg_bridge.Prelude.{
  ◌≡◌, ◌<◌, sym, ap, ◌∙◌, Bool, Option, none, some, List, [], ◌∷◌, ◌++◌, Str, str_eq_refl,
  str_eq_iff, arith, inl, inr, Option-cases, All-append,
}
use tg_bridge.Prelude.Int.{pos}
use tg_bridge.Prelude.Map
use tg_bridge.MediaCache.{Cache, FilePath, cache_key, get}
use tg_bridge.MediaCache.Names.{Element}
use tg_bridge.MediaCache.Lru.{
  find_key, remove_element, move_to_front, find_key-key, find_key-All, contains_found,
  find_key-remove, IsDistinct-remove, IsDistinct-push, find_key-push, contains-remove_self,
  All-remove, sum_sizes-remove, sum_sizes-push,
}
use tg_bridge.MediaCache.Valid.{IsStored, IsValid}
use tg_bridge.MediaCache.Order.{get_hit, get_miss}

move_found :
    (k : Str) (l : List Element) (el : Element)
    → find_key k l ≡ some el
    → move_to_front el l ≡ remove_element el l ++ (el ∷ [])
unfolding move_to_front
move_found k l el e = rw (contains_found k l el e)

-- Moving the element of a key to the front keeps the invariant.
move-IsValid :
    (c : Cache) (k : Str) (el : Element)
    → IsValid c
    → find_key k c.lru ≡ some el
    → IsValid (record c { lru = move_to_front el c.lru })
move-IsValid c k el v e =
    let rest = remove_element el c.lru in
    let same = find_key-key k c.lru el e in
    let gone : find_key el.value.key rest ≡ none =
      ap (λ j. find_key j rest) same
      ∙ find_key-remove el k k c.lru v.distinct e
      ∙ rw (str_eq_refl k) in
    rw (move_found k c.lru el e) (record {
      distinct =
          IsDistinct-push el rest (IsDistinct-remove el c.lru v.distinct)
            (contains-remove_self el c.lru v.distinct) gone;
      bounded =
          All-append (λ x. x.at < c.next) rest (el ∷ [])
            (All-remove el (λ x. x.at < c.next) c.lru v.bounded)
            (find_key-All (λ x. x.at < c.next) k c.lru el v.bounded e, tt);
      indexed = λ j. ground (
        arith,
        v.indexed j,
        find_key-push el j rest gone,
        find_key-remove el k j c.lru v.distinct e,
        str_eq_iff el.value.key j,
        str_eq_iff k j,
      );
      counted =
          v.counted
          ∙ ap pos (sym (sum_sizes-push el rest ∙ sum_sizes-remove el k c.lru v.distinct e));
      stored =
          All-append (λ x. IsStored c.files x.value) rest (el ∷ [])
            (All-remove el (λ x. IsStored c.files x.value) c.lru v.stored)
            (find_key-All (λ x. IsStored c.files x.value) k c.lru el v.stored e, tt);
    })

module _ (sha256 : Str → Str) (removable : Str → Bool) (c : Cache) (media_id : Str)
    (v : IsValid c) where
  -- `Get` keeps the invariant, on a hit and on a miss.
  pub get-IsValid : IsValid (get sha256 removable c media_id).0
  get-IsValid = elim (Option-cases (find_key (cache_key sha256 removable media_id) c.lru)) [
    | inl e ↦ rw (get_miss sha256 removable c media_id v e) v
    | inr (el, e) ↦ rw (get_hit sha256 removable c media_id el v e) (move-IsValid c _ el v e)
  ]

  -- What `Get` answers is in the cache: an element with the id's key, whose file is in the
  -- directory with the size that the entry says. The element becomes the most recently used, and
  -- the order of the others stays.
  pub get-present :
      (p : FilePath) (mime : Str)
      → (get sha256 removable c media_id).1 ≡ some (p, mime)
      → (el : Element) × (find_key (cache_key sha256 removable media_id) c.lru ≡ some el)
        × (p.name ≡ el.value.filename)
        × (mime ≡ el.value.mime)
        × (Map.get p.name c.files ≡ some el.value.size)
        × ((get sha256 removable c media_id).0.lru ≡ remove_element el c.lru ++ (el ∷ []))
  get-present p mime h =
      elim (Option-cases (find_key (cache_key sha256 removable media_id) c.lru)) [
        | inl e ↦ absurd (cc (get_miss sha256 removable c media_id v e))
        | inr (el, e) ↦
            let hit = get_hit sha256 removable c media_id el v e in
            let stored = find_key-All (λ x. IsStored c.files x.value) _ c.lru el v.stored e in
            let name : p.name ≡ el.value.filename = ground (arith, hit) in
            (
              el,
              e,
              name,
              ground (arith, hit),
              ap (λ s. Map.get s c.files) name ∙ stored.present,
              ap (λ (q : Cache × Option (FilePath × Str)). q.0.lru) hit ∙ move_found _ c.lru el e,
            )
      ]
