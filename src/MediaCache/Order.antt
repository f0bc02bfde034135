-- ===== src/MediaCache/Order.antt =====
-- What a client of the cache of internal/bridge/mediacache.go can rely on: reads after writes, the
-- limit, and the order of eviction.
use tg_bridge.Prelude.{
  ℕ, zero, suc, ◌+◌, ◌≡◌, ◌≤◌, ◌<◌, refl, ap, ◌∙◌, Bool, Option, none, some, List, [], ◌∷◌, ◌++◌,
  Str, str_eq_refl, str_eq_iff, length, length-append, length-drop, drop, arith, inl, inr, subst,
  Option-cases, ◌⊎◌, dec_lt,
}
use tg_bridge.Prelude.Int.{pos, ◌≤ℤ◌}
use tg_bridge.Prelude.Map
use tg_bridge.MediaCache.{
  Cache, FilePath, PutIo, cache_key, write_file, forget, push_entry, put, get,
}
use tg_bridge.MediaCache.Names.{Entry, Element, ext_from_mime}
use tg_bridge.MediaCache.Lru.{
  find_key, IsDistinct, remove_element, move_to_front, sum_sizes, find_key-All, sum_sizes-push,
}
use tg_bridge.MediaCache.Valid.{IsStored, IsValid, forget_fields}
use tg_bridge.MediaCache.Evict.{IsEvicted}
use tg_bridge.MediaCache.Files.{write_file-stored}
use tg_bridge.MediaCache.Put.{put_ok, put_failed, put-IsEvicted, put-IsValid, pushed, file_name}

drop-nil : (n : ℕ) → ◌≡◌ {A = List Element} (drop n []) []
drop-nil zero = refl
drop-nil (suc n) = refl

-- Dropping from the back keeps the front element, as long as anything is left.
drop-push :
    (n : ℕ) (l : List Element) (el : Element)
    → 1 ≤ length (drop n (l ++ (el ∷ [])))
    → drop n (l ++ (el ∷ [])) ≡ drop n l ++ (el ∷ [])
drop-push zero l el h = refl
drop-push (suc n) [] el h = absurd (omega (arith, h, ap length (drop-nil n)))
drop-push (suc n) (x ∷ l) el h = drop-push n l el h

front_found :
    (l : List Element) (el : Element)
    → IsDistinct (l ++ (el ∷ []))
    → find_key el.value.key (l ++ (el ∷ [])) ≡ some el
unfolding find_key
front_found [] el d = rw (str_eq_refl el.value.key)
front_found (x ∷ l) el d = ground (arith, str_eq_iff x.value.key el.value.key, front_found l el d.2)

read_back :
    (d d' : Str) (e e' : Entry) (p : FilePath)
    → d' ≡ d
    → e' ≡ e
    → ◌≡◌ {A = FilePath} (record { dir = d; name = e.filename }) p
    → ◌≡◌ {A = Option (FilePath × Str)}
        (some (record { dir = d'; name = e'.filename }, e'.mime))
        (some (p, e.mime))
read_back d d' e e' p hd he hp = rw (hd, he, hp)

-- The elements that a cache holds beside those of a key, in order.
abbrev pub Others : Str → List Element → List Element → Type 0
Others k l others =
    ((find_key k l ≡ none) × (others ≡ l))
    ⊎ ((el : Element) × (find_key k l ≡ some el) × (others ≡ remove_element el l))

module _ (sha256 : Str → Str) (removable : Str → Bool) where
  forget-Others :
      (c : Cache) (files : List (Str × ℕ)) (k : Str)
      → IsValid c
      → Others k c.lru (forget sha256 removable k (record c { files = files })).lru
  unfolding forget
  forget-Others c files k v = elim (Option-cases (find_key k c.lru)) [
    | inl e ↦ rw (v.indexed k ∙ e, forget) (inl (e, refl))
    | inr (el, e) ↦ rw (v.indexed k ∙ e, forget) (inr (el, e, refl))
  ]

  -- What `Put` leaves of the list after a success with `n` bytes: the others but for `count` of
  -- the least recently used, then the new element in front. Fewer evictions would not do, and the
  -- rest is within the limit or is the new element alone.
  pub record IsPut (c c' : Cache) (media_id mime : Str) (n : ℕ) : Type 0 where
    pub others : List Element
    pub front : Element
    pub count : ℕ
    pub are_others : Others (cache_key sha256 removable media_id) c.lru others
    pub front_entry : front.value ≡ record {
      key = cache_key sha256 removable media_id;
      filename = cache_key sha256 removable media_id ++ ext_from_mime mime;
      size = n;
      mime = mime;
    }
    pub order : c'.lru ≡ drop count others ++ (front ∷ [])
    pub needed : (m : ℕ) → m < count → ¬ (pos (sum_sizes (drop m others) + n) ≤ℤ c.max_bytes)
    pub enough : (c'.total ≤ℤ c.max_bytes) ⊎ (length c'.lru ≡ 1)
    pub same_dir : c'.dir ≡ c.dir
    pub same_limit : c'.max_bytes ≡ c.max_bytes

  nonempty :
      (c c' : Cache) (l : List Element) (el : Element)
      → c.lru ≡ l ++ (el ∷ [])
      → IsEvicted 1 c c'
      → 1 ≤ length c'.lru
  nonempty c c' l el e r = elim (dec_lt 0 r.count) [
    | yes some_gone ↦ r.spared some_gone
    | no none_gone ↦
        let z : r.count ≡ 0 = omega arith in
        omega (arith, ap length (r.kept ∙ ap (λ n. drop n c.lru) z ∙ e), length-append l (el ∷ []))
  ]

  left_of :
      (c c' : Cache) (l : List Element) (el : Element) (m : ℕ)
      → c.lru ≡ l ++ (el ∷ [])
      → (r : IsEvicted 1 c c') → m ≤ r.count
      → drop m c.lru ≡ drop m l ++ (el ∷ [])
  left_of c c' l el m e r le =
      ap (drop m) e
      ∙ drop-push m l el (
          omega (
            arith,
            nonempty c c' l el e r,
            ap length r.kept,
            ap length e,
            length-drop r.count c.lru,
            length-drop m (l ++ (el ∷ [])),
          ))

  -- Among the elements in the list, `Put` evicts the least recently used ones first, only while
  -- the limit is passed, and never the new one: the list after a success is as `IsPut` says.
  pub put-IsPut :
      (c : Cache) (media_id mime : Str) (io : PutIo) (n : ℕ)
      → IsValid c
      → (write_file sha256 removable (file_name sha256 removable media_id mime) io c.files).1
        ≡ some n
      → IsPut c (put sha256 removable c media_id mime io).0 media_id mime n
  unfolding push_entry
  put-IsPut c media_id mime io n v e = record {
    others = left.lru;
    front = front;
    count = r.count;
    are_others = forget-Others c _ key v;
    front_entry = refl;
    order = r.kept ∙ left_of _ _ left.lru front r.count refl r (omega arith);
    needed = λ m h.
        let sums : sum_sizes (drop m (left.lru ++ (front ∷ []))) ≡ sum_sizes (drop m left.lru) + n =
          ap sum_sizes (left_of _ _ left.lru front m refl r (omega arith))
          ∙ sum_sizes-push front (drop m left.lru) in
        subst (λ x. ¬ (pos x ≤ℤ c.max_bytes)) sums
          (subst (λ x. ¬ (pos (sum_sizes (drop m (left.lru ++ (front ∷ [])))) ≤ℤ x))
            (forget_fields sha256 removable _ key).2 (r.needed m h));
    same_dir = r.same_dir ∙ (forget_fields sha256 removable _ key).1;
    same_limit = r.same_limit ∙ (forget_fields sha256 removable _ key).2;
    enough = elim r.enough [
      | inl h ↦ inl (
          subst (λ x. (put sha256 removable c media_id mime io).0.total ≤ℤ x)
            (forget_fields sha256 removable _ key).2 h)
      | inr h ↦ inr (omega (arith, nonempty _ _ left.lru front refl r))
    ];
  }
    where
      key : Str
      key = cache_key sha256 removable media_id

      left : Cache
      left = forget sha256 removable key (record c {
        files =
            (write_file sha256 removable (file_name sha256 removable media_id mime) io c.files).0;
      })

      front : Element
      front = record {
        at = left.next;
        value = record {
          key = key;
          filename = file_name sha256 removable media_id mime;
          size = n;
          mime = mime;
        };
      }

      r :
          IsEvicted 1
            (pushed sha256 removable c media_id mime io n)
            (put sha256 removable c media_id mime io).0
      r = put-IsEvicted sha256 removable c media_id mime io n v e

  -- A hit, in one equation.
  pub get_hit :
      (c : Cache) (media_id : Str) (el : Element)
      → IsValid c
      → find_key (cache_key sha256 removable media_id) c.lru ≡ some el
      → get sha256 removable c media_id ≡ (
        record c { lru = move_to_front el c.lru },
        some (record { dir = c.dir; name = el.value.filename }, el.value.mime),
      )
  unfolding get
  get_hit c media_id el v e = rw (v.indexed (cache_key sha256 removable media_id) ∙ e, get)

  pub get_miss :
      (c : Cache) (media_id : Str)
      → IsValid c
      → find_key (cache_key sha256 removable media_id) c.lru ≡ none
      → get sha256 removable c media_id ≡ (c, none)
  unfolding get
  get_miss c media_id v e = rw (v.indexed (cache_key sha256 removable media_id) ∙ e, get)

  abbrev path_of : Cache → Str → Str → FilePath
  path_of c media_id mime = record { dir = c.dir; name = file_name sha256 removable media_id mime }

  put-front_found :
      (c c' : Cache) (media_id mime : Str) (n : ℕ)
      → IsValid c'
      → (r : IsPut c c' media_id mime n)
      → find_key (cache_key sha256 removable media_id) c'.lru ≡ some r.front
  put-front_found c c' media_id mime n v r =
      subst (λ k. find_key k c'.lru ≡ some r.front) (ap (λ (e : Entry). e.key) r.front_entry)
        (ap (find_key r.front.value.key) r.order
          ∙ front_found (drop r.count r.others) r.front (subst IsDistinct r.order v.distinct))

  -- `Get` right after a successful `Put` of the same id finds the file that was written, with the
  -- mime type that was given, and the file has the size that was written, whatever was evicted.
  pub get-put :
      (c : Cache) (media_id mime : Str) (io : PutIo) (p : FilePath)
      → IsValid c
      → (put sha256 removable c media_id mime io).1 ≡ some p
      → let c' = (put sha256 removable c media_id mime io).0 in
        ((get sha256 removable c' media_id).1 ≡ some (p, mime))
        × ((n : ℕ) × (io.written ≡ some n) × (Map.get p.name c'.files ≡ some n))
  get-put c media_id mime io p v ok =
      elim (Option-cases
        (write_file sha256 removable (file_name sha256 removable media_id mime) io c.files).1) [
          | inl e ↦ absurd (ground (arith, put_failed sha256 removable c media_id mime io e))
          | inr (n, e) ↦
              let c' = (put sha256 removable c media_id mime io).0 in
              let v' = put-IsValid sha256 removable c media_id mime io v in
              let r = put-IsPut c media_id mime io n v e in
              let found = put-front_found c c' media_id mime n v' r in
              let stored =
                find_key-All (λ x. IsStored c'.files x.value) _ c'.lru r.front v'.stored found in
              let path : path_of c media_id mime ≡ p =
                ground (arith, put_ok sha256 removable c media_id mime io n e) in
              (
                ap (λ (q : Cache × Option (FilePath × Str)). q.1)
                      (get_hit c' media_id r.front v' found)
                    ∙ read_back c.dir c'.dir _ r.front.value p r.same_dir r.front_entry path,
                (
                  n,
                  (write_file-stored sha256 removable _ io c.files n e).0,
                  subst (λ (q : FilePath). Map.get q.name c'.files ≡ some n) path
                      (subst (λ (x : Entry). Map.get x.filename c'.files ≡ some x.size)
                        r.front_entry stored.present),
                ),
              )
        ]
