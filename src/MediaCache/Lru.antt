-- ===== src/MediaCache/Lru.antt =====
-- The linked list of internal/bridge/mediacache.go, from its back to its front.
use tg_bridge.Prelude.{
  ℕ, ◌+◌, ◌≡◌, ◌≢◌, ◌≤◌, ◌<◌, refl, Bool, true, false, Option, none, some, List, [], ◌∷◌, ◌++◌, Str,
  str_eq, str_eq_iff, length, length-append, ◌==◌, if◌then◌else◌, arith, All, Bool-cases, inl, inr,
  subst,
}
use tg_bridge.MediaCache.Names.{Element}

-- `l.Remove(el)`: nothing where `el` is not in the list
unfoldable pub remove_element : Element → List Element → List Element
remove_element el [] = []
remove_element el (x ∷ l) = let rest = remove_element el l in if x.at == el.at then l else x ∷ rest

unfoldable pub contains_element : Element → List Element → Bool
contains_element el [] = false
contains_element el (x ∷ l) =
    let rest = contains_element el l in if x.at == el.at then true else rest

-- `l.MoveToFront(el)`
unfoldable pub move_to_front : Element → List Element → List Element
move_to_front el l = if contains_element el l then remove_element el l ++ (el ∷ []) else l

-- The element with a key, from the back on.
unfoldable pub find_key : Str → List Element → Option Element
find_key k [] = none
find_key k (x ∷ l) = let rest = find_key k l in if str_eq x.value.key k then some x else rest

unfoldable pub sum_sizes : List Element → ℕ
sum_sizes [] = 0
sum_sizes (x ∷ l) = x.value.size + sum_sizes l

-- No identity twice and no key twice.
abbrev pub IsDistinct : List Element → Type 0
IsDistinct [] = Unit
IsDistinct (x ∷ l) = (contains_element x l ≡ false) × (find_key x.value.key l ≡ none) × IsDistinct l

pub find_key-key :
    (k : Str) (l : List Element) (el : Element) → find_key k l ≡ some el → el.value.key ≡ k
unfolding find_key
find_key-key k [] el h = cc
find_key-key k (x ∷ l) el h = ground (arith, str_eq_iff x.value.key k, find_key-key k l el)

pub find_key-All {ℓ} :
    (P : Element → Type ℓ) (k : Str) (l : List Element) (el : Element)
    → All P l
    → find_key k l ≡ some el
    → P el
unfolding find_key
find_key-All P k [] el all h = cc
find_key-All P k (x ∷ l) el all h = elim (Bool-cases (str_eq x.value.key k)) [
  | inl e ↦ let same : x ≡ el = ground arith in subst P same all.0
  | inr e ↦ find_key-All P k l el all.1 (rw e at h)
]

-- An element that is not in the list is none of those that are found in it.
find_key-at :
    (k : Str) (l : List Element) (el y : Element)
    → find_key k l ≡ some el
    → contains_element y l ≡ false
    → y.at ≢ el.at
unfolding find_key contains_element
find_key-at k [] el y h c = cc
find_key-at k (x ∷ l) el y h c = ground (arith, find_key-at k l el y)

pub contains_found :
    (k : Str) (l : List Element) (el : Element)
    → find_key k l ≡ some el
    → contains_element el l ≡ true
unfolding find_key contains_element
contains_found k [] el h = cc
contains_found k (x ∷ l) el h = ground (arith, contains_found k l el)

contains_same :
    (x y : Element) (l : List Element) → x.at ≡ y.at → contains_element x l ≡ contains_element y l
unfolding contains_element
contains_same x y [] e = refl
contains_same x y (z ∷ l) e = ground (arith, contains_same x y l e)

contains-push :
    (el y : Element) (l : List Element)
    → contains_element y l ≡ false
    → el.at ≢ y.at
    → contains_element y (l ++ (el ∷ [])) ≡ false
unfolding contains_element
contains-push el y [] c ne = ground arith
contains-push el y (x ∷ l) c ne = ground (arith, contains-push el y l)

module _ (el : Element) where
  pub contains-remove :
      (y : Element) (l : List Element)
      → contains_element y l ≡ false
      → contains_element y (remove_element el l) ≡ false
  unfolding contains_element remove_element
  contains-remove y [] h = refl
  contains-remove y (x ∷ l) h = ground (arith, contains-remove y l)

  find_none-remove :
      (k : Str) (l : List Element) → find_key k l ≡ none → find_key k (remove_element el l) ≡ none
  unfolding find_key remove_element
  find_none-remove k [] h = refl
  find_none-remove k (x ∷ l) h = ground (arith, find_none-remove k l)

  pub IsDistinct-remove : (l : List Element) → IsDistinct l → IsDistinct (remove_element el l)
  unfolding remove_element
  IsDistinct-remove [] d = tt
  IsDistinct-remove (x ∷ l) d =
      ground (arith, contains-remove x l, find_none-remove x.value.key l, IsDistinct-remove l)

  pub All-remove {ℓ} :
      (P : Element → Type ℓ) (l : List Element) → All P l → All P (remove_element el l)
  unfolding remove_element
  All-remove P [] all = tt
  All-remove P (x ∷ l) all = elim (Bool-cases (x.at == el.at)) [
    | inl e ↦ rw e all.1
    | inr e ↦ rw e (all.0, All-remove P l all.1)
  ]

  -- Removing the element that a key finds removes that key, and no other.
  pub find_key-remove :
      (k j : Str) (l : List Element)
      → IsDistinct l
      → find_key k l ≡ some el
      → find_key j (remove_element el l) ≡ (if str_eq k j then none else find_key j l)
  unfolding find_key remove_element
  find_key-remove k j [] d h = cc
  find_key-remove k j (x ∷ l) d h = ground (
    arith,
    str_eq_iff x.value.key k,
    str_eq_iff x.value.key j,
    str_eq_iff k j,
    find_key-at k l el x,
    find_key-remove k j l,
  )

  pub sum_sizes-remove :
      (k : Str) (l : List Element)
      → IsDistinct l
      → find_key k l ≡ some el
      → sum_sizes (remove_element el l) + el.value.size ≡ sum_sizes l
  unfolding find_key remove_element sum_sizes
  sum_sizes-remove k [] d h = cc
  sum_sizes-remove k (x ∷ l) d h = ground (arith, find_key-at k l el x, sum_sizes-remove k l)

  pub contains-remove_self :
      (l : List Element) → IsDistinct l → contains_element el (remove_element el l) ≡ false
  unfolding contains_element remove_element
  contains-remove_self [] d = refl
  contains-remove_self (x ∷ l) d = ground (arith, contains_same x el l, contains-remove_self l)

  -- Pushing at the front.
  pub find_key-push :
      (k : Str) (l : List Element)
      → find_key el.value.key l ≡ none
      → find_key k (l ++ (el ∷ [])) ≡ (if str_eq el.value.key k then some el else find_key k l)
  unfolding find_key
  find_key-push k [] h = refl
  find_key-push k (x ∷ l) h = ground (
    arith,
    str_eq_iff x.value.key el.value.key,
    str_eq_iff x.value.key k,
    str_eq_iff el.value.key k,
    find_key-push k l,
  )

  pub IsDistinct-push :
      (l : List Element)
      → IsDistinct l
      → contains_element el l ≡ false
      → find_key el.value.key l ≡ none
      → IsDistinct (l ++ (el ∷ []))
  unfolding contains_element find_key
  IsDistinct-push [] d c f = (refl, refl, tt)
  IsDistinct-push (x ∷ l) d c f = ground (
    arith,
    contains-push el x l,
    find_key-push x.value.key l,
    str_eq_iff x.value.key el.value.key,
    str_eq_iff el.value.key x.value.key,
    IsDistinct-push l,
  )

  pub sum_sizes-push : (l : List Element) → sum_sizes (l ++ (el ∷ [])) ≡ sum_sizes l + el.value.size
  unfolding sum_sizes
  sum_sizes-push [] = omega arith
  sum_sizes-push (x ∷ l) = omega (arith, sum_sizes-push l)

pub contains-fresh :
    (el : Element) (n : ℕ) (l : List Element)
    → All (λ x. x.at < n) l
    → n ≤ el.at
    → contains_element el l ≡ false
unfolding contains_element
contains-fresh el n [] all h = refl
contains-fresh el n (x ∷ l) all h = ground (arith, contains-fresh el n l)

length-remove :
    (el : Element) (l : List Element)
    → contains_element el l ≡ true
    → length (remove_element el l) + 1 ≡ length l
unfolding contains_element remove_element
length-remove el [] h = cc
length-remove el (x ∷ l) h = ground (arith, length-remove el l)

pub length-move_to_front :
    (el : Element) (l : List Element) → length (move_to_front el l) ≡ length l
unfolding move_to_front
length-move_to_front el l =
    ground (arith, length-remove el l, length-append (remove_element el l) (el ∷ []))
