-- ===== src/MediaCache/Names.antt =====
-- The file names of internal/bridge/mediacache.go, and the entries that carry them.
use tg_bridge.Prelude.{
  ℕ, ◌+◌, ◌-◌, ◌/◌, ◌%◌, ◌≡◌, ◌≢◌, refl, Bool, true, false, ◌&&◌, ◌||◌, Option, none, some, [], ◌∷◌,
  ◌++◌, map, Str, codes, str_eq, str_eq_iff, length, drop, leb, ltb, ◌==◌, if◌then◌else◌, arith,
  Option-cases, inl, inr,
}

-- `mcEntry`
pub record Entry : Type 0 where
  pub key : Str
  pub filename : Str
  pub size : ℕ
  pub mime : Str

-- `list.Element`
pub record Element : Type 0 where
  pub at : ℕ
  pub value : Entry

-- `hex.EncodeToString`
unfoldable pub hex_digit : ℕ → ℕ
hex_digit n = if ltb n 10 then b'0' + n else b'a' + n - 10

unfoldable pub hex : Str → Str
hex [] = []
hex (b ∷ s) = hex_digit (b / 16) ∷ hex_digit (b % 16) ∷ hex s

-- A file name before its last dot, and from it on; `none` where there is no dot.
unfoldable pub split_ext : Str → Option (Str × Str)
split_ext [] = none
split_ext (x ∷ s) = elim (split_ext s) [
  | some (stem, ext) ↦ some (x ∷ stem, ext)
  | none ↦ if x == b'.' then some ([], x ∷ s) else none
]

-- `filepath.Ext(name)`, for a name without a slash
unfoldable pub ext_of : Str → Str
ext_of name = elim (split_ext name) [ none ↦ [] | some (stem, ext) ↦ ext ]

-- `strings.TrimSuffix(name, filepath.Ext(name))`
unfoldable pub stem_of : Str → Str
stem_of name = elim (split_ext name) [ none ↦ name | some (stem, ext) ↦ stem ]

-- `strings.HasSuffix`
unfoldable pub has_suffix : Str → Str → Bool
has_suffix s t = leb (length t) (length s) && str_eq (drop (length s - length t) s) t

abbrev pub tmp_suffix : Str
tmp_suffix = codes ".tmp"

-- `strings.ToLower`, of ASCII letters
unfoldable pub to_lower : ℕ → ℕ
to_lower c = if leb b'A' c && leb c b'Z' then c + 32 else c

unfoldable pub mime_from_ext : Str → Str
mime_from_ext ext =
    let low = map to_lower ext in
    if str_eq low (codes ".jpg") || str_eq low (codes ".jpeg")
    then codes "image/jpeg"
    else if str_eq low (codes ".png")
    then codes "image/png"
    else if str_eq low (codes ".webp")
    then codes "image/webp"
    else if str_eq low (codes ".gif")
    then codes "image/gif"
    else codes "application/octet-stream"

unfoldable pub ext_from_mime : Str → Str
ext_from_mime mime =
    if str_eq mime (codes "image/jpeg")
    then codes ".jpg"
    else if str_eq mime (codes "image/png")
    then codes ".png"
    else if str_eq mime (codes "image/webp")
    then codes ".webp"
    else if str_eq mime (codes "image/gif")
    then codes ".gif"
    else codes ".bin"

-- A last extension without another dot splits off.
pub split_ext-append :
    (s t : Str) → split_ext t ≡ none → split_ext (s ++ (b'.' ∷ t)) ≡ some (s, b'.' ∷ t)
unfolding split_ext
split_ext-append [] t h = rw h
split_ext-append (x ∷ s) t h = rw (split_ext-append s t h)

pub split_ext-join : (name stem ext : Str) → split_ext name ≡ some (stem, ext) → name ≡ stem ++ ext
unfolding split_ext
split_ext-join [] stem ext h = cc
split_ext-join (x ∷ s) stem ext h = elim (Option-cases (split_ext s)) [
  | inl e ↦ ground arith
  | inr ((st, ex), e) ↦ ground (arith, split_ext-join s st ex e)
]

str_ne : (s t : Str) → str_eq s t ≡ false → s ≢ t
str_ne s t h e = cc ((str_eq_iff s t).1 e)

if_elim {ℓ κ} :
    {A : Type ℓ} (P : A → Type κ) (b : Bool) (x y : A) → P x → P y → P (if b then x else y)
if_elim P true x y p q = p
if_elim P false x y p q = q

-- The name of a cached file splits into its key and an extension that is not the temporary one.
pub key-ext_from_mime :
    (key mime : Str)
    → (split_ext (key ++ ext_from_mime mime) ≡ some (key, ext_from_mime mime))
      × (ext_from_mime mime ≢ tmp_suffix)
unfolding ext_from_mime split_ext str_eq
key-ext_from_mime key mime =
    if_elim P _ _ _ (split_ext-append key (codes "jpg") refl, str_ne (codes ".jpg") tmp_suffix refl)
      (if_elim P _ _ _
        (split_ext-append key (codes "png") refl, str_ne (codes ".png") tmp_suffix refl)
        (if_elim P _ _ _
          (split_ext-append key (codes "webp") refl, str_ne (codes ".webp") tmp_suffix refl)
          (if_elim P _ _ _
            (split_ext-append key (codes "gif") refl, str_ne (codes ".gif") tmp_suffix refl)
            (split_ext-append key (codes "bin") refl, str_ne (codes ".bin") tmp_suffix refl))))
  where
    P : Str → Type 0
    P e = (split_ext (key ++ e) ≡ some (key, e)) × (e ≢ tmp_suffix)

pub ext_of-tmp : (s : Str) → ext_of (s ++ tmp_suffix) ≡ tmp_suffix
unfolding ext_of split_ext
ext_of-tmp s = rw (split_ext-append s (codes "tmp") refl, ext_of)
