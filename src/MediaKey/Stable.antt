-- ===== src/MediaKey/Stable.antt =====
-- The key of internal/bridge/mediakey.go stays the same from one start to the next.
use tg_bridge.Prelude.{
  ◌≡◌, inl, inr, refl, ap, ◌∙◌, subst, true, none, some, Str, length, ◌==◌, arith, Bool-cases,
  Option-cases,
}
use tg_bridge.MediaKey.{
  KeyFile, missing, unreadable, bytes, KeyIo, media_key_size, load_or_create_media_key,
}

-- The random source gives as many bytes as it is asked for, if it gives any.
abbrev pub IsFull : KeyIo → Type 0
IsFull io = (key : Str) → io.random ≡ some key → length key ≡ media_key_size

reload :
    (io : KeyIo) (key : Str)
    → length key ≡ media_key_size
    → load_or_create_media_key io (bytes key) ≡ (bytes key, some key)
unfolding load_or_create_media_key
reload io key size =
    let same_size : (length key == media_key_size) ≡ true = ground arith in rw same_size refl

-- A key that a start gives has 32 bytes, and each later start gives the same one and leaves the
-- file, whatever the random source and the writes do then.
pub load-load :
    (io later : KeyIo) (file : KeyFile) (key : Str)
    → IsFull io
    → (load_or_create_media_key io file).1 ≡ some key
    → (length key ≡ media_key_size)
      × (load_or_create_media_key later (load_or_create_media_key io file).0
          ≡ (bytes key, some key))
unfolding load_or_create_media_key
load-load io later (bytes stored) key full e = elim (Bool-cases (length stored == media_key_size)) [
  | inl same_size ↦
      let got : some stored ≡ some key = rw same_size at e in
      let here : stored ≡ key = cc in
      let size : length stored ≡ media_key_size = ground arith in
      let file : (load_or_create_media_key io (bytes stored)).0 ≡ bytes key =
        rw same_size (ap bytes here) in
      let size' : length key ≡ media_key_size = subst (λ x. length x ≡ media_key_size) here size in
      (size', ap (load_or_create_media_key later) file ∙ reload later key size')
  | inr other ↦ let f : (load_or_create_media_key io (bytes stored)).1 ≡ none = rw other refl in cc
]
load-load io later unreadable key full e = cc
load-load io later missing key full e = elim (Option-cases io.random) [
  | inl r ↦ let f : (load_or_create_media_key io missing).1 ≡ none = rw r refl in cc
  | inr (k, r) ↦ elim (Option-cases io.spoiled) [
    | inr (left, s) ↦ let f : (load_or_create_media_key io missing).1 ≡ none = rw (r, s) refl in cc
    | inl s ↦
        let got : some k ≡ some key = rw (load_or_create_media_key, r, s) at e in
        let here : k ≡ key = cc in
        let size : length key ≡ media_key_size = full key (r ∙ ap some here) in
        let file : (load_or_create_media_key io missing).0 ≡ bytes key =
          rw (load_or_create_media_key, r, s) (ap bytes here) in
        (size, ap (load_or_create_media_key later) file ∙ reload later key size)
  ]
]
