-- ===== src/MediaKey/Tests.antt =====
-- The key of internal/bridge/mediakey.go at two starts.
use tg_bridge.Prelude.{◌≡◌, refl, subst, none, some, Str, codes, length, [], ◌∷◌}
use tg_bridge.MediaKey.{missing, bytes, KeyIo, media_key_size, load_or_create_media_key}
use tg_bridge.MediaKey.Stable.{IsFull, load-load}

abbrev key : Str
key = codes "0123456789abcdef0123456789abcdef"

abbrev io : KeyIo
io = record { random = some key; spoiled = none }

abbrev no_random : KeyIo
no_random = record { random = none; spoiled = none }

-- A write that fails half way leaves a file that no later start accepts.
half_written :
    let left =
      (load_or_create_media_key (record io { spoiled = some (bytes (1 ∷ [])) }) missing).0 in
    load_or_create_media_key io left ≡ (bytes (1 ∷ []), none)
unfolding load_or_create_media_key
half_written = refl

io-IsFull : IsFull io
io-IsFull k e = let same : key ≡ k = cc in subst (λ x. length x ≡ media_key_size) same refl

load-load_example :
    (length key ≡ media_key_size)
    × (load_or_create_media_key no_random (load_or_create_media_key io missing).0
        ≡ (bytes key, some key))
load-load_example =
    load-load io no_random missing key io-IsFull (unfold load_or_create_media_key in refl)
