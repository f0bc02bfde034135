-- ===== src/MediaId/Layout.antt =====
-- The fixed fields of a media reference, of internal/bridge/media.go: nineteen bytes in front.
use tg_bridge.Prelude.{ℕ, ◌+◌, ◌/◌, ◌%◌, ◌*◌, ◌^◌, ◌≡◌, ◌<◌, ◌∷◌, Str, length, arith, lt→ltb}
use tg_bridge.Prelude.Int.{of_u64}
use tg_bridge.MediaId.{
  put_uint64, put_uint16, uint64, uint16, ok, err, truncated, unmarshal_media_ref, unmarshal_tail,
}

pub uint64-put_uint64 : (w : ℕ) → w < 2 ^ 64 → uint64 (put_uint64 w) ≡ ok w
unfolding uint64 put_uint64
uint64-put_uint64 w h = ground arith

pub uint16-put_uint16 : (w : ℕ) → w < 2 ^ 16 → uint16 (put_uint16 w) ≡ ok w
unfolding uint16 put_uint16
uint16-put_uint16 w h = ground arith

abbrev pub be64 : ℕ → ℕ → ℕ → ℕ → ℕ → ℕ → ℕ → ℕ → ℕ
be64 a b c d e f g h =
    a * 2 ^ 56 + b * 2 ^ 48 + c * 2 ^ 40 + d * 2 ^ 32 + e * 2 ^ 24 + f * 2 ^ 16 + g * 2 ^ 8 + h

-- Nineteen bytes are enough for the fixed fields, and the rest goes to `unmarshal_tail`.
pub unmarshal-cons :
    (k a b c d e f g h a' b' c' d' e' f' g' h' l l' : ℕ) (t : Str)
    → unmarshal_media_ref
        (k ∷ a ∷ b ∷ c ∷ d ∷ e ∷ f ∷ g ∷ h ∷ a' ∷ b' ∷ c' ∷ d' ∷ e' ∷ f' ∷ g' ∷ h' ∷ l ∷ l' ∷ t)
      ≡ unmarshal_tail k
          (of_u64 (be64 a b c d e f g h))
          (of_u64 (be64 a' b' c' d' e' f' g' h'))
          (l * 2 ^ 8 + l')
          t
unfolding unmarshal_media_ref
unmarshal-cons k a b c d e f g h a' b' c' d' e' f' g' h' l l' t = ground arith

-- Every shorter input is refused as truncated.
pub unmarshal_short : (b : Str) → length b < 19 → unmarshal_media_ref b ≡ err truncated
unfolding unmarshal_media_ref
unmarshal_short b h = rw (lt→ltb (length b) 19 h)

-- The eight bytes of a number stand for it.
pub be64-digits :
    (w : ℕ)
    → w < 2 ^ 64
    → be64
        (w / 2 ^ 56 % 256)
        (w / 2 ^ 48 % 256)
        (w / 2 ^ 40 % 256)
        (w / 2 ^ 32 % 256)
        (w / 2 ^ 24 % 256)
        (w / 2 ^ 16 % 256)
        (w / 2 ^ 8 % 256)
        (w % 256)
      ≡ w
be64-digits w h = omega arith

pub be16-digits : (w : ℕ) → w < 2 ^ 16 → (w / 2 ^ 8 % 256) * 2 ^ 8 + w % 256 ≡ w
be16-digits w h = omega arith
