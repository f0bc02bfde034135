-- ===== src/MediaId.antt =====
-- The opaque media ids of internal/bridge/media.go: the byte layout of a media reference, and the
-- id that signs it. The proofs are in the children.
pub mod Layout
pub mod RoundTrip
pub mod Decode
pub mod Signed
pub mod Tests
use tg_bridge.Prelude.{
  ℕ, ◌+◌, ◌-◌, ◌*◌, ◌/◌, ◌%◌, ◌^◌, ◌≡◌, Bool, true, false, Option, none, some, List, [], ◌∷◌, ◌++◌,
  Str, str_eq, length, take, drop, ltb, leb, if◌then◌else◌,
}
use tg_bridge.Prelude.Int.{ℤ, to_u64, of_u64}

pub data MediaError : Type 0 where
  bad_encoding too_short signature_mismatch : MediaError
  truncated truncated_file_ref truncated_size : MediaError

-- Go's (value, error) pair, or the panic of a slice or an index out of range.
pub data Outcome {ℓ} (A : Type ℓ) : Type ℓ where
  ok : A → Outcome A
  err : MediaError → Outcome A
  panic : Outcome A

infixl 5 ◌>>=◌
abbrev pub ◌>>=◌ {ℓ κ} : {A : Type ℓ} {B : Type κ} → Outcome A → (A → Outcome B) → Outcome B
ok a >>= f = f a
err e >>= f = err e
panic >>= f = panic

-- `mediaKind` is a uint8.
pub record MediaRef : Type 0 where
  pub kind : ℕ
  pub id : ℤ
  pub access_hash : ℤ
  pub file_ref : Str
  pub thumb_size : Str

abbrev pub media_kind_photo : ℕ
media_kind_photo = 1

abbrev pub media_tag_size : ℕ
media_tag_size = 16

-- `binary.BigEndian`: `PutUint64`, `PutUint16`, `Uint64` and `Uint16`; the last two panic on a
-- slice that is too short.
unfoldable pub put_uint64 : ℕ → Str
put_uint64 w =
    (w / 2 ^ 56 % 256)
    ∷ (w / 2 ^ 48 % 256)
    ∷ (w / 2 ^ 40 % 256)
    ∷ (w / 2 ^ 32 % 256)
    ∷ (w / 2 ^ 24 % 256)
    ∷ (w / 2 ^ 16 % 256)
    ∷ (w / 2 ^ 8 % 256)
    ∷ (w % 256)
    ∷ []

unfoldable pub put_uint16 : ℕ → Str
put_uint16 w = (w / 2 ^ 8 % 256) ∷ (w % 256) ∷ []

unfoldable pub uint64 : Str → Outcome ℕ
uint64 (a ∷ b ∷ c ∷ d ∷ e ∷ f ∷ g ∷ h ∷ rest) =
    ok (a * 2 ^ 56 + b * 2 ^ 48 + c * 2 ^ 40 + d * 2 ^ 32 + e * 2 ^ 24 + f * 2 ^ 16 + g * 2 ^ 8 + h)
uint64 _ = panic

unfoldable pub uint16 : Str → Outcome ℕ
uint16 (a ∷ b ∷ rest) = ok (a * 2 ^ 8 + b)
uint16 _ = panic

-- `b[0]`, `b[:n]` and `b[n:]`
unfoldable pub first : Str → Outcome ℕ
first [] = panic
first (x ∷ xs) = ok x

unfoldable pub slice_to : ℕ → Str → Outcome Str
slice_to n b = if leb n (length b) then ok (take n b) else panic

unfoldable pub slice_from : ℕ → Str → Outcome Str
slice_from n b = if leb n (length b) then ok (drop n b) else panic

-- [kind:1][id:8][access_hash:8][fileref_len:2][fileref][size_len:1][size]
unfoldable pub marshal_media_ref : MediaRef → Str
marshal_media_ref r =
    (r.kind % 256)
    ∷ (put_uint64 (to_u64 r.id)
        ++ (put_uint64 (to_u64 r.access_hash)
            ++ (put_uint16 (length r.file_ref % 2 ^ 16)
                ++ (r.file_ref ++ ((length r.thumb_size % 256) ∷ r.thumb_size)))))

-- The part of `unmarshalMediaRef` behind the fixed fields: the file reference and the size.
unfoldable pub unmarshal_tail : ℕ → ℤ → ℤ → ℕ → Str → Outcome MediaRef
unfolding first slice_to slice_from
unmarshal_tail kind id access_hash fr_len b =
    if ltb (length b) (fr_len + 1) then err truncated_file_ref else do
      file_ref ← slice_to fr_len b
      b ← slice_from fr_len b
      sz_len ← first b
      b ← slice_from 1 b
      if ltb (length b) sz_len then err truncated_size else do
        thumb_size ← slice_to sz_len b
        ok (record {
          kind = kind;
          id = id;
          access_hash = access_hash;
          file_ref = file_ref;
          thumb_size = thumb_size;
        })

unfoldable pub unmarshal_media_ref : Str → Outcome MediaRef
unfolding first slice_to slice_from uint64 uint16
unmarshal_media_ref b = if ltb (length b) (1 + 8 + 8 + 2) then err truncated else do
  kind ← first b
  b ← slice_from 1 b
  id_bytes ← slice_to 8 b
  id ← uint64 id_bytes
  b ← slice_from 8 b
  hash_bytes ← slice_to 8 b
  access_hash ← uint64 hash_bytes
  b ← slice_from 8 b
  len_bytes ← slice_to 2 b
  fr_len ← uint16 len_bytes
  b ← slice_from 2 b
  unmarshal_tail kind (of_u64 id) (of_u64 access_hash) fr_len b

-- What the source takes from crypto/hmac with crypto/sha256, and from base64.RawURLEncoding: an
-- HMAC has 32 bytes, and decoding reads back what encoding wrote. Nothing is assumed of how hard
-- an HMAC is to forge.
pub record MediaCrypto : Type 0 where
  pub hmac_sha256 : Str → Str → Str
  pub base64_encode : Str → Str
  pub base64_decode : Str → Option Str
  pub length-hmac : (key payload : Str) → length (hmac_sha256 key payload) ≡ 32
  pub decode-encode : (raw : Str) → base64_decode (base64_encode raw) ≡ some raw

module _ (c : MediaCrypto) (media_key : Str) where
  -- `mac.Sum(nil)[:mediaTagSize]`
  unfoldable pub media_tag : Str → Str
  media_tag payload = take media_tag_size (c.hmac_sha256 media_key payload)

  -- base64url(payload || HMAC16(payload))
  unfoldable pub encode_media_id : MediaRef → Str
  encode_media_id r =
      let payload = marshal_media_ref r in c.base64_encode (payload ++ media_tag payload)

  -- The part of `decodeMediaID` behind the base64 decoding.
  unfoldable pub decode_raw : Str → Outcome MediaRef
  unfolding slice_to slice_from
  decode_raw raw = if ltb (length raw) (media_tag_size + 1) then err too_short else do
    payload ← slice_to (length raw - media_tag_size) raw
    tag ← slice_from (length raw - media_tag_size) raw
    if str_eq (media_tag payload) tag then unmarshal_media_ref payload else err signature_mismatch

  unfoldable pub decode_media_id : Str → Outcome MediaRef
  decode_media_id s = elim (c.base64_decode s) [
    | none ↦ err bad_encoding
    | some raw ↦ decode_raw raw
  ]
