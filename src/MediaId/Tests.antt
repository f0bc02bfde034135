-- ===== src/MediaId/Tests.antt =====
-- The media ids at concrete references, with a stand-in for the cryptography.
use tg_bridge.Prelude.{
  ◌^◌, ◌≡◌, ◌≢◌, ◌↔◌, ◌<◌, refl, none, some, Option, [], ◌∷◌, ◌++◌, Str, length, arith, str_eq,
}
use tg_bridge.Prelude.Int.{pos, negsuc, to_u64, of_u64}
use tg_bridge.MediaId.{
  MediaRef, MediaCrypto, ok, err, panic, too_short, signature_mismatch, put_uint64, put_uint16,
  marshal_media_ref, unmarshal_media_ref, unmarshal_tail, media_tag, encode_media_id, decode_raw,
  decode_media_id,
}
use tg_bridge.MediaId.RoundTrip.{unmarshal-marshal_iff}
use tg_bridge.MediaId.Decode.{unmarshal-ne-panic}
use tg_bridge.MediaId.Signed.{IsSigned, decode-IsSigned_iff, decode-encode_lem}

-- Thirty-two bytes that depend on the key and on the length of the payload.
abbrev pub toy_hmac : Str → Str → Str
toy_hmac key payload =
    length key
    ∷ length payload
    ∷ 2
    ∷ 3
    ∷ 4
    ∷ 5
    ∷ 6
    ∷ 7
    ∷ 8
    ∷ 9
    ∷ 10
    ∷ 11
    ∷ 12
    ∷ 13
    ∷ 14
    ∷ 15
    ∷ 16
    ∷ 17
    ∷ 18
    ∷ 19
    ∷ 20
    ∷ 21
    ∷ 22
    ∷ 23
    ∷ 24
    ∷ 25
    ∷ 26
    ∷ 27
    ∷ 28
    ∷ 29
    ∷ 30
    ∷ 31
    ∷ []

abbrev pub toy_decode : Str → Option Str
toy_decode [] = none
toy_decode (x ∷ raw) = some raw

abbrev pub toy : MediaCrypto
toy = record {
  hmac_sha256 = toy_hmac;
  base64_encode = λ raw. b'_' ∷ raw;
  base64_decode = toy_decode;
  length-hmac = λ key payload. refl;
  decode-encode = λ raw. refl;
}

abbrev key : Str
key = 1 ∷ 2 ∷ 3 ∷ []

abbrev photo : MediaRef
photo = record {
  kind = 1;
  id = pos 258;
  access_hash = negsuc 0;
  file_ref = 7 ∷ 8 ∷ [];
  thumb_size = b'm' ∷ [];
}

abbrev photo_bytes : Str
photo_bytes =
    1 ∷ 0 ∷ 0 ∷ 0 ∷ 0 ∷ 0 ∷ 0 ∷ 1 ∷ 2 ∷ 255 ∷ 255 ∷ 255 ∷ 255 ∷ 255 ∷ 255 ∷ 255 ∷ 255 ∷ 0 ∷ 2 ∷ 7
    ∷ 8 ∷ 1 ∷ b'm' ∷ []

program : Unit {0}
unfolding put_uint64 put_uint16 marshal_media_ref unmarshal_media_ref unmarshal_tail media_tag
    encode_media_id decode_raw decode_media_id to_u64 of_u64 str_eq
program = tt

photo_marshalled : marshal_media_ref photo ≡ photo_bytes
unfolding program
photo_marshalled = refl

photo_read : unmarshal_media_ref (photo_bytes ++ (99 ∷ [])) ≡ ok photo
unfolding program
photo_read = refl

cut_short : unmarshal_media_ref (1 ∷ 2 ∷ []) ≢ ok photo
unfolding program
cut_short e = cc

no_size : decode_media_id toy key (b'_' ∷ key) ≡ err too_short
unfolding program
no_size = refl

-- One bit of the id changed: the tag of the toy HMAC is the same, so change the key instead.
other_key : decode_media_id toy (1 ∷ []) (encode_media_id toy key photo) ≡ err signature_mismatch
unfolding program
other_key = refl

unmarshal-marshal_iff_example :
    (unmarshal_media_ref (marshal_media_ref photo) ≡ ok photo) ↔ ((2 < 2 ^ 16) × (1 < 256))
unmarshal-marshal_iff_example =
    unmarshal-marshal_iff photo (omega arith) (omega arith) (omega arith)

unmarshal-ne-panic_example : unmarshal_media_ref (1 ∷ 2 ∷ []) ≢ panic
unmarshal-ne-panic_example = unmarshal-ne-panic (1 ∷ 2 ∷ [])

decode-IsSigned_iff_example : (decode_media_id toy key (b'_' ∷ photo_bytes) ≡ ok photo) ↔ (
    (payload : Str) × IsSigned toy key (b'_' ∷ photo_bytes) payload
    × (unmarshal_media_ref payload ≡ ok photo))
decode-IsSigned_iff_example = decode-IsSigned_iff toy key (b'_' ∷ photo_bytes) photo

decode-encode_lem_example : decode_media_id toy key (encode_media_id toy key photo) ≡ ok photo
decode-encode_lem_example =
    decode-encode_lem toy key photo (omega arith) (omega arith) (omega arith) (omega arith)
      (omega arith)
