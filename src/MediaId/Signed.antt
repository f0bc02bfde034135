-- ===== src/MediaId/Signed.antt =====
-- The signed ids of internal/bridge/media.go: which strings `decodeMediaID` accepts.
use tg_bridge.Prelude.{
  ◌-◌, ◌^◌, ◌≡◌, ◌≢◌, ◌↔◌, ◌≤◌, ◌<◌, sym, ◌∙◌, ap, some, ◌++◌, Str, length, take, drop, arith,
  dec_lt, length-append, length-take, length-drop, take-length, drop-length, take-append-drop,
  str_eq_iff, lt→ltb, ◌⊎◌, inl, inr, Option-cases,
}
use tg_bridge.Prelude.Int.{IsInt64}
use tg_bridge.MediaId.{
  MediaRef, MediaCrypto, ok, err, panic, too_short, signature_mismatch, marshal_media_ref,
  unmarshal_media_ref, media_tag, encode_media_id, decode_raw, decode_media_id,
}
use tg_bridge.MediaId.RoundTrip.{unmarshal-marshal_iff}
use tg_bridge.MediaId.Decode.{unmarshal-ne-panic}

module _ (c : MediaCrypto) (media_key : Str) where
  length-media_tag : (payload : Str) → length (media_tag c media_key payload) ≡ 16
  unfolding media_tag
  length-media_tag payload = length-take 16 _ (omega (arith, c.length-hmac media_key payload))

  decode_raw-short : (raw : Str) → length raw < 17 → decode_raw c media_key raw ≡ err too_short
  unfolding decode_raw
  decode_raw-short raw h = rw (lt→ltb (length raw) 17 h)

  -- A payload that carries its tag is read.
  decode_raw-signed :
      (payload : Str)
      → 1 ≤ length payload
      → decode_raw c media_key (payload ++ media_tag c media_key payload)
        ≡ unmarshal_media_ref payload
  unfolding decode_raw
  decode_raw-signed payload pos =
      let tag = media_tag c media_key payload in
      ground (
        arith,
        length-append payload tag,
        length-media_tag payload,
        take-length (length (payload ++ tag) - 16) payload tag,
        drop-length (length (payload ++ tag) - 16) payload tag,
        str_eq_iff tag tag,
      )

  -- Any input of seventeen bytes or more is a payload and sixteen bytes that are compared.
  decode_raw-cases :
      (payload tag : Str)
      → 1 ≤ length payload
      → length tag ≡ 16
      → (media_tag c media_key payload ≡ tag)
        ⊎ (decode_raw c media_key (payload ++ tag) ≡ err signature_mismatch)
  unfolding decode_raw
  decode_raw-cases payload tag pos len = ground (
    arith,
    length-append payload tag,
    take-length (length (payload ++ tag) - 16) payload tag,
    drop-length (length (payload ++ tag) - 16) payload tag,
    str_eq_iff (media_tag c media_key payload) tag,
  )

  -- A string that decodes to a payload of at least one byte and that payload's tag.
  abbrev pub IsSigned : Str → Str → Type 0
  IsSigned s payload =
      (1 ≤ length payload) × (c.base64_decode s ≡ some (payload ++ media_tag c media_key payload))

  raw_split :
      (raw : Str)
      → 17 ≤ length raw
      → (payload : Str) × (tag : Str) × (raw ≡ payload ++ tag)
        × (1 ≤ length payload)
        × (length tag ≡ 16)
  raw_split raw long =
      let n = length raw - 16 in
      (
        take n raw,
        drop n raw,
        sym (take-append-drop n raw),
        omega (arith, length-take n raw (omega arith)),
        omega (arith, length-drop n raw),
      )

  IsSigned-of_raw :
      (s raw : Str) (r : MediaRef)
      → c.base64_decode s ≡ some raw
      → decode_raw c media_key raw ≡ ok r
      → (payload : Str) × IsSigned s payload × (unmarshal_media_ref payload ≡ ok r)
  IsSigned-of_raw s raw r dec e = elim (dec_lt (length raw) 17) [
    | yes short ↦ absurd (cc (decode_raw-short raw short))
    | no long ↦
        let (payload, tag, split, pos, len) = raw_split raw (omega arith) in
        elim (decode_raw-cases payload tag pos len) [
          | inr bad ↦ absurd (cc)
          | inl good ↦
              let signed : c.base64_decode s ≡ some (payload ++ media_tag c media_key payload) =
                dec ∙ ap some (split ∙ ap (◌++◌ payload) (sym good)) in
              (
                payload,
                (pos, signed),
                sym (decode_raw-signed payload pos)
                    ∙ rw good (sym (ap (decode_raw c media_key) split) ∙ e),
              )
        ]
  ]

  IsSigned-of_decode :
      (s : Str) (r : MediaRef)
      → decode_media_id c media_key s ≡ ok r
      → (payload : Str) × IsSigned s payload × (unmarshal_media_ref payload ≡ ok r)
  unfolding decode_media_id
  IsSigned-of_decode s r e = elim (Option-cases (c.base64_decode s)) [
    | inl bad ↦ absurd (cc (rw (bad, decode_media_id) at e))
    | inr (raw, good) ↦ IsSigned-of_raw s raw r good (rw (good, decode_media_id) at e)
  ]

  decode_of_signed :
      (s payload : Str)
      → IsSigned s payload
      → decode_media_id c media_key s ≡ unmarshal_media_ref payload
  unfolding decode_media_id
  decode_of_signed s payload (pos, e) = rw (e, decode_media_id) (decode_raw-signed payload pos)

  -- `decodeMediaID` accepts a string, with a given reference, exactly when the string is the
  -- base64 of a non-empty payload that reads as that reference, followed by the first sixteen
  -- bytes of that payload's HMAC under the bridge's key.
  pub decode-IsSigned_iff :
      (s : Str) (r : MediaRef)
      → (decode_media_id c media_key s ≡ ok r)
        ↔ ((payload : Str) × IsSigned s payload × (unmarshal_media_ref payload ≡ ok r))
  decode-IsSigned_iff s r =
      (IsSigned-of_decode s r, λ (payload, signed, read). decode_of_signed s payload signed ∙ read)

  -- No string at all makes `decodeMediaID` slice or index out of range.
  pub decode-ne-panic : (s : Str) → decode_media_id c media_key s ≢ panic
  unfolding decode_media_id
  decode-ne-panic s e = elim (Option-cases (c.base64_decode s)) [
    | inl bad ↦ cc (rw (bad, decode_media_id) at e)
    | inr (raw, good) ↦ raw_ne_panic raw (rw (good, decode_media_id) at e)
  ]
    where
      raw_ne_panic : (raw : Str) → decode_raw c media_key raw ≢ panic
      raw_ne_panic raw p = elim (dec_lt (length raw) 17) [
        | yes short ↦ cc (decode_raw-short raw short)
        | no long ↦
            let (payload, tag, split, pos, len) = raw_split raw (omega arith) in
            elim (decode_raw-cases payload tag pos len) [
              | inr bad ↦ cc
              | inl good ↦ unmarshal-ne-panic payload (
                  sym (decode_raw-signed payload pos)
                  ∙ rw good (sym (ap (decode_raw c media_key) split) ∙ p))
            ]
      ]

  -- An id that the bridge made is accepted and gives the reference back, for a uint8 kind, int64
  -- ids, a file reference of fewer than 65536 bytes and a size of fewer than 256.
  pub decode-encode_lem :
      (r : MediaRef)
      → r.kind < 256
      → IsInt64 r.id
      → IsInt64 r.access_hash
      → length r.file_ref < 2 ^ 16
      → length r.thumb_size < 256
      → decode_media_id c media_key (encode_media_id c media_key r) ≡ ok r
  unfolding encode_media_id
  decode-encode_lem r hk hi hh hf ht =
      decode_of_signed _ (marshal_media_ref r)
        (unfold marshal_media_ref in omega arith, c.decode-encode _)
      ∙ (unmarshal-marshal_iff r hk hi hh).1 (hf, ht)
