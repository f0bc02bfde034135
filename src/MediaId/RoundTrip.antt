-- ===== src/MediaId/RoundTrip.antt =====
-- Reading back a marshalled media reference, of internal/bridge/media.go.
use tg_bridge.Prelude.{
  ℕ, zero, suc, ◌+◌, ◌%◌, ◌^◌, ◌≡◌, ◌≢◌, ◌↔◌, ◌≤◌, ◌<◌, refl, sym, ap, ◌∙◌, [], ◌∷◌, ◌++◌, Str,
  length, take, drop, arith, ltb, lt→ltb, if◌then◌else◌, length-append, take-length, drop-length,
  length-take, take-append-drop, dec_lt,
}
use tg_bridge.Prelude.Int.{ℤ, to_u64, IsInt64, to_u64-lt, of_u64-to_u64}
use tg_bridge.MediaId.{
  MediaRef, put_uint64, put_uint16, ok, err, panic, truncated_size, truncated_file_ref,
  marshal_media_ref, unmarshal_media_ref, unmarshal_tail,
}
use tg_bridge.MediaId.Layout.{unmarshal-cons, be64-digits, be16-digits}

-- A file reference, one length byte and the rest: the size is the prefix that the byte asks for.
pub unmarshal_tail-cons :
    (k : ℕ) (i h : ℤ) (fr : Str) (s : ℕ) (t : Str)
    → unmarshal_tail k i h (length fr) (fr ++ (s ∷ t)) ≡ (
        if ltb (length t) s
        then err truncated_size
        else ok
            (record { kind = k; id = i; access_hash = h; file_ref = fr; thumb_size = take s t }))
unfolding unmarshal_tail
unmarshal_tail-cons k i h fr s t = ground (
  arith,
  length-append fr (s ∷ t),
  take-length (length fr) fr (s ∷ t),
  drop-length (length fr) fr (s ∷ t),
)

-- A long enough input splits into the file reference, a length byte and the rest.
tail_split :
    (n : ℕ) (b : Str)
    → n + 1 ≤ length b
    → (fr : Str) × (s : ℕ) × (t : Str) × (b ≡ fr ++ (s ∷ t)) × (length fr ≡ n)
tail_split zero [] h = absurd (omega arith)
tail_split zero (x ∷ b) h = ([], x, b, refl, refl)
tail_split (suc n) [] h = absurd (omega arith)
tail_split (suc n) (x ∷ b) h =
    let (fr, s, t, e, l) = tail_split n b (omega arith) in (x ∷ fr, s, t, ap (◌∷◌ x) e, ap suc l)

tail-sound-cons :
    (k : ℕ) (i h : ℤ) (fr : Str) (s : ℕ) (t : Str) (r : MediaRef)
    → unmarshal_tail k i h (length fr) (fr ++ (s ∷ t)) ≡ ok r
    → (s ≤ length t)
      × (r ≡ record { kind = k; id = i; access_hash = h; file_ref = fr; thumb_size = take s t })
tail-sound-cons k i h fr s t r e = (
  ground (arith, unmarshal_tail-cons k i h fr s t),
  ground (arith, unmarshal_tail-cons k i h fr s t),
)

-- What a success of `unmarshal_tail` says: the fields that it was given are kept, and the input is
-- the file reference of the length asked for, the length of the size, the size, and a rest.
pub record IsRead (k : ℕ) (i h : ℤ) (n : ℕ) (b : Str) (r : MediaRef) : Type 0 where
  pub rest : Str
  pub input : b ≡ r.file_ref ++ (length r.thumb_size ∷ (r.thumb_size ++ rest))
  pub file_ref_length : length r.file_ref ≡ n
  pub kind_kept : r.kind ≡ k
  pub id_kept : r.id ≡ i
  pub hash_kept : r.access_hash ≡ h

IsRead-cons :
    (k : ℕ) (i h : ℤ) (fr : Str) (s : ℕ) (t : Str) (r : MediaRef)
    → unmarshal_tail k i h (length fr) (fr ++ (s ∷ t)) ≡ ok r
    → IsRead k i h (length fr) (fr ++ (s ∷ t)) r
IsRead-cons k i h fr s t r e =
    let (le, shape) = tail-sound-cons k i h fr s t r e in
    rw shape (record {
      rest = drop s t;
      input = rw (length-take s t le, take-append-drop s t);
      file_ref_length = refl;
      kind_kept = refl;
      id_kept = refl;
      hash_kept = refl;
    })

unmarshal_tail-short :
    (k : ℕ) (i h : ℤ) (n : ℕ) (b : Str)
    → length b < n + 1
    → unmarshal_tail k i h n b ≡ err truncated_file_ref
unfolding unmarshal_tail
unmarshal_tail-short k i h n b lt = rw (lt→ltb (length b) (n + 1) lt)

pub unmarshal_tail_sound :
    (k : ℕ) (i h : ℤ) (n : ℕ) (b : Str) (r : MediaRef)
    → unmarshal_tail k i h n b ≡ ok r
    → IsRead k i h n b r
unmarshal_tail_sound k i h n b r e = elim (dec_lt (length b) (n + 1)) [
  | yes lt ↦ absurd (cc (unmarshal_tail-short k i h n b lt))
  | no ge ↦
      let (fr, s, t, split, len) = tail_split n b (omega arith) in
      rw (split, ← len) (IsRead-cons k i h fr s t r (rw (split, ← len) at e))
]

-- The tail never panics: its two tests guard every slice and index.
pub unmarshal_tail-ne-panic : (k : ℕ) (i h : ℤ) (n : ℕ) (b : Str) → unmarshal_tail k i h n b ≢ panic
unmarshal_tail-ne-panic k i h n b e = elim (dec_lt (length b) (n + 1)) [
  | yes lt ↦ cc (unmarshal_tail-short k i h n b lt)
  | no ge ↦
      let (fr, s, t, split, len) = tail_split n b (omega arith) in
      ground (arith, unmarshal_tail-cons k i h fr s t)
]

-- Marshalling, then reading the fixed fields: the tail is read at the length that was written.
unmarshal-marshal_tail :
    (r : MediaRef)
    → r.kind < 256
    → IsInt64 r.id
    → IsInt64 r.access_hash
    → unmarshal_media_ref (marshal_media_ref r)
      ≡ unmarshal_tail r.kind r.id r.access_hash
          (length r.file_ref % 2 ^ 16)
          (r.file_ref ++ ((length r.thumb_size % 256) ∷ r.thumb_size))
unfolding marshal_media_ref put_uint64 put_uint16
unmarshal-marshal_tail r hk hi hh =
    let w = to_u64 r.id in
    let v = to_u64 r.access_hash in
    let n : ℕ = length r.file_ref % 2 ^ 16 in
    let t : Str = r.file_ref ++ ((length r.thumb_size % 256) ∷ r.thumb_size) in
    let k : r.kind % 256 ≡ r.kind = omega arith in
    rw (
      unmarshal-cons,
      be64-digits w (to_u64-lt r.id),
      be64-digits v (to_u64-lt r.access_hash),
      be16-digits n (omega arith),
      of_u64-to_u64 r.id hi,
      of_u64-to_u64 r.access_hash hh,
      k,
    )

take-all : (s : Str) → take (length s) s ≡ s
take-all [] = refl
take-all (x ∷ s) = ap (◌∷◌ x) (take-all s)

tail_fits :
    (r : MediaRef)
    → length r.file_ref < 2 ^ 16
    → length r.thumb_size < 256
    → unmarshal_tail r.kind r.id r.access_hash
        (length r.file_ref % 2 ^ 16)
        (r.file_ref ++ ((length r.thumb_size % 256) ∷ r.thumb_size))
      ≡ ok r
tail_fits r hf ht =
    let n : length r.file_ref % 2 ^ 16 ≡ length r.file_ref = omega arith in
    let s : length r.thumb_size % 256 ≡ length r.thumb_size = omega arith in
    rw (n, s)
      (ground (
        arith,
        unmarshal_tail-cons r.kind r.id r.access_hash r.file_ref (length r.thumb_size) r.thumb_size,
        take-all r.thumb_size,
      ))

-- What was read has the lengths that were written, so they fit their fields.
tail_fits_only :
    (r : MediaRef) (s : ℕ)
    → s < 256
    → IsRead r.kind r.id r.access_hash
        (length r.file_ref % 2 ^ 16)
        (r.file_ref ++ (s ∷ r.thumb_size))
        r
    → (length r.file_ref < 2 ^ 16) × (length r.thumb_size < 256)
tail_fits_only r s lt read =
    let same : s ∷ r.thumb_size ≡ length r.thumb_size ∷ (r.thumb_size ++ read.rest) =
      sym (drop-length (length r.file_ref) r.file_ref _ refl)
      ∙ ap (drop (length r.file_ref)) read.input
      ∙ drop-length (length r.file_ref) r.file_ref _ refl in
    (omega (arith, read.file_ref_length), ground arith)

module _ (r : MediaRef) (kind_lt : r.kind < 256) (id_in : IsInt64 r.id)
    (hash_in : IsInt64 r.access_hash) where
  -- Reading back a marshalled reference returns it exactly when the file reference has fewer than
  -- 65536 bytes and the size fewer than 256, for a uint8 kind and int64 ids.
  pub unmarshal-marshal_iff :
      (unmarshal_media_ref (marshal_media_ref r) ≡ ok r)
      ↔ ((length r.file_ref < 2 ^ 16) × (length r.thumb_size < 256))
  unmarshal-marshal_iff =
      let e = unmarshal-marshal_tail r kind_lt id_in hash_in in
      (
        λ back. tail_fits_only r _ (omega arith) (unmarshal_tail_sound _ _ _ _ _ _ (sym e ∙ back)),
        λ fits. e ∙ tail_fits r fits.0 fits.1,
      )
