-- ===== src/MediaId/Decode.antt =====
-- Reading any bytes as a media reference, of internal/bridge/media.go.
use tg_bridge.Prelude.{
  ℕ, ◌+◌, ◌*◌, ◌%◌, ◌^◌, ◌≡◌, ◌≢◌, ◌≤◌, ◌<◌, ap, [], ◌∷◌, ◌++◌, Str, length, arith, All, dec_lt,
  append_assoc, subst, ◌∙◌,
}
use tg_bridge.Prelude.Int.{ℤ, to_u64, of_u64}
use tg_bridge.MediaId.{
  MediaRef, ok, panic, put_uint64, put_uint16, marshal_media_ref, unmarshal_media_ref,
}
use tg_bridge.MediaId.Layout.{be64, unmarshal-cons, unmarshal_short}
use tg_bridge.MediaId.RoundTrip.{IsRead, unmarshal_tail_sound, unmarshal_tail-ne-panic}

-- To prove something of every input of nineteen bytes or more, name the bytes.
nineteen {ℓ} :
    (P : Str → Type ℓ)
    → ((k a b c d e f g h a' b' c' d' e' f' g' h' l l' : ℕ) (t : Str)
        → P (
            k ∷ a ∷ b ∷ c ∷ d ∷ e ∷ f ∷ g ∷ h ∷ a' ∷ b' ∷ c' ∷ d' ∷ e' ∷ f' ∷ g' ∷ h' ∷ l ∷ l' ∷ t))
    → (bytes : Str) → 19 ≤ length bytes
    → P bytes
nineteen P step
      (k ∷ a ∷ b ∷ c ∷ d ∷ e ∷ f ∷ g ∷ h ∷ a' ∷ b' ∷ c' ∷ d' ∷ e' ∷ f' ∷ g' ∷ h' ∷ l ∷ l' ∷ t)
      long =
    step k a b c d e f g h a' b' c' d' e' f' g' h' l l' t
nineteen P step _ long = absurd (omega arith)

-- No input at all makes `unmarshalMediaRef` slice or index out of range.
pub unmarshal-ne-panic : (bytes : Str) → unmarshal_media_ref bytes ≢ panic
unmarshal-ne-panic bytes = elim (dec_lt (length bytes) 19) [
  | yes short ↦ λ e. cc (unmarshal_short bytes short)
  | no long ↦
      nineteen (λ b. unmarshal_media_ref b ≢ panic)
        (λ k a b c d e f g h a' b' c' d' e' f' g' h' l l' t eq.
          unmarshal_tail-ne-panic k (of_u64 (be64 a b c d e f g h))
            (of_u64 (be64 a' b' c' d' e' f' g' h')) (l * 2 ^ 8 + l') t (rw unmarshal-cons at eq))
        bytes (omega arith)
]

abbrev pub IsByte : ℕ → Type 0
IsByte b = b < 256

-- The eight bytes of an int64 are written back as they were read.
put_uint64-be64 :
    (a b c d e f g h : ℕ)
    → All IsByte (a ∷ b ∷ c ∷ d ∷ e ∷ f ∷ g ∷ h ∷ [])
    → put_uint64 (to_u64 (of_u64 (be64 a b c d e f g h))) ≡ a ∷ b ∷ c ∷ d ∷ e ∷ f ∷ g ∷ h ∷ []
unfolding put_uint64 to_u64 of_u64
put_uint64-be64 a b c d e f g h bytes = ground arith

to_u64-of_u64 : (w : ℕ) → w < 2 ^ 64 → to_u64 (of_u64 w) ≡ w
unfolding to_u64 of_u64
to_u64-of_u64 w h = ground arith

All-middle : (P : ℕ → Type 0) (xs : Str) (y : ℕ) (ys : Str) → All P (xs ++ (y ∷ ys)) → P y
All-middle P [] y ys h = h.0
All-middle P (x ∷ xs) y ys h = All-middle P xs y ys h.1

-- The input is what would be written for the reference that was read, and a rest that was ignored.
abbrev ReadsWritten : Str → Type 0
ReadsWritten b =
    (r : MediaRef)
    → All IsByte b
    → unmarshal_media_ref b ≡ ok r
    → (rest : Str) × (b ≡ marshal_media_ref r ++ rest)

reads_tail :
    (k : ℕ) (i h : ℤ) (n : ℕ) (t : Str) (r : MediaRef)
    → All IsByte t
    → (read : IsRead k i h n t r)
    → t ≡ (r.file_ref ++ ((length r.thumb_size % 256) ∷ r.thumb_size)) ++ read.rest
reads_tail k i h n t r bytes read =
    let size : length r.thumb_size < 256 =
      All-middle IsByte r.file_ref _ _ (subst (All IsByte) read.input bytes) in
    let same : length r.thumb_size % 256 ≡ length r.thumb_size = omega arith in
    read.input ∙ rw (same, append_assoc)

put_uint16-digits :
    (n l l' : ℕ) → n ≡ l * 2 ^ 8 + l' → l < 256 → l' < 256 → put_uint16 (n % 2 ^ 16) ≡ l ∷ l' ∷ []
unfolding put_uint16
put_uint16-digits n l l' e p q = ground arith

nineteen-ReadsWritten :
    (k a b c d e f g h a' b' c' d' e' f' g' h' l l' : ℕ) (t : Str)
    → ReadsWritten
        (k ∷ a ∷ b ∷ c ∷ d ∷ e ∷ f ∷ g ∷ h ∷ a' ∷ b' ∷ c' ∷ d' ∷ e' ∷ f' ∷ g' ∷ h' ∷ l ∷ l' ∷ t)
unfolding marshal_media_ref
nineteen-ReadsWritten k a b c d e f g h a' b' c' d' e' f' g' h' l l' t r
      (
        pk,
        (
          pa,
          (
            pb,
            (
              pc,
              (
                pd,
                (
                  pe,
                  (pf, (pg, (ph, (qa, (qb, (qc, (qd, (qe, (qf, (qg, (qh, (pl, (pl', pt))))))))))))),
                ),
              ),
            ),
          ),
        ),
      )
      ok_r =
    let read =
      unmarshal_tail_sound k (of_u64 (be64 a b c d e f g h)) (of_u64 (be64 a' b' c' d' e' f' g' h'))
        (l * 2 ^ 8 + l') t r (rw unmarshal-cons at ok_r) in
    let kind : r.kind % 256 ≡ k = omega (arith, read.kind_kept) in
    let id : put_uint64 (to_u64 r.id) ≡ a ∷ b ∷ c ∷ d ∷ e ∷ f ∷ g ∷ h ∷ [] =
      ap (λ z. put_uint64 (to_u64 z)) read.id_kept
      ∙ put_uint64-be64 a b c d e f g h (pa, (pb, (pc, (pd, (pe, (pf, (pg, (ph, tt)))))))) in
    let hash : put_uint64 (to_u64 r.access_hash) ≡ a' ∷ b' ∷ c' ∷ d' ∷ e' ∷ f' ∷ g' ∷ h' ∷ [] =
      ap (λ z. put_uint64 (to_u64 z)) read.hash_kept
      ∙ put_uint64-be64 a' b' c' d' e' f' g' h'
          (qa, (qb, (qc, (qd, (qe, (qf, (qg, (qh, tt)))))))) in
    let len = put_uint16-digits (length r.file_ref) l l' read.file_ref_length pl pl' in
    (
      read.rest,
      rw (kind, id, hash, len)
          (ap
            (λ s.
              k ∷ a ∷ b ∷ c ∷ d ∷ e ∷ f ∷ g ∷ h ∷ a' ∷ b' ∷ c' ∷ d' ∷ e' ∷ f' ∷ g' ∷ h' ∷ l ∷ l'
              ∷ s)
            (reads_tail k _ _ (l * 2 ^ 8 + l') t r pt read)),
    )

-- Whatever bytes are read as a reference begin with the bytes that the reference is written as:
-- two different inputs are read as the same reference only by what follows.
unmarshal-marshal-prefix :
    (bytes : Str) (r : MediaRef)
    → All IsByte bytes
    → unmarshal_media_ref bytes ≡ ok r
    → (rest : Str) × (bytes ≡ marshal_media_ref r ++ rest)
unmarshal-marshal-prefix bytes r all ok_r = elim (dec_lt (length bytes) 19) [
  | yes short ↦ absurd (cc (unmarshal_short bytes short))
  | no long ↦ nineteen ReadsWritten nineteen-ReadsWritten bytes (omega arith) r all ok_r
]
