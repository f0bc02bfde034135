-- ===== src/Media.antt =====
-- The summaries of media in internal/bridge/media.go: `summarizeMedia`, `classifyDoc` and
-- `pickSmallestPhotoSize`. The types of the Telegram library keep the fields that the code reads.
pub mod Smallest
pub mod Summary
pub mod Tests
use tg_bridge.Prelude.{
  Bool, true, false, ◌||◌, Option, none, some, List, [], ◌∷◌, Str, codes, if◌then◌else◌,
}
use tg_bridge.Prelude.Int.{of_u64, to_u64, ℤ, pos, negsuc, ◌*ℤ◌, ltb_ℤ}
use tg_bridge.MediaId.{MediaRef, media_kind_photo, MediaCrypto, encode_media_id}

-- A size of a photo: with one number of bytes, with those of its progressive steps, or one that
-- cannot be downloaded.
pub data PhotoSize : Type 0 where
  plain : Str → ℤ → ℤ → ℤ → PhotoSize
  progressive : Str → ℤ → ℤ → List ℤ → PhotoSize
  other_size : PhotoSize

pub record Photo : Type 0 where
  pub id : ℤ
  pub access_hash : ℤ
  pub file_reference : Str
  pub sizes : List PhotoSize

pub data DocumentAttribute : Type 0 where
  audio video sticker other_attribute : DocumentAttribute

pub record Document : Type 0 where
  pub attributes : List DocumentAttribute
  pub mime_type : Str
  pub size : ℤ

-- `none` is a photo or a document that is empty.
pub data MessageMedia : Type 0 where
  media_photo : Option Photo → MessageMedia
  media_document : Option Document → MessageMedia
  other_media : MessageMedia

pub record MediaSummary : Type 0 where
  pub kind : Str
  pub media_id : Str
  pub mime_type : Str
  pub size : ℤ
  pub width : ℤ
  pub height : ℤ

unfoldable pub classify_doc : List DocumentAttribute → Str
classify_doc [] = codes "document"
classify_doc (audio ∷ more) = codes "voice"
classify_doc (video ∷ more) = codes "video"
classify_doc (sticker ∷ more) = codes "sticker"
classify_doc (other_attribute ∷ more) = classify_doc more

-- The variables of the loop of `pickSmallestPhotoSize`.
pub record Pick : Type 0 where
  pub best_px : ℤ
  pub size_type : Str
  pub w : ℤ
  pub h : ℤ
  pub bytes : ℤ
  pub ok : Bool

abbrev pub nothing_picked : Pick
nothing_picked = record {
  best_px = negsuc 0;
  size_type = [];
  w = pos 0;
  h = pos 0;
  bytes = pos 0;
  ok = false;
}

unfoldable pub is_better : ℤ → ℤ → Bool
is_better best_px px = ltb_ℤ best_px (pos 0) || ltb_ℤ px best_px

-- `if len(ss.Sizes) > 0 { bytes = ss.Sizes[0] }`
unfoldable pub first_or : ℤ → List ℤ → ℤ
first_or bytes [] = bytes
first_or bytes (n ∷ ns) = n

-- `ss.W * ss.H` in an int of 64 bits, which wraps. In 32 bits, as on ARMv7, the result is the same
-- while the product is below 2^31.
unfoldable pub area : ℤ → ℤ → ℤ
area w h = of_u64 (to_u64 (w *ℤ h))

unfoldable pub pick_step : Pick → PhotoSize → Pick
pick_step p (plain t w h size) =
    if is_better p.best_px (area w h)
    then record { best_px = area w h; size_type = t; w = w; h = h; bytes = size; ok = true }
    else p
pick_step p (progressive t w h sizes) =
    if is_better p.best_px (area w h)
    then record {
      best_px = area w h;
      size_type = t;
      w = w;
      h = h;
      bytes = first_or p.bytes sizes;
      ok = true;
    }
    else p
pick_step p other_size = p

unfoldable pub pick_loop : Pick → List PhotoSize → Pick
pick_loop p [] = p
pick_loop p (s ∷ ss) = pick_loop (pick_step p s) ss

unfoldable pub pick_smallest_photo_size : List PhotoSize → Pick
pick_smallest_photo_size sizes = pick_loop nothing_picked sizes

-- A summary with a type alone.
abbrev pub just : Str → MediaSummary
just kind = record {
  kind = kind;
  media_id = [];
  mime_type = [];
  size = pos 0;
  width = pos 0;
  height = pos 0;
}

abbrev pub photo_ref : Photo → Str → MediaRef
photo_ref p thumb_type = record {
  kind = media_kind_photo;
  id = p.id;
  access_hash = p.access_hash;
  file_ref = p.file_reference;
  thumb_size = thumb_type;
}

module _ (c : MediaCrypto) (media_key : Str) where
  unfoldable pub summarize_photo : Photo → MediaSummary
  summarize_photo p =
      let picked = pick_smallest_photo_size p.sizes in
      if picked.ok
      then record {
        kind = codes "photo";
        media_id = encode_media_id c media_key (photo_ref p picked.size_type);
        mime_type = codes "image/jpeg";
        size = picked.bytes;
        width = picked.w;
        height = picked.h;
      }
      else just (codes "photo")

  unfoldable pub summarize_media : MessageMedia → MediaSummary
  summarize_media (media_photo none) = just (codes "photo")
  summarize_media (media_photo (some p)) = summarize_photo p
  summarize_media (media_document none) = just (codes "document")
  summarize_media (media_document (some d)) = record (just (classify_doc d.attributes)) {
    mime_type = d.mime_type;
    size = d.size;
  }
  summarize_media other_media = just (codes "other")
