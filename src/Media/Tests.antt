-- ===== src/Media/Tests.antt =====
-- The media of internal/bridge/media.go at a concrete photo.
use tg_bridge.Prelude.{
  ◌≡◌, ◌<◌, ◌⊎◌, refl, true, false, none, List, [], ◌∷◌, codes, length, All, arith,
}
use tg_bridge.Prelude.Int.{to_u64, of_u64, pos, negsuc, ◌*ℤ◌}
use tg_bridge.Media.{
  PhotoSize, plain, progressive, other_size, Photo, is_better, first_or, area, pick_step, pick_loop,
  pick_smallest_photo_size,
}
use tg_bridge.Media.Smallest.{shape, IsSmallest, pick_smallest_photo_size-IsSmallest}

program : Unit {0}
unfolding is_better first_or area to_u64 of_u64 pick_step pick_loop pick_smallest_photo_size ◌*ℤ◌
program = tt

abbrev pub sizes : List PhotoSize
sizes =
    other_size
    ∷ plain (codes "m") (pos 100) (pos 90) (pos 500)
    ∷ progressive (codes "y") (pos 50) (pos 40) []
    ∷ []

abbrev pub photo : Photo
photo = record { id = pos 7; access_hash = negsuc 3; file_reference = 1 ∷ 2 ∷ []; sizes = sizes }

-- The progressive size is picked, with the bytes of the size before.
stale_bytes :
    ((pick_smallest_photo_size sizes).size_type ≡ codes "y")
    × ((pick_smallest_photo_size sizes).bytes ≡ pos 500)
unfolding program
stale_bytes = (refl, refl)

pick_smallest_photo_size-IsSmallest_example :
    (((pick_smallest_photo_size sizes).ok ≡ false) × All (λ s. shape s ≡ none) sizes)
    ⊎ IsSmallest (pick_smallest_photo_size sizes) sizes
pick_smallest_photo_size-IsSmallest_example =
    pick_smallest_photo_size-IsSmallest sizes
      (unfold ◌*ℤ◌ in (tt, (omega arith, (omega arith, tt))))

pub picked_ok : (pick_smallest_photo_size sizes).ok ≡ true
unfolding program
picked_ok = refl

pub picked_short : length (pick_smallest_photo_size sizes).size_type < 256
unfolding program
picked_short = omega arith
