-- ===== src/Media/Smallest.antt =====
-- `pickSmallestPhotoSize` of internal/bridge/media.go picks a smallest size.
use tg_bridge.Prelude.{
  ◌≡◌, ◌⊎◌, inl, inr, refl, sym, ap, ◌∙◌, true, false, Option, none, some, List, [], ◌∷◌, Str, All,
  arith, Bool-cases, subst,
}
use tg_bridge.Prelude.Int.{ℤ, pos, negsuc, IsInt64, of_u64-to_u64, ◌*ℤ◌, ◌≤ℤ◌}
use tg_bridge.Media.{
  PhotoSize, plain, progressive, other_size, Pick, is_better, first_or, area, pick_step, pick_loop,
  pick_smallest_photo_size,
}

-- The type, the width and the height of a size that can be downloaded.
abbrev pub shape : PhotoSize → Option (Str × ℤ × ℤ)
shape (plain t w h size) = some (t, w, h)
shape (progressive t w h sizes) = some (t, w, h)
shape other_size = none

abbrev pub HasShape : (Str × ℤ × ℤ) → List PhotoSize → Type 0
HasShape x [] = ⊥
HasShape x (s ∷ ss) = (shape s ≡ some x) ⊎ HasShape x ss

-- The area, where there is one, satisfies a predicate.
abbrev pub AreaIs : (ℤ → Type 0) → PhotoSize → Type 0
AreaIs P (plain t w h size) = P (w *ℤ h)
AreaIs P (progressive t w h sizes) = P (w *ℤ h)
AreaIs P other_size = Unit

-- The product of the sides is not negative and below 2^31.
abbrev pub IsSized : PhotoSize → Type 0
IsSized s = AreaIs (λ a. (pos 0 ≤ℤ a) × (a ≤ℤ pos 2147483647)) s

small-IsInt64 : (z : ℤ) → pos 0 ≤ℤ z → z ≤ℤ pos 2147483647 → IsInt64 z
small-IsInt64 (pos n) ge le = omega (arith, ge, le)
small-IsInt64 (negsuc n) ge le = absurd (omega (arith, ge, le))

-- Such a product does not wrap.
area_lem : (w h : ℤ) → (pos 0 ≤ℤ (w *ℤ h)) × ((w *ℤ h) ≤ℤ pos 2147483647) → area w h ≡ w *ℤ h
unfolding area
area_lem w h (ge, le) = of_u64-to_u64 (w *ℤ h) (small-IsInt64 (w *ℤ h) ge le)

abbrev shape_of : Pick → Str × ℤ × ℤ
shape_of p = (p.size_type, p.w, p.h)

record IsPicked (p : Pick) : Type 0 where
  done : p.ok ≡ true
  area : p.best_px ≡ p.w *ℤ p.h
  sized : pos 0 ≤ℤ p.best_px

-- What the loop leaves of a pick when it goes over more sizes.
record Improves (p r : Pick) (ss : List PhotoSize) : Type 0 where
  picked : IsPicked r
  le : r.best_px ≤ℤ p.best_px
  least : All (AreaIs (λ a. r.best_px ≤ℤ a)) ss
  from : (shape_of r ≡ shape_of p) ⊎ HasShape (shape_of r) ss

-- One size in front of the others: it is picked (`q`), or the pick stays.
better :
    (p q r : Pick) (s : PhotoSize) (ss : List PhotoSize)
    → shape s ≡ some (shape_of q)
    → ((P : ℤ → Type 0) → P q.best_px → AreaIs P s)
    → q.best_px ≤ℤ p.best_px
    → Improves q r ss
    → Improves p r (s ∷ ss)
better p q r s ss shaped area_is le i = record {
  picked = i.picked;
  le = omega (arith, i.le);
  least = (area_is (λ a. r.best_px ≤ℤ a) i.le, i.least);
  from = elim i.from [ inl e ↦ inr (inl (shaped ∙ ap some (sym e))) | inr more ↦ inr (inr more) ];
}

stays :
    (p r : Pick) (s : PhotoSize) (ss : List PhotoSize)
    → AreaIs (λ a. p.best_px ≤ℤ a) s
    → ((P Q : ℤ → Type 0) → ((a : ℤ) → P a → Q a) → AreaIs P s → AreaIs Q s)
    → Improves p r ss
    → Improves p r (s ∷ ss)
stays p r s ss above mono i = record {
  picked = i.picked;
  le = i.le;
  least = (
    mono (λ a. p.best_px ≤ℤ a) (λ a. r.best_px ≤ℤ a) (λ a le. omega (arith, i.le)) above,
    i.least,
  );
  from = elim i.from [ inl e ↦ inl e | inr more ↦ inr (inr more) ];
}

is_better-false : (best a : ℤ) → pos 0 ≤ℤ best → is_better best a ≡ false → best ≤ℤ a
unfolding is_better
is_better-false best a z e = ground arith

is_better-true : (best a : ℤ) → pos 0 ≤ℤ best → is_better best a ≡ true → a ≤ℤ best
unfolding is_better
is_better-true best a z e = ground arith

pick_loop-Improves :
    (p : Pick) (ss : List PhotoSize) → IsPicked p → All IsSized ss → Improves p (pick_loop p ss) ss
unfolding pick_loop pick_step
pick_loop-Improves p [] i sized = record {
  picked = i;
  le = omega arith;
  least = tt;
  from = inl refl;
}
pick_loop-Improves p (other_size ∷ ss) i (one, sized) =
    stays p _ other_size ss tt (λ P Q f a. a) (pick_loop-Improves p ss i sized)
pick_loop-Improves p (plain t w h size ∷ ss) i (one, sized) =
    rw (area_lem w h one) (elim (Bool-cases (is_better p.best_px (w *ℤ h))) [
      | inl e ↦
          let q : Pick = record {
            best_px = w *ℤ h;
            size_type = t;
            w = w;
            h = h;
            bytes = size;
            ok = true;
          } in
          let rest =
            pick_loop-Improves q ss (record { done = refl; area = refl; sized = one.0 }) sized in
          rw e
            (better p q _ (plain t w h size) ss refl (λ P a. a) (is_better-true _ _ i.sized e) rest)
      | inr e ↦ rw e (
          stays p _ (plain t w h size) ss (is_better-false _ _ i.sized e) (λ P Q f a. f _ a)
            (pick_loop-Improves p ss i sized))
    ])
pick_loop-Improves p (progressive t w h sizes ∷ ss) i (one, sized) =
    rw (area_lem w h one) (elim (Bool-cases (is_better p.best_px (w *ℤ h))) [
      | inl e ↦
          let q : Pick = record {
            best_px = w *ℤ h;
            size_type = t;
            w = w;
            h = h;
            bytes = first_or p.bytes sizes;
            ok = true;
          } in
          let rest =
            pick_loop-Improves q ss (record { done = refl; area = refl; sized = one.0 }) sized in
          rw e (
            better p q _ (progressive t w h sizes) ss refl (λ P a. a) (is_better-true _ _ i.sized e)
              rest)
      | inr e ↦ rw e (
          stays p _ (progressive t w h sizes) ss (is_better-false _ _ i.sized e) (λ P Q f a. f _ a)
            (pick_loop-Improves p ss i sized))
    ])

-- A result: the shape of one of the sizes, whose area is at most that of each of them.
pub record IsSmallest (r : Pick) (sizes : List PhotoSize) : Type 0 where
  pub picked : r.ok ≡ true
  pub member : HasShape (r.size_type, r.w, r.h) sizes
  pub least : All (AreaIs (λ a. (r.w *ℤ r.h) ≤ℤ a)) sizes

IsSmallest-of_picked :
    (q r : Pick) (s : PhotoSize) (ss : List PhotoSize)
    → shape s ≡ some (shape_of q)
    → ((P : ℤ → Type 0) → P q.best_px → AreaIs P s)
    → Improves q r ss
    → IsSmallest r (s ∷ ss)
IsSmallest-of_picked q r s ss shaped area_is i =
    let all = better q q r s ss shaped area_is (omega arith) i in
    record {
      picked = all.picked.done;
      member = elim i.from [ inl e ↦ inl (shaped ∙ ap some (sym e)) | inr more ↦ inr more ];
      least = subst (λ x. All (AreaIs (λ a. x ≤ℤ a)) (s ∷ ss)) all.picked.area all.least;
    }

-- When each product of sides is not negative and below 2^31: either no size can be downloaded and
-- none is picked, or one of the sizes is picked and none of them has a smaller area.
pub pick_smallest_photo_size-IsSmallest :
    (sizes : List PhotoSize)
    → All IsSized sizes
    → (((pick_smallest_photo_size sizes).ok ≡ false) × All (λ s. shape s ≡ none) sizes)
      ⊎ IsSmallest (pick_smallest_photo_size sizes) sizes
unfolding pick_smallest_photo_size pick_loop pick_step is_better
pick_smallest_photo_size-IsSmallest [] sized = inl (refl, tt)
pick_smallest_photo_size-IsSmallest (other_size ∷ ss) (one, sized) =
    elim (pick_smallest_photo_size-IsSmallest ss sized) [
      | inl (e, none_there) ↦ inl (e, (refl, none_there))
      | inr i ↦ inr (record { picked = i.picked; member = inr i.member; least = (tt, i.least) })
    ]
pick_smallest_photo_size-IsSmallest (plain t w h size ∷ ss) (one, sized) =
    let q : Pick = record {
      best_px = w *ℤ h;
      size_type = t;
      w = w;
      h = h;
      bytes = size;
      ok = true;
    } in
    rw (area_lem w h one) (
      inr (
        IsSmallest-of_picked q _ (plain t w h size) ss refl (λ P a. a)
          (pick_loop-Improves q ss (record { done = refl; area = refl; sized = one.0 }) sized)))
pick_smallest_photo_size-IsSmallest (progressive t w h sizes ∷ ss) (one, sized) =
    let q : Pick = record {
      best_px = w *ℤ h;
      size_type = t;
      w = w;
      h = h;
      bytes = first_or (pos 0) sizes;
      ok = true;
    } in
    rw (area_lem w h one) (
      inr (
        IsSmallest-of_picked q _ (progressive t w h sizes) ss refl (λ P a. a)
          (pick_loop-Improves q ss (record { done = refl; area = refl; sized = one.0 }) sized)))
