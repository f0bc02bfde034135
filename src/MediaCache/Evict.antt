-- ===== src/MediaCache/Evict.antt =====
-- The eviction loops of internal/bridge/mediacache.go: how far they go, and why they end.
use tg_bridge.Prelude.{
  List-cases, ℕ, zero, suc, ◌+◌, ◌≡◌, ◌≤◌, ◌<◌, refl, sym, ap, ◌∙◌, Bool, true, false, List, [],
  ◌∷◌, Str, length, drop, ltb, arith, Bool-cases, inl, inr, subst, ◌⊎◌, dec_lt, lt→ltb,
}
use tg_bridge.Prelude.Int.{ℤ, pos, ltb_ℤ, ◌≤ℤ◌}
use tg_bridge.MediaCache.{Cache, evict_locked, evict_all, evict_but_one}
use tg_bridge.MediaCache.Names.{Element}
use tg_bridge.MediaCache.Lru.{sum_sizes}
use tg_bridge.MediaCache.Valid.{IsValid, evict-IsValid}

ltb_ℤ→not : (a b : ℤ) → ltb_ℤ a b ≡ true → ¬ (b ≤ℤ a)
ltb_ℤ→not a b h = λ le. ground arith

ltb_ℤ→le : (a b : ℤ) → ltb_ℤ a b ≡ false → b ≤ℤ a
ltb_ℤ→le a b h = ground arith

-- Of a list read from the back, `count` elements were evicted: no fewer would do, the rest is
-- within the limit or has at most `least` elements, and the cache is valid.
pub record IsEvicted (least : ℕ) (c c' : Cache) : Type 0 where
  pub count : ℕ
  pub kept : c'.lru ≡ drop count c.lru
  pub short : length c.lru ≤ count + length c'.lru
  pub spared : (0 < count) → least ≤ length c'.lru
  pub valid : IsValid c'
  pub enough : (c'.total ≤ℤ c.max_bytes) ⊎ (length c'.lru ≤ least)
  pub needed : (m : ℕ) → m < count → ¬ (pos (sum_sizes (drop m c.lru)) ≤ℤ c.max_bytes)
  pub same_limit : c'.max_bytes ≡ c.max_bytes
  pub same_dir : c'.dir ≡ c.dir

stay :
    (least : ℕ) (c : Cache)
    → IsValid c
    → (c.total ≤ℤ c.max_bytes) ⊎ (length c.lru ≤ least)
    → IsEvicted least c c
stay least c v e = record {
  count = 0;
  kept = refl;
  short = omega arith;
  spared = λ h. absurd (omega arith);
  valid = v;
  enough = e;
  needed = λ m h. absurd (omega arith);
  same_limit = refl;
  same_dir = refl;
}

-- One more element in front of what was evicted.
evict_more :
    (least : ℕ) (c c₁ c' : Cache) (el : Element)
    → c.lru ≡ el ∷ c₁.lru
    → least ≤ length c₁.lru
    → c₁.max_bytes ≡ c.max_bytes
    → c₁.dir ≡ c.dir
    → IsValid c
    → ¬ (c.total ≤ℤ c.max_bytes)
    → IsEvicted least c₁ c'
    → IsEvicted least c c'
evict_more least c c₁ c' el e room lim dir v over r = record {
  count = suc r.count;
  kept = r.kept ∙ sym (ap (drop (suc r.count)) e);
  short = omega (arith, r.short, ap length e);
  spared = λ _. elim (dec_lt 0 r.count) [
    | yes some_gone ↦ r.spared some_gone
    | no none_gone ↦
        let z : r.count ≡ 0 = omega arith in
        let same : c'.lru ≡ c₁.lru = r.kept ∙ ap (λ n. drop n c₁.lru) z in
        omega (arith, ap length same, room)
  ];
  valid = r.valid;
  enough = subst (λ m. (c'.total ≤ℤ m) ⊎ (length c'.lru ≤ least)) lim r.enough;
  needed = one_more;
  same_limit = r.same_limit ∙ lim;
  same_dir = r.same_dir ∙ dir;
}
  where
    one_more : (m : ℕ) → m < suc r.count → ¬ (pos (sum_sizes (drop m c.lru)) ≤ℤ c.max_bytes)
    one_more zero h = subst (λ t. ¬ (t ≤ℤ c.max_bytes)) v.counted over
    one_more (suc m) h =
        subst (λ l. ¬ (pos (sum_sizes (drop (suc m) l)) ≤ℤ c.max_bytes)) (sym e)
          (subst (λ x. ¬ (pos (sum_sizes (drop m c₁.lru)) ≤ℤ x)) lim (r.needed m (omega arith)))

module _ (sha256 : Str → Str) (removable : Str → Bool) where
  -- One eviction of a list that is not empty.
  pub evict_fields :
      (c : Cache) (el : Element) (rest : List Element)
      → c.lru ≡ el ∷ rest
      → ((evict_locked sha256 removable c).0.lru ≡ rest)
        × ((evict_locked sha256 removable c).0.max_bytes ≡ c.max_bytes)
        × ((evict_locked sha256 removable c).0.dir ≡ c.dir)
        × ((evict_locked sha256 removable c).1 ≡ true)
  unfolding evict_locked
  evict_fields c el rest e = rw (e, evict_locked) (refl, refl, refl, refl)

  evict_step :
      (least : ℕ) (c c' : Cache) (el : Element) (rest : List Element)
      → c.lru ≡ el ∷ rest
      → least ≤ length rest
      → IsValid c
      → ltb_ℤ c.max_bytes c.total ≡ true
      → IsEvicted least (evict_locked sha256 removable c).0 c'
      → IsEvicted least c c'
  evict_step least c c' el rest e room v over r =
      let c₁ = (evict_locked sha256 removable c).0 in
      let (lru, lim, dir, _) = evict_fields c el rest e in
      evict_more least c c₁ c' el (e ∙ ap (◌∷◌ el) (sym lru)) (omega (arith, ap length lru)) lim dir
        v (ltb_ℤ→not c.max_bytes c.total over) r

  few :
      (fuel : ℕ) (c : Cache)
      → IsValid c
      → length c.lru ≤ 1
      → IsEvicted 1 c (evict_but_one sha256 removable (suc fuel) c)
  unfolding evict_but_one
  few fuel c v h = elim (Bool-cases (ltb_ℤ c.max_bytes c.total)) [
    | inr ok ↦ rw (ok, evict_but_one) (stay 1 c v (inr h))
    | inl over ↦
        let one : ltb 1 (length c.lru) ≡ false = ground arith in
        rw (over, one, evict_but_one) (stay 1 c v (inr h))
  ]

  evict_empty : (c : Cache) → c.lru ≡ [] → evict_locked sha256 removable c ≡ (c, false)
  unfolding evict_locked
  evict_empty c e = ground arith

  -- The loop of `Put` ends by its test when it has one round for each element.
  pub evict_but_one-IsEvicted :
      (fuel : ℕ) (c : Cache)
      → length c.lru ≤ fuel
      → IsValid c
      → IsEvicted 1 c (evict_but_one sha256 removable fuel c)
  unfolding evict_but_one
  evict_but_one-IsEvicted zero c h v = stay 1 c v (inr (omega arith))
  evict_but_one-IsEvicted (suc fuel) c h v = elim (Bool-cases (ltb_ℤ c.max_bytes c.total)) [
    | inr ok ↦ rw (ok, evict_but_one) (stay 1 c v (inl (ltb_ℤ→le c.max_bytes c.total ok)))
    | inl over ↦ elim (List-cases c.lru) [
      | inl e ↦ few fuel c v (omega (arith, ap length e))
      | inr (el, [], e) ↦ few fuel c v (omega (arith, ap length e))
      | inr (el, x ∷ rest, e) ↦
          let (lru, _, _, _) = evict_fields c el (x ∷ rest) e in
          let many : ltb 1 (length c.lru) ≡ true =
            lt→ltb 1 (length c.lru) (omega (arith, ap length e)) in
          rw (over, many, evict_but_one)
            (evict_step 1 c _ el (x ∷ rest) e (omega arith) v over (
              evict_but_one-IsEvicted fuel (evict_locked sha256 removable c).0
                (omega (arith, ap length lru, ap length e, h))
                (evict-IsValid sha256 removable c el (x ∷ rest) e v)))
    ]
  ]

  -- So does the loop of `newMediaCache`.
  pub evict_all-IsEvicted :
      (fuel : ℕ) (c : Cache)
      → length c.lru < fuel
      → IsValid c
      → IsEvicted 0 c (evict_all sha256 removable fuel c)
  unfolding evict_all
  evict_all-IsEvicted zero c h v = absurd (omega arith)
  evict_all-IsEvicted (suc fuel) c h v = elim (Bool-cases (ltb_ℤ c.max_bytes c.total)) [
    | inr ok ↦ rw (ok, evict_all) (stay 0 c v (inl (ltb_ℤ→le c.max_bytes c.total ok)))
    | inl over ↦ elim (List-cases c.lru) [
      | inl e ↦
          let nothing = evict_empty c e in
          rw (over, ap (λ (p : Cache × Bool). p.1) nothing, evict_all)
            (subst (IsEvicted 0 c) (sym (ap (λ (p : Cache × Bool). p.0) nothing))
              (stay 0 c v (inr (omega (arith, ap length e)))))
      | inr (el, rest, e) ↦
          let (lru, _, _, done) = evict_fields c el rest e in
          rw (over, done, evict_all)
            (evict_step 0 c _ el rest e (omega arith) v over (
              evict_all-IsEvicted fuel (evict_locked sha256 removable c).0
                (omega (arith, ap length lru, ap length e, h))
                (evict-IsValid sha256 removable c el rest e v)))
    ]
  ]
