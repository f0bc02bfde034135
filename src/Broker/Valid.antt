-- ===== src/Broker/Valid.antt =====
-- The well-formed broker of internal/bridge/updates.go, and what `Publish` does to its channels.
use tg_bridge.Prelude.{
  ℕ, ◌≡◌, ◌≢◌, ◌≤◌, ◌<◌, inl, inr, refl, sym, ◌∙◌, true, false, some, List, [], ◌∷◌, ◌++◌, length,
  length-append, ltb, ◌==◌, All, arith, Bool-cases, subst,
}
use tg_bridge.Broker.{Chan, Broker, update, lookup, delete, offer, publish_to}

pub All-delete {κ} :
    (P : ℕ × ℕ → Type κ) (id : ℕ) (s : List (ℕ × ℕ)) → All P s → All P (delete id s)
unfolding delete
All-delete P id [] all = tt
All-delete P id ((i, a) ∷ s) (p, all) = elim (Bool-cases (i == id)) [
  | inl e ↦ rw e (All-delete P id s all)
  | inr e ↦ rw e (p, All-delete P id s all)
]

pub only_addrs :
    (i a : ℕ) (s : List (ℕ × ℕ)) → All (λ t. (t.0 ≢ i) × (t.1 ≢ a)) s → All (λ t. t.1 ≢ a) s
only_addrs i a [] all = tt
only_addrs i a (t ∷ s) (p, all) = (p.1, only_addrs i a s all)

pub lookup-All {κ} :
    (P : ℕ × ℕ → Type κ) (id a : ℕ) (s : List (ℕ × ℕ)) → All P s → lookup id s ≡ some a → P (id, a)
unfolding lookup
lookup-All P id a [] all e = cc
lookup-All P id a ((i, b) ∷ s) (p, all) e = elim (Bool-cases (i == id)) [
  | inl same ↦ let here : ◌≡◌ {A = ℕ × ℕ} (i, b) (id, a) = ground arith in subst P here p
  | inr other ↦ lookup-All P id a s all (rw other at e)
]

module _ {E : Type 0} where
  -- Each registered channel is open, its address and its id are its own, and its id is not above
  -- the last one given.
  abbrev pub Registered : (ℕ → Chan E) → ℕ → ℕ → List (ℕ × ℕ) → Type 0
  Registered h ids addrs [] = Unit
  Registered h ids addrs ((i, a) ∷ s) =
      ((h a).closed ≡ false)
      × (a < addrs)
      × (i ≤ ids)
      × All (λ t. (t.0 ≢ i) × (t.1 ≢ a)) s
      × Registered h ids addrs s

  pub record IsValid (b : Broker E) : Type 0 where
    pub registered : Registered b.chans b.next_id b.next_addr b.subs
    pub roomy : (a : ℕ) → length (b.chans a).buffer ≤ (b.chans a).cap

  -- A heap in which the channels of a list are open keeps them registered.
  pub keep :
      (h h' : ℕ → Chan E) (ids ids' addrs addrs' : ℕ) (s : List (ℕ × ℕ))
      → ((a : ℕ) → a < addrs → (h a).closed ≡ false → (h' a).closed ≡ false)
      → ids ≤ ids'
      → addrs ≤ addrs'
      → Registered h ids addrs s
      → Registered h' ids' addrs' s
  keep h h' ids ids' addrs addrs' [] same le le' r = tt
  keep h h' ids ids' addrs addrs' ((i, a) ∷ s) same le le' (is_open, lt, id, own, r) = (
    same a lt is_open,
    omega arith,
    omega arith,
    own,
    keep h h' ids ids' addrs addrs' s same le le' r,
  )

  -- As `keep`, for a heap that changes at one address that the list does not hold.
  pub keep_but :
      (h h' : ℕ → Chan E) (ids addrs k : ℕ) (s : List (ℕ × ℕ))
      → ((a : ℕ) → a ≢ k → (h' a).closed ≡ (h a).closed)
      → All (λ t. t.1 ≢ k) s
      → Registered h ids addrs s
      → Registered h' ids addrs s
  keep_but h h' ids addrs k [] same others r = tt
  keep_but h h' ids addrs k ((i, a) ∷ s) same (ne, others) (is_open, lt, id, own, r) =
      (same a ne ∙ is_open, lt, id, own, keep_but h h' ids addrs k s same others r)

  pub Registered-delete :
      (h : ℕ → Chan E) (ids addrs id : ℕ) (s : List (ℕ × ℕ))
      → Registered h ids addrs s
      → Registered h ids addrs (delete id s)
  unfolding delete
  Registered-delete h ids addrs id [] r = tt
  Registered-delete h ids addrs id ((i, a) ∷ s) (is_open, lt, le, own, r) =
      elim (Bool-cases (i == id)) [
        | inl e ↦ rw e (Registered-delete h ids addrs id s r)
        | inr e ↦
            rw e (is_open, lt, le, All-delete _ id s own, Registered-delete h ids addrs id s r)
      ]

  pub update_other : (h : ℕ → Chan E) (a b : ℕ) (c : Chan E) → b ≢ a → update h a c b ≡ h b
  unfolding update
  update_other h a b c ne = ground arith

  pub update_self : (h : ℕ → Chan E) (a : ℕ) (c : Chan E) → update h a c a ≡ c
  unfolding update
  update_self h a c = ground arith

  pub lookup_own :
      (h : ℕ → Chan E) (ids addrs id a : ℕ) (s : List (ℕ × ℕ))
      → Registered h ids addrs s
      → lookup id s ≡ some a
      → ((h a).closed ≡ false) × (a < addrs) × All (λ t. t.1 ≢ a) (delete id s)
  unfolding lookup delete
  lookup_own h ids addrs id a [] r e = cc
  lookup_own h ids addrs id a ((i, b) ∷ s) (is_open, lt, le, own, r) e =
      elim (Bool-cases (i == id)) [
        | inl same ↦
            let here : b ≡ a = ground arith in
            rw same (
              subst (λ x. (h x).closed ≡ false) here is_open,
              omega arith,
              All-delete _ id s (subst (λ x. All (λ t. t.1 ≢ x) s) here (only_addrs i b s own)),
            )
        | inr other ↦
            let found : lookup id s ≡ some a = rw other at e in
            let (c, l, rest) = lookup_own h ids addrs id a s r found in
            let apart : a ≢ b = (lookup-All (λ t. (t.0 ≢ i) × (t.1 ≢ b)) id a s own found).1 in
            rw other (c, l, ((λ p. apart (sym p)), rest))
      ]

  -- What an open channel has after an event is offered to it.
  unfoldable pub offered : E → Chan E → Chan E
  offered e c = record c {
    buffer = elim (ltb (length c.buffer) c.cap) [ true ↦ c.buffer ++ (e ∷ []) | false ↦ c.buffer ];
  }

  pub offer_open : (e : E) (c : Chan E) → c.closed ≡ false → offer e c ≡ some (offered e c)
  unfolding offer offered
  offer_open e c is_open = ground arith

  offered_roomy :
      (e : E) (c : Chan E) → length c.buffer ≤ c.cap → length (offered e c).buffer ≤ c.cap
  unfolding offered
  offered_roomy e c h = ground (arith, length-append c.buffer (e ∷ []))

  abbrev AllRoomy : (ℕ → Chan E) → Type 0
  AllRoomy h = (a : ℕ) → length (h a).buffer ≤ (h a).cap

  pub update-closed :
      (h : ℕ → Chan E) (a b : ℕ) (c : Chan E)
      → c.closed ≡ (h a).closed
      → (update h a c b).closed ≡ (h b).closed
  unfolding update
  update-closed h a b c e = ground (arith, e)

  pub update-AllRoomy :
      (h : ℕ → Chan E) (a : ℕ) (c : Chan E)
      → length c.buffer ≤ c.cap
      → AllRoomy h
      → AllRoomy (update h a c)
  unfolding update
  update-AllRoomy h a c le all = λ b. ground (arith, all b)

  All-map_open :
      (h h' : ℕ → Chan E) (s : List (ℕ × ℕ))
      → ((b : ℕ) → (h' b).closed ≡ (h b).closed)
      → All (λ t. (h t.1).closed ≡ false) s
      → All (λ t. (h' t.1).closed ≡ false) s
  All-map_open h h' [] same all = tt
  All-map_open h h' ((i, a) ∷ s) same (p, all) = (same a ∙ p, All-map_open h h' s same all)

  -- Publishing to open channels succeeds, opens and closes nothing, and overfills nothing.
  pub publish_to_open :
      (e : E) (s : List (ℕ × ℕ)) (h : ℕ → Chan E)
      → All (λ t. (h t.1).closed ≡ false) s
      → AllRoomy h
      → (h' : ℕ → Chan E) × (publish_to e s h ≡ some h')
        × ((b : ℕ) → (h' b).closed ≡ (h b).closed)
        × AllRoomy h'
  unfolding publish_to offered
  publish_to_open e [] h all roomy = (h, refl, λ b. refl, roomy)
  publish_to_open e ((i, a) ∷ s) h (p, all) roomy =
      let c = offered e (h a) in
      let h₁ = update h a c in
      let same : (b : ℕ) → (h₁ b).closed ≡ (h b).closed = λ b. update-closed h a b c refl in
      let (h', done, kept, fits) =
        publish_to_open e s h₁ (All-map_open h h₁ s same all)
          (update-AllRoomy h a c (offered_roomy e (h a) (roomy a)) roomy) in
      (h', rw (offer_open e (h a) p, publish_to) done, λ b. kept b ∙ same b, fits)

  pub open-All :
      (h : ℕ → Chan E) (ids addrs : ℕ) (s : List (ℕ × ℕ))
      → Registered h ids addrs s
      → All (λ t. (h t.1).closed ≡ false) s
  open-All h ids addrs [] r = tt
  open-All h ids addrs ((i, a) ∷ s) (is_open, lt, le, own, r) = (is_open, open-All h ids addrs s r)
