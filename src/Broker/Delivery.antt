-- ===== src/Broker/Delivery.antt =====
-- What `Broker.Publish` of internal/bridge/updates.go delivers, and to whom.
use tg_bridge.Prelude.{
  ℕ, ◌≡◌, ◌≢◌, inl, inr, refl, ap, ◌∙◌, Bool, true, false, some, List, [], ◌∷◌, ◌==◌, All, arith,
  Bool-cases, subst, if◌then◌else◌,
}
use tg_bridge.Broker.{Chan, Broker, update, publish_to, publish}
use tg_bridge.Broker.Valid.{
  Registered, IsValid, keep_but, only_addrs, update_other, update_self, offered, offer_open,
}

-- Whether a channel's address is registered.
unfoldable pub has : ℕ → List (ℕ × ℕ) → Bool
has a [] = false
has a ((i, x) ∷ s) = let rest = has a s in if x == a then true else rest

All-has : (a : ℕ) (s : List (ℕ × ℕ)) → All (λ t. t.1 ≢ a) s → has a s ≡ false
unfolding has
All-has a [] all = refl
All-has a ((i, x) ∷ s) (ne, all) = elim (Bool-cases (x == a)) [
  | inl e ↦ ground arith
  | inr e ↦ rw e (All-has a s all)
]

module _ {E : Type 0} where
  abbrev Reaches : E → List (ℕ × ℕ) → (ℕ → Chan E) → (ℕ → Chan E) → Type 0
  Reaches e s h h' =
      (a : ℕ) → (has a s ≡ true → h' a ≡ offered e (h a)) × (has a s ≡ false → h' a ≡ h a)

  publish_to-Reaches :
      (e : E) (ids addrs : ℕ) (s : List (ℕ × ℕ)) (h : ℕ → Chan E)
      → Registered h ids addrs s
      → (h' : ℕ → Chan E) × (publish_to e s h ≡ some h') × Reaches e s h h'
  unfolding publish_to has
  publish_to-Reaches e ids addrs [] h r = (h, refl, λ a. (λ q. cc, λ q. refl))
  publish_to-Reaches e ids addrs ((i, x) ∷ s) h (is_open, lt, le, own, r) =
      let c = offered e (h x) in
      let others = only_addrs i x s own in
      let h₁ = update h x c in
      let r₁ =
        keep_but h h₁ ids addrs x s
          (λ k ne. ap (λ (y : Chan E). y.closed) (update_other h x k c ne)) others r in
      let (h', done, reach) = publish_to-Reaches e ids addrs s h₁ r₁ in
      (
        h',
        rw (offer_open e (h x) is_open, publish_to) done,
        λ a. elim (Bool-cases (x == a)) [
          | inl same ↦
              let here : x ≡ a = ground arith in
              rw same (
                λ q.
                    subst (λ y. h' y ≡ offered e (h y)) here
                      ((reach x).1 (All-has x s others) ∙ update_self h x c),
                λ q. cc,
              )
          | inr other ↦
              let ne : a ≢ x = λ q. ground arith in
              let away = update_other h x a c ne in
              rw other (λ q. (reach a).0 q ∙ ap (offered e) away, λ q. (reach a).1 q ∙ away)
        ],
      )

  -- Publishing on a valid broker succeeds. Each registered channel gets the event at the end of its
  -- buffer when the buffer has room, and stays as it was when it has none (`offered`); no other
  -- channel changes, and the ids, the map and the number of channels stay.
  pub publish-offered :
      (b : Broker E) (e : E)
      → IsValid b
      → (b' : Broker E) × (publish b e ≡ some b')
        × (b'.subs ≡ b.subs)
        × (b'.next_id ≡ b.next_id)
        × (b'.next_addr ≡ b.next_addr)
        × ((a : ℕ) → has a b.subs ≡ true → b'.chans a ≡ offered e (b.chans a))
        × ((a : ℕ) → has a b.subs ≡ false → b'.chans a ≡ b.chans a)
  unfolding publish
  publish-offered b e v =
      let (h', done, reach) =
        publish_to-Reaches e b.next_id b.next_addr b.subs b.chans v.registered in
      (
        record b { chans = h' },
        rw (done, publish),
        refl,
        refl,
        refl,
        λ a. (reach a).0,
        λ a. (reach a).1,
      )
