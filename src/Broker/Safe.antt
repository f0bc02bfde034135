-- ===== src/Broker/Safe.antt =====
-- No call of the broker of internal/bridge/updates.go panics: nothing is sent on a closed channel,
-- and no channel is closed twice.
use tg_bridge.Prelude.{
  ℕ, suc, ◌+◌, ◌%◌, ◌^◌, ◌≡◌, ◌≢◌, ◌≤◌, ◌<◌, inl, inr, refl, ap, ◌∙◌, true, false, some, List, [],
  ◌∷◌, length, All, arith, Option-cases, List-cases,
}
use tg_bridge.Broker.{
  Chan, Broker, update, fresh, new_broker, lookup, delete, subscribe, close, unsubscribe, publish,
  receive, Call, subscribes, unsubscribes, publishes, receives, step, run,
}
use tg_bridge.Broker.Valid.{
  All-delete, Registered, IsValid, keep, keep_but, Registered-delete, update_other, update_self,
  lookup_own, update-closed, update-AllRoomy, publish_to_open, open-All,
}

module _ {E : Type 0} where
  -- An id above all that were given is in no entry.
  fresh_own :
      (h : ℕ → Chan E) (ids addrs : ℕ) (s : List (ℕ × ℕ))
      → Registered h ids addrs s
      → All (λ t. (t.0 ≢ ids + 1) × (t.1 ≢ addrs)) s
  fresh_own h ids addrs [] r = tt
  fresh_own h ids addrs ((i, a) ∷ s) (is_open, lt, le, own, r) =
      ((λ e. omega arith, λ e. omega arith), fresh_own h ids addrs s r)

  -- What one call leaves: a valid broker, which has given at most one id more.
  abbrev pub StepOk : Broker E → Call E → Type 0
  StepOk b k = (b' : Broker E) × (step b k ≡ some b') × IsValid b' × (b'.next_id ≤ b.next_id + 1)

  unfoldable pub subscribed : Broker E → Broker E
  subscribed b = record b {
    next_id = b.next_id + 1;
    subs = (b.next_id + 1, b.next_addr) ∷ delete (b.next_id + 1) b.subs;
    chans = update b.chans b.next_addr (fresh b.buf_size);
    next_addr = suc b.next_addr;
  }

  pub subscribe-subscribed :
      (b : Broker E)
      → b.next_id + 1 < 2 ^ 64
      → subscribe b ≡ (subscribed b, b.next_id + 1, b.next_addr)
  unfolding subscribe subscribed
  subscribe-subscribed b lt =
      let id : (b.next_id + 1) % 2 ^ 64 ≡ b.next_id + 1 = omega arith in rw id

  pub subscribe_ok : (b : Broker E) → IsValid b → b.next_id + 1 < 2 ^ 64 → StepOk b subscribes
  unfolding step subscribed
  subscribe_ok b v lt =
      let h' = update b.chans b.next_addr (fresh b.buf_size) in
      let own = fresh_own b.chans b.next_id b.next_addr b.subs v.registered in
      let opened : (h' b.next_addr).closed ≡ false =
        ap (λ (c : Chan E). c.closed) (update_self b.chans b.next_addr (fresh b.buf_size)) in
      (
        subscribed b,
        ap (λ (r : Broker E × ℕ × ℕ). some r.0) (subscribe-subscribed b lt),
        record {
          registered = (
            opened,
            omega arith,
            omega arith,
            All-delete (λ t. (t.0 ≢ b.next_id + 1) × (t.1 ≢ b.next_addr)) (b.next_id + 1) b.subs
                own,
            Registered-delete h' (b.next_id + 1) (suc b.next_addr) (b.next_id + 1) b.subs (
                keep b.chans h' b.next_id (b.next_id + 1) b.next_addr (suc b.next_addr) b.subs
                  (λ a below is_open.
                    ap (λ (c : Chan E). c.closed)
                      (update_other b.chans b.next_addr a _ (λ e. omega arith))
                    ∙ is_open)
                  (omega arith) (omega arith) v.registered),
          );
          roomy = update-AllRoomy b.chans b.next_addr (fresh b.buf_size) (omega arith) v.roomy;
        },
        omega arith,
      )

  pub unsubscribe_ok : (b : Broker E) (id : ℕ) → IsValid b → StepOk b (unsubscribes id)
  unfolding step close
  unsubscribe_ok b id v = elim (Option-cases (lookup id b.subs)) [
    | inl e ↦ (b, rw (e, unsubscribe), v, omega arith)
    | inr (a, e) ↦
        let (is_open, lt, others) =
          lookup_own b.chans b.next_id b.next_addr id a b.subs v.registered e in
        let c : Chan E = record (b.chans a) { closed = true } in
        let h' = update b.chans a c in
        (
          record b { subs = delete id b.subs; chans = h' },
          rw (e, unsubscribe, is_open),
          record {
            registered =
                keep_but b.chans h' _ _ a (delete id b.subs)
                  (λ x ne. ap (λ (y : Chan E). y.closed) (update_other b.chans a x c ne)) others
                  (Registered-delete b.chans _ _ id b.subs v.registered);
            roomy = update-AllRoomy b.chans a c (v.roomy a) v.roomy;
          },
          omega arith,
        )
  ]

  pub publish_ok : (b : Broker E) (e : E) → IsValid b → StepOk b (publishes e)
  unfolding step
  publish_ok b e v =
      let (h', done, same, roomy) =
        publish_to_open e b.subs b.chans (open-All b.chans _ _ b.subs v.registered) v.roomy in
      (
        record b { chans = h' },
        rw (done, publish),
        record {
          registered =
              keep b.chans h' _ _ _ _ b.subs (λ a _ is_open. same a ∙ is_open) (omega arith)
                (omega arith) v.registered;
          roomy = roomy;
        },
        omega arith,
      )

  pub receive_ok : (b : Broker E) (a : ℕ) → IsValid b → StepOk b (receives a)
  unfolding step receive
  receive_ok b a v = elim (List-cases (b.chans a).buffer) [
    | inl e ↦ (b, rw (e, receive), v, omega arith)
    | inr (x, rest, e) ↦
        let c : Chan E = record (b.chans a) { buffer = rest } in
        (
          record b { chans = update b.chans a c },
          rw (e, receive),
          record {
            registered =
                keep b.chans (update b.chans a c) _ _ _ _ b.subs
                  (λ k _ is_open. update-closed b.chans a k c refl ∙ is_open) (omega arith)
                  (omega arith) v.registered;
            roomy = update-AllRoomy b.chans a c (omega (arith, ap length e, v.roomy a)) v.roomy;
          },
          omega arith,
        )
  ]

  pub step_ok : (b : Broker E) (k : Call E) → IsValid b → b.next_id + 1 < 2 ^ 64 → StepOk b k
  step_ok b subscribes v lt = subscribe_ok b v lt
  step_ok b (unsubscribes id) v lt = unsubscribe_ok b id v
  step_ok b (publishes e) v lt = publish_ok b e v
  step_ok b (receives a) v lt = receive_ok b a v

  pub run-IsValid :
      (b : Broker E) (ks : List (Call E))
      → IsValid b
      → b.next_id + length ks < 2 ^ 64
      → (b' : Broker E) × (run b ks ≡ some b') × IsValid b'
  unfolding run
  run-IsValid b [] v lt = (b, refl, v)
  run-IsValid b (k ∷ ks) v lt =
      let (b₁, done, v₁, le) = step_ok b k v (omega arith) in
      let (b', more, v') = run-IsValid b₁ ks v₁ (omega arith) in (b', rw (done, run) more, v')

  pub new_broker-IsValid : (buf_size : ℕ) → IsValid (new_broker {E = E} buf_size)
  unfolding new_broker
  new_broker-IsValid buf_size = record { registered = tt; roomy = λ a. omega arith }

  -- From a new broker no sequence of fewer than 2^64 calls panics, whatever ids are unsubscribed,
  -- how often, and whatever is published in between. At its end every registered channel is open
  -- and has its own id and address, and no channel holds more than its buffer size.
  run-new_broker :
      (buf_size : ℕ) (ks : List (Call E))
      → length ks < 2 ^ 64
      → (b : Broker E) × (run (new_broker buf_size) ks ≡ some b) × IsValid b
  unfolding new_broker
  run-new_broker buf_size ks lt =
      run-IsValid (new_broker buf_size) ks (new_broker-IsValid buf_size) (omega arith)
