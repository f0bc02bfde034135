-- ===== src/Broker/Refine.antt =====
-- The broker of internal/bridge/updates.go is a `Fan`.
use tg_bridge.Prelude.{
  ℕ, zero, suc, ◌+◌, ◌-◌, ◌^◌, ◌≡◌, ◌≤◌, ◌<◌, inl, inr, refl, sym, ap, ◌∙◌, true, false, none, some,
  List, [], ◌∷◌, length, ◌==◌, All, arith, dec_lt, Bool-cases, List-cases, subst,
}
use tg_bridge.Broker.{
  Chan, Broker, update, lookup, delete, new_broker, close, unsubscribe, publish, receive, Call,
  subscribes, unsubscribes, publishes, receives, step,
}
use tg_bridge.Broker.Valid.{IsValid, All-delete, lookup_own, offered}
use tg_bridge.Broker.Safe.{step_ok, new_broker-IsValid}
use tg_bridge.Broker.Delivery.{has, publish-offered}
use tg_bridge.Broker.Fan.{Fan, empty, leave, tell, rest, take, act, replies}
use tg_bridge.Broker.Shown.{
  lookup-delete, lookup-zero, reply, run_replies, IsFan, has-stays, Acts, subscribe-Acts,
}

module _ {E : Type 0} where
  -- The subscriber with the number `n` leaves, or has left before.
  leave_id-Acts :
      (b : Broker E) (f : Fan E) (n : ℕ) → IsFan b f → IsValid b → Acts b f (unsubscribes (n + 1))
  unfolding step act leave reply unsubscribe close update
  leave_id-Acts b f n i v =
      let zero_no : (n + 1 == 0) ≡ false = ground arith in
      let back : n + 1 - 1 ≡ n = omega arith in
      elim (Bool-cases (f.stays n)) [
        | inr gone ↦
            let none_there : lookup (n + 1) b.subs ≡ none = ground (arith, i.known n) in
            (
              b,
              rw (unsubscribe, none_there) refl,
              rw (zero_no, back)
                  (record {
                    count = i.count;
                    ids = i.ids;
                    cap = i.cap;
                    own_id = i.own_id;
                    known = λ k. ground (arith, i.known k);
                    later = λ k le. ground (arith, i.later k);
                    caps = i.caps;
                    queue = i.queue;
                  }),
              refl,
            )
        | inl here ↦
            let found : lookup (n + 1) b.subs ≡ some n = ground (arith, i.known n) in
            let is_open =
              (lookup_own b.chans b.next_id b.next_addr (n + 1) n b.subs v.registered found).0 in
            (
              record b {
                subs = delete (n + 1) b.subs;
                chans = update b.chans n (record (b.chans n) { closed = true });
              },
              rw (unsubscribe, found, is_open) refl,
              rw (zero_no, back)
                  (record {
                    count = i.count;
                    ids = i.ids;
                    cap = i.cap;
                    own_id = All-delete (λ t. t.0 ≡ t.1 + 1) (n + 1) b.subs i.own_id;
                    known = λ k. ground (arith, i.known k, lookup-delete (n + 1) (k + 1) b.subs);
                    later = λ k le. ground (arith, i.later k);
                    caps = λ k below. ground (arith, i.caps k);
                    queue = λ k. ground (arith, i.queue k);
                  }),
              refl,
            )
      ]

  unsubscribe-Acts :
      (b : Broker E) (f : Fan E) (id : ℕ) → IsFan b f → IsValid b → Acts b f (unsubscribes id)
  unfolding step act reply unsubscribe
  unsubscribe-Acts b f zero i v = (b, rw (unsubscribe, lookup-zero b.subs i.own_id) refl, i, refl)
  unsubscribe-Acts b f (suc n) i v =
      let e : suc n ≡ n + 1 = omega arith in
      subst (λ x. Acts b f (unsubscribes x)) (sym e) (leave_id-Acts b f n i v)

  buf_size-publish : (b b' : Broker E) (e : E) → publish b e ≡ some b' → b'.buf_size ≡ b.buf_size
  unfolding publish
  buf_size-publish b b' e done = ground arith

  stays-lt : (b : Broker E) (f : Fan E) (n : ℕ) → IsFan b f → f.stays n ≡ true → n < f.count
  stays-lt b f n i e = elim (dec_lt n f.count) [
    | yes below ↦ below
    | no above ↦ let gone = i.later n (omega arith) in absurd (ground arith)
  ]

  publish-Acts : (b : Broker E) (f : Fan E) (e : E) → IsFan b f → IsValid b → Acts b f (publishes e)
  unfolding step act tell reply offered
  publish-Acts b f e i v =
      let (b', done, subs, ids, count, told, others) = publish-offered b e v in
      let size = buf_size-publish b b' e done in
      (
        b',
        done,
        record {
          count = count ∙ i.count;
          ids = ids ∙ i.ids;
          cap = size ∙ i.cap;
          own_id = subst (All (λ t. t.0 ≡ t.1 + 1)) (sym subs) i.own_id;
          known = λ n. ap (lookup (n + 1)) subs ∙ i.known n;
          later = i.later;
          caps = λ n below. elim (Bool-cases (has n b.subs)) [
            | inl h ↦ ap (λ (c : Chan E). c.cap) (told n h) ∙ i.caps n below
            | inr h ↦ ap (λ (c : Chan E). c.cap) (others n h) ∙ i.caps n below
          ];
          queue = λ n. elim (Bool-cases (has n b.subs)) [
            | inl h ↦
                let here : f.stays n ≡ true = sym (has-stays b f n i) ∙ h in
                let cap = i.caps n (stays-lt b f n i here) in
                ap (λ (c : Chan E). c.buffer) (told n h) ∙ rw here (ground (arith, i.queue n, cap))
            | inr h ↦
                let gone : f.stays n ≡ false = sym (has-stays b f n i) ∙ h in
                ap (λ (c : Chan E). c.buffer) (others n h) ∙ rw gone (i.queue n)
          ];
        },
        refl,
      )

  receive-Acts : (b : Broker E) (f : Fan E) (k : ℕ) → IsFan b f → Acts b f (receives k)
  unfolding step act take reply receive update
  receive-Acts b f k i = elim (List-cases (b.chans k).buffer) [
    | inl e ↦
        let none_left : f.queue k ≡ [] = sym (i.queue k) ∙ e in
        (
          b,
          rw (receive, e) refl,
          record {
            count = i.count;
            ids = i.ids;
            cap = i.cap;
            own_id = i.own_id;
            known = i.known;
            later = i.later;
            caps = i.caps;
            queue = λ n. elim (Bool-cases (n == k)) [
              | inl same ↦
                  let at_k : n ≡ k = ground arith in
                  rw same (
                    i.queue n
                    ∙ ap f.queue at_k
                    ∙ none_left
                    ∙ ap rest (sym none_left)
                    ∙ ap (λ x. rest (f.queue x)) (sym at_k))
              | inr other ↦ rw other (i.queue n)
            ];
          },
          rw (reply, receive, e, none_left) refl,
        )
    | inr (x, q, e) ↦
        let held : f.queue k ≡ x ∷ q = sym (i.queue k) ∙ e in
        (
          record b { chans = update b.chans k (record (b.chans k) { buffer = q }) },
          rw (receive, e) refl,
          record {
            count = i.count;
            ids = i.ids;
            cap = i.cap;
            own_id = i.own_id;
            known = i.known;
            later = i.later;
            caps = λ n below. ground (arith, i.caps n);
            queue = λ n. elim (Bool-cases (n == k)) [
              | inl same ↦
                  let at_k : n ≡ k = ground arith in
                  rw same (ap rest (sym held) ∙ ap (λ y. rest (f.queue y)) (sym at_k))
              | inr other ↦ rw other (i.queue n)
            ];
          },
          rw (reply, receive, e, held) refl,
        )
  ]

  step-Acts :
      (b : Broker E) (f : Fan E) (k : Call E)
      → IsFan b f
      → IsValid b
      → b.next_id + 1 < 2 ^ 64
      → Acts b f k
  step-Acts b f subscribes i v lt = subscribe-Acts b f i lt
  step-Acts b f (unsubscribes id) i v lt = unsubscribe-Acts b f id i v
  step-Acts b f (publishes e) i v lt = publish-Acts b f e i v
  step-Acts b f (receives k) i v lt = receive-Acts b f k i

  run_replies-replies :
      (b : Broker E) (f : Fan E) (ks : List (Call E))
      → IsFan b f
      → IsValid b
      → b.next_id + length ks < 2 ^ 64
      → run_replies b ks ≡ some (replies f ks)
  unfolding run_replies replies
  run_replies-replies b f [] i v lt = refl
  run_replies-replies b f (k ∷ ks) i v lt =
      let (b', done, i', same) = step-Acts b f k i v (omega arith) in
      let (b₂, done₂, v₂, le) = step_ok b k v (omega arith) in
      let one : b₂ ≡ b' = cc in
      let more = run_replies-replies b' (act f k).0 ks i' (subst IsValid one v₂) (
        let le' : b'.next_id ≤ b.next_id + 1 =
          subst (λ (x : Broker E). x.next_id ≤ b.next_id + 1) one le in
        omega arith) in
      rw (run_replies, done, more, same) refl

  -- From the start, no sequence of fewer than 2^64 calls tells the broker from a `Fan`: no call
  -- panics, and each receiver gets what its own bounded queue gives it, in the order of publishing.
  pub run_replies_refines :
      (buf_size : ℕ) (ks : List (Call E))
      → length ks < 2 ^ 64
      → run_replies (new_broker buf_size) ks ≡ some (replies (empty buf_size) ks)
  unfolding new_broker empty lookup
  run_replies_refines buf_size ks lt =
      run_replies-replies (new_broker buf_size) (empty buf_size) ks
        (record {
          count = refl;
          ids = refl;
          cap = refl;
          own_id = tt;
          known = λ n. refl;
          later = λ n le. refl;
          caps = λ n below. absurd (omega arith);
          queue = λ n. refl;
        })
        (new_broker-IsValid buf_size) (omega arith)
