-- ===== src/Events/Private.antt =====
-- What the event streams of internal/httpapi/ws.go write, over any course of the bridge.
use tg_bridge.Prelude.{
  ℕ, ◌+◌, ◌^◌, ◌≡◌, ◌≤◌, ◌<◌, inl, inr, refl, sym, ap, ◌∙◌, true, Option, none, some, List, [], ◌∷◌,
  ◌++◌, length, ltb, Str, All, All-append, arith, Bool-cases, Option-cases, subst,
}
use tg_bridge.Prelude.Int.{ℤ, pos}
use tg_bridge.Config.{ClientConfig, Config}
use tg_bridge.Http.{chat_allowed}
use tg_bridge.MediaId.{MediaCrypto}
use tg_bridge.Chats.{MessageClass, a_message, other_message}
use tg_bridge.Messages.{Event, Entities, to_message, message_event, dispatch_message}
use tg_bridge.Messages.Same.{message_event-to_message}
use tg_bridge.Broker.{Chan, Broker, fresh, lookup, new_broker, publish, step, subscribes}
use tg_bridge.Broker.Valid.{IsValid, offered}
use tg_bridge.Broker.Safe.{
  subscribed, subscribe-subscribed, subscribe_ok, publish_ok, new_broker-IsValid,
}
use tg_bridge.Broker.Delivery.{has, publish-offered}
use tg_bridge.Events.{
  Session, open_session, Streams, no_streams, Turn, opens, wakes, arrives, turn, run,
}
use tg_bridge.Events.Closing.{AllBuffers}
use tg_bridge.Events.Proper.{
  Known, IsProper, Kept, All-map, update-All, open-IsProper, Kept-refl, wake_session-Kept,
}

module _ (cfg : Config) where
  pub record IsPrivate (t : Streams) : Type 0 where
    pub valid : IsValid t.broker
    pub buffers : AllBuffers (Known cfg) t.broker
    pub sessions : All (IsProper cfg t.broker) t.sessions

  open-IsPrivate :
      (t : Streams) (client : Option ClientConfig)
      → IsPrivate t
      → t.broker.next_id + 1 < 2 ^ 64
      → let (b, s) = open_session client t.broker in
        IsPrivate (record { broker = b; sessions = s ∷ t.sessions })
        × (b.next_id ≤ t.broker.next_id + 1)
  unfolding open_session step subscribed
  open-IsPrivate t client p lt =
      let b = t.broker in
      let (b₂, done, v₂, le) = subscribe_ok b p.valid lt in
      let made = subscribe-subscribed b lt in
      let mine : step b subscribes ≡ some (subscribed b) =
        ap (λ (r : Broker Event × ℕ × ℕ). some r.0) made in
      let same : b₂ ≡ subscribed b = cc in
      let s : Session = record {
        id = b.next_id + 1;
        addr = b.next_addr;
        client = client;
        is_running = true;
        written = [];
      } in
      let opened : open_session client b ≡ (subscribed b, s) =
        ap
          (λ (r : Broker Event × ℕ × ℕ). (
            r.0,
            record { id = r.1; addr = r.2; client = client; is_running = true; written = [] },
          ))
          made in
      subst
        (λ (r : Broker Event × Session).
          IsPrivate (record { broker = r.0; sessions = r.1 ∷ t.sessions })
          × (r.0.next_id ≤ b.next_id + 1))
        (sym opened)
        (
          record {
            valid = subst IsValid same v₂;
            buffers = update-All cfg b b.next_addr (fresh b.buf_size) tt p.buffers;
            sessions = (
              record { written = tt; closed = inl refl; old = omega arith },
              All-map (IsProper cfg b) (IsProper cfg (subscribed b)) t.sessions
                  (open-IsProper cfg b) p.sessions,
            );
          },
          omega arith,
        )

  known_event :
      (c : MediaCrypto) (media_key : Str) (e : Entities) (m : MessageClass) (ev : Event)
      → message_event c media_key cfg e m ≡ some ev
      → (Known cfg) ev
  unfolding message_event to_message
  known_event c media_key e other_message ev made = cc
  known_event c media_key e (a_message m) ev made =
      elim (message_event-to_message c media_key cfg e [] m) [
        | inl (nothing, why) ↦ cc
        | inr (it, incoming, ok) ↦
            let same =
              ap (λ o. elim o as (λ x. ℤ) [ none ↦ pos 0 | some x ↦ x.chat_id ]) (sym it ∙ made) in
            subst (λ k. chat_allowed cfg k ≡ true) same ok
      ]

  offered-All :
      (ev : Event) (x : Chan Event)
      → All (Known cfg) x.buffer
      → (Known cfg) ev
      → All (Known cfg) (offered ev x).buffer
  unfolding offered
  offered-All ev x all known = elim (Bool-cases (ltb (length x.buffer) x.cap)) [
    | inl e ↦
        let longer : (offered ev x).buffer ≡ x.buffer ++ (ev ∷ []) = rw (offered, e) refl in
        subst (All (Known cfg)) (sym longer)
          (All-append (Known cfg) x.buffer (ev ∷ []) all (known, tt))
    | inr e ↦
        let same : (offered ev x).buffer ≡ x.buffer = rw (offered, e) refl in
        subst (All (Known cfg)) (sym same) all
  ]

  publish-Kept :
      (b : Broker Event) (ev : Event)
      → IsValid b
      → AllBuffers (Known cfg) b
      → (Known cfg) ev
      → (b' : Broker Event) × (publish b ev ≡ some b') × Kept cfg b b'
  unfolding step offered
  publish-Kept b ev v all known =
      let (b', done, subs, ids, count, told, others) = publish-offered b ev v in
      let (b₂, done₂, v₂, le) = publish_ok b ev v in
      let same : b₂ ≡ b' = cc in
      (
        b',
        done,
        record {
          valid = subst IsValid same v₂;
          buffers = λ a. elim (Bool-cases (has a b.subs)) [
            | inl h ↦
                subst (λ (x : Chan Event). All (Known cfg) x.buffer) (sym (told a h))
                  (offered-All ev (b.chans a) (all a) known)
            | inr h ↦
                subst (λ (x : Chan Event). All (Known cfg) x.buffer) (sym (others a h)) (all a)
          ];
          next_id = ids;
          proper = λ s p. record {
            written = p.written;
            closed = elim p.closed [ inl e ↦ inl e | inr e ↦ inr (ap (lookup s.id) subs ∙ e) ];
            old = omega (arith, p.old, ids);
          };
        },
      )

  dispatch_message-Kept :
      (c : MediaCrypto) (media_key : Str) (b : Broker Event) (e : Entities) (m : MessageClass)
      → IsValid b
      → AllBuffers (Known cfg) b
      → (b' : Broker Event) × (dispatch_message c media_key cfg b e m ≡ some b') × Kept cfg b b'
  unfolding dispatch_message
  dispatch_message-Kept c media_key b e m v all =
      elim (Option-cases (message_event c media_key cfg e m)) [
        | inl n ↦ (b, rw (dispatch_message, n) refl, Kept-refl cfg b v all)
        | inr (ev, made) ↦
            let (b', done, k) = publish-Kept b ev v all (known_event c media_key e m ev made) in
            (b', rw (dispatch_message, made) done, k)
      ]

  pub turn-IsPrivate :
      (c : MediaCrypto) (media_key : Str) (t : Streams) (x : Turn)
      → IsPrivate t
      → t.broker.next_id + 1 < 2 ^ 64
      → (t' : Streams) × (turn c media_key cfg t x ≡ some t')
        × IsPrivate t'
        × (t'.broker.next_id ≤ t.broker.next_id + 1)
  unfolding turn
  turn-IsPrivate c media_key t (opens client) p lt =
      let (made, le) = open-IsPrivate t client p lt in (_, refl, made, le)
  turn-IsPrivate c media_key t (wakes addr w) p lt =
      let (b', ss', done, k, ps) =
        wake_session-Kept cfg t.broker addr w t.sessions p.valid p.buffers p.sessions in
      (
        record { broker = b'; sessions = ss' },
        rw (turn, done) refl,
        record { valid = k.valid; buffers = k.buffers; sessions = ps },
        omega (arith, k.next_id),
      )
  turn-IsPrivate c media_key t (arrives e m) p lt =
      let (b', done, k) = dispatch_message-Kept c media_key t.broker e m p.valid p.buffers in
      (
        record t { broker = b' },
        rw (turn, done) refl,
        record {
          valid = k.valid;
          buffers = k.buffers;
          sessions =
              All-map (IsProper cfg t.broker) (IsProper cfg b') t.sessions k.proper p.sessions;
        },
        omega (arith, k.next_id),
      )

  run-IsPrivate :
      (c : MediaCrypto) (media_key : Str) (t : Streams) (xs : List Turn)
      → IsPrivate t
      → t.broker.next_id + length xs < 2 ^ 64
      → (t' : Streams) × (run c media_key cfg t xs ≡ some t') × IsPrivate t'
  unfolding run
  run-IsPrivate c media_key t [] p lt = (t, refl, p)
  run-IsPrivate c media_key t (x ∷ xs) p lt =
      let (t₁, done, p₁, le) = turn-IsPrivate c media_key t x p (omega arith) in
      let (t', more, p') = run-IsPrivate c media_key t₁ xs p₁ (omega arith) in
      (t', rw (run, done) more, p')

pub no_streams-IsPrivate : (cfg : Config) → IsPrivate cfg no_streams
unfolding no_streams new_broker
no_streams-IsPrivate cfg = record {
  valid = new_broker-IsValid 64;
  buffers = λ a. tt;
  sessions = tt;
}

-- From the start, whatever streams are opened, in whatever order they go on and whatever updates
-- arrive, fewer than 2^64 turns do not panic. Every event that a stream has written is of a chat
-- that the bridge's allow-list and its client's allow, and the map of the broker holds the id of no
-- stream that has returned.
run-no_streams :
    (c : MediaCrypto) (media_key : Str) (cfg : Config) (xs : List Turn)
    → length xs < 2 ^ 64
    → (t : Streams) × (run c media_key cfg no_streams xs ≡ some t)
      × All (IsProper cfg t.broker) t.sessions
unfolding no_streams new_broker
run-no_streams c media_key cfg xs lt =
    let (t, done, p) =
      run-IsPrivate cfg c media_key no_streams xs (no_streams-IsPrivate cfg) (omega arith) in
    (t, done, p.sessions)
