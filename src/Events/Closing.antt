-- ===== src/Events/Closing.antt =====
-- One step of a call of `handleEvents` in internal/httpapi/ws.go: it cannot panic, and when it
-- returns its subscription is gone.
use tg_bridge.Prelude.{
  ℕ, ◌≡◌, ◌⊎◌, inl, inr, refl, sym, ap, ◌∙◌, Bool, true, false, Option, none, some, List, [], ◌∷◌,
  ◌++◌, ◌==◌, All, Bool-cases, Option-cases, List-cases, subst,
}
use tg_bridge.Http.{event_allowed}
use tg_bridge.Messages.{Event}
use tg_bridge.Broker.{Chan, Broker, lookup, delete, update, close, unsubscribe, receive, step}
use tg_bridge.Broker.Valid.{IsValid, lookup_own}
use tg_bridge.Broker.Safe.{unsubscribe_ok, receive_ok}
use tg_bridge.Events.{
  Session, close_session, handle_event, receive_event, Wake, context_ends, channel, ticker,
  session_step,
}

abbrev pub AllBuffers : (Event → Type 0) → Broker Event → Type 0
AllBuffers P b = (a : ℕ) → All P (b.chans a).buffer

delete-absent : (id : ℕ) (s : List (ℕ × ℕ)) → lookup id s ≡ none → delete id s ≡ s
unfolding lookup delete
delete-absent id [] e = refl
delete-absent id ((i, a) ∷ s) e = elim (Bool-cases (i == id)) [
  | inl same ↦ let found : lookup id ((i, a) ∷ s) ≡ some a = rw same refl in cc
  | inr other ↦ rw other (ap (λ r. (i, a) ∷ r) (delete-absent id s (rw other at e)))
]

-- What a call on a broker leaves: of the ids just those in `left`, and no event that was
-- not there before.
pub record Leaves (b b' : Broker Event) (left : List (ℕ × ℕ)) : Type 1 where
  pub valid : IsValid b'
  pub subs : b'.subs ≡ left
  pub next_id : b'.next_id ≡ b.next_id
  pub buffers : (P : Event → Type 0) → AllBuffers P b → AllBuffers P b'

unsubscribe-Leaves :
    (b : Broker Event) (id : ℕ)
    → IsValid b
    → (b' : Broker Event) × (unsubscribe b id ≡ some b') × Leaves b b' (delete id b.subs)
unfolding step unsubscribe close update
unsubscribe-Leaves b id v =
    let (b₂, done, v₂, le) = unsubscribe_ok b id v in
    elim (Option-cases (lookup id b.subs)) [
      | inl e ↦ (
        b,
        rw (unsubscribe, e) refl,
        record {
          valid = v;
          subs = sym (delete-absent id b.subs e);
          next_id = refl;
          buffers = λ P all. all;
        },
      )
      | inr (a, e) ↦
          let is_open = (lookup_own b.chans b.next_id b.next_addr id a b.subs v.registered e).0 in
          let b' : Broker Event = record b {
            subs = delete id b.subs;
            chans = update b.chans a (record (b.chans a) { closed = true });
          } in
          let mine : unsubscribe b id ≡ some b' = rw (unsubscribe, e, is_open) refl in
          let same : b₂ ≡ b' = cc in
          (
            b',
            mine,
            record {
              valid = subst IsValid same v₂;
              subs = refl;
              next_id = refl;
              buffers = λ P all k. kept P a (record (b.chans a) { closed = true }) (all a) all k;
            },
          )
    ]
  where
    kept :
        (P : Event → Type 0) (a : ℕ) (c : Chan Event)
        → All P c.buffer
        → AllBuffers P b
        → (k : ℕ) → All P (update b.chans a c k).buffer
    kept P a c here all k = elim (Bool-cases (k == a)) [ inl e ↦ rw e here | inr e ↦ rw e (all k) ]

receive-Leaves :
    (b : Broker Event) (a : ℕ)
    → IsValid b
    → Leaves b (receive b a).0 b.subs
      × (((receive b a).1 ≡ none)
          ⊎ ((ev : Event) × (rest : List Event) × ((receive b a).1 ≡ some ev)
              × ((b.chans a).buffer ≡ ev ∷ rest)))
unfolding step receive update
receive-Leaves b a v =
    let (b₂, done, v₂, le) = receive_ok b a v in
    elim (List-cases (b.chans a).buffer) [
      | inl e ↦
          rw (receive, e)
            (record { valid = v; subs = refl; next_id = refl; buffers = λ P all. all }, inl refl)
      | inr (ev, rest, e) ↦
          let b' : Broker Event = record b {
            chans = update b.chans a (record (b.chans a) { buffer = rest });
          } in
          let mine : receive b a ≡ (b', some ev) = rw (receive, e) refl in
          let same : b₂ ≡ b' = cc in
          rw mine (
            record {
              valid = subst IsValid same v₂;
              subs = refl;
              next_id = refl;
              buffers = λ P all k. taken P ev rest e (all a) all k;
            },
            inr (ev, rest, refl, e),
          )
    ]
  where
    taken :
        (P : Event → Type 0) (ev : Event) (rest : List Event)
        → (b.chans a).buffer ≡ ev ∷ rest
        → All P (b.chans a).buffer
        → AllBuffers P b
        → (k : ℕ) → All P (update b.chans a (record (b.chans a) { buffer = rest }) k).buffer
    taken P ev rest e here all k = elim (Bool-cases (k == a)) [
      | inl t ↦ rw t (subst (All P) e here).1
      | inr t ↦ rw t (all k)
    ]

Leaves-trans :
    (b b₁ b₂ : Broker Event) (id : ℕ)
    → Leaves b b₁ b.subs
    → Leaves b₁ b₂ (delete id b₁.subs)
    → Leaves b b₂ (delete id b.subs)
Leaves-trans b b₁ b₂ id l m = record {
  valid = m.valid;
  subs = m.subs ∙ ap (delete id) l.subs;
  next_id = m.next_id ∙ l.next_id;
  buffers = λ P all. m.buffers P (l.buffers P all);
}

Leaves-refl : (b : Broker Event) → IsValid b → Leaves b b b.subs
Leaves-refl b v = record { valid = v; subs = refl; next_id = refl; buffers = λ P all. all }

-- What a step does: the loop goes on with its subscription, or ends without it.
pub record Went (b : Broker Event) (s : Session) (b' : Broker Event) (s' : Session) : Type 1 where
  pub ids : (s'.id ≡ s.id) × (s'.addr ≡ s.addr) × (s'.client ≡ s.client)
  pub runs :
      ((s'.is_running ≡ s.is_running) × Leaves b b' b.subs)
      ⊎ ((s'.is_running ≡ false) × Leaves b b' (delete s.id b.subs))
  pub writes :
      (s'.written ≡ s.written)
      ⊎ ((ev : Event) × (rest : List Event) × ((b.chans s.addr).buffer ≡ ev ∷ rest)
          × (event_allowed s.client ev.chat_id ≡ true)
          × (s'.written ≡ s.written ++ (ev ∷ [])))

abbrev Goes : Broker Event → Session → Option (Broker Event × Session) → Type 1
Goes b s r = (b' : Broker Event) × (s' : Session) × (r ≡ some (b', s')) × Went b s b' s'

close_session-Goes :
    (b b₁ : Broker Event) (s : Session) → Leaves b b₁ b.subs → Goes b s (close_session b₁ s)
unfolding close_session
close_session-Goes b b₁ s l =
    let (b', done, m) = unsubscribe-Leaves b₁ s.id l.valid in
    (
      b',
      record s { is_running = false },
      rw (close_session, done) refl,
      record {
        ids = (refl, refl, refl);
        runs = inr (refl, Leaves-trans b b₁ b' s.id l m);
        writes = inl refl;
      },
    )

stays-Goes : (b b₁ : Broker Event) (s : Session) → Leaves b b₁ b.subs → Goes b s (some (b₁, s))
stays-Goes b b₁ s l =
    (b₁, s, refl, record { ids = (refl, refl, refl); runs = inl (refl, l); writes = inl refl })

handle_event-Goes :
    (b b₁ : Broker Event) (s : Session) (ok : Bool) (ev : Event) (rest : List Event)
    → (b.chans s.addr).buffer ≡ ev ∷ rest
    → Leaves b b₁ b.subs
    → Goes b s (handle_event b₁ s ok ev)
unfolding handle_event
handle_event-Goes b b₁ s ok ev rest held l = elim (Bool-cases (event_allowed s.client ev.chat_id)) [
  | inr e ↦ rw (handle_event, e) (stays-Goes b b₁ s l)
  | inl e ↦ elim (Bool-cases ok) [
    | inr o ↦ rw (handle_event, e, o) (close_session-Goes b b₁ s l)
    | inl o ↦
        rw (handle_event, e, o)
          (
            b₁,
            record s { written = s.written ++ (ev ∷ []) },
            refl,
            record {
              ids = (refl, refl, refl);
              runs = inl (refl, l);
              writes = inr (ev, rest, held, e, refl);
            },
          )
  ]
]

receive_event-Goes :
    (b : Broker Event) (s : Session) (ok : Bool) → IsValid b → Goes b s (receive_event b s ok)
unfolding receive_event
receive_event-Goes b s ok v =
    let (l, got) = receive-Leaves b s.addr v in
    elim got [
      | inl e ↦ elim (Bool-cases (b.chans s.addr).closed) [
        | inl c ↦ rw (receive_event, e, c) (close_session-Goes b (receive b s.addr).0 s l)
        | inr c ↦ rw (receive_event, e, c) (stays-Goes b (receive b s.addr).0 s l)
      ]
      | inr (ev, rest, e, held) ↦
          rw (receive_event, e) (handle_event-Goes b (receive b s.addr).0 s ok ev rest held l)
    ]

-- On a valid broker no step of `handleEvents` panics, and it leaves a valid broker. Either the loop
-- goes on and the broker's map stays, or it ends and the map has lost its id and no other. At most
-- one event is written, the first of its channel, and only when the client's list allows its chat.
pub session_step-Went :
    (b : Broker Event) (s : Session) (w : Wake)
    → IsValid b
    → (b' : Broker Event) × (s' : Session) × (session_step b s w ≡ some (b', s')) × Went b s b' s'
unfolding session_step
session_step-Went b s context_ends v = close_session-Goes b b s (Leaves-refl b v)
session_step-Went b s (channel ok) v = receive_event-Goes b s ok v
session_step-Went b s (ticker true) v = stays-Goes b b s (Leaves-refl b v)
session_step-Went b s (ticker false) v = close_session-Goes b b s (Leaves-refl b v)
