-- ===== src/Events/Proper.antt =====
-- One step of an event stream of internal/httpapi/ws.go, and what it leaves to the other streams.
use tg_bridge.Prelude.{
  ℕ, ◌+◌, ◌≡◌, ◌≤◌, ◌⊎◌, inl, inr, refl, sym, ap, ◌∙◌, true, false, Option, none, some, List, [],
  ◌∷◌, ◌==◌, All, All-append, arith, Bool-cases, subst,
}
use tg_bridge.Config.{ClientConfig, Config}
use tg_bridge.Http.{event_allowed, chat_allowed}
use tg_bridge.Messages.{Event}
use tg_bridge.Broker.{Chan, Broker, lookup, delete, update}
use tg_bridge.Broker.Valid.{IsValid}
use tg_bridge.Broker.Safe.{subscribed}
use tg_bridge.Broker.Shown.{lookup-delete}
use tg_bridge.Events.{Session, Wake, session_step, wake_session}
use tg_bridge.Events.Closing.{AllBuffers, Leaves, Went, session_step-Went}

pub All-map {ℓ} :
    {A : Type ℓ} (P Q : A → Type 0) (xs : List A) → ((x : A) → P x → Q x) → All P xs → All Q xs
All-map P Q [] f all = tt
All-map P Q (x ∷ xs) f (p, all) = (f x p, All-map P Q xs f all)

module _ (cfg : Config) where
  -- The bridge's allow-list permits the chat of an event.
  abbrev pub Known : Event → Type 0
  Known ev = chat_allowed cfg ev.chat_id ≡ true

  abbrev pub Allowed : Option ClientConfig → Event → Type 0
  Allowed client ev =
      (chat_allowed cfg ev.chat_id ≡ true) × (event_allowed client ev.chat_id ≡ true)

  -- A session has written only what both allow-lists permit, and once it has returned its id is
  -- in the broker's map no more.
  pub record IsProper (b : Broker Event) (s : Session) : Type 0 where
    pub written :
        All
          (λ ev. (chat_allowed cfg ev.chat_id ≡ true) × (event_allowed s.client ev.chat_id ≡ true))
          s.written
    pub closed : (s.is_running ≡ true) ⊎ (lookup s.id b.subs ≡ none)
    pub old : s.id ≤ b.next_id

  pub update-All :
      (b : Broker Event) (a : ℕ) (c : Chan Event)
      → All Known c.buffer
      → AllBuffers Known b
      → (k : ℕ) → All Known (update b.chans a c k).buffer
  unfolding update
  update-All b a c here all k = elim (Bool-cases (k == a)) [
    | inl e ↦ rw e here
    | inr e ↦ rw e (all k)
  ]

  -- A new subscription takes no session's id.
  pub open-IsProper : (b : Broker Event) (s : Session) → IsProper b s → IsProper (subscribed b) s
  unfolding subscribed lookup
  open-IsProper b s p = record {
    written = p.written;
    closed = elim p.closed [
      | inl e ↦ inl e
      | inr e ↦
          let old = p.old in
          let other : (b.next_id + 1 == s.id) ≡ false = ground arith in
          inr (rw other (lookup-delete (b.next_id + 1) s.id b.subs ∙ rw other e))
    ];
    old = omega (arith, p.old);
  }

  -- A broker of which at most an id has gone keeps the other sessions proper.
  Leaves-IsProper :
      (b b' : Broker Event) (id : ℕ) (s : Session)
      → (Leaves b b' b.subs) ⊎ (Leaves b b' (delete id b.subs))
      → IsProper b s
      → IsProper b' s
  Leaves-IsProper b b' id s (inl l) p = record {
    written = p.written;
    closed = elim p.closed [ inl e ↦ inl e | inr e ↦ inr (ap (lookup s.id) l.subs ∙ e) ];
    old = omega (arith, p.old, l.next_id);
  }
  Leaves-IsProper b b' id s (inr l) p = record {
    written = p.written;
    closed = elim p.closed [
      | inl e ↦ inl e
      | inr e ↦ inr (ap (lookup s.id) l.subs ∙ lookup-delete id s.id b.subs ∙ ground (arith, e))
    ];
    old = omega (arith, p.old, l.next_id);
  }

  -- The session that has gone a step.
  Went-IsProper :
      (b b' : Broker Event) (s s' : Session)
      → AllBuffers Known b
      → s.is_running ≡ true
      → Went b s b' s'
      → IsProper b s
      → IsProper b' s'
  Went-IsProper b b' s s' all running w p =
      let (same_id, same_addr, same_client) = w.ids in
      let old : s.id ≤ b'.next_id = elim w.runs [
        | inl (e, l) ↦ omega (arith, p.old, l.next_id)
        | inr (e, l) ↦ omega (arith, p.old, l.next_id)
      ] in
      record {
        written =
            subst (λ cl. All (Allowed cl) s'.written) (sym same_client)
              (elim w.writes [
                | inl e ↦ subst (All (Allowed s.client)) (sym e) p.written
                | inr (ev, rest, held, ok, e) ↦ subst (All (Allowed s.client)) (sym e) (
                    All-append (Allowed s.client) s.written (ev ∷ []) p.written
                      (((subst (All Known) held (all s.addr)).0, ok), tt))
              ]);
        closed = elim w.runs [
          | inl (e, l) ↦ inl (e ∙ running)
          | inr (e, l) ↦ inr (
              ap (λ i. lookup i b'.subs) same_id
              ∙ ap (lookup s.id) l.subs
              ∙ lookup-delete s.id s.id b.subs
              ∙ ground arith)
        ];
        old = subst (λ i. i ≤ b'.next_id) (sym same_id) old;
      }

  -- What a turn of one session leaves to the others.
  pub record Kept (b b' : Broker Event) : Type 0 where
    pub valid : IsValid b'
    pub buffers : AllBuffers Known b'
    pub next_id : b'.next_id ≡ b.next_id
    pub proper : (s : Session) → IsProper b s → IsProper b' s

  Went-Kept :
      (b b' : Broker Event) (s s' : Session) → AllBuffers Known b → Went b s b' s' → Kept b b'
  Went-Kept b b' s s' all w = elim w.runs [
    | inl (e, l) ↦ record {
      valid = l.valid;
      buffers = l.buffers Known all;
      next_id = l.next_id;
      proper = λ o p. Leaves-IsProper b b' s.id o (inl l) p;
    }
    | inr (e, l) ↦ record {
      valid = l.valid;
      buffers = l.buffers Known all;
      next_id = l.next_id;
      proper = λ o p. Leaves-IsProper b b' s.id o (inr l) p;
    }
  ]

  pub Kept-refl : (b : Broker Event) → IsValid b → AllBuffers Known b → Kept b b
  Kept-refl b v all = record { valid = v; buffers = all; next_id = refl; proper = λ s p. p }

  wake_here :
      (b b' : Broker Event) (addr : ℕ) (w : Wake) (s s' : Session) (ss : List Session)
      → (s.addr == addr) ≡ true
      → s.is_running ≡ true
      → session_step b s w ≡ some (b', s')
      → wake_session b addr w (s ∷ ss) ≡ some (b', s' ∷ ss)
  unfolding wake_session
  wake_here b b' addr w s s' ss same running done = ground (arith, same, running, done)

  pub wake_session-Kept :
      (b : Broker Event) (addr : ℕ) (w : Wake) (ss : List Session)
      → IsValid b
      → AllBuffers Known b
      → All (IsProper b) ss
      → (b' : Broker Event) × (ss' : List Session) × (wake_session b addr w ss ≡ some (b', ss'))
        × Kept b b'
        × All (IsProper b') ss'
  unfolding wake_session
  wake_session-Kept b addr w [] v all ps = (b, [], refl, Kept-refl b v all, tt)
  wake_session-Kept b addr w (s ∷ ss) v all (p, ps) = elim (Bool-cases (s.addr == addr)) [
    | inr other ↦
        let (b', ss', done, k, ps') = wake_session-Kept b addr w ss v all ps in
        (b', s ∷ ss', rw (wake_session, other, done) refl, k, (k.proper s p, ps'))
    | inl same ↦ elim (Bool-cases s.is_running) [
      | inr stopped ↦ (b, s ∷ ss, ground (arith, same, stopped), Kept-refl b v all, (p, ps))
      | inl running ↦
          let (b', s', done, went) = session_step-Went b s w v in
          let k = Went-Kept b b' s s' all went in
          (
            b',
            s' ∷ ss,
            wake_here b b' addr w s s' ss same running done,
            k,
            (
              Went-IsProper b b' s s' all running went p,
              All-map (IsProper b) (IsProper b') ss k.proper ps,
            ),
          )
    ]
  ]
