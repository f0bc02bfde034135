-- ===== src/Events/Clients.antt =====
-- An event stream of internal/httpapi/ws.go stays with the client that has opened it.
use tg_bridge.Prelude.{
  ℕ, ◌≡◌, inl, inr, Bool, true, false, Option, none, some, List, [], ◌∷◌, ◌==◌, Str, Bool-cases,
  Option-cases, subst, refl, ap, map,
}
use tg_bridge.Config.{ClientConfig, Config}
use tg_bridge.Http.{event_allowed}
use tg_bridge.MediaId.{MediaCrypto}
use tg_bridge.Messages.{Event, dispatch_message}
use tg_bridge.Broker.{Broker, unsubscribe, receive}
use tg_bridge.Events.{
  Session, Wake, context_ends, channel, ticker, open_session, close_session, handle_event,
  receive_event, session_step, Streams, Turn, opens, wakes, arrives, wake_session, turn,
}

module _ (P : Option ClientConfig → Type 0) where
  -- The client of the session that is left, if nothing panics.
  abbrev Keeps : Option (Broker Event × Session) → Type 0
  Keeps none = Unit
  Keeps (some (b, s)) = P s.client

  close_session-Keeps : (b : Broker Event) (s : Session) → P s.client → Keeps (close_session b s)
  unfolding close_session
  close_session-Keeps b s p = elim (Option-cases (unsubscribe b s.id)) [
    | inl e ↦ rw (close_session, e) tt
    | inr (b', e) ↦ rw (close_session, e) p
  ]

  handle_event-Keeps :
      (b : Broker Event) (s : Session) (ok : Bool) (ev : Event)
      → P s.client
      → Keeps (handle_event b s ok ev)
  unfolding handle_event
  handle_event-Keeps b s ok ev p = elim (Bool-cases (event_allowed s.client ev.chat_id)) [
    | inr e ↦ rw (handle_event, e) p
    | inl e ↦ elim (Bool-cases ok) [
      | inl o ↦ rw (handle_event, e, o) p
      | inr o ↦ rw (handle_event, e, o) (close_session-Keeps b s p)
    ]
  ]

  receive_event-Keeps :
      (b : Broker Event) (s : Session) (ok : Bool) → P s.client → Keeps (receive_event b s ok)
  unfolding receive_event
  receive_event-Keeps b s ok p = elim (Option-cases (receive b s.addr).1) [
    | inr (ev, e) ↦ rw (receive_event, e) (handle_event-Keeps (receive b s.addr).0 s ok ev p)
    | inl e ↦ elim (Bool-cases (b.chans s.addr).closed) [
      | inl c ↦ rw (receive_event, e, c) (close_session-Keeps (receive b s.addr).0 s p)
      | inr c ↦ rw (receive_event, e, c) p
    ]
  ]

  session_step-Keeps :
      (b : Broker Event) (s : Session) (w : Wake) → P s.client → Keeps (session_step b s w)
  unfolding session_step
  session_step-Keeps b s context_ends p = close_session-Keeps b s p
  session_step-Keeps b s (channel ok) p = receive_event-Keeps b s ok p
  session_step-Keeps b s (ticker true) p = p
  session_step-Keeps b s (ticker false) p = close_session-Keeps b s p

abbrev pub clients_of : List Session → List (Option ClientConfig)
clients_of ss = map (λ (s : Session). s.client) ss

-- The list of sessions that is left has the same clients, if nothing panics.
abbrev KeepsAll : List Session → Option (Broker Event × List Session) → Type 0
KeepsAll ss none = Unit
KeepsAll ss (some (b, ss')) = clients_of ss' ≡ clients_of ss

wake_session-KeepsAll :
    (b : Broker Event) (addr : ℕ) (w : Wake) (ss : List Session)
    → KeepsAll ss (wake_session b addr w ss)
unfolding wake_session
wake_session-KeepsAll b addr w [] = refl
wake_session-KeepsAll b addr w (s ∷ ss) = elim (Bool-cases (s.addr == addr)) [
  | inl here ↦ elim (Bool-cases s.is_running) [
    | inr e ↦ rw (wake_session, here, e) refl
    | inl e ↦ elim (Option-cases (session_step b s w)) [
      | inl n ↦ rw (wake_session, here, e, n) tt
      | inr ((b', s'), n) ↦
          let same : s'.client ≡ s.client =
            subst (Keeps (λ x. x ≡ s.client)) n
              (session_step-Keeps (λ x. x ≡ s.client) b s w refl) in
          rw (wake_session, here, e, n) (ap (λ x. x ∷ clients_of ss) same)
    ]
  ]
  | inr other ↦
      let rest = wake_session-KeepsAll b addr w ss in
      elim (Option-cases (wake_session b addr w ss)) [
        | inl n ↦ rw (wake_session, other, n) tt
        | inr ((b', ss'), n) ↦
            rw (wake_session, other, n) (ap (λ x. s.client ∷ x) (subst (KeepsAll ss) n rest))
      ]
]

-- The clients of the streams after a turn.
abbrev pub next_clients : List Session → Turn → List (Option ClientConfig)
next_clients ss (opens client) = client ∷ clients_of ss
next_clients ss (wakes addr w) = clients_of ss
next_clients ss (arrives e m) = clients_of ss

abbrev KeepsStreams : List (Option ClientConfig) → Option Streams → Type 0
KeepsStreams cs none = Unit
KeepsStreams cs (some t) = clients_of t.sessions ≡ cs

turn-KeepsStreams :
    (c : MediaCrypto) (media_key : Str) (cfg : Config) (t : Streams) (x : Turn)
    → KeepsStreams (next_clients t.sessions x) (turn c media_key cfg t x)
unfolding turn open_session
turn-KeepsStreams c media_key cfg t (opens client) = refl
turn-KeepsStreams c media_key cfg t (wakes addr w) =
    let kept = wake_session-KeepsAll t.broker addr w t.sessions in
    elim (Option-cases (wake_session t.broker addr w t.sessions)) [
      | inl n ↦ rw (turn, n) tt
      | inr ((b, ss), n) ↦ rw (turn, n) (subst (KeepsAll t.sessions) n kept)
    ]
turn-KeepsStreams c media_key cfg t (arrives e m) =
    elim (Option-cases (dispatch_message c media_key cfg t.broker e m)) [
      | inl n ↦ rw (turn, n) tt
      | inr (b, n) ↦ rw (turn, n) refl
    ]

-- A turn opens a stream for its client, in front, and leaves the others to theirs.
pub turn-clients_of :
    (c : MediaCrypto) (media_key : Str) (cfg : Config) (t t' : Streams) (x : Turn)
    → turn c media_key cfg t x ≡ some t'
    → clients_of t'.sessions ≡ next_clients t.sessions x
turn-clients_of c media_key cfg t t' x done =
    subst (KeepsStreams (next_clients t.sessions x)) done (turn-KeepsStreams c media_key cfg t x)
