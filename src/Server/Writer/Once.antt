-- ===== src/Server/Writer/Once.antt =====
-- A handler behind `statusWriter` of internal/httpapi/middleware.go that sets one status at most.
use tg_bridge.Prelude.{ℕ, ◌≡◌, refl, sym, ◌∙◌, none, some, List, [], ◌∷◌}
use tg_bridge.Server.Writer.{
  IsFinal, HttpLib, WriterCall, sets, heads, writes, StatusWriter, write_header, apply, apply_all,
}

-- The handler sets no status any more.
abbrev pub IsTail : List WriterCall → Type 0
IsTail [] = Unit
IsTail (sets k v ∷ os) = IsTail os
IsTail (heads code ∷ os) = ⊥
IsTail (writes b ∷ os) = IsTail os

-- The handler sets at most one status, a final one, and before the body.
abbrev pub IsOnce : List WriterCall → Type 0
IsOnce [] = Unit
IsOnce (sets k v ∷ os) = IsOnce os
IsOnce (heads code ∷ os) = IsFinal code × IsTail os
IsOnce (writes b ∷ os) = IsTail os

module _ {Writer : Type 0} (lib : HttpLib Writer) where
  -- The status that the client gets, when the handler has returned.
  abbrev pub on_wire : Writer → ℕ
  on_wire w = elim (lib.status w) [ none ↦ 200 | some code ↦ code ]

  pub on_wire_sent : (w : Writer) (code : ℕ) → lib.status w ≡ some code → on_wire w ≡ code
  on_wire_sent w code e = rw (on_wire, e) refl

  -- The status stands, and is the one that will be logged.
  abbrev IsDecided : ℕ → StatusWriter lib → Type 0
  IsDecided code s = (lib.status s.inner ≡ some code) × (s.code ≡ code)

  tail-IsDecided :
      (code : ℕ) (s : StatusWriter lib) (os : List WriterCall)
      → IsTail os
      → IsDecided code s
      → IsDecided code (apply_all lib s os)
  unfolding apply_all apply
  tail-IsDecided code s [] t h = h
  tail-IsDecided code s (sets k v ∷ os) t (sent, logged) =
      tail-IsDecided code (apply lib s (sets k v)) os t
        (lib.status-set_header s.inner k v ∙ sent, logged)
  tail-IsDecided code s (heads n ∷ os) t h = absurd t
  tail-IsDecided code s (writes b ∷ os) t (sent, logged) =
      tail-IsDecided code (apply lib s (writes b)) os t
        (lib.status_kept s.inner code b sent, logged)

  pub apply_all_once :
      (s : StatusWriter lib) (os : List WriterCall)
      → IsOnce os
      → lib.status s.inner ≡ none
      → s.code ≡ 200
      → let s' = apply_all lib s os in on_wire s'.inner ≡ s'.code
  unfolding apply_all apply write_header
  apply_all_once s [] o fresh start = rw (on_wire, fresh) (sym start)
  apply_all_once s (sets k v ∷ os) o fresh start =
      apply_all_once (apply lib s (sets k v)) os o (lib.status-set_header s.inner k v ∙ fresh) start
  apply_all_once s (heads code ∷ os) (final, t) fresh start =
      let (sent, logged) =
        tail-IsDecided code (apply lib s (heads code)) os t
          (lib.status_first s.inner code fresh final, refl) in
      on_wire_sent _ _ sent ∙ sym logged
  apply_all_once s (writes b ∷ os) t fresh start =
      let (sent, logged) =
        tail-IsDecided 200 (apply lib s (writes b)) os t
          (lib.status_implied s.inner b fresh, start) in
      on_wire_sent _ _ sent ∙ sym logged
