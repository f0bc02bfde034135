-- ===== src/Fetch/Ready.antt =====
-- The wait of `waitReady` in internal/bridge/bridge.go.
use tg_bridge.Prelude.{◌≡◌, refl, Bool, true, false, ◌||◌, some, List, [], ◌∷◌, ◌++◌, All}
use tg_bridge.Fetch.{Tick, tick, context_ends, wait_loop, wait_ready}

-- An event that is not the end of the context.
abbrev pub IsTick : Tick → Type 0
IsTick (tick ready) = Unit
IsTick context_ends = ⊥

-- The bridge is ready at one of the ticks.
abbrev pub any_ready : List Tick → Bool
any_ready [] = false
any_ready (tick ready ∷ ts) = ready || any_ready ts
any_ready (context_ends ∷ ts) = any_ready ts

-- The wait returns by the end of the context: with success just when the bridge is ready before
-- the wait, or at one of the ticks that come before the end.
pub wait_ready_returns :
    (ready : Bool) (before after : List Tick)
    → All IsTick before
    → wait_ready ready (before ++ context_ends ∷ after) ≡ some (ready || any_ready before)
unfolding wait_ready wait_loop
wait_ready_returns true before after all = refl
wait_ready_returns false [] after all = refl
wait_ready_returns false (tick true ∷ before) after all = refl
wait_ready_returns false (tick false ∷ before) after (t, all) =
    wait_ready_returns false before after all
wait_ready_returns false (context_ends ∷ before) after (t, all) = absurd t
