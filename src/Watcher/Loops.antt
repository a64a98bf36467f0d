-- ===== src/Watcher/Loops.antt =====
-- src/watcher/watcher.go: the goroutines of `loop`, as Watch starts them and Close ends them.
pub mod Alone
use autonomy.Base.{
  ℕ, zero, suc, ◌+◌, ◌≡◌, refl, Bool, true, false, List, [], ◌∷◌, if◌then◌else◌, length, arith,
  Option, none, some,
}

-- A goroutine waits in its `select`, on the stop channel that it read when it came there; or it is
-- elsewhere: not there yet, or in a pass.
pub data LoopAt : Type 0 where
  waiting : LoopAt
  busy : LoopAt

-- A closed channel is replaced at once, so a goroutine that comes to its `select` waits on an open one.
pub record LoopState : Type 0 where
  pub running : Bool
  pub loops : List LoopAt

pub data LoopEvent : Type 0 where
  watches closes : LoopEvent
  ticks settles : ℕ → LoopEvent

abbrev pub set_at : ℕ → LoopAt → List LoopAt → List LoopAt
set_at i l [] = []
set_at zero l (_ ∷ ls) = l ∷ ls
set_at (suc i) l (k ∷ ls) = k ∷ set_at i l ls

-- Closing the channel wakes every goroutine that waits on it, and these return.
unfoldable pub still_busy : List LoopAt → List LoopAt
still_busy [] = []
still_busy (waiting ∷ ls) = still_busy ls
still_busy (busy ∷ ls) = busy ∷ still_busy ls

-- ensureLoopLocked.
unfoldable pub ensure_loop : LoopState → LoopState
ensure_loop s = if s.running then s else record { running = true; loops = busy ∷ s.loops }

unfoldable pub close : LoopState → LoopState
close s = if s.running then record { running = false; loops = still_busy s.loops } else s

-- One step: a Watch, a Close, the tick of a goroutine that waits, or its return to the `select`.
unfoldable pub loop_step : LoopEvent → LoopState → LoopState
loop_step watches s = ensure_loop s
loop_step closes s = close s
loop_step (ticks i) s = record s { loops = set_at i busy s.loops }
loop_step (settles i) s = record s { loops = set_at i waiting s.loops }

unfoldable pub run_loops : List LoopEvent → LoopState → LoopState
run_loops [] s = s
run_loops (e ∷ es) s = run_loops es (loop_step e s)

unfoldable pub no_loop : LoopState
no_loop = record { running = false; loops = [] }
