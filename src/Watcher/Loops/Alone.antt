-- ===== src/Watcher/Loops/Alone.antt =====
-- src/watcher/watcher.go: how many goroutines look.
use autonomy.Base.{ℕ, zero, suc, ◌≡◌, refl, List, [], ◌∷◌, if◌then◌else◌, length, arith, All}
use autonomy.Watcher.Loops.{
  LoopAt, LoopState, waiting, busy, LoopEvent, watches, closes, ticks, settles, set_at, still_busy,
  ensure_loop, close, loop_step, run_loops, no_loop,
}

-- A Close finds every goroutine in its `select`.
abbrev pub IsCalm : LoopEvent → LoopState → Type 0
IsCalm closes s = All (λ l. l ≡ waiting) s.loops
IsCalm _ s = Unit

abbrev pub IsCalmRun : List LoopEvent → LoopState → Type 0
IsCalmRun [] s = Unit
IsCalmRun (e ∷ es) s = IsCalm e s × IsCalmRun es (loop_step e s)

abbrev pub HasOneLoop : LoopState → Type 0
HasOneLoop s = length s.loops ≡ (if s.running then 1 else 0)

length-set_at : (i : ℕ) (l : LoopAt) (ls : List LoopAt) → length (set_at i l ls) ≡ length ls
length-set_at i l [] = refl
length-set_at zero l (_ ∷ ls) = omega arith
length-set_at (suc i) l (k ∷ ls) = omega (arith, length-set_at i l ls)

still_busy-none : (ls : List LoopAt) → All (λ l. l ≡ waiting) ls → length (still_busy ls) ≡ 0
unfolding still_busy
still_busy-none [] h = refl
still_busy-none (waiting ∷ ls) h = still_busy-none ls h.1
still_busy-none (busy ∷ ls) h = cc

loop_step-HasOneLoop :
    (e : LoopEvent) (s : LoopState) → IsCalm e s → HasOneLoop s → HasOneLoop (loop_step e s)
unfolding loop_step ensure_loop close
loop_step-HasOneLoop watches s c h = ground arith
loop_step-HasOneLoop closes s c h = ground (arith, still_busy-none s.loops c)
loop_step-HasOneLoop (ticks i) s c h = ground (arith, length-set_at i busy s.loops)
loop_step-HasOneLoop (settles i) s c h = ground (arith, length-set_at i waiting s.loops)

run-HasOneLoop :
    (es : List LoopEvent) (s : LoopState)
    → IsCalmRun es s
    → HasOneLoop s
    → HasOneLoop (run_loops es s)
unfolding run_loops
run-HasOneLoop [] s c h = h
run-HasOneLoop (e ∷ es) s c h =
    run-HasOneLoop es (loop_step e s) c.1 (loop_step-HasOneLoop e s c.0 h)

-- However Watch, Close and the ticks of a new watcher follow each other, it has one goroutine that
-- looks while it runs and none while it does not, if every Close finds the goroutines waiting in
-- their `select`.
pub one_loop : (es : List LoopEvent) → IsCalmRun es no_loop → HasOneLoop (run_loops es no_loop)
unfolding no_loop
one_loop es c = run-HasOneLoop es no_loop c refl
