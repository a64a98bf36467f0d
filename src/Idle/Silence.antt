-- ===== src/Idle/Silence.antt =====
-- src/llmrun/idle.go: when a run is cancelled, and that it stays so.
use autonomy.Base.{ℕ, ◌+◌, ◌≤◌, ◌<◌, ◌≡◌, ◌↔◌, false, List, [], ◌∷◌, none, some, arith}
use autonomy.Idle.{
  went_idle, Watchdog, new_watchdog, touch, stop_watchdog, on_idle, cancel, IdleEvent, touches,
  rings, stops, parent_ends, idle_step, run_idle,
}

-- When the run was last active, from the time it began.
abbrev pub last_activity : ℕ → List IdleEvent → ℕ
last_activity start [] = start
last_activity start (touches now ∷ es) = last_activity now es
last_activity start (_ ∷ es) = last_activity start es

-- A watchdog that has not cancelled is armed for the end of the silence it allows.
abbrev IsArmed : ℕ → ℕ → Watchdog → Type 0
IsArmed idle last w =
    (w.idle ≡ idle)
    × (w.cause ≡ none
        → (w.fired ≡ false) × (w.deadline ≡ last + idle) × (w.timer ≡ some (last + idle)))

idle_step-IsArmed :
    (idle last : ℕ) (e : IdleEvent) (w : Watchdog)
    → 0 < idle
    → IsArmed idle last w
    → IsArmed idle (last_activity last (e ∷ [])) (idle_step e w)
unfolding idle_step touch on_idle stop_watchdog cancel
idle_step-IsArmed idle last (touches now) w pos h = ground arith
idle_step-IsArmed idle last (rings now) w pos h = ground arith
idle_step-IsArmed idle last stops w pos h = ground arith
idle_step-IsArmed idle last parent_ends w pos h = ground arith

run_idle-IsArmed :
    (idle last : ℕ) (es : List IdleEvent) (w : Watchdog)
    → 0 < idle
    → IsArmed idle last w
    → IsArmed idle (last_activity last es) (run_idle es w)
unfolding run_idle
run_idle-IsArmed idle last [] w pos h = h
run_idle-IsArmed idle last (touches now ∷ es) w pos h =
    run_idle-IsArmed idle now es (idle_step (touches now) w) pos
      (idle_step-IsArmed idle last (touches now) w pos h)
run_idle-IsArmed idle last (rings now ∷ es) w pos h =
    run_idle-IsArmed idle last es (idle_step (rings now) w) pos
      (idle_step-IsArmed idle last (rings now) w pos h)
run_idle-IsArmed idle last (stops ∷ es) w pos h =
    run_idle-IsArmed idle last es (idle_step stops w) pos
      (idle_step-IsArmed idle last stops w pos h)
run_idle-IsArmed idle last (parent_ends ∷ es) w pos h =
    run_idle-IsArmed idle last es (idle_step parent_ends w) pos
      (idle_step-IsArmed idle last parent_ends w pos h)

new_IsArmed : (idle start : ℕ) → 0 < idle → IsArmed idle start (new_watchdog idle start)
unfolding new_watchdog
new_IsArmed idle start pos = ground arith

on_idle_due :
    (end now : ℕ) (w : Watchdog)
    → w.fired ≡ false
    → w.cause ≡ none
    → w.deadline ≡ end
    → ((on_idle now w).cause ≡ some went_idle) ↔ (end ≤ now)
unfolding on_idle cancel
on_idle_due end now w calm waits due = ground arith

-- However activity, early and late rings of the timer and other things came before: while the context
-- is not done, the timer is set for the end of the silence that is allowed, counted from the last
-- activity, and a ring cancels the run as idle exactly when that end has come.
pub on_idle_iff :
    (idle start now : ℕ) (es : List IdleEvent)
    → 0 < idle
    → (run_idle es (new_watchdog idle start)).cause ≡ none
    → ((run_idle es (new_watchdog idle start)).timer ≡ some (last_activity start es + idle))
      × (((on_idle now (run_idle es (new_watchdog idle start))).cause ≡ some went_idle)
          ↔ (last_activity start es + idle ≤ now))
on_idle_iff idle start now es pos waits =
    let w = run_idle es (new_watchdog idle start) in
    let armed =
      run_idle-IsArmed idle start es (new_watchdog idle start) pos (new_IsArmed idle start pos) in
    let (calm, due, set) = armed.1 waits in
    (set, on_idle_due (last_activity start es + idle) now w calm waits due)
