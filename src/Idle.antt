-- ===== src/Idle.antt =====
-- src/llmrun/idle.go: the watchdog that ends a run which has gone silent.
pub mod Silence
use autonomy.Base.{
  ℕ, ◌+◌, ◌-◌, ◌*◌, Bool, true, false, not, ◌&&◌, ◌||◌, List, [], ◌∷◌, Option, none, some,
  if◌then◌else◌, ltb, leb, ◌==◌,
}
use autonomy.Text.{Str, trim_space, is_blank}

-- Why the context is done.
pub data Cause : Type 0 where
  stopped went_idle parent_done : Cause

-- `idle` is 0 where the source has a duration that is not positive. `timer` is when it next goes off,
-- and `cause` why the context was cancelled, if it was.
pub record Watchdog : Type 0 where
  pub idle : ℕ
  pub deadline : ℕ
  pub timer : Option ℕ
  pub fired : Bool
  pub cause : Option Cause

-- IdleTimeout; `parse` is time.ParseDuration, with `none` for an error and 0 for what is not positive.
abbrev positive_or : ℕ → Option ℕ → ℕ
positive_or fallback none = fallback
positive_or fallback (some d) = if d == 0 then fallback else d

abbrev pub default_idle_timeout : ℕ
default_idle_timeout = 180000000000

unfoldable pub idle_timeout : (Str → Option ℕ) → Str → ℕ
idle_timeout parse value =
    if is_blank value
    then default_idle_timeout
    else positive_or default_idle_timeout (parse (trim_space value))

-- Only the first cancellation of a context counts.
abbrev pub or_cause : Option Cause → Cause → Option Cause
or_cause none c = some c
or_cause (some d) c = some d

unfoldable pub cancel : Cause → Watchdog → Watchdog
cancel c w = record w { cause = or_cause w.cause c }

-- NewIdleWatchdog at a time, under a parent that is not done.
unfoldable pub new_watchdog : ℕ → ℕ → Watchdog
new_watchdog idle now = record {
  idle = idle;
  deadline = if idle == 0 then 0 else now + idle;
  timer = if idle == 0 then none else some (now + idle);
  fired = false;
  cause = none;
}

unfoldable pub touch : ℕ → Watchdog → Watchdog
touch now w =
    if w.idle == 0 || w.fired
    then w
    else record w { deadline = now + w.idle; timer = some (now + w.idle) }

unfoldable pub stop_watchdog : Watchdog → Watchdog
stop_watchdog w = cancel stopped (record w { fired = true; timer = none })

-- The timer's goroutine, which may also come when the timer was reset meanwhile.
unfoldable pub on_idle : ℕ → Watchdog → Watchdog
on_idle now w =
    if w.fired
    then w
    else if ltb now w.deadline
    then record w { timer = some (now + (w.deadline - now)) }
    else cancel went_idle (record w { fired = true })

pub data IdleEvent : Type 0 where
  touches rings : ℕ → IdleEvent
  stops parent_ends : IdleEvent

unfoldable pub idle_step : IdleEvent → Watchdog → Watchdog
idle_step (touches now) w = touch now w
idle_step (rings now) w = on_idle now w
idle_step stops w = stop_watchdog w
idle_step parent_ends w = cancel parent_done w

unfoldable pub run_idle : List IdleEvent → Watchdog → Watchdog
run_idle [] w = w
run_idle (e ∷ es) w = run_idle es (idle_step e w)
