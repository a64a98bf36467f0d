-- ===== src/Graceful.antt =====
-- src/graceful.go: the drain before a restart, what the platform is answered, and which tasks a new
-- process takes up again.
pub mod Answers
pub mod Resume
pub mod Claimed
use autonomy.Base.{
  ℕ, ◌+◌, ◌-◌, Bool, true, false, not, ◌&&◌, ◌||◌, List, [], ◌∷◌, Option, none, some, if◌then◌else◌,
  ltb, leb, ◌==◌, is_nil, length, keep, any,
}
use autonomy.Text.{Str, codes, trim_space, is_blank, contains, str_eq}
use autonomy.Text.Order.{sort_strings}
use autonomy.Inbox.Message.{AgentMessage, is_running_status, is_queued_status}
use autonomy.Loop.{Status, running, pending, stopped}

pub record RestartNotice : Type 0 where
  pub service_id : Str
  pub request_id : Str
  pub deployment : Str
  pub version : Str
  pub message : Str

-- `timeout` is 0 where the source has a duration that is not positive; `timer` is when the drain ends
-- by itself.
pub record RestartDrain : Type 0 where
  pub active : Bool
  pub notice : RestartNotice
  pub began_at : ℕ
  pub timeout : ℕ
  pub timer : Option ℕ

unfoldable pub begin : ℕ → RestartNotice → Bool → RestartDrain → RestartDrain
begin now n wait_for_platform d = record d {
  active = true;
  notice = n;
  began_at = now;
  timer = if wait_for_platform && ltb 0 d.timeout then some (now + d.timeout) else none;
}

unfoldable pub stop_drain : RestartDrain → RestartDrain
stop_drain d = record d { active = false; timer = none }

-- The drain after `finish`, and whether it hands back what it held.
unfoldable pub finish : RestartDrain → RestartDrain × Bool
finish d = if d.active then (stop_drain d, true) else (d, false)

-- The timer's goroutine.
unfoldable pub expire : RestartDrain → RestartDrain × Bool
expire d = finish d

unfoldable pub paused : RestartDrain → Bool
paused d = d.active

-- Why a restart is safe or is not, in the source's words a sentence.
pub data RestartReason : Type 0 where
  in_flight in_flight_held : ℕ → RestartReason
  held_back : ℕ → RestartReason
  safe not_announced : RestartReason

pub record RestartStatus : Type 0 where
  pub can_restart : Bool
  pub can_deploy : Bool
  pub ready : Bool
  pub draining : Bool
  pub running : ℕ
  pub running_tasks : List Str
  pub held : ℕ
  pub reason : RestartReason
  pub notice : Option RestartNotice
  pub notified_at : Option ℕ
  pub deadline : Option ℕ

-- runningTaskIDs, of the tasks that the registry has, in any order.
unfoldable pub running_task_ids : List Str → List Str
running_task_ids registry = sort_strings (keep (λ id. not (is_blank id)) registry)

unfoldable pub restart_reason : ℕ → Bool → ℕ → RestartReason
restart_reason in_run draining held =
    if ltb 0 in_run
    then if draining then in_flight_held in_run else in_flight in_run
    else if draining
    then if ltb 0 held then held_back held else safe
    else not_announced

-- RestartStatus, with the drain's own part (`fill`).
unfoldable pub restart_status : List Str → ℕ → RestartDrain → RestartStatus
restart_status registry held d =
    let tasks = running_task_ids registry in
    let can_restart = length tasks == 0 in
    record {
      can_restart = can_restart;
      can_deploy = can_restart;
      ready = can_restart;
      draining = d.active;
      running = length tasks;
      running_tasks = tasks;
      held = held;
      reason = restart_reason (length tasks) d.active held;
      notice = if d.active then some d.notice else none;
      notified_at = if d.active then some d.began_at else none;
      deadline = if d.active && ltb 0 d.timeout then some (d.began_at + d.timeout) else none;
    }

unfoldable pub restart_notify :
    ℕ → RestartNotice → List Str → ℕ → RestartDrain → RestartStatus × RestartDrain
restart_notify now n registry held d =
    let d' = begin now n true d in (restart_status registry held d', d')

-- What a task's row has that the boot reads.
pub record TaskRow : Type 0 where
  pub id : Str
  pub agent_id : ℕ
  pub status : Status
  pub error : Str

abbrev pub is_stopped : Status → Bool
is_stopped stopped = true
is_stopped _ = false

abbrev pub is_started : Status → Bool
is_started pending = true
is_started running = true
is_started _ = false

unfoldable pub is_runtime_stop_record : TaskRow → Bool
is_runtime_stop_record t = is_stopped t.status && contains t.error (codes "stopped by the runtime")

unfoldable pub resumable_after_cut : TaskRow → Bool
resumable_after_cut t = is_started t.status || (is_stopped t.status && is_runtime_stop_record t)

-- The messages of a task that a process left running.
unfoldable pub is_cut : Str → AgentMessage → Bool
is_cut task m =
    is_running_status m.status
    && not (not (is_nil task) && not (is_nil m.task_id) && not (str_eq m.task_id task))

abbrev pub or_created : Option ℕ → Option ℕ → ℕ
or_created (some t) created = t
or_created none (some t) = t
or_created none none = 0

-- When a message was taken up, or else written.
unfoldable pub cut_time : AgentMessage → ℕ
cut_time m = or_created m.started_at m.created_at

abbrev pub later : Option ℕ → ℕ → Option ℕ
later none t = some t
later (some s) t = if ltb s t then some t else some s

unfoldable pub latest_cut : Str → Option ℕ → List AgentMessage → Option ℕ
latest_cut task at [] = at
latest_cut task at (m ∷ ms) =
    latest_cut task (if is_cut task m then later at (cut_time m) else at) ms

-- interruptedRunSince.
unfoldable pub interrupted_run_since : Str → List AgentMessage → Option ℕ
interrupted_run_since task ms = latest_cut task none ms

-- Whether resumeAcceptedInstructions starts a task's agent; `ms` are the agent's messages, as it
-- lists them. resumeInterruptedRuns lists them again, after the consumers were started.
unfoldable pub is_accepted : TaskRow → List AgentMessage → Bool
is_accepted t ms =
    not (t.agent_id == 0)
    && is_started t.status
    && any (λ m. is_queued_status m.status) ms
    && not (any (λ m. is_running_status m.status) ms)

abbrev pub young_enough : ℕ → ℕ → Option ℕ → Bool
young_enough now max_age none = false
young_enough now max_age (some at) = not (ltb 0 max_age && ltb max_age (now - at))

-- Whether resumeInterruptedRuns, when it is not switched off, starts a task's agent.
unfoldable pub is_interrupted : ℕ → ℕ → TaskRow → List AgentMessage → Bool
is_interrupted now max_age t ms =
    not (t.agent_id == 0)
    && resumable_after_cut t
    && young_enough now max_age (interrupted_run_since t.id ms)
