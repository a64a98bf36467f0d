-- ===== src/Loop.antt =====
-- src/autonomy.go, src/agent_init.go and src/stop_reason.go: runLoop, the decisions of one run from a
-- message to the task's outcome.
pub mod Ends
pub mod Gate
use autonomy.Base.{
  ℕ, zero, suc, ◌+◌, Bool, true, false, not, ◌&&◌, ◌||◌, List, [], ◌∷◌, ◌++◌, Option, none, some,
  if◌then◌else◌, Result, ok, err, ◌==◌, is_nil,
}
use autonomy.Text.{Str, codes, trim_space, is_blank, equal_fold}
use autonomy.Decision.{Decision, concludes, is_done, task_status_for, decision_plan, TaskStatus}
use autonomy.Watcher.Door.{atoi}

pub data Status : Type 0 where
  unset running pending completed unverified blocked need_input error awaiting_approval stopped :
      Status

-- Why a stop was asked for. `by_runtime` has the request's id, its deployment and its version.
pub data StopReason : Type 0 where
  by_user : StopReason
  by_runtime : Str → Str → Str → StopReason

-- StopReason.errorText.
unfoldable pub error_text : StopReason → Str
error_text by_user = codes "stopped"
error_text (by_runtime request deployment version) =
    if is_blank request
    then codes "stopped by the runtime while shutting down"
    else codes "stopped by the runtime for a restart (requestId=" ++ request ++ codes ")"

-- Why a task ended without an answer, as its row and the loop's caller have it.
pub data Failure : Type 0 where
  stopped_as : Str → Failure
  decide_failed record_failed cycle_failed : Str → Failure
  budget_exhausted : ℕ → Str → Failure

pub record RunTask : Type 0 where
  pub status : Status
  pub error : Option Failure

-- What of an agent the loop reads and writes. A pending plan is what the run paused on.
pub record Planner : Type 0 where
  pub require_plan_approval : Bool
  pub plan_approved : Bool
  pub pending_plan : Option Decision

-- What lies outside in one cycle: whether the run was cancelled before it, while it decided, while it
-- executed, and when the loop is left in it; and what Decide, RecordPlanOnly and Execute answer.
pub record Turn : Type 0 where
  pub cancelled_before : Bool
  pub decided : Result Str Decision
  pub cancelled_deciding : Bool
  pub recorded : Option Str
  pub cancelled_executing : Bool
  pub executed : Option Str
  pub cancelled_leaving : Bool

-- What a run leaves: the task, the agent, what the loop returns, and the decisions that it had
-- executed, each with what its Execute failed with.
pub record RunOutcome : Type 0 where
  pub task : RunTask
  pub planner : Planner
  pub failure : Option Failure
  pub executed : List (Decision × Option Str)

abbrev pub is_open : Status → Bool
is_open running = true
is_open pending = true
is_open _ = false

abbrev pub is_open_or_unset : Status → Bool
is_open_or_unset unset = true
is_open_or_unset s = is_open s

abbrev pub reason_text : Option StopReason → Str
reason_text none = codes "stopped"
reason_text (some r) = error_text r

unfoldable pub mark_stopped : Option StopReason → RunTask → RunTask
mark_stopped reason t =
    if is_open_or_unset t.status
    then record { status = stopped; error = some (stopped_as (reason_text reason)) }
    else t

unfoldable pub fail_task : Failure → RunTask → RunTask
fail_task f t = record { status = error; error = some f }

unfoldable pub needs_plan_approval : Planner → Decision → Bool
needs_plan_approval p d =
    p.require_plan_approval && not p.plan_approved && equal_fold (trim_space d.type) decision_plan

abbrev pub named_status : TaskStatus → Status
named_status TaskStatus.blocked = blocked
named_status TaskStatus.need_input = need_input
named_status TaskStatus.completed = completed

abbrev pub named_type : Str → Str
named_type type = if is_blank type then codes "none" else trim_space type

-- The last cycle's decision and what its Execute failed with; `none` before the first.
abbrev pub Last : Type 0
Last = Option (Decision × Option Str)

-- What the loop records once it is left, and what it returns.
unfoldable pub conclude : ℕ → Last → RunTask → RunTask × Option Failure
conclude budget none t = let f = budget_exhausted budget (codes "none") in (fail_task f t, some f)
conclude budget (some (d, some e)) t =
    if is_done d
    then (record { status = unverified; error = some (cycle_failed e) }, some (cycle_failed e))
    else (fail_task (cycle_failed e) t, some (cycle_failed e))
conclude budget (some (d, none)) t =
    if concludes d
    then (record t { status = named_status (task_status_for d) }, none)
    else let f = budget_exhausted budget (named_type d.type) in (fail_task f t, some f)

abbrev pub last_failure : Last → Option Failure
last_failure (some (d, some e)) = some (cycle_failed e)
last_failure _ = none

-- An answer that Execute did not refuse.
abbrev pub held_up : Decision → Option Str → Bool
held_up d none = concludes d
held_up d (some e) = false

module _ (budget : ℕ) (reason : Option StopReason) where
  unfoldable pub leave_with : Last → RunTask → Planner → RunOutcome
  leave_with last t p =
      if is_open t.status
      then (let (task, failure) = conclude budget last t in
          record { task = task; planner = p; failure = failure; executed = [] })
      else record { task = t; planner = p; failure = last_failure last; executed = [] }

  unfoldable pub stop_run : RunTask → Planner → RunOutcome
  stop_run t p = record {
    task = mark_stopped reason t;
    planner = p;
    failure = some (stopped_as (codes "cancelled"));
    executed = [];
  }

  -- What comes after the loop.
  unfoldable pub leave_loop : Turn → Last → RunTask → Planner → RunOutcome
  leave_loop turn last t p = if turn.cancelled_leaving then stop_run t p else leave_with last t p

  unfoldable pub fail_run : Failure → RunTask → Planner → RunOutcome
  fail_run f t p = record { task = fail_task f t; planner = p; failure = some f; executed = [] }

  abbrev pub after_executing : Decision × Option Str → RunOutcome → RunOutcome
  after_executing x o = record o { executed = x ∷ o.executed }

  -- A dispatched decision: the run is stopped meanwhile, or it ends with an answer that held up, or
  -- `next` goes on.
  unfoldable pub execute_turn :
      Turn → Decision → RunTask → Planner → (Last → RunOutcome) → RunOutcome
  execute_turn turn d t p next =
      let rest = next (some (d, turn.executed)) in
      after_executing (d, turn.executed)
        (if turn.cancelled_executing
          then stop_run t p
          else if held_up d turn.executed
          then leave_loop turn (some (d, turn.executed)) t p
          else rest)

  abbrev pub pause_on : Decision → Option Str → RunTask → Planner → RunOutcome
  pause_on d (some e) t p = fail_run (record_failed e) t p
  pause_on d none t p = record {
    task = record { status = awaiting_approval; error = none };
    planner = record p { pending_plan = some d };
    failure = none;
    executed = [];
  }

  abbrev pub decide_turn :
      Turn → Result Str Decision → RunTask → Planner → (Last → RunOutcome) → RunOutcome
  decide_turn turn (err e) t p next =
      if turn.cancelled_deciding then stop_run t p else fail_run (decide_failed e) t p
  decide_turn turn (ok d) t p next =
      if needs_plan_approval p d then pause_on d turn.recorded t p else execute_turn turn d t p next

  -- Both flags of an approved plan are set by other messages only, so one that waits is met first.
  -- The loop with `left` cycles to go, from cycle `k`, once no approved plan waits. Every cycle's
  -- agent is the one that the cycle before left, which a cycle that goes on does not change.
  unfoldable pub decide_cycles : ℕ → ℕ → (ℕ → Turn) → RunTask → Planner → Last → RunOutcome
  decide_cycles zero k turns t p last =
      if (turns k).cancelled_before then stop_run t p else leave_loop (turns k) last t p
  decide_cycles (suc left) k turns t p last =
      let next = decide_cycles left (suc k) turns t p in
      if (turns k).cancelled_before
      then stop_run t p
      else decide_turn (turns k) (turns k).decided t p next

  -- The first cycle when a plan that the run paused on was approved.
  abbrev pub approved_cycle : ℕ → (ℕ → Turn) → RunTask → Planner → Option Decision → RunOutcome
  approved_cycle left turns t p none = decide_cycles left 0 turns t p none
  approved_cycle zero turns t p (some d) =
      leave_loop (turns 0) none t (record p { pending_plan = none; plan_approved = false })
  approved_cycle (suc left) turns t p (some d) =
      let p' = record p { pending_plan = none; plan_approved = false } in
      execute_turn (turns 0) d t p' (decide_cycles left 1 turns t p')

  unfoldable pub run_loop : (ℕ → Turn) → RunTask → Planner → RunOutcome
  run_loop turns t p =
      if (turns 0).cancelled_before
      then stop_run t p
      else approved_cycle budget turns t p (if p.plan_approved then p.pending_plan else none)

-- `maxSteps`, of the environment and of the runtime's own budget, where 0 is none.
abbrev pub or_budget : ℕ → Option ℕ → ℕ
or_budget own none = if own == 0 then 10 else own
or_budget own (some n) = if n == 0 then (if own == 0 then 10 else own) else n

unfoldable pub max_steps : Str → ℕ → ℕ
max_steps value own = or_budget own (if is_blank value then none else atoi (trim_space value))
