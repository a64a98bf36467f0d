-- ===== src/Loop/Gate.antt =====
-- src/autonomy.go and src/agent_init.go: an agent that must ask before it implements.
use autonomy.Base.{
  ℕ, zero, suc, ◌≡◌, sym, subst, Bool, true, false, Option, none, some, if◌then◌else◌, if_cases,
  Result, ok, err, arith, All,
}
use autonomy.Text.{Str, trim_space, equal_fold}
use autonomy.Decision.{Decision, decision_plan}
use autonomy.Loop.{
  StopReason, RunTask, Planner, Turn, RunOutcome, Last, leave_loop, leave_with, stop_run, fail_run,
  execute_turn, decide_turn, decide_cycles, approved_cycle, run_loop, held_up, needs_plan_approval,
  pause_on, is_open,
}

abbrev pub is_plan : Decision → Bool
is_plan d = equal_fold (trim_space d.type) decision_plan

abbrev pub NoPlan : RunOutcome → Type 0
NoPlan o = All (λ x. is_plan x.0 ≡ false) o.executed

-- An agent that must ask before it implements, and was not allowed to.
abbrev pub IsGated : Planner → Type 0
IsGated p = (p.require_plan_approval ≡ true) × (p.plan_approved ≡ false)

not_gated :
    (p : Planner) (d : Decision) → IsGated p → needs_plan_approval p d ≡ false → is_plan d ≡ false
unfolding needs_plan_approval
not_gated p d (must, free) h = ground arith

module _ (budget : ℕ) (reason : Option StopReason) where
  stop_run-NoPlan : (t : RunTask) (p : Planner) → NoPlan (stop_run budget reason t p)
  unfolding stop_run
  stop_run-NoPlan t p = tt

  leave_loop-NoPlan :
      (turn : Turn) (last : Last) (t : RunTask) (p : Planner)
      → NoPlan (leave_loop budget reason turn last t p)
  unfolding leave_loop leave_with
  leave_loop-NoPlan turn last t p =
      if_cases NoPlan turn.cancelled_leaving (λ c. stop_run-NoPlan t p)
        (λ c. if_cases NoPlan (is_open t.status) (λ o. tt) (λ o. tt))

  pause_on-NoPlan :
      (d : Decision) (failed : Option Str) (t : RunTask) (p : Planner)
      → NoPlan (pause_on budget reason d failed t p)
  unfolding fail_run
  pause_on-NoPlan d none t p = tt
  pause_on-NoPlan d (some e) t p = tt

  execute_turn-NoPlan :
      (turn : Turn) (d : Decision) (t : RunTask) (p : Planner) (next : Last → RunOutcome)
      → is_plan d ≡ false
      → ((last : Last) → NoPlan (next last))
      → NoPlan (execute_turn budget reason turn d t p next)
  unfolding execute_turn
  execute_turn-NoPlan turn d t p next plain rest =
      let x : Decision × Option Str = (d, turn.executed) in
      (
        plain,
        if_cases NoPlan turn.cancelled_executing (λ c. stop_run-NoPlan t p)
            (λ c.
              if_cases NoPlan (held_up d turn.executed)
                (λ held. leave_loop-NoPlan turn (some x) t p) (λ goes. rest (some x))),
      )

  decide_turn-NoPlan :
      (turn : Turn) (decided : Result Str Decision) (t : RunTask) (p : Planner)
      → (next : Last → RunOutcome) → IsGated p
      → ((last : Last) → NoPlan (next last))
      → NoPlan (decide_turn budget reason turn decided t p next)
  unfolding fail_run
  decide_turn-NoPlan turn (err e) t p next gated rest =
      if_cases NoPlan turn.cancelled_deciding (λ c. stop_run-NoPlan t p) (λ c. tt)
  decide_turn-NoPlan turn (ok d) t p next gated rest =
      if_cases NoPlan (needs_plan_approval p d) (λ c. pause_on-NoPlan d turn.recorded t p)
        (λ c. execute_turn-NoPlan turn d t p next (not_gated p d gated c) rest)

  decide_cycles-NoPlan :
      (left k : ℕ) (turns : ℕ → Turn) (t : RunTask) (p : Planner) (last : Last)
      → IsGated p
      → NoPlan (decide_cycles budget reason left k turns t p last)
  unfolding decide_cycles
  decide_cycles-NoPlan zero k turns t p last gated =
      if_cases NoPlan (turns k).cancelled_before (λ c. stop_run-NoPlan t p)
        (λ c. leave_loop-NoPlan (turns k) last t p)
  decide_cycles-NoPlan (suc left) k turns t p last gated =
      let next = decide_cycles budget reason left (suc k) turns t p in
      if_cases NoPlan (turns k).cancelled_before (λ c. stop_run-NoPlan t p)
        (λ c.
          decide_turn-NoPlan (turns k) (turns k).decided t p next gated
            (λ last. decide_cycles-NoPlan left (suc k) turns t p last gated))

  -- A run of an agent that must ask before it implements, and that was not allowed to, executes no
  -- plan, whatever it decides and however often.
  pub run_loop-NoPlan :
      (turns : ℕ → Turn) (t : RunTask) (p : Planner)
      → IsGated p
      → NoPlan (run_loop budget reason turns t p)
  unfolding run_loop
  run_loop-NoPlan turns t p gated =
      if_cases NoPlan (turns 0).cancelled_before (λ c. stop_run-NoPlan t p)
        (λ c.
          subst
            (λ b.
              NoPlan (
                approved_cycle budget reason budget turns t p (if b then p.pending_plan else none)))
            (sym gated.1) (decide_cycles-NoPlan budget 0 turns t p none gated))
