-- ===== src/Cycle.antt =====
-- src/runtime.go and src/verification.go: Execute as a whole, from the gates of a decision to the rows
-- that it leaves, in a runtime that has a store. The rows are those of the one task that the cycle
-- belongs to; the store takes the rows of steps and of verdicts, and every read of it works: in the source a
-- read that fails leaves a done with less to be judged by. A criterion's text is stored as it is.
pub mod Contract
pub mod Approval
pub mod Explained
pub mod Pinned
use autonomy.Base.{
  ℕ, zero, suc, ◌+◌, Bool, true, false, not, ◌&&◌, ◌||◌, List, [], ◌∷◌, ◌++◌, Option, none, some,
  if◌then◌else◌, Result, ok, err, ◌==◌, ltb, is_nil, length, any,
}
use autonomy.Text.{Str, codes, trim_space, is_blank, canonical}
use autonomy.Dict.{Dict}
use autonomy.Decision.{
  Decision, Criterion, CapabilityAction, Action, absent, nothing, calls, is_done,
}
use autonomy.Decision.Rules.{DecisionViolation}
use autonomy.Decision.Rules.{validate_decision}
use autonomy.Plan.Capability.{Capability, Factory}
use autonomy.Plan.World.{Assets, ActionResult, ActionError}
use autonomy.Plan.Lineage.{LineageError, validate_plan_lineage}
use autonomy.Plan.Run.{Task, run_actions}
use autonomy.Verify.Contract.{ContractError, validate_completion_contract}
use autonomy.Verify.History.{StepRow, ok_status, task_step_outputs}
use autonomy.Verify.Judge.{Verification, verify_done}
use autonomy.Cycle.Contract.{
  ContractRow, insert_row, task_id_of, pin_completion_contract, pinned_completion_contract,
}

-- Of a row of execution_plan, what is not the text of a JSON value.
pub record PlanRow : Type 0 where
  pub id : ℕ
  pub decision_type : Str
  pub reason : Str
  pub cycle : ℕ
  pub step_count : ℕ
  pub steps : List (ℕ × Str × Str)

-- What the store answers to a plan: its row was not taken, or the rows of its steps were not (they are
-- one transaction), or they are there and could not be read back, or all is well.
pub data PlanAnswer : Type 0 where
  plan_not_taken steps_not_taken not_read_back : Str → PlanAnswer
  saved : PlanAnswer

-- What Execute may change: the task's rows, and the world that capabilities work in.
pub record RunState (W : Type 0) : Type 0 where
  pub plans : List PlanRow
  pub steps : List StepRow
  pub contract : List ContractRow
  pub verdicts : List Verification
  pub world : W

pub data CycleError : Type 0 where
  decision_refused : DecisionViolation → CycleError
  plan_refused : LineageError → CycleError
  contract_refused : ContractError → CycleError
  plan_not_recorded : Str → CycleError
  not_verified : CycleError
  action_failed : ActionError → CycleError

-- The steps of a plan's rows, with their places in the plan.
abbrev pub planned : Action → Str × Str
planned absent = ([], [])
planned (nothing reason) = ([], [])
planned (calls a) = (trim_space a.step_name, canonical a.name)

unfoldable pub planned_steps : ℕ → List Action → List (ℕ × Str × Str)
planned_steps i [] = []
planned_steps i (absent ∷ actions) = planned_steps (suc i) actions
planned_steps i (a ∷ actions) =
    (suc i, (planned a).0, (planned a).1) ∷ planned_steps (suc i) actions

abbrev pub status_of : Option ActionError → Str
status_of none = ok_status
status_of (some e) = codes "failed"

-- recordStep, of what taskStepOutputs reads.
unfoldable pub step_rows : List ActionResult → List StepRow
step_rows [] = []
step_rows (r ∷ rs) =
    record {
      name = trim_space r.step_name;
      status = status_of r.error;
      capability = r.capability;
      output = r.output;
    }
    ∷ step_rows rs

abbrev pub as_failed : Option ActionError → Option CycleError
as_failed none = none
as_failed (some e) = some (action_failed e)

-- `same_fold` is strings.EqualFold and `parse` parseCriterion; `caps` are the capabilities of the
-- runtime by name. `fails` is where pinning fails.
module _ {W : Type 0} (same_fold : Str → Str → Bool) (parse : Str → Option Criterion)
    (assets_of : W → Assets) (f : Option (Factory W)) (caps : Dict (Capability W)) (task : Task)
    (fails : ℕ → Bool) where
  -- recordPlan under the id `plan`, by what the store answers.
  abbrev pub row_of : ℕ → ℕ → Decision → List (ℕ × Str × Str) → PlanRow
  row_of plan cycle d steps = record {
    id = plan;
    decision_type = trim_space d.type;
    reason = d.reason;
    cycle = cycle;
    step_count = length d.actions;
    steps = steps;
  }

  unfoldable pub record_plan : PlanAnswer → ℕ → ℕ → Decision → RunState W → RunState W
  record_plan (plan_not_taken e) plan cycle d s = s
  record_plan (steps_not_taken e) plan cycle d s = record s {
    plans = s.plans ++ (row_of plan cycle d [] ∷ []);
  }
  record_plan (not_read_back e) plan cycle d s = record s {
    plans = s.plans ++ (row_of plan cycle d (planned_steps 0 d.actions) ∷ []);
  }
  record_plan saved plan cycle d s = record s {
    plans = s.plans ++ (row_of plan cycle d (planned_steps 0 d.actions) ∷ []);
  }

  unfoldable pub pin : ℕ → ℕ → Decision → RunState W → RunState W
  pin plan cycle d s =
      if cycle == 1
      then record s { contract = pin_completion_contract fails task plan d.contract s.contract }
      else s

  -- verifyDone over the rows of the task.
  unfoldable pub verify : RunState W → Option CycleError × RunState W
  verify s =
      let (holds, verdicts, world) =
        verify_done same_fold assets_of f caps task
          (pinned_completion_contract parse task s.contract) (task_step_outputs s.steps) s.world in
      (
        if holds then none else some not_verified,
        record s { verdicts = s.verdicts ++ verdicts; world = world },
      )

  unfoldable pub run_steps : List Action → RunState W → Option CycleError × RunState W
  run_steps actions s =
      let (records, failed, world) = run_actions assets_of f task [] actions s.world in
      (as_failed failed, record s { steps = s.steps ++ step_rows records; world = world })

  -- executePlan once the plan is on record.
  unfoldable pub carry_out : Decision → RunState W → Option CycleError × RunState W
  carry_out d s =
      if is_nil d.actions
      then (if is_done d then verify s else (none, s))
      else run_steps d.actions s

  abbrev pub check_contract_at : ℕ → Decision → Result ContractError (Unit {0})
  check_contract_at cycle d =
      if cycle == 1 then validate_completion_contract f d.contract d.actions else ok tt

  abbrev pub after_contract :
      Result ContractError (Unit {0})
      → RunState W
      → Option CycleError × RunState W
      → Option CycleError × RunState W
  after_contract (err e) s next = (some (contract_refused e), s)
  after_contract (ok u) s next = next

  abbrev pub after_lineage :
      Result LineageError (Unit {0})
      → RunState W
      → Option CycleError × RunState W
      → Option CycleError × RunState W
  after_lineage (err e) s next = (some (plan_refused e), s)
  after_lineage (ok u) s next = next

  abbrev pub after_rules :
      Option DecisionViolation
      → RunState W
      → Option CycleError × RunState W
      → Option CycleError × RunState W
  after_rules (some v) s next = (some (decision_refused v), s)
  after_rules none s next = next

  abbrev pub plan_error : PlanAnswer → Option Str
  plan_error (plan_not_taken e) = some e
  plan_error (steps_not_taken e) = some e
  plan_error (not_read_back e) = some e
  plan_error saved = none

  abbrev pub after_recording :
      Option Str → RunState W → Option CycleError × RunState W → Option CycleError × RunState W
  after_recording (some e) s next = (some (plan_not_recorded e), s)
  after_recording none s next = next

  -- Execute, of a decision of a cycle; `answer` is what the store answers to the plan, and `plan` the
  -- id that it gives.
  unfoldable pub execute_decision :
      PlanAnswer → ℕ → ℕ → Decision → RunState W → Option CycleError × RunState W
  execute_decision answer plan cycle d s =
      let recorded = record_plan answer plan cycle d s in
      after_rules (validate_decision d) s (
        after_lineage (validate_plan_lineage f d.actions) s (
          after_contract (check_contract_at cycle d) s (
            after_recording (plan_error answer) recorded
              (carry_out d (pin plan cycle d recorded)))))
