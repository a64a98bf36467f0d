-- ===== src/Cycle/Approval.antt =====
-- src/runtime.go: a plan that is put on record first, and carried out once it is approved.
use autonomy.Base.{
  ℕ, ◌≡◌, refl, Bool, false, Option, none, some, Result, ok, err, ◌==◌, if◌then◌else◌, ap, ◌∙◌,
}
use autonomy.Text.{Str}
use autonomy.Dict.{Dict}
use autonomy.Decision.{Decision, Criterion}
use autonomy.Decision.Rules.{validate_decision, DecisionViolation}
use autonomy.Plan.Capability.{Capability, Factory}
use autonomy.Plan.World.{Assets}
use autonomy.Plan.Lineage.{LineageError, validate_plan_lineage}
use autonomy.Plan.Run.{Task}
use autonomy.Verify.Contract.{ContractError}
use autonomy.Cycle.{
  PlanAnswer, saved, RunState, CycleError, record_plan, pin, carry_out, check_contract_at,
  execute_decision, plan_error, after_rules, after_lineage, after_contract, after_recording,
}

module _ {W : Type 0} (same_fold : Str → Str → Bool) (parse : Str → Option Criterion)
    (assets_of : W → Assets) (f : Option (Factory W)) (caps : Dict (Capability W)) (task : Task)
    (fails : ℕ → Bool) where
  -- RecordPlanOnly.
  unfoldable pub record_plan_only :
      PlanAnswer → ℕ → ℕ → Decision → RunState W → Option CycleError × RunState W
  record_plan_only answer plan cycle d s =
      let recorded =
        record_plan same_fold parse assets_of f caps task fails answer plan cycle d s in
      after_rules same_fold parse assets_of f caps task fails (validate_decision d) s (
        after_lineage same_fold parse assets_of f caps task fails
          (validate_plan_lineage f d.actions) s
          (after_contract same_fold parse assets_of f caps task fails
            (check_contract_at same_fold parse assets_of f caps task fails cycle d) s
            (after_recording same_fold parse assets_of f caps task fails
              (plan_error same_fold parse assets_of f caps task fails answer) recorded
              (none, pin same_fold parse assets_of f caps task fails plan cycle d recorded))))

  -- ExecuteApproved of the plan `plan`. An id of 0 is no plan: then it is Execute, where the store
  -- answers `answer` and gives the id `new`.
  unfoldable pub execute_approved :
      PlanAnswer → ℕ → ℕ → ℕ → Decision → RunState W → Option CycleError × RunState W
  execute_approved answer new plan cycle d s =
      if plan == 0
      then execute_decision same_fold parse assets_of f caps task fails answer new cycle d s
      else carry_out same_fold parse assets_of f caps task fails d s

  -- What follows a plan that was put on record, if the user approves it at once.
  abbrev pub then_approved :
      ℕ → ℕ → Decision → Option CycleError × RunState W → Option CycleError × RunState W
  then_approved plan cycle d (some e, s) = (some e, s)
  then_approved plan cycle d (none, s) = execute_approved saved 0 plan cycle d s

  rules-then :
      (r : Option DecisionViolation) (plan cycle : ℕ) (d : Decision) (s : RunState W)
      (next : Option CycleError × RunState W)
      → then_approved plan cycle d
          (after_rules same_fold parse assets_of f caps task fails r s next)
        ≡ after_rules same_fold parse assets_of f caps task fails r s
            (then_approved plan cycle d next)
  rules-then (some v) plan cycle d s next = refl
  rules-then none plan cycle d s next = refl

  lineage-then :
      (r : Result LineageError (Unit {0})) (plan cycle : ℕ) (d : Decision) (s : RunState W)
      (next : Option CycleError × RunState W)
      → then_approved plan cycle d
          (after_lineage same_fold parse assets_of f caps task fails r s next)
        ≡ after_lineage same_fold parse assets_of f caps task fails r s
            (then_approved plan cycle d next)
  lineage-then (err e) plan cycle d s next = refl
  lineage-then (ok u) plan cycle d s next = refl

  contract-then :
      (r : Result ContractError (Unit {0})) (plan cycle : ℕ) (d : Decision) (s : RunState W)
      (next : Option CycleError × RunState W)
      → then_approved plan cycle d
          (after_contract same_fold parse assets_of f caps task fails r s next)
        ≡ after_contract same_fold parse assets_of f caps task fails r s
            (then_approved plan cycle d next)
  contract-then (err e) plan cycle d s next = refl
  contract-then (ok u) plan cycle d s next = refl

  recording-then :
      (r : Option Str) (plan cycle : ℕ) (d : Decision) (s : RunState W)
      (next : Option CycleError × RunState W)
      → then_approved plan cycle d
          (after_recording same_fold parse assets_of f caps task fails r s next)
        ≡ after_recording same_fold parse assets_of f caps task fails r s
            (then_approved plan cycle d next)
  recording-then (some e) plan cycle d s next = refl
  recording-then none plan cycle d s next = refl

  execute_approved-carry_out :
      (plan cycle : ℕ) (d : Decision) (s : RunState W)
      → (plan == 0) ≡ false
      → execute_approved saved 0 plan cycle d s
        ≡ carry_out same_fold parse assets_of f caps task fails d s
  unfolding execute_approved
  execute_approved-carry_out plan cycle d s h = cc

  -- Of a plan that the store gives an id other than 0: to put it on record, and to carry it out once it
  -- is approved, answers and leaves what Execute answers and leaves, whichever gate refuses it.
  pub record_plan_only-execute_approved :
      (answer : PlanAnswer) (plan cycle : ℕ) (d : Decision) (s : RunState W)
      → (plan == 0) ≡ false
      → then_approved plan cycle d (record_plan_only answer plan cycle d s)
        ≡ execute_decision same_fold parse assets_of f caps task fails answer plan cycle d s
  unfolding record_plan_only execute_decision
  record_plan_only-execute_approved answer plan cycle d s h =
      let recorded =
        record_plan same_fold parse assets_of f caps task fails answer plan cycle d s in
      let pinned = pin same_fold parse assets_of f caps task fails plan cycle d recorded in
      rules-then (validate_decision d) plan cycle d s _
      ∙ ap (after_rules same_fold parse assets_of f caps task fails (validate_decision d) s) (
          lineage-then (validate_plan_lineage f d.actions) plan cycle d s _
          ∙ ap
              (after_lineage same_fold parse assets_of f caps task fails
                (validate_plan_lineage f d.actions) s)
              (contract-then (check_contract_at same_fold parse assets_of f caps task fails cycle d)
                  plan cycle d s _
                ∙ ap
                    (after_contract same_fold parse assets_of f caps task fails
                      (check_contract_at same_fold parse assets_of f caps task fails cycle d) s)
                    (recording-then (plan_error same_fold parse assets_of f caps task fails answer)
                        plan cycle d recorded (none, pinned)
                      ∙ ap
                          (after_recording same_fold parse assets_of f caps task fails
                            (plan_error same_fold parse assets_of f caps task fails answer)
                            recorded)
                          (execute_approved-carry_out plan cycle d pinned h))))
