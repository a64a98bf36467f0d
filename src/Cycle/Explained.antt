-- ===== src/Cycle/Explained.antt =====
-- src/runtime.go: what Execute did, by what it answers.
use autonomy.Base.{
  ℕ, ◌≡◌, ◌≢◌, ◌⊎◌, refl, Bool, true, false, [], Option, none, some, Result, ok, err, is_nil, inl,
  inr, if◌then◌else◌, if_cases,
}
use autonomy.Text.{Str}
use autonomy.Dict.{Dict}
use autonomy.Decision.{Decision, Criterion, is_done}
use autonomy.Decision.Rules.{validate_decision, DecisionViolation}
use autonomy.Plan.Capability.{Capability, Factory}
use autonomy.Plan.World.{Assets, ActionError}
use autonomy.Plan.Lineage.{LineageError, validate_plan_lineage}
use autonomy.Plan.Run.{Task}
use autonomy.Verify.Contract.{ContractError}
use autonomy.Verify.History.{task_step_outputs}
use autonomy.Verify.Judge.Sound.{AllEstablished, verify_done-AllEstablished}
use autonomy.Cycle.Contract.{pinned_completion_contract}
use autonomy.Cycle.{
  PlanAnswer, plan_error, RunState, CycleError, decision_refused, plan_refused, contract_refused,
  plan_not_recorded, not_verified, action_failed, execute_decision, carry_out, verify, run_steps,
  pin, record_plan, check_contract_at, as_failed, after_rules, after_lineage, after_contract,
  after_recording,
}

module _ {W : Type 0} (same_fold : Str → Str → Bool) (parse : Str → Option Criterion)
    (assets_of : W → Assets) (f : Option (Factory W)) (caps : Dict (Capability W)) (task : Task)
    (fails : ℕ → Bool) where
  -- The decision has actions, or is no done, or was held against a contract of the task that says
  -- something, each criterion of which is established.
  abbrev pub IsVerified : Decision → RunState W → Type 0
  IsVerified d s =
      (is_nil d.actions ≡ false)
      ⊎ ((is_done d ≡ false)
          ⊎ ((pinned_completion_contract parse task s.contract ≢ [])
              × AllEstablished same_fold assets_of f caps task
                  (pinned_completion_contract parse task s.contract) (task_step_outputs s.steps)
                  s.world))

  -- A decision that passes every gate of its cycle.
  abbrev pub PassesGates : ℕ → Decision → Type 0
  PassesGates cycle d =
      (validate_decision d ≡ none)
      × (validate_plan_lineage f d.actions ≡ ok tt)
      × (check_contract_at same_fold parse assets_of f caps task fails cycle d ≡ ok tt)

  -- What an answer of Execute says of what it did to `s`, where the store answers `answer` to its plan;
  -- `s'` is what it leaves, `recorded` is `s` with what the store took of the plan, and `pinned` is
  -- that with the contract pinned.
  abbrev pub Explains :
      PlanAnswer
      → ℕ
      → Decision
      → RunState W
      → RunState W
      → RunState W
      → Option CycleError
      → RunState W
      → Type 0
  Explains answer cycle d s recorded pinned (some (decision_refused v)) s' =
      (validate_decision d ≡ some v) × (s' ≡ s)
  Explains answer cycle d s recorded pinned (some (plan_refused e)) s' =
      (validate_plan_lineage f d.actions ≡ err e) × (s' ≡ s)
  Explains answer cycle d s recorded pinned (some (contract_refused e)) s' =
      (check_contract_at same_fold parse assets_of f caps task fails cycle d ≡ err e) × (s' ≡ s)
  Explains answer cycle d s recorded pinned (some (plan_not_recorded e)) s' =
      (plan_error same_fold parse assets_of f caps task fails answer ≡ some e)
      × (s' ≡ recorded)
      × PassesGates cycle d
  Explains answer cycle d s recorded pinned (some not_verified) s' =
      PassesGates cycle d × (is_done d ≡ true)
  Explains answer cycle d s recorded pinned (some (action_failed e)) s' = PassesGates cycle d
  Explains answer cycle d s recorded pinned none s' = PassesGates cycle d × IsVerified d pinned

  module _ (answer : PlanAnswer) (cycle : ℕ) (d : Decision) (s recorded pinned : RunState W) where
    abbrev IsExplained : Option CycleError × RunState W → Type 0
    IsExplained o = Explains answer cycle d s recorded pinned o.0 o.1

    judged-IsExplained :
        (holds : Bool) (s' : RunState W)
        → PassesGates cycle d
        → is_done d ≡ true
        → (holds ≡ true → IsVerified d pinned)
        → IsExplained (if holds then none else some not_verified, s')
    judged-IsExplained true s' gates done h = (gates, h refl)
    judged-IsExplained false s' gates done h = (gates, done)

    verify-IsExplained :
        PassesGates cycle d
        → is_done d ≡ true
        → IsExplained (verify same_fold parse assets_of f caps task fails pinned)
    unfolding verify
    verify-IsExplained gates done = judged-IsExplained _ _ gates done (λ holds. inr (
        inr (
          verify_done-AllEstablished same_fold assets_of f caps task
            (pinned_completion_contract parse task pinned.contract) (task_step_outputs pinned.steps)
            pinned.world holds)))

    failed-IsExplained :
        (failed : Option ActionError) (s' : RunState W)
        → PassesGates cycle d
        → is_nil d.actions ≡ false
        → IsExplained (as_failed failed, s')
    failed-IsExplained (some e) s' gates some_steps = gates
    failed-IsExplained none s' gates some_steps = (gates, inl some_steps)

    carry_out-IsExplained :
        PassesGates cycle d
        → IsExplained (carry_out same_fold parse assets_of f caps task fails d pinned)
    unfolding carry_out run_steps
    carry_out-IsExplained gates =
        if_cases IsExplained (is_nil d.actions)
          (λ nil.
            if_cases IsExplained (is_done d) (λ done. verify-IsExplained gates done)
              (λ other. (gates, inr (inl other))))
          (λ some_steps. failed-IsExplained _ _ gates some_steps)

    recording-IsExplained :
        (error : Option Str) (next : Option CycleError × RunState W)
        → plan_error same_fold parse assets_of f caps task fails answer ≡ error
        → PassesGates cycle d
        → IsExplained next
        → IsExplained
            (after_recording same_fold parse assets_of f caps task fails error recorded next)
    recording-IsExplained (some e) next same gates h = (same, refl, gates)
    recording-IsExplained none next same gates h = h

    contract-IsExplained :
        (r : Result ContractError (Unit {0})) (next : Option CycleError × RunState W)
        → check_contract_at same_fold parse assets_of f caps task fails cycle d ≡ r
        → (r ≡ ok tt → IsExplained next)
        → IsExplained (after_contract same_fold parse assets_of f caps task fails r s next)
    contract-IsExplained (err e) next same h = (same, refl)
    contract-IsExplained (ok tt) next same h = h refl

    lineage-IsExplained :
        (r : Result LineageError (Unit {0})) (next : Option CycleError × RunState W)
        → validate_plan_lineage f d.actions ≡ r
        → (r ≡ ok tt → IsExplained next)
        → IsExplained (after_lineage same_fold parse assets_of f caps task fails r s next)
    lineage-IsExplained (err e) next same h = (same, refl)
    lineage-IsExplained (ok tt) next same h = h refl

    rules-IsExplained :
        (r : Option DecisionViolation) (next : Option CycleError × RunState W)
        → validate_decision d ≡ r
        → (r ≡ none → IsExplained next)
        → IsExplained (after_rules same_fold parse assets_of f caps task fails r s next)
    rules-IsExplained (some v) next same h = (same, refl)
    rules-IsExplained none next same h = h refl

  -- Execute refuses a decision only for the rule, the wiring or the criterion that it breaks, and then
  -- nothing is written and nothing runs. Any other answer comes after every gate was passed: where
  -- the store does not take the plan, what it took of the plan's rows is all that changed; and a
  -- done without actions that is answered with no error was held against a contract of the task
  -- that is not empty, and each of its criteria is established in the world, with what the task's
  -- steps produced.
  pub execute_decision-Explains :
      (answer : PlanAnswer) (plan cycle : ℕ) (d : Decision) (s : RunState W)
      → Explains answer cycle d s
          (record_plan same_fold parse assets_of f caps task fails answer plan cycle d s)
          (pin same_fold parse assets_of f caps task fails plan cycle d
            (record_plan same_fold parse assets_of f caps task fails answer plan cycle d s))
          (execute_decision same_fold parse assets_of f caps task fails answer plan cycle d s).0
          (execute_decision same_fold parse assets_of f caps task fails answer plan cycle d s).1
  unfolding execute_decision
  execute_decision-Explains answer plan cycle d s =
      let recorded =
        record_plan same_fold parse assets_of f caps task fails answer plan cycle d s in
      let pinned = pin same_fold parse assets_of f caps task fails plan cycle d recorded in
      rules-IsExplained answer cycle d s recorded pinned (validate_decision d) _ refl (λ rules.
        lineage-IsExplained answer cycle d s recorded pinned (validate_plan_lineage f d.actions) _
          refl
          (λ lineage.
            contract-IsExplained answer cycle d s recorded pinned
              (check_contract_at same_fold parse assets_of f caps task fails cycle d) _ refl
              (λ contract.
                recording-IsExplained answer cycle d s recorded pinned
                  (plan_error same_fold parse assets_of f caps task fails answer) _ refl
                  (rules, lineage, contract)
                  (carry_out-IsExplained answer cycle d s recorded pinned
                    (rules, lineage, contract)))))
