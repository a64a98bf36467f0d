-- ===== src/Cycle/Pinned.antt =====
-- src/completion_contract.go and src/runtime.go: what a task's contract keeps.
use autonomy.Base.{
  ℕ, suc, ◌≡◌, refl, Bool, false, ◌||◌, List, [], ◌∷◌, Option, none, some, Result, ok, err, ◌==◌,
  ltb, is_nil, any, Bool-cases, if◌then◌else◌, if_cases, inl, inr, arith, ap, ◌∙◌,
}
use autonomy.Text.{Str, is_blank}
use autonomy.Dict.{Dict}
use autonomy.Decision.{Decision, Criterion, is_done}
use autonomy.Decision.Rules.{validate_decision, DecisionViolation}
use autonomy.Plan.Capability.{Capability, Factory}
use autonomy.Plan.World.{Assets}
use autonomy.Plan.Lineage.{LineageError, validate_plan_lineage}
use autonomy.Plan.Run.{Task}
use autonomy.Verify.Contract.{ContractError}
use autonomy.Cycle.Contract.{
  ContractRow, insert_row, place_row, pin_rows, pin_completion_contract, task_id_of,
}
use autonomy.Cycle.{
  PlanAnswer, plan_not_taken, steps_not_taken, not_read_back, saved, plan_error, RunState,
  CycleError, pin, record_plan, verify, run_steps, carry_out, execute_decision, after_rules,
  after_lineage, after_contract, after_recording, check_contract_at,
}

-- The row of an index.
abbrev pub row_at : ℕ → List ContractRow → Option ContractRow
row_at i [] = none
row_at i (r ∷ rows) = if r.idx == i then some r else row_at i rows

-- Every row of the one is in the other.
abbrev pub Keeps : List ContractRow → List ContractRow → Type 0
Keeps rows rows' = (i : ℕ) (r : ContractRow) → row_at i rows ≡ some r → row_at i rows' ≡ some r

row_at-place_row :
    (row r : ContractRow) (rows : List ContractRow) (i : ℕ)
    → (row.idx == i) ≡ false
    → row_at i rows ≡ some r
    → row_at i (place_row row rows) ≡ some r
unfolding place_row
row_at-place_row row r [] i other h = absurd (ground (arith, h))
row_at-place_row row r (s ∷ rows) i other h =
    if_cases (λ rows'. row_at i rows' ≡ some r) (ltb row.idx s.idx) (λ _. ground (arith, other, h))
      (λ _. elim (Bool-cases (s.idx == i)) [
        | inl same ↦ ground (arith, same, h)
        | inr different ↦
            (let rest = row_at-place_row row r rows i other (ground (arith, different, h)) in
              ground (arith, different, rest))
      ])

-- The row of an index that no row has.
row_at-any :
    (i k : ℕ) (r : ContractRow) (rows : List ContractRow)
    → any (λ s. s.idx == k) rows ≡ false
    → row_at i rows ≡ some r
    → (k == i) ≡ false
unfolding any
row_at-any i k r [] none_has h = absurd (ground (arith, h))
row_at-any i k r (s ∷ rows) none_has h = elim (Bool-cases (s.idx == i)) [
  | inl same ↦ ground (arith, same, none_has)
  | inr different ↦ row_at-any i k r rows (ground (arith, none_has)) (ground (arith, different, h))
]

insert_row-Keeps : (row : ContractRow) (rows : List ContractRow) → Keeps rows (insert_row row rows)
unfolding insert_row
insert_row-Keeps row rows i r h =
    if_cases (λ rows'. row_at i rows' ≡ some r) (any (λ s. s.idx == row.idx) rows) (λ _. h)
      (λ new. row_at-place_row row r rows i (row_at-any i row.idx r rows new h) h)

pin_rows-Keeps :
    (fails : ℕ → Bool) (plan i : ℕ) (cs : List Criterion) (rows : List ContractRow)
    → Keeps rows (pin_rows fails plan i cs rows)
unfolding pin_rows
pin_rows-Keeps fails plan i [] rows j r h = h
pin_rows-Keeps fails plan i (c ∷ cs) rows j r h = pin_rows-Keeps fails plan (suc i) cs _ j r (
    if_cases (λ rows'. row_at j rows' ≡ some r) (fails i) (λ _. h)
      (λ _. insert_row-Keeps _ rows j r h))

pin_completion_contract-Keeps :
    (fails : ℕ → Bool) (task : Task) (plan : ℕ) (cs : List Criterion) (rows : List ContractRow)
    → Keeps rows (pin_completion_contract fails task plan cs rows)
unfolding pin_completion_contract
pin_completion_contract-Keeps fails task plan cs rows j r h =
    if_cases (λ rows'. row_at j rows' ≡ some r) (is_blank (task_id_of task) || is_nil cs) (λ _. h)
      (λ _. pin_rows-Keeps fails plan 1 cs rows j r h)

-- A cycle's decision, with what the store answers to its plan and to its contract.
pub record Executed : Type 0 where
  pub answer : PlanAnswer
  pub plan : ℕ
  pub cycle : ℕ
  pub decision : Decision
  pub fails : ℕ → Bool

module _ {W : Type 0} (same_fold : Str → Str → Bool) (parse : Str → Option Criterion)
    (assets_of : W → Assets) (f : Option (Factory W)) (caps : Dict (Capability W))
    (task : Task) where
  -- The task's rows after the decisions, one after the other, whatever each of them is answered.
  unfoldable pub execute_all : List Executed → RunState W → RunState W
  execute_all [] s = s
  execute_all (e ∷ es) s =
      execute_all es
        (execute_decision same_fold parse assets_of f caps task e.fails e.answer e.plan e.cycle
          e.decision s).1

  module _ (fails : ℕ → Bool) where
    abbrev Kept : RunState W → Option CycleError × RunState W → Type 0
    Kept s o = Keeps s.contract o.1.contract

    carry_out-Kept :
        (d : Decision) (s s' : RunState W)
        → Keeps s.contract s'.contract
        → Kept s (carry_out same_fold parse assets_of f caps task fails d s')
    unfolding carry_out run_steps verify
    carry_out-Kept d s s' h =
        if_cases (Kept s) (is_nil d.actions) (λ _. if_cases (Kept s) (is_done d) (λ _. h) (λ _. h))
          (λ _. h)

    record_plan-contract :
        (answer : PlanAnswer) (plan cycle : ℕ) (d : Decision) (s : RunState W)
        → (record_plan same_fold parse assets_of f caps task fails answer plan cycle d s).contract
          ≡ s.contract
    unfolding record_plan
    record_plan-contract (plan_not_taken e) plan cycle d s = refl
    record_plan-contract (steps_not_taken e) plan cycle d s = refl
    record_plan-contract (not_read_back e) plan cycle d s = refl
    record_plan-contract saved plan cycle d s = refl

    pin-Keeps :
        (plan cycle : ℕ) (d : Decision) (s s' : RunState W)
        → Keeps s.contract s'.contract
        → Keeps s.contract
            (pin same_fold parse assets_of f caps task fails plan cycle d s').contract
    unfolding pin
    pin-Keeps plan cycle d s s' h i r at =
        if_cases (λ (s'' : RunState W). row_at i s''.contract ≡ some r) (cycle == 1)
          (λ _. pin_completion_contract-Keeps fails task plan d.contract s'.contract i r (h i r at))
          (λ _. h i r at)

    rules-Kept :
        (r : Option DecisionViolation) (s : RunState W) (next : Option CycleError × RunState W)
        → Kept s next
        → Kept s (after_rules same_fold parse assets_of f caps task fails r s next)
    rules-Kept (some v) s next h = λ i r kept. kept
    rules-Kept none s next h = h

    lineage-Kept :
        (r : Result LineageError (Unit {0})) (s : RunState W)
        (next : Option CycleError × RunState W)
        → Kept s next
        → Kept s (after_lineage same_fold parse assets_of f caps task fails r s next)
    lineage-Kept (err e) s next h = λ i r kept. kept
    lineage-Kept (ok u) s next h = h

    contract-Kept :
        (r : Result ContractError (Unit {0})) (s : RunState W)
        (next : Option CycleError × RunState W)
        → Kept s next
        → Kept s (after_contract same_fold parse assets_of f caps task fails r s next)
    contract-Kept (err e) s next h = λ i r kept. kept
    contract-Kept (ok u) s next h = h

    recording-Kept :
        (error : Option Str) (s s' : RunState W) (next : Option CycleError × RunState W)
        → Keeps s.contract s'.contract
        → Kept s next
        → Kept s (after_recording same_fold parse assets_of f caps task fails error s' next)
    recording-Kept (some e) s s' next h kept = h
    recording-Kept none s s' next h kept = kept

    execute_decision-Keeps :
        (answer : PlanAnswer) (plan cycle : ℕ) (d : Decision) (s : RunState W)
        → Kept s
            (execute_decision same_fold parse assets_of f caps task fails answer plan cycle d s)
    unfolding execute_decision
    execute_decision-Keeps answer plan cycle d s =
        let recorded =
          record_plan same_fold parse assets_of f caps task fails answer plan cycle d s in
        let on_record : Keeps s.contract recorded.contract =
          λ i r at. ap (row_at i) (record_plan-contract answer plan cycle d s) ∙ at in
        let pinned = pin same_fold parse assets_of f caps task fails plan cycle d recorded in
        let done = carry_out same_fold parse assets_of f caps task fails d pinned in
        let error = plan_error same_fold parse assets_of f caps task fails answer in
        let taken =
          after_recording same_fold parse assets_of f caps task fails error recorded done in
        let checked = check_contract_at same_fold parse assets_of f caps task fails cycle d in
        let wired = validate_plan_lineage f d.actions in
        let held = after_contract same_fold parse assets_of f caps task fails checked s taken in
        rules-Kept (validate_decision d) s
          (after_lineage same_fold parse assets_of f caps task fails wired s held)
          (lineage-Kept wired s held (
            contract-Kept checked s taken (
              recording-Kept error s recorded done on_record
                (carry_out-Kept d s pinned (pin-Keeps plan cycle d s recorded on_record)))))

  -- Whatever decisions come after, and whatever the store answers to them: a criterion that the task
  -- pinned under a number stays the one that it is held against under that number.
  pub row_at-execute_all :
      (es : List Executed) (s : RunState W) (i : ℕ) (r : ContractRow)
      → row_at i s.contract ≡ some r
      → row_at i (execute_all es s).contract ≡ some r
  unfolding execute_all
  row_at-execute_all [] s i r h = h
  row_at-execute_all (e ∷ es) s i r h =
      row_at-execute_all es _ i r
        (execute_decision-Keeps e.fails e.answer e.plan e.cycle e.decision s i r h)
