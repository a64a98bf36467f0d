-- ===== src/Verify/Contract/Fits.antt =====
-- What `validateCompletionContract` accepts.
use autonomy.Base.{
  ℕ, suc, ◌+◌, ◌≡◌, ◌≢◌, refl, ◌↔◌, ◌⊎◌, inl, inr, true, false, List, [], ◌∷◌, Option, none, some,
  ok, arith, All, Bool-cases,
}
use autonomy.Text.{Str, str_eq, trim_space, is_blank}
use autonomy.Text.Laws.{str_eq_sound}
use autonomy.Decision.{Criterion, Action, absent, nothing, calls}
use autonomy.Decision.Detail.{StepLabel}
use autonomy.Plan.Source.{InputSource, step, world, parse_input_source}
use autonomy.Plan.Source.Parse.{parse-step}
use autonomy.Plan.Capability.{Field, Factory, declared_outputs_of, field_accepts}
use autonomy.Plan.Lineage.Names.{find_step}
use autonomy.Plan.Run.Safe.{step_name-ne-nil}
use autonomy.Verify.Contract.{
  names_check, criterion_label, check_reported, check_slot_against_plan, check_slot,
  check_criterion, check_contract, validate_completion_contract,
}

is_blank_named : (t name : Str) → trim_space t ≡ name → name ≢ [] → is_blank t ≡ false
unfolding is_blank
is_blank_named t [] e n = absurd (n refl)
is_blank_named t (c ∷ name) e n = rw e refl

module _ {W : Type 0} (f : Option (Factory W)) where
  -- The plan has no step of the name, or the first of that name declares the output.
  abbrev pub IsReported : Option (ℕ × Str) → Str → Type 0
  IsReported none key = Unit
  IsReported (some (p, c)) key =
      (outputs : List Field) × (declared_outputs_of f c ≡ some outputs)
      × (field_accepts outputs key ≡ true)

  abbrev pub SlotFits : List Action → Option InputSource → Type 0
  SlotFits actions none = ⊥
  SlotFits actions (some (step name key)) = IsReported (find_step name 0 actions) key
  SlotFits actions (some (world id field)) = Unit

  -- A criterion has no slot, or one that can be read and fits the plan, and names no check.
  abbrev pub IsReadable : List Action → Criterion → Type 0
  IsReadable actions c =
      (is_blank c.slot ≡ true)
      ⊎ (SlotFits actions (parse_input_source c.slot) × (names_check c ≡ false))

  check_reported_iff :
      (label : StepLabel) (i : ℕ) (capability name key : Str)
      → (check_reported f label capability name key ≡ ok tt) ↔ IsReported (some (i, capability)) key
  check_reported_iff label i capability name key = ground arith

  slot_against_plan_iff :
      (label : StepLabel) (name key : Str) (i : ℕ) (actions : List Action)
      → name ≢ []
      → (check_slot_against_plan f label name key actions ≡ ok tt)
        ↔ IsReported (find_step name i actions) key
  unfolding check_slot_against_plan find_step
  slot_against_plan_iff label name key i [] n = (λ _. tt, λ _. refl)
  slot_against_plan_iff label name key i (absent ∷ actions) n =
      slot_against_plan_iff label name key (suc i) actions n
  slot_against_plan_iff label name key i (nothing _ ∷ actions) n =
      slot_against_plan_iff label name key (suc i) actions n
  slot_against_plan_iff label name key i (calls s ∷ actions) n =
      elim (Bool-cases (str_eq (trim_space s.step_name) name)) [
        | inr q ↦ ground (arith, q, slot_against_plan_iff label name key (suc i) actions n)
        | inl q ↦
            let e : trim_space s.step_name ≡ name = str_eq_sound (trim_space s.step_name) name q in
            rw (q, is_blank_named s.step_name name e n)
              (check_reported_iff label (i + 1) s.name name key)
      ]

  check_slot_iff :
      (label : StepLabel) (actions : List Action) (raw : Str) (source : Option InputSource)
      → parse_input_source raw ≡ source
      → (check_slot f label actions source ≡ ok tt) ↔ SlotFits actions source
  check_slot_iff label actions raw none e = (λ h. cc, λ h. absurd h)
  check_slot_iff label actions raw (some (step name key)) e =
      let (_, named, _, _) = parse-step raw name key e in
      slot_against_plan_iff label name key 0 actions (step_name-ne-nil name named)
  check_slot_iff label actions raw (some (world id field)) e = (λ _. tt, λ _. refl)

  check_criterion_iff :
      (i : ℕ) (actions : List Action) (c : Criterion)
      → (check_criterion f i actions c ≡ ok tt) ↔ IsReadable actions c
  unfolding check_criterion
  check_criterion_iff i actions c =
      ground (
        arith,
        check_slot_iff (criterion_label c i) actions c.slot (parse_input_source c.slot) refl,
      )

  check_contract_iff :
      (i : ℕ) (actions : List Action) (cs : List Criterion)
      → (check_contract f i actions cs ≡ ok tt) ↔ All (IsReadable actions) cs
  unfolding check_contract
  check_contract_iff i actions [] = (λ _. tt, λ _. refl)
  check_contract_iff i actions (c ∷ cs) =
      ground (arith, check_criterion_iff i actions c, check_contract_iff (suc i) actions cs)

  -- A contract is accepted exactly when every criterion of it has no evidence slot, or has one that
  -- can be read, that names no step of the plan whose capability does not declare the output, and
  -- beside which no check is named.
  pub validate_completion_contract_iff :
      (contract : List Criterion) (actions : List Action)
      → (validate_completion_contract f contract actions ≡ ok tt)
        ↔ All (IsReadable actions) contract
  unfolding validate_completion_contract
  validate_completion_contract_iff contract actions = check_contract_iff 0 actions contract
