-- ===== src/Verify/Contract.antt =====
-- src/verification.go: `validateCompletionContract`, what is checked of a contract before it is
-- pinned.
pub mod Fits
use autonomy.Base.{
  ℕ, suc, ◌+◌, Bool, true, false, not, List, [], ◌∷◌, Option, none, some, if◌then◌else◌, Result, ok,
  err, ◌>>◌,
}
use autonomy.Text.{Str, str_eq, trim_space, is_blank}
use autonomy.Decision.{Criterion, CapabilityAction, Action, absent, nothing, calls}
use autonomy.Decision.Detail.{StepLabel, named, position}
use autonomy.Plan.Source.{InputSource, step, world, parse_input_source}
use autonomy.Plan.Capability.{Factory, declared_outputs_of, field_accepts}

pub data ContractError : Type 0 where
  unreadable_slot names_a_check : StepLabel → ContractError
  slot_declares_no_outputs slot_not_reported : StepLabel → Str → Str → ContractError

-- `criterionLabel`.
abbrev pub criterion_label : Criterion → ℕ → StepLabel
criterion_label c i = if is_blank c.name then position (i + 1) else named (trim_space c.name)

-- `Criterion.HasCheck`.
abbrev pub names_check : Criterion → Bool
names_check c = not (is_blank c.check.capability)

module _ {W : Type 0} (f : Option (Factory W)) where
  abbrev pub check_reported : StepLabel → Str → Str → Str → Result ContractError (Unit {0})
  check_reported label capability name key = elim (declared_outputs_of f capability) [
    | none ↦ err (slot_declares_no_outputs label name key)
    | some outputs ↦
        if field_accepts outputs key then ok tt else err (slot_not_reported label name key)
  ]

  -- `checkSlotAgainstPlan`: the first step of that name decides.
  unfoldable pub check_slot_against_plan :
      StepLabel → Str → Str → List Action → Result ContractError (Unit {0})
  check_slot_against_plan label name key [] = ok tt
  check_slot_against_plan label name key (absent ∷ actions) =
      check_slot_against_plan label name key actions
  check_slot_against_plan label name key (nothing _ ∷ actions) =
      check_slot_against_plan label name key actions
  check_slot_against_plan label name key (calls s ∷ actions) =
      let rest = check_slot_against_plan label name key actions in
      if not (str_eq (trim_space s.step_name) name)
      then rest
      else check_reported label s.name name key

  abbrev pub check_slot :
      StepLabel → List Action → Option InputSource → Result ContractError (Unit {0})
  check_slot label actions none = err (unreadable_slot label)
  check_slot label actions (some (step name key)) = check_slot_against_plan label name key actions
  check_slot label actions (some (world id field)) = ok tt

  -- One round of the loop. A criterion with no slot is passed over.
  unfoldable pub check_criterion : ℕ → List Action → Criterion → Result ContractError (Unit {0})
  check_criterion i actions c =
      if is_blank c.slot
      then ok tt
      else check_slot (criterion_label c i) actions (parse_input_source c.slot)
        >> (if names_check c then err (names_a_check (criterion_label c i)) else ok tt)

  unfoldable pub check_contract : ℕ → List Action → List Criterion → Result ContractError (Unit {0})
  check_contract i actions [] = ok tt
  check_contract i actions (c ∷ cs) =
      check_criterion i actions c >> check_contract (suc i) actions cs

  unfoldable pub validate_completion_contract :
      List Criterion → List Action → Result ContractError (Unit {0})
  validate_completion_contract contract actions = check_contract 0 actions contract
