-- ===== src/Decision/Rules.antt =====
-- src/decision_rules.go: the requirements of each decision type, in the order they are checked.
pub mod Spec
pub mod Conclude
use Prim.Native.String.{String}
use autonomy.Base.{List, [], ◌∷◌, Option, none, some, if◌then◌else◌}
use autonomy.Text.{Str, str_eq, canonical}
use autonomy.Decision.{
  Decision, decision_plan, decision_done, decision_blocked, decision_need_input,
}
use autonomy.Decision.Detail.{Detail}
use autonomy.Decision.Steps.{
  plan_has_steps, plan_steps_say_what_they_are_for, plan_evidence_refs_exist,
}
use autonomy.Decision.Needs.{
  no_steps, no_need, done_names_evidence, need_describes_what_is_missing,
  need_not_ask_runtime_to_authorize_a_worker, need_options_are_choices,
}

pub record DecisionRule : Type 0 where
  pub name : String
  pub check : Decision → Option Detail

pub record DecisionViolation : Type 0 where
  pub decision_type : Str
  pub rule : String
  pub detail : Detail

abbrev pub plan_rules : List DecisionRule
plan_rules =
    record { name = "plan.not_empty"; check = plan_has_steps }
    ∷ record { name = "plan.steps_say_what_they_are_for"; check = plan_steps_say_what_they_are_for }
    ∷ record { name = "plan.evidence_refs_exist"; check = plan_evidence_refs_exist }
    ∷ []

abbrev pub done_rules : List DecisionRule
done_rules =
    record { name = "done.plan_empty"; check = no_steps }
    ∷ record { name = "done.need_empty"; check = no_need }
    ∷ record { name = "done.evidence_present"; check = done_names_evidence }
    ∷ []

abbrev pub blocked_rules : List DecisionRule
blocked_rules =
    record { name = "blocked.plan_empty"; check = no_steps }
    ∷ record {
      name = "blocked.need_describes_what_is_missing";
      check = need_describes_what_is_missing;
    }
    ∷ record {
      name = "blocked.need_not_runtime_worker_auth";
      check = need_not_ask_runtime_to_authorize_a_worker;
    }
    ∷ record { name = "blocked.need_options_are_choices"; check = need_options_are_choices }
    ∷ []

abbrev pub need_input_rules : List DecisionRule
need_input_rules =
    record { name = "need_input.plan_empty"; check = no_steps }
    ∷ record {
      name = "need_input.need_describes_what_is_missing";
      check = need_describes_what_is_missing;
    }
    ∷ record {
      name = "need_input.need_not_runtime_worker_auth";
      check = need_not_ask_runtime_to_authorize_a_worker;
    }
    ∷ record { name = "need_input.need_options_are_choices"; check = need_options_are_choices }
    ∷ []

-- `decisionRules[type]`: a type that is no key has no rules.
unfoldable pub decision_rules : Str → List DecisionRule
decision_rules type =
    if str_eq type decision_plan
    then plan_rules
    else if str_eq type decision_done
    then done_rules
    else if str_eq type decision_blocked
    then blocked_rules
    else if str_eq type decision_need_input
    then need_input_rules
    else []

-- The loop of `validateDecision`: the first rule that is broken.
unfoldable pub first_violation : Decision → List DecisionRule → Option DecisionViolation
first_violation d [] = none
first_violation d (rule ∷ rules) = elim (rule.check d) [
  | some detail ↦ some (record { decision_type = d.type; rule = rule.name; detail = detail })
  | none ↦ first_violation d rules
]

unfoldable pub validate_decision : Decision → Option DecisionViolation
validate_decision d = first_violation d (decision_rules (canonical d.type))
