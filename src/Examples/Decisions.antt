-- ===== src/Examples/Decisions.antt =====
-- Decisions as a reasoner writes them.
use autonomy.Base.{◌≡◌, refl, ◌↔◌, true, [], ◌∷◌, none, some}
use autonomy.Text.{
  codes, str_eq, canonical, trim_space, trim_left, is_space, is_blank, lower_rune, to_lower,
  contains, index, strip_prefix,
}
use autonomy.Decision.{
  Decision, Need, Evidence, calls, CapabilityAction, decision_done, is_done, concludes, completed,
  task_status_for,
}
use autonomy.Decision.Detail.{asks_worker_auth}
use autonomy.Decision.Needs.{
  no_steps, no_need, done_names_evidence, need_describes_what_is_missing,
  need_not_ask_runtime_to_authorize_a_worker, need_options_are_choices, names_a_gap,
  asks_worker_workspace_auth, need_false_gap_text, contains_any_fold,
}
use autonomy.Decision.Needs.Options.{AreChoices, need_options_iff}
use autonomy.Decision.Rules.{DecisionViolation, validate_decision, decision_rules, first_violation}
use autonomy.Decision.Rules.Spec.{
  MeetsItsType, IsFirstBroken, validate_decision_iff, validate_decision-first,
}
use autonomy.Decision.Rules.Conclude.{concludes-actions, is_done-canonical, task_status-completed}

abbrev no_need_at_all : Need
no_need_at_all = record { type = []; description = []; options = [] }

abbrev a_fact : Evidence
a_fact = record {
  id = codes "e1";
  source = codes "capability";
  reference = codes "42";
  fact = codes "the pull request is merged";
}

abbrev merged : Decision
merged = record {
  type = codes " Done ";
  reason = codes "merged";
  origin = record { reason_turn_id = 1; input_message_id = 2; reply_message_id = 3 };
  evidence = a_fact ∷ [];
  contract = [];
  actions = [];
  need = no_need_at_all;
}

-- A plan of one step, which cites the fact.
abbrev edit : CapabilityAction
edit = record {
  name = codes "code_edit";
  step_name = codes "edit";
  inputs = [];
  expected_effect = codes "the code is changed";
  evidence_refs = codes "e1" ∷ [];
}

abbrev one_step : Decision
one_step = record merged { type = codes "plan"; actions = calls edit ∷ [] }

abbrev asks_for_permission : Decision
asks_for_permission = record merged {
  type = codes "blocked";
  need = record {
    type = codes "Permission";
    description = codes "permit code_edit in the workspace";
    options = codes "yes" ∷ codes "no" ∷ [];
  };
}

merged-validates : validate_decision merged ≡ none
unfolding validate_decision first_violation decision_rules str_eq canonical to_lower trim_space
    trim_left is_space lower_rune no_steps no_need is_blank done_names_evidence
merged-validates = refl

merged-concludes : concludes merged ≡ true
unfolding concludes str_eq canonical to_lower trim_space trim_left is_space lower_rune
merged-concludes = refl

validate_decision_iff_example : (validate_decision one_step ≡ none) ↔ MeetsItsType one_step
validate_decision_iff_example = validate_decision_iff one_step

abbrev refused : DecisionViolation
refused = record {
  decision_type = codes "blocked";
  rule = "blocked.need_not_runtime_worker_auth";
  detail = asks_worker_auth;
}

asks-refused : validate_decision asks_for_permission ≡ some refused
unfolding validate_decision first_violation decision_rules str_eq canonical to_lower trim_space
    trim_left is_space lower_rune no_steps is_blank need_describes_what_is_missing
    need_not_ask_runtime_to_authorize_a_worker names_a_gap asks_worker_workspace_auth
    need_false_gap_text contains_any_fold contains index strip_prefix
asks-refused = refl

validate_decision-first_example :
    (refused.decision_type ≡ codes "blocked")
    × IsFirstBroken asks_for_permission (decision_rules (canonical (codes "blocked"))) refused
validate_decision-first_example = validate_decision-first asks_for_permission refused asks-refused

concludes-actions_example : merged.actions ≡ []
concludes-actions_example = concludes-actions merged merged-concludes merged-validates

is_done-canonical_example : is_done merged ≡ str_eq (canonical merged.type) decision_done
is_done-canonical_example = is_done-canonical merged

task_status-completed_example : (task_status_for merged ≡ completed) ↔ (is_done merged ≡ true)
task_status-completed_example = task_status-completed merged merged-concludes

need_options_iff_example :
    (need_options_are_choices asks_for_permission ≡ none)
    ↔ AreChoices (codes "yes" ∷ codes "no" ∷ [])
need_options_iff_example = need_options_iff asks_for_permission
