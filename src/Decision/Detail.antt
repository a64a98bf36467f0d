-- ===== src/Decision/Detail.antt =====
-- What an answer of a check says: the sentences of src/decision_rules.go with their arguments, and
-- `stepLabel` of src/plan_lineage.go.
pub mod Laws
use autonomy.Base.{ℕ, ◌+◌, Bool, List, if◌then◌else◌, any}
use autonomy.Text.{Str, str_eq, trim_space, is_blank}
use autonomy.Decision.{CapabilityAction}

-- How an error names a step: by its own name, or by its position.
pub data StepLabel : Type 0 where
  named : Str → StepLabel
  position : ℕ → StepLabel

abbrev pub step_label : CapabilityAction → ℕ → StepLabel
step_label step i =
    if is_blank step.step_name then position (i + 1) else named (trim_space step.step_name)

-- What broke a rule.
pub data Detail : Type 0 where
  no_steps_planned : Detail
  no_expected_effect : StepLabel → Detail
  dangling_ref : StepLabel → Str → List Str → Detail
  carries_steps : ℕ → Str → Detail
  carries_need : Detail
  carries_no_evidence : Detail
  asks_worker_auth : Detail
  asks_invented_construct : Detail
  says_nothing_missing : Detail
  single_option : Detail
  too_many_options : ℕ → Detail
  empty_option : ℕ → Detail
  repeated_option : Str → Detail

-- Membership of a Go set, `seen[s]`.
unfoldable pub has : Str → List Str → Bool
has s = any (str_eq s)
