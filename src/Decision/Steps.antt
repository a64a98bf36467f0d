-- ===== src/Decision/Steps.antt =====
-- src/decision_rules.go: the checks of a plan's steps. A check answers with what broke the rule;
-- the source writes it as a sentence, where "" is `none`.
pub mod Spec
use autonomy.Base.{ℕ, suc, ◌||◌, List, [], ◌∷◌, Option, none, some, if◌then◌else◌, length, is_nil}
use autonomy.Text.{Str, trim_space, is_blank}
use autonomy.Decision.{Action, absent, nothing, calls, Evidence, Decision}
use autonomy.Decision.Detail.{
  Detail, no_steps_planned, no_expected_effect, dangling_ref, carries_steps, step_label, has,
}

unfoldable pub plan_has_steps : Decision → Option Detail
plan_has_steps d = if is_nil d.actions then some no_steps_planned else none

-- The loop of `planStepsSayWhatTheyAreFor`, at position i.
unfoldable pub effects_from : ℕ → List Action → Option Detail
effects_from i [] = none
effects_from i (absent ∷ actions) = effects_from (suc i) actions
effects_from i (nothing _ ∷ actions) = effects_from (suc i) actions
effects_from i (calls step ∷ actions) =
    if is_blank step.expected_effect
    then some (no_expected_effect (step_label step i))
    else effects_from (suc i) actions

unfoldable pub plan_steps_say_what_they_are_for : Decision → Option Detail
plan_steps_say_what_they_are_for d = effects_from 0 d.actions

-- The ids that are not blank, trimmed: the set `known`, and what `evidenceIDs` prints.
unfoldable pub evidence_ids : List Evidence → List Str
evidence_ids [] = []
evidence_ids (e ∷ es) = if is_blank e.id then evidence_ids es else trim_space e.id ∷ evidence_ids es

-- The first reference that is not blank and not known.
unfoldable pub first_dangling : List Str → List Str → Option Str
first_dangling known [] = none
first_dangling known (ref ∷ refs) =
    if is_blank ref || has (trim_space ref) known
    then first_dangling known refs
    else some (trim_space ref)

unfoldable pub refs_from : List Str → ℕ → List Action → Option Detail
refs_from known i [] = none
refs_from known i (absent ∷ actions) = refs_from known (suc i) actions
refs_from known i (nothing _ ∷ actions) = refs_from known (suc i) actions
refs_from known i (calls step ∷ actions) = elim (first_dangling known step.evidence_refs) [
  | some ref ↦ some (dangling_ref (step_label step i) ref known)
  | none ↦ refs_from known (suc i) actions
]

unfoldable pub plan_evidence_refs_exist : Decision → Option Detail
plan_evidence_refs_exist d = refs_from (evidence_ids d.evidence) 0 d.actions
