-- ===== src/Decision/Steps/Spec.antt =====
-- What the checks of a plan's steps decide.
use autonomy.Base.{
  ℕ, suc, ◌≡◌, ◌≢◌, refl, ◌↔◌, ◌⊎◌, true, false, List, [], ◌∷◌, none, arith, All, Some,
}
use autonomy.Text.{Str, trim_space, is_blank}
use autonomy.Decision.{Action, absent, nothing, calls, Evidence, Decision}
use autonomy.Decision.Detail.Laws.{has_sound, has_complete}
use autonomy.Decision.Steps.{
  plan_has_steps, effects_from, plan_steps_say_what_they_are_for, evidence_ids, first_dangling,
  refs_from, plan_evidence_refs_exist,
}

-- A step that calls a capability names the effect that it expects.
abbrev pub SaysWhatItIsFor : Action → Type 0
SaysWhatItIsFor absent = Unit
SaysWhatItIsFor (nothing _) = Unit
SaysWhatItIsFor (calls step) = is_blank step.expected_effect ≡ false

-- A reference that is not blank is the id of some evidence, both trimmed.
abbrev pub IsCarried : List Evidence → Str → Type 0
IsCarried evidence ref =
    (is_blank ref ≡ true)
    ⊎ Some (λ e. (is_blank e.id ≡ false) × (trim_space ref ≡ trim_space e.id)) evidence

abbrev pub CitesCarried : List Evidence → Action → Type 0
CitesCarried evidence absent = Unit
CitesCarried evidence (nothing _) = Unit
CitesCarried evidence (calls step) = All (IsCarried evidence) step.evidence_refs

pub plan_has_steps_iff : (d : Decision) → (plan_has_steps d ≡ none) ↔ (d.actions ≢ [])
unfolding plan_has_steps
plan_has_steps_iff d = ground arith

effects_from_iff :
    (i : ℕ) (actions : List Action) → (effects_from i actions ≡ none) ↔ All SaysWhatItIsFor actions
unfolding effects_from
effects_from_iff i [] = (λ _. tt, λ _. refl)
effects_from_iff i (absent ∷ rest) = ground (arith, effects_from_iff (suc i) rest)
effects_from_iff i (nothing _ ∷ rest) = ground (arith, effects_from_iff (suc i) rest)
effects_from_iff i (calls step ∷ rest) = ground (arith, effects_from_iff (suc i) rest)

pub plan_effects_iff :
    (d : Decision) → (plan_steps_say_what_they_are_for d ≡ none) ↔ All SaysWhatItIsFor d.actions
unfolding plan_steps_say_what_they_are_for
plan_effects_iff d = effects_from_iff 0 d.actions

Some-evidence_ids :
    (s : Str) (es : List Evidence)
    → Some (λ x. s ≡ x) (evidence_ids es)
      ↔ Some (λ e. (is_blank e.id ≡ false) × (s ≡ trim_space e.id)) es
unfolding evidence_ids
Some-evidence_ids s [] = (λ h. h, λ h. h)
Some-evidence_ids s (e ∷ es) = ground (arith, Some-evidence_ids s es)

first_dangling_iff :
    (es : List Evidence) (refs : List Str)
    → (first_dangling (evidence_ids es) refs ≡ none) ↔ All (IsCarried es) refs
unfolding first_dangling
first_dangling_iff es [] = (λ _. tt, λ _. refl)
first_dangling_iff es (ref ∷ refs) = ground (
  arith,
  has_sound (trim_space ref) (evidence_ids es),
  has_complete (trim_space ref) (evidence_ids es),
  Some-evidence_ids (trim_space ref) es,
  first_dangling_iff es refs,
)

refs_from_iff :
    (es : List Evidence) (i : ℕ) (actions : List Action)
    → (refs_from (evidence_ids es) i actions ≡ none) ↔ All (CitesCarried es) actions
unfolding refs_from
refs_from_iff es i [] = (λ _. tt, λ _. refl)
refs_from_iff es i (absent ∷ rest) = ground (arith, refs_from_iff es (suc i) rest)
refs_from_iff es i (nothing _ ∷ rest) = ground (arith, refs_from_iff es (suc i) rest)
refs_from_iff es i (calls step ∷ rest) =
    ground (arith, first_dangling_iff es step.evidence_refs, refs_from_iff es (suc i) rest)

pub plan_evidence_refs_iff :
    (d : Decision) → (plan_evidence_refs_exist d ≡ none) ↔ All (CitesCarried d.evidence) d.actions
unfolding plan_evidence_refs_exist
plan_evidence_refs_iff d = refs_from_iff d.evidence 0 d.actions
