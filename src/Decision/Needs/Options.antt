-- ===== src/Decision/Needs/Options.antt =====
-- What the checks of a need decide.
use autonomy.Base.{
  ℕ, suc, ◌≡◌, ◌≢◌, ◌≤◌, refl, ◌↔◌, ◌⊎◌, true, false, List, [], ◌∷◌, none, arith, All, Some, length,
  any,
}
use autonomy.Text.{Str, trim_space, is_blank, canonical}
use autonomy.Decision.{Decision}
use autonomy.Decision.Detail.{has}
use autonomy.Text.Laws.{str_eq_iff}
use autonomy.Decision.Needs.{
  no_steps, no_need, done_names_evidence, options_from, need_options_are_choices,
  need_not_ask_runtime_to_authorize_a_worker, need_describes_what_is_missing, names_a_gap,
  asks_worker_workspace_auth, asks_invented_verification_construct, need_false_gap_text,
}

-- No two options are the same text, the surrounding space aside.
abbrev pub AreDistinct : List Str → Type 0
AreDistinct [] = Unit
AreDistinct (o ∷ os) = (¬ Some (λ x. trim_space o ≡ trim_space x) os) × AreDistinct os

-- A list of options is no list at all, or a choice between two to nine different answers.
abbrev pub AreChoices : List Str → Type 0
AreChoices os =
    (os ≡ [])
    ⊎ ((2 ≤ length os) × (length os ≤ 9) × All (λ o. is_blank o ≡ false) os × AreDistinct os)

-- None of the options is one of the texts seen.
abbrev Unseen : List Str → List Str → Type 0
Unseen seen os = All (λ o. has (trim_space o) seen ≡ false) os

Unseen-cons :
    (s : Str) (seen os : List Str)
    → Unseen (s ∷ seen) os ↔ ((¬ Some (λ x. s ≡ trim_space x) os) × Unseen seen os)
unfolding has any
Unseen-cons s seen [] = (λ _. (λ h. h, tt), λ _. tt)
Unseen-cons s seen (o ∷ os) = ground (arith, str_eq_iff (trim_space o) s, Unseen-cons s seen os)

options_from_iff :
    (seen : List Str) (i : ℕ) (os : List Str)
    → (options_from seen i os ≡ none)
      ↔ (All (λ o. is_blank o ≡ false) os × AreDistinct os × Unseen seen os)
unfolding options_from
options_from_iff seen i [] = (λ _. (tt, tt, tt), λ _. refl)
options_from_iff seen i (o ∷ os) =
    ground
      (arith, options_from_iff (trim_space o ∷ seen) (suc i) os, Unseen-cons (trim_space o) seen os)

Unseen-nil : (os : List Str) → Unseen [] os
unfolding has any
Unseen-nil [] = tt
Unseen-nil (o ∷ os) = (refl, Unseen-nil os)

-- The options of a need pass exactly when there are none, or two to nine of them, none blank and no
-- two the same text up to surrounding space.
pub need_options_iff :
    (d : Decision) → (need_options_are_choices d ≡ none) ↔ AreChoices d.need.options
unfolding need_options_are_choices
need_options_iff d = ground (arith, options_from_iff [] 0 d.need.options, Unseen-nil d.need.options)

-- The need claims no gap that the runtime fills itself.
abbrev pub ClaimsNoFalseGap : Decision → Type 0
ClaimsNoFalseGap d =
    names_a_gap (canonical d.need.type) ≡ true
    → (asks_worker_workspace_auth (need_false_gap_text d) ≡ false)
      × (asks_invented_verification_construct (need_false_gap_text d) ≡ false)

pub need_false_gap_iff :
    (d : Decision) → (need_not_ask_runtime_to_authorize_a_worker d ≡ none) ↔ ClaimsNoFalseGap d
unfolding need_not_ask_runtime_to_authorize_a_worker
need_false_gap_iff d = ground arith

pub need_describes_iff :
    (d : Decision)
    → (need_describes_what_is_missing d ≡ none) ↔ (is_blank d.need.description ≡ false)
unfolding need_describes_what_is_missing
need_describes_iff d = ground arith

pub no_steps_iff : (d : Decision) → (no_steps d ≡ none) ↔ (d.actions ≡ [])
unfolding no_steps
no_steps_iff d = ground arith

pub no_need_iff :
    (d : Decision)
    → (no_need d ≡ none) ↔ (
        (is_blank d.need.type ≡ true)
        × (is_blank d.need.description ≡ true)
        × (d.need.options ≡ []))
unfolding no_need
no_need_iff d = ground arith

pub done_names_evidence_iff : (d : Decision) → (done_names_evidence d ≡ none) ↔ (d.evidence ≢ [])
unfolding done_names_evidence
done_names_evidence_iff d = ground arith
