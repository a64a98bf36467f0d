-- ===== src/Decision/Rules/Spec.antt =====
-- What a decision that passes its rules is, and which rule an answer names.
use autonomy.Base.{
  ◌≡◌, ◌≢◌, refl, ◌↔◌, ◌⊎◌, inl, inr, false, true, List, [], ◌∷◌, none, some, arith, All,
  Bool-cases,
}
use autonomy.Text.{Str, is_blank, canonical, str_eq}
use autonomy.Text.Laws.{str_eq_sound}
use autonomy.Decision.{
  Decision, decision_plan, decision_done, decision_blocked, decision_need_input,
}
use autonomy.Decision.Steps.Spec.{
  SaysWhatItIsFor, CitesCarried, plan_has_steps_iff, plan_effects_iff, plan_evidence_refs_iff,
}
use autonomy.Decision.Needs.Options.{
  AreChoices, ClaimsNoFalseGap, need_options_iff, need_false_gap_iff, need_describes_iff,
  no_steps_iff, no_need_iff, done_names_evidence_iff,
}
use autonomy.Decision.Rules.{
  DecisionRule, DecisionViolation, plan_rules, done_rules, blocked_rules, need_input_rules,
  decision_rules, first_violation, validate_decision,
}

abbrev pub IsPlan : Decision → Type 0
IsPlan d =
    (d.actions ≢ []) × All SaysWhatItIsFor d.actions × All (CitesCarried d.evidence) d.actions

abbrev pub IsDone : Decision → Type 0
IsDone d =
    (d.actions ≡ [])
    × ((is_blank d.need.type ≡ true) × (is_blank d.need.description ≡ true) × (d.need.options ≡ []))
    × (d.evidence ≢ [])

abbrev pub IsQuestion : Decision → Type 0
IsQuestion d =
    (d.actions ≡ [])
    × (is_blank d.need.description ≡ false)
    × ClaimsNoFalseGap d
    × AreChoices d.need.options

-- The requirements of AGENT_V2 on the four types of answer.
pub record MeetsItsType (d : Decision) : Type 0 where
  pub plan : canonical d.type ≡ decision_plan → IsPlan d
  pub done : canonical d.type ≡ decision_done → IsDone d
  pub blocked : canonical d.type ≡ decision_blocked → IsQuestion d
  pub need_input : canonical d.type ≡ decision_need_input → IsQuestion d

first_violation_iff :
    (d : Decision) (rules : List DecisionRule)
    → (first_violation d rules ≡ none) ↔ All (λ r. r.check d ≡ none) rules
unfolding first_violation
first_violation_iff d [] = (λ _. tt, λ _. refl)
first_violation_iff d (rule ∷ rules) = ground (arith, first_violation_iff d rules)

plan_rules_iff : (d : Decision) → All (λ r. r.check d ≡ none) plan_rules ↔ IsPlan d
plan_rules_iff d =
    ground (arith, plan_has_steps_iff d, plan_effects_iff d, plan_evidence_refs_iff d)

done_rules_iff : (d : Decision) → All (λ r. r.check d ≡ none) done_rules ↔ IsDone d
done_rules_iff d = ground (arith, no_steps_iff d, no_need_iff d, done_names_evidence_iff d)

blocked_rules_iff : (d : Decision) → All (λ r. r.check d ≡ none) blocked_rules ↔ IsQuestion d
blocked_rules_iff d =
    ground (arith, no_steps_iff d, need_describes_iff d, need_false_gap_iff d, need_options_iff d)

need_input_rules_iff : (d : Decision) → All (λ r. r.check d ≡ none) need_input_rules ↔ IsQuestion d
need_input_rules_iff d =
    ground (arith, no_steps_iff d, need_describes_iff d, need_false_gap_iff d, need_options_iff d)

-- The rules of the four types, and those of any other.
abbrev RulesOf : Str → Type 0
RulesOf t =
    ((t ≡ decision_plan) × (decision_rules t ≡ plan_rules))
    ⊎ ((t ≡ decision_done) × (decision_rules t ≡ done_rules))
    ⊎ ((t ≡ decision_blocked) × (decision_rules t ≡ blocked_rules))
    ⊎ ((t ≡ decision_need_input) × (decision_rules t ≡ need_input_rules))
    ⊎ (decision_rules t ≡ [])

decision_rules_cases : (t : Str) → RulesOf t
unfolding decision_rules
decision_rules_cases t = elim (Bool-cases (str_eq t decision_plan)) [
  | inl p ↦ inl (str_eq_sound t _ p, rw p)
  | inr p ↦ elim (Bool-cases (str_eq t decision_done)) [
    | inl q ↦ inr (inl (str_eq_sound t _ q, rw (p, q)))
    | inr q ↦ elim (Bool-cases (str_eq t decision_blocked)) [
      | inl r ↦ inr (inr (inl (str_eq_sound t _ r, rw (p, q, r))))
      | inr r ↦ elim (Bool-cases (str_eq t decision_need_input)) [
        | inl u ↦ inr (inr (inr (inl (str_eq_sound t _ u, rw (p, q, r, u)))))
        | inr u ↦ inr (inr (inr (inr (rw (p, q, r, u)))))
      ]
    ]
  ]
]

-- At a type whose rules are known, to pass validation is to pass each of them.
validate_at :
    (d : Decision) {t : Str} {rules : List DecisionRule}
    → canonical d.type ≡ t
    → decision_rules t ≡ rules
    → (validate_decision d ≡ none) ↔ All (λ r. r.check d ≡ none) rules
unfolding validate_decision
validate_at d e r = rw (e, r) (first_violation_iff d _)

-- validateDecision accepts a decision exactly when it meets the requirements of its type.
pub validate_decision_iff : (d : Decision) → (validate_decision d ≡ none) ↔ MeetsItsType d
unfolding decision_rules str_eq
validate_decision_iff d = (forth, λ m. back m (decision_rules_cases (canonical d.type)))
  where
    forth : validate_decision d ≡ none → MeetsItsType d
    forth h = record {
      plan = λ e. (plan_rules_iff d).0 ((validate_at d e refl).0 h);
      done = λ e. (done_rules_iff d).0 ((validate_at d e refl).0 h);
      blocked = λ e. (blocked_rules_iff d).0 ((validate_at d e refl).0 h);
      need_input = λ e. (need_input_rules_iff d).0 ((validate_at d e refl).0 h);
    }

    back : MeetsItsType d → RulesOf (canonical d.type) → validate_decision d ≡ none
    back m (inl (e, r)) = (validate_at d refl r).1 ((plan_rules_iff d).1 (m.plan e))
    back m (inr (inl (e, r))) = (validate_at d refl r).1 ((done_rules_iff d).1 (m.done e))
    back m (inr (inr (inl (e, r)))) =
        (validate_at d refl r).1 ((blocked_rules_iff d).1 (m.blocked e))
    back m (inr (inr (inr (inl (e, r))))) =
        (validate_at d refl r).1 ((need_input_rules_iff d).1 (m.need_input e))
    back m (inr (inr (inr (inr r)))) = (validate_at d refl r).1 tt

-- A rule list with the rule that an answer names: those before it pass, and it is broken.
abbrev pub IsFirstBroken : Decision → List DecisionRule → DecisionViolation → Type 0
IsFirstBroken d [] v = ⊥
IsFirstBroken d (rule ∷ rules) v =
    ((rule.check d ≡ some v.detail) × (v.rule ≡ rule.name))
    ⊎ ((rule.check d ≡ none) × IsFirstBroken d rules v)

first_violation-IsFirstBroken :
    (d : Decision) (rules : List DecisionRule) (v : DecisionViolation)
    → first_violation d rules ≡ some v
    → (v.decision_type ≡ d.type) × IsFirstBroken d rules v
unfolding first_violation
first_violation-IsFirstBroken d [] v h = cc
first_violation-IsFirstBroken d (rule ∷ rules) v h =
    ground (arith, first_violation-IsFirstBroken d rules v)

-- A refusal carries the type as it was written, and names the first rule of that type which the
-- decision breaks, with what broke it: every rule before that one passes.
pub validate_decision-first :
    (d : Decision) (v : DecisionViolation)
    → validate_decision d ≡ some v
    → (v.decision_type ≡ d.type) × IsFirstBroken d (decision_rules (canonical d.type)) v
unfolding validate_decision
validate_decision-first d v h = first_violation-IsFirstBroken d _ v h
