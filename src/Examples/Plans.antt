-- ===== src/Examples/Plans.antt =====
-- A plan of two steps, the second reading what the first reports.
use autonomy.Base.{
  ℕ, suc, ◌≡◌, ◌≢◌, refl, sym, subst, ◌↔◌, true, List, [], ◌∷◌, none, some, if◌then◌else◌, length,
  arith, ok, any,
}
use autonomy.Text.{
  Str, codes, str_eq, trim_space, trim_left, is_space, is_blank, is_alnum, is_name_rune,
  all_name_runes, has_rune, lower_rune, to_lower, canonical, index, strip_prefix, split, join,
}
use autonomy.Text.Laws.{str_eq_sound}
use autonomy.Text.Order.{sort_strings, insert_sorted, le_str}
use autonomy.Dict.{lookup, put}
use autonomy.Decision.{Action, CapabilityAction, absent, calls, bound_input}
use autonomy.Plan.Source.{
  is_step_name, breaks_key, check_step as check_step_binding, read_step, read_asset, read_world,
  is_world_field, split_last, parse_input_source,
}
use autonomy.Plan.Capability.{
  Field, Capability, Factory, get, register, new_factory, declared_outputs_of, declared_inputs_of,
  signature_of, field_accepts, answers_to,
}
use autonomy.Plan.Capability.Registry.{IsRegistry, new_factory-IsRegistry, register-IsRegistry}
use autonomy.Plan.World.{Asset, Assets, ActionResult, unknown_capability}
use autonomy.Plan.Lineage.{
  validate_plan_lineage, name_steps, name_step, check_steps, check_step, check_inputs, check_input,
  check_declared_input, check_source, check_parsed, check_step_source, check_output, check_required,
  supplied_input, input_at, sorted_input_keys,
}
use autonomy.Plan.Lineage.Names.{NamesAreUsable}
use autonomy.Plan.Lineage.Wired.{StepsAreSound, validate_plan_lineage_iff}
use autonomy.Plan.Resolve.{world_value}
use autonomy.Plan.Run.{run_actions, execute, execute_capability}
use autonomy.Plan.Run.Safe.{IsRunError, validated_plan-IsRunError}
use autonomy.Plan.Run.Progress.{Serves, HasValue, IsServed, validated_plan_completes}

abbrev plain_field : Str → Field
plain_field name = record {
  name = name;
  aliases = [];
  required = true;
  description = [];
  kind = [];
}

-- What lies outside is how often something was run.
abbrev code_edit : Capability ℕ
code_edit = record {
  name = codes "code_edit";
  declared = some (record { inputs = []; outputs = plain_field (codes "pr_url") ∷ [] });
  checks_kind = none;
  run = λ values n. ((codes "pr_url", codes "https://example.org/1") ∷ [], none, suc n);
}

abbrev pr_check : Capability ℕ
pr_check = record {
  name = codes "pr_check";
  declared =
      some (record {
        inputs = plain_field (codes "pr") ∷ plain_field (codes "on") ∷ [];
        outputs = [];
      });
  checks_kind = none;
  run = λ values n. ([], none, suc n);
}

abbrev tools : Factory ℕ
tools = record {
  capabilities = code_edit ∷ pr_check ∷ [];
  by_name = (codes "code_edit", code_edit) ∷ (codes "pr_check", pr_check) ∷ [];
}

abbrev repo : Asset
repo = record { id = codes "repo.main"; kind = codes "branch"; state = codes "clean" }

abbrev assets_of : ℕ → Assets
assets_of n = some ((codes "repo.main", repo) ∷ [])

abbrev edit : CapabilityAction
edit = record {
  name = codes "code_edit";
  step_name = codes "edit";
  inputs = [];
  expected_effect = codes "a pull request";
  evidence_refs = [];
}

abbrev check : CapabilityAction
check = record {
  name = codes "PR_check";
  step_name = codes "check";
  inputs =
      (codes "pr", bound_input (codes "step:edit.output.pr_url"))
      ∷ (codes "on", bound_input (codes "world_model:asset.repo.main.state"))
      ∷ [];
  expected_effect = codes "it is mergeable";
  evidence_refs = [];
}

abbrev two_steps : List Action
two_steps = calls edit ∷ absent ∷ calls check ∷ []

two_steps-validates : validate_plan_lineage (some tools) two_steps ≡ ok tt
unfolding validate_plan_lineage name_steps name_step check_steps check_step check_inputs check_input
    check_declared_input check_source check_parsed check_step_source check_output check_required
    supplied_input input_at sorted_input_keys sort_strings insert_sorted le_str lookup put
    declared_outputs_of declared_inputs_of signature_of get canonical to_lower lower_rune trim_space
    trim_left is_space is_blank str_eq field_accepts answers_to any parse_input_source strip_prefix
    read_step index check_step_binding is_step_name is_alnum all_name_runes is_name_rune breaks_key
    has_rune read_world split read_asset split_last join is_world_field
two_steps-validates = refl

validate_plan_lineage_iff_example :
    (validate_plan_lineage (some tools) two_steps ≡ ok tt)
    ↔ (NamesAreUsable two_steps × StepsAreSound (some tools) two_steps 0 two_steps)
validate_plan_lineage_iff_example = validate_plan_lineage_iff (some tools) two_steps

-- A plan that calls what is not there passes, and fails when it runs.
abbrev unknown : List Action
unknown = calls (record edit { name = codes "code_edti" }) ∷ []

unknown-validates : validate_plan_lineage (some tools) unknown ≡ ok tt
unfolding validate_plan_lineage name_steps name_step check_steps check_step check_inputs check_input
    check_declared_input check_source check_parsed check_step_source check_output check_required
    supplied_input input_at sorted_input_keys sort_strings insert_sorted le_str lookup put
    declared_outputs_of declared_inputs_of signature_of get canonical to_lower lower_rune trim_space
    trim_left is_space is_blank str_eq field_accepts answers_to any parse_input_source strip_prefix
    read_step index check_step_binding is_step_name is_alnum all_name_runes is_name_rune breaks_key
    has_rune read_world split read_asset split_last join is_world_field
unknown-validates = refl

unknown-fails :
    (run_actions assets_of (some tools) none [] unknown 0).1
    ≡ some (unknown_capability (codes "code_edti"))
unfolding run_actions execute execute_capability get lookup canonical to_lower lower_rune trim_space
    trim_left is_space str_eq
unknown-fails = refl

validated_plan-IsRunError_example : IsRunError (unknown_capability (codes "code_edti"))
validated_plan-IsRunError_example =
    validated_plan-IsRunError assets_of (some tools) unknown none 0
      (unknown_capability (codes "code_edti")) unknown-validates unknown-fails

edit-is :
    (key : Str)
    → trim_space key ≡ key
    → field_accepts (plain_field (codes "pr_url") ∷ []) key ≡ true
    → codes "pr_url" ≡ key
unfolding field_accepts answers_to any
edit-is key e h = ground (arith, str_eq_sound (codes "pr_url") (trim_space key))

no_outputs : (key : Str) → field_accepts [] key ≢ true
unfolding field_accepts any
no_outputs key h = cc

edit_declares :
    (outputs : List Field)
    → declared_outputs_of (some tools) (codes "code_edit") ≡ some outputs
    → plain_field (codes "pr_url") ∷ [] ≡ outputs
unfolding declared_outputs_of signature_of get lookup canonical to_lower lower_rune trim_space
    trim_left is_space str_eq
edit_declares outputs h = cc

check_declares :
    (outputs : List Field)
    → declared_outputs_of (some tools) (codes "PR_check") ≡ some outputs
    → [] ≡ outputs
unfolding declared_outputs_of signature_of get lookup canonical to_lower lower_rune trim_space
    trim_left is_space str_eq
check_declares outputs h = cc

edit-Serves : Serves assets_of tools (codes "code_edit") code_edit
unfolding lookup str_eq is_blank trim_space trim_left is_space
edit-Serves = record {
  runs = λ values w. refl;
  reports = λ values w outputs key e d h.
      let same : codes "pr_url" ≡ key =
        edit-is key e (subst (λ o. field_accepts o key ≡ true) (sym (edit_declares outputs d)) h) in
      subst (λ k. HasValue ((codes "pr_url", codes "https://example.org/1") ∷ []) k) same
        (codes "https://example.org/1", refl, refl);
}

check-Serves : Serves assets_of tools (codes "PR_check") pr_check
check-Serves = record {
  runs = λ values w. refl;
  reports = λ values w outputs key e d h.
      absurd (
        no_outputs key
          (subst (λ o. field_accepts o key ≡ true) (sym (check_declares outputs d)) h));
}

tools_serve : IsServed assets_of tools two_steps
unfolding get canonical to_lower lower_rune trim_space trim_left is_space lookup str_eq
    sorted_input_keys sort_strings insert_sorted le_str input_at parse_input_source strip_prefix
    read_step index check_step_binding is_step_name is_alnum all_name_runes is_name_rune breaks_key
    has_rune read_world split read_asset split_last join is_world_field world_value
tools_serve = (
  (code_edit, refl, edit-Serves),
  tt,
  ((pr_check, refl, check-Serves), ((λ w. (codes "clean", refl)), (refl, tt)), tt),
)

validated_plan_completes_example :
    (rs : List ActionResult) × (w' : ℕ) × (run_actions assets_of (some tools) none [] two_steps 0
      ≡ (rs, none, w'))
    × (length rs ≡ 2)
validated_plan_completes_example =
    validated_plan_completes assets_of tools two_steps none 0 two_steps-validates tools_serve

register-IsRegistry_example :
    IsRegistry (register code_edit new_factory)
    × ((n : Str)
        → get n (register code_edit new_factory)
          ≡ (if str_eq code_edit.name n then some code_edit else get n new_factory))
register-IsRegistry_example = register-IsRegistry code_edit new_factory new_factory-IsRegistry
