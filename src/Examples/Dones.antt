-- ===== src/Examples/Dones.antt =====
-- A done that two facts hold up: a pull request's state, and a branch's.
use autonomy.Base.{
  List, ok, All, ◌≡◌, ◌≢◌, ◌↔◌, refl, [], ◌∷◌, none, some, true, false, any, ℕ, suc,
}
use autonomy.Text.{
  Str, codes, str_eq, trim_space, trim_left, is_space, is_blank, is_alnum, is_name_rune,
  all_name_runes, has_rune, lower_rune, fold_rune, to_lower, equal_fold, canonical, index,
  strip_prefix, split, join,
}
use autonomy.Text.Order.{sort_strings, insert_sorted}
use autonomy.Dict.{lookup, put}
use autonomy.Decision.{Criterion, CapabilityAction, calls}
use autonomy.Verify.History.{StepRow}
use autonomy.Verify.Contract.{validate_completion_contract}
use autonomy.Verify.Contract.Fits.{IsReadable, validate_completion_contract_iff}
use autonomy.Plan.Source.{
  is_step_name, breaks_key, check_step as check_step_binding, read_step, read_asset, read_world,
  is_world_field, split_last, parse_input_source,
}
use autonomy.Plan.Capability.{
  Field, Capability, Factory, get, get_all, declared_outputs_of, declared_inputs_of, signature_of,
  field_accepts, answers_to,
}
use autonomy.Plan.World.{Asset, Assets, ActionResult}
use autonomy.Plan.Lineage.{
  check_declared_input, check_required, supplied_input, sorted_input_keys, input_at,
}
use autonomy.Plan.Resolve.{
  record_named, resolve_step_inputs, resolve_keys, resolve_input, resolve_input_source,
  parsed_value, step_value, output_value,
}
use autonomy.Plan.Run.{fill_task_id}
use autonomy.Verify.Tools.{
  VerificationReader, kind_of_field, input_from, input_for_kind, output_kind, reader_of,
  find_readers, tool_for_kind, is_verification_tool,
}
use autonomy.Verify.Judge.{
  judges, world_fact, authority_for, matches, judge_world, verify_world_criterion, check_keys,
  ask_reader, ask_authority, judge_field, verify_reference, verify_step_criterion, verify_source,
  verify_criterion, verify_all, verify_done,
}
use autonomy.Verify.Judge.Sound.{AllEstablished, verify_done-AllEstablished}

abbrev typed_field : Str → Field
typed_field name = record {
  name = name;
  aliases = [];
  required = true;
  description = [];
  kind = codes "Pull_Request";
}

abbrev pub code_edit : Capability ℕ
code_edit = record {
  name = codes "code_edit";
  declared = some (record { inputs = []; outputs = typed_field (codes "pr_url") ∷ [] });
  checks_kind = none;
  run = λ values n. ((codes "pr_url", codes "https://example.org/1") ∷ [], none, suc n);
}

abbrev pr_state : Capability ℕ
pr_state = record {
  name = codes "pr_state";
  declared = some (record { inputs = typed_field (codes "pr") ∷ []; outputs = [] });
  checks_kind = some (codes "pull_request");
  run = λ values n. ((codes "state", codes " Merged ") ∷ [], none, suc n);
}

abbrev pub tools : Factory ℕ
tools = record {
  capabilities = code_edit ∷ pr_state ∷ [];
  by_name = (codes "code_edit", code_edit) ∷ (codes "pr_state", pr_state) ∷ [];
}

abbrev repo : Asset
repo = record { id = codes "repo"; kind = codes "branch"; state = codes "clean" }

abbrev pub assets_of : ℕ → Assets
assets_of n = some ((codes "repo", repo) ∷ [])

abbrev edited : ActionResult
edited = record {
  capability = codes "code_edit";
  step_name = codes "edit";
  input = [];
  output = (codes "pr_url", codes "https://example.org/1") ∷ [];
  error = none;
  expected_effect = [];
  evidence_refs = [];
}

abbrev pub is_merged : Criterion
is_merged = record {
  name = codes "merged";
  requirement = codes "the pull request is merged";
  slot = codes "step:edit.output.pr_url";
  check = record { capability = []; inputs = [] };
  expect = record { exists = false; field = codes "state"; equals = codes "merged" };
  raw = [];
}

abbrev is_clean : Criterion
is_clean = record is_merged {
  name = codes "clean";
  slot = codes "world_model:asset.repo.state";
  expect = record { exists = false; field = []; equals = codes "clean" };
}

done-holds :
    (verify_done equal_fold assets_of
      (some tools)
      tools.by_name
      none
      (is_merged ∷ is_clean ∷ [])
      (edited ∷ [])
      0).0
    ≡ true
unfolding verify_done verify_all verify_criterion verify_source verify_step_criterion
    verify_reference verify_world_criterion judge_world judge_field matches ask_authority ask_reader
    check_keys authority_for world_fact judges is_verification_tool tool_for_kind find_readers
    reader_of output_kind input_for_kind input_from kind_of_field fill_task_id resolve_step_inputs
    resolve_keys resolve_input resolve_input_source parsed_value step_value output_value
    record_named check_declared_input check_required supplied_input sorted_input_keys input_at
    sort_strings insert_sorted get get_all declared_outputs_of declared_inputs_of signature_of
    field_accepts answers_to any parse_input_source read_step check_step_binding is_step_name
    is_alnum is_name_rune all_name_runes breaks_key has_rune read_world read_asset split_last
    is_world_field split join index strip_prefix equal_fold fold_rune canonical to_lower lower_rune
    trim_space trim_left is_space is_blank str_eq lookup put
done-holds = refl

verify_done-AllEstablished_example :
    ((is_merged ∷ is_clean ∷ []) ≢ [])
    × AllEstablished equal_fold assets_of
        (some tools)
        tools.by_name
        none
        (is_merged ∷ is_clean ∷ [])
        (edited ∷ [])
        0
verify_done-AllEstablished_example =
    verify_done-AllEstablished equal_fold assets_of (some tools) tools.by_name none
      (is_merged ∷ is_clean ∷ []) (edited ∷ []) 0 done-holds

abbrev state_reader : VerificationReader
state_reader = record { capability = codes "pr_state"; input = codes "pr" }

abbrev pub edit : CapabilityAction
edit = record {
  name = codes "code_edit";
  step_name = codes "edit";
  inputs = [];
  expected_effect = [];
  evidence_refs = [];
}

validate_completion_contract_iff_example :
    (validate_completion_contract (some tools) (is_merged ∷ is_clean ∷ []) (calls edit ∷ [])
      ≡ ok tt)
    ↔ All (IsReadable (some tools) (calls edit ∷ [])) (is_merged ∷ is_clean ∷ [])
validate_completion_contract_iff_example =
    validate_completion_contract_iff (some tools) (is_merged ∷ is_clean ∷ []) (calls edit ∷ [])

abbrev pub edit_row : StepRow
edit_row = record {
  name = codes "edit";
  status = codes "ok";
  capability = codes "code_edit";
  output = (codes "pr_url", codes "https://example.org/1") ∷ [];
}

abbrev two_edits : List StepRow
two_edits =
    edit_row ∷ record edit_row { output = [] } ∷ record edit_row { status = codes "failed" } ∷ []
