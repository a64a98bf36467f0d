-- ===== src/Examples/Cycles.antt =====
-- A task of two cycles: a plan that edits, then a done that is held against what the first answer pinned.
use autonomy.Base.{any, ℕ, ◌≡◌, refl, Bool, false, List, [], ◌∷◌, Option, none, some, if◌then◌else◌}
use autonomy.Decision.{is_done, Decision, Criterion, Evidence, calls}
use autonomy.Decision.Needs.{no_steps, no_need, done_names_evidence}
use autonomy.Decision.Rules.{validate_decision, decision_rules, first_violation}
use autonomy.Text.{
  Str, codes, str_eq, trim_space, trim_left, is_space, is_blank, is_alnum, is_name_rune,
  all_name_runes, has_rune, lower_rune, fold_rune, to_lower, equal_fold, canonical, index,
  strip_prefix, split, join,
}
use autonomy.Text.Order.{sort_strings, insert_sorted}
use autonomy.Dict.{lookup, put}
use autonomy.Verify.History.{add_rows, add_row, put_record, task_step_outputs}
use autonomy.Plan.Source.{
  is_step_name, breaks_key, check_step as check_step_binding, read_step, read_asset, read_world,
  is_world_field, split_last, parse_input_source,
}
use autonomy.Plan.Capability.{
  get, get_all, declared_outputs_of, declared_inputs_of, signature_of, field_accepts, answers_to,
}
use autonomy.Plan.Lineage.{
  validate_plan_lineage, name_steps, check_steps, check_declared_input, check_required,
  supplied_input, sorted_input_keys, input_at,
}
use autonomy.Plan.Resolve.{
  record_named, resolve_step_inputs, resolve_keys, resolve_input, resolve_input_source,
  parsed_value, step_value, output_value,
}
use autonomy.Plan.Run.{Task, fill_task_id}
use autonomy.Verify.Tools.{
  kind_of_field, input_from, input_for_kind, output_kind, reader_of, find_readers, tool_for_kind,
  is_verification_tool,
}
use autonomy.Verify.Judge.{
  judges, world_fact, authority_for, matches, judge_world, verify_world_criterion, check_keys,
  ask_reader, ask_authority, judge_field, verify_reference, verify_step_criterion, verify_source,
  verify_criterion, verify_all, verify_done,
}
use autonomy.Cycle.Contract.{pinned_completion_contract, read_rows, ContractRow}
use autonomy.Cycle.{
  carry_out, verify, saved, steps_not_taken, RunState, execute_decision, pin, record_plan,
}
use autonomy.Cycle.Approval.{record_plan_only, then_approved, record_plan_only-execute_approved}
use autonomy.Cycle.Explained.{Explains, execute_decision-Explains}
use autonomy.Cycle.Pinned.{Executed, execute_all, row_at, row_at-execute_all}
use autonomy.Examples.Dones.{tools, assets_of, is_merged, edit, edit_row}

abbrev raw_merged : Str
raw_merged = codes "merged"

abbrev parse : Str → Option Criterion
parse raw = if str_eq raw raw_merged then some (record is_merged { raw = raw }) else none

abbrev a_task : Task
a_task = some (codes "t1")

abbrev never : ℕ → Bool
never i = false

abbrev fact : Evidence
fact = record {
  id = codes "e1";
  source = codes "capability";
  reference = codes "42";
  fact = codes "the pull request is merged";
}

abbrev claims_done : Decision
claims_done = record {
  type = codes "done";
  reason = codes "merged";
  origin = record { reason_turn_id = 1; input_message_id = 2; reply_message_id = 3 };
  evidence = fact ∷ [];
  contract = [];
  actions = [];
  need = record { type = []; description = []; options = [] };
}

abbrev edits : Decision
edits = record claims_done {
  type = codes "plan";
  actions = calls edit ∷ [];
  contract = record is_merged { raw = raw_merged } ∷ [];
}

abbrev pinned_row : ContractRow
pinned_row = record { idx = 1; plan_id = 7; name = codes "merged"; criterion = raw_merged }

-- The task after a first cycle that edited.
abbrev edited_task : RunState ℕ
edited_task = record {
  plans = [];
  steps = edit_row ∷ [];
  contract = pinned_row ∷ [];
  verdicts = [];
  world = 1;
}

claims_done-holds :
    (execute_decision equal_fold parse assets_of
      (some tools)
      tools.by_name
      a_task
      never
      saved
      8
      2
      claims_done
      edited_task).0
    ≡ none
unfolding execute_decision record_plan pin carry_out verify pinned_completion_contract read_rows
    task_step_outputs add_rows add_row put_record validate_decision first_violation decision_rules
    no_steps no_need done_names_evidence validate_plan_lineage name_steps check_steps is_done
    verify_done verify_all verify_criterion verify_source verify_step_criterion verify_reference
    verify_world_criterion judge_world judge_field matches ask_authority ask_reader check_keys
    authority_for world_fact judges is_verification_tool tool_for_kind find_readers reader_of
    output_kind input_for_kind input_from kind_of_field fill_task_id resolve_step_inputs
    resolve_keys resolve_input resolve_input_source parsed_value step_value output_value
    record_named check_declared_input check_required supplied_input sorted_input_keys input_at
    sort_strings insert_sorted get get_all declared_outputs_of declared_inputs_of signature_of
    field_accepts answers_to any parse_input_source read_step check_step_binding is_step_name
    is_alnum is_name_rune all_name_runes breaks_key has_rune read_world read_asset split_last
    is_world_field split join index strip_prefix equal_fold fold_rune canonical to_lower lower_rune
    trim_space trim_left is_space is_blank str_eq lookup put
claims_done-holds = refl

execute_decision-Explains_example :
    Explains equal_fold parse assets_of
      (some tools)
      tools.by_name
      a_task
      never
      saved
      2
      claims_done
      edited_task
      (record_plan equal_fold parse assets_of
        (some tools)
        tools.by_name
        a_task
        never
        saved
        8
        2
        claims_done
        edited_task)
      (pin equal_fold parse assets_of (some tools) tools.by_name a_task never 8 2 claims_done (
        record_plan equal_fold parse assets_of
          (some tools)
          tools.by_name
          a_task
          never
          saved
          8
          2
          claims_done
          edited_task))
      (execute_decision equal_fold parse assets_of
        (some tools)
        tools.by_name
        a_task
        never
        saved
        8
        2
        claims_done
        edited_task).0
      (execute_decision equal_fold parse assets_of
        (some tools)
        tools.by_name
        a_task
        never
        saved
        8
        2
        claims_done
        edited_task).1
execute_decision-Explains_example =
    execute_decision-Explains equal_fold parse assets_of (some tools) tools.by_name a_task never
      saved 8 2 claims_done edited_task

-- A second run of the task, whose first answer declares another contract.
abbrev two_more : List Executed
two_more =
    record { answer = saved; plan = 9; cycle = 1; decision = edits; fails = never }
    ∷ record {
      answer = steps_not_taken (codes "locked");
      plan = 0;
      cycle = 2;
      decision = claims_done;
      fails = never;
    }
    ∷ []

row_at-execute_all_example :
    row_at 1
      (execute_all equal_fold parse assets_of
        (some tools)
        tools.by_name
        a_task
        two_more
        edited_task).contract
    ≡ some pinned_row
row_at-execute_all_example =
    row_at-execute_all equal_fold parse assets_of (some tools) tools.by_name a_task two_more
      edited_task 1 pinned_row refl

record_plan_only-execute_approved_example :
    then_approved equal_fold parse assets_of (some tools) tools.by_name a_task never 9 1 edits (
      record_plan_only equal_fold parse assets_of
        (some tools)
        tools.by_name
        a_task
        never
        saved
        9
        1
        edits
        edited_task)
    ≡ execute_decision equal_fold parse assets_of
        (some tools)
        tools.by_name
        a_task
        never
        saved
        9
        1
        edits
        edited_task
record_plan_only-execute_approved_example =
    record_plan_only-execute_approved equal_fold parse assets_of (some tools) tools.by_name a_task
      never saved 9 1 edits edited_task refl
