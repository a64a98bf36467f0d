-- ===== src/Plan/Run.antt =====
-- src/action.go and the loop of `executePlan` in src/runtime.go: a plan's steps, run in order. The
-- rows that the runtime writes of them (`recordStep`) are the records that the loop returns.
pub mod Records
pub mod Safe
pub mod Progress
use autonomy.Base.{
  ℕ, ◌+◌, Bool, true, false, not, ◌||◌, List, [], ◌∷◌, ◌++◌, Option, none, some, if◌then◌else◌,
  is_nil, Result, ok, err,
}
use autonomy.Text.{Str, codes, trim_space, is_blank, canonical}
use autonomy.Dict.{Dict, lookup, put}
use autonomy.Decision.{CapabilityAction, Action, absent, nothing, calls}
use autonomy.Plan.Capability.{Capability, Factory, get, declared_inputs_of, field_accepts}
use autonomy.Plan.World.{
  Assets, ActionResult, ActionError, factory_not_ready, unknown_capability, unresolved_input,
  run_failed,
}
use autonomy.Plan.Resolve.{resolve_step_inputs}

abbrev pub task_id_key : Str
task_id_key = codes "task_id"

-- The part of `DecisionContext` that an action reads: the id of the task, if there is one.
abbrev pub Task : Type 0
Task = Option Str

-- What lies outside the program, a `W`, with the World Model in it.
module _ {W : Type 0} (assets_of : W → Assets) (f : Option (Factory W)) where
  -- `in["task_id"] != ""`.
  unfoldable pub has_task_id : Dict Str → Bool
  has_task_id values = elim (lookup task_id_key values) [ none ↦ false | some v ↦ not (is_nil v) ]

  unfoldable pub fill_task_id : Str → Task → Dict Str → Dict Str
  fill_task_id name none values = values
  fill_task_id name (some id) values =
      if is_blank id || has_task_id values then values else elim (declared_inputs_of f name) [
        | none ↦ values
        | some fields ↦
            if field_accepts fields task_id_key then put task_id_key id values else values
      ]

  abbrev pub blank_record : CapabilityAction → ActionResult
  blank_record a = record {
    capability = canonical a.name;
    step_name = trim_space a.step_name;
    input = [];
    output = [];
    error = none;
    expected_effect = a.expected_effect;
    evidence_refs = a.evidence_refs;
  }

  abbrev pub failed : CapabilityAction → ActionError → ActionResult
  failed a e = record (blank_record a) { error = some e }

  abbrev pub as_error : Option Str → Option ActionError
  as_error none = none
  as_error (some e) = some (run_failed e)

  -- The call of a capability with its values.
  unfoldable pub call_capability : CapabilityAction → Capability W → Dict Str → W → ActionResult × W
  call_capability a c values w =
      let (out, e, w') = c.run values w in
      (record (blank_record a) { input = values; output = out; error = as_error e }, w')

  unfoldable pub run_capability :
      CapabilityAction → Capability W → Task → List ActionResult → W → ActionResult × W
  run_capability a c task prior w = elim (resolve_step_inputs (assets_of w) prior a.inputs) [
    | err (key, e) ↦ (failed a (unresolved_input key e), w)
    | ok values ↦ call_capability a c (fill_task_id (canonical a.name) task values) w
  ]

  -- `CapabilityAction.Execute`. The error is in the record, where the loop puts it.
  unfoldable pub execute_capability :
      CapabilityAction → Option (Factory W) → Task → List ActionResult → W → ActionResult × W
  execute_capability a none task prior w = (failed a factory_not_ready, w)
  execute_capability a (some g) task prior w = elim (get (canonical a.name) g) [
    | none ↦ (failed a (unknown_capability a.name), w)
    | some c ↦ run_capability a c task prior w
  ]

  -- `NothingAction.Execute`.
  abbrev pub nothing_record : Str → ActionResult
  nothing_record reason = record {
    capability = codes "nothing";
    step_name = [];
    input = [];
    output = if is_blank reason then [] else (codes "reason", trim_space reason) ∷ [];
    error = none;
    expected_effect = [];
    evidence_refs = [];
  }

  -- One round's action: `none` for a nil action, which the loop skips.
  unfoldable pub execute : Action → Task → List ActionResult → W → Option (ActionResult × W)
  execute absent task prior w = none
  execute (nothing reason) task prior w = some (nothing_record reason, w)
  execute (calls a) task prior w = some (execute_capability a f task prior w)

  -- The loop of `executePlan`: `prior` are the records so far. It stops at the first that failed.
  unfoldable pub run_actions :
      Task → List ActionResult → List Action → W → List ActionResult × Option ActionError × W
  run_actions task prior [] w = (prior, none, w)
  run_actions task prior (a ∷ actions) w = elim (execute a task prior w) [
    | none ↦ run_actions task prior actions w
    | some (r, w') ↦ elim r.error [
      | some e ↦ (prior ++ r ∷ [], some e, w')
      | none ↦ run_actions task (prior ++ r ∷ []) actions w'
    ]
  ]
