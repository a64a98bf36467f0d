-- ===== src/Plan/Resolve.antt =====
-- src/plan_lineage.go: what a step's inputs are when it runs.
use autonomy.Base.{List, [], ◌∷◌, Option, none, some, if◌then◌else◌, Result, ok, err}
use autonomy.Text.{Str, str_eq, is_blank, join}
use autonomy.Dict.{Dict, lookup, put}
use autonomy.Decision.{StepInput, is_binding}
use autonomy.Plan.Source.{InputSource, step, world, state_field, kind_field, parse_input_source}
use autonomy.Plan.World.{
  Asset, Assets, ActionResult, ResolveError, unreadable, not_reported, reported_empty,
  produced_nothing, no_world_model, no_such_asset, no_such_field,
}
use autonomy.Plan.Lineage.{input_at, sorted_input_keys}

-- The first record of a step's name; `stepOutputByName` of src/verification.go is the same loop.
unfoldable pub record_named : Str → List ActionResult → Option ActionResult
record_named name [] = none
record_named name (r ∷ rs) = if str_eq r.step_name name then some r else record_named name rs

abbrev pub read_field : Asset → Str → Result ResolveError Str
read_field asset field =
    if str_eq field state_field
    then ok asset.state
    else if str_eq field kind_field
    then ok asset.kind
    else err (no_such_field field)

-- `worldValue`: the parts of the id, and the field.
unfoldable pub world_value : Assets → List Str → Str → Result ResolveError Str
world_value none id field = err no_world_model
world_value (some assets) id field = elim (lookup (join b'.' id) assets) [
  | none ↦ err (no_such_asset (join b'.' id))
  | some asset ↦ read_field asset field
]

-- A step's output under a key.
unfoldable pub output_value : ActionResult → Str → Result ResolveError Str
output_value r key = elim (lookup key r.output) [
  | none ↦ err (not_reported r.step_name key)
  | some value ↦ if is_blank value then err (reported_empty r.step_name key) else ok value
]

unfoldable pub step_value : Str → Str → List ActionResult → Result ResolveError Str
step_value name key prior = elim (record_named name prior) [
  | none ↦ err (produced_nothing name)
  | some r ↦ output_value r key
]

-- The `switch` on what a binding names.
unfoldable pub parsed_value :
    Assets → List ActionResult → Str → Option InputSource → Result ResolveError Str
parsed_value assets prior raw none = err (unreadable raw)
parsed_value assets prior raw (some (step name key)) = step_value name key prior
parsed_value assets prior raw (some (world id field)) = world_value assets id field

unfoldable pub resolve_input_source : Assets → List ActionResult → Str → Result ResolveError Str
resolve_input_source assets prior raw = parsed_value assets prior raw (parse_input_source raw)

unfoldable pub resolve_input : Assets → List ActionResult → StepInput → Result ResolveError Str
resolve_input assets prior i =
    if is_binding i then resolve_input_source assets prior i.source else ok i.literal

-- The loop of `resolveStepInputs`, with the key that an error names.
unfoldable pub resolve_keys :
    Assets
    → List ActionResult
    → Dict StepInput
    → List Str
    → Dict Str
    → Result (Str × ResolveError) (Dict Str)
resolve_keys assets prior inputs [] out = ok out
resolve_keys assets prior inputs (key ∷ ks) out =
    elim (resolve_input assets prior (input_at inputs key)) [
      | err e ↦ err (key, e)
      | ok value ↦ resolve_keys assets prior inputs ks (put key value out)
    ]

unfoldable pub resolve_step_inputs :
    Assets → List ActionResult → Dict StepInput → Result (Str × ResolveError) (Dict Str)
resolve_step_inputs assets prior inputs =
    resolve_keys assets prior inputs (sorted_input_keys inputs) []
