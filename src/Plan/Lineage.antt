-- ===== src/Plan/Lineage.antt =====
-- src/plan_lineage.go: `validatePlanLineage`, what is checked before a plan is written.
pub mod Names
pub mod Wired
use autonomy.Base.{
  ℕ, suc, ◌+◌, Bool, true, false, not, ◌&&◌, ◌||◌, List, [], ◌∷◌, Option, none, some, ltb, leb,
  if◌then◌else◌, any, Result, ok, err, ◌>>=◌, ◌>>◌,
}
use autonomy.Text.{Str, codes, str_eq, trim_space, is_blank}
use autonomy.Text.Order.{sort_strings}
use autonomy.Dict.{Dict, lookup, put, keys}
use autonomy.Decision.{
  StepInput, literal_input, is_binding, CapabilityAction, Action, absent, nothing, calls,
}
use autonomy.Decision.Detail.{StepLabel, step_label}
use autonomy.Plan.Source.{InputSource, step, world, is_step_name, parse_input_source}
use autonomy.Plan.Capability.{
  Field, Factory, declared_inputs_of, declared_outputs_of, field_accepts,
}

pub data LineageError : Type 0 where
  unusable_name : ℕ → Str → LineageError
  duplicate_name : Str → ℕ → ℕ → LineageError
  undeclared_input : StepLabel → Str → Str → LineageError
  unreadable_source : StepLabel → Str → Str → LineageError
  unknown_step : StepLabel → Str → Str → LineageError
  later_step : StepLabel → Str → Str → ℕ → ℕ → LineageError
  declares_no_outputs : StepLabel → Str → Str → LineageError
  output_not_reported : StepLabel → Str → Str → Str → LineageError
  not_supplied : StepLabel → Str → Str → LineageError

-- The maps `named` and `capabilityOf`.
pub record StepNames : Type 0 where
  pub position_of : Dict ℕ
  pub capability_of : Dict Str

abbrev pub no_names : StepNames
no_names = record { position_of = []; capability_of = [] }

abbrev pub with_name : Str → ℕ → Str → StepNames → StepNames
with_name name at capability ns = record {
  position_of = put name at ns.position_of;
  capability_of = put name capability ns.capability_of;
}

-- What one round of the first loop does with a step that has a name.
unfoldable pub name_step : ℕ → Str → Str → StepNames → Result LineageError StepNames
name_step i name capability ns =
    if not (is_step_name name)
    then err (unusable_name (i + 1) name)
    else elim (lookup name ns.position_of) [
      | some at ↦ err (duplicate_name name at (i + 1))
      | none ↦ ok (with_name name (i + 1) capability ns)
    ]

-- A step with no name is passed over.
abbrev pub name_call : ℕ → StepNames → CapabilityAction → Result LineageError StepNames
name_call i ns s =
    if is_blank s.step_name then ok ns else name_step i (trim_space s.step_name) s.name ns

-- The first loop.
unfoldable pub name_steps : ℕ → StepNames → List Action → Result LineageError StepNames
name_steps i ns [] = ok ns
name_steps i ns (absent ∷ actions) = name_steps (suc i) ns actions
name_steps i ns (nothing _ ∷ actions) = name_steps (suc i) ns actions
name_steps i ns (calls s ∷ actions) = name_call i ns s >>= λ ns'. name_steps (suc i) ns' actions

-- `step.Inputs[key]`.
unfoldable pub input_at : Dict StepInput → Str → StepInput
input_at inputs key = elim (lookup key inputs) [ none ↦ literal_input [] | some i ↦ i ]

-- `sortedInputKeys`.
unfoldable pub sorted_input_keys : Dict StepInput → List Str
sorted_input_keys inputs = sort_strings (keys inputs)

-- `checkDeclaredInput`.
unfoldable pub check_declared_input :
    StepLabel → Str → Str → Option (List Field) → Result LineageError (Unit {0})
check_declared_input label capability key none = ok tt
check_declared_input label capability key (some declared) =
    if field_accepts declared key then ok tt else err (undeclared_input label capability key)

-- `suppliedInput`: under the field's name or an alias, as it is written.
unfoldable pub supplied_input : List Str → Field → Bool
supplied_input ks field = any (λ k. str_eq k field.name || any (str_eq k) field.aliases) ks

module _ {W : Type 0} (f : Option (Factory W)) where
  -- The outputs of the step that a binding names have the key.
  unfoldable pub check_output : StepLabel → Str → Str → Str → Str → Result LineageError (Unit {0})
  check_output label key name capability output = elim (declared_outputs_of f capability) [
    | none ↦ err (declares_no_outputs label key name)
    | some outputs ↦
        if field_accepts outputs output
        then ok tt
        else err (output_not_reported label key name output)
  ]

  -- `capabilityOf[name]`: "" where the map has none.
  abbrev pub capability_named : StepNames → Str → Str
  capability_named ns name = elim (lookup name ns.capability_of) [ none ↦ [] | some c ↦ c ]

  -- A binding to a step's output, of the step at position i + 1.
  unfoldable pub check_step_source :
      StepNames → ℕ → StepLabel → Str → Str → Str → Result LineageError (Unit {0})
  check_step_source ns i label key name output = elim (lookup name ns.position_of) [
    | none ↦ err (unknown_step label key name)
    | some at ↦
        if leb (i + 1) at
        then err (later_step label key name at (i + 1))
        else check_output label key name (capability_named ns name) output
  ]

  -- The `switch` on what a binding names.
  unfoldable pub check_parsed :
      StepNames → ℕ → StepLabel → Str → Str → Option InputSource → Result LineageError (Unit {0})
  check_parsed ns i label key raw none = err (unreadable_source label key raw)
  check_parsed ns i label key raw (some (step name output)) =
      check_step_source ns i label key name output
  check_parsed ns i label key raw (some (world id field)) = ok tt

  unfoldable pub check_source :
      StepNames → ℕ → StepLabel → Str → Str → Result LineageError (Unit {0})
  check_source ns i label key raw = check_parsed ns i label key raw (parse_input_source raw)

  unfoldable pub check_input :
      StepNames → ℕ → CapabilityAction → Option (List Field) → Str → Result LineageError (Unit {0})
  check_input ns i s declared key =
      check_declared_input (step_label s i) s.name key declared
      >> (if is_binding (input_at s.inputs key)
          then check_source ns i (step_label s i) key (input_at s.inputs key).source
          else ok tt)

  unfoldable pub check_inputs :
      StepNames
      → ℕ
      → CapabilityAction
      → Option (List Field)
      → List Str
      → Result LineageError (Unit {0})
  check_inputs ns i s declared [] = ok tt
  check_inputs ns i s declared (key ∷ ks) =
      check_input ns i s declared key >> check_inputs ns i s declared ks

  -- The inputs that a capability requires.
  unfoldable pub check_required :
      StepLabel → Str → List Str → List Field → Result LineageError (Unit {0})
  check_required label capability ks [] = ok tt
  check_required label capability ks (field ∷ fields) =
      if field.required && not (supplied_input ks field)
      then err (not_supplied label capability field.name)
      else check_required label capability ks fields

  abbrev pub check_signature :
      StepLabel → Str → List Str → Option (List Field) → Result LineageError (Unit {0})
  check_signature label capability ks none = ok tt
  check_signature label capability ks (some declared) = check_required label capability ks declared

  unfoldable pub check_step : StepNames → ℕ → CapabilityAction → Result LineageError (Unit {0})
  check_step ns i s =
      let declared = declared_inputs_of f s.name in
      check_inputs ns i s declared (sorted_input_keys s.inputs)
      >> check_signature (step_label s i) s.name (keys s.inputs) declared

  -- The second loop.
  unfoldable pub check_steps : StepNames → ℕ → List Action → Result LineageError (Unit {0})
  check_steps ns i [] = ok tt
  check_steps ns i (absent ∷ actions) = check_steps ns (suc i) actions
  check_steps ns i (nothing _ ∷ actions) = check_steps ns (suc i) actions
  check_steps ns i (calls s ∷ actions) = check_step ns i s >> check_steps ns (suc i) actions

  unfoldable pub validate_plan_lineage : List Action → Result LineageError (Unit {0})
  validate_plan_lineage actions = name_steps 0 no_names actions >>= λ ns. check_steps ns 0 actions
