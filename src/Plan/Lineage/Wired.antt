-- ===== src/Plan/Lineage/Wired.antt =====
-- What `validatePlanLineage` accepts.
use native.Mathlib.Nat.{add-zero, add-suc, suc-add}
use autonomy.Base.{
  ℕ, suc, ◌+◌, ◌≤◌, ◌≡◌, refl, ◌↔◌, true, List, [], ◌∷◌, ◌++◌, Option, none, some, ok, >>=-eq-ok,
  arith, length, All,
}
use autonomy.Text.{Str}
use autonomy.Dict.{keys, Dict}
use autonomy.Decision.{StepInput, CapabilityAction, Action, absent, nothing, calls, is_binding}
use autonomy.Decision.Detail.{StepLabel, step_label}
use autonomy.Plan.Source.{InputSource, step, world, parse_input_source}
use autonomy.Plan.Capability.{
  Field, Factory, declared_inputs_of, declared_outputs_of, field_accepts,
}
use autonomy.Plan.Lineage.{
  StepNames, input_at, sorted_input_keys, supplied_input, check_declared_input, check_output,
  check_step_source, check_parsed, check_source, check_input, check_inputs, check_signature,
  check_required, check_step, check_steps, validate_plan_lineage, name_steps, no_names,
}
use autonomy.Plan.Lineage.Names.{
  find_step, name_info, name_steps-find, NamesAreUsable, name_steps-usable, name_steps_complete,
  IsFresh-no_names,
}

module _ {W : Type 0} (f : Option (Factory W)) where
  -- What the step at position i + 1 of a plan may read: an output that a step before it, the first
  -- of that name, declares; or a field of the World Model.
  abbrev pub MayRead : List Action → ℕ → Option InputSource → Type 0
  MayRead actions i none = ⊥
  MayRead actions i (some (step name key)) =
      (p : ℕ) × (c : Str) × (outputs : List Field) × (find_step name 0 actions ≡ some (p, c))
      × (p ≤ i)
      × (declared_outputs_of f c ≡ some outputs)
      × (field_accepts outputs key ≡ true)
  MayRead actions i (some (world id field)) = Unit

  -- An input is declared, if the capability declares any, and may be read, if it is bound.
  abbrev pub IsDeclared : Option (List Field) → Str → Type 0
  IsDeclared none key = Unit
  IsDeclared (some fields) key = field_accepts fields key ≡ true

  abbrev pub IsWired : List Action → ℕ → Dict StepInput → Str → Type 0
  IsWired actions i inputs key =
      is_binding (input_at inputs key) ≡ true
      → MayRead actions i (parse_input_source (input_at inputs key).source)

  abbrev pub IsSupplied : Dict StepInput → Option (List Field) → Type 0
  IsSupplied inputs none = Unit
  IsSupplied inputs (some fields) =
      All (λ d. d.required ≡ true → supplied_input (keys inputs) d ≡ true) fields

  pub record StepIsSound (actions : List Action) (i : ℕ) (a : CapabilityAction) : Type 0 where
    pub inputs :
        All
          (λ key. IsDeclared (declared_inputs_of f a.name) key × IsWired actions i a.inputs key)
          (sorted_input_keys a.inputs)
    pub supplied : IsSupplied a.inputs (declared_inputs_of f a.name)

  abbrev pub StepsAreSound : List Action → ℕ → List Action → Type 0
  StepsAreSound actions i [] = Unit
  StepsAreSound actions i (absent ∷ rest) = StepsAreSound actions (suc i) rest
  StepsAreSound actions i (nothing _ ∷ rest) = StepsAreSound actions (suc i) rest
  StepsAreSound actions i (calls a ∷ rest) =
      StepIsSound actions i a × StepsAreSound actions (suc i) rest

  module _ (actions : List Action) (ns : StepNames)
      (names : (s : Str) → name_info s ns ≡ find_step s 0 actions) where
    check_step_source_iff :
        (i : ℕ) (label : StepLabel) (key name output : Str)
        → (check_step_source f ns i label key name output ≡ ok tt)
          ↔ MayRead actions i (some (step name output))
    unfolding check_step_source check_output
    check_step_source_iff i label key name output = ground (arith, names name)

    check_parsed_iff :
        (i : ℕ) (label : StepLabel) (key raw : Str) (source : Option InputSource)
        → (check_parsed f ns i label key raw source ≡ ok tt) ↔ MayRead actions i source
    unfolding check_parsed
    check_parsed_iff i label key raw none = (λ h. cc, λ h. absurd h)
    check_parsed_iff i label key raw (some (step name output)) =
        check_step_source_iff i label key name output
    check_parsed_iff i label key raw (some (world id field)) = (λ _. tt, λ _. refl)

    check_source_iff :
        (i : ℕ) (label : StepLabel) (key raw : Str)
        → (check_source f ns i label key raw ≡ ok tt) ↔ MayRead actions i (parse_input_source raw)
    unfolding check_source
    check_source_iff i label key raw = check_parsed_iff i label key raw (parse_input_source raw)

    check_input_iff :
        (i : ℕ) (a : CapabilityAction) (declared : Option (List Field)) (key : Str)
        → (check_input f ns i a declared key ≡ ok tt)
          ↔ (IsDeclared declared key × IsWired actions i a.inputs key)
    unfolding check_input check_declared_input
    check_input_iff i a declared key =
        ground (arith, check_source_iff i (step_label a i) key (input_at a.inputs key).source)

    check_inputs_iff :
        (i : ℕ) (a : CapabilityAction) (declared : Option (List Field)) (ks : List Str)
        → (check_inputs f ns i a declared ks ≡ ok tt)
          ↔ All (λ key. IsDeclared declared key × IsWired actions i a.inputs key) ks
    unfolding check_inputs
    check_inputs_iff i a declared [] = (λ _. tt, λ _. refl)
    check_inputs_iff i a declared (key ∷ ks) =
        ground (arith, check_input_iff i a declared key, check_inputs_iff i a declared ks)

  check_required_iff :
      (label : StepLabel) (capability : Str) (ks : List Str) (fields : List Field)
      → (check_required f label capability ks fields ≡ ok tt)
        ↔ All (λ d. d.required ≡ true → supplied_input ks d ≡ true) fields
  unfolding check_required
  check_required_iff label capability ks [] = (λ _. tt, λ _. refl)
  check_required_iff label capability ks (d ∷ fields) =
      ground (arith, check_required_iff label capability ks fields)

  check_signature_iff :
      (label : StepLabel) (capability : Str) (inputs : Dict StepInput)
      (declared : Option (List Field))
      → (check_signature f label capability (keys inputs) declared ≡ ok tt)
        ↔ IsSupplied inputs declared
  check_signature_iff label capability inputs none = (λ _. tt, λ _. refl)
  check_signature_iff label capability inputs (some fields) =
      check_required_iff label capability (keys inputs) fields

  module _ (actions : List Action) (ns : StepNames)
      (names : (s : Str) → name_info s ns ≡ find_step s 0 actions) where
    check_step_iff :
        (i : ℕ) (a : CapabilityAction) → (check_step f ns i a ≡ ok tt) ↔ StepIsSound actions i a
    unfolding check_step
    check_step_iff i a =
        let declared = declared_inputs_of f a.name in
        let inputs_iff =
          check_inputs_iff actions ns names i a declared (sorted_input_keys a.inputs) in
        let supplied_iff = check_signature_iff (step_label a i) a.name a.inputs declared in
        (
          λ h.
              let (_, e, e') =
                >>=-eq-ok (check_inputs f ns i a declared (sorted_input_keys a.inputs))
                  (λ _. check_signature f (step_label a i) a.name (keys a.inputs) declared) h in
              record { inputs = inputs_iff.0 e; supplied = supplied_iff.0 e' },
          λ s. rw (inputs_iff.1 s.inputs, check_step) (supplied_iff.1 s.supplied),
        )

    check_steps_iff :
        (i : ℕ) (rest : List Action)
        → (check_steps f ns i rest ≡ ok tt) ↔ StepsAreSound actions i rest
    unfolding check_steps
    check_steps_iff i [] = (λ _. tt, λ _. refl)
    check_steps_iff i (absent ∷ rest) = check_steps_iff (suc i) rest
    check_steps_iff i (nothing _ ∷ rest) = check_steps_iff (suc i) rest
    check_steps_iff i (calls a ∷ rest) =
        ground (arith, check_step_iff i a, check_steps_iff (suc i) rest)

  -- A plan is accepted exactly when its steps have usable names that are all different, and every
  -- step passes only inputs that its capability declares and all those that it requires, and binds
  -- only what an earlier step declares as an output or a field of the World Model.
  pub validate_plan_lineage_iff :
      (actions : List Action)
      → (validate_plan_lineage f actions ≡ ok tt)
        ↔ (NamesAreUsable actions × StepsAreSound actions 0 actions)
  unfolding validate_plan_lineage
  validate_plan_lineage_iff actions = (forth, back)
    where
      forth :
          validate_plan_lineage f actions ≡ ok tt
          → NamesAreUsable actions × StepsAreSound actions 0 actions
      forth h =
          let (ns, e, checked) =
            >>=-eq-ok (name_steps 0 no_names actions) (λ ns. check_steps f ns 0 actions) h in
          (
            name_steps-usable 0 no_names ns actions e,
            (check_steps_iff actions ns (λ s. name_steps-find s ns actions e) 0 actions).0 checked,
          )

      back :
          NamesAreUsable actions × StepsAreSound actions 0 actions
          → validate_plan_lineage f actions ≡ ok tt
      back (usable, sound) =
          let (ns, e) = name_steps_complete 0 no_names actions (IsFresh-no_names actions) usable in
          rw (e, validate_plan_lineage)
            ((check_steps_iff actions ns (λ s. name_steps-find s ns actions e) 0 actions).1 sound)

  -- What holds of a step, by its place in the plan.
  pub StepsAreSound-at :
      (actions : List Action) (i : ℕ) (done : List Action) (a : CapabilityAction)
      (rest : List Action)
      → StepsAreSound actions i (done ++ calls a ∷ rest)
      → StepIsSound actions (i + length done) a
  StepsAreSound-at actions i [] a rest h = rw add-zero h.0
  StepsAreSound-at actions i (absent ∷ done) a rest h =
      rw (add-suc, ← suc-add) (StepsAreSound-at actions (suc i) done a rest h)
  StepsAreSound-at actions i (nothing _ ∷ done) a rest h =
      rw (add-suc, ← suc-add) (StepsAreSound-at actions (suc i) done a rest h)
  StepsAreSound-at actions i (calls _ ∷ done) a rest h =
      rw (add-suc, ← suc-add) (StepsAreSound-at actions (suc i) done a rest h.1)
