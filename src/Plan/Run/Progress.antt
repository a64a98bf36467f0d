-- ===== src/Plan/Run/Progress.antt =====
-- What is enough for a validated plan to run to its end.
use autonomy.Base.{
  ℕ, suc, ◌+◌, ◌≡◌, refl, ◌∙◌, sym, subst, true, false, List, [], ◌∷◌, ◌++◌, Option, none, some,
  arith, inl, inr, length, Bool-cases, ok, append_assoc, All, length-append,
}
use autonomy.Text.{Str, trim_space, is_blank, canonical}
use autonomy.Dict.{Dict, lookup, put}
use autonomy.Decision.{StepInput, CapabilityAction, Action, absent, nothing, calls, is_binding}
use autonomy.Plan.Source.{InputSource, step, world, parse_input_source}
use autonomy.Plan.Source.Parse.{parse-step}
use autonomy.Plan.Capability.{
  Factory, Capability, Field, declared_inputs_of, declared_outputs_of, field_accepts, get,
}
use autonomy.Plan.World.{Assets, ActionResult}
use autonomy.Plan.Lineage.{input_at, sorted_input_keys, validate_plan_lineage}
use autonomy.Plan.Lineage.Names.{find_step, find_step_earlier}
use autonomy.Plan.Lineage.Wired.{
  MayRead, IsWired, IsDeclared, StepIsSound, StepsAreSound, validate_plan_lineage_iff,
}
use autonomy.Plan.Resolve.{
  record_named, world_value, output_value, step_value, parsed_value, resolve_input_source,
  resolve_input, resolve_keys, resolve_step_inputs,
}
use autonomy.Plan.Run.{
  Task, execute, execute_capability, run_capability, nothing_record, call_capability, fill_task_id,
  run_actions,
}
use autonomy.Plan.Run.Records.{
  Tracks, Tracks-nil, Tracks-absent, Tracks-nothing, Tracks-calls, Answers-record,
}
use autonomy.Plan.Run.Safe.{execute-step_name, length-snoc, step_name-ne-nil}

-- An output holds a value that is not blank under a key.
abbrev pub HasValue : Dict Str → Str → Type 0
HasValue out key = (v : Str) × (lookup key out ≡ some v) × (is_blank v ≡ false)

module _ {W : Type 0} (assets_of : W → Assets) (g : Factory W) where
  -- What a capability owes its callers: it runs without an error, and reports a value for every
  -- output that it declares, under its name and under each of its aliases.
  pub record Serves (name : Str) (c : Capability W) : Type 0 where
    pub runs : (values : Dict Str) (w : W) → (c.run values w).1 ≡ none
    pub reports :
        (values : Dict Str) (w : W) (outputs : List Field) (key : Str)
        → trim_space key ≡ key
        → declared_outputs_of (some g) name ≡ some outputs
        → field_accepts outputs key ≡ true
        → HasValue (c.run values w).0 key

  -- A binding to a step names the output with no white space round it, and the World Model always
  -- has the asset that a binding to it names.
  abbrev pub IsPresent : Option InputSource → Type 0
  IsPresent none = Unit
  IsPresent (some (step name key)) = trim_space key ≡ key
  IsPresent (some (world id field)) =
      (w : W) → (v : Str) × (world_value (assets_of w) id field ≡ ok v)

  -- What a plan needs of its surroundings.
  abbrev pub IsServed : List Action → Type 0
  IsServed [] = Unit
  IsServed (absent ∷ rest) = IsServed rest
  IsServed (nothing _ ∷ rest) = IsServed rest
  IsServed (calls a ∷ rest) =
      ((c : Capability W) × (get (canonical a.name) g ≡ some c) × Serves a.name c)
      × All (λ key. IsPresent (parse_input_source (input_at a.inputs key).source))
          (sorted_input_keys a.inputs)
      × IsServed rest

  -- The record of a call holds what the capability declares.
  abbrev Reports : Str → ActionResult → Type 0
  Reports name r =
      (outputs : List Field) (key : Str)
      → trim_space key ≡ key
      → declared_outputs_of (some g) name ≡ some outputs
      → field_accepts outputs key ≡ true
      → HasValue r.output key

  output_value_ok :
      (r : ActionResult) (key : Str)
      → HasValue r.output key
      → (v : Str) × (output_value r key ≡ ok v)
  unfolding output_value
  output_value_ok r key (v, e, b) = (v, rw (e, output_value, b))

  module _ (done rest : List Action) (prior : List ActionResult)
      (tracks : Tracks Reports done prior) where
    parsed_value_ok :
        (w : W) (raw : Str) (source : Option InputSource)
        → parse_input_source raw ≡ source
        → MayRead (some g) (done ++ rest) (length done) source
        → IsPresent source
        → (v : Str) × (parsed_value (assets_of w) prior raw source ≡ ok v)
    unfolding parsed_value step_value
    parsed_value_ok w raw none p may here = absurd may
    parsed_value_ok w raw (some (step name key)) p (at, c, outs, found, before, declared, accepts)
          here =
        let (_, named, _, _) = parse-step raw name key p in
        let (r, n, reports) =
          Answers-record Reports (find_step name 0 done) (record_named name prior) at c
            (tracks name (step_name-ne-nil name named))
            (find_step_earlier name done rest at c found before) in
        rw (n, step_value) (output_value_ok r key (reports outs key here declared accepts))
    parsed_value_ok w raw (some (world id field)) p may here = here w

    resolve_input_ok :
        (w : W) (inputs : Dict StepInput) (key : Str)
        → IsWired (some g) (done ++ rest) (length done) inputs key
        → IsPresent (parse_input_source (input_at inputs key).source)
        → (v : Str) × (resolve_input (assets_of w) prior (input_at inputs key) ≡ ok v)
    unfolding resolve_input resolve_input_source
    resolve_input_ok w inputs key wired here =
        elim (Bool-cases (is_binding (input_at inputs key))) [
          | inl b ↦
              let raw : Str = (input_at inputs key).source in
              rw b (parsed_value_ok w raw (parse_input_source raw) refl (wired b) here)
          | inr b ↦ ((input_at inputs key).literal, rw b)
        ]

    resolve_keys_ok :
        (w : W) (inputs : Dict StepInput) (declared : Option (List Field)) (ks : List Str)
        (out : Dict Str)
        → All
            (λ k.
              IsDeclared (some g) declared k
              × IsWired (some g) (done ++ rest) (length done) inputs k)
            ks
        → All (λ k. IsPresent (parse_input_source (input_at inputs k).source)) ks
        → (values : Dict Str) × (resolve_keys (assets_of w) prior inputs ks out ≡ ok values)
    unfolding resolve_keys
    resolve_keys_ok w inputs declared [] out wired here = (out, refl)
    resolve_keys_ok w inputs declared (k ∷ ks) out wired here =
        let (v, e) = resolve_input_ok w inputs k wired.0.1 here.0 in
        rw (e, resolve_keys) (resolve_keys_ok w inputs declared ks (put k v out) wired.1 here.1)

    -- A sound step whose surroundings serve it leaves a record with no error that reports all that
    -- its capability declares.
    execute_ok :
        (a : CapabilityAction) (task : Task) (w : W)
        → StepIsSound (some g) (done ++ rest) (length done) a
        → ((c : Capability W) × (get (canonical a.name) g ≡ some c) × Serves a.name c)
        → All
            (λ k. IsPresent (parse_input_source (input_at a.inputs k).source))
            (sorted_input_keys a.inputs)
        → let x = execute_capability assets_of (some g) a (some g) task prior w in
          (x.0.error ≡ none) × Reports a.name x.0
    unfolding execute_capability run_capability call_capability resolve_step_inputs
    execute_ok a task w sound (c, e, serves) here =
        let (values, n) =
          resolve_keys_ok w a.inputs (declared_inputs_of (some g) a.name)
            (sorted_input_keys a.inputs) [] sound.inputs here in
        let given : Dict Str = fill_task_id assets_of (some g) (canonical a.name) task values in
        rw (e, execute_capability, n, run_capability)
          (rw (serves.runs given w) refl, λ outs key. serves.reports given w outs key)

  -- How many actions there are to run: those that are not nil.
  abbrev pub count_actions : List Action → ℕ
  count_actions [] = 0
  count_actions (absent ∷ rest) = count_actions rest
  count_actions (nothing _ ∷ rest) = suc (count_actions rest)
  count_actions (calls _ ∷ rest) = suc (count_actions rest)

  -- The loop ends without an error, and has added a record for each action.
  abbrev Completes : Task → List ActionResult → List Action → W → Type 0
  Completes task prior rest w =
      (rs : List ActionResult) × (w' : W) × (run_actions assets_of (some g) task prior rest w
        ≡ (rs, none, w'))
      × (length rs ≡ length prior + count_actions rest)

  run_actions_ok :
      (actions : List Action) (task : Task) (done rest : List Action) (prior : List ActionResult)
      (w : W)
      → done ++ rest ≡ actions
      → Tracks Reports done prior
      → StepsAreSound (some g) actions (length done) rest
      → IsServed rest
      → Completes task prior rest w
  unfolding run_actions execute
  run_actions_ok actions task done [] prior w same t sound served = (prior, w, refl, omega arith)
  run_actions_ok actions task done (absent ∷ rest) prior w same t sound served =
      run_actions_ok actions task (done ++ absent ∷ []) rest prior w
        (append_assoc done (absent ∷ []) rest ∙ same) (Tracks-absent Reports done prior t)
        (rw (length-snoc done absent) sound) served
  run_actions_ok actions task done (nothing reason ∷ rest) prior w same t sound served =
      let r : ActionResult = nothing_record assets_of (some g) reason in
      let (rs, w', e, n) =
        run_actions_ok actions task (done ++ nothing reason ∷ []) rest (prior ++ r ∷ []) w
          (append_assoc done (nothing reason ∷ []) rest ∙ same)
          (Tracks-nothing Reports done prior reason r refl t)
          (rw (length-snoc done (nothing reason)) sound) served in
      (rs, w', e, omega (arith, n, length-append {0} prior (r ∷ [])))
  run_actions_ok actions task done (calls a ∷ rest) prior w same t sound served =
      let x : ActionResult × W = execute_capability assets_of (some g) a (some g) task prior w in
      let here : StepIsSound (some g) (done ++ calls a ∷ rest) (length done) a =
        subst (λ all. StepIsSound (some g) all (length done) a) (sym same) sound.0 in
      let (clean, reports) =
        execute_ok done (calls a ∷ rest) prior t a task w here served.0 served.1 in
      let later : Completes task (prior ++ x.0 ∷ []) rest x.1 =
        run_actions_ok actions task (done ++ calls a ∷ []) rest (prior ++ x.0 ∷ []) x.1
          (append_assoc done (calls a ∷ []) rest ∙ same)
          (Tracks-calls Reports done prior a x.0
            (execute-step_name assets_of (some g) a (some g) task prior w) reports t)
          (rw (length-snoc done (calls a)) sound.1) served.2 in
      let (rs, w', e, n) = later in
      (rs, w', rw (clean, run_actions) e, omega (arith, n, length-append {0} prior (x.0 ∷ [])))

  -- A validated plan runs to its end, if its capabilities are registered, run without an error and
  -- report what they declare under every name of it, if its step bindings name outputs with no
  -- white space round them, and if its bindings to the World Model name assets that are there: no
  -- step fails, and every action that is not nil leaves one record.
  pub validated_plan_completes :
      (actions : List Action) (task : Task) (w : W)
      → validate_plan_lineage (some g) actions ≡ ok tt
      → IsServed actions
      → (rs : List ActionResult) × (w' : W) × (run_actions assets_of (some g) task [] actions w
          ≡ (rs, none, w'))
        × (length rs ≡ count_actions actions)
  validated_plan_completes actions task w valid served =
      let (rs, w', e, n) =
        run_actions_ok actions task [] actions [] w refl (Tracks-nil Reports)
          ((validate_plan_lineage_iff (some g) actions).0 valid).1 served in
      (rs, w', e, omega (arith, n))
