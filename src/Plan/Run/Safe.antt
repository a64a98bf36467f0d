-- ===== src/Plan/Run/Safe.antt =====
-- What can still fail in a plan that was validated.
use autonomy.Base.{
  suc, ◌≡◌, ◌≢◌, refl, ◌∙◌, sym, subst, ◌⊎◌, true, List, [], ◌∷◌, ◌++◌, Option, none, some, arith,
  inl, inr, length, Bool-cases, Option-cases, Result-cases, ok, err, append_assoc, All,
  length-append,
}
use autonomy.Text.{Str, trim_space, canonical}
use autonomy.Text.Laws.{str_eq_iff}
use autonomy.Dict.{Dict, put}
use autonomy.Decision.{StepInput, CapabilityAction, Action, absent, nothing, calls, is_binding}
use autonomy.Plan.Source.{
  InputSource, step, world, parse_input_source, is_step_name, state_field, kind_field,
}
use autonomy.Plan.Source.Parse.{parse-step, parse-world}
use autonomy.Plan.Capability.{Factory, Capability, Field, declared_inputs_of, get}
use autonomy.Plan.World.{
  Assets, ActionResult, ResolveError, unreadable, not_reported, reported_empty, produced_nothing,
  no_world_model, no_such_asset, no_such_field, ActionError, factory_not_ready, unknown_capability,
  unresolved_input, run_failed,
}
use autonomy.Plan.Lineage.{input_at, sorted_input_keys, validate_plan_lineage}
use autonomy.Plan.Lineage.Names.{find_step, find_step_earlier}
use autonomy.Plan.Lineage.Wired.{
  MayRead, IsWired, IsDeclared, StepIsSound, StepsAreSound, validate_plan_lineage_iff,
}
use autonomy.Plan.Resolve.{
  record_named, world_value, output_value, step_value, parsed_value, resolve_input_source,
  resolve_input, resolve_keys, resolve_step_inputs,
}
use autonomy.Plan.Run.{
  Task, execute, execute_capability, run_capability, call_capability, run_actions,
}
use autonomy.Plan.Run.Records.{
  Tracks, Tracks-nil, Tracks-absent, Tracks-nothing, Tracks-calls, Answers-record,
}

pub length-snoc : (xs : List Action) (x : Action) → length (xs ++ x ∷ []) ≡ suc (length xs)
length-snoc xs x = omega (arith, length-append {0} xs (x ∷ []))

-- An input that has no value for a reason which only the run could show: an earlier step did not
-- report what its capability declares, or the World Model has no such asset.
abbrev pub IsAboutValue : ResolveError → Type 0
IsAboutValue (unreadable raw) = ⊥
IsAboutValue (not_reported name key) = Unit
IsAboutValue (reported_empty name key) = Unit
IsAboutValue (produced_nothing name) = ⊥
IsAboutValue no_world_model = Unit
IsAboutValue (no_such_asset id) = Unit
IsAboutValue (no_such_field field) = ⊥

abbrev pub IsRunError : ActionError → Type 0
IsRunError (unresolved_input key e) = IsAboutValue e
IsRunError factory_not_ready = Unit
IsRunError (unknown_capability name) = Unit
IsRunError (run_failed message) = Unit

-- The records track the steps, whatever they hold.
abbrev Any : Str → ActionResult → Type 0
Any c r = Unit

output_value-IsAboutValue :
    (r : ActionResult) (key : Str) (e : ResolveError) → output_value r key ≡ err e → IsAboutValue e
unfolding output_value
output_value-IsAboutValue r key e h = ground arith

world_value-IsAboutValue :
    (assets : Assets) (id : List Str) (field : Str) (e : ResolveError)
    → (field ≡ state_field) ⊎ (field ≡ kind_field)
    → world_value assets id field ≡ err e
    → IsAboutValue e
unfolding world_value
world_value-IsAboutValue none id field e f h = ground arith
world_value-IsAboutValue (some assets) id field e f h =
    ground (arith, str_eq_iff field state_field, str_eq_iff field kind_field)

pub step_name-ne-nil : (s : Str) → is_step_name s ≡ true → s ≢ []
unfolding is_step_name
step_name-ne-nil [] h = cc
step_name-ne-nil (c ∷ s) h = λ e. cc

step_value-IsAboutValue :
    (name key : Str) (prior : List ActionResult) (e : ResolveError)
    → record_named name prior ≢ none
    → step_value name key prior ≡ err e
    → IsAboutValue e
unfolding step_value
step_value-IsAboutValue name key prior e some_record h =
    elim (Option-cases (record_named name prior)) [
      | inl n ↦ absurd (some_record n)
      | inr (r, n) ↦ output_value-IsAboutValue r key e (ground (arith, n))
    ]

module _ {W : Type 0} (f : Option (Factory W)) (done rest : List Action) (prior : List ActionResult)
    (tracks : Tracks Any done prior) where
  parsed-IsAboutValue :
      (assets : Assets) (raw : Str) (source : Option InputSource) (e : ResolveError)
      → parse_input_source raw ≡ source
      → MayRead f (done ++ rest) (length done) source
      → parsed_value assets prior raw source ≡ err e
      → IsAboutValue e
  unfolding parsed_value
  parsed-IsAboutValue assets raw none e p may h = absurd may
  parsed-IsAboutValue assets raw (some (step name key)) e p (at, c, _, found, before, _, _) h =
      let (_, named, _, _) = parse-step raw name key p in
      let (r, n, _) =
        Answers-record Any (find_step name 0 done) (record_named name prior) at c
          (tracks name (step_name-ne-nil name named))
          (find_step_earlier name done rest at c found before) in
      step_value-IsAboutValue name key prior e (λ m. cc) h
  parsed-IsAboutValue assets raw (some (world id field)) e p may h =
      world_value-IsAboutValue assets id field e (parse-world raw id field p).2 h

  input-IsAboutValue :
      (assets : Assets) (inputs : Dict StepInput) (key : Str) (e : ResolveError)
      → IsWired f (done ++ rest) (length done) inputs key
      → resolve_input assets prior (input_at inputs key) ≡ err e
      → IsAboutValue e
  unfolding resolve_input resolve_input_source
  input-IsAboutValue assets inputs key e wired h =
      elim (Bool-cases (is_binding (input_at inputs key))) [
        | inl b ↦
            let raw : Str = (input_at inputs key).source in
            parsed-IsAboutValue assets raw (parse_input_source raw) e refl (wired b)
              (ground (arith, b))
        | inr b ↦ absurd (ground (arith, b))
      ]

  keys-IsAboutValue :
      (assets : Assets) (inputs : Dict StepInput) (declared : Option (List Field)) (ks : List Str)
      (out : Dict Str) (key : Str) (e : ResolveError)
      → All (λ k. IsDeclared f declared k × IsWired f (done ++ rest) (length done) inputs k) ks
      → resolve_keys assets prior inputs ks out ≡ err (key, e)
      → IsAboutValue e
  unfolding resolve_keys
  keys-IsAboutValue assets inputs declared [] out key e wired h = cc
  keys-IsAboutValue assets inputs declared (k ∷ ks) out key e wired h =
      elim (Result-cases (resolve_input assets prior (input_at inputs k))) [
        | inl (v, n) ↦
            keys-IsAboutValue assets inputs declared ks (put k v out) key e wired.1
              (ground (arith, n))
        | inr (e', n) ↦ input-IsAboutValue assets inputs k e wired.0.1 (ground (arith, n))
      ]

-- Why a sound step fails, with records that track the steps before it.
module _ {W : Type 0} (assets_of : W → Assets) (f : Option (Factory W)) (done rest : List Action)
    (prior : List ActionResult) (tracks : Tracks Any done prior) (a : CapabilityAction)
    (sound : StepIsSound f (done ++ rest) (length done) a) where
  run-IsRunError :
      (c : Capability W) (task : Task) (w : W) (e : ActionError)
      → (run_capability assets_of f a c task prior w).0.error ≡ some e
      → IsRunError e
  unfolding run_capability call_capability resolve_step_inputs
  run-IsRunError c task w e h =
      elim (Result-cases (resolve_step_inputs (assets_of w) prior a.inputs)) [
        | inl (values, n) ↦ ground (arith, n)
        | inr ((key, e'), n) ↦
            let about : IsAboutValue e' =
              keys-IsAboutValue f done rest prior tracks (assets_of w) a.inputs
                (declared_inputs_of f a.name) (sorted_input_keys a.inputs) [] key e' sound.inputs
                n in
            ground (arith, n, about)
      ]

  execute-IsRunError :
      (g : Option (Factory W)) (task : Task) (w : W) (e : ActionError)
      → (execute_capability assets_of f a g task prior w).0.error ≡ some e
      → IsRunError e
  unfolding execute_capability
  execute-IsRunError none task w e h = ground arith
  execute-IsRunError (some g) task w e h = elim (Option-cases (get (canonical a.name) g)) [
    | inl n ↦ ground (arith, n)
    | inr (c, n) ↦ run-IsRunError c task w e (ground (arith, n))
  ]

module _ {W : Type 0} (assets_of : W → Assets) (f : Option (Factory W)) where
  pub execute-step_name :
      (a : CapabilityAction) (g : Option (Factory W)) (task : Task) (prior : List ActionResult)
      (w : W)
      → (execute_capability assets_of f a g task prior w).0.step_name ≡ trim_space a.step_name
  unfolding execute_capability run_capability call_capability
  execute-step_name a none task prior w = refl
  execute-step_name a (some g) task prior w = ground arith

  run_actions-IsRunError :
      (actions : List Action) (task : Task) (done rest : List Action) (prior : List ActionResult)
      (w : W) (e : ActionError)
      → done ++ rest ≡ actions
      → Tracks Any done prior
      → StepsAreSound f actions (length done) rest
      → (run_actions assets_of f task prior rest w).1 ≡ some e
      → IsRunError e
  unfolding run_actions execute
  run_actions-IsRunError actions task done [] prior w e same t sound h = cc
  run_actions-IsRunError actions task done (absent ∷ rest) prior w e same t sound h =
      run_actions-IsRunError actions task (done ++ absent ∷ []) rest prior w e
        (append_assoc done (absent ∷ []) rest ∙ same) (Tracks-absent Any done prior t)
        (rw (length-snoc done absent) sound) h
  run_actions-IsRunError actions task done (nothing reason ∷ rest) prior w e same t sound h =
      run_actions-IsRunError actions task (done ++ nothing reason ∷ []) rest _ w e
        (append_assoc done (nothing reason ∷ []) rest ∙ same)
        (Tracks-nothing Any done prior reason _ refl t)
        (rw (length-snoc done (nothing reason)) sound) h
  run_actions-IsRunError actions task done (calls a ∷ rest) prior w e same t sound h =
      let x : ActionResult × W = execute_capability assets_of f a f task prior w in
      let here : StepIsSound f (done ++ calls a ∷ rest) (length done) a =
        subst (λ all. StepIsSound f all (length done) a) (sym same) sound.0 in
      elim (Option-cases x.0.error) [
        | inl n ↦
            run_actions-IsRunError actions task (done ++ calls a ∷ []) rest (prior ++ x.0 ∷ []) x.1
              e (append_assoc done (calls a ∷ []) rest ∙ same)
              (Tracks-calls Any done prior a x.0 (execute-step_name a f task prior w) tt t)
              (rw (length-snoc done (calls a)) sound.1) (rw (n, run_actions) at h)
        | inr (e', n) ↦
            let failure : e' ≡ e = ground (arith, n) in
            subst IsRunError failure
              (execute-IsRunError assets_of f done (calls a ∷ rest) prior t a here f task w e' n)
      ]

  -- Of a plan that validation accepts, a run fails only for what the run itself shows: a capability
  -- that is not registered or that fails, an earlier step that did not report what its capability
  -- declares, or a World Model with no such asset. No binding is unreadable, none names a step that
  -- has produced nothing, and none a field that the World Model has not.
  pub validated_plan-IsRunError :
      (actions : List Action) (task : Task) (w : W) (e : ActionError)
      → validate_plan_lineage f actions ≡ ok tt
      → (run_actions assets_of f task [] actions w).1 ≡ some e
      → IsRunError e
  validated_plan-IsRunError actions task w e valid h =
      run_actions-IsRunError actions task [] actions [] w e refl (Tracks-nil Any)
        ((validate_plan_lineage_iff f actions).0 valid).1 h
