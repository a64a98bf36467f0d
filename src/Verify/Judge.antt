-- ===== src/Verify/Judge.antt =====
-- src/verification.go: `verifyCriterion` and `verifyDone`. A verdict's reason, which is a sentence,
-- and the ids and times of its row are left out.
pub mod Sound
use autonomy.Base.{
  ℕ, Bool, true, false, not, ◌&&◌, ◌||◌, List, [], ◌∷◌, ◌++◌, Option, none, some, if◌then◌else◌,
  is_nil, Result, ok, err,
}
use autonomy.Text.{Str, codes, str_eq, trim_space, is_blank, canonical, join}
use autonomy.Dict.{Dict, lookup, keys}
use autonomy.Decision.{StepInput, bound_input, Criterion, CriterionExpect}
use autonomy.Decision.Detail.{StepLabel, named}
use autonomy.Plan.Source.{InputSource, step, world, state_field, kind_field, parse_input_source}
use autonomy.Plan.Capability.{Capability, Factory, declared_inputs_of}
use autonomy.Plan.World.{Asset, Assets, ActionResult, ResolveError}
use autonomy.Plan.Lineage.{LineageError, check_declared_input, check_signature, sorted_input_keys}
use autonomy.Plan.Resolve.{record_named, resolve_step_inputs}
use autonomy.Plan.Run.{Task, fill_task_id}
use autonomy.Verify.Tools.{VerificationReader, output_kind, tool_for_kind, is_verification_tool}

pub data Verdict : Type 0 where
  passes fails inconclusive : Verdict

pub record Verification : Type 0 where
  pub criterion : Str
  pub requirement : Str
  pub slot : Str
  pub reference : Str
  pub method : Str
  pub observed : Str
  pub result : Verdict

-- `CriterionExpect.Judges`.
unfoldable pub judges : CriterionExpect → Bool
judges e = e.exists || not (is_blank e.field) || not (is_blank e.equals)

pub record VerificationAsk : Type 0 where
  pub capability : Str
  pub method : Str
  pub inputs : Dict StepInput

pub data AskError : Type 0 where
  untyped_evidence no_tool not_a_tool not_in_runtime : AskError
  undeclared : LineageError → AskError
  unresolved : Str → ResolveError → AskError
  reader_failed : Str → AskError

abbrev pub no_method : Str
no_method = codes "-"

abbrev pub world_method : Str
world_method = codes "world_model"

abbrev pub exists_key : Str
exists_key = codes "exists"

-- What `worldFact` answers: an error, no asset, or the field's value.
pub data WorldFact : Type 0 where
  unreadable absent : WorldFact
  holds : Str → WorldFact

abbrev field_of : Asset → Str → WorldFact
field_of asset field =
    if str_eq field state_field
    then holds asset.state
    else if str_eq field kind_field
    then holds asset.kind
    else unreadable

unfoldable pub world_fact : Assets → List Str → Str → WorldFact
world_fact none id field = unreadable
world_fact (some assets) id field = elim (lookup (join b'.' id) assets) [
  | none ↦ absent
  | some asset ↦ field_of asset field
]

-- A key of an answer: "" where it is missing.
abbrev pub answer_at : Str → Dict Str → Str
answer_at key answer = elim (lookup key answer) [ none ↦ [] | some v ↦ v ]

-- The verification that a criterion starts with.
abbrev pub unjudged : Criterion → Verification
unjudged c = record {
  criterion = c.name;
  requirement = c.requirement;
  slot = trim_space c.slot;
  reference = [];
  method = no_method;
  observed = [];
  result = inconclusive;
}

abbrev pub with_verdict : Verification → Verdict → Str → Str → Verification
with_verdict v result observed method = record v {
  result = result;
  observed = observed;
  method = method;
}

-- `authorityFor`.
unfoldable pub authority_for :
    {W : Type 0}
    → Option (Factory W)
    → Criterion
    → ActionResult
    → Str
    → Result AskError VerificationAsk
authority_for f criterion producer key =
    let kind = output_kind f producer.capability key in
    if is_nil kind then err untyped_evidence else elim (tool_for_kind f kind key) [
      | none ↦ err no_tool
      | some reader ↦ ok (record {
        capability = reader.capability;
        method = codes "kind:" ++ kind;
        inputs = (reader.input, bound_input criterion.slot) ∷ [];
      })
    ]

-- `same_fold` is strings.EqualFold, and `caps` are the capabilities of the runtime by name.
module _ {W : Type 0} (same_fold : Str → Str → Bool) (assets_of : W → Assets)
    (f : Option (Factory W)) (caps : Dict (Capability W)) (task : Task) where
  unfoldable pub matches : Str → Str → Bool
  matches observed expected = same_fold (trim_space observed) (trim_space expected)

  -- `verifyWorldCriterion`, after the field was compared.
  unfoldable pub judge_world : Verification → Str → CriterionExpect → WorldFact → Verification
  judge_world v field expect unreadable = with_verdict v inconclusive [] world_method
  judge_world v field expect absent = with_verdict v fails [] world_method
  judge_world v field expect (holds value) =
      let observed = field ++ codes "=" ++ value in
      if expect.exists || matches value expect.equals
      then with_verdict v passes observed world_method
      else with_verdict v fails observed world_method

  unfoldable pub verify_world_criterion :
      Verification → List Str → Str → CriterionExpect → W → Verification
  verify_world_criterion v id field expect w =
      if not (is_nil expect.field) && not (matches expect.field field)
      then with_verdict v inconclusive [] no_method
      else judge_world v field expect (world_fact (assets_of w) id field)

  -- The checks of the inputs in `askAuthority`.
  unfoldable pub check_keys : Str → List Str → Result LineageError (Unit {0})
  check_keys name [] = ok tt
  check_keys name (key ∷ ks) =
      elim (check_declared_input (named (name ++ codes " check")) name key
        (declared_inputs_of f name)) [ err e ↦ err e | ok _ ↦ check_keys name ks ]

  abbrev pub read_answer : Dict Str × Option Str × W → Result AskError (Dict Str) × W
  read_answer (answer, none, w) = (ok answer, w)
  read_answer (answer, some message, w) = (err (reader_failed message), w)

  unfoldable pub ask_reader :
      Str → Capability W → Dict StepInput → List ActionResult → W → Result AskError (Dict Str) × W
  ask_reader name reader inputs prior w = elim (check_keys name (sorted_input_keys inputs)) [
    | err e ↦ (err (undeclared e), w)
    | ok _ ↦
        elim (check_signature f (named (name ++ codes " check")) name (keys inputs)
          (declared_inputs_of f name)) [
            | err e ↦ (err (undeclared e), w)
            | ok _ ↦ elim (resolve_step_inputs (assets_of w) prior inputs) [
              | err (key, e) ↦ (err (unresolved key e), w)
              | ok values ↦ read_answer (reader.run (fill_task_id assets_of f name task values) w)
            ]
          ]
  ]

  unfoldable pub ask_authority :
      VerificationAsk → List ActionResult → W → Result AskError (Dict Str) × W
  ask_authority ask prior w =
      let name = canonical ask.capability in
      if not (is_verification_tool f name) then (err not_a_tool, w) else elim (lookup name caps) [
        | none ↦ (err not_in_runtime, w)
        | some reader ↦ ask_reader name reader ask.inputs prior w
      ]

  -- What `verifyStepCriterion` makes of the source's answer.
  unfoldable pub judge_existence : Verification → Str → Str → Dict Str → Verification
  judge_existence v reference method answer = elim (lookup exists_key answer) [
    | none ↦ with_verdict v passes reference method
    | some exists ↦
        if matches exists (codes "true")
        then with_verdict v passes exists method
        else with_verdict v fails exists method
  ]

  unfoldable pub judge_field : Verification → Str → Str → CriterionExpect → Dict Str → Verification
  judge_field v reference method expect answer =
      let observed = trim_space (answer_at expect.field answer) in
      if is_nil observed
      then with_verdict v inconclusive reference method
      else if matches observed expect.equals
      then with_verdict v passes observed method
      else with_verdict v fails observed method

  abbrev pub judge_answer :
      Verification → Str → Str → CriterionExpect → Result AskError (Dict Str) × W → Verification × W
  judge_answer v reference method expect (err e, w) =
      (with_verdict v inconclusive reference method, w)
  judge_answer v reference method expect (ok answer, w) = (
    if expect.exists
        then judge_existence v reference method answer
        else judge_field v reference method expect answer,
    w,
  )

  unfoldable pub verify_reference :
      Verification → Criterion → ActionResult → Str → Str → List ActionResult → W → Verification × W
  verify_reference v criterion producer key reference prior w =
      if not criterion.expect.exists && is_nil criterion.expect.field
      then (with_verdict v inconclusive reference no_method, w)
      else elim (authority_for f criterion producer key) [
        | err e ↦ (with_verdict v inconclusive reference no_method, w)
        | ok ask ↦ judge_answer v reference ask.method criterion.expect (ask_authority ask prior w)
      ]

  unfoldable pub verify_step_criterion :
      Verification → Str → Str → Criterion → List ActionResult → W → Verification × W
  verify_step_criterion v name key criterion prior w = elim (record_named name prior) [
    | none ↦ (with_verdict v inconclusive [] no_method, w)
    | some producer ↦
        let reference = trim_space (answer_at key producer.output) in
        if is_nil reference
        then (with_verdict v inconclusive [] no_method, w)
        else verify_reference (record v { reference = reference }) criterion producer key reference
            prior w
  ]

  unfoldable pub verify_source :
      Criterion → Option InputSource → List ActionResult → W → Verification × W
  verify_source c none prior w = (unjudged c, w)
  verify_source c (some (world id field)) prior w =
      (verify_world_criterion (unjudged c) id field c.expect w, w)
  verify_source c (some (step name key)) prior w =
      verify_step_criterion (unjudged c) name key c prior w

  unfoldable pub verify_criterion : Criterion → List ActionResult → W → Verification × W
  verify_criterion c prior w =
      if not (judges c.expect) || is_blank c.slot
      then (unjudged c, w)
      else verify_source c (parse_input_source c.slot) prior w

  -- The loop of `verifyDone`: the verdicts, in the order of the criteria.
  unfoldable pub verify_all : List Criterion → List ActionResult → W → List Verification × W
  verify_all [] prior w = ([], w)
  verify_all (c ∷ cs) prior w =
      let (v, w') = verify_criterion c prior w in
      let (vs, w'') = verify_all cs prior w' in (v ∷ vs, w'')

  abbrev pub passed : Verification → Bool
  passed v = elim v.result [ passes ↦ true | fails ↦ false | inconclusive ↦ false ]

  abbrev pub all_passed : List Verification → Bool
  all_passed [] = true
  all_passed (v ∷ vs) = passed v && all_passed vs

  -- `verifyDone` over the pinned contract and what the task's steps produced: whether the done
  -- holds up, with the verdicts.
  unfoldable pub verify_done : List Criterion → List ActionResult → W → Bool × List Verification × W
  verify_done [] prior w = (false, [], w)
  verify_done (c ∷ cs) prior w =
      let (vs, w') = verify_all (c ∷ cs) prior w in (all_passed vs, vs, w')
