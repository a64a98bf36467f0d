-- ===== src/Verify/Judge/Sound.antt =====
-- What a verdict that passes rests on.
use autonomy.Base.{
  ◌≡◌, ◌≢◌, refl, ◌⊎◌, inl, inr, Bool, true, false, List, [], ◌∷◌, ◌++◌, Option, none, some, Result,
  ok, err, arith, Option-cases, Bool-cases, Result-cases, &&-eq-true,
}
use autonomy.Text.{Str, codes, trim_space, canonical}
use autonomy.Dict.{Dict, lookup, keys}
use autonomy.Decision.{StepInput, Criterion, CriterionExpect}
use autonomy.Plan.Source.{InputSource, step, world, parse_input_source}
use autonomy.Plan.Capability.{Capability, Factory, declared_inputs_of}
use autonomy.Plan.World.{Assets, ActionResult}
use autonomy.Plan.Resolve.{record_named, resolve_step_inputs}
use autonomy.Plan.Run.{Task, fill_task_id}
use autonomy.Decision.Detail.{named}
use autonomy.Plan.Lineage.{check_signature, sorted_input_keys}
use autonomy.Verify.Tools.{is_verification_tool, output_kind}
use autonomy.Verify.Judge.{
  Verification, unreadable, absent, check_keys, passes, judges, VerificationAsk, AskError,
  WorldFact, holds, world_fact, answer_at, exists_key, unjudged, authority_for, matches,
  judge_world, verify_world_criterion, read_answer, ask_reader, ask_authority, judge_existence,
  judge_field, judge_answer, verify_reference, verify_step_criterion, verify_source,
  verify_criterion, verify_all, passed, all_passed, verify_done,
}

module _ {W : Type 0} (same_fold : Str → Str → Bool) (assets_of : W → Assets)
    (f : Option (Factory W)) (caps : Dict (Capability W)) (task : Task) where
  -- A system tool ran, without an error, with that answer.
  abbrev pub ToolAnswered : W → Dict Str → Type 0
  ToolAnswered w answer =
      (name : Str) × (reader : Capability W) × (values : Dict Str) × (w' : W)
      × (is_verification_tool f name ≡ true)
      × (lookup name caps ≡ some reader)
      × (reader.run values w ≡ (answer, none, w'))

  -- The answer states the fact that the criterion expects.
  abbrev pub Confirms : CriterionExpect → Dict Str → Type 0
  Confirms expect answer =
      ((expect.exists ≡ true)
        × ((lookup exists_key answer ≡ none)
            ⊎ ((e : Str) × (lookup exists_key answer ≡ some e)
                × (matches same_fold assets_of f caps task e (codes "true") ≡ true))))
      ⊎ ((expect.exists ≡ false)
          × (matches same_fold assets_of f caps task (trim_space (answer_at expect.field answer))
                expect.equals
              ≡ true))

  -- The fact of a criterion, by what its slot names.
  abbrev pub IsEstablished : Criterion → Option InputSource → List ActionResult → W → Type 0
  IsEstablished c none prior w = ⊥
  IsEstablished c (some (world id field)) prior w =
      (value : Str) × (world_fact (assets_of w) id field ≡ holds value)
      × ((c.expect.exists ≡ true)
          ⊎ (matches same_fold assets_of f caps task value c.expect.equals ≡ true))
  IsEstablished c (some (step name key)) prior w =
      (producer : ActionResult) × (answer : Dict Str) × (record_named name prior ≡ some producer)
      × (output_kind f producer.capability key ≢ [])
      × ToolAnswered w answer
      × Confirms c.expect answer

  judge_world-passes :
      (v : Verification) (field : Str) (expect : CriterionExpect) (fact : WorldFact)
      → (judge_world same_fold assets_of f caps task v field expect fact).result ≡ passes
      → (value : Str) × (fact ≡ holds value)
        × ((expect.exists ≡ true)
            ⊎ (matches same_fold assets_of f caps task value expect.equals ≡ true))
  unfolding judge_world
  judge_world-passes v field expect unreadable h = cc
  judge_world-passes v field expect absent h = cc
  judge_world-passes v field expect (holds value) h = (value, refl, ground arith)

  verify_world-passes :
      (v : Verification) (id : List Str) (field : Str) (expect : CriterionExpect) (w : W)
      → (verify_world_criterion same_fold assets_of f caps task v id field expect w).result ≡ passes
      → (judge_world same_fold assets_of f caps task v field expect
          (world_fact (assets_of w) id field)).result
        ≡ passes
  unfolding verify_world_criterion
  verify_world-passes v id field expect w h = ground arith

  read_answer-ok :
      (x : Dict Str × Option Str × W) (answer : Dict Str)
      → (read_answer same_fold assets_of f caps task x).0 ≡ ok answer
      → (w' : W) × (x ≡ (answer, none, w'))
  read_answer-ok (a, none, w) answer h = (w, cc)
  read_answer-ok (a, some m, w) answer h = cc

  ask_reader-ok :
      (name : Str) (reader : Capability W) (inputs : Dict StepInput) (prior : List ActionResult)
      (w : W) (answer : Dict Str)
      → (ask_reader same_fold assets_of f caps task name reader inputs prior w).0 ≡ ok answer
      → (values : Dict Str) × (w' : W) × (reader.run values w ≡ (answer, none, w'))
  unfolding ask_reader
  ask_reader-ok name reader inputs prior w answer h =
      let label = named (name ++ codes " check") in
      elim (Result-cases
        (check_keys same_fold assets_of f caps task name (sorted_input_keys inputs))) [
          | inr (e, n) ↦ absurd (ground (arith, n))
          | inl (_, n) ↦
              elim (Result-cases
                (check_signature f label name (keys inputs) (declared_inputs_of f name))) [
                  | inr (e, n2) ↦ absurd (ground (arith, n, n2))
                  | inl (_, n2) ↦
                      elim (Result-cases (resolve_step_inputs (assets_of w) prior inputs)) [
                        | inr ((key, e), n3) ↦ absurd (ground (arith, n, n2, n3))
                        | inl (values, n3) ↦
                            let given : Dict Str = fill_task_id assets_of f name task values in
                            let (w', e) =
                              read_answer-ok (reader.run given w) answer
                                (ground (arith, n, n2, n3)) in
                            (given, w', e)
                      ]
                ]
        ]

  ask_authority-ok :
      (ask : VerificationAsk) (prior : List ActionResult) (w : W) (answer : Dict Str)
      → (ask_authority same_fold assets_of f caps task ask prior w).0 ≡ ok answer
      → ToolAnswered w answer
  unfolding ask_authority
  ask_authority-ok ask prior w answer h =
      let name : Str = canonical ask.capability in
      elim (Bool-cases (is_verification_tool f name)) [
        | inr b ↦ absurd (ground (arith, b))
        | inl b ↦ elim (Option-cases (lookup name caps)) [
          | inl n ↦ absurd (ground (arith, b, n))
          | inr (reader, n) ↦
              let (values, w', e) =
                ask_reader-ok name reader ask.inputs prior w answer (ground (arith, b, n)) in
              (name, reader, values, w', b, n, e)
        ]
      ]

  judge_answer-passes :
      (v : Verification) (reference method : Str) (expect : CriterionExpect)
      (x : Result AskError (Dict Str) × W)
      → (judge_answer same_fold assets_of f caps task v reference method expect x).0.result ≡ passes
      → (answer : Dict Str) × (x.0 ≡ ok answer) × Confirms expect answer
  unfolding judge_existence judge_field
  judge_answer-passes v reference method expect (err e, w) h = cc
  judge_answer-passes v reference method expect (ok answer, w) h = (answer, refl, confirmed)
    where
      confirmed : Confirms expect answer
      confirmed = elim (Bool-cases expect.exists) [
        | inr b ↦ inr (b, ground (arith, b))
        | inl b ↦ elim (Option-cases (lookup exists_key answer)) [
          | inl n ↦ inl (b, inl n)
          | inr (e, n) ↦ inl (b, inr (e, n, ground (arith, b, n)))
        ]
      ]

  -- A done's criterion whose slot names a step passes only on a system tool's answer.
  verify_reference-passes :
      (v : Verification) (c : Criterion) (producer : ActionResult) (key reference : Str)
      (prior : List ActionResult) (w : W)
      → (verify_reference same_fold assets_of f caps task v c producer key reference prior
          w).0.result
        ≡ passes
      → (answer : Dict Str) × (output_kind f producer.capability key ≢ [])
        × ToolAnswered w answer
        × Confirms c.expect answer
  unfolding verify_reference authority_for
  verify_reference-passes v c producer key reference prior w h =
      elim (Result-cases (authority_for f c producer key)) [
        | inr (e, n) ↦ absurd (ground (arith, n))
        | inl (ask, n) ↦
            let (answer, e, confirms) =
              judge_answer-passes v reference ask.method c.expect
                (ask_authority same_fold assets_of f caps task ask prior w) (ground (arith, n)) in
            (answer, ground (arith, n), ask_authority-ok ask prior w answer e, confirms)
      ]

  verify_step-passes :
      (v : Verification) (name key : Str) (c : Criterion) (prior : List ActionResult) (w : W)
      → (verify_step_criterion same_fold assets_of f caps task v name key c prior w).0.result
        ≡ passes
      → IsEstablished c (some (step name key)) prior w
  unfolding verify_step_criterion
  verify_step-passes v name key c prior w h = elim (Option-cases (record_named name prior)) [
    | inl n ↦ absurd (ground (arith, n))
    | inr (producer, n) ↦
        let reference : Str = trim_space (answer_at key producer.output) in
        let (answer, kind, tool, confirms) =
          verify_reference-passes (record v { reference = reference }) c producer key reference
            prior w (ground (arith, n)) in
        (producer, answer, n, kind, tool, confirms)
  ]

  verify_source-passes :
      (c : Criterion) (source : Option InputSource) (prior : List ActionResult) (w : W)
      → (verify_source same_fold assets_of f caps task c source prior w).0.result ≡ passes
      → IsEstablished c source prior w
  unfolding verify_source
  verify_source-passes c none prior w h = cc
  verify_source-passes c (some (world id field)) prior w h =
      judge_world-passes (unjudged c) field c.expect (world_fact (assets_of w) id field)
        (verify_world-passes (unjudged c) id field c.expect w h)
  verify_source-passes c (some (step name key)) prior w h =
      verify_step-passes (unjudged c) name key c prior w h

  -- A criterion passes only if it says what must hold and the fact is established: by the World
  -- Model that has the value, or by a system tool that ran without an error on the object that a
  -- step produced and declared as evidence, and whose answer confirms the fact.
  pub verify_criterion-IsEstablished :
      (c : Criterion) (prior : List ActionResult) (w : W)
      → (verify_criterion same_fold assets_of f caps task c prior w).0.result ≡ passes
      → (judges c.expect ≡ true) × IsEstablished c (parse_input_source c.slot) prior w
  unfolding verify_criterion
  verify_criterion-IsEstablished c prior w h =
      ground (arith, verify_source-passes c (parse_input_source c.slot) prior w)

  -- Every criterion, in the world that it is judged in.
  abbrev pub AllEstablished : List Criterion → List ActionResult → W → Type 0
  AllEstablished [] prior w = Unit
  AllEstablished (c ∷ cs) prior w =
      (judges c.expect ≡ true)
      × IsEstablished c (parse_input_source c.slot) prior w
      × AllEstablished cs prior (verify_criterion same_fold assets_of f caps task c prior w).1

  verify_all-AllEstablished :
      (cs : List Criterion) (prior : List ActionResult) (w : W)
      → all_passed same_fold assets_of f caps task
          (verify_all same_fold assets_of f caps task cs prior w).0
        ≡ true
      → AllEstablished cs prior w
  unfolding verify_all
  verify_all-AllEstablished [] prior w h = tt
  verify_all-AllEstablished (c ∷ cs) prior w h =
      let x : Verification × W = verify_criterion same_fold assets_of f caps task c prior w in
      let (first, rest) = &&-eq-true (passed same_fold assets_of f caps task x.0) _ h in
      let (j, e) = verify_criterion-IsEstablished c prior w (ground (arith, first)) in
      (j, e, verify_all-AllEstablished cs prior x.1 rest)

  -- Whatever EqualFold answers: a done holds up only if the task pinned a contract and every
  -- criterion of it says what must hold and is established in the world that it is judged in, by
  -- the World Model, which has the value, or by a system tool of the runtime that ran without an
  -- error and whose answer confirms the fact, for an output that its producer declares with a kind.
  pub verify_done-AllEstablished :
      (cs : List Criterion) (prior : List ActionResult) (w : W)
      → (verify_done same_fold assets_of f caps task cs prior w).0 ≡ true
      → (cs ≢ []) × AllEstablished cs prior w
  unfolding verify_done
  verify_done-AllEstablished [] prior w h = cc
  verify_done-AllEstablished (c ∷ cs) prior w h =
      (λ e. cc, verify_all-AllEstablished (c ∷ cs) prior w h)
