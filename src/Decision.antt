-- ===== src/Decision.antt =====
-- src/decision.go and the parts of src/action.go, src/plan_input.go and src/completion_contract.go
-- that a decision is made of. `Deliverables`, `Presentation` and
-- `Ctx` of a decision are read by nothing that is modelled.
pub mod Detail
pub mod Steps
pub mod Needs
pub mod Rules
use autonomy.Base.{
  Result, ok, err, ℕ, suc, Bool, true, false, List, Option, ◌==◌, ◌&&◌, ◌||◌, not, if◌then◌else◌,
}
use autonomy.Text.{Str, codes, str_eq, trim_space, is_blank, canonical, equal_fold}
use autonomy.Dict.{Dict}

-- A step's input: a value, or where the value comes from.
pub record StepInput : Type 0 where
  pub literal : Str
  pub source : Str

abbrev pub literal_input : Str → StepInput
literal_input value = record { literal = value; source = codes "" }

abbrev pub bound_input : Str → StepInput
bound_input source = record { literal = codes ""; source = source }

abbrev pub is_binding : StepInput → Bool
is_binding i = not (is_blank i.source)

pub record CapabilityAction : Type 0 where
  pub name : Str
  pub step_name : Str
  pub inputs : Dict StepInput
  pub expected_effect : Str
  pub evidence_refs : List Str

-- The interface `Action`: its `nil`, and its two implementations.
pub data Action : Type 0 where
  absent : Action
  nothing : Str → Action
  calls : CapabilityAction → Action

pub record DecisionOrigin : Type 0 where
  pub reason_turn_id : ℕ
  pub input_message_id : ℕ
  pub reply_message_id : ℕ

unfoldable pub origin_empty : DecisionOrigin → Bool
origin_empty o = o.reason_turn_id == 0 && o.input_message_id == 0 && o.reply_message_id == 0

pub record Evidence : Type 0 where
  pub id : Str
  pub source : Str
  pub reference : Str
  pub fact : Str

pub record Need : Type 0 where
  pub type : Str
  pub description : Str
  pub options : List Str

-- The check of a criterion: `Check` of the source.
pub record CriterionCheck : Type 0 where
  pub capability : Str
  pub inputs : Dict StepInput

pub record CriterionExpect : Type 0 where
  pub exists : Bool
  pub field : Str
  pub equals : Str

-- `slot` is the field `Source` of `Evidence`.
pub record Criterion : Type 0 where
  pub name : Str
  pub requirement : Str
  pub slot : Str
  pub check : CriterionCheck
  pub expect : CriterionExpect
  pub raw : Str

pub record Decision : Type 0 where
  pub type : Str
  pub reason : Str
  pub origin : DecisionOrigin
  pub evidence : List Evidence
  pub contract : List Criterion
  pub actions : List Action
  pub need : Need

-- What the reasoner hands back: its decision and where it came from.
pub record ReasoningResult : Type 0 where
  pub decision : Decision
  pub origin : DecisionOrigin

abbrev with_origin : ReasoningResult → Decision
with_origin r =
    if origin_empty r.decision.origin then record (r.decision) { origin = r.origin } else r.decision

-- `DecisionMaker.Decide`, with what the reasoner's call answered.
unfoldable pub decide {ℓ} : {E : Type ℓ} → Result E ReasoningResult → Result E Decision
decide (err e) = err e
decide (ok r) = ok (with_origin r)

abbrev pub decision_plan : Str
decision_plan = codes "plan"

abbrev pub decision_done : Str
decision_done = codes "done"

abbrev pub decision_blocked : Str
decision_blocked = codes "blocked"

abbrev pub decision_need_input : Str
decision_need_input = codes "need_input"

unfoldable pub is_done : Decision → Bool
is_done d = equal_fold (trim_space d.type) decision_done

-- `Decision.Concludes`.
unfoldable pub concludes : Decision → Bool
concludes d =
    str_eq (canonical d.type) decision_done
    || str_eq (canonical d.type) decision_blocked
    || str_eq (canonical d.type) decision_need_input

pub data TaskStatus : Type 0 where
  blocked need_input completed : TaskStatus

unfoldable pub task_status_for : Decision → TaskStatus
task_status_for d =
    if str_eq (canonical d.type) decision_blocked
    then blocked
    else if str_eq (canonical d.type) decision_need_input
    then need_input
    else completed
