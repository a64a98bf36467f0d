-- ===== src/Verify/History.antt =====
-- src/verification.go: `taskStepOutputs`, what a task's steps have produced. The rows are those of
-- the task's plans, in the order in which the store lists them, the plans that it cannot read left
-- out; an output is the object that its JSON denotes.
pub mod Latest
use autonomy.Base.{
  Bool, true, false, not, ◌&&◌, ◌||◌, List, [], ◌∷◌, ◌++◌, Option, none, some, if◌then◌else◌,
}
use autonomy.Text.{Str, codes, str_eq, trim_space, is_blank}
use autonomy.Dict.{Dict}
use autonomy.Plan.World.{ActionResult}

-- The columns of a row of execution_step that are read.
pub record StepRow : Type 0 where
  pub name : Str
  pub status : Str
  pub capability : Str
  pub output : Dict Str

abbrev pub ok_status : Str
ok_status = codes "ok"

abbrev pub row_record : StepRow → ActionResult
row_record r = record {
  capability = r.capability;
  step_name = trim_space r.name;
  input = [];
  output = r.output;
  error = none;
  expected_effect = [];
  evidence_refs = [];
}

-- `out[i] = record` where the name was seen, else `append`.
unfoldable pub put_record : ActionResult → List ActionResult → List ActionResult
put_record r [] = r ∷ []
put_record r (s ∷ out) = if str_eq s.step_name r.step_name then r ∷ out else s ∷ put_record r out

abbrev pub is_skipped : StepRow → Bool
is_skipped r = is_blank r.name || not (str_eq r.status ok_status)

unfoldable pub add_row : List ActionResult → StepRow → List ActionResult
add_row out r = if is_skipped r then out else put_record (row_record r) out

-- The loop over the steps of the plans.
unfoldable pub add_rows : List ActionResult → List StepRow → List ActionResult
add_rows out [] = out
add_rows out (r ∷ rs) = add_rows (add_row out r) rs

unfoldable pub task_step_outputs : List StepRow → List ActionResult
task_step_outputs rows = add_rows [] rows
