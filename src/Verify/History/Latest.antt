-- ===== src/Verify/History/Latest.antt =====
-- src/verification.go: `taskStepOutputs`, name by name.
use autonomy.Base.{◌≡◌, List, [], ◌∷◌, Option, none, some, if◌then◌else◌}
use autonomy.Text.{Str, str_eq, trim_space}
use autonomy.Plan.World.{ActionResult}
use autonomy.Plan.Resolve.{record_named}
use autonomy.Verify.History.{StepRow, row_record, is_skipped}

-- The latest of the rows of a name that ended ok, else what was there before.
abbrev pub latest : Str → Option ActionResult → List StepRow → Option ActionResult
latest n before [] = before
latest n before (r ∷ rs) =
    latest n
      (if is_skipped r
        then before
        else if str_eq (trim_space r.name) n
        then some (row_record r)
        else before)
      rs

-- No name twice.
abbrev pub NamesOnce : List ActionResult → Type 0
NamesOnce [] = Unit
NamesOnce (r ∷ rs) = (record_named r.step_name rs ≡ none) × NamesOnce rs
