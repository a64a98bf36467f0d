-- ===== src/Cycle/Contract.antt =====
-- src/completion_contract.go and src/db/sqlite_verification.go: the contract that a task keeps.
use autonomy.Base.{
  ℕ, suc, Bool, ◌||◌, List, [], ◌∷◌, Option, none, some, if◌then◌else◌, ◌==◌, ltb, is_nil, any,
}
use autonomy.Text.{Str, is_blank}
use autonomy.Decision.{Criterion}
use autonomy.Plan.Run.{Task}

-- A row of completion_contract; `criterion` is the criterion's own JSON.
pub record ContractRow : Type 0 where
  pub idx : ℕ
  pub plan_id : ℕ
  pub name : Str
  pub criterion : Str

-- `ORDER BY idx`.
unfoldable pub place_row : ContractRow → List ContractRow → List ContractRow
place_row row [] = row ∷ []
place_row row (r ∷ rows) = if ltb row.idx r.idx then row ∷ r ∷ rows else r ∷ place_row row rows

-- `INSERT OR IGNORE`, where a task has an index once.
unfoldable pub insert_row : ContractRow → List ContractRow → List ContractRow
insert_row row rows = if any (λ r. r.idx == row.idx) rows then rows else place_row row rows

-- The loop of pinCompletionContract from index `i`; `fails` is where the store fails, which is only
-- logged.
unfoldable pub pin_rows : (ℕ → Bool) → ℕ → ℕ → List Criterion → List ContractRow → List ContractRow
pin_rows fails plan i [] rows = rows
pin_rows fails plan i (c ∷ cs) rows =
    let row : ContractRow = record { idx = i; plan_id = plan; name = c.name; criterion = c.raw } in
    pin_rows fails plan (suc i) cs (if fails i then rows else insert_row row rows)

abbrev pub task_id_of : Task → Str
task_id_of none = []
task_id_of (some id) = id

unfoldable pub pin_completion_contract :
    (ℕ → Bool) → Task → ℕ → List Criterion → List ContractRow → List ContractRow
pin_completion_contract fails task plan cs rows =
    if is_blank (task_id_of task) || is_nil cs then rows else pin_rows fails plan 1 cs rows

abbrev pub default_name : Str → Criterion → Criterion
default_name name c = if is_blank c.name then record c { name = name } else c

-- pinnedCompletionContract over the task's rows; `parse` is parseCriterion.
unfoldable pub read_rows : (Str → Option Criterion) → List ContractRow → List Criterion
read_rows parse [] = []
read_rows parse (r ∷ rows) = elim (parse r.criterion) [
  | none ↦ read_rows parse rows
  | some c ↦ default_name r.name c ∷ read_rows parse rows
]

unfoldable pub pinned_completion_contract :
    (Str → Option Criterion) → Task → List ContractRow → List Criterion
pinned_completion_contract parse task rows =
    if is_blank (task_id_of task) then [] else read_rows parse rows
