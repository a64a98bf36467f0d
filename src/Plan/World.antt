-- ===== src/Plan/World.antt =====
-- src/asset.go as src/plan_lineage.go reads it, and the records of the steps that have run
-- (`ActionResult` of src/decision.go).
use autonomy.Base.{List, Option}
use autonomy.Text.{Str}
use autonomy.Dict.{Dict}

pub record Asset : Type 0 where
  pub id : Str
  pub kind : Str
  pub state : Str

-- The World Model: assets by id. `none` is a runtime that has none.
abbrev pub Assets : Type 0
Assets = Option (Dict Asset)

-- Why an input has no value.
pub data ResolveError : Type 0 where
  unreadable : Str → ResolveError
  not_reported : Str → Str → ResolveError
  reported_empty : Str → Str → ResolveError
  produced_nothing : Str → ResolveError
  no_world_model : ResolveError
  no_such_asset : Str → ResolveError
  no_such_field : Str → ResolveError

-- Why an action failed.
pub data ActionError : Type 0 where
  factory_not_ready : ActionError
  unknown_capability : Str → ActionError
  unresolved_input : Str → ResolveError → ActionError
  run_failed : Str → ActionError

-- The ids of the rows that a record stands for are left out: the store gives them.
pub record ActionResult : Type 0 where
  pub capability : Str
  pub step_name : Str
  pub input : Dict Str
  pub output : Dict Str
  pub error : Option ActionError
  pub expected_effect : Str
  pub evidence_refs : List Str
