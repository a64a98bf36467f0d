-- ===== src/Graceful/Resume.antt =====
-- src/stop_reason.go and src/graceful.go: which tasks a new process takes up again.
use autonomy.Base.{
  ℕ, ◌≡◌, refl, Bool, true, false, List, [], ◌∷◌, Option, none, any, arith, Bool-cases, inl, inr,
}
use autonomy.Text.{Str, contains, index, strip_prefix, is_blank}
use autonomy.Inbox.Message.{AgentMessage, is_running_status}
use autonomy.Loop.{StopReason, by_user, by_runtime, error_text, stopped}
use autonomy.Graceful.{
  TaskRow, is_runtime_stop_record, resumable_after_cut, is_accepted, is_interrupted, is_cut,
  latest_cut, interrupted_run_since,
}

abbrev pub is_by_runtime : StopReason → Bool
is_by_runtime by_user = false
is_by_runtime (by_runtime r d v) = true

-- The row of a task that was stopped for a reason.
abbrev pub stopped_row : Str → ℕ → StopReason → TaskRow
stopped_row id agent reason = record {
  id = id;
  agent_id = agent;
  status = stopped;
  error = error_text reason;
}

-- A task that was stopped may be taken up after a restart exactly when the runtime itself stopped it,
-- whatever the restart's request was called.
pub resumable_after_cut_iff :
    (id : Str) (agent : ℕ) (reason : StopReason)
    → resumable_after_cut (stopped_row id agent reason) ≡ is_by_runtime reason
unfolding resumable_after_cut is_runtime_stop_record error_text contains index strip_prefix
resumable_after_cut_iff id agent by_user = refl
resumable_after_cut_iff id agent (by_runtime r d v) = elim (Bool-cases (is_blank r)) [
  | inl b ↦ rw b refl
  | inr b ↦ rw b refl
]

no_cut :
    (task : Str) (at : Option ℕ) (ms : List AgentMessage)
    → any (λ m. is_running_status m.status) ms ≡ false
    → latest_cut task at ms ≡ at
unfolding latest_cut any is_cut
no_cut task at [] h = refl
no_cut task at (m ∷ ms) h = ground (arith, no_cut task at ms)

-- On the same messages: a task whose agent is started for those that wait has no run that was cut.
pub is_accepted-is_interrupted :
    (now max_age : ℕ) (t : TaskRow) (ms : List AgentMessage)
    → is_accepted t ms ≡ true
    → is_interrupted now max_age t ms ≡ false
unfolding is_accepted is_interrupted interrupted_run_since
is_accepted-is_interrupted now max_age t ms h = ground (arith, no_cut t.id none ms)
