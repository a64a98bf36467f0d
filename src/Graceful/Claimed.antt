-- ===== src/Graceful/Claimed.antt =====
-- src/graceful.go and src/inbox.go: a task that is taken up while a consumer that was just started
-- works on its messages.
use autonomy.Base.{
  ℕ, ◌-◌, ◌≤◌, ◌≡◌, refl, sym, subst, Bool, true, false, List, [], ◌∷◌, none, some, any, keep,
  arith, Bool-cases, inl, inr, ◌==◌, ◌⊎◌,
}
use autonomy.Text.{Str}
use autonomy.Text.Laws.{str_eq_refl}
use autonomy.Inbox.Message.{AgentMessage, is_running_status}
use autonomy.Inbox.Store.{
  Table, first_row, update_rows, waits_for, is_waiting, start_at, claim_next_message,
}
use autonomy.Inbox.Store.Order.{IsTable}
use autonomy.Inbox.Store.Claim.{claim-inv}
use autonomy.Graceful.Resume.{is_accepted-is_interrupted}
use autonomy.Graceful.{
  TaskRow, is_accepted, is_interrupted, is_cut, cut_time, latest_cut, interrupted_run_since,
  resumable_after_cut,
}

-- ListAgentMessages of an agent.
abbrev pub messages_of : ℕ → Table → List AgentMessage
messages_of agent t = keep (λ m. m.agent_id == agent) t.rows

-- A message that counts as a task's.
abbrev pub IsOf : Str → AgentMessage → Type 0
IsOf task m = (task ≡ []) ⊎ ((m.task_id ≡ []) ⊎ (m.task_id ≡ task))

abbrev no_run : List AgentMessage → Bool
no_run ms = any (λ m. is_running_status m.status) ms

-- Once a message was taken up at `now`, that is the latest cut, whichever others were taken up then.
latest_cut-some :
    (now agent k : ℕ) (task : Str) (ms : List AgentMessage)
    → no_run (keep (λ m. m.agent_id == agent) ms) ≡ false
    → latest_cut task
        (some now)
        (keep (λ m. m.agent_id == agent) (update_rows (is_waiting k) (start_at now) ms))
      ≡ some now
unfolding latest_cut keep update_rows any is_cut cut_time
latest_cut-some now agent k task [] h = refl
latest_cut-some now agent k task (m ∷ ms) h = ground (arith, h, latest_cut-some now agent k task ms)

is_cut-IsOf :
    (now : ℕ) (task : Str) (m : AgentMessage) → IsOf task m → is_cut task (start_at now m) ≡ true
unfolding is_cut
is_cut-IsOf now task m (inl e) = rw e refl
is_cut-IsOf now task m (inr (inl e)) = ground (arith, e)
is_cut-IsOf now task m (inr (inr e)) = ground (arith, str_eq_refl task, e)

waits_for-is_waiting :
    (agent : ℕ) (m : AgentMessage)
    → waits_for agent m ≡ true
    → ((m.agent_id == agent) ≡ true) × (is_waiting m.id m ≡ true)
unfolding waits_for is_waiting
waits_for-is_waiting agent m h = ground arith

not_waiting :
    (agent k : ℕ) (m : AgentMessage)
    → waits_for agent m ≡ false
    → (m.agent_id == agent) ≡ true
    → is_waiting k m ≡ false
unfolding waits_for is_waiting
not_waiting agent k m h mine = ground arith

latest_cut-first :
    (now agent : ℕ) (task : Str) (m : AgentMessage) (ms : List AgentMessage)
    → no_run (keep (λ m. m.agent_id == agent) (m ∷ ms)) ≡ false
    → waits_for agent m ≡ true
    → IsOf task m
    → latest_cut task none
        (keep (λ m. m.agent_id == agent) (update_rows (is_waiting m.id) (start_at now) (m ∷ ms)))
      ≡ some now
unfolding latest_cut keep update_rows any cut_time
latest_cut-first now agent task m ms h w of =
    let (mine, waiting) = waits_for-is_waiting agent m w in
    let cut = is_cut-IsOf now task m of in
    let rest = latest_cut-some now agent m.id task ms (ground (arith, h, mine)) in
    ground (arith, waiting, mine, cut, rest)

latest_cut-claimed :
    (now agent : ℕ) (task : Str) (ms : List AgentMessage) (q : AgentMessage)
    → no_run (keep (λ m. m.agent_id == agent) ms) ≡ false
    → first_row (waits_for agent) ms ≡ some q
    → IsOf task q
    → latest_cut task none
        (keep (λ m. m.agent_id == agent) (update_rows (is_waiting q.id) (start_at now) ms))
      ≡ some now
unfolding latest_cut keep update_rows any first_row
latest_cut-claimed now agent task [] q h e of = absurd (ground (arith, e))
latest_cut-claimed now agent task (m ∷ ms) q h e of = elim (Bool-cases (waits_for agent m)) [
  | inl b ↦
      let same : m ≡ q = ground (arith, b, e) in
      subst
        (λ k.
          latest_cut task none (
            keep (λ m. m.agent_id == agent) (update_rows (is_waiting k.id) (start_at now) (m ∷ ms)))
          ≡ some now)
        same (latest_cut-first now agent task m ms h b (subst (IsOf task) (sym same) of))
  | inr b ↦
      let rest = latest_cut-claimed now agent task ms q in
      elim (Bool-cases (m.agent_id == agent)) [
        | inl mine ↦
            let later_cut = rest (ground (arith, h, mine)) (ground (arith, e, b)) of in
            let still = not_waiting agent q.id m b mine in
            let idle : is_cut task m ≡ false = unfold is_cut in ground (arith, h, mine) in
            ground (arith, mine, still, idle, later_cut)
        | inr other ↦
            let later_cut = rest (ground (arith, h, other)) (ground (arith, e, b)) of in
            ground (arith, other, later_cut)
      ]
]

accepted-parts :
    (task : TaskRow) (ms : List AgentMessage)
    → is_accepted task ms ≡ true
    → (no_run ms ≡ false) × ((task.agent_id == 0) ≡ false) × (resumable_after_cut task ≡ true)
unfolding is_accepted resumable_after_cut
accepted-parts task ms h = ground arith

-- A task whose agent is started for the messages that wait has no run that was cut, while its messages
-- stay as they are. Once its consumer has claimed one of them, which counts as the task's, the task
-- has such a run: the second look takes up what the first has started. (The table is in order, and the
-- second look comes within the age that is allowed.)
pub is_accepted-claim :
    (now later_on max_age : ℕ) (task : TaskRow) (t t' : Table) (m : AgentMessage)
    → IsTable t
    → is_accepted task (messages_of task.agent_id t) ≡ true
    → claim_next_message now task.agent_id t ≡ some (m, t')
    → IsOf task.id m
    → later_on - now ≤ max_age
    → (is_interrupted later_on max_age task (messages_of task.agent_id t) ≡ false)
      × (is_interrupted later_on max_age task (messages_of task.agent_id t') ≡ true)
unfolding is_interrupted interrupted_run_since
is_accepted-claim now later_on max_age task t t' m sound h e of young =
    let (idle, agent, resumable) = accepted-parts task (messages_of task.agent_id t) h in
    let (q, oldest, same, after) = claim-inv now task.agent_id t t' m sound e in
    let cut =
      latest_cut-claimed now task.agent_id task.id t.rows q idle oldest
        (subst (IsOf task.id) same of) in
    (
      is_accepted-is_interrupted later_on max_age task (messages_of task.agent_id t) h,
      rw (after, cut, agent, resumable) (ground (arith, young)),
    )
