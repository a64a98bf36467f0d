-- ===== src/Inbox/Store.antt =====
-- src/db/sqlite_inbox.go: the table of messages, by its SQL. The rows stand in the order of their
-- ids, which is the order of the queue; `now` is the clock's answer. A call that the database fails
-- is left to the caller: it answers with an error.
pub mod Order
pub mod Rows
pub mod Ended
pub mod Claim
pub mod Fifo
use autonomy.Base.{
  ℕ, suc, ◌+◌, Bool, true, false, ◌&&◌, ◌||◌, List, [], ◌∷◌, ◌++◌, Option, none, some, ltb, ◌==◌,
  if◌then◌else◌, length, keep, map, Result, ok, err,
}
use autonomy.Text.{Str}
use autonomy.Inbox.Message.{
  AgentMessage, MessageStatus, unset, queued, running, done, is_queued_status, is_running_status,
}

pub record Table : Type 0 where
  pub rows : List AgentMessage
  pub last_id : ℕ

pub data StoreError : Type 0 where
  no_agent database_failed : StoreError

abbrev pub or_queued : MessageStatus → MessageStatus
or_queued unset = queued
or_queued s = s

abbrev pub or_done : MessageStatus → MessageStatus
or_done unset = done
or_done s = s

abbrev pub or_now : ℕ → Option ℕ → Option ℕ
or_now now none = some now
or_now now (some t) = some t

-- The row that `INSERT` writes.
abbrev pub new_row : ℕ → ℕ → AgentMessage → AgentMessage
new_row now id msg = record msg {
  id = id;
  status = or_queued msg.status;
  error = [];
  created_at = or_now now msg.created_at;
  started_at = none;
  ended_at = none;
}

abbrev pub with_row : AgentMessage → Table → Table
with_row row t = record { rows = t.rows ++ row ∷ []; last_id = suc t.last_id }

-- `INSERT`: the key is AUTOINCREMENT, so an id is never used again.
unfoldable pub enqueue_message : ℕ → AgentMessage → Table → Result StoreError (ℕ × Table)
enqueue_message now msg t =
    if msg.agent_id == 0
    then err no_agent
    else ok (suc t.last_id, with_row (new_row now (suc t.last_id) msg) t)

-- `agent_id = ? AND status = 'queued'`.
unfoldable pub waits_for : ℕ → AgentMessage → Bool
waits_for agent m = m.agent_id == agent && is_queued_status m.status

-- `agent_id = ? AND status = 'running'`.
unfoldable pub runs_for : ℕ → AgentMessage → Bool
runs_for agent m = m.agent_id == agent && is_running_status m.status

-- The row with an id, if it has a status.
unfoldable pub is_waiting : ℕ → AgentMessage → Bool
is_waiting id m = m.id == id && is_queued_status m.status

unfoldable pub is_taken : ℕ → AgentMessage → Bool
is_taken id m = m.id == id && is_running_status m.status

-- `SELECT … ORDER BY id LIMIT 1`.
unfoldable pub first_row : (AgentMessage → Bool) → List AgentMessage → Option AgentMessage
first_row p [] = none
first_row p (m ∷ ms) = if p m then some m else first_row p ms

-- `UPDATE … WHERE`.
unfoldable pub update_rows :
    (AgentMessage → Bool) → (AgentMessage → AgentMessage) → List AgentMessage → List AgentMessage
update_rows p f [] = []
update_rows p f (m ∷ ms) = (if p m then f m else m) ∷ update_rows p f ms

abbrev pub start_at : ℕ → AgentMessage → AgentMessage
start_at now m = record m { status = running; started_at = some now }

abbrev pub put_back : AgentMessage → AgentMessage
put_back m = record m { status = queued; started_at = none }

-- The guarded `UPDATE` of `ClaimNextMessage`, with the row it affected; `none` where the message
-- was not queued any more.
unfoldable pub claim_row : ℕ → ℕ → Table → Option (AgentMessage × Table)
claim_row now id t = elim (first_row (is_waiting id) t.rows) [
  | none ↦ none
  | some m ↦
      some (start_at now m, record t { rows = update_rows (is_waiting id) (start_at now) t.rows })
]

unfoldable pub claim_next_message : ℕ → ℕ → Table → Option (AgentMessage × Table)
claim_next_message now agent t =
    if agent == 0
    then none
    else elim (first_row (waits_for agent) t.rows) [ none ↦ none | some m ↦ claim_row now m.id t ]

abbrev pub end_with : ℕ → MessageStatus → Str → AgentMessage → AgentMessage
end_with now status text m = record m { status = or_done status; error = text; ended_at = some now }

unfoldable pub finish_agent_message : ℕ → ℕ → MessageStatus → Str → Table → Table
finish_agent_message now id status text t = record t {
  rows = update_rows (λ m. m.id == id) (end_with now status text) t.rows;
}

unfoldable pub requeue_running_messages : ℕ → Table → Table
requeue_running_messages agent t =
    if agent == 0 then t else record t { rows = update_rows (runs_for agent) put_back t.rows }

unfoldable pub requeue_message : ℕ → Table → Table
requeue_message id t =
    if id == 0 then t else record t { rows = update_rows (is_taken id) put_back t.rows }

unfoldable pub count_queued_messages : ℕ → Table → ℕ
count_queued_messages agent t = if agent == 0 then 0 else length (keep (waits_for agent) t.rows)

-- `agent_id = ? AND id < ? AND status IN ('queued', 'running')`.
unfoldable pub is_ahead : ℕ → ℕ → AgentMessage → Bool
is_ahead agent id m =
    m.agent_id == agent && ltb m.id id && (is_queued_status m.status || is_running_status m.status)

unfoldable pub count_messages_ahead : ℕ → ℕ → Table → ℕ
count_messages_ahead agent id t =
    if agent == 0 || id == 0 then 0 else length (keep (is_ahead agent id) t.rows)
