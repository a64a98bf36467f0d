-- ===== src/Inbox/Message.antt =====
-- src/message.go: what is in an inbox.
use autonomy.Base.{ℕ, Bool, true, false, Option}
use autonomy.Text.{Str}

pub data MessageSender : Type 0 where
  user agent system : MessageSender

pub data MessageKind : Type 0 where
  instruction chat approval delegation stop observation : MessageKind

-- `unset` is the empty text.
pub data MessageStatus : Type 0 where
  unset queued running done failed stopped : MessageStatus

-- A time that is not set is `none`.
pub record AgentMessage : Type 0 where
  pub id : ℕ
  pub agent_id : ℕ
  pub task_id : Str
  pub sender : MessageSender
  pub sender_id : Str
  pub kind : MessageKind
  pub content : Str
  pub status : MessageStatus
  pub error : Str
  pub created_at : Option ℕ
  pub started_at : Option ℕ
  pub ended_at : Option ℕ

abbrev pub is_queued_status : MessageStatus → Bool
is_queued_status queued = true
is_queued_status _ = false

abbrev pub is_running_status : MessageStatus → Bool
is_running_status running = true
is_running_status _ = false

-- The kinds that start a decision run, which a drain holds back.
unfoldable pub is_new_run_kind : MessageKind → Bool
is_new_run_kind instruction = true
is_new_run_kind observation = true
is_new_run_kind _ = false
