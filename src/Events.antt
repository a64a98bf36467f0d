-- ===== src/Events.antt =====
-- src/eventgateway: envelopes, events and the adapter that turns the one into the other.
pub mod Log
pub mod Gateway
use autonomy.Base.{
  ℕ, Bool, true, List, [], ◌∷◌, Option, none, some, if◌then◌else◌, Result, ok, err, is_nil,
}
use autonomy.Text.{Str, trim_space, is_blank}

pub record Subject : Type 0 where
  pub task_id : Str
  pub agent_id : Str
  pub asset_id : Str
  pub action_id : Str
  pub project_id : Str

-- A time that is not set is `none`, and so is a payload that is nil.
pub record Envelope (Payload : Type 0) : Type 0 where
  pub source : Str
  pub type : Str
  pub subject : Subject
  pub payload : Option Payload
  pub occurred_at : Option ℕ
  pub idempotency_key : Str

pub record WorldEvent (Payload : Type 0) : Type 0 where
  pub id : Str
  pub source : Str
  pub type : Str
  pub subject : Subject
  pub payload : Option Payload
  pub occurred_at : Option ℕ
  pub received_at : Option ℕ
  pub idempotency_key : Str

-- Why an envelope is not taken.
pub data EventError : Type 0 where
  gateway_off : EventError
  no_source : EventError
  no_type : EventError
  no_adapter : Str → Str → EventError

unfoldable pub trim_subject : Subject → Subject
trim_subject s = record {
  task_id = trim_space s.task_id;
  agent_id = trim_space s.agent_id;
  asset_id = trim_space s.asset_id;
  action_id = trim_space s.action_id;
  project_id = trim_space s.project_id;
}

module _ {Payload : Type 0} where
  unfoldable pub validate : Envelope Payload → Option EventError
  validate env =
      if is_blank env.source
      then some no_source
      else if is_blank env.type
      then some no_type
      else none

  -- `CanonicalAdapter.Normalize` on an envelope that is valid.
  unfoldable pub to_event : Envelope Payload → WorldEvent Payload
  to_event env = record {
    id = [];
    source = trim_space env.source;
    type = trim_space env.type;
    subject = trim_subject env.subject;
    payload = env.payload;
    occurred_at = env.occurred_at;
    received_at = none;
    idempotency_key = trim_space env.idempotency_key;
  }

  abbrev pub unless_invalid :
      Option EventError → WorldEvent Payload → Result EventError (WorldEvent Payload)
  unless_invalid none ev = ok ev
  unless_invalid (some e) ev = err e

  unfoldable pub normalize_canonical : Envelope Payload → Result EventError (WorldEvent Payload)
  normalize_canonical env = unless_invalid (validate env) (to_event env)
