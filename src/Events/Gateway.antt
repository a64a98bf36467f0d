-- ===== src/Events/Gateway.antt =====
-- src/eventgateway/gateway.go: Ingest, from an envelope to the log.
pub mod Once
use autonomy.Base.{
  ℕ, Bool, true, false, List, [], ◌∷◌, ◌++◌, reverse, Option, none, some, if◌then◌else◌, Result, ok,
  err, ◌>>=◌, is_nil,
}
use autonomy.Text.{Str}
use autonomy.Events.{Envelope, WorldEvent, EventError, no_adapter, gateway_off, normalize_canonical}
use autonomy.Events.Log.{MemoryLog, Appended, append, new_memory_log}

pub record Adapter (Payload : Type 0) : Type 0 where
  pub matches : Envelope Payload → Bool
  pub normalize : Envelope Payload → Result EventError (WorldEvent Payload)

pub record Gateway (Payload : Type 0) : Type 0 where
  pub log : MemoryLog Payload
  pub adapters : List (Adapter Payload)

-- What lies outside a call: the clock, and the id that is made for the event.
pub record Stamp : Type 0 where
  pub now : ℕ
  pub new_id : Str

abbrev pub or_time : Option ℕ → ℕ → Option ℕ
or_time none now = some now
or_time (some t) now = some t

module _ {Payload : Type 0} where
  unfoldable pub canonical_adapter : Adapter Payload
  canonical_adapter = record { matches = λ env. true; normalize = normalize_canonical }

  -- `New`: `WithAdapter` puts an adapter in front of those before it.
  unfoldable pub new_gateway : List (Adapter Payload) → Gateway Payload
  new_gateway given = record {
    log = new_memory_log;
    adapters = reverse given ++ (canonical_adapter ∷ []);
  }

  unfoldable pub normalize_with :
      List (Adapter Payload) → Envelope Payload → Result EventError (WorldEvent Payload)
  normalize_with [] env = err (no_adapter env.source env.type)
  normalize_with (a ∷ rest) env = if a.matches env then a.normalize env else normalize_with rest env

  abbrev pub or_payload : Option Payload → Payload → Option Payload
  or_payload none empty = some empty
  or_payload (some p) empty = some p

  -- What Ingest fills in; `empty` is the payload without a field.
  unfoldable pub stamp : Payload → Stamp → WorldEvent Payload → WorldEvent Payload
  stamp empty at ev = record ev {
    occurred_at = or_time ev.occurred_at at.now;
    received_at = some at.now;
    id = if is_nil ev.id then at.new_id else ev.id;
    payload = or_payload ev.payload empty;
  }

  -- `none` is a runtime whose gateway is off.
  unfoldable pub ingest :
      Payload
      → Stamp
      → Envelope Payload
      → Option (Gateway Payload)
      → Result EventError (Appended Payload)
  ingest empty at env none = err gateway_off
  ingest empty at env (some g) =
      normalize_with g.adapters env >>= λ ev. ok (append (stamp empty at ev) g.log)

  -- The gateway after an Ingest that was not refused.
  abbrev pub with_log : Gateway Payload → Appended Payload → Gateway Payload
  with_log g a = record g { log = a.log }
