-- ===== src/Inbox/Queue.antt =====
-- src/inbox.go: the queue of one agent, as the goroutines that work on it. A step is what a
-- goroutine does between two points where another may run: a section under the lock, or one call
-- of the store. `running`, `reclaim`, `gen`, `held` and `waiters` of the source are maps by agent or
-- message; what is here is their part for the one agent.
pub mod Mutex
pub mod Wake
pub mod Awake
pub mod Forgotten
use autonomy.Base.{
  ℕ, zero, suc, ◌+◌, Bool, true, false, not, ◌&&◌, ◌||◌, List, [], ◌∷◌, ◌++◌, Option, none, some,
  ◌==◌, if◌then◌else◌, keep, any, Result, ok, err,
}
use autonomy.Text.{Str}
use autonomy.Inbox.Message.{AgentMessage, MessageStatus, done, failed, stopped, is_new_run_kind}
use autonomy.Inbox.Store.{
  Table, StoreError, enqueue_message, claim_next_message, finish_agent_message,
  requeue_running_messages, requeue_message, count_queued_messages,
}

-- What all goroutines share. `paused` is what the runtime's drain answers.
pub record Shared : Type 0 where
  pub table : Table
  pub running : Bool
  pub reclaimed : Bool
  pub gen : ℕ
  pub held : Bool
  pub paused : Bool
  pub waiters : List ℕ

-- How a message's handler ended, and whether its context was cancelled by then.
pub data Outcome : Type 0 where
  succeeded : Outcome
  failed_with cancelled_with : Str → Outcome

-- Where a goroutine is. The first two are in `start`; the others are a consumer, with the value of
-- `gen` that it was started with.
pub data Thread : Type 0 where
  starting registering : Thread
  beginning reclaiming claiming checking ending : ℕ → Thread
  holding requeueing processing : ℕ → AgentMessage → Thread
  handling : ℕ → AgentMessage → Bool → Thread
  finishing : ℕ → AgentMessage → Bool → Outcome → Thread

-- What a call of the store meets: it works, or it fails before or after it changed the table.
pub data Fault : Type 0 where
  none_met fails_before fails_after : Fault

-- What lies outside the program in one step.
pub record Choice : Type 0 where
  pub now : ℕ
  pub fault : Fault
  pub outcome : Outcome

abbrev pub ended_as : Outcome → MessageStatus × Str
ended_as succeeded = (done, [])
ended_as (failed_with text) = (failed, text)
ended_as (cancelled_with text) = (stopped, text)

-- The table after a call that may fail: `changed` is what the call makes of it.
abbrev pub after_call : Fault → Table → Table → Table
after_call none_met t changed = changed
after_call fails_before t changed = t
after_call fails_after t changed = changed

abbrev pub has_failed : Fault → Bool
has_failed none_met = false
has_failed fails_before = true
has_failed fails_after = true

unfoldable pub has_waiter : ℕ → List ℕ → Bool
has_waiter id ws = any (λ w. w == id) ws

-- `delete(i.waiters, id)`.
unfoldable pub without : ℕ → List ℕ → List ℕ
without id ws = keep (λ w. not (w == id)) ws

-- Where a consumer goes with a message that it took.
abbrev pub take_up : ℕ → AgentMessage → Thread
take_up g m = if is_new_run_kind m.kind then holding g m else processing g m

-- `ClaimNextMessage` in the loop of `drain`. A call that fails ends the consumer, whether or not
-- the message was already marked.
unfoldable pub claim_step :
    ℕ → Fault → Option (AgentMessage × Table) → Shared → List Thread × Shared
claim_step g none_met none sh = (ending g ∷ [], sh)
claim_step g none_met (some (m, t)) sh = (take_up g m ∷ [], record sh { table = t })
claim_step g fails_before o sh = (ending g ∷ [], sh)
claim_step g fails_after none sh = (ending g ∷ [], sh)
claim_step g fails_after (some (m, t)) sh = (ending g ∷ [], record sh { table = t })

pub record Sys : Type 0 where
  pub threads : List Thread
  pub shared : Shared

abbrev pub with_waiter : Bool → ℕ → List ℕ → List ℕ
with_waiter true id ws = id ∷ ws
with_waiter false id ws = ws

-- `resumePaused`.
unfoldable pub resume_paused : Sys → Sys
resume_paused s =
    if s.shared.held
    then record { threads = starting ∷ s.threads; shared = record (s.shared) { held = false } }
    else s

abbrev pub set_paused : Bool → Sys → Sys
set_paused b s = record s { shared = record (s.shared) { paused = b } }

-- `boots` is a call of `start` from the outside: what a process that has just started does for an agent
-- that has work.
pub data Event : Type 0 where
  steps : ℕ → Choice → Event
  enqueues : ℕ → AgentMessage → Bool → Event
  pauses unpauses resumes boots : Event

-- A process that has just started, over the table that it finds.
unfoldable pub new_inbox : Table → Sys
new_inbox t = record {
  threads = [];
  shared = record {
    table = t;
    running = false;
    reclaimed = false;
    gen = 0;
    held = false;
    paused = false;
    waiters = [];
  };
}

module _ (agent : ℕ) where
  abbrev pub claim : Choice → Shared → Option (AgentMessage × Table)
  claim c sh = claim_next_message c.now agent sh.table

  -- `queueIsDry`: a count that fails is read as dry.
  unfoldable pub is_dry : Fault → Shared → Bool
  is_dry fault sh = has_failed fault || count_queued_messages agent sh.table == 0

  -- One step of a goroutine: what becomes of it, and of what is shared.
  unfoldable pub act : Choice → Thread → Shared → List Thread × Shared
  act c starting sh = if sh.paused then ([], record sh { held = true }) else (registering ∷ [], sh)
  act c registering sh =
      if sh.running then ([], sh) else (beginning sh.gen ∷ [], record sh { running = true })
  act c (beginning g) sh =
      if sh.reclaimed
      then (claiming g ∷ [], sh)
      else (reclaiming g ∷ [], record sh { reclaimed = true })
  act c (reclaiming g) sh = (
    claiming g ∷ [],
    record sh { table = after_call c.fault sh.table (requeue_running_messages agent sh.table) },
  )
  act c (claiming g) sh = claim_step g c.fault (claim c sh) sh
  act c (holding g m) sh =
      if sh.paused
      then (requeueing g m ∷ [], record sh { held = true })
      else (processing g m ∷ [], sh)
  act c (requeueing g m) sh = (
    ending g ∷ [],
    record sh { table = after_call c.fault sh.table (requeue_message m.id sh.table) },
  )
  act c (processing g m) sh = (
    handling g m (has_waiter m.id sh.waiters) ∷ [],
    record sh { waiters = without m.id sh.waiters },
  )
  act c (handling g m waited) sh = (finishing g m waited c.outcome ∷ [], sh)
  act c (finishing g m waited o) sh =
      let (status, text) = ended_as o in
      (
        if waited then checking g ∷ [] else claiming g ∷ [],
        record sh {
          table =
              after_call c.fault sh.table (finish_agent_message c.now m.id status text sh.table);
        },
      )
  act c (checking g) sh = (if is_dry c.fault sh then ending g ∷ [] else claiming g ∷ [], sh)
  act c (ending g) sh = (if sh.gen == g then [] else starting ∷ [], record sh { running = false })

  -- The goroutine at a position takes a step; a position that holds none changes nothing.
  unfoldable pub act_at : ℕ → Choice → List Thread → Shared → List Thread × Shared
  act_at k c [] sh = ([], sh)
  act_at zero c (t ∷ ts) sh = let (us, sh') = act c t sh in (us ++ ts, sh')
  act_at (suc k) c (t ∷ ts) sh = let (us, sh') = act_at k c ts sh in (t ∷ us, sh')

  -- `enqueue`: the message is written, the waiter registered and `gen` bumped under one lock, and
  -- the caller goes on into `start`. A message that the store refuses leaves nothing.
  unfoldable pub enqueue : ℕ → AgentMessage → Bool → Sys → Sys
  enqueue now msg waits s =
      elim (enqueue_message now (record msg { agent_id = agent }) s.shared.table) [
        | err e ↦ s
        | ok (id, t) ↦ record {
          threads = starting ∷ s.threads;
          shared = record (s.shared) {
            table = t;
            waiters = with_waiter waits id s.shared.waiters;
            gen = suc s.shared.gen;
          };
        }
      ]

  unfoldable pub step : Event → Sys → Sys
  step (steps k c) s =
      let (ts, sh) = act_at k c s.threads s.shared in record { threads = ts; shared = sh }
  step (enqueues now msg waits) s = enqueue now msg waits s
  step pauses s = set_paused true s
  step unpauses s = set_paused false s
  step resumes s = resume_paused s
  step boots s = record s { threads = starting ∷ s.threads }

  -- An interleaving of the goroutines, the callers and the drain.
  unfoldable pub run : List Event → Sys → Sys
  run [] s = s
  run (e ∷ es) s = run es (step e s)
