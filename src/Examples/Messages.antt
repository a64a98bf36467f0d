-- ===== src/Examples/Messages.antt =====
-- Messages of an agent, through the store and the queue.
use autonomy.Base.{
  ℕ, any, ◌<◌, ◌⊎◌, ◌≡◌, ◌≤◌, refl, ◌↔◌, true, false, List, [], ◌∷◌, none, some, All, arith,
}
use autonomy.Text.{codes}
use autonomy.Inbox.Message.{
  AgentMessage, is_new_run_kind, user, instruction, chat, unset, queued, running, failed,
}
use autonomy.Inbox.Store.{
  Table, claim_row, claim_next_message, first_row, waits_for, is_waiting, update_rows,
  enqueue_message, is_taken, requeue_running_messages, runs_for, requeue_message, start_at,
}
use autonomy.Inbox.Store.Order.{
  IsTable, Call, enqueues, claims, takes, finishes, puts_back, apply_all,
}
use autonomy.Inbox.Store.Ended.{message, is_ended, message-apply_all}
use autonomy.Inbox.Store.Fifo.{claim-claim_later}
use autonomy.Inbox.Store.Claim.{claim_oldest, claim-none_iff, claim_row_once, requeue-claim}
use autonomy.Inbox.Queue.{
  Choice, none_met, fails_after, succeeded, Event, unpauses, act_at, act, claim_step, enqueue,
  resume_paused, step, steps, enqueues as arrives, pauses, resumes, run, new_inbox,
}
use autonomy.Inbox.Queue.Wake.{waiting, starters}
use autonomy.Inbox.Queue.Forgotten.{no_message_forgotten}
use autonomy.Inbox.Queue.Mutex.{HasOneConsumer, one_consumer}

abbrev pub first : AgentMessage
first = record {
  id = 1;
  agent_id = 7;
  task_id = codes "t";
  sender = user;
  sender_id = [];
  kind = instruction;
  content = codes "start";
  status = queued;
  error = [];
  created_at = some 10;
  started_at = none;
  ended_at = none;
}

abbrev second : AgentMessage
second = record first { id = 2; kind = chat; content = codes "how is it going?" }

abbrev pub two_waiting : Table
two_waiting = record { rows = first ∷ second ∷ []; last_id = 2 }

abbrev none_waiting : Table
none_waiting = record { rows = []; last_id = 2 }

pub two_waiting-IsTable : IsTable two_waiting
two_waiting-IsTable = omega arith

abbrev pub first_taken : Table
first_taken = record { rows = start_at 20 first ∷ second ∷ []; last_id = 2 }

pub first_is_claimed : claim_next_message 20 7 two_waiting ≡ some (start_at 20 first, first_taken)
unfolding claim_next_message claim_row first_row waits_for is_waiting update_rows
first_is_claimed = refl

claim_oldest_example :
    ((start_at 20 first).agent_id ≡ 7)
    × ((start_at 20 first).status ≡ running)
    × All (λ r. waits_for 7 r ≡ true → (start_at 20 first).id ≤ r.id) two_waiting.rows
claim_oldest_example =
    claim_oldest 20 7 two_waiting first_taken (start_at 20 first) two_waiting-IsTable
      first_is_claimed

abbrev both_taken : Table
both_taken = record { rows = start_at 20 first ∷ start_at 21 second ∷ []; last_id = 2 }

second_is_claimed : claim_next_message 21 7 first_taken ≡ some (start_at 21 second, both_taken)
unfolding claim_next_message claim_row first_row waits_for is_waiting update_rows
second_is_claimed = refl

claim-claim_later_example : (start_at 20 first).id < (start_at 21 second).id
claim-claim_later_example =
    claim-claim_later 20 21 7 two_waiting first_taken both_taken (start_at 20 first)
      (start_at 21 second) two_waiting-IsTable first_is_claimed second_is_claimed

claim-none_iff_example :
    (claim_next_message 20 7 two_waiting ≡ none) ↔ All (λ r. waits_for 7 r ≡ false) two_waiting.rows
claim-none_iff_example = claim-none_iff 20 7 two_waiting (λ e. cc) two_waiting-IsTable

row_is_taken : claim_row 20 1 two_waiting ≡ some (start_at 20 first, first_taken)
unfolding claim_row first_row is_waiting update_rows
row_is_taken = refl

claim_row_once_example : claim_row 21 1 first_taken ≡ none
claim_row_once_example =
    claim_row_once 20 21 1 two_waiting first_taken (start_at 20 first) row_is_taken

requeue-claim_example :
    (m' : AgentMessage) × (t'' : Table) × (claim_next_message 30 7 (requeue_message 1 first_taken)
      ≡ some (m', t''))
    × (m'.id ≡ 1)
requeue-claim_example =
    requeue-claim 20 30 7 two_waiting first_taken (start_at 20 first) two_waiting-IsTable
      first_is_claimed

abbrev a_new_message : AgentMessage
a_new_message = record first { id = 0; status = unset }

-- The first is claimed, fails and is put back too late; its claim is repeated by an old read.
first_is_there : message 1 two_waiting ≡ some first
unfolding first_row
first_is_there = refl

abbrev a_failed_run : List (ℕ × Call)
a_failed_run =
    (10, enqueues a_new_message)
    ∷ (11, claims 7)
    ∷ (12, finishes 1 failed (codes "lost"))
    ∷ (13, puts_back 1)
    ∷ (14, takes 1)
    ∷ []

message-apply_all_example :
    (m' : AgentMessage) × (message 1 (apply_all a_failed_run two_waiting) ≡ some m')
    × (m'.agent_id ≡ 7)
    × (is_ended m'.status ≡ true)
unfolding any
message-apply_all_example =
    message-apply_all 1 a_failed_run two_waiting first (tt, (tt, (refl, (tt, (tt, tt)))))
      first_is_there

abbrev works : Choice
works = record { now = 20; fault = none_met; outcome = succeeded }

abbrev breaks : Choice
breaks = record { now = 21; fault = fails_after; outcome = succeeded }

-- A message arrives twice before either caller has started the consumer.
abbrev two_callers : List Event
two_callers =
    arrives 20 a_new_message true
    ∷ arrives 20 a_new_message false
    ∷ steps 0 works
    ∷ steps 1 works
    ∷ steps 0 works
    ∷ steps 1 works
    ∷ steps 0 works
    ∷ pauses
    ∷ steps 0 breaks
    ∷ steps 0 works
    ∷ resumes
    ∷ []

one_consumer_example : HasOneConsumer (run 7 two_callers (new_inbox none_waiting))
one_consumer_example = one_consumer 7 none_waiting two_callers

-- A consumer meets the drain with an instruction in hand, and puts it back.
abbrev held_back : List Event
held_back =
    arrives 20 a_new_message false
    ∷ steps 0 works
    ∷ steps 0 works
    ∷ steps 0 works
    ∷ steps 0 works
    ∷ steps 0 works
    ∷ pauses
    ∷ steps 0 works
    ∷ steps 0 works
    ∷ steps 0 works
    ∷ []

held_back-waits :
    let s = run 7 held_back (new_inbox none_waiting) in
    (s.shared.running ≡ false) × (waiting 7 s.shared ≡ true)
unfolding run step new_inbox enqueue enqueue_message act_at act claim_step claim_next_message
    claim_row first_row waits_for is_waiting is_taken update_rows requeue_running_messages runs_for
    requeue_message is_new_run_kind
held_back-waits = (refl, refl)

no_message_forgotten_example :
    let s = run 7 held_back (new_inbox none_waiting) in
    (0 < starters s.threads) ⊎ (s.shared.held ≡ true)
unfolding new_inbox first_row
no_message_forgotten_example =
    no_message_forgotten 7 none_waiting held_back (λ e. cc) (omega arith) refl
      (tt, (refl, (refl, (refl, (refl, (refl, (tt, (refl, (refl, (refl, tt))))))))))
      held_back-waits.0 held_back-waits.1

-- The same, where the drain ends before the consumer has put the message back: the consumer that
-- the drain's end starts finds one running, and the message waits with nobody to take it.
abbrev put_back_late : List Event
put_back_late =
    arrives 20 a_new_message false
    ∷ steps 0 works
    ∷ steps 0 works
    ∷ steps 0 works
    ∷ steps 0 works
    ∷ steps 0 works
    ∷ pauses
    ∷ steps 0 works
    ∷ unpauses
    ∷ resumes
    ∷ steps 0 works
    ∷ steps 0 works
    ∷ steps 0 works
    ∷ steps 0 works
    ∷ []

put_back_late-waits :
    let s = run 7 put_back_late (new_inbox none_waiting) in
    (s.threads ≡ [])
    × (s.shared.running ≡ false)
    × (s.shared.held ≡ false)
    × (s.shared.paused ≡ false)
    × (waiting 7 s.shared ≡ true)
unfolding run step new_inbox enqueue enqueue_message act_at act claim_step claim_next_message
    claim_row first_row waits_for is_waiting is_taken update_rows requeue_running_messages runs_for
    requeue_message is_new_run_kind resume_paused
put_back_late-waits = (refl, refl, refl, refl, refl)
