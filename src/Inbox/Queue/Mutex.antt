-- ===== src/Inbox/Queue/Mutex.antt =====
-- src/inbox.go: the flag `running` and the consumers.
use autonomy.Base.{
  ℕ, zero, suc, ◌+◌, ◌≤◌, ◌≡◌, refl, List, [], ◌∷◌, ◌++◌, Option, none, some, arith, if◌then◌else◌,
}
use autonomy.Inbox.Message.{AgentMessage}
use autonomy.Inbox.Store.{Table}
use autonomy.Inbox.Queue.{
  Shared, Thread, starting, registering, beginning, reclaiming, claiming, checking, ending, holding,
  requeueing, processing, handling, finishing, Choice, Fault, none_met, fails_before, fails_after,
  Sys, Event, steps, enqueues, pauses, unpauses, resumes, boots, claim, claim_step, act, act_at,
  enqueue, resume_paused, step, run, new_inbox,
}

-- Whether a goroutine is a consumer, as a number.
abbrev pub weight : Thread → ℕ
weight starting = 0
weight registering = 0
weight (beginning g) = 1
weight (reclaiming g) = 1
weight (claiming g) = 1
weight (checking g) = 1
weight (ending g) = 1
weight (holding g m) = 1
weight (requeueing g m) = 1
weight (processing g m) = 1
weight (handling g m w) = 1
weight (finishing g m w o) = 1

abbrev pub consumers : List Thread → ℕ
consumers [] = 0
consumers (t ∷ ts) = weight t + consumers ts

abbrev pub flag : Shared → ℕ
flag sh = if sh.running then 1 else 0

consumers-append : (ts us : List Thread) → consumers (ts ++ us) ≡ consumers ts + consumers us
consumers-append [] us = omega arith
consumers-append (t ∷ ts) us = omega (arith, consumers-append ts us)

pub claim_step-weight :
    (g : ℕ) (fault : Fault) (o : Option (AgentMessage × Table)) (sh : Shared)
    → (consumers (claim_step g fault o sh).0 ≡ 1) × (flag (claim_step g fault o sh).1 ≡ flag sh)
unfolding claim_step
claim_step-weight g none_met none sh = (refl, refl)
claim_step-weight g none_met (some (m, t)) sh = ground arith
claim_step-weight g fails_before o sh = (refl, refl)
claim_step-weight g fails_after none sh = (refl, refl)
claim_step-weight g fails_after (some (m, t)) sh = (refl, refl)

-- The flag `running` says whether there is a consumer, and there is at most one.
abbrev pub HasOneConsumer : Sys → Type 0
HasOneConsumer s = consumers s.threads ≡ flag s.shared

module _ (agent : ℕ) where
  -- A step takes the flag along with the consumer.
  act-weight :
      (c : Choice) (t : Thread) (sh : Shared)
      → weight t ≤ flag sh
      → consumers (act agent c t sh).0 + flag sh ≡ weight t + flag (act agent c t sh).1
  unfolding act
  act-weight c (claiming g) sh h = omega (arith, claim_step-weight g c.fault (claim agent c sh) sh)
  act-weight c starting sh h = ground arith
  act-weight c _ sh h = ground arith

  pub act_at-weight :
      (k : ℕ) (c : Choice) (ts : List Thread) (sh : Shared)
      → consumers ts ≤ flag sh
      → consumers (act_at agent k c ts sh).0 + flag sh
        ≡ consumers ts + flag (act_at agent k c ts sh).1
  unfolding act_at
  act_at-weight k c [] sh h = omega arith
  act_at-weight zero c (t ∷ ts) sh h =
      omega (arith, act-weight c t sh, consumers-append (act agent c t sh).0 ts)
  act_at-weight (suc k) c (t ∷ ts) sh h = omega (arith, act_at-weight k c ts sh)

  pub step-HasOneConsumer :
      (e : Event) (s : Sys) → HasOneConsumer s → HasOneConsumer (step agent e s)
  unfolding step enqueue resume_paused
  step-HasOneConsumer (steps k c) s h =
      omega (arith, act_at-weight k c s.threads s.shared (omega arith))
  step-HasOneConsumer (enqueues now msg waits) s h = ground arith
  step-HasOneConsumer pauses s h = h
  step-HasOneConsumer unpauses s h = h
  step-HasOneConsumer resumes s h = ground arith
  step-HasOneConsumer boots s h = ground arith

  run-HasOneConsumer :
      (es : List Event) (s : Sys) → HasOneConsumer s → HasOneConsumer (run agent es s)
  unfolding run
  run-HasOneConsumer [] s h = h
  run-HasOneConsumer (e ∷ es) s h =
      run-HasOneConsumer es (step agent e s) (step-HasOneConsumer e s h)

  -- In every interleaving of a process's goroutines, whatever the store fails at and whoever pauses
  -- and resumes, the agent has one consumer while `running` is set and none while it is not.
  pub one_consumer : (t : Table) (es : List Event) → HasOneConsumer (run agent es (new_inbox t))
  unfolding new_inbox
  one_consumer t es = run-HasOneConsumer es _ refl
