-- ===== src/Inbox/Queue/Forgotten.antt =====
-- src/inbox.go: the messages that wait, in runs whose store works.
use autonomy.Base.{
  ℕ, suc, ◌≤◌, ◌<◌, ◌≡◌, ◌≢◌, refl, ◌⊎◌, inl, inr, Bool, true, false, List, [], ◌∷◌, arith,
  if◌then◌else◌, Result-cases, All,
}
use autonomy.Inbox.Message.{AgentMessage}
use autonomy.Inbox.Store.{Table, enqueue_message}
use autonomy.Inbox.Store.Order.{IsTable, enqueue-IsTable}
use autonomy.Inbox.Queue.{
  Shared, Thread, starting, registering, requeueing, ending, none_met, Sys, Event, steps, enqueues,
  pauses, unpauses, resumes, boots, enqueue, set_paused, with_waiter, resume_paused, step, run,
  new_inbox,
}
use autonomy.Inbox.Queue.Mutex.{consumers, flag, HasOneConsumer, step-HasOneConsumer}
use autonomy.Inbox.Queue.Wake.{waiting, starters, Knows}
use autonomy.Inbox.Queue.Awake.{
  IsWoken, All-Knows_mild, act_at-Knows, act_at-IsWoken, act_at-IsTable,
}

-- A goroutine that neither puts a message back nor is about to leave.
abbrev pub IsSettled : Thread → Type 0
IsSettled (requeueing g m) = ⊥
IsSettled (ending g) = ⊥
IsSettled _ = Unit

-- What a run may meet: the store works, and the drain ends among settled goroutines.
abbrev pub IsQuiet : Event → Sys → Type 0
IsQuiet (steps k c) s = c.fault ≡ none_met
IsQuiet resumes s = All IsSettled s.threads
IsQuiet _ s = Unit

flag_bound : (sh : Shared) (ts : List Thread) → consumers ts ≡ flag sh → consumers ts ≤ 1
flag_bound sh ts h = ground (arith, h)

if_both : (P : Sys → Type 0) (b : Bool) {x y : Sys} → P x → P y → P (if b then x else y)
if_both P true px py = px
if_both P false px py = py

module _ (agent : ℕ) where
  abbrev pub IsQuietRun : List Event → Sys → Type 0
  IsQuietRun [] s = Unit
  IsQuietRun (e ∷ es) s = IsQuiet e s × IsQuietRun es (step agent e s)

  record IsAwake (s : Sys) : Type 0 where
    table : IsTable s.shared.table
    one : HasOneConsumer s
    knows : All (Knows agent s.shared) s.threads
    woken : IsWoken agent 0 s.threads s.shared

  one_settled-Knows :
      (t : Thread) (sh : Shared) (b : Bool)
      → IsSettled t
      → Knows agent sh t
      → Knows agent (record sh { held = b }) t
  one_settled-Knows starting sh b q k = tt
  one_settled-Knows registering sh b q k = tt
  one_settled-Knows (requeueing g m) sh b q k = absurd q
  one_settled-Knows (ending g) sh b q k = absurd q
  one_settled-Knows _ sh b q k = k

  settled-Knows :
      (ts : List Thread) (sh : Shared) (b : Bool)
      → All IsSettled ts
      → All (Knows agent sh) ts
      → All (Knows agent (record sh { held = b })) ts
  settled-Knows [] sh b q ks = tt
  settled-Knows (t ∷ ts) sh b q ks =
      (one_settled-Knows t sh b q.0 ks.0, settled-Knows ts sh b q.1 ks.1)

  one_arrived-Knows :
      (x : Thread) (sh : Shared) (t : Table) (ws : List ℕ)
      → Knows agent sh x
      → Knows agent (record sh { table = t; waiters = ws; gen = suc sh.gen }) x
  one_arrived-Knows starting sh t ws k = tt
  one_arrived-Knows registering sh t ws k = tt
  one_arrived-Knows (requeueing g m) sh t ws k = (omega (arith, k.0), k.1)
  one_arrived-Knows (ending g) sh t ws k = (omega (arith, k.0), λ w. inl (omega (arith, k.0)))
  one_arrived-Knows _ sh t ws k = omega (arith, k)

  arrived-Knows :
      (ts : List Thread) (sh : Shared) (t : Table) (ws : List ℕ)
      → All (Knows agent sh) ts
      → All (Knows agent (record sh { table = t; waiters = ws; gen = suc sh.gen })) ts
  arrived-Knows [] sh t ws ks = tt
  arrived-Knows (x ∷ ts) sh t ws ks =
      (one_arrived-Knows x sh t ws ks.0, arrived-Knows ts sh t ws ks.1)

  resume-IsAwake : (s : Sys) → All IsSettled s.threads → IsAwake s → IsAwake (step agent resumes s)
  unfolding step resume_paused
  resume-IsAwake s q w =
      if_both IsAwake s.shared.held
        (record {
          table = w.table;
          one = omega (arith, w.one);
          knows = (tt, settled-Knows s.threads s.shared false q w.knows);
          woken = λ r e. inl (omega arith);
        })
        w

  pause-IsAwake : (s : Sys) (b : Bool) → IsAwake s → IsAwake (set_paused b s)
  pause-IsAwake s b w = record {
    table = w.table;
    one = w.one;
    knows =
        All-Knows_mild agent s.threads s.shared (record (s.shared) { paused = b })
          (refl, refl, λ e. e) w.knows;
    woken = w.woken;
  }

  enqueue-IsAwake :
      (now : ℕ) (msg : AgentMessage) (waits : Bool) (s : Sys)
      → IsAwake s
      → IsAwake (step agent (enqueues now msg waits) s)
  unfolding step enqueue
  enqueue-IsAwake now msg waits s w =
      let sent : AgentMessage = record msg { agent_id = agent } in
      elim (Result-cases (enqueue_message now sent s.shared.table)) [
        | inr (x, e) ↦ rw (e, enqueue) w
        | inl ((id, t), e) ↦
            rw (e, enqueue)
              (record {
                table = (enqueue-IsTable now sent s.shared.table t id w.table e).0;
                one = omega (arith, w.one);
                knows = (
                  tt,
                  arrived-Knows s.threads s.shared t (with_waiter waits id s.shared.waiters)
                      w.knows,
                );
                woken = λ r e. inl (omega arith);
              })
      ]

  step-IsAwake :
      (e : Event) (s : Sys) → agent ≢ 0 → IsQuiet e s → IsAwake s → IsAwake (step agent e s)
  unfolding step
  step-IsAwake (steps k c) s a q w = record {
    table = act_at-IsTable agent k c s.threads s.shared q w.table;
    one = step-HasOneConsumer agent (steps k c) s w.one;
    knows =
        act_at-Knows agent k c s.threads s.shared a w.table q (flag_bound s.shared s.threads w.one)
          w.knows;
    woken = act_at-IsWoken agent 0 k c s.threads s.shared q (omega (arith, w.one)) w.knows w.woken;
  }
  step-IsAwake (enqueues now msg waits) s a q w = enqueue-IsAwake now msg waits s w
  step-IsAwake pauses s a q w = pause-IsAwake s true w
  step-IsAwake unpauses s a q w = pause-IsAwake s false w
  step-IsAwake resumes s a q w = resume-IsAwake s q w
  step-IsAwake boots s a q w = record {
    table = w.table;
    one = omega (arith, w.one);
    knows = (tt, w.knows);
    woken = λ r e. inl (omega arith);
  }

  run-IsAwake :
      (es : List Event) (s : Sys)
      → agent ≢ 0
      → IsQuietRun es s
      → IsAwake s
      → IsAwake (run agent es s)
  unfolding run
  run-IsAwake [] s a q w = w
  run-IsAwake (e ∷ es) s a q w = run-IsAwake es (step agent e s) a q.1 (step-IsAwake e s a q.0 w)

  start-IsAwake :
      (t : Table) → IsTable t → waiting agent (new_inbox t).shared ≡ false → IsAwake (new_inbox t)
  unfolding new_inbox
  start-IsAwake t h n = record { table = h; one = refl; knows = tt; woken = λ r w. absurd (cc) }

  -- For an agent with an id, over a table whose ids rise along the rows and where no message waits
  -- for it when the process starts: after every quiet run, if nobody consumes and a message waits,
  -- then a goroutine is in `start` on the way to it, or the agent is held for the drain's end to
  -- start. A run is quiet if the store works and if the drain never ends while a
  -- consumer puts a message back or is about to leave.
  pub no_message_forgotten :
      (t : Table) (es : List Event)
      → agent ≢ 0
      → IsTable t
      → waiting agent (new_inbox t).shared ≡ false
      → IsQuietRun es (new_inbox t)
      → (run agent es (new_inbox t)).shared.running ≡ false
      → waiting agent (run agent es (new_inbox t)).shared ≡ true
      → (0 < starters (run agent es (new_inbox t)).threads)
        ⊎ ((run agent es (new_inbox t)).shared.held ≡ true)
  no_message_forgotten t es a h n q r w =
      elim ((run-IsAwake es (new_inbox t) a q (start-IsAwake t h n)).woken r w) [
        | inl l ↦ inl (omega (arith, l))
        | inr e ↦ inr e
      ]
