-- ===== src/Inbox/Queue/Wake.antt =====
-- src/inbox.go: what a consumer knows of `gen`, `held` and the table at each point of `drain`.
use autonomy.Base.{
  ℕ, ◌+◌, ◌≤◌, ◌<◌, ◌≡◌, ◌≢◌, refl, ◌⊎◌, Bool, true, false, List, [], ◌∷◌, Option, none, some,
  arith, length, keep, All,
}
use autonomy.Text.{is_some}
use autonomy.Inbox.Message.{AgentMessage}
use autonomy.Inbox.Store.{Table, first_row, waits_for, count_queued_messages}
use autonomy.Inbox.Store.Order.{IsTable}
use autonomy.Inbox.Store.Claim.{claim-none_iff, first_row-none_iff}
use autonomy.Inbox.Queue.{
  Shared, Thread, starting, registering, beginning, reclaiming, claiming, checking, ending, holding,
  requeueing, processing, handling, finishing, Choice, none_met, claim, claim_step, act, is_dry,
}

-- Whether a message waits for the agent.
abbrev pub waiting : ℕ → Shared → Bool
waiting agent sh = is_some (first_row (waits_for agent) sh.table.rows)

-- The goroutines that are in `start`.
abbrev pub is_starter : Thread → ℕ
is_starter starting = 1
is_starter registering = 1
is_starter _ = 0

abbrev pub starters : List Thread → ℕ
starters [] = 0
starters (t ∷ ts) = is_starter t + starters ts

module _ (agent : ℕ) where
  -- What a goroutine knows. A consumer started no later than the present `gen`; one that puts a
  -- message back has left word in `held`; and one that is about to leave, while a message waits,
  -- will see that `gen` has moved, or has left that word.
  abbrev pub Knows : Shared → Thread → Type 0
  Knows sh starting = Unit
  Knows sh registering = Unit
  Knows sh (beginning g) = g ≤ sh.gen
  Knows sh (reclaiming g) = g ≤ sh.gen
  Knows sh (claiming g) = g ≤ sh.gen
  Knows sh (checking g) = g ≤ sh.gen
  Knows sh (holding g m) = g ≤ sh.gen
  Knows sh (requeueing g m) = (g ≤ sh.gen) × (sh.held ≡ true)
  Knows sh (processing g m) = g ≤ sh.gen
  Knows sh (handling g m w) = g ≤ sh.gen
  Knows sh (finishing g m w o) = g ≤ sh.gen
  Knows sh (ending g) = (g ≤ sh.gen) × (waiting agent sh ≡ true → (g < sh.gen) ⊎ (sh.held ≡ true))

  claim_step-Knows :
      (g : ℕ) (o : Option (AgentMessage × Table)) (sh : Shared)
      → g ≤ sh.gen
      → (o ≡ none → waiting agent sh ≡ false)
      → All (Knows (claim_step g none_met o sh).1) (claim_step g none_met o sh).0
  unfolding claim_step
  claim_step-Knows g none sh h n = ground (arith, n refl)
  claim_step-Knows g (some (m, t)) sh h n = ground arith

  claim-waiting :
      (c : Choice) (sh : Shared)
      → agent ≢ 0
      → IsTable sh.table
      → claim agent c sh ≡ none
      → waiting agent sh ≡ false
  claim-waiting c sh a h e = rw (
      (first_row-none_iff (waits_for agent) sh.table.rows).1
        ((claim-none_iff c.now agent sh.table a h).0 e))

  keep-first_row :
      (p : AgentMessage → Bool) (ms : List AgentMessage)
      → length (keep p ms) ≡ 0
      → first_row p ms ≡ none
  unfolding keep first_row
  keep-first_row p [] h = refl
  keep-first_row p (m ∷ ms) h = ground (arith, keep-first_row p ms)

  dry-waiting :
      (sh : Shared) → agent ≢ 0 → is_dry agent none_met sh ≡ true → waiting agent sh ≡ false
  unfolding is_dry count_queued_messages
  dry-waiting sh a e =
      let none_left : first_row (waits_for agent) sh.table.rows ≡ none =
        keep-first_row (waits_for agent) sh.table.rows (ground (arith, a)) in
      rw none_left refl

  -- A goroutine that steps, with no failing store, knows what it should afterwards.
  pub act-Knows :
      (c : Choice) (t : Thread) (sh : Shared)
      → agent ≢ 0
      → IsTable sh.table
      → c.fault ≡ none_met
      → Knows sh t
      → All (Knows (act agent c t sh).1) (act agent c t sh).0
  unfolding act
  act-Knows c starting sh a h f k = ground arith
  act-Knows c registering sh a h f k = ground arith
  act-Knows c (beginning g) sh a h f k = ground arith
  act-Knows c (reclaiming g) sh a h f k = ground arith
  act-Knows c (claiming g) sh a h f k =
      rw f (claim_step-Knows g (claim agent c sh) sh k (claim-waiting c sh a h))
  act-Knows c (checking g) sh a h f k = rw f (ground (arith, dry-waiting sh a))
  act-Knows c (holding g m) sh a h f k = ground arith
  act-Knows c (requeueing g m) sh a h f k = ground arith
  act-Knows c (processing g m) sh a h f k = ground arith
  act-Knows c (handling g m w) sh a h f k = ground arith
  act-Knows c (finishing g m w o) sh a h f k = ground arith
  act-Knows c (ending g) sh a h f k = ground arith
