-- ===== src/Inbox/Store/Claim.antt =====
-- src/db/sqlite_inbox.go: `ClaimNextMessage`, and `RequeueMessage` after it.
use autonomy.Base.{
  ℕ, ◌≤◌, ◌≡◌, ◌≢◌, refl, sym, subst, ◌↔◌, Bool, true, false, List, [], ◌∷◌, none, some, arith, All,
  Option-cases, Bool-cases, inl, inr, ◌==◌,
}
use autonomy.Inbox.Message.{AgentMessage, running, is_queued_status}
use autonomy.Inbox.Store.{
  Table, first_row, update_rows, claim_row, claim_next_message, requeue_message, start_at, put_back,
  is_waiting, is_taken, waits_for,
}
use autonomy.Inbox.Store.Order.{Ascending, IsTable, first_row-bound, Ascending-update_rows}

-- A message is found again by its id, since ids differ.
first_row-id :
    (p : AgentMessage → Bool) (lo : ℕ) (ms : List AgentMessage) (hi : ℕ) (q : AgentMessage)
    → Ascending lo ms hi
    → first_row p ms ≡ some q
    → is_queued_status q.status ≡ true
    → first_row (is_waiting q.id) ms ≡ some q
unfolding first_row is_waiting
first_row-id p lo [] hi q h e w = cc
first_row-id p lo (m ∷ ms) hi q h e w = elim (Bool-cases (p m)) [
  | inl b ↦
      let same : m ≡ q = ground (arith, b) in
      let waiting : is_queued_status m.status ≡ true =
        subst (λ k. is_queued_status k.status ≡ true) (sym same) w in
      subst (λ k. first_row (is_waiting k.id) (m ∷ ms) ≡ some k) same (ground arith)
  | inr b ↦
      let e' : first_row p ms ≡ some q = ground (arith, b) in
      ground (arith, first_row-bound p m.id ms hi q h.1 e', first_row-id p m.id ms hi q h.1 e' w)
]

waits-status :
    (agent : ℕ) (m : AgentMessage)
    → waits_for agent m ≡ true
    → (m.agent_id ≡ agent) × (is_queued_status m.status ≡ true)
unfolding waits_for
waits-status agent m h = ground arith

-- What a claim answers, in terms of the row that it takes.
pub claim-inv :
    (now agent : ℕ) (t t' : Table) (m : AgentMessage)
    → IsTable t
    → claim_next_message now agent t ≡ some (m, t')
    → (q : AgentMessage) × (first_row (waits_for agent) t.rows ≡ some q)
      × (m ≡ start_at now q)
      × (t' ≡ record t { rows = update_rows (is_waiting q.id) (start_at now) t.rows })
unfolding claim_next_message claim_row
claim-inv now agent t t' m h e = elim (Option-cases (first_row (waits_for agent) t.rows)) [
  | inl n ↦ absurd (ground (arith, n))
  | inr (q, n) ↦
      let (_, _, w) = first_row-bound (waits_for agent) 0 t.rows t.last_id q h n in
      let again : first_row (is_waiting q.id) t.rows ≡ some q =
        first_row-id (waits_for agent) 0 t.rows t.last_id q h n (waits-status agent q w).1 in
      (q, n, ground (arith, n, again), ground (arith, n, again))
]

All-above :
    (p : AgentMessage → Bool) (k lo : ℕ) (ms : List AgentMessage) (hi : ℕ)
    → k ≤ lo
    → Ascending lo ms hi
    → All (λ r. p r ≡ true → k ≤ r.id) ms
All-above p k lo [] hi le h = tt
All-above p k lo (m ∷ ms) hi le h = (λ _. omega arith, All-above p k m.id ms hi (omega arith) h.1)

first_row-oldest :
    (p : AgentMessage → Bool) (lo : ℕ) (ms : List AgentMessage) (hi : ℕ) (q : AgentMessage)
    → Ascending lo ms hi
    → first_row p ms ≡ some q
    → All (λ r. p r ≡ true → q.id ≤ r.id) ms
unfolding first_row
first_row-oldest p lo [] hi q h e = tt
first_row-oldest p lo (m ∷ ms) hi q h e = elim (Bool-cases (p m)) [
  | inl b ↦
      let same : m ≡ q = ground (arith, b) in
      subst (λ k. All (λ r. p r ≡ true → k.id ≤ r.id) (m ∷ ms)) same
        (λ _. omega arith, All-above p m.id m.id ms hi (omega arith) h.1)
  | inr b ↦ (λ w. absurd (cc), first_row-oldest p m.id ms hi q h.1 (ground (arith, b)))
]

-- In a table whose ids rise along the rows, a claim takes the oldest message that waits for the
-- agent: it is the agent's, it is running from now on, and no message that waits for the agent has
-- a smaller id.
pub claim_oldest :
    (now agent : ℕ) (t t' : Table) (m : AgentMessage)
    → IsTable t
    → claim_next_message now agent t ≡ some (m, t')
    → (m.agent_id ≡ agent)
      × (m.status ≡ running)
      × All (λ r. waits_for agent r ≡ true → m.id ≤ r.id) t.rows
claim_oldest now agent t t' m h e =
    let (q, n, em, _) = claim-inv now agent t t' m h e in
    let (_, _, w) = first_row-bound (waits_for agent) 0 t.rows t.last_id q h n in
    rw em (
      (waits-status agent q w).0,
      refl,
      first_row-oldest (waits_for agent) 0 t.rows t.last_id q h n,
    )

pub first_row-none_iff :
    (p : AgentMessage → Bool) (ms : List AgentMessage)
    → (first_row p ms ≡ none) ↔ All (λ r. p r ≡ false) ms
unfolding first_row
first_row-none_iff p [] = (λ _. tt, λ _. refl)
first_row-none_iff p (m ∷ ms) = ground (arith, first_row-none_iff p ms)

-- For an agent with an id, in a table whose ids rise along the rows, a claim answers that there is
-- nothing exactly when no message waits for the agent.
pub claim-none_iff :
    (now agent : ℕ) (t : Table)
    → agent ≢ 0
    → IsTable t
    → (claim_next_message now agent t ≡ none) ↔ All (λ r. waits_for agent r ≡ false) t.rows
unfolding claim_next_message claim_row
claim-none_iff now agent t a h = elim (Option-cases (first_row (waits_for agent) t.rows)) [
  | inl n ↦ (λ _. (first_row-none_iff (waits_for agent) t.rows).0 n, λ _. ground (arith, n))
  | inr (q, n) ↦
      let (_, _, w) = first_row-bound (waits_for agent) 0 t.rows t.last_id q h n in
      let again : first_row (is_waiting q.id) t.rows ≡ some q =
        first_row-id (waits_for agent) 0 t.rows t.last_id q h n (waits-status agent q w).1 in
      (
        λ e. absurd (ground (arith, n, again)),
        λ all. absurd (ground (arith, n, (first_row-none_iff (waits_for agent) t.rows).1 all)),
      )
]

taken_not_waiting :
    (now id : ℕ) (ms : List AgentMessage)
    → first_row (is_waiting id) (update_rows (is_waiting id) (start_at now) ms) ≡ none
unfolding first_row update_rows is_waiting
taken_not_waiting now id [] = refl
taken_not_waiting now id (m ∷ ms) = ground (arith, taken_not_waiting now id ms)

-- Two consumers that read the same id cannot both take the message: after one took it, the guarded
-- update of the other finds nothing.
pub claim_row_once :
    (now later id : ℕ) (t t' : Table) (m : AgentMessage)
    → claim_row now id t ≡ some (m, t')
    → claim_row later id t' ≡ none
unfolding claim_row
claim_row_once now later id t t' m e = ground (arith, taken_not_waiting now id t.rows)

-- The row of another id is left alone.
other_row :
    (id : ℕ) (m : AgentMessage) → m.id ≢ id → (is_waiting id m ≡ false) × (is_taken id m ≡ false)
unfolding is_waiting is_taken
other_row id m h = ground arith

taken_row :
    (now agent : ℕ) (m : AgentMessage)
    → waits_for agent m ≡ true
    → (is_waiting m.id m ≡ true)
      × (is_taken m.id (start_at now m) ≡ true)
      × (waits_for agent (put_back (start_at now m)) ≡ true)
unfolding is_waiting is_taken waits_for
taken_row now agent m h = ground arith

-- The rows after the message that was taken is put back: it waits again, in its place.
put_back-first :
    (now agent lo : ℕ) (ms : List AgentMessage) (hi : ℕ) (q : AgentMessage)
    → Ascending lo ms hi
    → first_row (waits_for agent) ms ≡ some q
    → first_row
        (waits_for agent)
        (update_rows (is_taken q.id) put_back (update_rows (is_waiting q.id) (start_at now) ms))
      ≡ some (put_back (start_at now q))
unfolding first_row update_rows
put_back-first now agent lo [] hi q h e = cc
put_back-first now agent lo (m ∷ ms) hi q h e = elim (Bool-cases (waits_for agent m)) [
  | inl b ↦
      let same : m ≡ q = ground (arith, b) in
      let (w, t, back) = taken_row now agent m b in
      subst
        (λ k.
          first_row (waits_for agent) (
            update_rows (is_taken k.id) put_back
              (update_rows (is_waiting k.id) (start_at now) (m ∷ ms)))
          ≡ some (put_back (start_at now k)))
        same (rw (w, t, back))
  | inr b ↦
      let e' : first_row (waits_for agent) ms ≡ some q = ground (arith, b) in
      let (above, _, _) = first_row-bound (waits_for agent) m.id ms hi q h.1 e' in
      let (w, t) = other_row q.id m (omega arith) in
      rw (w, t, b) (put_back-first now agent m.id ms hi q h.1 e')
]

claim_first :
    (now agent : ℕ) (t : Table) (q : AgentMessage)
    → agent ≢ 0
    → IsTable t
    → first_row (waits_for agent) t.rows ≡ some q
    → (t' : Table) × (claim_next_message now agent t ≡ some (start_at now q, t'))
unfolding claim_next_message claim_row
claim_first now agent t q a h n =
    let (_, _, w) = first_row-bound (waits_for agent) 0 t.rows t.last_id q h n in
    let again : first_row (is_waiting q.id) t.rows ≡ some q =
      first_row-id (waits_for agent) 0 t.rows t.last_id q h n (waits-status agent q w).1 in
    (
      record t { rows = update_rows (is_waiting q.id) (start_at now) t.rows },
      ground (arith, n, again),
    )

claim-agent :
    (now agent : ℕ) (t : Table) (x : AgentMessage × Table)
    → claim_next_message now agent t ≡ some x
    → agent ≢ 0
unfolding claim_next_message
claim-agent now agent t x e z = ground arith

requeued_row :
    (now agent : ℕ) (t : Table) (q : AgentMessage)
    → IsTable t
    → first_row (waits_for agent) t.rows ≡ some q
    → let back =
        requeue_message q.id
          (record t { rows = update_rows (is_waiting q.id) (start_at now) t.rows }) in
      IsTable back × (first_row (waits_for agent) back.rows ≡ some (put_back (start_at now q)))
unfolding requeue_message
requeued_row now agent t q h n =
    let (above, _, _) = first_row-bound (waits_for agent) 0 t.rows t.last_id q h n in
    let claimed =
      Ascending-update_rows (is_waiting q.id) (start_at now) (λ _. refl) 0 t.rows t.last_id h in
    let zero_id : (q.id == 0) ≡ false = ground arith in
    rw zero_id (
      Ascending-update_rows (is_taken q.id) put_back (λ _. refl) 0 _ t.last_id claimed,
      put_back-first now agent 0 t.rows t.last_id q h n,
    )

-- In a table whose ids rise along the rows, a claimed message that is put back keeps its place: the
-- next claim succeeds and takes it again.
pub requeue-claim :
    (now later agent : ℕ) (t t' : Table) (m : AgentMessage)
    → IsTable t
    → claim_next_message now agent t ≡ some (m, t')
    → (m' : AgentMessage) × (t'' : Table) × (claim_next_message later agent
          (requeue_message m.id t')
        ≡ some (m', t''))
      × (m'.id ≡ m.id)
requeue-claim now later agent t t' m h e =
    let (q, n, em, et) = claim-inv now agent t t' m h e in
    let (sound, first) = requeued_row now agent t q h n in
    let a : agent ≢ 0 = claim-agent now agent t (m, t') e in
    let (t'', claimed) =
      claim_first later agent
        (requeue_message q.id
          (record t { rows = update_rows (is_waiting q.id) (start_at now) t.rows }))
        (put_back (start_at now q)) a sound first in
    rw (em, et) (start_at later (put_back (start_at now q)), t'', claimed, refl)
