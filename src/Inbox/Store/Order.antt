-- ===== src/Inbox/Store/Order.antt =====
-- src/db/sqlite_inbox.go: the order of the rows, under every call.
use autonomy.Base.{
  Result-cases, err, none, ℕ, suc, ◌≤◌, ◌<◌, ◌≡◌, refl, Bool, true, List, [], ◌∷◌, ◌++◌, some,
  arith, ok, Option-cases, Bool-cases, inl, inr, subst, ◌==◌,
}
use autonomy.Text.{Str}
use autonomy.Inbox.Message.{AgentMessage, MessageStatus}
use autonomy.Inbox.Store.{
  Table, new_row, enqueue_message, first_row, update_rows, claim_row, claim_next_message,
  finish_agent_message, requeue_running_messages, requeue_message, start_at, put_back, end_with,
  is_waiting, is_taken, runs_for, waits_for,
}

-- The ids rise from a bound, and end at another.
abbrev pub Ascending : ℕ → List AgentMessage → ℕ → Type 0
Ascending lo [] hi = lo ≤ hi
Ascending lo (m ∷ ms) hi = (lo < m.id) × Ascending m.id ms hi

Ascending-le : (lo : ℕ) (ms : List AgentMessage) (hi : ℕ) → Ascending lo ms hi → lo ≤ hi
Ascending-le lo [] hi h = h
Ascending-le lo (m ∷ ms) hi h = omega (arith, Ascending-le m.id ms hi h.1)

-- Ids are positive, rise along the rows, and none is above the last one given.
abbrev pub IsTable : Table → Type 0
IsTable t = Ascending 0 t.rows t.last_id

Ascending-append :
    (lo : ℕ) (ms : List AgentMessage) (hi : ℕ) (m : AgentMessage)
    → Ascending lo ms hi
    → m.id ≡ suc hi
    → Ascending lo (ms ++ m ∷ []) (suc hi)
Ascending-append lo [] hi m h e = omega arith
Ascending-append lo (x ∷ ms) hi m h e = (h.0, Ascending-append x.id ms hi m h.1 e)

-- An update that keeps ids keeps their order.
pub Ascending-update_rows :
    (p : AgentMessage → Bool) (f : AgentMessage → AgentMessage)
    → ((m : AgentMessage) → (f m).id ≡ m.id)
    → (lo : ℕ) (ms : List AgentMessage) (hi : ℕ) → Ascending lo ms hi
    → Ascending lo (update_rows p f ms) hi
unfolding update_rows
Ascending-update_rows p f same lo [] hi h = h
Ascending-update_rows p f same lo (m ∷ ms) hi h =
    ground (arith, same m, Ascending-update_rows p f same m.id ms hi h.1)

pub enqueue-IsTable :
    (now : ℕ) (msg : AgentMessage) (t t' : Table) (id : ℕ)
    → IsTable t
    → enqueue_message now msg t ≡ ok (id, t')
    → IsTable t' × (id ≡ suc t.last_id) × (t'.last_id ≡ suc t.last_id)
unfolding enqueue_message
enqueue-IsTable now msg t t' id h e =
    ground (arith, Ascending-append 0 t.rows t.last_id (new_row now (suc t.last_id) msg) h refl)

claim_row-IsTable :
    (now id : ℕ) (t t' : Table) (m : AgentMessage)
    → IsTable t
    → claim_row now id t ≡ some (m, t')
    → IsTable t' × (t'.last_id ≡ t.last_id)
unfolding claim_row
claim_row-IsTable now id t t' m h e =
    ground
      (arith, Ascending-update_rows (is_waiting id) (start_at now) (λ _. refl) 0 t.rows t.last_id h)

pub claim-IsTable :
    (now agent : ℕ) (t t' : Table) (m : AgentMessage)
    → IsTable t
    → claim_next_message now agent t ≡ some (m, t')
    → IsTable t' × (t'.last_id ≡ t.last_id)
unfolding claim_next_message
claim-IsTable now agent t t' m h e = elim (Option-cases (first_row (waits_for agent) t.rows)) [
  | inl n ↦ absurd (ground (arith, n))
  | inr (q, n) ↦ claim_row-IsTable now q.id t t' m h (ground (arith, n))
]

-- What the runtime calls of the table, with the clock's answer of each call. `takes` is the guarded
-- UPDATE of a claim, of a message that was read at some time before.
pub data Call : Type 0 where
  enqueues : AgentMessage → Call
  claims takes reclaims puts_back : ℕ → Call
  finishes : ℕ → MessageStatus → Str → Call

-- The table after a call; one that is refused, or claims nothing, leaves it as it was.
unfoldable pub apply : ℕ → Call → Table → Table
apply now (enqueues msg) t = elim (enqueue_message now msg t) [ err _ ↦ t | ok (_, t') ↦ t' ]
apply now (claims agent) t = elim (claim_next_message now agent t) [ none ↦ t | some (_, t') ↦ t' ]
apply now (takes id) t = elim (claim_row now id t) [ none ↦ t | some (_, t') ↦ t' ]
apply now (finishes id status text) t = finish_agent_message now id status text t
apply now (reclaims agent) t = requeue_running_messages agent t
apply now (puts_back id) t = requeue_message id t

unfoldable pub apply_all : List (ℕ × Call) → Table → Table
apply_all [] t = t
apply_all ((now, call) ∷ calls) t = apply_all calls (apply now call t)

pub call-IsTable :
    (now : ℕ) (call : Call) (t : Table)
    → IsTable t
    → IsTable (apply now call t) × (t.last_id ≤ (apply now call t).last_id)
unfolding apply finish_agent_message requeue_running_messages requeue_message
call-IsTable now (enqueues msg) t h = elim (Result-cases (enqueue_message now msg t)) [
  | inl ((id, t'), e) ↦
      let (sound, _, last) = enqueue-IsTable now msg t t' id h e in
      rw (e, apply) (sound, omega (arith, last))
  | inr (x, e) ↦ rw (e, apply) (h, omega arith)
]
call-IsTable now (claims agent) t h = elim (Option-cases (claim_next_message now agent t)) [
  | inl e ↦ rw (e, apply) (h, omega arith)
  | inr ((m, t'), e) ↦
      rw (e, apply)
        (let (sound, last) = claim-IsTable now agent t t' m h e in (sound, omega (arith, last)))
]
call-IsTable now (takes id) t h = elim (Option-cases (claim_row now id t)) [
  | inl e ↦ rw (e, apply) (h, omega arith)
  | inr ((m, t'), e) ↦
      rw (e, apply)
        (let (sound, last) = claim_row-IsTable now id t t' m h e in (sound, omega (arith, last)))
]
call-IsTable now (finishes id status text) t h = (
  Ascending-update_rows (λ m. m.id == id) (end_with now status text) (λ _. refl) 0 t.rows t.last_id
      h,
  omega arith,
)
call-IsTable now (reclaims agent) t h =
    ground (arith, Ascending-update_rows (runs_for agent) put_back (λ _. refl) 0 t.rows t.last_id h)
call-IsTable now (puts_back id) t h =
    ground (arith, Ascending-update_rows (is_taken id) put_back (λ _. refl) 0 t.rows t.last_id h)

-- A table whose rows are in order stays so, whatever is called of it.
pub store-IsTable :
    (calls : List (ℕ × Call)) (t : Table)
    → IsTable t
    → IsTable (apply_all calls t) × (t.last_id ≤ (apply_all calls t).last_id)
unfolding apply_all
store-IsTable [] t h = (h, omega arith)
store-IsTable ((now, call) ∷ calls) t h =
    let (sound, le) = call-IsTable now call t h in
    let (later, le') = store-IsTable calls (apply now call t) sound in (later, omega arith)

-- What is found lies above the bound.
pub first_row-bound :
    (p : AgentMessage → Bool) (lo : ℕ) (ms : List AgentMessage) (hi : ℕ) (q : AgentMessage)
    → Ascending lo ms hi
    → first_row p ms ≡ some q
    → (lo < q.id) × (q.id ≤ hi) × (p q ≡ true)
unfolding first_row
first_row-bound p lo [] hi q h e = cc
first_row-bound p lo (m ∷ ms) hi q h e = elim (Bool-cases (p m)) [
  | inl b ↦
      let same : m ≡ q = ground (arith, b) in
      subst (λ k. (lo < k.id) × (k.id ≤ hi) × (p k ≡ true)) same
        (h.0, Ascending-le m.id ms hi h.1, b)
  | inr b ↦
      let (above, below, passes) = first_row-bound p m.id ms hi q h.1 (ground (arith, b)) in
      (omega arith, below, passes)
]
