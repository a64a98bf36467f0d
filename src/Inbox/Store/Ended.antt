-- ===== src/Inbox/Store/Ended.antt =====
-- src/db/sqlite_inbox.go: when a message has ended, under every call.
use autonomy.Base.{
  ℕ, suc, ◌≡◌, refl, subst, ◌∙◌, Bool, true, false, ◌||◌, List, [], ◌∷◌, Option, some, Option-cases,
  arith, Bool-cases, inl, inr, ◌==◌, All, any, if◌then◌else◌,
}
use autonomy.Text.{Str}
use autonomy.Inbox.Message.{
  AgentMessage, MessageStatus, is_queued_status, is_running_status, unset, queued, running, done,
  failed, stopped,
}
use autonomy.Inbox.Store.{
  Table, new_row, enqueue_message, first_row, update_rows, claim_row, claim_next_message,
  finish_agent_message, requeue_running_messages, requeue_message, start_at, put_back, end_with,
  is_waiting, is_taken, runs_for, or_done,
}
use autonomy.Inbox.Store.Rows.{
  first_row-append, first_row-update_rows, claim-claim_row, first_row-id,
}
use autonomy.Inbox.Store.Order.{
  Call, enqueues, claims, reclaims, puts_back, takes, finishes, apply, apply_all,
}

abbrev pub is_ended : MessageStatus → Bool
is_ended done = true
is_ended failed = true
is_ended stopped = true
is_ended _ = false

-- The message of an id.
abbrev pub message : ℕ → Table → Option AgentMessage
message id t = first_row (λ m. m.id == id) t.rows

-- A call that ends the message of an id.
abbrev pub ends : ℕ → ℕ × Call → Bool
ends id (now, finishes i status text) = i == id
ends id (now, _) = false

-- A call that ends a message says how.
abbrev pub IsFinal : ℕ × Call → Type 0
IsFinal (now, finishes i status text) = is_ended (or_done status) ≡ true
IsFinal _ = Unit

-- What becomes of a message: it stays its agent's, and has ended if it had before or is ended now.
abbrev Becomes : Bool → AgentMessage → Option AgentMessage → Type 0
Becomes ended m o =
    (m' : AgentMessage) × (o ≡ some m')
    × (m'.agent_id ≡ m.agent_id)
    × (m'.id ≡ m.id)
    × (is_ended m'.status ≡ (is_ended m.status || ended))

update-Becomes :
    (id : ℕ) (ended : Bool) (p : AgentMessage → Bool) (f : AgentMessage → AgentMessage)
    (ms : List AgentMessage) (m : AgentMessage)
    → ((m : AgentMessage) → (f m).id ≡ m.id)
    → ((m : AgentMessage) → (f m).agent_id ≡ m.agent_id)
    → is_ended (if p m then f m else m).status ≡ (is_ended m.status || ended)
    → first_row (λ m. m.id == id) ms ≡ some m
    → Becomes ended m (first_row (λ m. m.id == id) (update_rows p f ms))
update-Becomes id ended p f ms m same agent status h = (
  (if p m then f m else m),
  first_row-update_rows id p f ms m same h,
  ground (arith, agent m),
  ground (arith, same m),
  status,
)

queued_open : (s : MessageStatus) → is_queued_status s ≡ true → is_ended s ≡ false
queued_open queued h = refl
queued_open unset h = refl
queued_open running h = refl
queued_open done h = absurd cc
queued_open failed h = absurd cc
queued_open stopped h = absurd cc

running_open : (s : MessageStatus) → is_running_status s ≡ true → is_ended s ≡ false
running_open running h = refl
running_open unset h = refl
running_open queued h = refl
running_open done h = absurd cc
running_open failed h = absurd cc
running_open stopped h = absurd cc

or_not : (b : Bool) → b ≡ (b || false)
or_not b = ground arith

-- A change of some rows whose messages are open, and stay so.
open-status :
    (p : AgentMessage → Bool) (f : AgentMessage → AgentMessage) (m : AgentMessage)
    → (p m ≡ true → is_ended m.status ≡ false)
    → is_ended (f m).status ≡ false
    → is_ended (if p m then f m else m).status ≡ (is_ended m.status || false)
open-status p f m was still = elim (Bool-cases (p m)) [
  | inl b ↦ let before = was b in rw (b, before) still
  | inr b ↦ rw b (or_not (is_ended m.status))
]

claim_row-Becomes :
    (now id k : ℕ) (t : Table) (m q : AgentMessage) (t' : Table)
    → claim_row now k t ≡ some (q, t')
    → message id t ≡ some m
    → Becomes false m (message id t')
unfolding claim_row
claim_row-Becomes now id k t m q t' e h = elim (Option-cases (first_row (is_waiting k) t.rows)) [
  | inl n ↦ absurd (ground (arith, n, e))
  | inr (r, n) ↦
      let there : record t { rows = update_rows (is_waiting k) (start_at now) t.rows } ≡ t' =
        ground (arith, n, e) in
      subst (λ t'. Becomes false m (message id t')) there
        (update-Becomes id false (is_waiting k) (start_at now) t.rows m (λ _. refl) (λ _. refl)
          (open-status (is_waiting k) (start_at now) m
            (λ w. queued_open m.status (unfold is_waiting in ground (arith, w))) refl)
          h)
]

stays-Becomes :
    (id : ℕ) (t : Table) (m : AgentMessage) → message id t ≡ some m → Becomes false m (message id t)
stays-Becomes id t m h = (m, h, refl, refl, or_not (is_ended m.status))

take-Becomes :
    (now id k : ℕ) (t : Table) (m : AgentMessage)
    → message id t ≡ some m
    → Becomes false m (message id (apply now (takes k) t))
unfolding apply
take-Becomes now id k t m h = elim (Option-cases (claim_row now k t)) [
  | inl e ↦ rw (e, apply) (stays-Becomes id t m h)
  | inr ((q, t'), e) ↦ rw (e, apply) (claim_row-Becomes now id k t m q t' e h)
]

claims-Becomes :
    (now id agent : ℕ) (t : Table) (m : AgentMessage)
    → message id t ≡ some m
    → Becomes false m (message id (apply now (claims agent) t))
unfolding apply
claims-Becomes now id agent t m h = elim (Option-cases (claim_next_message now agent t)) [
  | inl e ↦ rw (e, apply) (stays-Becomes id t m h)
  | inr ((q, t'), e) ↦
      rw (e, apply)
        (let (k, taken) = claim-claim_row now agent t t' q e in
          claim_row-Becomes now id k t m q t' taken h)
]

end-status :
    (id now k : ℕ) (status : MessageStatus) (text : Str) (m : AgentMessage)
    → m.id ≡ id
    → is_ended (or_done status) ≡ true
    → is_ended (if m.id == k then end_with now status text m else m).status
      ≡ (is_ended m.status || (k == id))
end-status id now k status text m same final = ground (arith, same, final)

call-Becomes :
    (id now : ℕ) (call : Call) (t : Table) (m : AgentMessage)
    → IsFinal (now, call)
    → message id t ≡ some m
    → Becomes (ends id (now, call)) m (message id (apply now call t))
unfolding apply finish_agent_message requeue_running_messages requeue_message enqueue_message
    claim_next_message
call-Becomes id now (enqueues msg) t m final h = elim (Bool-cases (msg.agent_id == 0)) [
  | inl b ↦ rw (b, apply) (stays-Becomes id t m h)
  | inr b ↦
      rw (b, apply)
        (
          m,
          first_row-append (λ m. m.id == id) t.rows (new_row now (suc t.last_id) msg) m h,
          refl,
          refl,
          or_not (is_ended m.status),
        )
]
call-Becomes id now (claims agent) t m final h = claims-Becomes now id agent t m h
call-Becomes id now (takes k) t m final h = take-Becomes now id k t m h
call-Becomes id now (finishes k status text) t m final h =
    update-Becomes id (k == id) (λ m. m.id == k) (end_with now status text) t.rows m (λ _. refl)
      (λ _. refl) (end-status id now k status text m (first_row-id id t.rows m h) final) h
call-Becomes id now (reclaims agent) t m final h = elim (Bool-cases (agent == 0)) [
  | inl b ↦ rw (b, apply) (stays-Becomes id t m h)
  | inr b ↦
      rw (b, apply)
        (update-Becomes id false (runs_for agent) put_back t.rows m (λ _. refl) (λ _. refl)
          (open-status (runs_for agent) put_back m
            (λ w. running_open m.status (unfold runs_for in ground (arith, w))) refl)
          h)
]
call-Becomes id now (puts_back k) t m final h = elim (Bool-cases (k == 0)) [
  | inl b ↦ rw (b, apply) (stays-Becomes id t m h)
  | inr b ↦
      rw (b, apply)
        (update-Becomes id false (is_taken k) put_back t.rows m (λ _. refl) (λ _. refl)
          (open-status (is_taken k) put_back m
            (λ w. running_open m.status (unfold is_taken in ground (arith, w))) refl)
          h)
]

-- Whatever is called of the table, also guarded updates of messages that were read long before: a
-- message that is there stays there and stays its agent's, and it has ended exactly when it had ended
-- before or one of the calls finished it. So no claim, put-back or reclaim loses a message, ends one,
-- or brings back one that has ended. (A call that finishes a message says how it ended.)
pub message-apply_all :
    (id : ℕ) (calls : List (ℕ × Call)) (t : Table) (m : AgentMessage)
    → All IsFinal calls
    → message id t ≡ some m
    → (m' : AgentMessage) × (message id (apply_all calls t) ≡ some m')
      × (m'.agent_id ≡ m.agent_id)
      × (is_ended m'.status ≡ (is_ended m.status || any (ends id) calls))
unfolding apply_all any
message-apply_all id [] t m final h = (m, h, refl, or_not (is_ended m.status))
message-apply_all id ((now, call) ∷ calls) t m final h =
    let (m1, here, agent, _, status) = call-Becomes id now call t m final.0 h in
    let (m2, there, agent2, status2) =
      message-apply_all id calls (apply now call t) m1 final.1 here in
    (m2, there, agent2 ∙ agent, ground (arith, status, status2))
