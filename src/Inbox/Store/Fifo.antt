-- ===== src/Inbox/Store/Fifo.antt =====
-- src/db/sqlite_inbox.go: one claim after another.
use autonomy.Base.{
  ℕ, ◌<◌, ◌≡◌, refl, sym, subst, true, false, List, [], ◌∷◌, some, arith, inl, inr, Bool-cases,
}
use autonomy.Inbox.Message.{AgentMessage}
use autonomy.Inbox.Store.{
  Table, first_row, update_rows, claim_next_message, start_at, is_waiting, waits_for,
}
use autonomy.Inbox.Store.Order.{
  Ascending, IsTable, first_row-bound, Ascending-update_rows, claim-IsTable,
}
use autonomy.Inbox.Store.Claim.{claim-inv}

started_row :
    (now agent : ℕ) (m : AgentMessage)
    → waits_for agent m ≡ true
    → (is_waiting m.id m ≡ true) × (waits_for agent (start_at now m) ≡ false)
unfolding is_waiting waits_for
started_row now agent m h = ground arith

other_row_waits : (id : ℕ) (m : AgentMessage) → m.id < id → is_waiting id m ≡ false
unfolding is_waiting
other_row_waits id m h = ground arith

next_row_later :
    (now agent lo : ℕ) (ms : List AgentMessage) (hi : ℕ) (q q' : AgentMessage)
    → Ascending lo ms hi
    → first_row (waits_for agent) ms ≡ some q
    → first_row (waits_for agent) (update_rows (is_waiting q.id) (start_at now) ms) ≡ some q'
    → q.id < q'.id
unfolding first_row update_rows
next_row_later now agent lo [] hi q q' h e e' = cc
next_row_later now agent lo (m ∷ ms) hi q q' h e e' = elim (Bool-cases (waits_for agent m)) [
  | inl b ↦
      let same : m ≡ q = ground (arith, b) in
      let (w, taken) = started_row now agent m b in
      let later : first_row (waits_for agent)
            (update_rows (is_waiting m.id) (start_at now) (m ∷ ms))
          ≡ some q' =
        subst
          (λ k.
            first_row (waits_for agent) (update_rows (is_waiting k.id) (start_at now) (m ∷ ms))
            ≡ some q')
          (sym same) e' in
      let rest : first_row (waits_for agent) (update_rows (is_waiting m.id) (start_at now) ms)
          ≡ some q' =
        ground (arith, w, taken, later) in
      let (above, _, _) =
        first_row-bound (waits_for agent) m.id (update_rows (is_waiting m.id) (start_at now) ms) hi
          q' (Ascending-update_rows (is_waiting m.id) (start_at now) (λ _. refl) m.id ms hi h.1)
          rest in
      subst (λ k. k.id < q'.id) same above
  | inr b ↦
      let first : first_row (waits_for agent) ms ≡ some q = ground (arith, b) in
      let (above, _, _) = first_row-bound (waits_for agent) m.id ms hi q h.1 first in
      let w : is_waiting q.id m ≡ false = other_row_waits q.id m above in
      next_row_later now agent m.id ms hi q q' h.1 first (ground (arith, b, w))
]

-- In a table whose ids rise along the rows, the message that the next claim takes arrived after the
-- one before.
pub claim-claim_later :
    (now later agent : ℕ) (t t' t'' : Table) (m m' : AgentMessage)
    → IsTable t
    → claim_next_message now agent t ≡ some (m, t')
    → claim_next_message later agent t' ≡ some (m', t'')
    → m.id < m'.id
claim-claim_later now later agent t t' t'' m m' h e e' =
    let (q, first, em, et) = claim-inv now agent t t' m h e in
    let (q', next, em', _) =
      claim-inv later agent t' t'' m' (claim-IsTable now agent t t' m h e).0 e' in
    rw (em, em')
      (next_row_later now agent 0 t.rows t.last_id q q' h first
        (subst (λ s. first_row (waits_for agent) s.rows ≡ some q') et next))
