-- ===== src/Inbox/Store/Rows.antt =====
-- src/db/sqlite_inbox.go: the row of an id, under an insert and an update.
use autonomy.Base.{
  ℕ, ◌≡◌, Bool, List, [], ◌∷◌, ◌++◌, some, Option-cases, arith, inl, inr, ◌==◌, if◌then◌else◌,
}
use autonomy.Inbox.Message.{AgentMessage}
use autonomy.Inbox.Store.{Table, first_row, update_rows, claim_row, claim_next_message, waits_for}

pub first_row-append :
    (p : AgentMessage → Bool) (ms : List AgentMessage) (r m : AgentMessage)
    → first_row p ms ≡ some m
    → first_row p (ms ++ (r ∷ [])) ≡ some m
unfolding first_row
first_row-append p [] r m h = absurd (ground (arith, h))
first_row-append p (x ∷ ms) r m h = ground (arith, h, first_row-append p ms r m)

-- An update changes the message of an id as it changes any row.
pub first_row-update_rows :
    (id : ℕ) (p : AgentMessage → Bool) (f : AgentMessage → AgentMessage) (ms : List AgentMessage)
    (m : AgentMessage)
    → ((m : AgentMessage) → (f m).id ≡ m.id)
    → first_row (λ m. m.id == id) ms ≡ some m
    → first_row (λ m. m.id == id) (update_rows p f ms) ≡ some (if p m then f m else m)
unfolding first_row update_rows
first_row-update_rows id p f [] m same h = absurd (ground (arith, h))
first_row-update_rows id p f (x ∷ ms) m same h =
    ground (arith, h, same m, same x, first_row-update_rows id p f ms m same)

-- A claim is the guarded update of some message.
pub claim-claim_row :
    (now agent : ℕ) (t t' : Table) (q : AgentMessage)
    → claim_next_message now agent t ≡ some (q, t')
    → (k : ℕ) × (claim_row now k t ≡ some (q, t'))
unfolding claim_next_message
claim-claim_row now agent t t' q e = elim (Option-cases (first_row (waits_for agent) t.rows)) [
  | inl n ↦ absurd (ground (arith, n, e))
  | inr (r, n) ↦ (r.id, ground (arith, n, e))
]

pub first_row-id :
    (id : ℕ) (ms : List AgentMessage) (m : AgentMessage)
    → first_row (λ m. m.id == id) ms ≡ some m
    → m.id ≡ id
unfolding first_row
first_row-id id [] m h = absurd (ground (arith, h))
first_row-id id (x ∷ ms) m h = ground (arith, h, first_row-id id ms m)
