-- ===== src/Inbox/Queue/Awake.antt =====
-- src/inbox.go: what one step of a goroutine does to what all of them know.
use autonomy.Base.{
  ℕ, zero, suc, ◌+◌, ◌≤◌, ◌<◌, ◌≡◌, ◌≢◌, refl, subst, ◌⊎◌, inl, inr, true, false, List, [], ◌∷◌,
  ◌++◌, Option, none, some, arith, All, All-append,
}
use autonomy.Inbox.Message.{AgentMessage}
use autonomy.Text.{is_some}
use autonomy.Inbox.Store.{Table, first_row, waits_for}
use autonomy.Inbox.Store.Order.{
  IsTable, finishes, reclaims, puts_back, apply, call-IsTable, claim-IsTable,
}
use autonomy.Inbox.Queue.{
  Shared, Thread, starting, registering, beginning, reclaiming, claiming, ending, requeueing,
  finishing, Choice, none_met, ended_as, claim, claim_step, act, act_at,
}
use autonomy.Inbox.Queue.Mutex.{weight, consumers, flag}
use autonomy.Inbox.Queue.Wake.{waiting, is_starter, starters, Knows, act-Knows}

starters-append : (ts us : List Thread) → starters (ts ++ us) ≡ starters ts + starters us
starters-append [] us = omega arith
starters-append (t ∷ ts) us = omega (arith, starters-append ts us)

weight_cases : (t : Thread) → (weight t ≡ 0) ⊎ (weight t ≡ 1)
weight_cases starting = inl refl
weight_cases registering = inl refl
weight_cases _ = inr refl

-- What a goroutine that is no consumer leaves of what is shared.
abbrev pub IsMild : Shared → Shared → Type 0
IsMild sh sh' = (sh'.table ≡ sh.table) × (sh'.gen ≡ sh.gen) × (sh.held ≡ true → sh'.held ≡ true)

module _ (agent : ℕ) where
  act-IsMild :
      (c : Choice) (t : Thread) (sh : Shared) → weight t ≡ 0 → IsMild sh (act agent c t sh).1
  unfolding act
  act-IsMild c starting sh h = ground arith
  act-IsMild c registering sh h = ground arith
  act-IsMild c _ sh h = cc

  act_at-IsMild :
      (k : ℕ) (c : Choice) (ts : List Thread) (sh : Shared)
      → consumers ts ≡ 0
      → IsMild sh (act_at agent k c ts sh).1
  unfolding act_at
  act_at-IsMild k c [] sh h = (refl, refl, λ e. e)
  act_at-IsMild zero c (t ∷ ts) sh h = act-IsMild c t sh (omega arith)
  act_at-IsMild (suc k) c (t ∷ ts) sh h = act_at-IsMild k c ts sh (omega arith)

  mild-Knows : (t : Thread) (sh sh' : Shared) → IsMild sh sh' → Knows agent sh t → Knows agent sh' t
  mild-Knows starting sh sh' m k = tt
  mild-Knows registering sh sh' m k = tt
  mild-Knows (requeueing g msg) sh sh' (et, eg, keeps) k = (omega (arith, eg, k.0), keeps k.1)
  mild-Knows (ending g) sh sh' (et, eg, keeps) k = (
    omega (arith, eg, k.0),
    λ w. elim (k.1 (subst (λ t. is_some (first_row (waits_for agent) t.rows) ≡ true) et w)) [
      | inl l ↦ inl (omega (arith, eg, l))
      | inr e ↦ inr (keeps e)
    ],
  )
  mild-Knows _ sh sh' (et, eg, keeps) k = omega (arith, eg, k)

  -- A goroutine that is no consumer knows nothing.
  bystander-Knows : (t : Thread) (sh : Shared) → weight t ≡ 0 → Knows agent sh t
  bystander-Knows starting sh h = tt
  bystander-Knows registering sh h = tt
  bystander-Knows _ sh h = cc

  bystanders-Knows : (ts : List Thread) (sh : Shared) → consumers ts ≡ 0 → All (Knows agent sh) ts
  bystanders-Knows [] sh h = tt
  bystanders-Knows (t ∷ ts) sh h =
      (bystander-Knows t sh (omega arith), bystanders-Knows ts sh (omega arith))

  pub All-Knows_mild :
      (ts : List Thread) (sh sh' : Shared)
      → IsMild sh sh'
      → All (Knows agent sh) ts
      → All (Knows agent sh') ts
  All-Knows_mild [] sh sh' m ks = tt
  All-Knows_mild (t ∷ ts) sh sh' m ks =
      (mild-Knows t sh sh' m ks.0, All-Knows_mild ts sh sh' m ks.1)

  -- After one goroutine's step, each knows what it should.
  pub act_at-Knows :
      (k : ℕ) (c : Choice) (ts : List Thread) (sh : Shared)
      → agent ≢ 0
      → IsTable sh.table
      → c.fault ≡ none_met
      → consumers ts ≤ 1
      → All (Knows agent sh) ts
      → All (Knows agent (act_at agent k c ts sh).1) (act_at agent k c ts sh).0
  unfolding act_at
  act_at-Knows k c [] sh a h f one ks = tt
  act_at-Knows zero c (t ∷ ts) sh a h f one ks =
      All-append (Knows agent (act agent c t sh).1) (act agent c t sh).0 ts
        (act-Knows agent c t sh a h f ks.0)
        (elim (weight_cases t) [
          | inl z ↦ All-Knows_mild ts sh (act agent c t sh).1 (act-IsMild c t sh z) ks.1
          | inr o ↦ bystanders-Knows ts (act agent c t sh).1 (omega (arith, one, o))
        ])
  act_at-Knows (suc k) c (t ∷ ts) sh a h f one ks = (
    elim (weight_cases t) [
      | inl z ↦ bystander-Knows t (act_at agent k c ts sh).1 z
      | inr o ↦
          mild-Knows t sh (act_at agent k c ts sh).1
            (act_at-IsMild k c ts sh (omega (arith, one, o))) ks.0
    ],
    act_at-Knows k c ts sh a h f (omega arith) ks.1,
  )

  -- While nobody consumes, a message that waits has somebody on the way to it, or the agent is held.
  -- `k` counts those in `start` that stand elsewhere.
  abbrev pub IsWoken : ℕ → List Thread → Shared → Type 0
  IsWoken k ts sh =
      sh.running ≡ false → waiting agent sh ≡ true → (0 < k + starters ts) ⊎ (sh.held ≡ true)

  claim_step-running :
      (g : ℕ) (o : Option (AgentMessage × Table)) (sh : Shared)
      → (claim_step g none_met o sh).1.running ≡ sh.running
  unfolding claim_step
  claim_step-running g none sh = refl
  claim_step-running g (some (m, t)) sh = refl

  act-IsWoken :
      (k : ℕ) (c : Choice) (t : Thread) (sh : Shared)
      → c.fault ≡ none_met
      → weight t ≤ flag sh
      → Knows agent sh t
      → IsWoken k (t ∷ []) sh
      → IsWoken k (act agent c t sh).0 (act agent c t sh).1
  unfolding act
  act-IsWoken k c starting sh f one ks h = ground arith
  act-IsWoken k c registering sh f one ks h = ground arith
  act-IsWoken k c (ending g) sh f one ks h = ground arith
  act-IsWoken k c (claiming g) sh f one ks h =
      rw f (λ r. absurd (ground (arith, claim_step-running g (claim agent c sh) sh)))
  act-IsWoken k c _ sh f one ks h = ground arith

  pub act_at-IsWoken :
      (j k : ℕ) (c : Choice) (ts : List Thread) (sh : Shared)
      → c.fault ≡ none_met
      → consumers ts ≤ flag sh
      → All (Knows agent sh) ts
      → IsWoken j ts sh
      → IsWoken j (act_at agent k c ts sh).0 (act_at agent k c ts sh).1
  unfolding act_at
  act_at-IsWoken j k c [] sh f one ks h r w = h r w
  act_at-IsWoken j zero c (t ∷ ts) sh f one ks h r w =
      let before : IsWoken (j + starters ts) (t ∷ []) sh = λ r w. ground (arith, h r w) in
      ground (
        arith,
        act-IsWoken (j + starters ts) c t sh f (omega arith) ks.0 before r w,
        starters-append (act agent c t sh).0 ts,
      )
  act_at-IsWoken j (suc k) c (t ∷ ts) sh f one ks h r w = ground (
    arith,
    act_at-IsWoken (j + is_starter t) k c ts sh f (omega arith) ks.1 (λ r w. ground (arith, h r w))
        r w,
  )

  claim_step-IsTable :
      (g : ℕ) (c : Choice) (o : Option (AgentMessage × Table)) (sh : Shared)
      → IsTable sh.table
      → claim agent c sh ≡ o
      → IsTable (claim_step g none_met o sh).1.table
  unfolding claim_step
  claim_step-IsTable g c none sh h e = h
  claim_step-IsTable g c (some (m, t)) sh h e = (claim-IsTable c.now agent sh.table t m h e).0

  act-IsTable :
      (c : Choice) (t : Thread) (sh : Shared)
      → c.fault ≡ none_met
      → IsTable sh.table
      → IsTable (act agent c t sh).1.table
  unfolding act apply
  act-IsTable c starting sh f h = ground arith
  act-IsTable c registering sh f h = ground arith
  act-IsTable c (beginning g) sh f h = ground arith
  act-IsTable c (reclaiming g) sh f h = rw f (call-IsTable c.now (reclaims agent) sh.table h).0
  act-IsTable c (claiming g) sh f h = rw f (claim_step-IsTable g c (claim agent c sh) sh h refl)
  act-IsTable c (requeueing g m) sh f h = rw f (call-IsTable c.now (puts_back m.id) sh.table h).0
  act-IsTable c (finishing g m w o) sh f h =
      rw f (call-IsTable c.now (finishes m.id (ended_as o).0 (ended_as o).1) sh.table h).0
  act-IsTable c _ sh f h = ground arith

  pub act_at-IsTable :
      (k : ℕ) (c : Choice) (ts : List Thread) (sh : Shared)
      → c.fault ≡ none_met
      → IsTable sh.table
      → IsTable (act_at agent k c ts sh).1.table
  unfolding act_at
  act_at-IsTable k c [] sh f h = h
  act_at-IsTable zero c (t ∷ ts) sh f h = act-IsTable c t sh f h
  act_at-IsTable (suc k) c (t ∷ ts) sh f h = act_at-IsTable k c ts sh f h
