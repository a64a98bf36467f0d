-- ===== src/Loop/Ends.antt =====
-- src/autonomy.go: how a run ends, and what it had executed.
use autonomy.Base.{
  if_cases, ℕ, zero, suc, ◌≤◌, ◌≡◌, refl, sym, subst, ap, ◌∙◌, Bool, true, false, List, [], ◌∷◌,
  Option, none, some, if◌then◌else◌, Result, ok, err, arith, Bool-cases, inl, inr, length,
}
use autonomy.Text.{Str}
use autonomy.Decision.{Decision, concludes, is_done, task_status_for, TaskStatus}
use autonomy.Loop.{
  Status, StopReason, Failure, RunTask, Planner, Turn, RunOutcome, Last, leave_loop, leave_with,
  stop_run, fail_run, execute_turn, decide_turn, decide_cycles, approved_cycle, run_loop, conclude,
  held_up, needs_plan_approval, mark_stopped, fail_task, pause_on, is_open, is_open_or_unset,
  after_executing, running, pending, completed, blocked, need_input, named_status, record_failed,
  decide_failed,
}

abbrev pub last_of {ℓ} : {A : Type ℓ} → List A → Option A
last_of [] = none
last_of (x ∷ []) = some x
last_of (x ∷ y ∷ xs) = last_of (y ∷ xs)

-- What a task answers that ended with this decision.
abbrev pub AnswersWith : Option (Decision × Option Str) → TaskStatus → Type 0
AnswersWith none s = ⊥
AnswersWith (some (d, some e)) s = ⊥
AnswersWith (some (d, none)) s = (concludes d ≡ true) × (task_status_for d ≡ s)

-- A task that ended with an answer ended with the last decision that was executed.
abbrev pub IsAnswered : RunOutcome → Type 0
IsAnswered o =
    (s : TaskStatus) → o.task.status ≡ named_status s → AnswersWith (last_of o.executed) s

-- No decision but the last is an answer that held up.
abbrev pub GoesOn : List (Decision × Option Str) → Type 0
GoesOn [] = Unit
GoesOn (x ∷ []) = Unit
GoesOn (x ∷ y ∷ xs) = (held_up x.0 x.1 ≡ false) × GoesOn (y ∷ xs)

-- An outcome within a number of cycles.
abbrev pub IsEnd : ℕ → RunOutcome → Type 0
IsEnd n o =
    (is_open o.task.status ≡ false) × (length o.executed ≤ n) × GoesOn o.executed × IsAnswered o

-- The last cycle did not end the run.
abbrev IsPending : Last → Type 0
IsPending none = Unit
IsPending (some x) = held_up x.0 x.1 ≡ false

abbrev is_answer : Status → Bool
is_answer completed = true
is_answer blocked = true
is_answer need_input = true
is_answer _ = false

named_status-is_answer : (s : TaskStatus) → is_answer (named_status s) ≡ true
named_status-is_answer TaskStatus.blocked = refl
named_status-is_answer TaskStatus.need_input = refl
named_status-is_answer TaskStatus.completed = refl

named_status-is_open : (s : TaskStatus) → is_open (named_status s) ≡ false
named_status-is_open TaskStatus.blocked = refl
named_status-is_open TaskStatus.need_input = refl
named_status-is_open TaskStatus.completed = refl

-- A run that executed nothing more and answers nothing.
unanswered-IsEnd :
    (n : ℕ) (o : RunOutcome)
    → o.executed ≡ []
    → is_open o.task.status ≡ false
    → is_answer o.task.status ≡ false
    → IsEnd n o
unanswered-IsEnd n o nothing ended none_given = rw nothing (
  ended,
  omega arith,
  tt,
  λ s e. absurd (ground (arith, none_given, ap is_answer e, named_status-is_answer s)),
)

open_or_unset : (st : Status) → is_open st ≡ true → is_open_or_unset st ≡ true
open_or_unset running h = refl
open_or_unset pending h = refl
open_or_unset _ h = cc

GoesOn-cons :
    (x : Decision × Option Str) (xs : List (Decision × Option Str))
    → held_up x.0 x.1 ≡ false
    → GoesOn xs
    → GoesOn (x ∷ xs)
GoesOn-cons x [] pend on = tt
GoesOn-cons x (y ∷ xs) pend on = (pend, on)

AnswersWith-cons :
    (s : TaskStatus) (x : Decision × Option Str) (xs : List (Decision × Option Str))
    → AnswersWith (last_of xs) s
    → AnswersWith (last_of (x ∷ xs)) s
AnswersWith-cons s x [] a = absurd a
AnswersWith-cons s x (y ∷ xs) a = a

abbrev answer_of : Status → TaskStatus
answer_of blocked = TaskStatus.blocked
answer_of need_input = TaskStatus.need_input
answer_of _ = TaskStatus.completed

answer_of-named_status : (s : TaskStatus) → answer_of (named_status s) ≡ s
answer_of-named_status TaskStatus.blocked = refl
answer_of-named_status TaskStatus.need_input = refl
answer_of-named_status TaskStatus.completed = refl

more-IsEnd : (m n : ℕ) (o : RunOutcome) → m ≤ n → IsEnd m o → IsEnd n o
more-IsEnd m n o more (ended, few, on, answered) = (ended, omega (arith, few), on, answered)

module _ (budget : ℕ) (reason : Option StopReason) where
  stop_run-IsEnd :
      (n : ℕ) (t : RunTask) (p : Planner)
      → is_open t.status ≡ true
      → IsEnd n (stop_run budget reason t p)
  unfolding stop_run mark_stopped
  stop_run-IsEnd n t p h =
      unanswered-IsEnd n (stop_run budget reason t p) refl (rw (open_or_unset t.status h) refl)
        (rw (open_or_unset t.status h) refl)

  fail_run-IsEnd :
      (n : ℕ) (f : Failure) (t : RunTask) (p : Planner) → IsEnd n (fail_run budget reason f t p)
  unfolding fail_run fail_task
  fail_run-IsEnd n f t p = unanswered-IsEnd n (fail_run budget reason f t p) refl refl refl

  -- A run that is left without an answer that held up.
  leave_with-IsEnd :
      (n : ℕ) (last : Last) (t : RunTask) (p : Planner)
      → is_open t.status ≡ true
      → IsPending last
      → IsEnd n (leave_with budget reason last t p)
  unfolding leave_with conclude fail_task
  leave_with-IsEnd n none t p h pend =
      unanswered-IsEnd n (leave_with budget reason none t p) (rw h refl) (rw h refl) (rw h refl)
  leave_with-IsEnd n (some (d, some e)) t p h pend =
      unanswered-IsEnd n (leave_with budget reason (some (d, some e)) t p) (rw h refl)
        (rw h (elim (Bool-cases (is_done d)) [ inl b ↦ rw b refl | inr b ↦ rw b refl ]))
        (rw h (elim (Bool-cases (is_done d)) [ inl b ↦ rw b refl | inr b ↦ rw b refl ]))
  leave_with-IsEnd n (some (d, none)) t p h pend =
      unanswered-IsEnd n (leave_with budget reason (some (d, none)) t p) (rw h refl)
        (rw (h, pend) refl) (rw (h, pend) refl)

  leave_loop-IsEnd :
      (n : ℕ) (turn : Turn) (last : Last) (t : RunTask) (p : Planner)
      → is_open t.status ≡ true
      → IsPending last
      → IsEnd n (leave_loop budget reason turn last t p)
  unfolding leave_loop
  leave_loop-IsEnd n turn last t p h pend = elim (Bool-cases turn.cancelled_leaving) [
    | inl c ↦ rw c (stop_run-IsEnd n t p h)
    | inr c ↦ rw c (leave_with-IsEnd n last t p h pend)
  ]

  -- A cycle in which a run ended without an answer.
  last-IsEnd :
      (x : Decision × Option Str) (o : RunOutcome)
      → o.executed ≡ []
      → IsEnd 0 o
      → IsEnd 1 (after_executing budget reason x o)
  last-IsEnd x o nothing (ended, few, on, answered) = (
    ended,
    rw nothing (omega arith),
    rw nothing tt,
    λ s e. absurd (subst (λ xs. AnswersWith (last_of xs) s) nothing (answered s e)),
  )

  answer-IsEnd :
      (d : Decision) (t : RunTask) (p : Planner)
      → concludes d ≡ true
      → IsEnd 1 (
          after_executing budget reason
            (d, none)
            (let (task, failure) = conclude budget (some (d, none)) t in
              record { task = task; planner = p; failure = failure; executed = [] }))
  unfolding conclude
  answer-IsEnd d t p held = (
    rw held (named_status-is_open (task_status_for d)),
    omega arith,
    tt,
    λ s e. (
      held,
      sym (answer_of-named_status (task_status_for d))
          ∙ ap answer_of (rw held at e)
          ∙ answer_of-named_status s,
    ),
  )

  -- The answer of a run that is left with one that held up.
  leave_answer :
      (turn : Turn) (d : Decision) (failed : Option Str) (t : RunTask) (p : Planner)
      → is_open t.status ≡ true
      → held_up d failed ≡ true
      → IsEnd 1 (
          after_executing budget reason
            (d, failed)
            (leave_loop budget reason turn (some (d, failed)) t p))
  unfolding leave_loop leave_with conclude
  leave_answer turn d (some e) t p h held = cc
  leave_answer turn d none t p h held =
      if_cases (λ o. IsEnd 1 (after_executing budget reason (d, none) o)) turn.cancelled_leaving
        (λ c.
          last-IsEnd (d, none) (stop_run budget reason t p) (unfold stop_run in refl)
            (stop_run-IsEnd 0 t p h))
        (λ c. rw h (answer-IsEnd d t p held))

  -- A cycle before the rest of a run.
  after-IsEnd :
      (n : ℕ) (x : Decision × Option Str) (o : RunOutcome)
      → held_up x.0 x.1 ≡ false
      → IsEnd n o
      → IsEnd (suc n) (after_executing budget reason x o)
  after-IsEnd n x o pend (ended, few, on, answered) = (
    ended,
    omega (arith, few),
    GoesOn-cons x o.executed pend on,
    λ s e. AnswersWith-cons s x o.executed (answered s e),
  )

  execute_turn-IsEnd :
      (n : ℕ) (turn : Turn) (d : Decision) (t : RunTask) (p : Planner) (next : Last → RunOutcome)
      → is_open t.status ≡ true
      → (held_up d turn.executed ≡ false → IsEnd n (next (some (d, turn.executed))))
      → IsEnd (suc n) (execute_turn budget reason turn d t p next)
  unfolding execute_turn
  execute_turn-IsEnd n turn d t p next h rest =
      let x : Decision × Option Str = (d, turn.executed) in
      let ends = λ (o : RunOutcome). IsEnd (suc n) (after_executing budget reason x o) in
      if_cases ends turn.cancelled_executing
        (λ c.
          more-IsEnd 1 (suc n) (after_executing budget reason x (stop_run budget reason t p))
            (omega arith)
            (last-IsEnd x (stop_run budget reason t p) (unfold stop_run in refl)
              (stop_run-IsEnd 0 t p h)))
        (λ c.
          if_cases ends (held_up d turn.executed)
            (λ held.
              more-IsEnd 1 (suc n)
                (after_executing budget reason x (leave_loop budget reason turn (some x) t p))
                (omega arith) (leave_answer turn d turn.executed t p h held))
            (λ goes. after-IsEnd n x (next (some x)) goes (rest goes)))

  pause_on-IsEnd :
      (n : ℕ) (d : Decision) (failed : Option Str) (t : RunTask) (p : Planner)
      → IsEnd n (pause_on budget reason d failed t p)
  pause_on-IsEnd n d (some e) t p = fail_run-IsEnd n (record_failed e) t p
  pause_on-IsEnd n d none t p =
      unanswered-IsEnd n (pause_on budget reason d none t p) refl refl refl

  decide_turn-IsEnd :
      (n : ℕ) (turn : Turn) (decided : Result Str Decision) (t : RunTask) (p : Planner)
      → (next : Last → RunOutcome) → is_open t.status ≡ true
      → ((last : Last) → IsPending last → IsEnd n (next last))
      → IsEnd (suc n) (decide_turn budget reason turn decided t p next)
  decide_turn-IsEnd n turn (err e) t p next h rest = elim (Bool-cases turn.cancelled_deciding) [
    | inl c ↦ rw c (stop_run-IsEnd (suc n) t p h)
    | inr c ↦ rw c (fail_run-IsEnd (suc n) (decide_failed e) t p)
  ]
  decide_turn-IsEnd n turn (ok d) t p next h rest = elim (Bool-cases (needs_plan_approval p d)) [
    | inl c ↦ rw c (pause_on-IsEnd (suc n) d turn.recorded t p)
    | inr c ↦
        rw c (execute_turn-IsEnd n turn d t p next h (λ go. rest (some (d, turn.executed)) go))
  ]

  decide_cycles-IsEnd :
      (left k : ℕ) (turns : ℕ → Turn) (t : RunTask) (p : Planner) (last : Last)
      → is_open t.status ≡ true
      → IsPending last
      → IsEnd left (decide_cycles budget reason left k turns t p last)
  unfolding decide_cycles
  decide_cycles-IsEnd zero k turns t p last h pend =
      if_cases (IsEnd 0) (turns k).cancelled_before (λ c. stop_run-IsEnd 0 t p h)
        (λ c. leave_loop-IsEnd 0 (turns k) last t p h pend)
  decide_cycles-IsEnd (suc left) k turns t p last h pend =
      let next = decide_cycles budget reason left (suc k) turns t p in
      if_cases (IsEnd (suc left)) (turns k).cancelled_before (λ c. stop_run-IsEnd (suc left) t p h)
        (λ c.
          decide_turn-IsEnd left (turns k) (turns k).decided t p next h
            (λ last pend. decide_cycles-IsEnd left (suc k) turns t p last h pend))

  approved_cycle-IsEnd :
      (left : ℕ) (turns : ℕ → Turn) (t : RunTask) (p : Planner) (plan : Option Decision)
      → is_open t.status ≡ true
      → IsEnd left (approved_cycle budget reason left turns t p plan)
  approved_cycle-IsEnd left turns t p none h = decide_cycles-IsEnd left 0 turns t p none h tt
  approved_cycle-IsEnd zero turns t p (some d) h =
      leave_loop-IsEnd 0 (turns 0) none t (record p { pending_plan = none; plan_approved = false })
        h tt
  approved_cycle-IsEnd (suc left) turns t p (some d) h =
      let p' = record p { pending_plan = none; plan_approved = false } in
      execute_turn-IsEnd left (turns 0) d t p' (decide_cycles budget reason left 1 turns t p') h
        (λ go. decide_cycles-IsEnd left 1 turns t p' (some (d, (turns 0).executed)) h go)

  -- However cycles go, a run of an open task ends, and the task is not open any more; as many
  -- decisions are executed at most as the budget has cycles; none is executed after an answer that
  -- held up; and a task that ended as completed, blocked or in need of input ended with the last
  -- decision executed, which is an answer of that kind and was not refused.
  pub run_loop-IsEnd :
      (turns : ℕ → Turn) (t : RunTask) (p : Planner)
      → is_open t.status ≡ true
      → IsEnd budget (run_loop budget reason turns t p)
  unfolding run_loop
  run_loop-IsEnd turns t p h = elim (Bool-cases (turns 0).cancelled_before) [
    | inl c ↦ rw c (stop_run-IsEnd budget t p h)
    | inr c ↦
        rw c (
          approved_cycle-IsEnd budget turns t p (if p.plan_approved then p.pending_plan else none)
            h)
  ]
