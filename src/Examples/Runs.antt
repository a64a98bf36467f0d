-- ===== src/Examples/Runs.antt =====
-- Runs of the decision loop, the watchdog and the restart.
use autonomy.Base.{
  keep, inr, arith, ℕ, ◌+◌, ◌≤◌, ◌≡◌, refl, ◌↔◌, true, false, [], ◌∷◌, Option, none, some, ok,
}
use autonomy.Text.{Str, codes}
use autonomy.Decision.{Decision}
use autonomy.Loop.{RunTask, Planner, Turn, run_loop, running, by_runtime}
use autonomy.Loop.Ends.{IsEnd, run_loop-IsEnd}
use autonomy.Loop.Gate.{NoPlan, run_loop-NoPlan}
use autonomy.Idle.{new_watchdog, run_idle, on_idle, touches, rings, went_idle}
use autonomy.Idle.Silence.{last_activity, on_idle_iff}
use autonomy.Graceful.{RestartNotice, TaskRow, is_accepted, is_interrupted, resumable_after_cut}
use autonomy.Base.{zero, suc, any}
use autonomy.Idle.{touch, idle_step}
use autonomy.Examples.Messages.{
  first, first_taken, first_is_claimed, two_waiting-IsTable, two_waiting,
}
use autonomy.Inbox.Store.{start_at}
use autonomy.Graceful.Claimed.{messages_of, is_accepted-claim}
use autonomy.Graceful.Resume.{stopped_row, is_by_runtime, resumable_after_cut_iff}

abbrev says : Str → Decision
says type = record {
  type = type;
  reason = [];
  origin = record { reason_turn_id = 0; input_message_id = 0; reply_message_id = 0 };
  evidence = [];
  contract = [];
  actions = [];
  need = record { type = []; description = []; options = [] };
}

abbrev decides : Str → Option Str → Turn
decides type failed = record {
  cancelled_before = false;
  decided = ok (says type);
  cancelled_deciding = false;
  recorded = none;
  cancelled_executing = false;
  executed = failed;
  cancelled_leaving = false;
}

-- A plan whose step fails, and then a done that holds up.
abbrev plan_then_done : ℕ → Turn
plan_then_done zero = decides (codes "plan") (some (codes "step failed"))
plan_then_done (suc k) = decides (codes "done") none

abbrev open_task : RunTask
open_task = record { status = running; error = none }

abbrev free : Planner
free = record { require_plan_approval = false; plan_approved = false; pending_plan = none }

abbrev gated : Planner
gated = record { require_plan_approval = true; plan_approved = false; pending_plan = none }

run_loop-IsEnd_example : IsEnd 10 (run_loop 10 none plan_then_done open_task free)
run_loop-IsEnd_example = run_loop-IsEnd 10 none plan_then_done open_task free refl

run_loop-NoPlan_example : NoPlan (run_loop 10 none plan_then_done open_task gated)
run_loop-NoPlan_example = run_loop-NoPlan 10 none plan_then_done open_task gated (refl, refl)

awake : (run_idle (touches 7 ∷ rings 10 ∷ []) (new_watchdog 10 0)).cause ≡ none
unfolding run_idle idle_step touch on_idle new_watchdog
awake = refl

on_idle_iff_example :
    ((run_idle (touches 7 ∷ rings 10 ∷ []) (new_watchdog 10 0)).timer
      ≡ some (last_activity 0 (touches 7 ∷ rings 10 ∷ []) + 10))
    × (((on_idle 17 (run_idle (touches 7 ∷ rings 10 ∷ []) (new_watchdog 10 0))).cause
          ≡ some went_idle)
        ↔ (last_activity 0 (touches 7 ∷ rings 10 ∷ []) + 10 ≤ 17))
on_idle_iff_example = on_idle_iff 10 0 17 (touches 7 ∷ rings 10 ∷ []) (omega arith) awake

abbrev a_notice : RestartNotice
a_notice = record {
  service_id = [];
  request_id = codes "r1";
  deployment = [];
  version = [];
  message = [];
}

resumable_after_cut_iff_example :
    resumable_after_cut (stopped_row (codes "t1") 7 (by_runtime (codes "r1") [] []))
    ≡ is_by_runtime (by_runtime (codes "r1") [] [])
resumable_after_cut_iff_example =
    resumable_after_cut_iff (codes "t1") 7 (by_runtime (codes "r1") [] [])

abbrev waiting_task : TaskRow
waiting_task = record { id = codes "t"; agent_id = 7; status = running; error = [] }

accepted : is_accepted waiting_task (messages_of 7 two_waiting) ≡ true
unfolding is_accepted any keep
accepted = refl

is_accepted-claim_example :
    (is_interrupted 60 50 waiting_task (messages_of 7 two_waiting) ≡ false)
    × (is_interrupted 60 50 waiting_task (messages_of 7 first_taken) ≡ true)
is_accepted-claim_example =
    is_accepted-claim 20 60 50 waiting_task two_waiting first_taken (start_at 20 first)
      two_waiting-IsTable accepted first_is_claimed (inr (inr refl)) (omega arith)
