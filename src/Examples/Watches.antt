-- ===== src/Examples/Watches.antt =====
-- Watches of objects in the world.
use autonomy.Base.{
  arith, ◌≡◌, ◌≢◌, refl, subst, true, [], ◌∷◌, none, some, Result, ok, length, Bool-cases, inl, inr,
  false,
}
use autonomy.Text.{
  Str, codes, str_eq, trim_space, trim_left, is_blank, is_space, to_lower, lower_rune, equal_fold,
  fold_rune,
}
use autonomy.Dict.{lookup, put, Dict, remove}
use autonomy.Watcher.{
  Observation, Probe, Item, Watcher, new_watcher, with_interval, add_probes, field,
}
use autonomy.Watcher.Probes.{
  pull_request_probe, pull_request_fingerprint, pull_request_done, state_of, says_closed,
  says_merged,
}
use autonomy.Watcher.Poll.{poll, poll_rows, poll_seen, refresh, snapshot_rows}
use autonomy.Watcher.Door.{WatchRequest, watch_interval}
use autonomy.Watcher.Door.Bounds.{Names, decimal, seconds, with_interval-watch_interval}
use autonomy.Watcher.Door.Open.{IsPlain, IsOpen, asks, passes, look_all, look_all-IsOpen}
use autonomy.Watcher.Loops.{
  watches, closes, ticks, settles, run_loops, no_loop, loop_step, ensure_loop, close, still_busy,
}
use autonomy.Watcher.Loops.Alone.{HasOneLoop, IsCalmRun, one_loop}

-- The world is the state of the one pull request there is.
reads : Str → Str → Result Str Observation
reads state target =
    ok ((codes "pr", target) ∷ (codes "state", state) ∷ (codes "merged", codes "false") ∷ [])

abbrev a_probe : Probe Str
a_probe = pull_request_probe (some reads)

abbrev an_item : Item
an_item = record {
  spec = record {
    kind = codes "pull_request";
    target = codes "o/r#7";
    until = codes "merged";
    task_id = codes "t1";
    fields = [];
  };
  fingerprint = codes "open|false";
}

abbrev a_watcher : Watcher Str
a_watcher = record {
  probes = (codes "pull_request", a_probe) ∷ [];
  items = (codes "pull_request:o/r#7", an_item) ∷ [];
  interval = 15000000000;
  has_sink = true;
}

abbrev a_request : WatchRequest
a_request = record {
  kind = [];
  target = [];
  pr = codes "o/r#7";
  deployment = [];
  until = [];
  task_id = codes "t1";
}

no_probe : {p : Probe Str} → none ≢ some p
no_probe e = cc

same_probe : {p q : Probe Str} → some p ≡ some q → p ≡ q
same_probe e = cc

plain : IsPlain (new_watcher (a_probe ∷ [])).probes
unfolding new_watcher add_probes put lookup pull_request_probe is_blank trim_space trim_left
    is_space
plain k p e = elim (Bool-cases (str_eq (codes "pull_request") k)) [
  | inl b ↦
      subst (λ (q : Probe Str). trim_space q.default_until ≡ q.default_until)
        (same_probe (rw b at e)) refl
  | inr b ↦ absurd (no_probe (rw b at e))
]

look_all-IsOpen_example : IsOpen (
    look_all str_eq
      (asks (codes "open") a_request ∷ passes (λ id. codes "closed") ∷ [])
      (new_watcher (a_probe ∷ [])))
look_all-IsOpen_example =
    look_all-IsOpen str_eq (asks (codes "open") a_request ∷ passes (λ id. codes "closed") ∷ [])
      (a_probe ∷ []) plain

named : Names (codes " 90 ") [] (9 ∷ 0 ∷ [])
unfolding trim_space trim_left is_space
named = inl refl

with_interval-watch_interval_example :
    (with_interval (watch_interval (codes " 90 ") []) (new_watcher (a_probe ∷ []))).interval
    ≡ seconds (decimal (9 ∷ 0 ∷ []))
with_interval-watch_interval_example =
    with_interval-watch_interval (codes " 90 ") [] (9 ∷ 0 ∷ []) (a_probe ∷ []) (λ e. cc)
      (omega arith, (omega arith, tt)) (omega arith) named

calm : IsCalmRun (watches ∷ settles 0 ∷ closes ∷ watches ∷ ticks 0 ∷ []) no_loop
unfolding run_loops loop_step ensure_loop close still_busy no_loop
calm = (tt, (tt, ((refl, tt), (tt, (tt, tt)))))

one_loop_example :
    HasOneLoop (run_loops (watches ∷ settles 0 ∷ closes ∷ watches ∷ ticks 0 ∷ []) no_loop)
one_loop_example = one_loop (watches ∷ settles 0 ∷ closes ∷ watches ∷ ticks 0 ∷ []) calm

-- A Close that comes during a pass leaves its goroutine, and the next Watch starts a second one.
closed_too_early :
    length (run_loops (watches ∷ settles 0 ∷ ticks 0 ∷ closes ∷ watches ∷ []) no_loop).loops ≡ 2
unfolding run_loops loop_step ensure_loop close still_busy no_loop
closed_too_early = refl

-- Two findings about what a pass forgets. Here the world is the text of `merged`.
reads_merged : Str → Str → Result Str Observation
reads_merged merged target =
    ok ((codes "pr", target) ∷ (codes "state", codes "open") ∷ (codes "merged", merged) ∷ [])

abbrev merge_probe : Probe Str
merge_probe = pull_request_probe (some reads_merged)

abbrev pr_id : Str
pr_id = codes "pull_request:o/r#7"

-- What a pass took up: it waits for `closed`.
abbrev old_item : Item
old_item = record an_item { spec = record (an_item.spec) { until = codes "closed" } }

-- A request at the door then made it wait for `merged`, and the row of the old item comes to its turn.
abbrev raced : Dict Item
raced =
    (poll_rows true (λ id. codes "true")
      (record { id = pr_id; item = old_item; probe = some merge_probe } ∷ [])
      ((pr_id, an_item) ∷ [])).0

abbrev stale : Item
stale =
    refresh (codes "open|true")
      ((codes "pr", codes "o/r#7")
        ∷ (codes "state", codes "open")
        ∷ (codes "merged", codes "true")
        ∷ [])
      an_item

-- The item stays, although it is done.
raced_item : raced ≡ (pr_id, stale) ∷ []
unfolding poll_rows poll_seen refresh pull_request_probe reads_merged pull_request_fingerprint
    pull_request_done state_of field lookup put remove str_eq to_lower lower_rune trim_space
    trim_left is_space is_blank says_closed says_merged equal_fold fold_rune
raced_item = refl

raced_done : merge_probe.done stale.spec.fields stale.spec.until ≡ true
unfolding refresh pull_request_probe pull_request_done field lookup str_eq says_closed says_merged
    equal_fold fold_rune to_lower lower_rune trim_space trim_left is_space is_blank
raced_done = refl

-- And every later pass leaves it.
raced_stays :
    (poll
      (λ id. codes "true")
      (record a_watcher {
        probes = (codes "pull_request", merge_probe) ∷ [];
        items = (pr_id, stale) ∷ [];
      })).0.items
    ≡ (pr_id, stale) ∷ []
unfolding poll poll_rows snapshot_rows poll_seen refresh pull_request_probe reads_merged
    pull_request_fingerprint pull_request_done state_of field lookup put remove str_eq to_lower
    lower_rune trim_space trim_left is_space is_blank says_closed says_merged equal_fold fold_rune
raced_stays = refl

-- A state with a space after it is no `closed`, and the same without it has the same fingerprint.
abbrev spaced : Observation
spaced = (codes "state", codes "closed ") ∷ []

abbrev bare : Observation
bare = (codes "state", codes "closed") ∷ []

spaced_waits :
    (pull_request_fingerprint spaced ≡ pull_request_fingerprint bare)
    × (pull_request_done spaced (codes "merged") ≡ false)
    × (pull_request_done bare (codes "merged") ≡ true)
unfolding pull_request_fingerprint pull_request_done state_of field lookup str_eq to_lower
    lower_rune trim_space trim_left is_space says_closed says_merged equal_fold fold_rune
spaced_waits = (refl, refl, refl)
