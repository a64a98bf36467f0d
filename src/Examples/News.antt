-- ===== src/Examples/News.antt =====
-- Facts from outside, through the gateway and its log.
use autonomy.Base.{
  All, any, ◌≡◌, refl, true, false, [], ◌∷◌, none, some, ok, arith, length, keep, ◌≤◌,
}
use autonomy.Text.{
  Str, codes, str_eq, is_blank, trim_space, trim_left, is_space, equal_fold, fold_rune,
}
use autonomy.Text.Laws.{str_eq_iff}
use autonomy.Dict.{Dict, lookup}
use autonomy.Events.{Subject, Envelope, WorldEvent, validate, to_event, normalize_canonical}
use autonomy.Events.Log.{
  find_key, find_id, add, key_name, is_keyed, key_of, drop_oldest, MemoryLog, Appended, Filter,
  new_memory_log, append, match_filter, admits, id_name,
}
use autonomy.Events.Log.Index.{NamesApart, find}
use autonomy.Events.Log.Remember.{IsLog, remember, append-remember}
use autonomy.Events.Log.Repeats.{IsNulFree, repeats, append_lem}
use autonomy.Events.Log.Paging.{after, matching, read_pages, read_pages_lem}
use autonomy.Events.Gateway.{
  Gateway, Stamp, ingest, canonical_adapter, with_log, stamp, normalize_with,
}
use autonomy.Events.Gateway.Once.{ingest-ingest}
use autonomy.Watcher.{Observation, Spec, field, first_non_empty}
use autonomy.Watcher.Probes.{pull_request_change, pull_request_news, says_merged, says_closed}
use autonomy.Watcher.News.{envelope_of, watch_sink, watch_sink-watch_sink}

abbrev no_subject : Subject
no_subject = record { task_id = []; agent_id = []; asset_id = []; action_id = []; project_id = [] }

abbrev merged : WorldEvent Unit
merged = record {
  id = codes "evt-1";
  source = codes "github";
  type = codes "github.pull_request.merged";
  subject = no_subject;
  payload = none;
  occurred_at = some 5;
  received_at = some 6;
  idempotency_key = codes "pr-1:merged";
}

abbrev again : WorldEvent Unit
again = record merged { id = codes "evt-2"; received_at = some 9 }

empty_log : MemoryLog Unit
empty_log = new_memory_log

new_memory_log-IsLog : (P : Type 0) → IsLog {Payload = P} new_memory_log
unfolding new_memory_log lookup
new_memory_log-IsLog P = ((λ k. refl, tt), (λ k. refl, tt), omega arith)

abbrev one_event : MemoryLog Unit
one_event = (append merged new_memory_log).log

one_event-IsLog : IsLog one_event
one_event-IsLog = (append-remember merged new_memory_log (new_memory_log-IsLog _) (λ e. cc)).0

plain_nul : IsNulFree (codes "github")
unfolding any
plain_nul = refl

plain_sources : All (λ (old : WorldEvent Unit). IsNulFree old.source) one_event.events
unfolding append find_key find_id add key_name id_name is_keyed key_of drop_oldest new_memory_log
    any lookup
plain_sources = (refl, tt)

append_lem_example :
    IsLog (append again one_event).log
    × ((
      (append again one_event).stored,
      (append again one_event).duplicate,
      (append again one_event).log.events,
    )
        ≡ remember (repeats again one_event.events) again one_event.events)
append_lem_example = append_lem again one_event one_event-IsLog (λ e. cc) plain_nul plain_sources

abbrev two_events : MemoryLog Unit
two_events = record { events = merged ∷ again ∷ []; by_id = []; by_key = [] }

abbrev after_first : Filter
after_first = record { source = []; type = []; task_id = []; after = codes "evt-1"; limit = 1 }

two_ids : NamesApart id_name two_events.events
unfolding id_name str_eq
two_ids = (
  λ k e. let same : codes "evt-1" ≡ k = (str_eq_iff (codes "evt-1") k).0 e in rw (← same) refl,
  (λ k e. refl, tt),
)

one_left : length (matching after_first (after after_first.after two_events.events)) ≤ 2
unfolding keep match_filter str_eq admits
one_left = omega arith

read_pages_lem_example :
    read_pages 2 after_first two_events
    ≡ matching after_first (after after_first.after two_events.events)
read_pages_lem_example =
    read_pages_lem 2 after_first two_events two_ids (λ e. cc, (λ e. cc, tt)) (λ e. cc) one_left

abbrev a_gateway : Gateway (Dict Str)
a_gateway = record { log = new_memory_log; adapters = canonical_adapter ∷ [] }

abbrev first_stamp : Stamp
first_stamp = record { now = 10; new_id = codes "evt-a" }

abbrev second_stamp : Stamp
second_stamp = record { now = 20; new_id = codes "evt-b" }

abbrev a_fact : Envelope (Dict Str)
a_fact = record {
  source = codes "github";
  type = codes "merged";
  subject = no_subject;
  payload = none;
  occurred_at = none;
  idempotency_key = codes "pr-1";
}

first_answer : Appended (Dict Str)
first_answer = append (stamp [] first_stamp (to_event a_fact)) new_memory_log

taken : ingest [] first_stamp a_fact (some a_gateway) ≡ ok first_answer
unfolding ingest first_answer normalize_with canonical_adapter normalize_canonical validate is_blank
    trim_space trim_left is_space
taken = refl

new_here : find id_name (codes "evt-a") a_gateway.log.events ≡ none
unfolding new_memory_log
new_here = refl

keyed : is_blank a_fact.idempotency_key ≡ false
unfolding is_blank trim_space trim_left is_space
keyed = refl

valid : validate a_fact ≡ none
unfolding validate is_blank trim_space trim_left is_space
valid = refl

ingest-ingest_example :
    ingest [] second_stamp a_fact (some (with_log a_gateway first_answer))
    ≡ ok (record { stored = first_answer.stored; duplicate = true; log = first_answer.log })
ingest-ingest_example =
    ingest-ingest [] first_stamp second_stamp a_fact a_fact a_gateway first_answer
      (new_memory_log-IsLog _) refl (λ e. cc) (λ e. cc) new_here keyed refl refl taken valid

abbrev pr_spec : Spec
pr_spec = record {
  kind = codes "pull_request";
  target = codes "o/r#7";
  until = codes "merged";
  task_id = codes "t1";
  fields = [];
}

abbrev pr_open : Observation
pr_open =
    (codes "repo", codes "o/r") ∷ (codes "number", codes "7") ∷ (codes "state", codes "open") ∷ []

abbrev pr_draft : Observation
pr_draft =
    (codes "repo", codes "o/r") ∷ (codes "number", codes "7") ∷ (codes "state", codes "draft") ∷ []

draft_answer : Appended (Dict Str)
draft_answer =
    append (stamp [] first_stamp (to_event (envelope_of (pull_request_change pr_spec pr_draft))))
      new_memory_log

sent :
    watch_sink first_stamp (pull_request_change pr_spec pr_draft) (some a_gateway) ≡ ok draft_answer
unfolding watch_sink ingest draft_answer normalize_with canonical_adapter normalize_canonical
    validate is_blank trim_space trim_left is_space envelope_of pull_request_change
    pull_request_news says_merged str_eq field lookup says_closed equal_fold fold_rune
sent = refl

same_repo :
    first_non_empty (field (codes "repo") pr_draft ∷ field (codes "repo") [] ∷ [])
    ≡ first_non_empty (field (codes "repo") pr_open ∷ field (codes "repo") [] ∷ [])
unfolding first_non_empty field lookup str_eq is_blank trim_space trim_left is_space
same_repo = refl

same_number :
    first_non_empty (field (codes "number") pr_draft ∷ field (codes "number") [] ∷ [])
    ≡ first_non_empty (field (codes "number") pr_open ∷ field (codes "number") [] ∷ [])
unfolding first_non_empty field lookup str_eq is_blank trim_space trim_left is_space
same_number = refl

same_merged : says_merged pr_draft ≡ says_merged pr_open
unfolding says_merged field lookup str_eq
same_merged = refl

same_closed : says_closed pr_draft ≡ says_closed pr_open
unfolding says_closed field lookup str_eq equal_fold fold_rune
same_closed = refl

watch_sink-watch_sink_example :
    watch_sink second_stamp
      (pull_request_change pr_spec pr_open)
      (some (with_log a_gateway draft_answer))
    ≡ ok (record { stored = draft_answer.stored; duplicate = true; log = draft_answer.log })
watch_sink-watch_sink_example =
    watch_sink-watch_sink first_stamp second_stamp pr_spec pr_spec pr_draft pr_open a_gateway
      draft_answer (new_memory_log-IsLog _) refl (λ e. cc) (λ e. cc) new_here same_repo same_number
      same_merged same_closed sent
