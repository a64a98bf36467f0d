-- ===== src/Watcher/News.antt =====
-- src/watch.go: what the watcher hands to the event gateway.
use autonomy.Base.{
  ◌≡◌, ◌≢◌, refl, sym, ap, true, false, [], ◌∷◌, ◌++◌, Option, none, some, Result, ok,
}
use autonomy.Text.{Str, codes, trim_space, is_blank, is_space}
use autonomy.Text.Laws.{is_blank_cons}
use autonomy.Dict.{Dict}
use autonomy.Events.{Envelope, EventError, validate}
use autonomy.Events.Log.{Appended, id_name}
use autonomy.Events.Log.Index.{find}
use autonomy.Events.Log.Remember.{IsLog}
use autonomy.Events.Gateway.{Gateway, Stamp, ingest, canonical_adapter, with_log}
use autonomy.Events.Gateway.Once.{ingest-ingest}
use autonomy.Watcher.{Observation, Spec, Change, field, first_non_empty}
use autonomy.Watcher.Probes.{pull_request_change, pull_request_news, says_merged, says_closed}

-- The envelope that watchSink makes of a change.
unfoldable pub envelope_of : Change → Envelope (Dict Str)
envelope_of ch = record {
  source = ch.source;
  type = ch.type;
  subject = record {
    task_id = ch.task_id;
    agent_id = [];
    asset_id = ch.asset_id;
    action_id = [];
    project_id = [];
  };
  payload = some ch.payload;
  occurred_at = none;
  idempotency_key = ch.idempotency_key;
}

-- watchSink, as far as the log.
unfoldable pub watch_sink :
    Stamp → Change → Option (Gateway (Dict Str)) → Result EventError (Appended (Dict Str))
watch_sink at ch g = ingest [] at (envelope_of ch) g

-- The repository and the number of a pull request, as its change has them.
abbrev repo_of : Spec → Observation → Str
repo_of spec obs =
    first_non_empty (field (codes "repo") obs ∷ field (codes "repo") spec.fields ∷ [])

abbrev number_of : Spec → Observation → Str
number_of spec obs =
    first_non_empty (field (codes "number") obs ∷ field (codes "number") spec.fields ∷ [])

same_key :
    (spec spec' : Spec) (obs obs' : Observation)
    → repo_of spec obs ≡ repo_of spec' obs'
    → number_of spec obs ≡ number_of spec' obs'
    → says_merged obs ≡ says_merged obs'
    → says_closed obs ≡ says_closed obs'
    → (pull_request_change spec obs).idempotency_key
      ≡ (pull_request_change spec' obs').idempotency_key
unfolding pull_request_change pull_request_news
same_key spec spec' obs obs' r n m c = rw (r, n, m, c) refl

keyed :
    (spec : Spec) (obs : Observation)
    → is_blank (pull_request_change spec obs).idempotency_key ≡ false
unfolding pull_request_change is_space
keyed spec obs = is_blank_cons b'g' _ refl

same_source :
    (spec spec' : Spec) (obs obs' : Observation)
    → (pull_request_change spec' obs').source ≡ (pull_request_change spec obs).source
unfolding pull_request_change
same_source spec spec' obs obs' = refl

envelope_of-validate :
    (spec : Spec) (obs : Observation) → validate (envelope_of (pull_request_change spec obs)) ≡ none
unfolding validate envelope_of pull_request_change is_space
envelope_of-validate spec obs =
    let named : is_blank (codes "github") ≡ false = is_blank_cons b'g' _ refl in
    let typed : is_blank (codes "github.pull_request." ++ pull_request_news obs) ≡ false =
      is_blank_cons b'g' _ refl in
    rw (named, typed) refl

-- Of two changes of one pull request that are both neither merged nor closed, both merged, or both
-- closed and not merged, where the second is the next thing that the gateway is handed after it
-- took the first: the gateway answers the second as a duplicate, with the event that the first was
-- answered with, and its log stays, whatever else the two say. (The gateway's log is as it keeps it,
-- with no adapter but its own, and the ids are made new.)
pub watch_sink-watch_sink :
    (at at' : Stamp) (spec spec' : Spec) (obs obs' : Observation) (g : Gateway (Dict Str))
    → (first : Appended (Dict Str)) → IsLog g.log
    → g.adapters ≡ canonical_adapter ∷ []
    → at.new_id ≢ []
    → at'.new_id ≢ []
    → find id_name at.new_id g.log.events ≡ none
    → repo_of spec obs ≡ repo_of spec' obs'
    → number_of spec obs ≡ number_of spec' obs'
    → says_merged obs ≡ says_merged obs'
    → says_closed obs ≡ says_closed obs'
    → watch_sink at (pull_request_change spec obs) (some g) ≡ ok first
    → watch_sink at' (pull_request_change spec' obs') (some (with_log g first))
      ≡ ok (record { stored = first.stored; duplicate = true; log = first.log })
unfolding watch_sink envelope_of
watch_sink-watch_sink at at' spec spec' obs obs' g first h only id id' new r n m c e =
    ingest-ingest [] at at' (envelope_of (pull_request_change spec obs))
      (envelope_of (pull_request_change spec' obs')) g first h only id id' new (keyed spec obs)
      (ap trim_space (same_source spec spec' obs obs'))
      (ap trim_space (same_key spec' spec obs' obs (sym r) (sym n) (sym m) (sym c))) e
      (envelope_of-validate spec' obs')
