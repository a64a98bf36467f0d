-- ===== src/Watcher/Probes.antt =====
-- src/watcher/pull_request.go and src/watcher/deployment.go: the two probes.
use autonomy.Base.{
  Bool, ◌||◌, [], ◌∷◌, ◌++◌, Option, none, some, if◌then◌else◌, Result, err, is_nil,
}
use autonomy.Text.{Str, codes, trim_space, to_lower, str_eq, equal_fold}
use autonomy.Dict.{Dict, put}
use autonomy.Watcher.{Observation, Spec, Change, Probe, field, first_non_empty, observation_payload}

-- `Snapshot`, which the host gives; `none` is one that it did not give.
abbrev pub Snapshot : Type 0 → Type 0
Snapshot W = Option (W → Str → Result Str Observation)

abbrev pub snap : {W : Type 0} → Str → Snapshot W → W → Spec → Result Str Observation
snap missing none world spec = err missing
snap missing (some f) world spec = f world spec.target

unfoldable pub pull_request_id : Spec → Observation → Str
pull_request_id spec obs =
    let repo = first_non_empty (field (codes "repo") obs ∷ field (codes "repo") spec.fields ∷ []) in
    let number =
      first_non_empty (field (codes "number") obs ∷ field (codes "number") spec.fields ∷ []) in
    if is_nil repo || is_nil number
    then codes "pull_request:"
      ++ to_lower (first_non_empty (field (codes "pr") obs ∷ spec.target ∷ []))
    else codes "pull_request:" ++ to_lower repo ++ codes "#" ++ number

unfoldable pub state_of : Observation → Str
state_of obs = to_lower (trim_space (field (codes "state") obs))

unfoldable pub pull_request_fingerprint : Observation → Str
pull_request_fingerprint obs = state_of obs ++ codes "|" ++ trim_space (field (codes "merged") obs)

unfoldable pub says_merged : Observation → Bool
says_merged obs = str_eq (field (codes "merged") obs) (codes "true")

unfoldable pub says_closed : Observation → Bool
says_closed obs = equal_fold (field (codes "state") obs) (codes "closed")

unfoldable pub pull_request_done : Observation → Str → Bool
pull_request_done obs until =
    if str_eq (to_lower (trim_space until)) (codes "closed")
    then says_closed obs
    else says_merged obs || says_closed obs

-- How the type and the key of a change of a pull request end.
unfoldable pub pull_request_news : Observation → Str
pull_request_news obs =
    if says_merged obs
    then codes "merged"
    else if says_closed obs
    then codes "closed"
    else codes "updated"

abbrev pub or_default : Str → Str → Str
or_default until default = if is_nil until then default else until

abbrev pub put_unless_nil : Str → Str → Dict Str → Dict Str
put_unless_nil k v m = if is_nil v then m else put k v m

unfoldable pub pull_request_change : Spec → Observation → Change
pull_request_change spec obs =
    let pr = first_non_empty (field (codes "pr") obs ∷ spec.target ∷ []) in
    let repo = first_non_empty (field (codes "repo") obs ∷ field (codes "repo") spec.fields ∷ []) in
    let number =
      first_non_empty (field (codes "number") obs ∷ field (codes "number") spec.fields ∷ []) in
    record {
      source = codes "github";
      type = codes "github.pull_request." ++ pull_request_news obs;
      task_id = spec.task_id;
      asset_id = codes "pull_request:" ++ repo ++ codes "#" ++ number;
      payload =
          put_unless_nil (codes "pr") pr
            (observation_payload obs (or_default spec.until (codes "merged")));
      idempotency_key =
          codes "github:" ++ repo ++ codes "#" ++ number ++ codes ":" ++ pull_request_news obs;
    }

unfoldable pub pull_request_probe : {W : Type 0} → Snapshot W → Probe W
pull_request_probe snapshot = record {
  kind = codes "pull_request";
  default_until = codes "merged";
  observe = snap (codes "watcher: pull_request probe has no snapshot") snapshot;
  id = pull_request_id;
  fingerprint = pull_request_fingerprint;
  done = pull_request_done;
  change = pull_request_change;
}

unfoldable pub deployment_id : Spec → Observation → Str
deployment_id spec obs =
    codes "deployment:"
    ++ to_lower (
        first_non_empty
          (field (codes "deployment") obs ∷ field (codes "target") obs ∷ spec.target ∷ []))

unfoldable pub deployment_fingerprint : Observation → Str
deployment_fingerprint obs = state_of obs ++ codes "|" ++ trim_space (field (codes "healthy") obs)

unfoldable pub has_state : Str → Observation → Bool
has_state s obs = str_eq (state_of obs) s

unfoldable pub deployment_done : Observation → Str → Bool
deployment_done obs until =
    if str_eq (to_lower (trim_space until)) (codes "failed")
    then has_state (codes "failed") obs
    else has_state (codes "succeeded") obs || has_state (codes "failed") obs

unfoldable pub deployment_news : Observation → Str
deployment_news obs =
    if has_state (codes "succeeded") obs
    then codes "succeeded"
    else if has_state (codes "failed") obs
    then codes "failed"
    else codes "updated"

unfoldable pub deployment_change : Spec → Observation → Change
deployment_change spec obs =
    let id = first_non_empty (field (codes "deployment") obs ∷ spec.target ∷ []) in
    record {
      source = codes "deployment";
      type = codes "deployment." ++ deployment_news obs;
      task_id = spec.task_id;
      asset_id = codes "deployment:" ++ id;
      payload = observation_payload obs (or_default spec.until (codes "succeeded"));
      idempotency_key = codes "deployment:" ++ id ++ codes ":" ++ deployment_news obs;
    }

unfoldable pub deployment_probe : {W : Type 0} → Snapshot W → Probe W
deployment_probe snapshot = record {
  kind = codes "deployment";
  default_until = codes "succeeded";
  observe = snap (codes "watcher: deployment probe has no snapshot") snapshot;
  id = deployment_id;
  fingerprint = deployment_fingerprint;
  done = deployment_done;
  change = deployment_change;
}
