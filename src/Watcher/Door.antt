-- ===== src/Watcher/Door.antt =====
-- src/watch.go: how often the watcher looks, and the door by which a watch is asked for.
pub mod Bounds
pub mod Request
pub mod Open
use autonomy.Base.{
  ℕ, ◌+◌, ◌-◌, ◌*◌, ◌%◌, ◌^◌, Bool, true, false, not, ◌&&◌, ◌||◌, List, [], ◌∷◌, ◌++◌, Option, none,
  some, if◌then◌else◌, Result, ok, err, ◌>>=◌, is_nil, ltb, leb, ◌==◌,
}
use autonomy.Text.{Str, codes, trim_space, is_blank, to_lower, str_eq}
use autonomy.Dict.{Dict, lookup}
use autonomy.Watcher.{
  Observation, Spec, Item, Watcher, WatchError, watcher_off, kind_required, target_required, field,
  observe, until_for, terminal, watch, present, default_interval, one_second, first_non_empty,
}
use autonomy.Watcher.Probes.{pull_request_id, deployment_id}

abbrev pub digit : ℕ → Option ℕ
digit c = if leb b'0' c && leb c b'9' then some (c - b'0') else none

-- The value of decimal digits, after those that made `n`.
unfoldable pub digits : ℕ → Str → Option ℕ
digits n [] = some n
digits n (c ∷ s) = elim (digit c) [ none ↦ none | some d ↦ digits (n * 10 + d) s ]

abbrev pub below_max : Option ℕ → Option ℕ
below_max none = none
below_max (some n) = if ltb n 0x8000000000000000 then some n else none

-- strconv.Atoi of a text, where the result is positive; a sign `-` makes it none that is.
unfoldable pub atoi : Str → Option ℕ
atoi [] = none
atoi (c ∷ s) =
    if c == b'+'
    then (if is_nil s then none else below_max (digits 0 s))
    else below_max (digits 0 (c ∷ s))

abbrev pub in_seconds : Option ℕ → ℕ
in_seconds none = default_interval
in_seconds (some n) = if n == 0 then default_interval else n * one_second % 2 ^ 64

-- watchInterval, of the two environment variables: a signed number of 64 bits.
unfoldable pub watch_interval : Str → Str → ℕ
watch_interval value previous =
    let raw = if is_blank value then trim_space previous else trim_space value in
    if is_nil raw then default_interval else in_seconds (atoi raw)

pub record WatchRequest : Type 0 where
  pub kind : Str
  pub target : Str
  pub pr : Str
  pub deployment : Str
  pub until : Str
  pub task_id : Str

-- firstNonEmpty of the runtime: the first text that is not blank, as it is.
unfoldable pub first_as_is : List Str → Str
first_as_is [] = []
first_as_is (v ∷ vs) = if is_blank v then first_as_is vs else v

unfoldable pub kind_from : WatchRequest → Str
kind_from req =
    if not (is_blank req.kind)
    then trim_space req.kind
    else if not (is_blank req.pr)
    then codes "pull_request"
    else if not (is_blank req.deployment)
    then codes "deployment"
    else []

unfoldable pub target_from : WatchRequest → Str
target_from req = first_as_is (req.target ∷ trim_space req.pr ∷ trim_space req.deployment ∷ [])

-- watchSpecFromRequest.
unfoldable pub spec_from_request : WatchRequest → Result WatchError Spec
spec_from_request req =
    if is_nil (kind_from req)
    then err kind_required
    else if is_nil (target_from req)
    then err target_required
    else ok (record {
      kind = kind_from req;
      target = target_from req;
      until = trim_space req.until;
      task_id = trim_space req.task_id;
      fields = [];
    })

pub record WatchView : Type 0 where
  pub id : Str
  pub kind : Str
  pub target : Str
  pub until : Str
  pub task_id : Str
  pub watching : Bool
  pub snapshot : Observation

unfoldable pub watch_view : Str → Spec → Observation → Bool → WatchView
watch_view id spec obs watching = record {
  id = id;
  kind = spec.kind;
  target = first_as_is (field (codes "target") obs ∷ spec.target ∷ []);
  until = spec.until;
  task_id = spec.task_id;
  watching = watching;
  snapshot = obs;
}

-- The id of a watch that is not among the items.
unfoldable pub new_id : Spec → Observation → Str
new_id spec obs =
    if str_eq spec.kind (codes "pull_request")
    then pull_request_id spec obs
    else if str_eq spec.kind (codes "deployment")
    then deployment_id spec obs
    else spec.kind ++ codes ":" ++ to_lower spec.target

-- `same_fold` is strings.EqualFold.
module _ (same_fold : Str → Str → Bool) where
  unfoldable pub listed_id : Spec → Observation → Dict Item → Str
  listed_id spec obs [] = new_id spec obs
  listed_id spec obs ((id, it) ∷ items) =
      if str_eq it.spec.kind spec.kind
        && (str_eq it.spec.target spec.target || same_fold it.spec.target spec.target)
      then id
      else listed_id spec obs items

  module _ {W : Type 0} where
    -- StartWatch once the object was seen; `spec` has what is waited for.
    unfoldable pub start_seen :
        Spec → Observation → Watcher W → Result WatchError (WatchView × Watcher W)
    start_seen spec obs w =
        if not (present (some obs)) || terminal spec obs w
        then ok (watch_view (listed_id spec obs w.items) spec obs false, w)
        else watch (record spec { fields = obs }) w >>= λ w'.
            let spec' = record spec { fields = obs } in
            ok (record (watch_view [] spec obs true) { id = listed_id spec' obs w'.items }, w')

    unfoldable pub start_on :
        W → WatchRequest → Watcher W → Result WatchError (WatchView × Watcher W)
    start_on world req w = spec_from_request req >>= λ spec.
        observe world spec w >>= λ obs. start_seen (record spec { until = until_for spec w }) obs w

    -- StartWatch; `none` is a runtime without a watcher.
    unfoldable pub start_watch :
        W → WatchRequest → Option (Watcher W) → Result WatchError (WatchView × Watcher W)
    start_watch world req none = err watcher_off
    start_watch world req (some w) = start_on world req w
