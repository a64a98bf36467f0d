-- ===== src/Watcher.antt =====
-- src/watcher/probe.go and src/watcher/watcher.go: what is watched, and the operations but for the
-- background pass and its goroutines. `W` is what lies outside: a probe reads it.
pub mod Probes
pub mod Poll
pub mod Door
pub mod Loops
pub mod News
use autonomy.Base.{
  ℕ, ◌*◌, Bool, true, false, not, ◌&&◌, ◌||◌, List, [], ◌∷◌, ◌++◌, map, Option, none, some,
  if◌then◌else◌, Result, ok, err, ◌>>=◌, is_nil, ltb, leb,
}
use autonomy.Text.{Str, codes, trim_space, is_blank, to_lower, str_eq, is_some}
use autonomy.Dict.{Dict, lookup, put}

-- A map of texts; a key that it lacks reads as "".
abbrev pub Observation : Type 0
Observation = Dict Str

abbrev pub or_empty : Option Str → Str
or_empty none = []
or_empty (some s) = s

unfoldable pub field : Str → Observation → Str
field k obs = or_empty (lookup k obs)

pub record Spec : Type 0 where
  pub kind : Str
  pub target : Str
  pub until : Str
  pub task_id : Str
  pub fields : Observation

pub record Change : Type 0 where
  pub source : Str
  pub type : Str
  pub task_id : Str
  pub asset_id : Str
  pub payload : Dict Str
  pub idempotency_key : Str

-- Why there is no watch. `unseen` is what a probe's `Observe` says.
pub data WatchError : Type 0 where
  watcher_off missing_target kind_required target_required : WatchError
  unknown_kind unseen : Str → WatchError

pub record Probe (W : Type 0) : Type 0 where
  pub kind : Str
  pub default_until : Str
  pub observe : W → Spec → Result Str Observation
  pub id : Spec → Observation → Str
  pub fingerprint : Observation → Str
  pub done : Observation → Str → Bool
  pub change : Spec → Observation → Change

pub record Item : Type 0 where
  pub spec : Spec
  pub fingerprint : Str

-- Durations are whole nanoseconds that are not negative. `has_sink` is whether a sink is set.
pub record Watcher (W : Type 0) : Type 0 where
  pub probes : Dict (Probe W)
  pub items : Dict Item
  pub interval : ℕ
  pub has_sink : Bool

abbrev pub one_second : ℕ
one_second = 1000000000

abbrev pub default_interval : ℕ
default_interval = 15 * one_second

abbrev pub min_interval : ℕ
min_interval = 2 * one_second

-- firstNonEmpty of the package: the first text that is not blank, trimmed.
unfoldable pub first_non_empty : List Str → Str
first_non_empty [] = []
first_non_empty (v ∷ vs) = if is_blank v then first_non_empty vs else trim_space v

unfoldable pub is_no : Str → Bool
is_no s =
    let said = to_lower (trim_space s) in
    str_eq said (codes "false") || str_eq said (codes "0") || str_eq said (codes "no")

unfoldable pub present : Option Observation → Bool
present none = false
present (some obs) = not (is_no (field (codes "exists") obs))

-- observationPayload: the fields whose keys are not blank, and what is waited for.
unfoldable pub named_fields : Observation → Dict Str
named_fields [] = []
named_fields ((k, v) ∷ obs) = if is_blank k then named_fields obs else (k, v) ∷ named_fields obs

unfoldable pub observation_payload : Observation → Str → Dict Str
observation_payload obs until =
    if is_nil until then named_fields obs else put (codes "until") until (named_fields obs)

abbrev pub seen_or_error : Result Str Observation → Result WatchError Observation
seen_or_error (err e) = err (unseen e)
seen_or_error (ok obs) = ok obs

module _ {W : Type 0} where
  -- The probes that `New` takes: a kind that is blank is left out, and the last of a kind counts.
  unfoldable pub add_probes : List (Probe W) → Dict (Probe W) → Dict (Probe W)
  add_probes [] m = m
  add_probes (p ∷ ps) m = add_probes ps (if is_blank p.kind then m else put p.kind p m)

  -- WithInterval, of a duration as a signed number of 64 bits.
  unfoldable pub with_interval : ℕ → Watcher W → Watcher W
  with_interval d w =
      if ltb 0 d && ltb d 0x8000000000000000
      then record w { interval = if ltb d min_interval then min_interval else d }
      else w

  unfoldable pub new_watcher : List (Probe W) → Watcher W
  new_watcher ps = record {
    probes = add_probes ps [];
    items = [];
    interval = default_interval;
    has_sink = false;
  }

  unfoldable pub set_sink : Bool → Watcher W → Watcher W
  set_sink b w = record w { has_sink = b }

  abbrev pub probe_found : Option (Probe W) → Str → Result WatchError (Probe W)
  probe_found none kind = err (unknown_kind kind)
  probe_found (some p) kind = ok p

  unfoldable pub probe : Str → Watcher W → Result WatchError (Probe W)
  probe kind w = probe_found (lookup (trim_space kind) w.probes) (trim_space kind)

  unfoldable pub observe : W → Spec → Watcher W → Result WatchError Observation
  observe world spec w = probe spec.kind w >>= λ p.
      if is_blank spec.target
      then err missing_target
      else seen_or_error (p.observe world (record spec { target = trim_space spec.target }))

  abbrev pub until_of : Spec → Result WatchError (Probe W) → Str
  until_of spec (err e) = trim_space spec.until
  until_of spec (ok p) = if is_blank spec.until then p.default_until else trim_space spec.until

  unfoldable pub until_for : Spec → Watcher W → Str
  until_for spec w = until_of spec (probe spec.kind w)

  abbrev pub probe_done : Observation → Str → Result WatchError (Probe W) → Bool
  probe_done obs until (err e) = false
  probe_done obs until (ok p) = p.done obs until

  unfoldable pub terminal : Spec → Observation → Watcher W → Bool
  terminal spec obs w = probe_done obs (until_for spec w) (probe spec.kind w)

  -- What Watch remembers, and under which id.
  unfoldable pub watched : Probe W → Spec → Spec
  watched p spec = record spec {
    target = trim_space spec.target;
    until = if is_blank spec.until then p.default_until else spec.until;
  }

  unfoldable pub id_for : Probe W → Spec → Str
  id_for p spec =
      let id = p.id spec spec.fields in
      if is_nil id then spec.kind ++ codes ":" ++ to_lower spec.target else id

  unfoldable pub watch : Spec → Watcher W → Result WatchError (Watcher W)
  watch spec w = probe spec.kind w >>= λ p.
      if is_blank spec.target
      then err missing_target
      else ok (record w {
        items =
            put (id_for p (watched p spec))
              (record {
                spec = watched p spec;
                fingerprint = p.fingerprint (watched p spec).fields;
              })
              w.items;
      })
