-- ===== src/Events/Log.antt =====
-- src/eventgateway/log.go: MemoryLog, its two indexes, and what it lists.
pub mod Index
pub mod Remember
pub mod Repeats
pub mod Paging
use autonomy.Base.{
  ℕ, zero, suc, ◌+◌, ◌-◌, Bool, true, false, not, ◌&&◌, ◌||◌, List, [], ◌∷◌, ◌++◌, Option, none,
  some, if◌then◌else◌, is_nil, length, take, drop, leb, ltb, ◌==◌,
}
use autonomy.Text.{Str, str_eq}
use autonomy.Dict.{Dict, lookup, put, remove}
use autonomy.Events.{WorldEvent}

abbrev pub default_list_limit : ℕ
default_list_limit = 50

abbrev pub max_list_limit : ℕ
max_list_limit = 200

abbrev pub memory_cap : ℕ
memory_cap = 10000

unfoldable pub dedupe_key : Str → Str → Str
dedupe_key source key = source ++ (0 ∷ key)

-- `l[i]`, where the source has seen to it that `i` is below the length.
unfoldable pub at {ℓ} : {A : Type ℓ} → ℕ → List A → Option A
at i [] = none
at zero (x ∷ xs) = some x
at (suc i) (x ∷ xs) = at i xs

pub record MemoryLog (Payload : Type 0) : Type 0 where
  pub events : List (WorldEvent Payload)
  pub by_id : Dict ℕ
  pub by_key : Dict ℕ

-- `m[k] = i` and `delete(m, k)`, of an event that has a name there.
abbrev pub enter : Option Str → ℕ → Dict ℕ → Dict ℕ
enter none i m = m
enter (some k) i m = put k i m

abbrev pub leave : Option Str → Dict ℕ → Dict ℕ
leave none m = m
leave (some k) m = remove k m

abbrev pub look_up : Option Str → Dict ℕ → Option ℕ
look_up none m = none
look_up (some k) m = lookup k m

-- What Append answers, and the log after it.
pub record Appended (Payload : Type 0) : Type 0 where
  pub stored : Option (WorldEvent Payload)
  pub duplicate : Bool
  pub log : MemoryLog Payload

module _ {Payload : Type 0} where
  unfoldable pub new_memory_log : MemoryLog Payload
  new_memory_log = record { events = []; by_id = []; by_key = [] }

  -- Whether an event has a key, and the key that byKey has for it.
  unfoldable pub is_keyed : WorldEvent Payload → Bool
  is_keyed ev = not (is_nil ev.idempotency_key)

  unfoldable pub key_of : WorldEvent Payload → Str
  key_of ev = dedupe_key ev.source ev.idempotency_key

  -- What an index has an event under: byID has every event, byKey those with a key.
  unfoldable pub id_name : WorldEvent Payload → Option Str
  id_name ev = some ev.id

  unfoldable pub key_name : WorldEvent Payload → Option Str
  key_name ev = if is_keyed ev then some (key_of ev) else none

  -- The two loops of dropOldestLocked, on one index: the dropped leave it, the others enter anew.
  unfoldable pub leave_all :
      (WorldEvent Payload → Option Str) → List (WorldEvent Payload) → Dict ℕ → Dict ℕ
  leave_all name [] m = m
  leave_all name (ev ∷ evs) m = leave_all name evs (leave (name ev) m)

  unfoldable pub enter_all :
      (WorldEvent Payload → Option Str) → ℕ → List (WorldEvent Payload) → Dict ℕ → Dict ℕ
  enter_all name i [] m = m
  enter_all name i (ev ∷ evs) m = enter_all name (suc i) evs (enter (name ev) i m)

  -- What dropOldestLocked makes of a log that holds too many by `n`.
  unfoldable pub drop_first : ℕ → MemoryLog Payload → MemoryLog Payload
  drop_first n l = record {
    events = drop n l.events;
    by_id = enter_all id_name 0 (drop n l.events) (leave_all id_name (take n l.events) l.by_id);
    by_key = enter_all key_name 0 (drop n l.events) (leave_all key_name (take n l.events) l.by_key);
  }

  unfoldable pub drop_oldest : MemoryLog Payload → MemoryLog Payload
  drop_oldest l =
      if leb (length l.events) memory_cap then l else drop_first (length l.events - memory_cap) l

  -- The event that Append takes the new one for, if there is one: by its key, then by its id.
  unfoldable pub find_key : WorldEvent Payload → MemoryLog Payload → Option ℕ
  find_key ev l = look_up (key_name ev) l.by_key

  unfoldable pub find_id : WorldEvent Payload → MemoryLog Payload → Option ℕ
  find_id ev l = if is_nil ev.id then none else look_up (id_name ev) l.by_id

  unfoldable pub add : WorldEvent Payload → MemoryLog Payload → MemoryLog Payload
  add ev l = drop_oldest (record {
    events = l.events ++ (ev ∷ []);
    by_id = enter (id_name ev) (length l.events) l.by_id;
    by_key = enter (key_name ev) (length l.events) l.by_key;
  })

  -- The event at an index, as a duplicate, or else what comes next.
  abbrev pub unless_found : Option ℕ → MemoryLog Payload → Appended Payload → Appended Payload
  unless_found none l next = next
  unless_found (some i) l next = record { stored = at i l.events; duplicate = true; log = l }

  unfoldable pub append : WorldEvent Payload → MemoryLog Payload → Appended Payload
  append ev l = unless_found (find_key ev l) l (
      unless_found (find_id ev l) l
        (record { stored = some ev; duplicate = false; log = add ev l }))

  unfoldable pub get_event : Str → MemoryLog Payload → Option (WorldEvent Payload)
  get_event id l =
      if is_nil id
      then none
      else (elim (lookup id l.by_id) [ none ↦ none | some i ↦ at i l.events ])

-- A limit of 0 or less is 0.
pub record Filter : Type 0 where
  pub source : Str
  pub type : Str
  pub task_id : Str
  pub after : Str
  pub limit : ℕ

-- A constraint that is empty admits every text.
unfoldable pub admits : Str → Str → Bool
admits wanted s = is_nil wanted || str_eq s wanted

-- The limit that List works with.
unfoldable pub list_limit : ℕ → ℕ
list_limit n =
    let asked = if n == 0 then default_list_limit else n in
    if ltb max_list_limit asked then max_list_limit else asked

module _ {Payload : Type 0} where
  unfoldable pub match_filter : WorldEvent Payload → Filter → Bool
  match_filter ev f =
      admits f.source ev.source && admits f.type ev.type && admits f.task_id ev.subject.task_id

  -- The loop of List, with `seenAfter`.
  unfoldable pub scan : Filter → Bool → List (WorldEvent Payload) → List (WorldEvent Payload)
  scan f seen [] = []
  scan f false (ev ∷ evs) = scan f (str_eq ev.id f.after) evs
  scan f true (ev ∷ evs) = if match_filter ev f then ev ∷ scan f true evs else scan f true evs

  -- The newest of the matches where no cursor is given, the next ones after a cursor.
  unfoldable pub window : Bool → ℕ → List (WorldEvent Payload) → List (WorldEvent Payload)
  window from_end limit matched =
      if leb (length matched) limit
      then matched
      else if from_end
      then drop (length matched - limit) matched
      else take limit matched

  unfoldable pub list : Filter → MemoryLog Payload → List (WorldEvent Payload)
  list f l = window (is_nil f.after) (list_limit f.limit) (scan f (is_nil f.after) l.events)

  unfoldable pub recent : ℕ → MemoryLog Payload → List (WorldEvent Payload)
  recent n l =
      let asked = if n == 0 then default_list_limit else n in
      let some_n = if ltb (length l.events) asked then length l.events else asked in
      drop (length l.events - some_n) l.events
