-- ===== src/Watcher/Poll.antt =====
-- src/watcher/watcher.go: `poll`, one background pass, as one step: between the sections under the lock
-- nothing but the pass itself changes the items here. In the source a request at the door may come
-- between the rows of a pass.
pub mod Each
use autonomy.Base.{
  ℕ, Bool, true, false, List, [], ◌∷◌, ◌++◌, map, Option, none, some, if◌then◌else◌, Result, ok,
  err, is_nil,
}
use autonomy.Text.{Str, codes, trim_space, is_blank, str_eq}
use autonomy.Dict.{Dict, lookup, put, remove}
use autonomy.Watcher.{Observation, Spec, Change, Probe, Item, Watcher, field}

-- One row of the batch: an item as it was when the pass began, and the probe of its kind.
pub record Live (W : Type 0) : Type 0 where
  pub id : Str
  pub item : Item
  pub probe : Option (Probe W)

-- What is remembered of an item that moved.
unfoldable pub refresh : Str → Observation → Item → Item
refresh fp obs it = record {
  fingerprint = fp;
  spec = record (it.spec) {
    fields = obs;
    target =
        if is_blank (field (codes "target") obs)
        then it.spec.target
        else trim_space (field (codes "target") obs);
  };
}

abbrev pub refresh_at : Str → Str → Observation → Option Item → Dict Item → Dict Item
refresh_at id fp obs none items = items
refresh_at id fp obs (some cur) items = put id (refresh fp obs cur) items

-- A change carries the task of the watch if the probe gave none.
unfoldable pub with_task : Spec → Change → Change
with_task spec ch = if is_nil ch.task_id then record ch { task_id = spec.task_id } else ch

module _ {W : Type 0} where
  unfoldable pub snapshot_rows : Dict (Probe W) → Dict Item → List (Live W)
  snapshot_rows probes [] = []
  snapshot_rows probes ((id, it) ∷ items) =
      record { id = id; item = it; probe = lookup it.spec.kind probes } ∷ snapshot_rows probes items

  -- A row whose object was observed: the items after it, and what is handed to the sink.
  unfoldable pub poll_seen :
      Bool → Str → Item → Probe W → Observation → Dict Item → Dict Item × List Change
  poll_seen has_sink id it p obs items =
      let fp = p.fingerprint obs in
      let moved = refresh_at id fp obs (lookup id items) items in
      if str_eq fp it.fingerprint then (items, []) else (
        if p.done obs it.spec.until then remove id moved else moved,
        if has_sink then with_task it.spec (p.change it.spec obs) ∷ [] else [],
      )

  abbrev pub poll_observed :
      Bool → Str → Item → Probe W → Result Str Observation → Dict Item → Dict Item × List Change
  poll_observed has_sink id it p (err e) items = (items, [])
  poll_observed has_sink id it p (ok obs) items = poll_seen has_sink id it p obs items

  abbrev pub poll_probed :
      Bool → W → Str → Item → Option (Probe W) → Dict Item → Dict Item × List Change
  poll_probed has_sink world id it none items = (items, [])
  poll_probed has_sink world id it (some p) items =
      poll_observed has_sink id it p (p.observe world it.spec) items

  -- The loop over the batch; `world id` is what lies outside when the item of that id is observed.
  unfoldable pub poll_rows : Bool → (Str → W) → List (Live W) → Dict Item → Dict Item × List Change
  poll_rows has_sink world [] items = (items, [])
  poll_rows has_sink world (row ∷ rows) items =
      let (items', out) = poll_probed has_sink (world row.id) row.id row.item row.probe items in
      let (last, more) = poll_rows has_sink world rows items' in (last, out ++ more)

  -- The watcher after a pass, and what it handed to the sink.
  unfoldable pub poll : (Str → W) → Watcher W → Watcher W × List Change
  poll world w =
      let (items, out) = poll_rows w.has_sink world (snapshot_rows w.probes w.items) w.items in
      (record w { items = items }, out)
