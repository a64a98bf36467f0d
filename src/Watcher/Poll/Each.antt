-- ===== src/Watcher/Poll/Each.antt =====
-- src/watcher/watcher.go: a pass, item by item.
use autonomy.Base.{
  ◌≡◌, refl, sym, ap, ◌∙◌, Bool, false, List, [], ◌∷◌, ◌++◌, Option, none, some, if◌then◌else◌,
  Result, ok, err, keep, arith, Bool-cases, inl, inr, Result-cases,
}
use autonomy.Text.{Str, str_eq}
use autonomy.Text.Laws.{str_eq_iff, str_eq_refl}
use autonomy.Dict.{Dict, lookup, put, remove}
use autonomy.Dict.Laws.{lookup-put, lookup-remove}
use autonomy.Watcher.{Observation, Change, Probe, Item, Watcher}
use autonomy.Watcher.Poll.{
  Live, refresh, refresh_at, with_task, snapshot_rows, poll_seen, poll_probed, poll_rows, poll,
}

-- No key twice, as a Go map has it.
abbrev pub KeysOnce : Dict Item → Type 0
KeysOnce [] = Unit
KeysOnce ((k, it) ∷ m) = (lookup k m ≡ none) × KeysOnce m

lookup_same :
    (k j : Str) (it : Item) (m : Dict Item)
    → lookup k m ≡ some it
    → lookup j m ≡ (if str_eq k j then some it else lookup j m)
lookup_same k j it m here = elim (Bool-cases (str_eq k j)) [
  | inl e ↦ let same : k ≡ j = (str_eq_iff k j).0 e in rw (e, ← same) here
  | inr e ↦ rw e refl
]

distinct :
    (k j : Str) (it : Item) (m : Dict Item)
    → lookup k m ≡ none
    → lookup j m ≡ some it
    → str_eq k j ≡ false
distinct k j it m nothing here = elim (Bool-cases (str_eq k j)) [
  | inl e ↦ let same : k ≡ j = (str_eq_iff k j).0 e in absurd cc
  | inr e ↦ e
]

module _ {W : Type 0} where
  -- What a pass makes of one item whose object was seen.
  abbrev pub item_seen : Bool → Item → Probe W → Observation → Option Item × List Change
  item_seen has_sink it p obs =
      if str_eq (p.fingerprint obs) it.fingerprint then (some it, []) else (
        if p.done obs it.spec.until then none else some (refresh (p.fingerprint obs) obs it),
        if has_sink then with_task it.spec (p.change it.spec obs) ∷ [] else [],
      )

  abbrev pub item_observed :
      Bool → Item → Probe W → Result Str Observation → Option Item × List Change
  item_observed has_sink it p (err e) = (some it, [])
  item_observed has_sink it p (ok obs) = item_seen has_sink it p obs

  -- What a pass makes of one item: nothing where it has no probe or its object is not seen.
  abbrev pub item_after : Bool → W → Item → Option (Probe W) → Option Item × List Change
  item_after has_sink world it none = (some it, [])
  item_after has_sink world it (some p) = item_observed has_sink it p (p.observe world it.spec)

  abbrev pub or_gone : Bool → W → Dict (Probe W) → Option Item → Option Item
  or_gone has_sink world probes none = none
  or_gone has_sink world probes (some it) =
      (item_after has_sink world it (lookup it.spec.kind probes)).0

  abbrev pub all_changes : Bool → (Str → W) → Dict (Probe W) → Dict Item → List Change
  all_changes has_sink world probes [] = []
  all_changes has_sink world probes ((k, it) ∷ m) =
      (item_after has_sink (world k) it (lookup it.spec.kind probes)).1
      ++ all_changes has_sink world probes m

  poll_seen-lookup :
      (has_sink : Bool) (k j : Str) (it : Item) (p : Probe W) (obs : Observation) (m : Dict Item)
      → lookup k m ≡ some it
      → (lookup j (poll_seen has_sink k it p obs m).0
          ≡ (if str_eq k j then (item_seen has_sink it p obs).0 else lookup j m))
        × ((poll_seen has_sink k it p obs m).1 ≡ (item_seen has_sink it p obs).1)
  unfolding poll_seen
  poll_seen-lookup has_sink k j it p obs m here =
      let fp = p.fingerprint obs in
      elim (Bool-cases (str_eq fp it.fingerprint)) [
        | inl e ↦ rw e (lookup_same k j it m here, refl)
        | inr e ↦ elim (Bool-cases (p.done obs it.spec.until)) [
          | inl d ↦
              rw (e, here, d)
                (
                  lookup-remove k j (put k (refresh fp obs it) m)
                      ∙ ground (arith, lookup-put k j (refresh fp obs it) m),
                  refl,
                )
          | inr d ↦ rw (e, here, d) (lookup-put k j (refresh fp obs it) m, refl)
        ]
      ]

  -- One row changes its own key as it should, no other one, and hands over what it should.
  poll_probed-lookup :
      (has_sink : Bool) (world : W) (k j : Str) (it : Item) (p : Option (Probe W)) (m : Dict Item)
      → lookup k m ≡ some it
      → (lookup j (poll_probed has_sink world k it p m).0
          ≡ (if str_eq k j then (item_after has_sink world it p).0 else lookup j m))
        × ((poll_probed has_sink world k it p m).1 ≡ (item_after has_sink world it p).1)
  poll_probed-lookup has_sink world k j it none m here = (lookup_same k j it m here, refl)
  poll_probed-lookup has_sink world k j it (some p) m here =
      elim (Result-cases (p.observe world it.spec)) [
        | inl (obs, e) ↦ rw e (poll_seen-lookup has_sink k j it p obs m here)
        | inr (why, e) ↦ rw e (lookup_same k j it m here, refl)
      ]

  -- What a key has after the rows of some items, beside what it had.
  abbrev after_rows : Bool → W → Dict (Probe W) → Option Item → Option Item → Option Item
  after_rows has_sink world probes none before = before
  after_rows has_sink world probes (some it) before =
      (item_after has_sink world it (lookup it.spec.kind probes)).0

  after_same :
      (has_sink : Bool) (world : W) (probes : Dict (Probe W)) (o : Option Item)
      → after_rows has_sink world probes o o ≡ or_gone has_sink world probes o
  after_same has_sink world probes none = refl
  after_same has_sink world probes (some it) = refl

  poll_rows-lookup :
      (has_sink : Bool) (world : Str → W) (probes : Dict (Probe W)) (rest m : Dict Item)
      → KeysOnce rest
      → ((k : Str) (it : Item) → lookup k rest ≡ some it → lookup k m ≡ some it)
      → ((j : Str)
          → lookup j (poll_rows has_sink world (snapshot_rows probes rest) m).0
            ≡ after_rows has_sink (world j) probes (lookup j rest) (lookup j m))
        × ((poll_rows has_sink world (snapshot_rows probes rest) m).1
            ≡ all_changes has_sink world probes rest)
  unfolding poll_rows snapshot_rows lookup
  poll_rows-lookup has_sink world probes [] m once agree = (λ j. refl, refl)
  poll_rows-lookup has_sink world probes ((k, it) ∷ rest) m once agree =
      let p = lookup it.spec.kind probes in
      let m' = (poll_probed has_sink (world k) k it p m).0 in
      let here : lookup k m ≡ some it = agree k it (rw (str_eq_refl k) refl) in
      let row = λ (j : Str). poll_probed-lookup has_sink (world k) k j it p m here in
      let agree' : (k' : Str) (it' : Item) → lookup k' rest ≡ some it' → lookup k' m' ≡ some it' =
        λ k' it' e.
          (row k').0
          ∙ ap (λ b. if b then (item_after has_sink (world k) it p).0 else lookup k' m)
              (distinct k k' it' rest once.0 e)
          ∙ agree k' it' (rw (distinct k k' it' rest once.0 e) e) in
      let (later, more) = poll_rows-lookup has_sink world probes rest m' once.1 agree' in
      (
        λ j. elim (Bool-cases (str_eq k j)) [
          | inl e ↦
              let same : k ≡ j = (str_eq_iff k j).0 e in
              let nothing : lookup j rest ≡ none = ap (λ i. lookup i rest) (sym same) ∙ once.0 in
              later j
              ∙ ap (λ o. after_rows has_sink (world j) probes o (lookup j m')) nothing
              ∙ (row j).0
              ∙ rw e (ap (λ i. (item_after has_sink (world i) it p).0) same)
          | inr e ↦
              let kept : lookup j m' ≡ lookup j m =
                (row j).0
                ∙ ap (λ b. if b then (item_after has_sink (world k) it p).0 else lookup j m) e in
              later j ∙ ap (after_rows has_sink (world j) probes (lookup j rest)) kept ∙ rw e refl
        ],
        ap (λ o. o ++ (poll_rows has_sink world (snapshot_rows probes rest) m').1) (row k).1
            ∙ ap (λ o. (item_after has_sink (world k) it p).1 ++ o) more,
      )

  pub poll_lem :
      (world : Str → W) (w : Watcher W)
      → KeysOnce w.items
      → ((id : Str)
          → lookup id (poll world w).0.items
            ≡ or_gone w.has_sink (world id) w.probes (lookup id w.items))
        × ((poll world w).1 ≡ all_changes w.has_sink world w.probes w.items)
  unfolding poll
  poll_lem world w once =
      let (each, changes) =
        poll_rows-lookup w.has_sink world w.probes w.items w.items once (λ k it e. e) in
      (λ id. each id ∙ after_same w.has_sink (world id) w.probes (lookup id w.items), changes)

put-lookup-none :
    (k j : Str) (it : Item) (m : Dict Item)
    → str_eq k j ≡ false
    → lookup j m ≡ none
    → lookup j (put k it m) ≡ none
put-lookup-none k j it m ne e = lookup-put k j it m ∙ rw ne e

pub put-KeysOnce : (k : Str) (it : Item) (m : Dict Item) → KeysOnce m → KeysOnce (put k it m)
unfolding put lookup
put-KeysOnce k it [] once = (refl, tt)
put-KeysOnce k it ((j, v) ∷ m) once = elim (Bool-cases (str_eq j k)) [
  | inl e ↦ let same : j ≡ k = (str_eq_iff j k).0 e in rw (e, ← same) once
  | inr e ↦ rw e (
    put-lookup-none k j it m (ground (arith, str_eq_iff j k, str_eq_iff k j, e)) once.0,
    put-KeysOnce k it m once.1,
  )
]

remove-KeysOnce : (k : Str) (m : Dict Item) → KeysOnce m → KeysOnce (remove k m)
unfolding remove keep
remove-KeysOnce k [] once = tt
remove-KeysOnce k ((j, v) ∷ m) once = elim (Bool-cases (str_eq j k)) [
  | inl e ↦ rw e (remove-KeysOnce k m once.1)
  | inr e ↦ rw e (lookup-remove k j m ∙ ground (arith, once.0), remove-KeysOnce k m once.1)
]

refresh_at-KeysOnce :
    (k fp : Str) (obs : Observation) (o : Option Item) (m : Dict Item)
    → KeysOnce m
    → KeysOnce (refresh_at k fp obs o m)
refresh_at-KeysOnce k fp obs none m once = once
refresh_at-KeysOnce k fp obs (some cur) m once = put-KeysOnce k (refresh fp obs cur) m once

module _ {W : Type 0} where
  poll_seen-KeysOnce :
      (has_sink : Bool) (k : Str) (it : Item) (p : Probe W) (obs : Observation) (m : Dict Item)
      → KeysOnce m
      → KeysOnce (poll_seen has_sink k it p obs m).0
  unfolding poll_seen
  poll_seen-KeysOnce has_sink k it p obs m once =
      let fp = p.fingerprint obs in
      let moved = refresh_at k fp obs (lookup k m) m in
      let kept = refresh_at-KeysOnce k fp obs (lookup k m) m once in
      elim (Bool-cases (str_eq fp it.fingerprint)) [
        | inl e ↦ rw e once
        | inr e ↦ elim (Bool-cases (p.done obs it.spec.until)) [
          | inl d ↦ rw (e, d) (remove-KeysOnce k moved kept)
          | inr d ↦ rw (e, d) kept
        ]
      ]

  poll_probed-KeysOnce :
      (has_sink : Bool) (world : W) (k : Str) (it : Item) (p : Option (Probe W)) (m : Dict Item)
      → KeysOnce m
      → KeysOnce (poll_probed has_sink world k it p m).0
  poll_probed-KeysOnce has_sink world k it none m once = once
  poll_probed-KeysOnce has_sink world k it (some p) m once =
      elim (Result-cases (p.observe world it.spec)) [
        | inl (obs, e) ↦ rw e (poll_seen-KeysOnce has_sink k it p obs m once)
        | inr (why, e) ↦ rw e once
      ]

  poll_rows-KeysOnce :
      (has_sink : Bool) (world : Str → W) (rows : List (Live W)) (m : Dict Item)
      → KeysOnce m
      → KeysOnce (poll_rows has_sink world rows m).0
  unfolding poll_rows
  poll_rows-KeysOnce has_sink world [] m once = once
  poll_rows-KeysOnce has_sink world (row ∷ rows) m once =
      poll_rows-KeysOnce has_sink world rows
        (poll_probed has_sink (world row.id) row.id row.item row.probe m).0
        (poll_probed-KeysOnce has_sink (world row.id) row.id row.item row.probe m once)

  pub poll-KeysOnce :
      (world : Str → W) (w : Watcher W) → KeysOnce w.items → KeysOnce (poll world w).0.items
  unfolding poll
  poll-KeysOnce world w once =
      poll_rows-KeysOnce w.has_sink world (snapshot_rows w.probes w.items) w.items once
