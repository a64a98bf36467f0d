-- ===== src/Watcher/Door/Open.antt =====
-- src/watch.go and src/watcher/watcher.go: what is watched, between the door and the passes.
use autonomy.Base.{
  ◌≡◌, ◌≢◌, refl, sym, subst, ap, ◌∙◌, Bool, false, not, ◌||◌, List, [], ◌∷◌, none, some,
  if◌then◌else◌, Result, ok, err, >>=-eq-ok, arith, Bool-cases, inl, inr, Option-cases,
  Result-cases,
}
use autonomy.Text.{Str, str_eq, trim_space, is_blank}
use autonomy.Text.Laws.{trim_space-trim_space}
use autonomy.Dict.{Dict, lookup, put}
use autonomy.Dict.Laws.{lookup-put}
use autonomy.Watcher.{
  Observation, Spec, Probe, Item, Watcher, WatchError, probe, probe_found, watch, watched, id_for,
  present, until_for, terminal, probe_done, observe, new_watcher,
}
use autonomy.Watcher.Door.Request.{ok_inj, err_ok, spec_from_request-kind}
use autonomy.Watcher.Poll.{poll, refresh}
use autonomy.Watcher.Poll.Each.{
  KeysOnce, item_seen, item_observed, item_after, or_gone, poll_lem, poll-KeysOnce, put-KeysOnce,
}
use autonomy.Watcher.Door.{
  WatchRequest, WatchView, start_watch, start_on, start_seen, spec_from_request,
}

some_inj : {A : Type 0} {x y : A} → some x ≡ some y → x ≡ y
some_inj e = cc

none-some : {A : Type 0} {x : A} → none ≢ some x
none-some e = cc

or_false : (a b : Bool) → (a || b) ≡ false → b ≡ false
or_false a b h = ground arith

-- What a watcher goes through: a request at the door, and a pass.
pub data Look (W : Type 0) : Type 0 where
  asks : W → WatchRequest → Look W
  passes : (Str → W) → Look W

module _ {W : Type 0} where
  -- What a probe waits for by default has no space around it.
  abbrev pub IsPlain : Dict (Probe W) → Type 0
  IsPlain ps =
      (k : Str) (p : Probe W) → lookup k ps ≡ some p → trim_space p.default_until ≡ p.default_until

  -- An item has the probe of its kind and the fingerprint of the snapshot that it stores, and that is
  -- not what it waits for.
  abbrev pub IsOpenItem : Dict (Probe W) → Item → Type 0
  IsOpenItem ps it =
      (p : Probe W) × (lookup it.spec.kind ps ≡ some p)
      × (it.fingerprint ≡ p.fingerprint it.spec.fields)
      × (p.done it.spec.fields it.spec.until ≡ false)

  abbrev pub IsOpen : Watcher W → Type 0
  IsOpen w =
      KeysOnce w.items
      × ((id : Str) (it : Item) → lookup id w.items ≡ some it → IsOpenItem w.probes it)

  abbrev IsGood : Watcher W → Type 0
  IsGood w = IsPlain w.probes × IsOpen w

  item_seen-IsOpenItem :
      (has_sink : Bool) (ps : Dict (Probe W)) (it it' : Item) (p : Probe W) (obs : Observation)
      → IsOpenItem ps it
      → lookup it.spec.kind ps ≡ some p
      → (item_seen has_sink it p obs).0 ≡ some it'
      → IsOpenItem ps it'
  unfolding refresh
  item_seen-IsOpenItem has_sink ps it it' p obs h found e =
      elim (Bool-cases (str_eq (p.fingerprint obs) it.fingerprint)) [
        | inl same ↦ let kept : it ≡ it' = ground arith in subst (IsOpenItem ps) kept h
        | inr moved ↦ elim (Bool-cases (p.done obs it.spec.until)) [
          | inl d ↦ absurd (ground arith)
          | inr d ↦
              let next : refresh (p.fingerprint obs) obs it ≡ it' = ground arith in
              subst (IsOpenItem ps) next (p, found, refl, d)
        ]
      ]

  item_after-IsOpenItem :
      (has_sink : Bool) (world : W) (ps : Dict (Probe W)) (it it' : Item)
      → IsOpenItem ps it
      → (item_after has_sink world it (lookup it.spec.kind ps)).0 ≡ some it'
      → IsOpenItem ps it'
  item_after-IsOpenItem has_sink world ps it it' (p, found, fp, waits) e =
      let e' : (item_after has_sink world it (some p)).0 ≡ some it' =
        ap (λ o. (item_after has_sink world it o).0) (sym found) ∙ e in
      elim (Result-cases (p.observe world it.spec)) [
        | inl (obs, seen) ↦
            item_seen-IsOpenItem has_sink ps it it' p obs (p, found, fp, waits) found
              (ap (λ r. (item_observed has_sink it p r).0) (sym seen) ∙ e')
        | inr (why, unseen) ↦
            let kept : it ≡ it' =
              some_inj (ap (λ r. (item_observed has_sink it p r).0) (sym unseen) ∙ e') in
            subst (IsOpenItem ps) kept (p, found, fp, waits)
      ]

  poll-IsOpen : (world : Str → W) (w : Watcher W) → IsOpen w → IsOpen (poll world w).0
  poll-IsOpen world w (once, all_open) = (
    poll-KeysOnce world w once,
    λ id it e.
        let e' = sym ((poll_lem world w once).0 id) ∙ e in
        elim (Option-cases (lookup id w.items)) [
          | inl gone ↦
              absurd (none-some (ap (or_gone w.has_sink (world id) w.probes) (sym gone) ∙ e'))
          | inr (before, there) ↦
              unfold poll in
              item_after-IsOpenItem w.has_sink (world id) w.probes before it
                (all_open id before there)
                (ap (or_gone w.has_sink (world id) w.probes) (sym there) ∙ e')
        ],
  )

  -- The probe that is found for a kind without space around it.
  probe-lookup :
      (kind : Str) (w : Watcher W) (p : Probe W)
      → trim_space kind ≡ kind
      → probe kind w ≡ ok p
      → lookup kind w.probes ≡ some p
  unfolding probe
  probe-lookup kind w p plain e =
      let e' : probe_found (lookup kind w.probes) kind ≡ ok p =
        ap (λ k. probe_found (lookup k w.probes) k) (sym plain) ∙ e in
      elim (Option-cases (lookup kind w.probes)) [
        | inl none_found ↦ absurd (err_ok (ap (λ o. probe_found o kind) (sym none_found) ∙ e'))
        | inr (q, found) ↦ found ∙ ap some (ok_inj (ap (λ o. probe_found o kind) (sym found) ∙ e'))
      ]

  until_for_plain :
      (spec : Spec) (w : Watcher W) (p : Probe W)
      → probe spec.kind w ≡ ok p
      → trim_space p.default_until ≡ p.default_until
      → trim_space (until_for spec w) ≡ until_for spec w
  unfolding until_for
  until_for_plain spec w p found plain = rw found (elim (Bool-cases (is_blank spec.until)) [
    | inl b ↦ rw b plain
    | inr b ↦ rw b (trim_space-trim_space spec.until)
  ])

  abbrev new_item : Probe W → Spec → Item
  new_item p spec = record {
    spec = watched p spec;
    fingerprint = p.fingerprint (watched p spec).fields;
  }

  put-IsOpen :
      (k : Str) (it : Item) (w : Watcher W)
      → IsOpenItem w.probes it
      → IsOpen w
      → IsOpen (record w { items = put k it w.items })
  put-IsOpen k it w new (once, all_open) = (
    put-KeysOnce k it w.items once,
    λ id found e.
        let e' = sym (lookup-put k id it w.items) ∙ e in
        elim (Bool-cases (str_eq k id)) [
          | inl b ↦
              subst (IsOpenItem w.probes)
                (some_inj (ap (λ b. if b then some it else lookup id w.items) (sym b) ∙ e')) new
          | inr b ↦
              all_open id found (ap (λ b. if b then some it else lookup id w.items) (sym b) ∙ e')
        ],
  )

  until_for-watched :
      (spec : Spec) (w : Watcher W) (p : Probe W)
      → probe spec.kind w ≡ ok p
      → trim_space spec.until ≡ spec.until
      → until_for spec w ≡ (watched p spec).until
  unfolding until_for watched
  until_for-watched spec w p found until =
      rw found (ap (λ u. if is_blank spec.until then p.default_until else u) until)

  -- What Watch remembers of a spec that is not done when it is seen.
  watch-IsGood :
      (spec : Spec) (w w' : Watcher W)
      → IsGood w
      → trim_space spec.kind ≡ spec.kind
      → trim_space spec.until ≡ spec.until
      → terminal spec spec.fields w ≡ false
      → watch spec w ≡ ok w'
      → IsGood w'
  unfolding watch terminal watched
  watch-IsGood spec w w' (plain, h) kind until waits e =
      let (p, found, e') = >>=-eq-ok (probe spec.kind w) _ e in
      let has_probe = probe-lookup spec.kind w p kind found in
      elim (Bool-cases (is_blank spec.target)) [
        | inl b ↦ absurd (ground (arith, b, e'))
        | inr b ↦
            let k = id_for p (watched p spec) in
            let new = new_item p spec in
            let fresh : IsOpenItem w.probes new = (
              p,
              has_probe,
              refl,
              ap (p.done spec.fields) (sym (until_for-watched spec w p found until))
                  ∙ ap (probe_done spec.fields (until_for spec w)) (sym found)
                  ∙ waits,
            ) in
            subst IsGood (ok_inj (rw b at e')) (plain, put-IsOpen k new w fresh h)
      ]

  start_seen-IsGood :
      (same_fold : Str → Str → Bool) (spec : Spec) (obs : Observation) (w w' : Watcher W)
      → (v : WatchView) → IsGood w
      → trim_space spec.kind ≡ spec.kind
      → trim_space spec.until ≡ spec.until
      → start_seen same_fold spec obs w ≡ ok (v, w')
      → IsGood w'
  unfolding start_seen
  start_seen-IsGood same_fold spec obs w w' v (plain, h) kind until e =
      elim (Bool-cases (not (present (some obs)) || terminal spec obs w)) [
        | inl done ↦ subst IsGood (ap (λ t. t.1) (ok_inj (rw done at e))) (plain, h)
        | inr waits ↦
            let (w1, taken, e1) =
              >>=-eq-ok (watch (record spec { fields = obs }) w) _ (rw waits at e) in
            subst IsGood (ap (λ t. t.1) (ok_inj e1)) (
              watch-IsGood (record spec { fields = obs }) w w1 (plain, h) kind until
                (unfold terminal until_for in
                  or_false (not (present (some obs))) (terminal spec obs w) waits)
                taken)
      ]

  -- The door leaves what is watched open.
  start_on-IsGood :
      (same_fold : Str → Str → Bool) (world : W) (req : WatchRequest) (w w' : Watcher W)
      → (v : WatchView) → IsGood w
      → start_on same_fold world req w ≡ ok (v, w')
      → IsGood w'
  unfolding start_on observe
  start_on-IsGood same_fold world req w w' v (plain, h) e =
      let (spec, read, e1) = >>=-eq-ok (spec_from_request req) _ e in
      let (obs, seen, e2) = >>=-eq-ok (observe world spec w) _ e1 in
      let (p, found, _) = >>=-eq-ok (probe spec.kind w) _ seen in
      let kind = spec_from_request-kind req spec read in
      start_seen-IsGood same_fold (record spec { until = until_for spec w }) obs w w' v (plain, h)
        kind
        (until_for_plain spec w p found (plain spec.kind p (probe-lookup spec.kind w p kind found)))
        e2

  abbrev after_door : Watcher W → Result WatchError (WatchView × Watcher W) → Watcher W
  after_door w (err e) = w
  after_door w (ok t) = t.1

  abbrev pub look : (Str → Str → Bool) → Look W → Watcher W → Watcher W
  look same_fold (asks world req) w = after_door w (start_watch same_fold world req (some w))
  look same_fold (passes world) w = (poll world w).0

  abbrev pub look_all : (Str → Str → Bool) → List (Look W) → Watcher W → Watcher W
  look_all same_fold [] w = w
  look_all same_fold (l ∷ ls) w = look_all same_fold ls (look same_fold l w)

  look-IsGood :
      (same_fold : Str → Str → Bool) (l : Look W) (w : Watcher W)
      → IsGood w
      → IsGood (look same_fold l w)
  look-IsGood same_fold (passes world) w (plain, h) = (unfold poll in plain, poll-IsOpen world w h)
  look-IsGood same_fold (asks world req) w h =
      elim (Result-cases (start_watch same_fold world req (some w))) [
        | inr (why, e) ↦ rw e h
        | inl (t, e) ↦
            rw e (start_on-IsGood same_fold world req w t.1 t.0 h (unfold start_watch in e))
      ]

  look_all-IsGood :
      (same_fold : Str → Str → Bool) (ls : List (Look W)) (w : Watcher W)
      → IsGood w
      → IsGood (look_all same_fold ls w)
  look_all-IsGood same_fold [] w h = h
  look_all-IsGood same_fold (l ∷ ls) w h =
      look_all-IsGood same_fold ls (look same_fold l w) (look-IsGood same_fold l w h)

  -- After any requests at the door and any passes, each of them whole before the next, whatever they
  -- see: no id stands twice, the kind of each item has a probe, its fingerprint is that of the
  -- snapshot which it stores, and by that snapshot it is not done. (Of every probe, what it waits for
  -- by default has no space around it.)
  pub look_all-IsOpen :
      (same_fold : Str → Str → Bool) (ls : List (Look W)) (ps : List (Probe W))
      → IsPlain (new_watcher ps).probes
      → IsOpen (look_all same_fold ls (new_watcher ps))
  look_all-IsOpen same_fold ls ps plain =
      let none_yet : IsOpen (new_watcher ps) =
        unfold new_watcher lookup in (tt, λ id it e. absurd (none-some e)) in
      (look_all-IsGood same_fold ls (new_watcher ps) (plain, none_yet)).1
