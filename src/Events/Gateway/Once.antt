-- ===== src/Events/Gateway/Once.antt =====
-- src/eventgateway: one fact that is ingested twice.
use autonomy.Base.{
  ℕ, zero, suc, ◌-◌, ◌≤◌, ◌≡◌, ◌≢◌, refl, sym, ap, ◌∙◌, true, false, List, [], ◌∷◌, ◌++◌, Option,
  none, some, ok, err, length, drop, length-append, arith, Option-cases, inl, inr, is_nil,
}
use autonomy.Text.{Str, trim_space, is_blank}
use autonomy.Text.Laws.{str_eq_refl}
use autonomy.Events.{Envelope, WorldEvent, validate, to_event, normalize_canonical}
use autonomy.Events.Log.{
  MemoryLog, Appended, append, find_key, find_id, id_name, key_name, key_of, is_keyed, dedupe_key,
  memory_cap,
}
use autonomy.Events.Log.Index.{is_name, find}
use autonomy.Events.Log.Remember.{IsLog, append-remember, repeated, remember, newest}
use autonomy.Events.Gateway.{
  Gateway, Stamp, ingest, stamp, normalize_with, canonical_adapter, with_log,
}

module _ {Payload : Type 0} (name : WorldEvent Payload → Option Str) where
  find_last :
      (k : Str) (evs : List (WorldEvent Payload)) (ev : WorldEvent Payload)
      → find name k evs ≡ none
      → is_name k (name ev) ≡ true
      → find name k (evs ++ (ev ∷ [])) ≡ some ev
  find_last k [] ev h is = rw is refl
  find_last k (e ∷ evs) ev h is = ground (arith, find_last k evs ev)

  -- The last of few events is found after older ones are dropped.
  find-drop :
      (n : ℕ) (k : Str) (evs : List (WorldEvent Payload)) (ev : WorldEvent Payload)
      → n ≤ length evs
      → find name k evs ≡ none
      → is_name k (name ev) ≡ true
      → find name k (drop n (evs ++ (ev ∷ []))) ≡ some ev
  find-drop zero k evs ev few h is = find_last k evs ev h is
  find-drop (suc n) k [] ev few h is = absurd (omega (arith, few))
  find-drop (suc n) k (e ∷ evs) ev few h is =
      find-drop n k evs ev (omega (arith, few)) (ground arith) is

module _ {Payload : Type 0} where
  find-newest :
      (k : Str) (evs : List (WorldEvent Payload)) (ev : WorldEvent Payload)
      → length evs ≤ memory_cap
      → find key_name k evs ≡ none
      → is_name k (key_name ev) ≡ true
      → find key_name k (newest (evs ++ (ev ∷ []))) ≡ some ev
  find-newest k evs ev few h is =
      find-drop key_name (length (evs ++ (ev ∷ [])) - memory_cap) k evs ev
        (omega (arith, length-append evs (ev ∷ []))) h is

  append-duplicate :
      (ev : WorldEvent Payload) (l : MemoryLog Payload)
      → (append ev l).duplicate ≡ true
      → (append ev l).log ≡ l
  unfolding append
  append-duplicate ev l h = elim (Option-cases (find_key ev l)) [
    | inr (i, e) ↦ rw e refl
    | inl e ↦ elim (Option-cases (find_id ev l)) [
      | inr (i, e') ↦ rw (e, e') refl
      | inl e' ↦ absurd (ground (arith, e, e', h))
    ]
  ]

  repeated-key :
      (k : Str) (ev : WorldEvent Payload) (evs : List (WorldEvent Payload))
      → (old : WorldEvent Payload) → key_name ev ≡ some k
      → find key_name k evs ≡ some old
      → repeated ev evs ≡ some old
  repeated-key k ev evs old key e = rw (key, e) refl

  repeated-none :
      (k : Str) (ev : WorldEvent Payload) (evs : List (WorldEvent Payload))
      → key_name ev ≡ some k
      → find key_name k evs ≡ none
      → find id_name ev.id evs ≡ none
      → repeated ev evs ≡ none
  unfolding id_name
  repeated-none k ev evs key e new = rw (key, e) new

  -- What a log answers of an event with a new id is what it then has under the event's key.
  append-find :
      (k : Str) (ev : WorldEvent Payload) (l : MemoryLog Payload)
      → IsLog l
      → ev.id ≢ []
      → find id_name ev.id l.events ≡ none
      → key_name ev ≡ some k
      → (old : WorldEvent Payload) × ((append ev l).stored ≡ some old)
        × (find key_name k (append ev l).log.events ≡ some old)
  append-find k ev l h named new key =
      let same = (append-remember ev l h named).1 in
      elim (Option-cases (find key_name k l.events)) [
        | inr (old, e) ↦
            let known = repeated-key k ev l.events old key e in
            (
              old,
              ap (λ t. t.0) same ∙ ap (λ r. (remember r ev l.events).0) known,
              ap (λ t. find key_name k t.2) same
                  ∙ ap (λ r. find key_name k (remember r ev l.events).2) known
                  ∙ e,
            )
        | inl e ↦
            let unknown = repeated-none k ev l.events key e new in
            (
              ev,
              ap (λ t. t.0) same ∙ ap (λ r. (remember r ev l.events).0) unknown,
              ap (λ t. find key_name k t.2) same
                  ∙ ap (λ r. find key_name k (remember r ev l.events).2) unknown
                  ∙ find-newest k l.events ev h.2 e (rw key (str_eq_refl k)),
            )
      ]

  -- An event of a key that the event before it had.
  append-append :
      (k : Str) (ev ev' : WorldEvent Payload) (l : MemoryLog Payload)
      → IsLog l
      → ev.id ≢ []
      → ev'.id ≢ []
      → find id_name ev.id l.events ≡ none
      → key_name ev ≡ some k
      → key_name ev' ≡ some k
      → append ev' (append ev l).log
        ≡ record { stored = (append ev l).stored; duplicate = true; log = (append ev l).log }
  append-append k ev ev' l h id id' new key key' =
      let (old, answer, found) = append-find k ev l h id new key in
      let l' = (append ev l).log in
      let same =
        (append-remember ev' l' (append-remember ev l h id).0 id').1
        ∙ ap (λ r. remember r ev' l'.events) (repeated-key k ev' l'.events old key' found) in
      let there : (append ev' l').duplicate ≡ true = ap (λ t. t.1) same in
      λ i. record {
        stored = (ap (λ t. t.0) same ∙ sym answer) i;
        duplicate = there i;
        log = append-duplicate ev' l' there i;
      }

  ingest_valid :
      (empty : Payload) (at : Stamp) (env : Envelope Payload) (g : Gateway Payload)
      → g.adapters ≡ canonical_adapter ∷ []
      → validate env ≡ none
      → ingest empty at env (some g) ≡ ok (append (stamp empty at (to_event env)) g.log)
  unfolding ingest normalize_with canonical_adapter normalize_canonical
  ingest_valid empty at env g only valid = rw (only, valid) refl

  ingest_only :
      (empty : Payload) (at : Stamp) (env : Envelope Payload) (g : Gateway Payload)
      → (first : Appended Payload) → g.adapters ≡ canonical_adapter ∷ []
      → ingest empty at env (some g) ≡ ok first
      → (validate env ≡ none) × (first ≡ append (stamp empty at (to_event env)) g.log)
  unfolding ingest normalize_with canonical_adapter normalize_canonical
  ingest_only empty at env g first only e = elim (Option-cases (validate env)) [
    | inl valid ↦ let taken = ingest_valid empty at env g only valid in (valid, cc)
    | inr (why, invalid) ↦
        let refused : ingest empty at env (some g) ≡ err why = rw (only, invalid) refl in absurd cc
  ]

  stamp-key_name :
      (empty : Payload) (at : Stamp) (env : Envelope Payload)
      → is_blank env.idempotency_key ≡ false
      → key_name (stamp empty at (to_event env))
        ≡ some (dedupe_key (trim_space env.source) (trim_space env.idempotency_key))
  unfolding key_name is_keyed key_of stamp to_event is_blank
  stamp-key_name empty at env keyed = rw keyed refl

  -- Ingesting again what was just ingested, or another envelope of the same source and key, is
  -- answered as a duplicate, with the event that the first was answered with, and the log stays. The
  -- first is taken and its key is not blank, the second is valid, ids are not empty and the first is
  -- new, the log's indexes agree with its events, and the gateway has no adapter but its own.
  pub ingest-ingest :
      (empty : Payload) (at at' : Stamp) (env env' : Envelope Payload) (g : Gateway Payload)
      → (first : Appended Payload) → IsLog g.log
      → g.adapters ≡ canonical_adapter ∷ []
      → at.new_id ≢ []
      → at'.new_id ≢ []
      → find id_name at.new_id g.log.events ≡ none
      → is_blank env.idempotency_key ≡ false
      → trim_space env'.source ≡ trim_space env.source
      → trim_space env'.idempotency_key ≡ trim_space env.idempotency_key
      → ingest empty at env (some g) ≡ ok first
      → validate env' ≡ none
      → ingest empty at' env' (some (with_log g first))
        ≡ ok (record { stored = first.stored; duplicate = true; log = first.log })
  unfolding is_blank stamp to_event
  ingest-ingest empty at at' env env' g first h only id id' new keyed src key e valid =
      let (ok_env, same) = ingest_only empty at env g first only e in
      let ev = stamp empty at (to_event env) in
      let ev' = stamp empty at' (to_event env') in
      let k = dedupe_key (trim_space env.source) (trim_space env.idempotency_key) in
      let key' : key_name ev' ≡ some k =
        stamp-key_name empty at' env' (ap is_nil key ∙ keyed)
        ∙ ap (λ s. some (dedupe_key s (trim_space env'.idempotency_key))) src
        ∙ ap (λ t. some (dedupe_key (trim_space env.source) t)) key in
      ingest_valid empty at' env' (with_log g first) only valid
      ∙ ap (λ a. ok (append ev' a.log)) same
      ∙ ap ok (append-append k ev ev' g.log h id id' new (stamp-key_name empty at env keyed) key')
      ∙ ap (λ a. ok (record { stored = a.stored; duplicate = true; log = a.log })) (sym same)
