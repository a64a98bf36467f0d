-- ===== src/Events/Log/Repeats.antt =====
-- src/eventgateway/log.go: which events Append takes for one that it has, by what the events say.
use autonomy.Base.{
  ◌≡◌, ◌≢◌, refl, sym, ap, ◌∙◌, Bool, true, false, not, ◌&&◌, List, [], ◌∷◌, ◌++◌, Option, none,
  some, any, All, arith, Bool-cases, inl, inr, is_nil, ◌==◌, if◌then◌else◌,
}
use autonomy.Text.{Str, str_eq}
use autonomy.Events.{WorldEvent}
use autonomy.Events.Log.{MemoryLog, append, id_name, key_name, key_of, is_keyed, dedupe_key}
use autonomy.Events.Log.Index.{is_name, or_else, find}
use autonomy.Events.Log.Remember.{IsLog, find_named, append-remember, repeated, remember}

-- A text that holds no NUL, which is what stands between a source and a key.
abbrev pub IsNulFree : Str → Type 0
IsNulFree s = any (λ c. c == 0) s ≡ false

str_eq-nul :
    (s s' k k' : Str)
    → IsNulFree s
    → IsNulFree s'
    → str_eq (s ++ (0 ∷ k)) (s' ++ (0 ∷ k')) ≡ (str_eq s s' && str_eq k k')
unfolding str_eq any
str_eq-nul [] [] k k' h h' = ground arith
str_eq-nul [] (c ∷ s') k k' h h' = ground (arith, h')
str_eq-nul (c ∷ s) [] k k' h h' = ground (arith, h)
str_eq-nul (c ∷ s) (c' ∷ s') k k' h h' = ground (arith, h, h', str_eq-nul s s' k k')

str_eq-nil : (s t : Str) → is_nil s ≡ true → is_nil t ≡ false → str_eq s t ≡ false
unfolding str_eq
str_eq-nil [] [] h h' = cc
str_eq-nil [] (c ∷ t) h h' = refl
str_eq-nil (c ∷ s) t h h' = absurd (ground (arith, h))

module _ {Payload : Type 0} where
  -- The old event has the source and the key of the new one, which has a key.
  abbrev pub is_same_fact : WorldEvent Payload → WorldEvent Payload → Bool
  is_same_fact old ev =
      not (is_nil ev.idempotency_key)
      && (str_eq old.source ev.source && str_eq old.idempotency_key ev.idempotency_key)

  abbrev pub first_of :
      (WorldEvent Payload → Bool) → List (WorldEvent Payload) → Option (WorldEvent Payload)
  first_of p [] = none
  first_of p (ev ∷ evs) = if p ev then some ev else first_of p evs

  -- The event that a new one repeats: one of its source and its key, else one of its id.
  abbrev pub repeats : WorldEvent Payload → List (WorldEvent Payload) → Option (WorldEvent Payload)
  repeats ev evs =
      or_else (first_of (λ old. is_same_fact old ev) evs)
        (first_of (λ old. str_eq old.id ev.id) evs)

  find-id :
      (k : Str) (evs : List (WorldEvent Payload))
      → find id_name k evs ≡ first_of (λ old. str_eq old.id k) evs
  unfolding id_name
  find-id k [] = refl
  find-id k (e ∷ evs) = ground (arith, find-id k evs)

  -- Whether byKey would have an old event under the new one's key.
  key_name-is_same_fact :
      (ev old : WorldEvent Payload)
      → is_nil ev.idempotency_key ≡ false
      → IsNulFree ev.source
      → IsNulFree old.source
      → is_name (dedupe_key ev.source ev.idempotency_key) (key_name old) ≡ is_same_fact old ev
  unfolding key_name is_keyed key_of dedupe_key
  key_name-is_same_fact ev old keyed plain here =
      let pairs =
        str_eq-nul old.source ev.source old.idempotency_key ev.idempotency_key here plain in
      elim (Bool-cases (is_nil old.idempotency_key)) [
        | inl unkeyed ↦
            ground (arith, keyed, unkeyed, str_eq-nil old.idempotency_key ev.idempotency_key)
        | inr also ↦ ground (arith, keyed, also, pairs)
      ]

  find-key :
      (ev : WorldEvent Payload) (evs : List (WorldEvent Payload))
      → is_nil ev.idempotency_key ≡ false
      → IsNulFree ev.source
      → All (λ old. IsNulFree old.source) evs
      → find key_name (dedupe_key ev.source ev.idempotency_key) evs
        ≡ first_of (λ old. is_same_fact old ev) evs
  find-key ev [] keyed plain h = refl
  find-key ev (old ∷ evs) keyed plain (here, h) =
      rw (key_name-is_same_fact ev old keyed plain here, find-key ev evs keyed plain h) refl

  key_name-unkeyed :
      (ev : WorldEvent Payload) → is_nil ev.idempotency_key ≡ true → key_name ev ≡ none
  unfolding key_name is_keyed
  key_name-unkeyed ev unkeyed = rw unkeyed refl

  key_name-keyed :
      (ev : WorldEvent Payload)
      → is_nil ev.idempotency_key ≡ false
      → key_name ev ≡ some (dedupe_key ev.source ev.idempotency_key)
  unfolding key_name is_keyed key_of
  key_name-keyed ev keyed = rw keyed refl

  no_same_fact :
      (ev : WorldEvent Payload) (evs : List (WorldEvent Payload))
      → is_nil ev.idempotency_key ≡ true
      → first_of (λ old. is_same_fact old ev) evs ≡ none
  no_same_fact ev [] unkeyed = refl
  no_same_fact ev (old ∷ evs) unkeyed = ground (arith, unkeyed, no_same_fact ev evs unkeyed)

  -- What byKey has an event under leads to the first event of its source and key.
  find_named-is_same_fact :
      (ev : WorldEvent Payload) (evs : List (WorldEvent Payload))
      → IsNulFree ev.source
      → All (λ old. IsNulFree old.source) evs
      → find_named key_name (key_name ev) evs ≡ first_of (λ old. is_same_fact old ev) evs
  find_named-is_same_fact ev evs plain h = elim (Bool-cases (is_nil ev.idempotency_key)) [
    | inl unkeyed ↦
        ap (λ n. find_named key_name n evs) (key_name-unkeyed ev unkeyed)
        ∙ sym (no_same_fact ev evs unkeyed)
    | inr keyed ↦
        ap (λ n. find_named key_name n evs) (key_name-keyed ev keyed)
        ∙ find-key ev evs keyed plain h
  ]

  repeated-repeats :
      (ev : WorldEvent Payload) (evs : List (WorldEvent Payload))
      → IsNulFree ev.source
      → All (λ old. IsNulFree old.source) evs
      → repeated ev evs ≡ repeats ev evs
  unfolding id_name
  repeated-repeats ev evs plain h =
      ap (λ o. or_else o (find id_name ev.id evs)) (find_named-is_same_fact ev evs plain h)
      ∙ ap (λ o. or_else (first_of (λ old. is_same_fact old ev) evs) o) (find-id ev.id evs)

  -- Append answers as a log that is only the list of its events, of which it keeps the newest within
  -- the cap: an event is answered with the first of the list that has its source and its key (if it
  -- has a key), else with the first that has its id, and the list stays; any other is stored last. If
  -- the indexes agreed with the list, they still do. (The event has an id, and no source holds a NUL.)
  pub append_lem :
      (ev : WorldEvent Payload) (l : MemoryLog Payload)
      → IsLog l
      → ev.id ≢ []
      → IsNulFree ev.source
      → All (λ old. IsNulFree old.source) l.events
      → IsLog (append ev l).log
        × (((append ev l).stored, (append ev l).duplicate, (append ev l).log.events)
            ≡ remember (repeats ev l.events) ev l.events)
  append_lem ev l h named plain all_plain =
      let (still, same) = append-remember ev l h named in
      (
        still,
        same ∙ ap (λ r. remember r ev l.events) (repeated-repeats ev l.events plain all_plain),
      )
