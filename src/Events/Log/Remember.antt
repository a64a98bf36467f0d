-- ===== src/Events/Log/Remember.antt =====
-- src/eventgateway/log.go: Append against a log that is only its list of events.
use autonomy.Base.{
  ℕ, ◌+◌, ◌-◌, ◌≤◌, ◌≡◌, ◌≢◌, refl, ◌∙◌, Bool, true, false, List, [], ◌∷◌, ◌++◌, Option, none, some,
  length, drop, length-drop, not_nil, arith, Option-cases, Bool-cases, ◌⊎◌, inl, inr, is_nil, leb,
}
use autonomy.Text.{Str}
use autonomy.Dict.{Dict, lookup}
use autonomy.Text.Laws.{str_eq_iff}
use autonomy.Events.{WorldEvent}
use autonomy.Events.Log.{
  MemoryLog, append, find_key, find_id, look_up, add, drop_oldest, drop_first, at, id_name,
  key_name, memory_cap, enter,
}
use autonomy.Events.Log.Index.{
  is_name, or_else, place, find, place-find, find-place, IsIndex, at-place, enter-IsIndex,
  drop-IsIndex,
}

at_first {ℓ} : {A : Type ℓ} (i : ℕ) (xs : List A) → at i xs ≡ at (i - 0) xs
at_first i xs = let same : i - 0 ≡ i = omega arith in rw same refl

new_name :
    (n : Option Str) (m : Dict ℕ)
    → look_up n m ≡ none
    → (k : Str) → is_name k n ≡ true
    → lookup k m ≡ none
new_name none m h k e = cc
new_name (some j) m h k e = ground (arith, str_eq_iff j k)

module _ {Payload : Type 0} where
  -- Both indexes agree with the events, and these are within the cap.
  abbrev pub IsLog : MemoryLog Payload → Type 0
  IsLog l =
      IsIndex id_name l.events l.by_id
      × IsIndex key_name l.events l.by_key
      × (length l.events ≤ memory_cap)

  -- The event that a list has under an event's name.
  abbrev pub find_named :
      (WorldEvent Payload → Option Str)
      → Option Str
      → List (WorldEvent Payload)
      → Option (WorldEvent Payload)
  find_named name none evs = none
  find_named name (some k) evs = find name k evs

  -- The event that is found under a new one's name in byKey, else under its name in byID.
  abbrev pub repeated : WorldEvent Payload → List (WorldEvent Payload) → Option (WorldEvent Payload)
  repeated ev evs =
      or_else (find_named key_name (key_name ev) evs) (find_named id_name (id_name ev) evs)

  -- The last events, as many as the cap admits.
  abbrev pub newest : List (WorldEvent Payload) → List (WorldEvent Payload)
  newest evs = drop (length evs - memory_cap) evs

  -- What a log that is only its list does with an event: the answer, whether it was there, the list.
  abbrev pub remember :
      Option (WorldEvent Payload)
      → WorldEvent Payload
      → List (WorldEvent Payload)
      → Option (WorldEvent Payload) × Bool × List (WorldEvent Payload)
  remember none ev evs = (some ev, false, newest (evs ++ (ev ∷ [])))
  remember (some old) ev evs = (some old, true, evs)

  drop_first-IsLog :
      (n : ℕ) (l : MemoryLog Payload)
      → IsIndex id_name l.events l.by_id
      → IsIndex key_name l.events l.by_key
      → length l.events ≤ n + memory_cap
      → IsLog (drop_first n l)
  unfolding drop_first
  drop_first-IsLog n l hi hk b = (
    drop-IsIndex id_name n l.events l.by_id hi,
    drop-IsIndex key_name n l.events l.by_key hk,
    omega (arith, length-drop n l.events),
  )

  drop_oldest-IsLog :
      (l : MemoryLog Payload)
      → IsIndex id_name l.events l.by_id
      → IsIndex key_name l.events l.by_key
      → IsLog (drop_oldest l) × ((drop_oldest l).events ≡ newest l.events)
  unfolding drop_oldest
  drop_oldest-IsLog l hi hk = elim (Bool-cases (leb (length l.events) memory_cap)) [
    | inl few ↦
        let none_over : length l.events - memory_cap ≡ 0 = ground arith in
        rw few ((hi, hk, ground arith), rw none_over refl)
    | inr many ↦ rw many (
      drop_first-IsLog (length l.events - memory_cap) l hi hk (omega arith),
      unfold drop_first in refl,
    )
  ]

  -- What an index answers for a name, and the event that it leads to, against the list.
  look_up_cases :
      (name : WorldEvent Payload → Option Str) (n : Option Str) (evs : List (WorldEvent Payload))
      → (m : Dict ℕ) → IsIndex name evs m
      → ((look_up n m ≡ none) × (find_named name n evs ≡ none))
        ⊎ ((i : ℕ) × (old : WorldEvent Payload) × (look_up n m ≡ some i)
            × (at i evs ≡ some old)
            × (find_named name n evs ≡ some old))
  look_up_cases name none evs m h = inl (refl, refl)
  look_up_cases name (some k) evs m h = elim (Option-cases (find name k evs)) [
    | inl none_found ↦ inl (h.0 k ∙ find-place name k 0 evs none_found, none_found)
    | inr (old, found) ↦ elim (Option-cases (place name k 0 evs)) [
      | inl nowhere ↦ absurd (ground (arith, place-find name k 0 evs nowhere, found))
      | inr (i, here) ↦
          inr
            (i, old, h.0 k ∙ here, at_first i evs ∙ (at-place name k 0 evs i here).1 ∙ found, found)
    ]
  ]

  add-IsLog :
      (ev : WorldEvent Payload) (l : MemoryLog Payload)
      → IsLog l
      → look_up (id_name ev) l.by_id ≡ none
      → look_up (key_name ev) l.by_key ≡ none
      → IsLog (add ev l) × ((add ev l).events ≡ newest (l.events ++ (ev ∷ [])))
  unfolding add
  add-IsLog ev l (hi, hk, b) no_id no_key =
      drop_oldest-IsLog
        (record {
          events = l.events ++ (ev ∷ []);
          by_id = enter (id_name ev) (length l.events) l.by_id;
          by_key = enter (key_name ev) (length l.events) l.by_key;
        })
        (enter-IsIndex id_name l.events ev l.by_id (new_name (id_name ev) l.by_id no_id) hi)
        (enter-IsIndex key_name l.events ev l.by_key (new_name (key_name ev) l.by_key no_key) hk)

  -- What Append answers, and what it keeps, is what `remember` says of the event that is found under
  -- one of the new one's two names; and the indexes agree with the events as before.
  pub append-remember :
      (ev : WorldEvent Payload) (l : MemoryLog Payload)
      → IsLog l
      → ev.id ≢ []
      → IsLog (append ev l).log
        × (((append ev l).stored, (append ev l).duplicate, (append ev l).log.events)
            ≡ remember (repeated ev l.events) ev l.events)
  unfolding append find_key find_id
  append-remember ev l h named = elim (look_up_cases key_name (key_name ev) l.events l.by_key h.1) [
    | inr (i, old, found, here, same) ↦ rw (found, same) (h, rw here refl)
    | inl (no_key, none_of_key) ↦
        let is_named : is_nil ev.id ≡ false = not_nil ev.id named in
        elim (look_up_cases id_name (id_name ev) l.events l.by_id h.0) [
          | inr (i, old, found, here, same) ↦
              rw (no_key, none_of_key, is_named, found, same) (h, rw here refl)
          | inl (no_id, none_of_id) ↦
              let (still, kept) = add-IsLog ev l h no_id no_key in
              rw (no_key, none_of_key, is_named, no_id, none_of_id) (still, rw kept refl)
        ]
  ]
