-- ===== src/Events/Log/Index.antt =====
-- src/eventgateway/log.go: the indexes of a log against its list of events.
use autonomy.Base.{
  ℕ, zero, suc, ◌+◌, ◌-◌, ◌≤◌, ◌≡◌, refl, sym, ◌∙◌, Bool, true, false, List, [], ◌∷◌, ◌++◌, Option,
  none, some, if◌then◌else◌, length, take, drop, any, arith, Bool-cases, inl, inr,
}
use autonomy.Text.{Str, str_eq}
use autonomy.Dict.{Dict, lookup}
use autonomy.Dict.Laws.{lookup-put, lookup-remove}
use autonomy.Events.{WorldEvent}
use autonomy.Events.Log.{enter, leave, at, leave_all, enter_all}

-- Whether a name is this text.
abbrev pub is_name : Str → Option Str → Bool
is_name k none = false
is_name k (some j) = str_eq j k

abbrev pub or_else {ℓ} : {A : Type ℓ} → Option A → Option A → Option A
or_else none o = o
or_else (some a) o = some a

lookup-enter :
    (n : Option Str) (i : ℕ) (k : Str) (m : Dict ℕ)
    → lookup k (enter n i m) ≡ (if is_name k n then some i else lookup k m)
lookup-enter none i k m = refl
lookup-enter (some j) i k m = lookup-put j k i m

lookup-leave :
    (n : Option Str) (k : Str) (m : Dict ℕ)
    → lookup k (leave n m) ≡ (if is_name k n then none else lookup k m)
lookup-leave none k m = refl
lookup-leave (some j) k m = lookup-remove j k m

module _ {Payload : Type 0} (name : WorldEvent Payload → Option Str) where
  -- Where an event of a name first stands, counted from `i`.
  abbrev pub place : Str → ℕ → List (WorldEvent Payload) → Option ℕ
  place k i [] = none
  place k i (ev ∷ evs) = if is_name k (name ev) then some i else place k (suc i) evs

  -- The first event of a name.
  abbrev pub find : Str → List (WorldEvent Payload) → Option (WorldEvent Payload)
  find k [] = none
  find k (ev ∷ evs) = if is_name k (name ev) then some ev else find k evs

  -- No two events have a name in common.
  abbrev pub NamesApart : List (WorldEvent Payload) → Type 0
  NamesApart [] = Unit
  NamesApart (ev ∷ evs) =
      ((k : Str) → is_name k (name ev) ≡ true → place k 0 evs ≡ none) × NamesApart evs

  -- An index has each name at the place of its event, and no other name.
  abbrev pub IsIndex : List (WorldEvent Payload) → Dict ℕ → Type 0
  IsIndex evs m = ((k : Str) → lookup k m ≡ place k 0 evs) × NamesApart evs

  place-none :
      (k : Str) (i j : ℕ) (evs : List (WorldEvent Payload))
      → place k i evs ≡ none
      → place k j evs ≡ none
  place-none k i j [] h = refl
  place-none k i j (ev ∷ evs) h = ground (arith, place-none k (suc i) (suc j) evs)

  place-append :
      (k : Str) (i : ℕ) (evs : List (WorldEvent Payload)) (ev : WorldEvent Payload)
      → place k i (evs ++ (ev ∷ []))
        ≡ or_else (place k i evs) (if is_name k (name ev) then some (i + length evs) else none)
  place-append k i [] ev = ground arith
  place-append k i (e ∷ evs) ev = ground (arith, place-append k (suc i) evs ev)

  pub place-find :
      (k : Str) (i : ℕ) (evs : List (WorldEvent Payload)) → place k i evs ≡ none → find k evs ≡ none
  place-find k i [] h = refl
  place-find k i (ev ∷ evs) h = ground (arith, place-find k (suc i) evs)

  pub find-place :
      (k : Str) (i : ℕ) (evs : List (WorldEvent Payload)) → find k evs ≡ none → place k i evs ≡ none
  find-place k i [] h = refl
  find-place k i (ev ∷ evs) h = ground (arith, find-place k (suc i) evs)

  pub at-place :
      (k : Str) (i : ℕ) (evs : List (WorldEvent Payload)) (j : ℕ)
      → place k i evs ≡ some j
      → (i ≤ j) × (at (j - i) evs ≡ find k evs)
  unfolding at
  at-place k i [] j h = cc
  at-place k i (e ∷ evs) j h = elim (Bool-cases (is_name k (name e))) [
    | inl is ↦
        let here : j ≡ i = ground (arith, is) in
        let first : j - i ≡ 0 = omega (arith, here) in (omega (arith, here), rw (first, is) refl)
    | inr other ↦
        let (later, same) = at-place k (suc i) evs j (ground (arith, other)) in
        let next : j - i ≡ suc (j - suc i) = omega (arith, later) in
        (omega (arith, later), rw (next, other) same)
  ]

  lookup-enter_all :
      (k : Str) (i : ℕ) (evs : List (WorldEvent Payload)) (m : Dict ℕ)
      → NamesApart evs
      → lookup k (enter_all name i evs m) ≡ or_else (place k i evs) (lookup k m)
  unfolding enter_all
  lookup-enter_all k i [] m h = refl
  lookup-enter_all k i (ev ∷ evs) m h = ground (
    arith,
    lookup-enter_all k (suc i) evs (enter (name ev) i m) h.1,
    lookup-enter (name ev) i k m,
    place-none k 0 (suc i) evs,
    h.0 k,
  )

  lookup-leave_all :
      (k : Str) (evs : List (WorldEvent Payload)) (m : Dict ℕ)
      → lookup k (leave_all name evs m)
        ≡ (if any (λ ev. is_name k (name ev)) evs then none else lookup k m)
  unfolding leave_all any
  lookup-leave_all k [] m = refl
  lookup-leave_all k (ev ∷ evs) m =
      ground (arith, lookup-leave_all k evs (leave (name ev) m), lookup-leave (name ev) k m)

  place-take :
      (k : Str) (n i j : ℕ) (evs : List (WorldEvent Payload))
      → any (λ ev. is_name k (name ev)) (take n evs) ≡ false
      → place k j (drop n evs) ≡ none
      → place k i evs ≡ none
  unfolding any
  place-take k zero i j evs h e = place-none k j i evs e
  place-take k (suc n) i j [] h e = refl
  place-take k (suc n) i j (ev ∷ evs) h e = ground (arith, place-take k n (suc i) j evs)

  NamesApart-drop :
      (n : ℕ) (evs : List (WorldEvent Payload)) → NamesApart evs → NamesApart (drop n evs)
  NamesApart-drop zero evs h = h
  NamesApart-drop (suc n) [] h = tt
  NamesApart-drop (suc n) (ev ∷ evs) h = NamesApart-drop n evs h.1

  NamesApart-append :
      (evs : List (WorldEvent Payload)) (ev : WorldEvent Payload)
      → ((k : Str) → is_name k (name ev) ≡ true → place k 0 evs ≡ none)
      → NamesApart evs
      → NamesApart (evs ++ (ev ∷ []))
  NamesApart-append [] ev new h = (λ k e. refl, tt)
  NamesApart-append (e ∷ evs) ev new h = (
    λ k is. ground (arith, place-append k 0 evs ev, h.0 k is, new k),
    NamesApart-append evs ev (λ k is. place-none k 1 0 evs (ground (arith, new k is))) h.1,
  )

  -- An index stays one when a new event enters it.
  pub enter-IsIndex :
      (evs : List (WorldEvent Payload)) (ev : WorldEvent Payload) (m : Dict ℕ)
      → ((k : Str) → is_name k (name ev) ≡ true → lookup k m ≡ none)
      → IsIndex evs m
      → IsIndex (evs ++ (ev ∷ [])) (enter (name ev) (length evs) m)
  enter-IsIndex evs ev m new h = (
    λ k.
        ground
          (arith, lookup-enter (name ev) (length evs) k m, place-append k 0 evs ev, h.0 k, new k),
    NamesApart-append evs ev (λ k is. sym (h.0 k) ∙ new k is) h.1,
  )

  -- An index stays one when the first events leave and the others enter anew.
  pub drop-IsIndex :
      (n : ℕ) (evs : List (WorldEvent Payload)) (m : Dict ℕ)
      → IsIndex evs m
      → IsIndex (drop n evs) (enter_all name 0 (drop n evs) (leave_all name (take n evs) m))
  drop-IsIndex n evs m h = (
    λ k. ground (
      arith,
      lookup-enter_all k 0 (drop n evs) (leave_all name (take n evs) m) (NamesApart-drop n evs h.1),
      lookup-leave_all k (take n evs) m,
      h.0 k,
      place-take k n 0 0 evs,
    ),
    NamesApart-drop n evs h.1,
  )
