-- ===== src/Events/Log/Paging.antt =====
-- src/eventgateway/log.go: List, page by page.
use autonomy.Base.{
  ℕ, zero, suc, ◌≤◌, ◌<◌, ◌≡◌, ◌≢◌, refl, sym, subst, append-nil, ap, ◌∙◌, true, false, List, [],
  ◌∷◌, ◌++◌, Option, none, some, if◌then◌else◌, length, drop, take, keep, arith, Option-cases,
  Bool-cases, inl, inr, leb, append_assoc, All, not_nil, length-drop, take_all, take-drop,
}
use autonomy.Text.{Str, str_eq}
use autonomy.Text.Laws.{str_eq_iff, str_eq_refl}
use autonomy.Events.{WorldEvent}
use autonomy.Events.Log.{MemoryLog, Filter, list, scan, window, list_limit, match_filter, id_name}
use autonomy.Events.Log.Index.{place, NamesApart}

list_limit_bounds : (n : ℕ) → (0 < list_limit n) × (list_limit n ≤ 200)
unfolding list_limit
list_limit_bounds n = ground arith

length-take_bound {ℓ} : {A : Type ℓ} (n : ℕ) (xs : List A) → length (take n xs) ≤ n
length-take_bound zero xs = omega arith
length-take_bound (suc n) [] = omega arith
length-take_bound (suc n) (x ∷ xs) = omega (arith, length-take_bound n xs)

abbrev last_of {ℓ} : {A : Type ℓ} → List A → Option A
last_of [] = none
last_of (x ∷ []) = some x
last_of (x ∷ y ∷ xs) = last_of (y ∷ xs)

last_of_some {ℓ} : {A : Type ℓ} (x : A) (xs : List A) → last_of (x ∷ xs) ≢ none
last_of_some x [] e = cc
last_of_some x (y ∷ xs) e = last_of_some y xs e

last_of-take {ℓ} :
    {A : Type ℓ} (k : ℕ) (xs : List A) (x : A)
    → last_of (take k xs) ≡ some x
    → (ys : List A) × (xs ≡ ys ++ (x ∷ drop k xs))
last_of-take zero xs x h = cc
last_of-take (suc k) [] x h = cc
last_of-take (suc zero) (y ∷ ys) x h = ([], ground arith)
last_of-take (suc (suc k)) (y ∷ []) x h = ([], ground arith)
last_of-take (suc (suc k)) (y ∷ z ∷ ys) x h =
    let (before, same) = last_of-take (suc k) (z ∷ ys) x h in (y ∷ before, ap (◌∷◌ y) same)

no_more {ℓ} : {A : Type ℓ} (xs : List A) → length xs ≤ 0 → xs ≡ []
no_more [] h = refl
no_more (x ∷ xs) h = absurd (omega (arith, h))

-- A page without a last element is all that there is.
last_page {ℓ} :
    {A : Type ℓ} (k : ℕ) (xs : List A) → 0 < k → last_of (take k xs) ≡ none → take k xs ≡ xs
last_page zero xs h e = absurd (omega (arith, h))
last_page (suc k) [] h e = refl
last_page (suc k) (x ∷ xs) h e = absurd (last_of_some x (take k xs) e)

module _ {Payload : Type 0} where
  -- The events after the one of an id.
  abbrev pub after : Str → List (WorldEvent Payload) → List (WorldEvent Payload)
  after id [] = []
  after id (ev ∷ evs) = if str_eq ev.id id then evs else after id evs

  -- Those that match, in their order.
  abbrev pub matching : Filter → List (WorldEvent Payload) → List (WorldEvent Payload)
  matching f evs = keep (λ ev. match_filter ev f) evs

  -- A reader that asks for a page after the last event of the page before, until one is empty.
  abbrev pub read_pages : ℕ → Filter → MemoryLog Payload → List (WorldEvent Payload)
  read_pages zero f l = []
  read_pages (suc n) f l = list f l ++ (elim (last_of (list f l)) [
    | none ↦ []
    | some ev ↦ read_pages n (record f { after = ev.id }) l
  ])

  scan-true : (f : Filter) (evs : List (WorldEvent Payload)) → scan f true evs ≡ matching f evs
  unfolding scan keep
  scan-true f [] = refl
  scan-true f (ev ∷ evs) = ground (arith, scan-true f evs)

  scan-false :
      (f : Filter) (evs : List (WorldEvent Payload))
      → scan f false evs ≡ matching f (after f.after evs)
  unfolding scan keep
  scan-false f [] = refl
  scan-false f (ev ∷ evs) = elim (Bool-cases (str_eq ev.id f.after)) [
    | inl e ↦ rw e (scan-true f evs)
    | inr e ↦ rw e (scan-false f evs)
  ]

  -- After a cursor, List gives the next matches.
  list_after :
      (f : Filter) (l : MemoryLog Payload)
      → f.after ≢ []
      → list f l ≡ take (list_limit f.limit) (matching f (after f.after l.events))
  unfolding list window
  list_after f l h =
      rw (not_nil f.after h, scan-false f l.events)
        (elim (Bool-cases
          (leb (length (matching f (after f.after l.events))) (list_limit f.limit))) [
            | inl few ↦ rw few (
                sym (
                  take_all (list_limit f.limit) (matching f (after f.after l.events))
                    (ground arith)))
            | inr many ↦ rw many refl
          ])

  -- A match does not have an id that none of the events has.
  matching_other :
      (f : Filter) (id : Str) (i : ℕ) (evs ys zs : List (WorldEvent Payload))
      → (x : WorldEvent Payload) → place id_name id i evs ≡ none
      → matching f evs ≡ ys ++ (x ∷ zs)
      → str_eq x.id id ≡ false
  unfolding keep id_name
  matching_other f id i [] [] zs x h e = cc
  matching_other f id i [] (y ∷ ys) zs x h e = cc
  matching_other f id i (ev ∷ evs) [] zs x h e = elim (Bool-cases (match_filter ev f)) [
    | inl m ↦ let same : ev ≡ x = ground arith in ground arith
    | inr m ↦ matching_other f id (suc i) evs [] zs x (ground arith) (ground arith)
  ]
  matching_other f id i (ev ∷ evs) (y ∷ ys) zs x h e = elim (Bool-cases (match_filter ev f)) [
    | inl m ↦ matching_other f id (suc i) evs ys zs x (ground arith) (ground arith)
    | inr m ↦ matching_other f id (suc i) evs (y ∷ ys) zs x (ground arith) (ground arith)
  ]

  other_id :
      (f : Filter) (ev : WorldEvent Payload) (evs ys zs : List (WorldEvent Payload))
      → (x : WorldEvent Payload) → place id_name ev.id 0 evs ≡ none
      → matching f evs ≡ ys ++ (x ∷ zs)
      → str_eq ev.id x.id ≡ false
  other_id f ev evs ys zs x h e = ground (
    arith,
    matching_other f ev.id 0 evs ys zs x h e,
    str_eq_iff ev.id x.id,
    str_eq_iff x.id ev.id,
  )

  -- What follows a match in the list of matches is what matches after its id.
  matching-after :
      (f : Filter) (evs ys zs : List (WorldEvent Payload)) (x : WorldEvent Payload)
      → NamesApart id_name evs
      → matching f evs ≡ ys ++ (x ∷ zs)
      → matching f (after x.id evs) ≡ zs
  unfolding keep id_name
  matching-after f [] [] zs x h e = cc
  matching-after f [] (y ∷ ys) zs x h e = cc
  matching-after f (ev ∷ evs) [] zs x h e = elim (Bool-cases (match_filter ev f)) [
    | inl m ↦
        let (same, rest) : (ev ≡ x) × (matching f evs ≡ zs) = ground arith in
        rw (ap (λ e. e.id) same, str_eq_refl x.id) rest
    | inr m ↦
        let e' : matching f evs ≡ [] ++ (x ∷ zs) = ground arith in
        rw (other_id f ev evs [] zs x (h.0 ev.id (str_eq_refl ev.id)) e')
          (matching-after f evs [] zs x h.1 e')
  ]
  matching-after f (ev ∷ evs) (y ∷ ys) zs x h e = elim (Bool-cases (match_filter ev f)) [
    | inl m ↦
        let e' : matching f evs ≡ ys ++ (x ∷ zs) = ground arith in
        rw (other_id f ev evs ys zs x (h.0 ev.id (str_eq_refl ev.id)) e')
          (matching-after f evs ys zs x h.1 e')
    | inr m ↦
        let e' : matching f evs ≡ (y ∷ ys) ++ (x ∷ zs) = ground arith in
        rw (other_id f ev evs (y ∷ ys) zs x (h.0 ev.id (str_eq_refl ev.id)) e')
          (matching-after f evs (y ∷ ys) zs x h.1 e')
  ]

  -- What comes after an id ends the list of matches.
  matching_tail :
      (f : Filter) (id : Str) (evs : List (WorldEvent Payload))
      → (before : List (WorldEvent Payload)) × (matching f evs
          ≡ before ++ matching f (after id evs))
  unfolding keep
  matching_tail f id [] = ([], refl)
  matching_tail f id (ev ∷ evs) =
      let (before, same) = matching_tail f id evs in
      elim (Bool-cases (str_eq ev.id id)) [
        | inl e ↦ elim (Bool-cases (match_filter ev f)) [
          | inl m ↦ (ev ∷ [], rw (e, m) refl)
          | inr m ↦ ([], rw (e, m) refl)
        ]
        | inr e ↦ elim (Bool-cases (match_filter ev f)) [
          | inl m ↦ (ev ∷ before, rw (e, m) (ap (◌∷◌ ev) same))
          | inr m ↦ (before, rw (e, m) same)
        ]
      ]

  -- Where the last event of a page stands among the matches.
  page_end :
      (f : Filter) (l : MemoryLog Payload) (x : WorldEvent Payload)
      → f.after ≢ []
      → last_of (list f l) ≡ some x
      → (ys : List (WorldEvent Payload)) × (matching f l.events
          ≡ ys ++ (x ∷ drop (list_limit f.limit) (matching f (after f.after l.events))))
  page_end f l x c last =
      let all = matching f (after f.after l.events) in
      let (page, whole) =
        last_of-take (list_limit f.limit) all x (ap last_of (sym (list_after f l c)) ∙ last) in
      let (before, same) = matching_tail f f.after l.events in
      (before ++ page, rw append_assoc (same ∙ ap (λ m. before ++ m) whole))

  All-matching :
      (P : WorldEvent Payload → Type 0) (f : Filter) (evs : List (WorldEvent Payload))
      → All P evs
      → All P (matching f evs)
  unfolding keep
  All-matching P f [] h = tt
  All-matching P f (ev ∷ evs) h = elim (Bool-cases (match_filter ev f)) [
    | inl m ↦ rw m (h.0, All-matching P f evs h.1)
    | inr m ↦ rw m (All-matching P f evs h.1)
  ]

  All_middle :
      (P : WorldEvent Payload → Type 0) (ys zs : List (WorldEvent Payload))
      → (x : WorldEvent Payload) → All P (ys ++ (x ∷ zs))
      → P x
  All_middle P [] zs x h = h.0
  All_middle P (y ∷ ys) zs x h = All_middle P ys zs x h.1

  -- Where a page begins does not matter to what matches.
  matching_from :
      (f : Filter) (id : Str) (evs : List (WorldEvent Payload))
      → matching (record f { after = id }) evs ≡ matching f evs
  unfolding match_filter
  matching_from f id evs = refl

  -- The page after the last event of a page.
  next_page :
      (f : Filter) (l : MemoryLog Payload) (x : WorldEvent Payload)
      → NamesApart id_name l.events
      → All (λ ev. ev.id ≢ []) l.events
      → f.after ≢ []
      → last_of (list f l) ≡ some x
      → (x.id ≢ [])
        × (matching (record f { after = x.id }) (after x.id l.events)
            ≡ drop (list_limit f.limit) (matching f (after f.after l.events)))
  next_page f l x h ids c last =
      let all = matching f (after f.after l.events) in
      let rest = drop (list_limit f.limit) all in
      let (ys, whole) = page_end f l x c last in
      let named = All-matching (λ ev. ev.id ≢ []) f l.events ids in
      (
        All_middle (λ ev. ev.id ≢ []) ys rest x (subst (All (λ ev. ev.id ≢ [])) whole named),
        matching_from f x.id (after x.id l.events) ∙ matching-after f l.events ys rest x h whole,
      )

  -- A reader that starts after a cursor and goes on after the last event of each page, for at least
  -- as many pages as events match, gets every match after the cursor once, in order, if no two
  -- events have one id and none has an empty one.
  pub read_pages_lem :
      (n : ℕ) (f : Filter) (l : MemoryLog Payload)
      → NamesApart id_name l.events
      → All (λ ev. ev.id ≢ []) l.events
      → f.after ≢ []
      → length (matching f (after f.after l.events)) ≤ n
      → read_pages n f l ≡ matching f (after f.after l.events)
  read_pages_lem zero f l h ids c enough =
      sym (no_more (matching f (after f.after l.events)) enough)
  read_pages_lem (suc n) f l h ids c enough =
      let all = matching f (after f.after l.events) in
      let k = list_limit f.limit in
      elim (Option-cases (last_of (list f l))) [
        | inl nothing ↦
            rw (nothing, list_after f l c)
              (append-nil (take k all)
                ∙ last_page k all (list_limit_bounds f.limit).0
                    (ap last_of (sym (list_after f l c)) ∙ nothing))
        | inr (x, last) ↦
            let (named, rest) = next_page f l x h ids c last in
            let shorter : length (drop k all) ≤ n =
              omega (arith, length-drop k all, (list_limit_bounds f.limit).0) in
            let ih =
              read_pages_lem n (record f { after = x.id }) l h ids named
                (subst (λ m. length m ≤ n) (sym rest) shorter) in
            rw last (
              ap (λ p. p ++ read_pages n (record f { after = x.id }) l) (list_after f l c)
              ∙ ap (λ m. take k all ++ m) (ih ∙ rest)
              ∙ take-drop k all)
      ]
