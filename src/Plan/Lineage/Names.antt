-- ===== src/Plan/Lineage/Names.antt =====
-- What the first loop of `validatePlanLineage` establishes about the names of a plan's steps.
use native.Mathlib.Nat.{add-zero, add-suc, suc-add}
use autonomy.Base.{
  ℕ, suc, ◌+◌, ◌≤◌, ◌<◌, ◌≡◌, refl, Bool, true, false, not, ◌&&◌, List, [], ◌∷◌, ◌++◌, Option, none,
  some, if◌then◌else◌, ok, >>=-eq-ok, arith, inl, inr, length, Bool-cases,
}
use autonomy.Text.{Str, str_eq, trim_space, is_blank}
use autonomy.Text.Laws.{str_eq_iff, str_eq_refl}
use autonomy.Dict.{lookup}
use autonomy.Dict.Laws.{lookup-put}
use autonomy.Decision.{CapabilityAction, Action, absent, nothing, calls}
use autonomy.Plan.Source.{is_step_name}
use autonomy.Plan.Lineage.{StepNames, no_names, with_name, name_call, name_step, name_steps}

abbrev pub or_else {ℓ} : {A : Type ℓ} → Option A → Option A → Option A
or_else none o = o
or_else (some a) o = some a

-- Whether an action is the call of a step of that name.
abbrev pub is_called : Str → CapabilityAction → Bool
is_called s a = not (is_blank a.step_name) && str_eq (trim_space a.step_name) s

-- The first step of a name among the actions from position i + 1 on: its position and capability.
unfoldable pub find_step : Str → ℕ → List Action → Option (ℕ × Str)
find_step s i [] = none
find_step s i (absent ∷ actions) = find_step s (suc i) actions
find_step s i (nothing _ ∷ actions) = find_step s (suc i) actions
find_step s i (calls a ∷ actions) =
    if is_called s a then some (i + 1, a.name) else find_step s (suc i) actions

-- What the two maps say of a name.
abbrev pub name_info : Str → StepNames → Option (ℕ × Str)
name_info s ns = elim (lookup s ns.position_of) [
  | none ↦ none
  | some p ↦ some (p, elim (lookup s ns.capability_of) [ none ↦ [] | some c ↦ c ])
]

name_info-with_name :
    (s n : Str) (p : ℕ) (c : Str) (ns : StepNames)
    → name_info s (with_name n p c ns) ≡ (if str_eq n s then some (p, c) else name_info s ns)
name_info-with_name s n p c ns =
    ground (arith, lookup-put n s p ns.position_of, lookup-put n s c ns.capability_of)

or_else-none {ℓ} : {A : Type ℓ} (o : Option A) → o ≡ or_else o none
or_else-none none = refl
or_else-none (some a) = refl

name_step-inv :
    (i : ℕ) (name capability : Str) (ns ns' : StepNames)
    → name_step i name capability ns ≡ ok ns'
    → (ns' ≡ with_name name (i + 1) capability ns)
      × (name_info name ns ≡ none)
      × (is_step_name name ≡ true)
unfolding name_step
name_step-inv i name capability ns ns' h = ground arith

-- What the maps say after a step whose name was taken or passed over.
name_call-info :
    (s : Str) (i : ℕ) (ns ns' : StepNames) (a : CapabilityAction)
    → name_call i ns a ≡ ok ns'
    → name_info s ns'
      ≡ or_else (name_info s ns) (if is_called s a then some (i + 1, a.name) else none)
name_call-info s i ns ns' a h = elim (Bool-cases (is_blank a.step_name)) [
  | inl b ↦ let same : ns' ≡ ns = ground (arith, b) in rw (same, b) (or_else-none (name_info s ns))
  | inr b ↦
      let (e, fresh, _) =
        name_step-inv i (trim_space a.step_name) a.name ns ns' (ground (arith, b)) in
      rw (e, name_info-with_name s (trim_space a.step_name) (i + 1) a.name ns, b)
        (ground (arith, fresh, str_eq_iff (trim_space a.step_name) s))
]

-- After the first loop the maps hold, of each name, the first step that has it.
pub name_steps-info :
    (s : Str) (i : ℕ) (ns ns' : StepNames) (actions : List Action)
    → name_steps i ns actions ≡ ok ns'
    → name_info s ns' ≡ or_else (name_info s ns) (find_step s i actions)
unfolding name_steps find_step
name_steps-info s i ns ns' [] h = ground arith
name_steps-info s i ns ns' (absent ∷ rest) h = name_steps-info s (suc i) ns ns' rest h
name_steps-info s i ns ns' (nothing _ ∷ rest) h = name_steps-info s (suc i) ns ns' rest h
name_steps-info s i ns ns' (calls a ∷ rest) h =
    let (ns1, e1, e2) = >>=-eq-ok (name_call i ns a) (λ m. name_steps (suc i) m rest) h in
    ground (arith, name_call-info s i ns ns1 a e1, name_steps-info s (suc i) ns1 ns' rest e2)

-- Of an empty pair of maps the answer is that of the plan.
pub name_steps-find :
    (s : Str) (ns : StepNames) (actions : List Action)
    → name_steps 0 no_names actions ≡ ok ns
    → name_info s ns ≡ find_step s 0 actions
unfolding lookup
name_steps-find s ns actions h = name_steps-info s 0 no_names ns actions h

-- The search of a list goes on where that of its first part fails.
pub find_step-append :
    (s : Str) (i : ℕ) (xs ys : List Action)
    → find_step s i (xs ++ ys) ≡ or_else (find_step s i xs) (find_step s (i + length xs) ys)
unfolding find_step
find_step-append s i [] ys = rw add-zero
find_step-append s i (absent ∷ xs) ys = rw (add-suc, ← suc-add) (find_step-append s (suc i) xs ys)
find_step-append s i (nothing _ ∷ xs) ys =
    rw (add-suc, ← suc-add) (find_step-append s (suc i) xs ys)
find_step-append s i (calls a ∷ xs) ys =
    rw (add-suc i (length xs), ← suc-add i (length xs))
      (ground (arith, find_step-append s (suc i) xs ys))

-- A position that is found lies in the list searched.
pub find_step_bounds :
    (s : Str) (i : ℕ) (xs : List Action) (p : ℕ) (c : Str)
    → find_step s i xs ≡ some (p, c)
    → (i < p) × (p ≤ i + length xs)
unfolding find_step
find_step_bounds s i [] p c h = cc
find_step_bounds s i (absent ∷ xs) p c h = ground (arith, find_step_bounds s (suc i) xs p c)
find_step_bounds s i (nothing _ ∷ xs) p c h = ground (arith, find_step_bounds s (suc i) xs p c)
find_step_bounds s i (calls a ∷ xs) p c h = ground (arith, find_step_bounds s (suc i) xs p c)

-- So an earlier step is found among the actions before it.
pub find_step_earlier :
    (s : Str) (done rest : List Action) (p : ℕ) (c : Str)
    → find_step s 0 (done ++ rest) ≡ some (p, c)
    → p ≤ length done
    → find_step s 0 done ≡ some (p, c)
find_step_earlier s done rest p c h le =
    ground (arith, find_step-append s 0 done rest, find_step_bounds s (0 + length done) rest p c)

-- The names of a plan's steps can be addressed, and no two steps share one.
abbrev pub NamesAreUsable : List Action → Type 0
NamesAreUsable [] = Unit
NamesAreUsable (absent ∷ rest) = NamesAreUsable rest
NamesAreUsable (nothing _ ∷ rest) = NamesAreUsable rest
NamesAreUsable (calls a ∷ rest) =
    (is_blank a.step_name ≡ false
      → (is_step_name (trim_space a.step_name) ≡ true)
        × (find_step (trim_space a.step_name) 0 rest ≡ none))
    × NamesAreUsable rest

-- Whether a name is there does not depend on where the count starts.
find_step-none :
    (s : Str) (i j : ℕ) (xs : List Action) → find_step s i xs ≡ none → find_step s j xs ≡ none
unfolding find_step
find_step-none s i j [] h = refl
find_step-none s i j (absent ∷ xs) h = find_step-none s (suc i) (suc j) xs h
find_step-none s i j (nothing _ ∷ xs) h = find_step-none s (suc i) (suc j) xs h
find_step-none s i j (calls a ∷ xs) h = ground (arith, find_step-none s (suc i) (suc j) xs)

name_call-fresh :
    (s : Str) (i : ℕ) (ns ns' : StepNames) (a : CapabilityAction) (e : ℕ × Str)
    → name_call i ns a ≡ ok ns'
    → name_info s ns ≡ some e
    → is_called s a ≡ false
name_call-fresh s i ns ns' a e h k = elim (Bool-cases (is_blank a.step_name)) [
  | inl b ↦ rw b
  | inr b ↦
      let (_, fresh, _) =
        name_step-inv i (trim_space a.step_name) a.name ns ns' (ground (arith, b)) in
      elim (Bool-cases (str_eq (trim_space a.step_name) s)) [
        | inl q ↦ absurd (ground (arith, fresh, str_eq_iff (trim_space a.step_name) s))
        | inr q ↦ rw (b, q)
      ]
]

-- A name that the maps hold already is not met again.
name_steps-fresh :
    (s : Str) (i : ℕ) (ns ns' : StepNames) (actions : List Action) (e : ℕ × Str)
    → name_steps i ns actions ≡ ok ns'
    → name_info s ns ≡ some e
    → find_step s i actions ≡ none
unfolding name_steps find_step
name_steps-fresh s i ns ns' [] e h k = refl
name_steps-fresh s i ns ns' (absent ∷ rest) e h k = name_steps-fresh s (suc i) ns ns' rest e h k
name_steps-fresh s i ns ns' (nothing _ ∷ rest) e h k = name_steps-fresh s (suc i) ns ns' rest e h k
name_steps-fresh s i ns ns' (calls a ∷ rest) e h k =
    let (ns1, e1, e2) = >>=-eq-ok (name_call i ns a) (λ m. name_steps (suc i) m rest) h in
    ground (
      arith,
      name_call-info s i ns ns1 a e1,
      name_call-fresh s i ns ns1 a e e1 k,
      name_steps-fresh s (suc i) ns1 ns' rest e e2,
    )

pub name_steps-usable :
    (i : ℕ) (ns ns' : StepNames) (actions : List Action)
    → name_steps i ns actions ≡ ok ns'
    → NamesAreUsable actions
unfolding name_steps
name_steps-usable i ns ns' [] h = tt
name_steps-usable i ns ns' (absent ∷ rest) h = name_steps-usable (suc i) ns ns' rest h
name_steps-usable i ns ns' (nothing _ ∷ rest) h = name_steps-usable (suc i) ns ns' rest h
name_steps-usable i ns ns' (calls a ∷ rest) h =
    let (ns1, e1, e2) = >>=-eq-ok (name_call i ns a) (λ m. name_steps (suc i) m rest) h in
    let name : Str = trim_space a.step_name in
    (
      λ b.
          let (taken, _, usable) = name_step-inv i name a.name ns ns1 (ground (arith, b, e1)) in
          let info : name_info name ns1 ≡ some (i + 1, a.name) =
            rw (taken, name_info-with_name name name (i + 1) a.name ns, str_eq_refl name) in
          (
            usable,
            find_step-none name (suc i) 0 rest
                (name_steps-fresh name (suc i) ns1 ns' rest (i + 1, a.name) e2 info),
          ),
      name_steps-usable (suc i) ns1 ns' rest e2,
    )

-- The maps hold none of the names of a list of actions.
abbrev pub IsFresh : StepNames → List Action → Type 0
IsFresh ns [] = Unit
IsFresh ns (absent ∷ rest) = IsFresh ns rest
IsFresh ns (nothing _ ∷ rest) = IsFresh ns rest
IsFresh ns (calls a ∷ rest) =
    (is_blank a.step_name ≡ false → name_info (trim_space a.step_name) ns ≡ none) × IsFresh ns rest

pub IsFresh-no_names : (actions : List Action) → IsFresh no_names actions
unfolding lookup
IsFresh-no_names [] = tt
IsFresh-no_names (absent ∷ rest) = IsFresh-no_names rest
IsFresh-no_names (nothing _ ∷ rest) = IsFresh-no_names rest
IsFresh-no_names (calls a ∷ rest) = (λ _. refl, IsFresh-no_names rest)

IsFresh-with_name :
    (n : Str) (p : ℕ) (c : Str) (ns : StepNames) (i : ℕ) (rest : List Action)
    → find_step n i rest ≡ none
    → IsFresh ns rest
    → IsFresh (with_name n p c ns) rest
unfolding find_step
IsFresh-with_name n p c ns i [] h fresh = tt
IsFresh-with_name n p c ns i (absent ∷ rest) h fresh =
    IsFresh-with_name n p c ns (suc i) rest h fresh
IsFresh-with_name n p c ns i (nothing _ ∷ rest) h fresh =
    IsFresh-with_name n p c ns (suc i) rest h fresh
IsFresh-with_name n p c ns i (calls a ∷ rest) h fresh = (
  λ b. rw (name_info-with_name (trim_space a.step_name) n p c ns) (
      ground (
        arith,
        fresh.0 b,
        str_eq_iff n (trim_space a.step_name),
        str_eq_iff (trim_space a.step_name) n,
      )),
  IsFresh-with_name n p c ns (suc i) rest (ground arith) fresh.1,
)

name_step_ok :
    (i : ℕ) (name capability : Str) (ns : StepNames)
    → is_step_name name ≡ true
    → name_info name ns ≡ none
    → name_step i name capability ns ≡ ok (with_name name (i + 1) capability ns)
unfolding name_step
name_step_ok i name capability ns usable fresh = ground arith

-- Usable names that the maps do not hold are all taken.
pub name_steps_complete :
    (i : ℕ) (ns : StepNames) (actions : List Action)
    → IsFresh ns actions
    → NamesAreUsable actions
    → (ns' : StepNames) × (name_steps i ns actions ≡ ok ns')
unfolding name_steps
name_steps_complete i ns [] fresh usable = (ns, refl)
name_steps_complete i ns (absent ∷ rest) fresh usable =
    name_steps_complete (suc i) ns rest fresh usable
name_steps_complete i ns (nothing _ ∷ rest) fresh usable =
    name_steps_complete (suc i) ns rest fresh usable
name_steps_complete i ns (calls a ∷ rest) fresh usable = elim (Bool-cases (is_blank a.step_name)) [
  | inl b ↦ rw b (name_steps_complete (suc i) ns rest fresh.1 usable.1)
  | inr b ↦
      let name : Str = trim_space a.step_name in
      let (named, alone) = usable.0 b in
      rw (b, name_step_ok i name a.name ns named (fresh.0 b))
        (name_steps_complete (suc i) (with_name name (i + 1) a.name ns) rest
          (IsFresh-with_name name (i + 1) a.name ns 0 rest alone fresh.1) usable.1)
]
