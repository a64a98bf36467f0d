-- ===== src/Plan/Run/Records.antt =====
-- The records of the steps that have run, against the actions that they are records of.
use autonomy.Base.{
  ℕ, ◌+◌, ◌≡◌, ◌≢◌, refl, ◌∙◌, sym, subst, true, false, List, [], ◌∷◌, ◌++◌, Option, none, some,
  if◌then◌else◌, arith, inl, inr, length, Bool-cases,
}
use autonomy.Text.{Str, str_eq, trim_space, is_blank}
use autonomy.Text.Laws.{str_eq_iff}
use autonomy.Decision.{CapabilityAction, Action, absent, nothing, calls}
use autonomy.Plan.World.{ActionResult}
use autonomy.Plan.Lineage.Names.{find_step, find_step-append, or_else, is_called}
use autonomy.Plan.Resolve.{record_named}

pub record_named-append :
    (s : Str) (rs : List ActionResult) (r : ActionResult)
    → record_named s (rs ++ r ∷ [])
      ≡ or_else (record_named s rs) (if str_eq r.step_name s then some r else none)
unfolding record_named
record_named-append s [] r = refl
record_named-append s (q ∷ rs) r = ground (arith, record_named-append s rs r)

unnamed : (n s : Str) → n ≡ [] → s ≢ [] → str_eq n s ≡ false
unnamed n s e h = ground (arith, str_eq_iff n s)

blank-nil : (s : Str) → is_blank s ≡ true → trim_space s ≡ []
unfolding is_blank
blank-nil s h = ground arith

-- `Good c r` says of a record what its reader needs to know, of a call of the capability c.
module _ (Good : Str → ActionResult → Type 0) where
  abbrev pub Answers : Option (ℕ × Str) → Option ActionResult → Type 0
  Answers none none = Unit
  Answers none (some r) = ⊥
  Answers (some e) none = ⊥
  Answers (some (p, c)) (some r) = Good c r

  -- Of each name, the first record is that of the first step done.
  abbrev pub Tracks : List Action → List ActionResult → Type 0
  Tracks done prior = (s : Str) → s ≢ [] → Answers (find_step s 0 done) (record_named s prior)

  pub Tracks-nil : Tracks [] []
  unfolding find_step record_named
  Tracks-nil s h = tt

  Answers-or_else :
      (a b : Option (ℕ × Str)) (x y : Option ActionResult)
      → Answers a x
      → Answers b y
      → Answers (or_else a b) (or_else x y)
  Answers-or_else none b none y h k = k
  Answers-or_else none b (some r) y h k = absurd h
  Answers-or_else (some e) b none y h k = absurd h
  Answers-or_else (some (p, c)) b (some r) y h k = h

  or_else-nothing : (o : Option (ℕ × Str)) → or_else o none ≡ o
  or_else-nothing none = refl
  or_else-nothing (some e) = refl

  -- A record with no name changes nothing, nor does an action that leaves no record.
  pub Tracks-absent :
      (done : List Action) (prior : List ActionResult)
      → Tracks done prior
      → Tracks (done ++ absent ∷ []) prior
  unfolding find_step
  Tracks-absent done prior t s h =
      rw (find_step-append s 0 done (absent ∷ []), or_else-nothing (find_step s 0 done)) (t s h)

  pub Tracks-nothing :
      (done : List Action) (prior : List ActionResult) (reason : Str) (r : ActionResult)
      → r.step_name ≡ []
      → Tracks done prior
      → Tracks (done ++ nothing reason ∷ []) (prior ++ r ∷ [])
  unfolding find_step
  Tracks-nothing done prior reason r e t s h =
      rw (find_step-append s 0 done (nothing reason ∷ []), record_named-append s prior r)
        (Answers-or_else (find_step s 0 done) none (record_named s prior) _ (t s h)
          (rw (unnamed r.step_name s e h) tt))

  -- What a step leaves is found under its name, and under no other.
  calls-Answers :
      (a : CapabilityAction) (r : ActionResult) (s : Str) (p : ℕ)
      → r.step_name ≡ trim_space a.step_name
      → Good a.name r
      → s ≢ []
      → Answers
          (if is_called s a then some (p, a.name) else none)
          (if str_eq r.step_name s then some r else none)
  calls-Answers a r s p e good h = elim (Bool-cases (is_blank a.step_name)) [
    | inl b ↦ rw (b, unnamed r.step_name s (e ∙ blank-nil a.step_name b) h) tt
    | inr b ↦ elim (Bool-cases (str_eq (trim_space a.step_name) s)) [
      | inl q ↦ rw (b, q, subst (λ n. str_eq n s ≡ true) (sym e) q) good
      | inr q ↦ rw (b, q, subst (λ n. str_eq n s ≡ false) (sym e) q) tt
    ]
  ]

  pub Tracks-calls :
      (done : List Action) (prior : List ActionResult) (a : CapabilityAction) (r : ActionResult)
      → r.step_name ≡ trim_space a.step_name
      → Good a.name r
      → Tracks done prior
      → Tracks (done ++ calls a ∷ []) (prior ++ r ∷ [])
  unfolding find_step
  Tracks-calls done prior a r e good t s h =
      rw (find_step-append s 0 done (calls a ∷ []), record_named-append s prior r)
        (Answers-or_else (find_step s 0 done) _ (record_named s prior) _ (t s h)
          (calls-Answers a r s (0 + length done + 1) e good h))

  -- The record that a name stands for, once a step of that name is done.
  pub Answers-record :
      (o : Option (ℕ × Str)) (x : Option ActionResult) (p : ℕ) (c : Str)
      → Answers o x
      → o ≡ some (p, c)
      → (r : ActionResult) × (x ≡ some r) × Good c r
  Answers-record none x p c h e = cc
  Answers-record (some (q, d)) none p c h e = absurd h
  Answers-record (some (q, d)) (some r) p c h e =
      let same : d ≡ c = cc in (r, refl, subst (λ k. Good k r) same h)
