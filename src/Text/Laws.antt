-- ===== src/Text/Laws.antt =====
-- Laws of the text functions.
use native.Mathlib.Nat.{zero-add, suc-add}
use autonomy.Base.{
  ℕ, suc, ◌+◌, ◌≡◌, ◌≢◌, refl, ◌↔◌, ap, ◌∙◌, inl, inr, Bool, true, false, List, [], ◌∷◌, ◌++◌, some,
  reverse, arith, ◌==◌, ==_iff, length, any, drop, take, drop-append, Option-cases, Bool-cases, [],
  ◌⊎◌, ◌+◌, append_assoc,
}
use mathlib.Core.List.{reverse-append, reverse-reverse, reverse-cons}
use autonomy.Text.{
  Str, str_eq, strip_prefix, index, is_space, trim_left, trim_space, is_blank, has_rune, split,
  join, push_front,
}

pub str_eq_sound : (s t : Str) → str_eq s t ≡ true → s ≡ t
unfolding str_eq
str_eq_sound [] [] h = refl
str_eq_sound [] (b ∷ t) h = cc
str_eq_sound (a ∷ s) [] h = cc
str_eq_sound (a ∷ s) (b ∷ t) h = ground (arith, str_eq_sound s t, ==_iff a b)

pub str_eq_refl : (s : Str) → str_eq s s ≡ true
unfolding str_eq
str_eq_refl [] = refl
str_eq_refl (a ∷ s) = ground (arith, str_eq_refl s)

pub str_eq_iff : (s t : Str) → (str_eq s t ≡ true) ↔ (s ≡ t)
str_eq_iff s t = (str_eq_sound s t, λ e. rw e (str_eq_refl t))

pub strip_prefix-append : (p s : Str) → strip_prefix p (p ++ s) ≡ some s
unfolding strip_prefix
strip_prefix-append [] s = refl
strip_prefix-append (c ∷ p) s = ground (arith, strip_prefix-append p s)

pub strip_prefix_sound : (p s r : Str) → strip_prefix p s ≡ some r → s ≡ p ++ r
unfolding strip_prefix
strip_prefix_sound [] s r h = cc
strip_prefix_sound (c ∷ p) [] r h = cc
strip_prefix_sound (c ∷ p) (d ∷ s) r h = ground (arith, strip_prefix_sound p s r, ==_iff c d)

-- A text that begins with a character which the other text lacks is first found behind it.
pub index-append :
    (c : ℕ) (sub s r : Str)
    → has_rune c s ≡ false
    → index (c ∷ sub) (s ++ ((c ∷ sub) ++ r)) ≡ some (length s)
unfolding index has_rune strip_prefix
index-append c sub [] r h = rw (strip_prefix-append (c ∷ sub) r) refl
index-append c sub (d ∷ s) r h = ground (arith, index-append c sub s r)

index_here :
    (sub s r : Str) → strip_prefix sub s ≡ some r → s ≡ take 0 s ++ (sub ++ drop (0 + length sub) s)
index_here sub s r e =
    let same : s ≡ sub ++ r = strip_prefix_sound sub s r e in rw (zero-add, same, drop-append sub r)

index_later :
    (c : ℕ) (sub s : Str) (j : ℕ)
    → s ≡ take j s ++ (sub ++ drop (j + length sub) s)
    → c ∷ s ≡ take (suc j) (c ∷ s) ++ (sub ++ drop (suc j + length sub) (c ∷ s))
index_later c sub s j e = rw suc-add (ap (◌∷◌ c) e)

-- What is found stands in the text: the part before it, the text looked for, and what follows.
pub index_sound :
    (sub s : Str) (i : ℕ) → index sub s ≡ some i → s ≡ take i s ++ (sub ++ drop (i + length sub) s)
unfolding index
index_sound [] [] i h = ground arith
index_sound (k ∷ sub) [] i h = cc
index_sound sub (c ∷ s) i h = elim (Option-cases (strip_prefix sub (c ∷ s))) [
  | inl e ↦ elim (Option-cases (index sub s)) [
    | inl n ↦ absurd (ground (arith, e, n))
    | inr (j, n) ↦
        let later : i ≡ suc j = ground (arith, e, n) in
        rw later (index_later c sub s j (index_sound sub s j n))
  ]
  | inr (r, e) ↦ let here : i ≡ 0 = ground (arith, e) in rw here (index_here sub (c ∷ s) r e)
]

join-push :
    (c : ℕ) (p : Str) (ps : List Str) (sep : ℕ) → join sep ((c ∷ p) ∷ ps) ≡ c ∷ join sep (p ∷ ps)
unfolding join
join-push c p [] sep = refl
join-push c p (q ∷ ps) sep = refl

join-push_front :
    (b : Bool) (c sep : ℕ) (ps : List Str)
    → (b ≡ true → c ≡ sep)
    → ps ≢ []
    → (join sep (push_front b c ps) ≡ c ∷ join sep ps) × (push_front b c ps ≢ [])
unfolding join
join-push_front b c sep [] h ne = absurd (ne refl)
join-push_front true c sep (p ∷ ps) h ne = (rw (h refl), λ e. cc)
join-push_front false c sep (p ∷ ps) h ne = (join-push c p ps sep, λ e. cc)

join-split_parts : (sep : ℕ) (s : Str) → (join sep (split sep s) ≡ s) × (split sep s ≢ [])
unfolding split
join-split_parts sep [] = (unfold join in refl, λ e. cc)
join-split_parts sep (c ∷ s) =
    let (same, ne) = join-split_parts sep s in
    let (e, ne') = join-push_front (c == sep) c sep (split sep s) ((==_iff c sep).0) ne in
    (e ∙ ap (◌∷◌ c) same, ne')

-- Splitting keeps every character.
pub join-split : (sep : ℕ) (s : Str) → join sep (split sep s) ≡ s
join-split sep s = (join-split_parts sep s).0

trim_left-reverse :
    (k r : Str) → k ≢ [] → any is_space k ≡ false → trim_left (reverse k ++ r) ≡ reverse k ++ r
unfolding trim_left any
trim_left-reverse [] r ne h = absurd (ne refl)
trim_left-reverse (x ∷ []) r ne h = ground arith
trim_left-reverse (x ∷ y ∷ k) r ne h =
    rw (reverse-cons x (y ∷ k), append_assoc)
      (trim_left-reverse (y ∷ k) (x ∷ r) (λ e. cc) (ground arith))

pub trim_left_cons : (c : ℕ) (s : Str) → is_space c ≡ false → trim_left (c ∷ s) ≡ c ∷ s
unfolding trim_left
trim_left_cons c s h = ground arith

-- Nothing is trimmed of a text that begins with no space and ends in a part without one.
pub trim_space_self :
    (c : ℕ) (m k : Str)
    → is_space c ≡ false
    → k ≢ []
    → any is_space k ≡ false
    → trim_space ((c ∷ m) ++ k) ≡ (c ∷ m) ++ k
unfolding trim_space
trim_space_self c m k hc ne h =
    rw
      (
        trim_left_cons c (m ++ k) hc,
        reverse-append (c ∷ m) k,
        trim_left-reverse k (reverse (c ∷ m)) ne h,
        ← reverse-append (c ∷ m) k,
      )
      (reverse-reverse ((c ∷ m) ++ k))

trim_left_kept :
    (c : ℕ) (s : Str) → is_space c ≡ false → trim_left (s ++ (c ∷ [])) ≡ trim_left s ++ (c ∷ [])
unfolding trim_left
trim_left_kept c [] h = rw h refl
trim_left_kept c (d ∷ s) h = elim (Bool-cases (is_space d)) [
  | inl e ↦ rw e (trim_left_kept c s h)
  | inr e ↦ rw e refl
]

-- Trimming at the left leaves nothing, or a text that begins with no space.
trim_left_cases :
    (s : Str)
    → (trim_left s ≡ []) ⊎ ((c : ℕ) × (r : Str) × (trim_left s ≡ c ∷ r) × (is_space c ≡ false))
unfolding trim_left
trim_left_cases [] = inl refl
trim_left_cases (c ∷ s) = elim (Bool-cases (is_space c)) [
  | inl e ↦ rw e (trim_left_cases s)
  | inr e ↦ inr (c, s, rw e refl, e)
]

-- What is trimmed at the right of a text that begins with no space.
trim_right_cons :
    (c : ℕ) (s : Str)
    → is_space c ≡ false
    → reverse (trim_left (reverse (c ∷ s))) ≡ c ∷ reverse (trim_left (reverse s))
trim_right_cons c s h =
    rw (reverse-cons c s, trim_left_kept c (reverse s) h)
      (reverse-append (trim_left (reverse s)) (c ∷ []))

trim_right_twice :
    (s : Str)
    → reverse (trim_left (reverse (reverse (trim_left (reverse s)))))
      ≡ reverse (trim_left (reverse s))
trim_right_twice s = rw reverse-reverse (ap reverse (trim_left_twice (reverse s)))
  where
    trim_left_twice : (s : Str) → trim_left (trim_left s) ≡ trim_left s
    trim_left_twice s = elim (trim_left_cases s) [
      | inl e ↦ rw e (unfold trim_left in refl)
      | inr (c, r, e, n) ↦ rw e (trim_left_cons c r n)
    ]

-- Trimming a trimmed text leaves it.
pub trim_space-trim_space : (s : Str) → trim_space (trim_space s) ≡ trim_space s
unfolding trim_space
trim_space-trim_space s = elim (trim_left_cases s) [
  | inl e ↦ rw e (unfold trim_left in refl)
  | inr (c, r, e, n) ↦
      rw (e, trim_right_cons c r n, trim_left_cons c (reverse (trim_left (reverse r))) n)
        (trim_right_cons c (reverse (trim_left (reverse r))) n ∙ ap (◌∷◌ c) (trim_right_twice r))
]

-- A text that begins with no space is not blank.
pub is_blank_cons : (c : ℕ) (s : Str) → is_space c ≡ false → is_blank (c ∷ s) ≡ false
unfolding is_blank trim_space
is_blank_cons c s h = rw (trim_left_cons c s h, trim_right_cons c s h) refl
