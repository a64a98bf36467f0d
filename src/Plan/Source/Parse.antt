-- ===== src/Plan/Source/Parse.antt =====
-- Reading a binding against writing it.
use native.Mathlib.Nat.{zero-add, suc-add}
use autonomy.Base.{
  ℕ, ◌+◌, ◌<◌, ◌≡◌, ◌≢◌, refl, sym, ap, ◌∙◌, ◌⊎◌, inl, inr, true, false, List, [], ◌∷◌, ◌++◌, some,
  length, append_assoc, drop, any, arith, Option-cases, take-append,
}
use autonomy.Text.{
  Str, codes, trim_space, strip_prefix, index, has_rune, is_space, split, join, is_alnum,
  is_name_rune, all_name_runes,
}
use autonomy.Text.Laws.{
  strip_prefix-append, strip_prefix_sound, index-append, index_sound, trim_space_self, join-split,
  str_eq_sound,
}
use autonomy.Plan.Source.{
  state_field, kind_field, is_world_field, step, world, is_step_name, step_prefix, world_prefix,
  output_infix, asset_root, breaks_key, check_step, read_step, read_world, read_asset, split_last,
  parse_input_source,
}

-- A binding as a plan writes it.
abbrev pub print_step : Str → Str → Str
print_step name key = step_prefix ++ (name ++ (output_infix ++ key))

all_name_runes-no_dot : (s : Str) → all_name_runes s ≡ true → has_rune b'.' s ≡ false
unfolding all_name_runes has_rune is_name_rune is_alnum
all_name_runes-no_dot [] h = refl
all_name_runes-no_dot (c ∷ s) h = ground (arith, all_name_runes-no_dot s)

is_step_name-no_dot : (s : Str) → is_step_name s ≡ true → has_rune b'.' s ≡ false
unfolding is_step_name has_rune is_alnum
is_step_name-no_dot [] h = cc
is_step_name-no_dot (c ∷ s) h = ground (arith, all_name_runes-no_dot s)

is_step_name-ne-nil : (s : Str) → is_step_name s ≡ true → 0 < length s
unfolding is_step_name
is_step_name-ne-nil [] h = cc
is_step_name-ne-nil (c ∷ s) h = omega arith

no_space-breaks :
    (k : Str) → any is_space k ≡ false → (has_rune b' ' k ≡ false) × (has_rune 9 k ≡ false)
unfolding any has_rune is_space
no_space-breaks [] h = (refl, refl)
no_space-breaks (c ∷ k) h = ground (arith, no_space-breaks k)

key_breaks :
    (key : Str) → has_rune b'.' key ≡ false → any is_space key ≡ false → breaks_key key ≡ false
unfolding breaks_key
key_breaks key hd hs = ground (arith, no_space-breaks key hs)

drop-add : (xs ys : Str) (n : ℕ) → drop (length xs + n) (xs ++ ys) ≡ drop n ys
drop-add [] ys n = rw zero-add
drop-add (x ∷ xs) ys n = rw suc-add (drop-add xs ys n)

check_step-ok :
    (name key : Str)
    → is_step_name name ≡ true
    → key ≢ []
    → breaks_key key ≡ false
    → check_step (length name) name key ≡ some (step name key)
unfolding check_step
check_step-ok name key hn hk hb = ground (arith, is_step_name-ne-nil name hn)

read_step-print :
    (name key : Str)
    → is_step_name name ≡ true
    → key ≢ []
    → breaks_key key ≡ false
    → read_step (name ++ (output_infix ++ key)) ≡ some (step name key)
unfolding read_step
read_step-print name key hn hk hb =
    rw (index-append b'.' (codes "output.") name key (is_step_name-no_dot name hn), read_step)
      (rw (take-append name (output_infix ++ key), drop-add name (output_infix ++ key) 8)
        (check_step-ok name key hn hk hb))

-- A step's output written as a binding is read back, whatever the step's name and the output's key
-- are, provided that the name is usable and the key is not empty and holds no dot and no space.
pub parse-print_step :
    (name key : Str)
    → is_step_name name ≡ true
    → key ≢ []
    → has_rune b'.' key ≡ false
    → any is_space key ≡ false
    → parse_input_source (print_step name key) ≡ some (step name key)
unfolding parse_input_source is_space
parse-print_step name key hn hk hd hs =
    rw
      (
        as_written,
        parse_input_source,
        strip_prefix-append step_prefix (name ++ (output_infix ++ key)),
      )
      (read_step-print name key hn hk (key_breaks key hd hs))
  where
    as_written : trim_space (print_step name key) ≡ print_step name key
    as_written =
        rw (append_assoc name output_infix key) at
          (trim_space_self b's' (codes "tep:" ++ (name ++ output_infix)) key refl hk hs)

check_step-inv :
    (i : ℕ) (n k name key : Str)
    → check_step i n k ≡ some (step name key)
    → (n ≡ name) × (k ≡ key) × (is_step_name name ≡ true) × (key ≢ []) × (breaks_key key ≡ false)
unfolding check_step
check_step-inv i n k name key h = ground arith

read_step-inv :
    (rest name key : Str)
    → read_step rest ≡ some (step name key)
    → (rest ≡ name ++ (output_infix ++ key))
      × (is_step_name name ≡ true)
      × (key ≢ [])
      × (breaks_key key ≡ false)
unfolding read_step
read_step-inv rest name key h = elim (Option-cases (index output_infix rest)) [
  | inl e ↦ absurd (ground (arith, e))
  | inr (i, e) ↦
      let (en, ek, hn, hk, hb) = check_step-inv i _ _ name key (rw (e, read_step) at h) in
      (rw (← en, ← ek) (index_sound output_infix rest i e), hn, hk, hb)
]

read_world-ne-step : (path : List Str) (name key : Str) → read_world path ≢ some (step name key)
unfolding read_world read_asset
read_world-ne-step [] name key h = cc
read_world-ne-step (r ∷ []) name key h = ground arith
read_world-ne-step (r ∷ p ∷ []) name key h = ground arith
read_world-ne-step (r ∷ p ∷ q ∷ ps) name key h = ground arith

read_step-ne-world :
    (rest : Str) (id : List Str) (field : Str) → read_step rest ≢ some (world id field)
unfolding read_step check_step
read_step-ne-world rest id field h = ground arith

-- A World Model binding as a plan writes it.
abbrev pub print_world : List Str → Str → Str
print_world id field = world_prefix ++ join b'.' (asset_root ∷ (id ++ field ∷ []))

split_last-append :
    (p : Str) (ps : List Str) → (split_last p ps).0 ++ (split_last p ps).1 ∷ [] ≡ p ∷ ps
unfolding split_last
split_last-append p [] = refl
split_last-append p (q ∷ ps) = ap (◌∷◌ p) (split_last-append q ps)

read_asset-inv :
    (path id : List Str) (field : Str)
    → read_asset path ≡ some (world id field)
    → (path ≡ id ++ field ∷ [])
      × (join b'.' id ≢ [])
      × ((field ≡ state_field) ⊎ (field ≡ kind_field))
unfolding read_asset is_world_field
read_asset-inv [] id field h = cc
read_asset-inv (i ∷ []) id field h = cc
read_asset-inv (i ∷ p ∷ ps) id field h = ground (
  arith,
  split_last-append p ps,
  str_eq_sound (split_last p ps).1 state_field,
  str_eq_sound (split_last p ps).1 kind_field,
)

read_path-inv :
    (path id : List Str) (field : Str)
    → read_world path ≡ some (world id field)
    → (path ≡ asset_root ∷ (id ++ field ∷ []))
      × (join b'.' id ≢ [])
      × ((field ≡ state_field) ⊎ (field ≡ kind_field))
unfolding read_world
read_path-inv [] id field h = cc
read_path-inv (root ∷ path) id field h =
    ground (arith, str_eq_sound root asset_root, read_asset-inv path id field)

read_world-inv :
    (rest : Str) (id : List Str) (field : Str)
    → read_world (split b'.' rest) ≡ some (world id field)
    → (rest ≡ join b'.' (asset_root ∷ (id ++ field ∷ [])))
      × (join b'.' id ≢ [])
      × ((field ≡ state_field) ⊎ (field ≡ kind_field))
read_world-inv rest id field h =
    let (e, hi, hf) = read_path-inv (split b'.' rest) id field h in
    (sym (join-split b'.' rest) ∙ ap (join b'.') e, hi, hf)

-- What a step binding that is read says: its text is that name and that key, the name is usable,
-- and the key is neither empty nor cut by a dot, a blank or a tab.
pub parse-step :
    (raw name key : Str)
    → parse_input_source raw ≡ some (step name key)
    → (trim_space raw ≡ print_step name key)
      × (is_step_name name ≡ true)
      × (key ≢ [])
      × (breaks_key key ≡ false)
unfolding parse_input_source
parse-step raw name key h = elim (Option-cases (strip_prefix step_prefix (trim_space raw))) [
  | inl e ↦ elim (Option-cases (strip_prefix world_prefix (trim_space raw))) [
    | inl n ↦ absurd (ground (arith, e, n))
    | inr (rest, n) ↦ absurd (ground (arith, e, n, read_world-ne-step (split b'.' rest) name key))
  ]
  | inr (rest, e) ↦
      let (er, hn, hk, hb) = read_step-inv rest name key (ground (arith, e)) in
      (
        strip_prefix_sound step_prefix (trim_space raw) rest e ∙ ap (◌++◌ step_prefix) er,
        hn,
        hk,
        hb,
      )
]

-- What a World Model binding that is read says: its text is an asset's id and a field, the id is
-- not empty, and the field is one of the two that the World Model has.
pub parse-world :
    (raw : Str) (id : List Str) (field : Str)
    → parse_input_source raw ≡ some (world id field)
    → (trim_space raw ≡ print_world id field)
      × (join b'.' id ≢ [])
      × ((field ≡ state_field) ⊎ (field ≡ kind_field))
unfolding parse_input_source
parse-world raw id field h = elim (Option-cases (strip_prefix step_prefix (trim_space raw))) [
  | inr (rest, e) ↦ absurd (ground (arith, e, read_step-ne-world rest id field))
  | inl e ↦ elim (Option-cases (strip_prefix world_prefix (trim_space raw))) [
    | inl n ↦ absurd (ground (arith, e, n))
    | inr (rest, n) ↦
        let (er, hi, hf) = read_world-inv rest id field (ground (arith, e, n)) in
        (
          strip_prefix_sound world_prefix (trim_space raw) rest n ∙ ap (◌++◌ world_prefix) er,
          hi,
          hf,
        )
  ]
]
