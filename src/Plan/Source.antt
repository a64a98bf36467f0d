-- ===== src/Plan/Source.antt =====
-- src/plan_input.go: `parseInputSource`, what a binding names.
pub mod Parse
use autonomy.Base.{
  ℕ, ◌+◌, Bool, true, false, not, ◌&&◌, ◌||◌, List, [], ◌∷◌, ◌++◌, Option, none, some, ltb, length,
  take, drop, is_nil, if◌then◌else◌,
}
use autonomy.Text.{
  Str, codes, str_eq, trim_space, strip_prefix, index, has_rune, split, join, is_alnum,
  all_name_runes,
}

-- What parseInputSource reads: an output of a step, or a field of an asset. The path of an asset
-- is kept as the parts of its id, in order; `raw` is kept by neither, since nothing reads it.
pub data InputSource : Type 0 where
  step : Str → Str → InputSource
  world : List Str → Str → InputSource

-- stepNamePattern, `^[A-Za-z0-9][A-Za-z0-9_-]*$`.
unfoldable pub is_step_name : Str → Bool
is_step_name [] = false
is_step_name (c ∷ s) = is_alnum c && all_name_runes s

abbrev pub step_prefix : Str
step_prefix = codes "step:"

abbrev pub world_prefix : Str
world_prefix = codes "world_model:"

abbrev pub output_infix : Str
output_infix = codes ".output."

abbrev pub asset_root : Str
asset_root = codes "asset"

abbrev pub state_field : Str
state_field = codes "state"

abbrev pub kind_field : Str
kind_field = codes "kind"

abbrev tab : ℕ
tab = 9

-- `strings.ContainsAny(key, ". \t")`.
unfoldable pub breaks_key : Str → Bool
breaks_key key = has_rune b'.' key || has_rune b' ' key || has_rune tab key

-- `rest[:i]` and `rest[i+len(".output."):]`, checked.
unfoldable pub check_step : ℕ → Str → Str → Option InputSource
check_step i name key =
    if ltb 0 i && is_step_name name && not (is_nil key) && not (breaks_key key)
    then some (step name key)
    else none

-- The case of the prefix "step:"; `none` is the error.
unfoldable pub read_step : Str → Option InputSource
read_step rest = elim (index output_infix rest) [
  | none ↦ none
  | some i ↦ check_step i (take i rest) (drop (i + length output_infix) rest)
]

-- `path[1:len(path)-1]` and `path[len(path)-1]`.
unfoldable pub split_last : Str → List Str → List Str × Str
split_last p [] = ([], p)
split_last p (q ∷ ps) = let (front, last) = split_last q ps in (p ∷ front, last)

unfoldable pub is_world_field : Str → Bool
is_world_field field = str_eq field state_field || str_eq field kind_field

-- An asset's id may hold dots, so the id is what lies between the root and the field.
unfoldable pub read_asset : List Str → Option InputSource
read_asset [] = none
read_asset (id ∷ []) = none
read_asset (id ∷ p ∷ ps) =
    let (rest, field) = split_last p ps in
    if not (is_nil (join b'.' (id ∷ rest))) && is_world_field field
    then some (world (id ∷ rest) field)
    else none

-- The case of the prefix "world_model:". A path of less than three parts is refused.
unfoldable pub read_world : List Str → Option InputSource
read_world [] = none
read_world (root ∷ path) = if str_eq root asset_root then read_asset path else none

unfoldable pub parse_input_source : Str → Option InputSource
parse_input_source raw =
    let s = trim_space raw in
    elim (strip_prefix step_prefix s) [
      | some rest ↦ read_step rest
      | none ↦ elim (strip_prefix world_prefix s) [
        | some rest ↦ read_world (split b'.' rest)
        | none ↦ none
      ]
    ]
