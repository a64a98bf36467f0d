-- ===== src/Text.antt =====
-- What the source uses of Go's `strings`, `unicode` and `regexp`. A text is its code points: on
-- valid UTF-8, prefixes, first occurrences and splits at ASCII separators are the same on bytes.
pub mod Order
pub mod Laws
use Prim.Native.Char.{code}
use Prim.Native.String.{String}
use autonomy.Base.{
  ℕ, suc, ◌+◌, Bool, true, false, ◌&&◌, ◌||◌, List, [], ◌∷◌, ◌++◌, map, reverse, Option, none, some,
  leb, ◌==◌, if◌then◌else◌, is_nil,
}

abbrev pub Str : Type 0
Str = List ℕ

-- A literal of the source.
abbrev pub codes : String → Str
codes String.[] = []
codes (String.◌∷◌ c s) = code c ∷ codes s

unfoldable pub str_eq : Str → Str → Bool
str_eq [] [] = true
str_eq [] (_ ∷ _) = false
str_eq (_ ∷ _) [] = false
str_eq (a ∷ s) (b ∷ t) = a == b && str_eq s t

abbrev between : ℕ → ℕ → ℕ → Bool
between lo hi c = leb lo c && leb c hi

-- unicode.IsSpace: the code points with the property White_Space.
unfoldable pub is_space : ℕ → Bool
is_space c =
    between 9 13 c
    || c == 32
    || c == 0x85
    || c == 0xA0
    || c == 0x1680
    || between 0x2000 0x200A c
    || c == 0x2028
    || c == 0x2029
    || c == 0x202F
    || c == 0x205F
    || c == 0x3000

unfoldable pub trim_left : Str → Str
trim_left [] = []
trim_left (c ∷ s) = if is_space c then trim_left s else c ∷ s

-- strings.TrimSpace.
unfoldable pub trim_space : Str → Str
trim_space s = reverse (trim_left (reverse (trim_left s)))

-- `strings.TrimSpace(s) == ""`.
unfoldable pub is_blank : Str → Bool
is_blank s = is_nil (trim_space s)

-- unicode.ToLower at the code points whose lower case is ASCII: the capital letters, U+0130 and
-- U+212A. Any other is left, so two texts that differ in the case of such letters only are apart
-- here, where the source, when it lowers both, takes them for one.
unfoldable pub lower_rune : ℕ → ℕ
lower_rune c =
    if between b'A' b'Z' c
    then c + 32
    else if c == 0x130
    then b'i'
    else if c == 0x212A
    then b'k'
    else c

-- strings.ToLower.
unfoldable pub to_lower : Str → Str
to_lower s = map lower_rune s

-- The name by which decision types and capabilities are looked up.
unfoldable pub canonical : Str → Str
canonical s = to_lower (trim_space s)

-- The code points that strings.EqualFold identifies with an ASCII letter, folded to it.
unfoldable pub fold_rune : ℕ → ℕ
fold_rune c =
    if between b'A' b'Z' c
    then c + 32
    else if c == 0x17F
    then b's'
    else if c == 0x212A
    then b'k'
    else c

-- strings.EqualFold, where one side is ASCII.
unfoldable pub equal_fold : Str → Str → Bool
equal_fold s t = str_eq (map fold_rune s) (map fold_rune t)

-- strings.HasPrefix and strings.TrimPrefix in one: what follows the prefix.
unfoldable pub strip_prefix : Str → Str → Option Str
strip_prefix [] s = some s
strip_prefix (_ ∷ _) [] = none
strip_prefix (p ∷ ps) (c ∷ s) = if p == c then strip_prefix ps s else none

abbrev pub is_some {ℓ} : {A : Type ℓ} → Option A → Bool
is_some none = false
is_some (some _) = true

-- strings.Index: where a text first occurs.
abbrev one_later : Option ℕ → Option ℕ
one_later none = none
one_later (some n) = some (suc n)

unfoldable pub index : Str → Str → Option ℕ
index sub [] = if is_nil sub then some 0 else none
index sub (c ∷ s) = if is_some (strip_prefix sub (c ∷ s)) then some 0 else one_later (index sub s)

-- strings.Contains.
unfoldable pub contains : Str → Str → Bool
contains s sub = is_some (index sub s)

unfoldable pub has_rune : ℕ → Str → Bool
has_rune c [] = false
has_rune c (d ∷ s) = d == c || has_rune c s

-- strings.Split at one separator: at least one part.
abbrev push_front : Bool → ℕ → List Str → List Str
push_front true c parts = [] ∷ parts
push_front false c [] = (c ∷ []) ∷ []
push_front false c (p ∷ ps) = (c ∷ p) ∷ ps

unfoldable pub split : ℕ → Str → List Str
split sep [] = [] ∷ []
split sep (c ∷ s) = push_front (c == sep) c (split sep s)

-- strings.Join.
unfoldable pub join : ℕ → List Str → Str
join sep [] = []
join sep (p ∷ []) = p
join sep (p ∷ q ∷ ps) = p ++ sep ∷ join sep (q ∷ ps)

unfoldable pub is_alnum : ℕ → Bool
is_alnum c = between b'A' b'Z' c || between b'a' b'z' c || between b'0' b'9' c

-- The characters after the first of a step name.
unfoldable pub is_name_rune : ℕ → Bool
is_name_rune c = is_alnum c || c == b'_' || c == b'-'

unfoldable pub all_name_runes : Str → Bool
all_name_runes [] = true
all_name_runes (c ∷ s) = is_name_rune c && all_name_runes s
