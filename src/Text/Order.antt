-- ===== src/Text/Order.antt =====
-- The order of texts and sort.Strings.
use autonomy.Base.{Bool, true, false, List, [], ◌∷◌, ltb, ◌==◌, ◌&&◌, ◌||◌, if◌then◌else◌}
use autonomy.Text.{Str}

-- s <= t. The order of UTF-8 texts by bytes is their order by code points.
unfoldable pub le_str : Str → Str → Bool
le_str [] t = true
le_str (_ ∷ _) [] = false
le_str (a ∷ s) (b ∷ t) = ltb a b || (a == b && le_str s t)

unfoldable pub insert_sorted : Str → List Str → List Str
insert_sorted s [] = s ∷ []
insert_sorted s (t ∷ ts) = if le_str s t then s ∷ t ∷ ts else t ∷ insert_sorted s ts

-- sort.Strings: one order of the same texts is ascending, so the algorithm does not matter.
unfoldable pub sort_strings : List Str → List Str
unfolding insert_sorted le_str
sort_strings [] = []
sort_strings (s ∷ ss) = insert_sorted s (sort_strings ss)
