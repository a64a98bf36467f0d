-- ===== src/Decision/Detail/Laws.antt =====
-- The set test against membership.
use autonomy.Base.{◌≡◌, true, List, [], ◌∷◌, arith, any, Some}
use autonomy.Text.{Str}
use autonomy.Text.Laws.{str_eq_iff}
use autonomy.Decision.Detail.{has}

pub has_sound : (s : Str) (xs : List Str) → has s xs ≡ true → Some (λ x. s ≡ x) xs
unfolding has any
has_sound s [] h = cc
has_sound s (x ∷ xs) h = ground (arith, str_eq_iff s x, has_sound s xs)

pub has_complete : (s : Str) (xs : List Str) → Some (λ x. s ≡ x) xs → has s xs ≡ true
unfolding has any
has_complete s [] h = absurd h
has_complete s (x ∷ xs) h = ground (arith, str_eq_iff s x, has_complete s xs)
