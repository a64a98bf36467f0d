-- ===== src/Dict/Laws.antt =====
-- Reading back what was written to a map.
use autonomy.Base.{◌≡◌, refl, [], ◌∷◌, none, some, keep, arith, if◌then◌else◌}
use autonomy.Text.{Str, str_eq}
use autonomy.Text.Laws.{str_eq_iff}
use autonomy.Dict.{Dict, lookup, put, remove}

module _ {ℓ} {V : Type ℓ} where
  pub lookup-put :
      (k j : Str) (v : V) (m : Dict V)
      → lookup j (put k v m) ≡ (if str_eq k j then some v else lookup j m)
  unfolding lookup put
  lookup-put k j v [] = refl
  lookup-put k j v ((i, w) ∷ m) =
      ground (arith, str_eq_iff k j, str_eq_iff i k, str_eq_iff i j, lookup-put k j v m)

  pub lookup-remove :
      (k j : Str) (m : Dict V) → lookup j (remove k m) ≡ (if str_eq k j then none else lookup j m)
  unfolding lookup remove keep
  lookup-remove k j [] = ground arith
  lookup-remove k j ((i, w) ∷ m) =
      ground (arith, str_eq_iff k j, str_eq_iff i k, str_eq_iff i j, lookup-remove k j m)
