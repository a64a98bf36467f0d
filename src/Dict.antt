-- ===== src/Dict.antt =====
-- Go maps keyed by texts, as association lists. The first entry of a key is its value, and a
-- write replaces it in place; nothing in the source depends on the order of a map.
pub mod Laws
use autonomy.Base.{List, [], ◌∷◌, map, not, Option, none, some, if◌then◌else◌, keep}
use autonomy.Text.{Str, str_eq}

module _ {ℓ} where
  abbrev pub Dict : Type ℓ → Type ℓ
  Dict V = List (Str × V)

module _ {ℓ} {V : Type ℓ} where
  -- `m[k]` with its second result.
  unfoldable pub lookup : Str → Dict V → Option V
  lookup k [] = none
  lookup k ((j, v) ∷ m) = if str_eq j k then some v else lookup k m

  -- `m[k] = v`.
  unfoldable pub put : Str → V → Dict V → Dict V
  put k v [] = (k, v) ∷ []
  put k v ((j, w) ∷ m) = if str_eq j k then (k, v) ∷ m else (j, w) ∷ put k v m

  -- `delete(m, k)`.
  unfoldable pub remove : Str → Dict V → Dict V
  remove k m = keep (λ e. not (str_eq e.0 k)) m

  abbrev pub keys : Dict V → List Str
  keys = map (λ e. e.0)
