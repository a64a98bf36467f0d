-- ===== src/Graceful/Answers.antt =====
-- src/graceful.go: what the platform is answered, and how a drain ends.
use autonomy.Base.{
  ℕ, suc, ◌≡◌, refl, ◌↔◌, true, not, List, [], ◌∷◌, length, keep, All, arith, Bool-cases, inl, inr,
}
use autonomy.Text.{Str, is_blank}
use autonomy.Text.Order.{sort_strings, insert_sorted}
use autonomy.Graceful.{RestartDrain, restart_status, running_task_ids}

length-insert_sorted : (s : Str) (ts : List Str) → length (insert_sorted s ts) ≡ suc (length ts)
unfolding insert_sorted
length-insert_sorted s [] = omega arith
length-insert_sorted s (t ∷ ts) = ground (arith, length-insert_sorted s ts)

length-sort_strings : (ss : List Str) → length (sort_strings ss) ≡ length ss
unfolding sort_strings
length-sort_strings [] = refl
length-sort_strings (s ∷ ss) =
    omega (arith, length-insert_sorted s (sort_strings ss), length-sort_strings ss)

none_kept_iff :
    (ids : List Str)
    → (length (keep (λ id. not (is_blank id)) ids) ≡ 0) ↔ All (λ id. is_blank id ≡ true) ids
unfolding keep
none_kept_iff [] = (λ e. tt, λ a. omega arith)
none_kept_iff (id ∷ ids) = elim (Bool-cases (is_blank id)) [
  | inl b ↦ rw b (λ e. (refl, (none_kept_iff ids).0 e), λ a. (none_kept_iff ids).1 a.1)
  | inr b ↦ rw b (λ e. absurd (omega (arith, e)), λ a. absurd (ground (arith, a.0)))
]

-- A restart is answered to be safe exactly when no task of a name is in flight, whether or not it was
-- announced; the three names of the answer agree.
pub restart_status_iff :
    (registry : List Str) (held : ℕ) (d : RestartDrain)
    → (((restart_status registry held d).can_restart ≡ true)
        ↔ All (λ id. is_blank id ≡ true) registry)
      × ((restart_status registry held d).can_deploy ≡ (restart_status registry held d).can_restart)
      × ((restart_status registry held d).ready ≡ (restart_status registry held d).can_restart)
unfolding restart_status running_task_ids
restart_status_iff registry held d =
    let few = length-sort_strings (keep (λ id. not (is_blank id)) registry) in
    let none_named = none_kept_iff registry in
    (
      (
        λ safe. none_named.0 (ground (arith, few, safe)),
        λ blank. ground (arith, few, none_named.1 blank),
      ),
      refl,
      refl,
    )
