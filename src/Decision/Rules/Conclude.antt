-- ===== src/Decision/Rules/Conclude.antt =====
-- How the gates that read a decision's type agree: `isDone`, `Concludes`, `TaskStatusFor` and the
-- rules.
use autonomy.Base.{ℕ, ◌≡◌, refl, ◌↔◌, ◌⊎◌, false, true, [], ◌∷◌, map, none, arith, ◌==◌, All}
use autonomy.Text.{Str, canonical, str_eq, equal_fold, trim_space, to_lower, lower_rune, fold_rune}
use autonomy.Text.Laws.{str_eq_sound}
use autonomy.Decision.{
  Decision, decision_done, decision_blocked, decision_need_input, is_done, concludes, completed,
  task_status_for,
}
use autonomy.Decision.Rules.{validate_decision}
use autonomy.Decision.Rules.Spec.{validate_decision_iff}

-- A concluding decision that passes its rules executes nothing.
pub concludes-actions :
    (d : Decision) → concludes d ≡ true → validate_decision d ≡ none → d.actions ≡ []
unfolding concludes
concludes-actions d c h = ground (
  arith,
  (validate_decision_iff d).0 h,
  str_eq_sound (canonical d.type) decision_done,
  str_eq_sound (canonical d.type) decision_blocked,
  str_eq_sound (canonical d.type) decision_need_input,
)

-- The letters of "done" are folded and lowered from the same characters.
abbrev IsDoneLetter : ℕ → Type 0
IsDoneLetter k = (k ≡ b'd') ⊎ (k ≡ b'o') ⊎ (k ≡ b'n') ⊎ (k ≡ b'e')

same_letter : (c k : ℕ) → IsDoneLetter k → (fold_rune c == k) ≡ (lower_rune c == k)
unfolding fold_rune lower_rune
same_letter c k h = ground arith

same_text :
    (s t : Str) → All IsDoneLetter t → str_eq (map fold_rune s) t ≡ str_eq (map lower_rune s) t
unfolding str_eq
same_text [] [] h = refl
same_text [] (k ∷ t) h = refl
same_text (c ∷ s) [] h = refl
same_text (c ∷ s) (k ∷ t) h = rw (same_letter c k h.0, same_text s t h.1)

fold-done : map fold_rune decision_done ≡ decision_done
unfolding fold_rune
fold-done = refl

-- The gate that verifies a done, by case folding, and the loop's, by lower case, take the same
-- decisions for a done.
pub is_done-canonical : (d : Decision) → is_done d ≡ str_eq (canonical d.type) decision_done
unfolding is_done canonical to_lower equal_fold
is_done-canonical d = rw fold-done (same_text (trim_space d.type) decision_done (omega arith))

done-differs :
    (t : Str)
    → t ≡ decision_done
    → (str_eq t decision_blocked ≡ false) × (str_eq t decision_need_input ≡ false)
unfolding str_eq
done-differs t e = (rw e, rw e)

-- An answer that ends the run writes `completed` on the task exactly when it is the done that
-- verification judges; so no blocked or need_input answer looks finished.
pub task_status-completed :
    (d : Decision) → concludes d ≡ true → (task_status_for d ≡ completed) ↔ (is_done d ≡ true)
unfolding concludes task_status_for
task_status-completed d c = ground (
  arith,
  is_done-canonical d,
  str_eq_sound (canonical d.type) decision_done,
  done-differs (canonical d.type),
)
