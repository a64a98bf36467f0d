-- ===== src/Examples/Bindings.antt =====
-- Bindings as a plan writes them.
use autonomy.Base.{◌≡◌, ◌≢◌, refl, true, false, List, [], ◌∷◌, some, any}
use autonomy.Text.{
  Str, codes, str_eq, trim_space, trim_left, is_space, is_alnum, is_name_rune, all_name_runes,
  has_rune, index, strip_prefix, split, join,
}
use autonomy.Plan.Source.{
  step, world, is_step_name, breaks_key, check_step as check_step_binding, read_step, read_asset,
  read_world, is_world_field, split_last, parse_input_source, state_field,
}
use autonomy.Plan.Source.Parse.{print_step, parse-print_step, parse-step}

abbrev pr_url : Str
pr_url = codes "pr_url"

parse-print_step_example :
    parse_input_source (print_step (codes "edit") pr_url) ≡ some (step (codes "edit") pr_url)
unfolding is_step_name is_alnum all_name_runes is_name_rune has_rune any is_space
parse-print_step_example = parse-print_step (codes "edit") pr_url refl (λ e. cc) refl refl

padded-reads :
    parse_input_source (codes " step:edit.output.pr_url") ≡ some (step (codes "edit") pr_url)
unfolding parse_input_source trim_space trim_left is_space strip_prefix read_step index
    check_step_binding is_step_name is_alnum all_name_runes is_name_rune breaks_key has_rune
padded-reads = refl

parse-step_example :
    (trim_space (codes " step:edit.output.pr_url") ≡ print_step (codes "edit") pr_url)
    × (is_step_name (codes "edit") ≡ true)
    × (pr_url ≢ [])
    × (breaks_key pr_url ≡ false)
parse-step_example =
    parse-step (codes " step:edit.output.pr_url") (codes "edit") pr_url padded-reads

abbrev repo_id : List Str
repo_id = codes "repo" ∷ codes "main" ∷ []

state-reads :
    parse_input_source (codes "world_model:asset.repo.main.state")
    ≡ some (world repo_id state_field)
unfolding parse_input_source trim_space trim_left is_space strip_prefix read_world split read_asset
    split_last join is_world_field str_eq
state-reads = refl
