-- ===== src/Decision/Needs.antt =====
-- src/decision_rules.go: the checks of the answers that decide the task.
pub mod Options
use Prim.Native.String.{String}
use autonomy.Base.{
  ℕ, suc, Bool, true, false, not, ◌&&◌, ◌||◌, List, [], ◌∷◌, ◌++◌, Option, none, some, ltb,
  if◌then◌else◌, length, is_nil,
}
use autonomy.Text.{Str, codes, str_eq, trim_space, is_blank, to_lower, canonical, contains}
use autonomy.Decision.{Evidence, Decision}
use autonomy.Decision.Detail.{
  Detail, carries_need, carries_steps, carries_no_evidence, asks_worker_auth,
  asks_invented_construct, says_nothing_missing, single_option, too_many_options, empty_option,
  repeated_option, has,
}

unfoldable pub no_steps : Decision → Option Detail
no_steps d =
    if is_nil d.actions then none else some (carries_steps (length d.actions) (trim_space d.type))

unfoldable pub no_need : Decision → Option Detail
no_need d =
    if is_blank d.need.type && is_blank d.need.description && is_nil d.need.options
    then none
    else some carries_need

unfoldable pub done_names_evidence : Decision → Option Detail
done_names_evidence d = if is_nil d.evidence then some carries_no_evidence else none

-- The needles are lowered, the text is not.
unfoldable pub contains_any_fold : Str → List String → Bool
contains_any_fold s [] = false
contains_any_fold s (needle ∷ needles) =
    contains s (to_lower (codes needle)) || contains_any_fold s needles

unfoldable pub asks_worker_workspace_auth : Str → Bool
asks_worker_workspace_auth blob =
    let permit =
      contains_any_fold blob ("permit" ∷ "permission" ∷ "authorize" ∷ "授权" ∷ "许可" ∷ "纳入许可" ∷ []) in
    let workspace = contains_any_fold blob ("workspace" ∷ "工作区" ∷ "sandbox" ∷ []) in
    let code_edit = contains blob (codes "code_edit") in
    let another_edit =
      contains_any_fold blob ("编辑能力" ∷ "another edit capability" ∷ "add another edit" ∷ []) in
    (permit && (workspace || code_edit)) || (another_edit && workspace)

unfoldable pub asks_invented_verification_construct : Str → Bool
asks_invented_verification_construct blob =
    let summary_as_proof =
      contains blob (codes "summary")
      && contains_any_fold blob ("kind" ∷ "类型化" ∷ "验证" ∷ "验收" ∷ []) in
    let new_verifier = contains_any_fold blob (
      "verification capability" ∷ "acceptance capability" ∷ "验收能力" ∷ "功能验收" ∷ "权威验收" ∷ "系统验证规则"
      ∷ "验证能力" ∷ "add a kind" ∷ "invent a kind" ∷ "invent a tool" ∷ []) in
    summary_as_proof || new_verifier

abbrev newline : ℕ
newline = 10

abbrev evidence_text : List Evidence → Str
evidence_text [] = []
evidence_text (e ∷ es) = newline ∷ e.fact ++ newline ∷ e.reference ++ evidence_text es

unfoldable pub need_false_gap_text : Decision → Str
need_false_gap_text d =
    to_lower (d.need.description ++ newline ∷ d.reason ++ evidence_text d.evidence)

-- The kinds of need that the check is about.
unfoldable pub names_a_gap : Str → Bool
names_a_gap type =
    str_eq type (codes "capability")
    || str_eq type (codes "permission")
    || str_eq type (codes "approval")

unfoldable pub need_not_ask_runtime_to_authorize_a_worker : Decision → Option Detail
need_not_ask_runtime_to_authorize_a_worker d =
    if not (names_a_gap (canonical d.need.type))
    then none
    else if asks_worker_workspace_auth (need_false_gap_text d)
    then some asks_worker_auth
    else if asks_invented_verification_construct (need_false_gap_text d)
    then some asks_invented_construct
    else none

unfoldable pub need_describes_what_is_missing : Decision → Option Detail
need_describes_what_is_missing d =
    if is_blank d.need.description then some says_nothing_missing else none

abbrev pub max_need_options : ℕ
max_need_options = 9

-- The loop of `needOptionsAreChoices`: `seen` are the options before position i.
unfoldable pub options_from : List Str → ℕ → List Str → Option Detail
options_from seen i [] = none
options_from seen i (option ∷ options) =
    if is_blank option
    then some (empty_option i)
    else if has (trim_space option) seen
    then some (repeated_option (trim_space option))
    else options_from (trim_space option ∷ seen) (suc i) options

unfoldable pub need_options_are_choices : Decision → Option Detail
need_options_are_choices d =
    let options = d.need.options in
    if is_nil options
    then none
    else if ltb (length options) 2
    then some single_option
    else if ltb max_need_options (length options)
    then some (too_many_options (length options))
    else options_from [] 0 options
