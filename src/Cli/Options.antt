-- ===== src/Cli/Options.antt =====
-- src/naiw_tasks/naiw_tasks/cli.py: the values of `--status`.
use Prim.Native.String.{String}
use neotolis_ai_workbench.Base.{
  Option, none, some, List, [], ◌∷◌, ◌++◌, str_eq, one_of, split_text, if◌then◌else◌,
}

abbrev pub list_statuses : List String
list_statuses =
    "created" ∷ "running" ∷ "interrupted" ∷ "waiting_for_user" ∷ "completed" ∷ "failed"
    ∷ "cancelled" ∷ []

-- `none` is click's BadParameter.
unfoldable pub add_status : String → List String → Option (List String)
add_status piece out =
    if str_eq piece ""
    then some out
    else if one_of piece list_statuses
    then if one_of piece out then some out else some (out ++ piece ∷ [])
    else none

unfoldable pub then_with :
    Option (List String) → (List String → Option (List String)) → Option (List String)
then_with none f = none
then_with (some out) f = f out

unfoldable pub add_pieces : (String → String) → List String → List String → Option (List String)
unfolding add_status then_with
add_pieces strip [] out = some out
add_pieces strip (piece ∷ pieces) out =
    then_with (add_status (strip piece) out) (add_pieces strip pieces)

unfoldable pub add_items : (String → String) → List String → List String → Option (List String)
unfolding add_pieces
add_items strip [] out = some out
add_items strip (item ∷ value) out =
    then_with (add_pieces strip (split_text b',' item) out) (add_items strip value)

-- `_parse_statuses`.
unfoldable pub parse_statuses : (String → String) → List String → Option (List String)
unfolding add_items
parse_statuses strip value = add_items strip value []
