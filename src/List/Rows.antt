-- ===== src/List/Rows.antt =====
-- src/naiw_tasks/naiw_tasks/list_cmd.py: which rows `run` shows, and in which order.
pub mod Newest
use neotolis_ai_workbench.Base.{
  ℕ, String, Bool, true, false, not, ◌&&◌, ◌||◌, Option, none, some, List, [], ◌∷◌, get_or, take,
  one_of, str_eq, if◌then◌else◌,
}
use neotolis_ai_workbench.Base.Sort.{sorted, text_le}
use neotolis_ai_workbench.Model.{TaskDict}
use neotolis_ai_workbench.Reconcile.{ComputedRow}
use neotolis_ai_workbench.Lifecycle.Teardown.{or_else}

-- The dict, the computed row and the container of a task.
pub record TableRow : Type 0 where
  pub dict : TaskDict
  pub computed : ComputedRow
  pub ctr_state : String
  pub exit_code : Option ℕ

-- The two switches that decide what is written are those of `Mode`.
pub record ListRequest : Type 0 where
  pub limit : Option ℕ
  pub statuses : List String
  pub project_filter : Option String
  pub show_all : Bool
  pub as_json : Bool
  pub limit_was_explicit : Bool

-- A list comprehension with a test.
unfoldable pub select : (TableRow → Bool) → List TableRow → List TableRow
select keep [] = []
select keep (r ∷ rows) = let rest = select keep rows in if keep r then r ∷ rest else rest

unfoldable pub by_status : List String → List TableRow → List TableRow
unfolding select
by_status [] rows = rows
by_status (s ∷ statuses) rows = select (λ r. one_of r.computed.status (s ∷ statuses)) rows

-- `d.get("project") == alias`.
pub has_alias : String → Option String → Bool
has_alias alias none = false
has_alias alias (some a) = str_eq a alias

unfoldable pub by_project : Option String → List TableRow → List TableRow
unfolding select has_alias
by_project none rows = rows
by_project (some alias) rows = select (λ r. has_alias alias r.dict.project_alias) rows

unfoldable pub apply_filters : List TableRow → List String → Option String → List TableRow
unfolding by_status by_project
apply_filters rows statuses project_filter = by_project project_filter (by_status statuses rows)

-- `d.get("updated_at") or d.get("created_at", "")`.
abbrev pub sort_key : TaskDict → String
sort_key d = or_else d.updated_at (get_or d.created_at "")

-- The tests of the two passes: ids ascending, then keys descending.
abbrev pub id_le : TableRow → TableRow → Bool
id_le r s = text_le (get_or r.dict.id "") (get_or s.dict.id "")

abbrev pub newer : TableRow → TableRow → Bool
newer r s = text_le (sort_key s.dict) (sort_key r.dict)

unfoldable pub sort_rows : List TableRow → List TableRow
sort_rows rows = sorted newer (sorted id_le rows)

unfoldable pub limited : Option ℕ → Bool → List TableRow → List TableRow
limited none no_limit rows = rows
limited (some n) no_limit rows = if no_limit then rows else take n rows

-- `effective_rows`.
unfoldable pub select_rows : ListRequest → List TableRow → List TableRow
unfolding apply_filters sort_rows limited
select_rows q rows =
    limited q.limit (q.show_all && not q.limit_was_explicit)
      (sort_rows (apply_filters rows q.statuses q.project_filter))
