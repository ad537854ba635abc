-- ===== src/List/Run.antt =====
-- src/naiw_tasks/naiw_tasks/list_cmd.py: `run`, over all tasks. Each task has its own task.json, so it has
-- a world of its own, in which the host goes on from the task before; what other processes did to the
-- file since it was enumerated is in the host's answers.
mod Label
pub mod Histories
pub mod Finality
use Prim.Native.String
use Prim.Native.String.{String}
use neotolis_ai_workbench.Base.{
  ℕ, ◌+◌, Bool, true, false, Option, none, some, List, [], ◌∷◌, get_or, str_eq, if◌then◌else◌,
}
use neotolis_ai_workbench.Base.Sort.{sorted, text_le}
use neotolis_ai_workbench.Model.{TaskDict}
use neotolis_ai_workbench.Tail.{Formats}
use neotolis_ai_workbench.Effects.{Host, World, M, Exn, Container, Result, ok, err, ◌>>=◌, pure}
use neotolis_ai_workbench.Effects.Rules.{Published}
use neotolis_ai_workbench.Clean.Candidates.{Entry}
use neotolis_ai_workbench.List.Update.{Mode}
use neotolis_ai_workbench.List.Rows.{TableRow, ListRequest, select_rows}
use neotolis_ai_workbench.List.{Row, reread, reconcile_one}

readable : String → Bool → Result TaskDict → List (String × TaskDict) → List (String × TaskDict)
readable name true (ok d) rest = (name, d) ∷ rest
readable name is_dir r rest = rest

tasks_of : List Entry → List (String × TaskDict)
unfolding readable
tasks_of [] = []
tasks_of (e ∷ entries) = readable e.name e.is_dir e.dict (tasks_of entries)

-- `_enumerate_tasks`: the entries of tasks/ by name, without those that cannot be read.
unfoldable pub enumerate_tasks : List Entry → List (String × TaskDict)
unfolding tasks_of
enumerate_tasks entries = tasks_of (sorted (λ e f. text_le e.name f.name) entries)

has_id : String → Option String → Bool
has_id task_id none = false
has_id task_id (some tid) = str_eq tid task_id

-- `by_task_id.get(task_id)`: of several containers with the label, the last.
unfoldable pub by_task_id : List (Option String × Container) → String → Option Container
unfolding has_id
by_task_id [] task_id = none
by_task_id ((tid, c) ∷ managed) task_id =
    let later = by_task_id managed task_id in
    elim later [ some d ↦ some d | none ↦ if has_id task_id tid then some c else none ]

-- What the loop has collected: the rows, and the two counts of ListResult.
pub record Listing : Type 0 where
  pub rows : List TableRow
  pub reaped : ℕ
  pub would_reap : ℕ

add_row : TaskDict → Row → Listing → Listing
add_row d row l = record {
  rows =
      record {
        dict = d;
        computed = row.computed;
        ctr_state = row.ctr_state;
        exit_code = row.exit_code;
      }
      ∷ l.rows;
  reaped = row.reaped + l.reaped;
  would_reap = row.would_reap + l.would_reap;
}

collected : Result (TaskDict × Row) → Result Listing → Result Listing
unfolding add_row
collected (ok (d, row)) (ok l) = ok (add_row d row l)
collected (ok r) (err e) = err e
collected (err e) l = err e

displayed : ListRequest → Result Listing → Result Listing
displayed q (ok l) = ok (record l { rows = select_rows q l.rows })
displayed q (err e) = err e

module _ (H : Host) (F : Formats) (m : Mode) (managed : List (Option String × Container)) where
  -- One round: the row, and the dict that is read again.
  unfoldable pub one_task : String → TaskDict → M H (TaskDict × Row)
  one_task name d = do
    let task_id = get_or d.id name
    row ← reconcile_one F task_id d (by_task_id managed task_id) m
    d' ← reread d
    pure (d', row)

  -- With what each round published in the task.json of its task. An exception ends the loop.
  unfoldable pub loop :
      List (String × TaskDict) → H.State → Result Listing × List (TaskDict × Published)
  unfolding collected
  loop [] s = (ok (record { rows = []; reaped = 0; would_reap = 0 }), [])
  loop ((name, d) ∷ tasks) s =
      let (r, w) = one_task name d (record { task = some d; writes = []; host = s }) in
      let (l, histories) = loop tasks w.host in
      (collected r l, (d, w.writes) ∷ elim r [ ok a ↦ histories | err e ↦ [] ])

  -- The rows to print and the counts, and what was published.
  unfoldable pub run :
      ListRequest → List Entry → H.State → Result Listing × List (TaskDict × Published)
  unfolding displayed
  run q entries s =
      let (l, histories) = loop (enumerate_tasks entries) s in (displayed q l, histories)
