-- ===== src/Clean/Candidates.antt =====
-- src/naiw_tasks/naiw_tasks/clean.py: the threshold, and the tasks that are old enough. Times are
-- numbers of microseconds, the threshold is read in seconds.
pub mod Old
pub mod Threshold
use Prim.Native.String
use Prim.Native.String.{String}
use neotolis_ai_workbench.Base.{
  ℕ, ◌+◌, ◌-◌, ◌*◌, ◌/◌, ◌<>◌, Bool, true, false, not, ◌&&◌, ◌||◌, Option, none, some, List, [],
  ◌∷◌, ltb, leb, ◌==◌, decimal, get_or, str_eq, one_of, if◌then◌else◌,
}
use neotolis_ai_workbench.Base.Sort.{sorted, text_le}
use neotolis_ai_workbench.Model.{TaskDict}
use neotolis_ai_workbench.Effects.{Result, ok, err}
use neotolis_ai_workbench.Reconcile.{terminal_statuses}
use neotolis_ai_workbench.Numbers.{Digits, number, span}
use neotolis_ai_workbench.Lifecycle.Teardown.{or_else}

-- `_UNIT_SECONDS`.
unfoldable pub unit_seconds : String → Option ℕ
unit_seconds unit =
    if str_eq unit "s"
    then some 1
    else if str_eq unit "m"
    then some 60
    else if str_eq unit "h"
    then some (60 * 60)
    else if str_eq unit "d"
    then some (24 * 60 * 60)
    else if str_eq unit "w"
    then some (7 * 24 * 60 * 60)
    else none

pub data Age : Type 0 where
  age : ℕ → Age
  value_error overflow_error : Age

-- `timedelta(seconds=s)`: of at most 999999999 days.
unfoldable pub timedelta : ℕ → Age
timedelta s = if leb (s / 86400) 999999999 then age s else overflow_error

unfoldable pub seconds_by : ℕ → Option ℕ → Age
unfolding timedelta
seconds_by n none = value_error
seconds_by n (some seconds) = timedelta (n * seconds)

unfoldable pub aged : List ℕ → String → Age
unfolding unit_seconds seconds_by
aged [] unit = value_error
aged (d ∷ ds) unit = seconds_by (number 0 (d ∷ ds)) (unit_seconds unit)

-- `parse_older_than`, of a text, in seconds.
unfoldable pub parse_older_than : Digits → (String → String) → String → Age
unfolding aged
parse_older_than D strip raw = let value = strip raw in aged (span D value).0 (span D value).1

-- `_humanize_age`, of whole seconds.
unfoldable pub humanize_age : ℕ → String
humanize_age total =
    if leb 86400 total
    then decimal (total / 86400) <> "d"
    else if leb 3600 total
    then decimal (total / 3600) <> "h"
    else if leb 60 total
    then decimal (total / 60) <> "m"
    else decimal total <> "s"

-- An entry of tasks/, with what `read_task` makes of it: a dict, or one of the exceptions for which the
-- loop skips the entry.
pub record Entry : Type 0 where
  pub name : String
  pub is_dir : Bool
  pub dict : Result TaskDict

pub record Candidate : Type 0 where
  pub task_id : String
  pub status : String
  pub reference_ts : String
  pub old : ℕ
  pub kind : String
  pub project_repo_path : Option String

-- `now`, and the instant of an ISO text, which is taken for UTC if it names no zone.
pub record Clock : Type 0 where
  pub now : ℕ
  pub parse_iso : String → Option ℕ

-- `data.get("finished_at") or data.get("updated_at")`.
unfoldable pub reference : TaskDict → String
reference d = or_else d.finished_at (or_else d.updated_at "")

-- `age < threshold` skips the entry; a time in the future has a negative age.
old_enough : Clock → ℕ → String → TaskDict → Option ℕ → Option Candidate
old_enough K threshold name d none = none
old_enough K threshold name d (some at) =
    if ltb K.now (at + threshold)
    then none
    else some (record {
      task_id = name;
      status = get_or d.status "";
      reference_ts = reference d;
      old = K.now - at;
      kind = get_or d.kind "";
      project_repo_path = d.project_repo_path;
    })

candidate_of : Clock → ℕ → String → TaskDict → Option Candidate
unfolding old_enough reference
candidate_of K threshold name d =
    if not (one_of (get_or d.status "") terminal_statuses)
    then none
    else if str_eq (reference d) ""
    then none
    else old_enough K threshold name d (K.parse_iso (reference d))

-- One round of the loop over the entries.
unfoldable pub candidate : Clock → ℕ → String → Bool → Result TaskDict → Option Candidate
unfolding candidate_of
candidate K threshold name true (ok d) = candidate_of K threshold name d
candidate K threshold name is_dir d = none

collect : Clock → ℕ → List Entry → List Candidate
unfolding candidate
collect K threshold [] = []
collect K threshold (e ∷ entries) =
    let rest = collect K threshold entries in
    elim (candidate K threshold e.name e.is_dir e.dict) [ none ↦ rest | some c ↦ c ∷ rest ]

-- `_enumerate_candidates`: the entries by name.
unfoldable pub enumerate_candidates : Clock → ℕ → List Entry → List Candidate
unfolding collect
enumerate_candidates K threshold entries =
    collect K threshold (sorted (λ e f. text_le e.name f.name) entries)
