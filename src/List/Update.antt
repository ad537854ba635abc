-- ===== src/List/Update.antt =====
-- src/naiw_tasks/naiw_tasks/list_cmd.py: what `_reconcile_one` decides before it takes the lock, and
-- the mutator that it runs under it.
use text.Mathlib.Text.{starts_with}
use neotolis_ai_workbench.Base.{
  ℕ, String, ◌<>◌, Bool, true, false, not, ◌&&◌, ◌||◌, Option, none, some, List, [], ◌∷◌, ◌++◌,
  get_or, ltb, ◌==◌, str_eq, one_of, decimal, if◌then◌else◌,
}
use neotolis_ai_workbench.Model.{Status, completed, failed, TaskDict}
use neotolis_ai_workbench.Json.{Json, str, get}
use neotolis_ai_workbench.Events.{Event}
use neotolis_ai_workbench.Tail.{Tailed}
use neotolis_ai_workbench.Reconcile.{ComputedRow, terminal_statuses}
use neotolis_ai_workbench.Lifecycle.Teardown.{or_else}

unfoldable pub format_ctr_cell : String → Option ℕ → String
format_ctr_cell ctr_state none = ctr_state
format_ctr_cell ctr_state (some exit_code) =
    if str_eq ctr_state "exited" then "exited(" <> decimal exit_code <> ")" else ctr_state

-- `events[-1]`.
unfoldable pub latest : List Event → Option Event
latest [] = none
latest (e ∷ []) = some e
latest (e ∷ f ∷ events) = latest (f ∷ events)

unfoldable pub kind_of_event : Option Event → Option String
kind_of_event none = none
kind_of_event (some e) = some e.kind

-- `_select_latest_event_kind`.
unfoldable pub latest_kind : List Event → Option String
unfolding latest kind_of_event
latest_kind events = kind_of_event (latest events)

-- A text that is not empty.
unfoldable pub text_of : Option Json → Option String
text_of (some (str reason)) = if str_eq reason "" then none else some reason
text_of _ = none

unfoldable pub fail_reason_of : Option Event → Option String
unfolding text_of
fail_reason_of none = none
fail_reason_of (some e) = if str_eq e.kind "fail" then text_of (get "reason" e.payload) else none

-- `_latest_fail_reason`.
unfoldable pub latest_fail_reason : List Event → Option String
unfolding latest fail_reason_of
latest_fail_reason events = fail_reason_of (latest events)

unfoldable pub auto_finish_can_run : TaskDict → Bool
auto_finish_can_run d =
    let status = get_or d.status "" in
    if one_of status terminal_statuses
    then str_eq status "failed" && starts_with (or_else d.failure_reason "") "finish:"
    else true

-- `latest_event_kind in ("done", "fail")`.
unfoldable pub is_closing : Option String → Bool
is_closing none = false
is_closing (some kind) = str_eq kind "done" || str_eq kind "fail"

-- `terminal_auto_pending`.
unfoldable pub auto_pending : TaskDict → Option String → Bool
unfolding is_closing auto_finish_can_run
auto_pending d kind = get_or d.auto_finish false && is_closing kind && auto_finish_can_run d

-- What the event asks the teardown to leave.
unfoldable pub closing_status : Option String → Status
closing_status none = failed
closing_status (some kind) = if str_eq kind "done" then completed else failed

abbrev pub add_note : String → List String → List String
add_note n notes = if one_of n notes then notes else notes ++ n ∷ []

-- `for n in computed.notes: if n not in notes: …`.
unfoldable pub add_notes : List String → List String → List String
add_notes [] notes = notes
add_notes (n ∷ ns) notes = add_notes ns (add_note n notes)

-- What the mutator captures.
pub record Plan : Type 0 where
  pub current_offset : ℕ
  pub original_status : String
  pub new_offset : ℕ
  pub new_max_size : ℕ
  pub hold_offset : Bool
  pub computed : ComputedRow
  pub fail_reason : Option String
  pub ts_now : String

-- The compare of the compare-and-swap: offset and status.
unfoldable pub stale_state : Plan → TaskDict → Bool
stale_state p d =
    not (get_or d.events_offset 0 == p.current_offset)
    || not (str_eq (get_or d.status "") p.original_status)

abbrev pub max : ℕ → ℕ → ℕ
max a b = if ltb a b then b else a

unfoldable pub new_reason : ComputedRow → Option String → Option String → Option String
new_reason computed fail_reason old = elim computed.failure_reason [
  | some reason ↦ some reason
  | none ↦
      (let given = or_else fail_reason "" in
        if not (str_eq given "") && str_eq computed.status "failed" then some given else old)
]

unfoldable pub transition : Plan → TaskDict → TaskDict
unfolding new_reason
transition p d = record d {
  status = some p.computed.status;
  updated_at = some p.ts_now;
  failure_reason = new_reason p.computed p.fail_reason d.failure_reason;
}

advance : Plan → TaskDict → TaskDict
unfolding transition
advance p d =
    let e : TaskDict = record d { events_offset = some p.new_offset } in
    if p.computed.transitioned then transition p e else e

-- `_mutator`.
unfoldable pub mutator : Plan → TaskDict → TaskDict
unfolding stale_state advance
mutator p d =
    let e : TaskDict = record d {
      terminal_log_max_size = some (max (get_or d.terminal_log_max_size 0) p.new_max_size);
    } in
    if stale_state p d then e else if p.hold_offset then e else advance p e

-- The two switches of `list` and `reap`.
pub record Mode : Type 0 where
  pub apply_auto_finish : Bool
  pub dry_run : Bool

-- What happens to a closing event of a task with auto_finish.
pub data Closing : Type 0 where
  nothing_pending deferred would_close inline_teardown : Closing

unfoldable pub closing : Bool → Mode → Closing
closing false m = nothing_pending
closing true m =
    if m.apply_auto_finish then if m.dry_run then would_close else inline_teardown else deferred

-- `hold_offset`.
unfoldable pub holds : Closing → Bool
holds nothing_pending = false
holds c = true

unfoldable pub is_deferred : Closing → Bool
is_deferred deferred = true
is_deferred c = false

-- The plan, from what was read.
unfoldable pub plan_of : TaskDict → Tailed → ℕ → ComputedRow → Closing → String → Plan
unfolding holds latest_fail_reason
plan_of d t log_size computed c ts_now = record {
  current_offset = get_or d.events_offset 0;
  original_status = get_or d.status "";
  new_offset = t.offset;
  new_max_size =
      if ltb log_size (get_or d.terminal_log_max_size 0)
      then get_or d.terminal_log_max_size 0
      else log_size;
  hold_offset = holds c;
  computed = computed;
  fail_reason = latest_fail_reason t.valid;
  ts_now = ts_now;
}

unfoldable pub notes_of : TaskDict → ℕ → ComputedRow → List String
notes_of d log_size computed =
    if ltb log_size (get_or d.terminal_log_max_size 0)
    then add_note "log shrunk" computed.notes
    else computed.notes
