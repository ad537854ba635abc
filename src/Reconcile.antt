-- ===== src/Reconcile.antt =====
-- src/naiw_tasks/naiw_tasks/reconcile.py: the truth table of `naiw-tasks list`. Statuses and
-- container states are texts, as in the source: an unknown one passes through.
pub mod Laws
pub mod Stable
use neotolis_ai_workbench.Base.{ℕ, String, Bool, true, false, Option, none, some, List, [], ◌∷◌}
use neotolis_ai_workbench.Base.{str_eq, one_of, if◌then◌else◌, ◌==◌, get_or}
use neotolis_ai_workbench.Model.{TaskDict}

pub record ComputedRow : Type 0 where
  pub status : String
  pub transitioned : Bool
  pub notes : List String
  pub failure_reason : Option String

abbrev pub interrupted_ctr_states : List String
interrupted_ctr_states = "paused" ∷ "restarting" ∷ "created" ∷ "dead" ∷ "removing" ∷ []

abbrev pub known_statuses : List String
known_statuses =
    "created" ∷ "running" ∷ "interrupted" ∷ "waiting_for_user" ∷ "completed" ∷ "failed"
    ∷ "cancelled" ∷ []

abbrev pub terminal_statuses : List String
terminal_statuses = "completed" ∷ "failed" ∷ "cancelled" ∷ []

abbrev row : String → Bool → List String → Option String → ComputedRow
row s t n r = record { status = s; transitioned = t; notes = n; failure_reason = r }

abbrev is : Option String → String → Bool
is none k = false
is (some e) k = str_eq e k

abbrev exited_clean : Option ℕ → Bool
exited_clean none = false
exited_clean (some c) = c == 0

compute_from_running : String → Option ℕ → Option String → ComputedRow
compute_from_running ctr_state ctr_exit_code event =
    if is event "done"
    then row "completed" true [] none
    else if is event "fail"
    then row "failed" true [] none
    else if str_eq ctr_state "running"
    then if is event "wait"
      then row "waiting_for_user" true [] none
      else row "running" false [] none
    else if str_eq ctr_state "exited"
    then if exited_clean ctr_exit_code
      then row "interrupted" true [] none
      else row "failed" true [] none
    else if str_eq ctr_state "notfound"
    then row "interrupted" true [] none
    else if one_of ctr_state interrupted_ctr_states
    then row "interrupted" true [] none
    else row "running" false [] none

abbrev pub crash_reason : String
crash_reason = "reconcile: container missing while status=created (controller crash?)"

compute_from_created : String → Option ℕ → Option String → ComputedRow
compute_from_created ctr_state ctr_exit_code event =
    if is event "done"
    then row "completed" true [] none
    else if is event "fail"
    then row "failed" true [] none
    else if str_eq ctr_state "running"
    then row "running" true [] none
    else if str_eq ctr_state "notfound"
    then row "failed" true [] (some crash_reason)
    else row "failed" true [] none

compute_from_waiting : String → Option ℕ → Option String → ComputedRow
compute_from_waiting ctr_state ctr_exit_code event =
    if is event "done"
    then row "completed" true [] none
    else if is event "fail"
    then row "failed" true [] none
    else if str_eq ctr_state "running"
    then row "waiting_for_user" false [] none
    else if str_eq ctr_state "exited"
    then if exited_clean ctr_exit_code
      then row "interrupted" true [] none
      else row "failed" true [] none
    else if str_eq ctr_state "notfound"
    then row "interrupted" true [] none
    else if one_of ctr_state interrupted_ctr_states
    then row "interrupted" true [] none
    else row "waiting_for_user" false [] none

-- The body of `compute_status`, after `current = task_dict.get("status", "")`.
pub compute_from : String → String → Option ℕ → Option String → ComputedRow
unfolding compute_from_running compute_from_created compute_from_waiting
compute_from current ctr_state ctr_exit_code pending_event_kind =
    if one_of current known_statuses
    then if one_of current terminal_statuses
      then if str_eq ctr_state "notfound"
        then row current false [] none
        else row current false ("leaked ctr" ∷ []) none
      else if str_eq current "interrupted"
      then row current false [] none
      else if str_eq current "running"
      then compute_from_running ctr_state ctr_exit_code pending_event_kind
      else if str_eq current "created"
      then compute_from_created ctr_state ctr_exit_code pending_event_kind
      else if str_eq current "waiting_for_user"
      then compute_from_waiting ctr_state ctr_exit_code pending_event_kind
      else row current false [] none
    else row current false ("unknown status" ∷ []) none

unfoldable pub compute_status : TaskDict → String → Option ℕ → Option String → ComputedRow
unfolding compute_from
compute_status d ctr_state ctr_exit_code pending_event_kind =
    compute_from (get_or d.status "") ctr_state ctr_exit_code pending_event_kind
