-- ===== src/Lifecycle/Finish.antt =====
-- `finish` of src/naiw_tasks/naiw_tasks/lifecycle.py: what the operator's `naiw-tasks finish` does.
pub mod Ending
use neotolis_ai_workbench.Base.{
  String, Bool, true, false, not, ◌&&◌, Option, none, some, ◌⊎◌, inl, inr, get_or, one_of,
  if◌then◌else◌,
}
use neotolis_ai_workbench.Model.{Status, completed, TaskDict, status_of_str}
use neotolis_ai_workbench.Reconcile.{terminal_statuses}
use neotolis_ai_workbench.Effects.{
  Host, M, Exn, value_error, system_exit, DockerError, Container, ◌>>=◌, ◌>>◌, pure, raise, call,
  look,
}
use neotolis_ai_workbench.Store.{read_task}
use neotolis_ai_workbench.Ids.{validate_task_id}
use neotolis_ai_workbench.Lifecycle.Teardown.{container_name, teardown_and_mark}

-- `current_status in TERMINAL_STATUSES`.
abbrev pub is_final : TaskDict → Bool
is_final d = one_of (get_or d.status "") terminal_statuses

-- The probe before the short-circuit: an error of Docker counts as absent.
pub is_present : Container ⊎ DockerError → Bool
is_present (inl c) = true
is_present (inr e) = false

-- The status that a teardown leaves: a final one is kept.
pub final_status : TaskDict → Option Status
final_status d = if is_final d then status_of_str (get_or d.status "") else some completed

is_given : Option String → Bool
is_given none = false
is_given (some policy) = true

module _ {H : Host} where
  tear_down : String → Option String → Option Status → M H Unit
  tear_down task_id policy_override none = raise (value_error "not a valid Status")
  tear_down task_id policy_override (some status) =
      teardown_and_mark task_id status policy_override true none

  after_probe : String → Option String → TaskDict → Bool → M H Unit
  unfolding tear_down final_status
  after_probe task_id policy_override d false = pure tt
  after_probe task_id policy_override d true = tear_down task_id policy_override (final_status d)

  probe : String → Option String → TaskDict → M H Unit
  unfolding after_probe is_present
  probe task_id policy_override d = do
    found ← call (H.get (get_or d.container_name (container_name task_id)))
    after_probe task_id policy_override d (is_present found)

  -- The first argument: whether the status is final, with no force and no policy given.
  finish_or_probe : Bool → String → Option String → TaskDict → M H Unit
  unfolding tear_down probe final_status
  finish_or_probe true task_id policy_override d = probe task_id policy_override d
  finish_or_probe false task_id policy_override d =
      tear_down task_id policy_override (final_status d)

  -- From the dict that was read on.
  pub finish_task : String → Option String → Bool → TaskDict → M H Unit
  unfolding finish_or_probe is_given
  finish_task task_id policy_override force d =
      finish_or_probe (is_final d && not force && not (is_given policy_override)) task_id
        policy_override d

  finish_there : String → Option String → Bool → Bool → M H Unit
  unfolding finish_task
  finish_there task_id policy_override force false = raise (system_exit 1)
  finish_there task_id policy_override force true = do
    d ← read_task
    finish_task task_id policy_override force d

  finish_valid : String → Option String → Bool → String → Bool → M H Unit
  unfolding finish_there
  finish_valid task_id policy_override force task_dir false = raise (value_error "invalid task id")
  finish_valid task_id policy_override force task_dir true = do
    there ← look (λ s. H.exists s task_dir)
    finish_there task_id policy_override force there

  -- `task_dir` is the path of `data_root / "tasks" / task_id`.
  unfoldable pub finish : String → String → Option String → Bool → M H Unit
  unfolding finish_valid validate_task_id
  finish task_id task_dir policy_override force =
      finish_valid task_id policy_override force task_dir (validate_task_id task_id)
