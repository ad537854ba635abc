-- ===== src/Lifecycle/Teardown.antt =====
-- `teardown_and_mark` of src/naiw_tasks/naiw_tasks/lifecycle.py, and what it calls.
pub mod Outcome
use Prim.Native.String
use text.Mathlib.Text.{starts_with}
use neotolis_ai_workbench.Base.{
  String, ◌<>◌, Bool, true, false, not, ◌&&◌, Option, none, some, List, [], ◌∷◌, ◌⊎◌, inl, inr,
  get_or, str_eq, ◌==◌, decimal, if◌then◌else◌,
}
use neotolis_ai_workbench.Model.{
  Status, TaskDict, status_str, FinishPolicy, ask, keep_worktree, delete_worktree, policy_of_str,
}
use neotolis_ai_workbench.Effects.{
  Host, M, file_not_found, unsupported_schema, value_error, bind_mount_escape, system_exit,
  DockerError, not_found, api, Container, Result, ok, err, ◌>>=◌, ◌>>◌, pure, raise, call, look,
}
use neotolis_ai_workbench.Store.{read_task, update_task}

abbrev pub container_name : String → String
container_name task_id = "naiw-task-" <> task_id

-- `_to_failed` of `_mark_finish_failed`.
abbrev pub finish_failed : String → String → TaskDict → TaskDict
finish_failed ts reason d = record d {
  status = some "failed";
  failure_reason = some ("finish: " <> reason);
  updated_at = some ts;
}

-- An empty text counts as missing, as in `d.get("finished_at") or ts_now`.
abbrev pub or_else : Option String → String → String
or_else none s = s
or_else (some t) s = if str_eq t "" then s else t

-- The reason that `_to_terminal` leaves.
abbrev pub terminal_reason : Status → Option String → Option String → Option String
terminal_reason status given existing =
    let old = or_else existing "" in
    let new = or_else given "" in
    if not (str_eq new "")
    then some new
    else if str_eq (status_str status) "completed" && starts_with old "finish:"
    then none
    else existing

-- `_to_terminal`.
abbrev pub to_terminal : String → Status → Option String → TaskDict → TaskDict
to_terminal ts status reason d = record d {
  status = some (status_str status);
  finished_at = some (or_else d.finished_at ts);
  updated_at = some ts;
  failure_reason = terminal_reason status reason d.failure_reason;
}

abbrev pub exc_str : DockerError → String
exc_str (not_found msg) = msg
exc_str (api code msg) = msg

-- What the check after stop and remove finds.
pub data Survivor : Type 0 where
  gone : Survivor
  present : String → Survivor
  unknown : String → Survivor

survivor_of : Container ⊎ DockerError → Survivor
survivor_of (inl c) = present (get_or c.status "<unknown>")
survivor_of (inr (not_found msg)) = gone
survivor_of (inr (api code msg)) = unknown msg

answer : Bool → FinishPolicy
answer true = keep_worktree
answer false = delete_worktree

pub lookup_project : String → List (String × String) → Option String
lookup_project alias [] = none
lookup_project alias ((a, path) ∷ rest) =
    if str_eq a alias then some path else lookup_project alias rest

module _ {H : Host} where
  pub mark_finish_failed : String → M H Unit
  mark_finish_failed reason = do
    ts ← call H.now
    update_task (λ d. ok (finish_failed ts reason d))
    pure tt

  -- Errors of stop and remove are suppressed.
  pub stop_and_remove : Container ⊎ DockerError → M H Unit
  stop_and_remove (inl c) = do call (H.stop c); call (H.remove c); pure tt
  stop_and_remove (inr e) = pure tt

  fail_with : String → M H Unit
  unfolding mark_finish_failed
  fail_with reason = do mark_finish_failed reason; raise (system_exit 1)

  prompt : Bool → M H FinishPolicy
  unfolding answer
  prompt false = pure delete_worktree
  prompt true = do keep ← call H.confirm; pure (answer keep)

  -- `ask`: prompt if there is somebody to answer.
  resolve_ask : Bool → M H FinishPolicy
  unfolding prompt
  resolve_ask allow_prompt = do tty ← look H.isatty; prompt (allow_prompt && tty)

  resolve_stored : Bool → Option FinishPolicy → M H FinishPolicy
  unfolding resolve_ask
  resolve_stored allow_prompt none = raise (value_error "not a valid FinishPolicy")
  resolve_stored allow_prompt (some ask) = resolve_ask allow_prompt
  resolve_stored allow_prompt (some policy) = pure policy

  of_option : Option FinishPolicy → M H FinishPolicy
  of_option none = raise (value_error "not a valid FinishPolicy")
  of_option (some policy) = pure policy

  resolve_given : Bool → Option FinishPolicy → Bool → Option FinishPolicy → M H FinishPolicy
  unfolding resolve_stored of_option
  resolve_given true cli allow_prompt stored = of_option cli
  resolve_given false cli allow_prompt stored = resolve_stored allow_prompt stored

  -- `_resolve_finish_policy`; an empty override counts as none.
  resolve_finish_policy : Option String → String → Bool → M H FinishPolicy
  unfolding resolve_given
  resolve_finish_policy cli_override task_policy allow_prompt =
      let cli = or_else cli_override "" in
      resolve_given (not (str_eq cli "")) (policy_of_str cli) allow_prompt
        (policy_of_str task_policy)

  prune : String → Option (String × String) → M H (Option (String × String))
  prune repo (some failure) = pure (some failure)
  prune repo none = do call (H.git repo ("worktree" ∷ "prune" ∷ [])); pure none

  remove_there : String → String → Bool → M H (Option (String × String))
  remove_there repo work_path false = pure none
  remove_there repo work_path true = do
    r ← call (H.git repo ("worktree" ∷ "remove" ∷ "--force" ∷ work_path ∷ []))
    pure (
        if r.returncode == 0
        then none
        else some (
          "git worktree remove --force failed (exit "
              <> decimal r.returncode
              <> ") for "
              <> work_path,
          r.stderr,
        ))

  -- `git_ops.worktree_remove`: `none`, or the message and the stderr of its GitWorktreeError.
  worktree_remove : String → String → M H (Option (String × String))
  unfolding prune remove_there
  worktree_remove repo work_path = do
    there ← look (λ s. H.exists s work_path)
    failure ← remove_there repo work_path there
    prune repo failure

  after_remove : Option (String × String) → M H Unit
  unfolding fail_with
  after_remove none = pure tt
  after_remove (some (message, stderr)) =
      fail_with ("git worktree remove failed: " <> get_or (H.first_line stderr) message)

  remove_known : String → String → Bool → M H Unit
  unfolding worktree_remove after_remove
  remove_known repo tree false = pure tt
  remove_known repo tree true = do failure ← worktree_remove repo tree; after_remove failure

  -- `except (FileNotFoundError, ValueError)`, with the subclasses of ValueError.
  of_projects : String → Result (List (String × String)) → M H (Option String)
  unfolding lookup_project
  of_projects alias (ok map) = pure (lookup_project alias map)
  of_projects alias (err file_not_found) = pure none
  of_projects alias (err unsupported_schema) = pure none
  of_projects alias (err (value_error msg)) = pure none
  of_projects alias (err (bind_mount_escape msg)) = pure none
  of_projects alias (err e) = raise e

  from_projects : String → Result (List (String × String)) → M H String
  unfolding of_projects
  from_projects alias known = do path ← of_projects alias known; pure (or_else path "")

  -- The repo path of task.json, or of projects.yaml for a task that was started without one.
  repo_path : TaskDict → Result (List (String × String)) → M H String
  unfolding from_projects
  repo_path d known =
      let stored = or_else d.project_repo_path "" in
      let alias = or_else d.project_alias "" in
      if str_eq stored "" && not (str_eq (or_else d.worktree_path "") "") && not (str_eq alias "")
      then from_projects alias known
      else pure stored

  -- The policy is delete_worktree. A failure of git is written down and ends the teardown.
  delete_tree : TaskDict → M H Unit
  unfolding remove_known repo_path
  delete_tree d = do
    known ← look H.projects
    repo ← repo_path d known
    let tree = or_else d.worktree_path ""
    remove_known repo tree (not (str_eq repo "") && not (str_eq tree ""))

  apply_policy : TaskDict → FinishPolicy → M H Unit
  unfolding delete_tree
  apply_policy d delete_worktree = delete_tree d
  apply_policy d policy = pure tt

  teardown_project : TaskDict → Option String → Bool → Bool → M H Unit
  unfolding apply_policy resolve_finish_policy
  teardown_project d policy_override allow_prompt false = pure tt
  teardown_project d policy_override allow_prompt true = do
    policy ← resolve_finish_policy policy_override (get_or d.finish_policy "ask") allow_prompt
    apply_policy d policy

  -- Only project tasks have a worktree.
  teardown_worktree : TaskDict → Option String → Bool → M H Unit
  unfolding teardown_project
  teardown_worktree d policy_override allow_prompt =
      teardown_project d policy_override allow_prompt (str_eq (get_or d.kind "") "project")

  finalize : Status → Option String → M H Unit
  finalize terminal_status failure_reason = do
    ts ← call H.now
    update_task (λ d. ok (to_terminal ts terminal_status failure_reason d))
    pure tt

  -- From the check that the container is gone on.
  after_check :
      String → TaskDict → Status → Option String → Bool → Option String → Survivor → M H Unit
  unfolding fail_with teardown_worktree finalize
  after_check name d status policy_override allow_prompt reason (unknown exc) =
      fail_with ("cannot verify container teardown (" <> exc <> ")")
  after_check name d status policy_override allow_prompt reason (present state) =
      fail_with
        ("container " <> name <> " still present (state='" <> state <> "') after stop+remove")
  after_check name d status policy_override allow_prompt reason gone = do
    call (λ s. (tt, H.capture d s))
    teardown_worktree d policy_override allow_prompt
    finalize status reason

  unfoldable pub teardown_and_mark :
      String → Status → Option String → Bool → Option String → M H Unit
  unfolding after_check stop_and_remove survivor_of
  teardown_and_mark task_id terminal_status policy_override allow_prompt failure_reason = do
    d ← read_task
    let name = get_or d.container_name (container_name task_id)
    before ← call (H.get name)
    stop_and_remove before
    after ← call (H.get name)
    after_check name d terminal_status policy_override allow_prompt failure_reason
        (survivor_of after)
