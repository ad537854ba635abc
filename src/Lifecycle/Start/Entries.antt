-- ===== src/Lifecycle/Start/Entries.antt =====
-- What `start` of src/naiw_tasks/naiw_tasks/lifecycle.py asks for, and what it writes in task.json.
use neotolis_ai_workbench.Base.{
  String, ◌<>◌, Bool, true, false, Option, none, some, List, [], ◌∷◌, str_eq, if◌then◌else◌,
}
use neotolis_ai_workbench.Model.{
  created, running, TaskKind, project, generic, FinishPolicy, Task, TaskDict, schema_version,
}
use neotolis_ai_workbench.Effects.{
  Host, Exn, file_not_found, unsupported_schema, value_error, bind_mount_escape, git_worktree_error,
  docker_error, start_failed,
}
use neotolis_ai_workbench.Paths.{FilePath}
use neotolis_ai_workbench.Volumes.{build_labels}
use neotolis_ai_workbench.Lifecycle.Teardown.{container_name, or_else}
use neotolis_ai_workbench.Lifecycle.Recover.{Settings, is_conflict}

-- The options of `start`.
pub record Request : Type 0 where
  pub alias : Option String
  pub base_ref : Option String
  pub finish_policy : FinishPolicy
  pub secrets : List String
  pub auto_finish : Bool

-- The text of an absolute path.
unfoldable pub path_str : FilePath → String
path_str [] = ""
path_str (p ∷ path) = "/" <> p <> path_str path

-- An empty alias means a generic task.
abbrev pub kind_of : Option String → TaskKind
kind_of alias = if str_eq (or_else alias "") "" then generic else project

-- `_initial_task`.
unfoldable pub initial_task : Settings → String → String → Request → Task
initial_task cfg ts task_id r = record {
  id = task_id;
  kind = kind_of r.alias;
  container_name = container_name task_id;
  image_tag = cfg.task_image;
  created_at = ts;
  updated_at = ts;
  status = created;
  failure_reason = none;
  started_at = none;
  finished_at = none;
  image_digest = none;
  finish_policy = r.finish_policy;
  auto_finish = r.auto_finish;
  project_alias = r.alias;
  branch = none;
  worktree_path = none;
  base_branch = none;
  base_commit = none;
  project_repo_path = none;
  labels = build_labels task_id r.alias;
  secrets = r.secrets;
  events_offset = 0;
  terminal_log_max_size = 0;
  recovery_count = 0;
  recovery_history = [];
  schema_version = schema_version;
}

-- What a project task has more.
pub record ProjectMeta : Type 0 where
  pub branch : String
  pub worktree_path : String
  pub base_branch : String
  pub base_commit : String
  pub project_repo_path : String

-- `_attach_project_meta`.
unfoldable pub attach_meta : String → ProjectMeta → TaskDict → TaskDict
attach_meta ts m d = record d {
  branch = some m.branch;
  worktree_path = some m.worktree_path;
  base_branch = some m.base_branch;
  base_commit = some m.base_commit;
  project_repo_path = some m.project_repo_path;
  updated_at = some ts;
}

-- `_to_running` and `_to_failed` of `start`.
unfoldable pub started : String → String → TaskDict → TaskDict
started ts image_digest d = record d {
  status = some "running";
  started_at = some ts;
  updated_at = some ts;
  image_digest = some image_digest;
}

unfoldable pub start_failure : String → String → TaskDict → TaskDict
start_failure ts reason d = record d {
  status = some "failed";
  failure_reason = some reason;
  updated_at = some ts;
}

-- The exceptions that the `except` clause names.
unfoldable pub is_caught : Exn → Bool
is_caught file_not_found = true
is_caught unsupported_schema = true
is_caught (value_error msg) = true
is_caught (bind_mount_escape msg) = true
is_caught (git_worktree_error msg stderr) = true
is_caught (docker_error e) = true
is_caught (start_failed msg) = true
is_caught e = false

unfoldable pub candidates : Option String → List String
candidates explicit =
    let ref = or_else explicit "" in
    if str_eq ref ""
    then "origin/main" ∷ "origin/master" ∷ "main" ∷ "master" ∷ "HEAD" ∷ []
    else ref ∷ []

-- The `except` clause: it raises the StartFailed that it got, or a new one.
unfoldable pub start_failed_for : String → Exn → Exn
start_failed_for reason (start_failed msg) = start_failed msg
start_failed_for reason e = start_failed reason

-- The task that `start` returns has what was published.
unfoldable pub with_meta : String → ProjectMeta → Task → Task
with_meta ts m t = record t {
  branch = some m.branch;
  worktree_path = some m.worktree_path;
  base_branch = some m.base_branch;
  base_commit = some m.base_commit;
  project_repo_path = some m.project_repo_path;
  updated_at = ts;
}

unfoldable pub as_running : String → String → Task → Task
as_running ts image_digest t = record t {
  status = running;
  started_at = some ts;
  updated_at = ts;
  image_digest = some image_digest;
}

-- The reason that is written down: of git, its first line; of a name in use, how to clean up.
unfoldable pub reason_of : Host → Settings → String → Exn → String
reason_of H cfg task_id (git_worktree_error msg stderr) = elim (H.first_line stderr) [
  | none ↦ H.str_of (git_worktree_error msg stderr)
  | some line ↦ "git worktree add failed: " <> line
]
reason_of H cfg task_id (docker_error e) =
    let cname = container_name task_id in
    if is_conflict e
    then "container name '" <> cname
      <> "' already in use by an orphan; clean up with: DOCKER_API_VERSION="
      <> cfg.docker_api_version <> " docker -H " <> cfg.docker_proxy_url <> " rm -f " <> cname
    else H.str_of (docker_error e)
reason_of H cfg task_id e = H.str_of e
