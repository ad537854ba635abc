-- ===== src/Model.antt =====
-- src/naiw_tasks/naiw_tasks/model.py: the task record, and the dict that task.json holds.
pub mod Names
use neotolis_ai_workbench.Base.{ℕ, String, Bool, Option, none, some, List, str_eq, if◌then◌else◌}
use neotolis_ai_workbench.Base.{◌⊎◌, inl, inr}

abbrev pub schema_version : ℕ
schema_version = 1

pub data Status : Type 0 where
  created running interrupted waiting_for_user completed failed cancelled : Status

-- `str(status)`.
abbrev pub status_str : Status → String
status_str created = "created"
status_str running = "running"
status_str interrupted = "interrupted"
status_str waiting_for_user = "waiting_for_user"
status_str completed = "completed"
status_str failed = "failed"
status_str cancelled = "cancelled"

-- `Status(value)`: `none` is the ValueError of an unknown name.
unfoldable pub status_of_str : String → Option Status
status_of_str s =
    if str_eq s "created"
    then some created
    else if str_eq s "running"
    then some running
    else if str_eq s "interrupted"
    then some interrupted
    else if str_eq s "waiting_for_user"
    then some waiting_for_user
    else if str_eq s "completed"
    then some completed
    else if str_eq s "failed"
    then some failed
    else if str_eq s "cancelled"
    then some cancelled
    else none

-- `Status.from_str_lenient`: the enum if known, else the raw text.
pub from_str_lenient : String → Status ⊎ String
from_str_lenient s = elim (status_of_str s) [ none ↦ inr s | some st ↦ inl st ]

pub data TaskKind : Type 0 where
  project generic : TaskKind

abbrev pub kind_str : TaskKind → String
kind_str project = "project"
kind_str generic = "generic"

pub data FinishPolicy : Type 0 where
  ask keep_worktree delete_worktree : FinishPolicy

abbrev pub policy_str : FinishPolicy → String
policy_str ask = "ask"
policy_str keep_worktree = "keep_worktree"
policy_str delete_worktree = "delete_worktree"

-- `FinishPolicy(value)`: `none` is the ValueError.
unfoldable pub policy_of_str : String → Option FinishPolicy
policy_of_str s =
    if str_eq s "ask"
    then some ask
    else if str_eq s "keep_worktree"
    then some keep_worktree
    else if str_eq s "delete_worktree"
    then some delete_worktree
    else none

-- One entry of `recovery_history`.
pub record Recovery : Type 0 where
  pub ts : String
  pub recovery_count : ℕ
  pub prev_container_id : Option String
  pub prev_container_exit_code : Option ℕ
  pub prev_image_digest : Option String
  pub new_image_digest : String
  pub prev_image_tag : Option String
  pub new_image_tag : String
  pub git_state : List String

pub record Task : Type 0 where
  pub id : String
  pub kind : TaskKind
  pub container_name : String
  pub image_tag : String
  pub created_at : String
  pub updated_at : String
  pub status : Status
  pub failure_reason : Option String
  pub started_at : Option String
  pub finished_at : Option String
  pub image_digest : Option String
  pub finish_policy : FinishPolicy
  pub auto_finish : Bool
  pub project_alias : Option String
  pub branch : Option String
  pub worktree_path : Option String
  pub base_branch : Option String
  pub base_commit : Option String
  pub project_repo_path : Option String
  pub labels : List (String × String)
  pub secrets : List String
  pub events_offset : ℕ
  pub terminal_log_max_size : ℕ
  pub recovery_count : ℕ
  pub recovery_history : List Recovery
  pub schema_version : ℕ

-- The dict that task.json holds. A key that is missing, or null, is `none`: the code reads every
-- key by `get`, and treats the two alike.
pub record TaskDict : Type 0 where
  pub id : Option String
  pub kind : Option String
  pub container_name : Option String
  pub image_tag : Option String
  pub created_at : Option String
  pub updated_at : Option String
  pub status : Option String
  pub failure_reason : Option String
  pub started_at : Option String
  pub finished_at : Option String
  pub image_digest : Option String
  pub finish_policy : Option String
  pub auto_finish : Option Bool
  pub project_alias : Option String
  pub branch : Option String
  pub worktree_path : Option String
  pub base_branch : Option String
  pub base_commit : Option String
  pub project_repo_path : Option String
  pub labels : Option (List (String × String))
  pub secrets : Option (List String)
  pub events_offset : Option ℕ
  pub terminal_log_max_size : Option ℕ
  pub recovery_count : Option ℕ
  pub recovery_history : Option (List Recovery)
  pub schema_version : Option ℕ

-- `{}`.
abbrev pub empty_dict : TaskDict
empty_dict = record {
  id = none;
  kind = none;
  container_name = none;
  image_tag = none;
  created_at = none;
  updated_at = none;
  status = none;
  failure_reason = none;
  started_at = none;
  finished_at = none;
  image_digest = none;
  finish_policy = none;
  auto_finish = none;
  project_alias = none;
  branch = none;
  worktree_path = none;
  base_branch = none;
  base_commit = none;
  project_repo_path = none;
  labels = none;
  secrets = none;
  events_offset = none;
  terminal_log_max_size = none;
  recovery_count = none;
  recovery_history = none;
  schema_version = none;
}

-- `Task.as_dict`.
unfoldable pub as_dict : Task → TaskDict
as_dict t = record {
  id = some t.id;
  kind = some (kind_str t.kind);
  container_name = some t.container_name;
  image_tag = some t.image_tag;
  created_at = some t.created_at;
  updated_at = some t.updated_at;
  status = some (status_str t.status);
  failure_reason = t.failure_reason;
  started_at = t.started_at;
  finished_at = t.finished_at;
  image_digest = t.image_digest;
  finish_policy = some (policy_str t.finish_policy);
  auto_finish = some t.auto_finish;
  project_alias = t.project_alias;
  branch = t.branch;
  worktree_path = t.worktree_path;
  base_branch = t.base_branch;
  base_commit = t.base_commit;
  project_repo_path = t.project_repo_path;
  labels = some t.labels;
  secrets = some t.secrets;
  events_offset = some t.events_offset;
  terminal_log_max_size = some t.terminal_log_max_size;
  recovery_count = some t.recovery_count;
  recovery_history = some t.recovery_history;
  schema_version = some t.schema_version;
}
