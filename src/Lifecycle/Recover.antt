-- ===== src/Lifecycle/Recover.antt =====
-- `recover` of src/naiw_tasks/naiw_tasks/lifecycle.py: a fresh container for an interrupted task.
-- The clock is read before the lock is taken. An error of the disk does not occur.
pub mod Ending
use neotolis_ai_workbench.Base.{
  ℕ, ◌+◌, String, ◌<>◌, Bool, true, false, not, ◌&&◌, ◌||◌, Option, none, some, List, [], ◌∷◌, ◌++◌,
  ◌⊎◌, inl, inr, get_or, str_eq, ◌==◌, if◌then◌else◌,
}
use neotolis_ai_workbench.Model.{TaskDict, Recovery}
use neotolis_ai_workbench.Effects.{
  Host, World, M, Exn, file_not_found, bind_mount_escape, recover_failed, recover_not_interrupted,
  DockerError, not_found, api, Container, Bind, RunArgs, GitResult, Result, ok, err, ◌>>=◌, ◌>>◌,
  pure, raise, call, look, attempt,
}
use neotolis_ai_workbench.Paths.{FilePath}
use neotolis_ai_workbench.Store.{read_task, update_task}
use neotolis_ai_workbench.Volumes.{build_volumes, build_labels}
use neotolis_ai_workbench.Lifecycle.Teardown.{container_name, exc_str, stop_and_remove, or_else}

-- What the operations read of `Config`.
pub record Settings : Type 0 where
  pub data_root : FilePath
  pub host_root : FilePath
  pub task_image : String
  pub docker_proxy_url : String
  pub docker_api_version : String

-- What `recover` knows of the containers when it commits.
pub record Attempt : Type 0 where
  pub prev_container_id : Option String
  pub prev_container_exit_code : Option ℕ
  pub prev_image_digest : Option String
  pub prev_image_tag : Option String
  pub new_image_digest : String
  pub new_image_tag : String
  pub git_state : List String

pub bumped : TaskDict → ℕ
bumped d = get_or d.recovery_count 0 + 1

pub entry : String → Attempt → TaskDict → Recovery
unfolding bumped
entry ts a d = record {
  ts = ts;
  recovery_count = bumped d;
  prev_container_id = a.prev_container_id;
  prev_container_exit_code = a.prev_container_exit_code;
  prev_image_digest = a.prev_image_digest;
  new_image_digest = a.new_image_digest;
  prev_image_tag = a.prev_image_tag;
  new_image_tag = a.new_image_tag;
  git_state = a.git_state;
}

-- `_to_running`: it raises unless task.json still says interrupted.
unfoldable pub to_running : String → String → Attempt → TaskDict → Result TaskDict
unfolding entry bumped
to_running history_ts updated_at a d =
    if str_eq (get_or d.status "None") "interrupted"
    then ok (record d {
      recovery_count = some (bumped d);
      status = some "running";
      recovery_history = some (get_or d.recovery_history [] ++ entry history_ts a d ∷ []);
      image_digest = some a.new_image_digest;
      image_tag = some a.new_image_tag;
      updated_at = some updated_at;
    })
    else err (recover_not_interrupted (get_or d.status "None"))

-- The old container, if Docker shows it.
pub id_of : Container ⊎ DockerError → Option String
id_of (inl c) = some c.id
id_of (inr e) = none

pub exit_code_of : Container ⊎ DockerError → Option ℕ
exit_code_of (inl c) = c.exit_code
exit_code_of (inr e) = none

pub attempt_of : Settings → TaskDict → Container ⊎ DockerError → List String → Attempt
unfolding id_of exit_code_of
attempt_of cfg initial old git_state = record {
  prev_container_id = id_of old;
  prev_container_exit_code = exit_code_of old;
  prev_image_digest = initial.image_digest;
  prev_image_tag = initial.image_tag;
  new_image_digest = "";
  new_image_tag = cfg.task_image;
  git_state = git_state;
}

-- The exception that leaves `recover` for one of `store.read_task`.
pub read_error : Result TaskDict → Result TaskDict
read_error (err file_not_found) = err (recover_failed "not found")
read_error r = r

pub volumes_error : Result (List Bind) → Result (List Bind)
volumes_error (err (bind_mount_escape exc)) =
    err (recover_failed ("recover: bind-mount validation failed: " <> exc))
volumes_error r = r

pub commit_error : Exn → Exn
commit_error (recover_not_interrupted msg) = recover_not_interrupted msg
commit_error e = recover_failed "recover: cannot commit status=running"

pub is_conflict : DockerError → Bool
is_conflict (api (some code) msg) = code == 409
is_conflict e = false

pub run_error : Settings → String → DockerError → Exn
unfolding is_conflict
run_error cfg name exc =
    if is_conflict exc
    then recover_failed (
        "recover: container name '" <> name
        <> "' already in use by an orphan; clean up with: DOCKER_API_VERSION="
        <> cfg.docker_api_version <> " docker -H " <> cfg.docker_proxy_url <> " rm -f " <> name)
    else recover_failed ("recover: docker run failed: " <> exc_str exc)

pub found : Bool → String → List String → List String
found there marker rest = if there then marker ∷ rest else rest

module _ {H : Host} where
  pub from_result : {A : Type 0} → Result A → M H A
  from_result r w = (r, w)

  git_dir_markers : String → Bool → M H (List String)
  git_dir_markers git_dir false = pure []
  git_dir_markers git_dir true = look λ s.
      found (H.exists s (git_dir <> "/MERGE_HEAD")) "MERGE_HEAD (interrupted merge)" (
        found (H.is_dir s (git_dir <> "/rebase-merge"))
          "rebase-merge (interrupted interactive rebase)"
          (found (H.is_dir s (git_dir <> "/rebase-apply"))
            "rebase-apply (interrupted rebase --apply)"
            (found (H.exists s (git_dir <> "/CHERRY_PICK_HEAD"))
              "CHERRY_PICK_HEAD (interrupted cherry-pick)"
              (found (H.exists s (git_dir <> "/REVERT_HEAD")) "REVERT_HEAD (interrupted revert)"
                []))))

  -- `_detect_git_state`, with `_resolve_git_dir`.
  detect_git_state : String → M H (List String)
  unfolding git_dir_markers found
  detect_git_state work_path = do
    r ← call (H.git work_path ("rev-parse" ∷ "--absolute-git-dir" ∷ []))
    let git_dir = if r.returncode == 0 then H.strip r.stdout else ""
    there ← look (λ s. H.is_dir s git_dir)
    git_dir_markers git_dir (not (str_eq git_dir "") && there)

  git_state_of : String → Bool → M H (List String)
  unfolding detect_git_state
  git_state_of work_path true = detect_git_state work_path
  git_state_of work_path false = pure []

  -- `_kill_new_container`: errors are suppressed.
  kill_new_container : Container → M H Unit
  kill_new_container c = do call (H.stop c); call (H.remove c); pure tt

  settle : Container → Result TaskDict → M H Unit
  unfolding kill_new_container commit_error
  settle c (ok final_state) = pure tt
  settle c (err e) = do kill_new_container c; raise (commit_error e)

  commit : Container → Attempt → M H Unit
  unfolding settle
  commit c a = do
    history_ts ← call H.now
    updated_at ← call H.now
    r ← attempt (update_task (to_running history_ts updated_at a))
    settle c r

  after_reload : Settings → Container → Attempt → Container ⊎ DockerError → M H Unit
  unfolding commit kill_new_container
  after_reload cfg c a (inl shown) =
      commit c (record a { new_image_digest = get_or shown.image "" })
  after_reload cfg c a (inr exc) = do
    kill_new_container c
    raise (recover_failed ("recover: container.reload() failed: " <> exc_str exc))

  after_run : Settings → String → Attempt → Container ⊎ DockerError → M H Unit
  unfolding after_reload run_error
  after_run cfg name a (inl c) = do shown ← call (H.reload c); after_reload cfg c a shown
  after_run cfg name a (inr exc) = raise (run_error cfg name exc)

  -- From the volumes on.
  launch : Settings → String → TaskDict → String → Attempt → List Bind → M H Unit
  unfolding after_run
  launch cfg task_id initial name a volumes = do
    started ← call (
        H.run (record {
          image = cfg.task_image;
          name = name;
          labels = build_labels task_id initial.project_alias;
          volumes = volumes;
        }))
    after_run cfg name a started

  recover_interrupted : Settings → String → TaskDict → M H Unit
  unfolding git_state_of launch from_result volumes_error attempt_of bumped
  recover_interrupted cfg task_id initial = do
    let name = get_or initial.container_name (container_name task_id)
    old ← call (H.get name)
    let work_path = or_else initial.worktree_path ""
    git_state ←
        git_state_of work_path
          (not (str_eq work_path "") && str_eq (get_or initial.kind "") "project")
    call (λ s. (tt, H.widen_log s))
    stop_and_remove old
    call (λ s. (tt, H.banner (bumped initial) git_state s))
    call (λ s. (tt, H.make_storage s))
    resolve ← look H.resolve
    volumes ← from_result (
        volumes_error (
          build_volumes resolve cfg.data_root cfg.host_root
            (cfg.data_root ++ "tasks" ∷ task_id ∷ []) (get_or initial.secrets [])))
    launch cfg task_id initial name (attempt_of cfg initial old git_state) volumes

  recover_read : Settings → String → TaskDict → Bool → M H Unit
  unfolding recover_interrupted
  recover_read cfg task_id initial true = recover_interrupted cfg task_id initial
  recover_read cfg task_id initial false =
      raise (recover_not_interrupted (get_or initial.status "None"))

  unfoldable pub recover : Settings → String → M H Unit
  unfolding recover_read from_result read_error
  recover cfg task_id = do
    r ← attempt read_task
    initial ← from_result (read_error r)
    recover_read cfg task_id initial (str_eq (get_or initial.status "None") "interrupted")
