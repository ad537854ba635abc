-- ===== src/Lifecycle/Start.antt =====
-- `start` of src/naiw_tasks/naiw_tasks/lifecycle.py, from the id on that `allocate_task_id` gave, and
-- what it calls in git_ops.py. The directories of the task are there; log lines are left out.
pub mod Ending
pub mod Entries
use neotolis_ai_workbench.Base.{
  ℕ, String, ◌<>◌, Bool, true, false, Option, none, some, List, [], ◌∷◌, ◌++◌, ◌⊎◌, inl, inr,
  get_or, str_eq, ◌==◌, decimal, if◌then◌else◌,
}
use neotolis_ai_workbench.Model.{
  created, running, TaskKind, project, generic, FinishPolicy, Task, TaskDict, schema_version,
}
use neotolis_ai_workbench.Effects.{
  Host, World, M, Exn, file_not_found, unsupported_schema, value_error, bind_mount_escape,
  git_worktree_error, docker_error, start_failed, DockerError, api, Container, Bind, GitResult,
  Result, ok, err, ◌>>=◌, ◌>>◌, pure, raise, call, look, attempt,
}
use neotolis_ai_workbench.Paths.{FilePath}
use neotolis_ai_workbench.Store.{write_task, update_task}
use neotolis_ai_workbench.Volumes.{build_volumes, build_labels}
use neotolis_ai_workbench.Lifecycle.Teardown.{container_name, lookup_project, or_else}
use neotolis_ai_workbench.Lifecycle.Recover.{Settings, is_conflict, from_result}
use Entries.{
  Request, ProjectMeta, kind_of, path_str, initial_task, attach_meta, started, start_failure,
  is_caught, candidates, start_failed_for, with_meta, as_running, reason_of,
}

module _ {H : Host} where
  -- `git_ops.resolve_base`: the loop over the candidates.
  try_refs : String → List String → M H (String × String)
  try_refs repo [] = raise (git_worktree_error ("no base ref resolvable in " <> repo) "")
  try_refs repo (ref ∷ refs) =
      let rest = try_refs repo refs in
      call (H.git repo ("rev-parse" ∷ "--verify" ∷ "--short" ∷ ref ∷ [])) >>= λ r.
      if r.returncode == 0 then pure (ref, H.strip r.stdout) else rest

  resolve_base : String → Option String → M H (String × String)
  unfolding try_refs candidates
  resolve_base repo explicit = try_refs repo (candidates explicit)

  added : String → String → GitResult → M H Unit
  added branch work_path r =
      if r.returncode == 0
      then pure tt
      else raise (
          git_worktree_error
            ("git worktree add failed (exit "
              <> decimal r.returncode
              <> ") for branch '"
              <> branch
              <> "' at "
              <> work_path)
            r.stderr)

  worktree_add : String → String → String → String → M H Unit
  unfolding added
  worktree_add repo task_id work_path base_ref = do
    let branch = "agent/" <> task_id
    r ← call (H.git repo ("worktree" ∷ "add" ∷ "-b" ∷ branch ∷ work_path ∷ base_ref ∷ []))
    added branch work_path r

  project_path : String → Option String → M H String
  project_path alias none = raise (start_failed ("unknown project '" <> alias <> "'"))
  project_path alias (some path) = pure path

  -- The block of a project task, up to its update of task.json.
  prepare_project : Settings → String → Request → M H ProjectMeta
  unfolding project_path resolve_base worktree_add path_str
  prepare_project cfg task_id r = do
    let alias = get_or r.alias ""
    loaded ← look H.projects
    project_map ← from_result loaded
    project_repo ← project_path alias (lookup_project alias project_map)
    base ← resolve_base project_repo r.base_ref
    let work_path = path_str (cfg.data_root ++ "tasks" ∷ task_id ∷ "work" ∷ [])
    worktree_add project_repo task_id work_path base.1
    call (λ s. (tt, H.make_writable work_path s))
    worktree_path ← look (λ s. H.real_path s work_path)
    project_repo_path ← look (λ s. H.real_path s project_repo)
    pure (record {
      branch = "agent/" <> task_id;
      worktree_path = worktree_path;
      base_branch = base.0;
      base_commit = base.1;
      project_repo_path = project_repo_path;
    })

  attach_project : Settings → String → Request → Task → TaskKind → M H Task
  unfolding prepare_project attach_meta with_meta
  attach_project cfg task_id r task generic = pure task
  attach_project cfg task_id r task project = do
    m ← prepare_project cfg task_id r
    ts_meta ← call H.now
    update_task (λ d. ok (attach_meta ts_meta m d))
    pure (with_meta ts_meta m task)

  -- A call of Docker, whose error is raised.
  or_raise : Container ⊎ DockerError → M H Container
  or_raise (inl c) = pure c
  or_raise (inr e) = raise (docker_error e)

  -- From the reload on: an empty digest is no digest.
  record_running : Settings → Task → String → M H Task
  unfolding started as_running
  record_running cfg task image_digest =
      if str_eq image_digest ""
      then raise (
          start_failed (
            "could not resolve image digest for " <> cfg.task_image
            <> " after containers.run; refusing to record task without audit digest"))
      else (call H.now >>= λ ts_started.
          update_task (λ d. ok (started ts_started image_digest d))
          >> pure (as_running ts_started image_digest task))

  launch_task : Settings → String → Request → Task → M H Task
  unfolding or_raise record_running
  launch_task cfg task_id r task = do
    resolve ← look H.resolve
    volumes ← from_result (
        build_volumes resolve cfg.data_root cfg.host_root (cfg.data_root ++ "tasks" ∷ task_id ∷ [])
          r.secrets)
    run ← call (
        H.run (record {
          image = cfg.task_image;
          name = container_name task_id;
          labels = build_labels task_id r.alias;
          volumes = volumes;
        }))
    container ← or_raise run
    reload ← call (H.reload container)
    shown ← or_raise reload
    record_running cfg task (or_else shown.image "")

  -- The body of `try`.
  bring_up : Settings → String → Request → Task → M H Task
  unfolding attach_project launch_task
  bring_up cfg task_id r task = do
    task ← attach_project cfg task_id r task (kind_of r.alias)
    launch_task cfg task_id r task

  give_up : Settings → String → Exn → M H Task
  unfolding reason_of start_failure start_failed_for
  give_up cfg task_id exc = do
    ts_now ← call H.now
    let reason = reason_of H cfg task_id exc
    update_task (λ d. ok (start_failure ts_now reason d))
    raise (start_failed_for reason exc)

  handle : Settings → String → Exn → Bool → M H Task
  unfolding give_up
  handle cfg task_id exc true = give_up cfg task_id exc
  handle cfg task_id exc false = raise exc

  except : Settings → String → Result Task → M H Task
  unfolding handle is_caught
  except cfg task_id (ok task) = pure task
  except cfg task_id (err exc) = handle cfg task_id exc (is_caught exc)

  unfoldable pub start : Settings → String → Request → M H Task
  unfolding bring_up except initial_task
  start cfg task_id r = do
    ts ← call H.now
    let task = initial_task cfg ts task_id r
    write_task task
    outcome ← attempt (bring_up cfg task_id r task)
    except cfg task_id outcome
