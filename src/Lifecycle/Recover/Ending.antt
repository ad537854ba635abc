-- ===== src/Lifecycle/Recover/Ending.antt =====
-- How a `recover` ends.
use mathlib.Core.Path.{subst}
use neotolis_ai_workbench.Base.{
  ◌+◌, ◌≡◌, refl, ap, String, ◌<>◌, Bool, true, false, not, ◌&&◌, Option, none, some, List, [], ◌∷◌,
  ◌++◌, ◌⊎◌, inl, inr, get_or, str_eq, eq_iff, Bool-cases,
}
use neotolis_ai_workbench.Model.{TaskDict, Recovery}
use neotolis_ai_workbench.Effects.{
  Host, Exn, DockerError, Container, Bind, Result, ok, err, ◌>>=◌, raise, call, look, attempt,
  recover_failed,
}
use neotolis_ai_workbench.Effects.Rules.{
  Published, Silent, Spec, Spec-bind, Spec-now, Silent-pure, Silent-raise, Silent-call, Silent-look,
  Silent-bind,
}
use neotolis_ai_workbench.Store.{read_task}
use neotolis_ai_workbench.Store.Rules.{Silent-read_task, Spec-update}
use neotolis_ai_workbench.Volumes.{build_volumes, build_labels}
use neotolis_ai_workbench.Lifecycle.Teardown.{exc_str, container_name, stop_and_remove, or_else}
use neotolis_ai_workbench.Lifecycle.Teardown.Outcome.{stop_and_remove-Silent}
use neotolis_ai_workbench.Lifecycle.Recover.{
  Settings, Attempt, bumped, entry, to_running, from_result, git_dir_markers, detect_git_state,
  git_state_of, kill_new_container, settle, commit, after_reload, after_run, launch,
  recover_interrupted, recover_read, recover, read_error, volumes_error, attempt_of,
}

-- The dict `new` is the interrupted task `old`, running again: one more recovery, with one more
-- entry of that number in the history, the same place in the journal, and the same limit of the log.
pub record Resumes (old new : TaskDict) : Type 0 where
  pub was_interrupted : old.status ≡ some "interrupted"
  pub is_running : new.status ≡ some "running"
  pub counted : new.recovery_count ≡ some (get_or old.recovery_count 0 + 1)
  pub last : Recovery
  pub history : new.recovery_history ≡ some (get_or old.recovery_history [] ++ last ∷ [])
  pub numbered : new.recovery_count ≡ some last.recovery_count
  pub same_offset : new.events_offset ≡ old.events_offset
  pub same_limit : new.terminal_log_max_size ≡ old.terminal_log_max_size

-- A recovery publishes one dict, and returns; or publishes nothing and raises.
pub data Recovered : Published → Result (Unit {0}) → Type 0 where
  recovered : (old new : TaskDict) → Resumes old new → Recovered ((old, new) ∷ []) (ok tt)
  raised : (e : Exn) → Recovered [] (err e)

interrupted_status :
    (s : Option String) → str_eq (get_or s "None") "interrupted" ≡ true → s ≡ some "interrupted"
interrupted_status none h = cc h
interrupted_status (some s) h = ap some ((eq_iff s "interrupted").0 h)

to_running-Resumes :
    (ts ts' : String) (a : Attempt) (old new : TaskDict)
    → to_running ts ts' a old ≡ ok new
    → Resumes old new
unfolding to_running entry bumped
to_running-Resumes ts ts' a old new h =
    elim (Bool-cases (str_eq (get_or old.status "None") "interrupted")) [
      | inl e ↦
          let same : record old {
            recovery_count = some (bumped old);
            status = some "running";
            recovery_history = some (get_or old.recovery_history [] ++ entry ts a old ∷ []);
            image_digest = some a.new_image_digest;
            image_tag = some a.new_image_tag;
            updated_at = some ts';
          }
              ≡ new =
            cc (rw e at h) in
          subst (Resumes old) same (record {
            was_interrupted = interrupted_status old.status e;
            is_running = refl;
            counted = refl;
            last = entry ts a old;
            history = refl;
            numbered = refl;
            same_offset = refl;
            same_limit = refl;
          })
      | inr n ↦ cc (rw n at h)
    ]

ruleset silent = (Silent-pure, Silent-raise, Silent-call, Silent-look, Silent-bind)

module _ {H : Host} where
  kill_new_container-Silent : (c : Container) → Silent (kill_new_container {H = H} c)
  unfolding kill_new_container
  kill_new_container-Silent c = search silent

  settle-Silent : (c : Container) (r : Result TaskDict) → Silent (settle {H = H} c r)
  unfolding settle
  settle-Silent c (ok d) = search silent
  settle-Silent c (err e) = search (silent, kill_new_container-Silent)

  git_dir_markers-Silent : (d : String) (b : Bool) → Silent (git_dir_markers {H = H} d b)
  unfolding git_dir_markers
  git_dir_markers-Silent d true = Silent-look _
  git_dir_markers-Silent d false = Silent-pure _

  git_state_of-Silent : (d : String) (b : Bool) → Silent (git_state_of {H = H} d b)
  unfolding git_state_of detect_git_state
  git_state_of-Silent d false = Silent-pure _
  git_state_of-Silent d true = search (silent, git_dir_markers-Silent)

  pub from_result-Silent : {A : Type 0} (r : Result A) → Silent (from_result {H = H} r)
  unfolding from_result
  from_result-Silent r = record { at = λ w. refl }

  commit-Spec : (c : Container) (a : Attempt) → Spec Recovered (commit {H = H} c a)
  unfolding commit
  commit-Spec c a = Spec-bind _ (call H.now) _ (Silent-call _) raised λ ts.
      Spec-bind _ (call H.now) _ (Silent-call _) raised λ ts'.
        Spec-update Recovered (to_running ts ts' a) (settle c) (settle-Silent c)
          (λ old new w h.
            unfold settle in recovered old new (to_running-Resumes ts ts' a old new h))
          (λ old e w h. unfold settle kill_new_container in raised _)

  fails : (e : Exn) → Spec {H = H} Recovered (raise e)
  fails e = Spec-now Recovered (err e) (raised e)

  killed :
      (c : Container) (e : Exn) → Spec {H = H} Recovered (kill_new_container c >>= λ _. raise e)
  killed c e =
      Spec-bind _ (kill_new_container c) _ (kill_new_container-Silent c) raised (λ _. fails e)

  after_reload-Spec :
      (cfg : Settings) (c : Container) (a : Attempt) (r : Container ⊎ DockerError)
      → Spec Recovered (after_reload {H = H} cfg c a r)
  unfolding after_reload
  after_reload-Spec cfg c a (inl shown) = commit-Spec c _
  after_reload-Spec cfg c a (inr exc) =
      killed c (recover_failed ("recover: container.reload() failed: " <> exc_str exc))

  after_run-Spec :
      (cfg : Settings) (name : String) (a : Attempt) (r : Container ⊎ DockerError)
      → Spec Recovered (after_run {H = H} cfg name a r)
  unfolding after_run
  after_run-Spec cfg name a (inl c) =
      Spec-bind _ (call (H.reload c)) _ (Silent-call _) raised (after_reload-Spec cfg c a)
  after_run-Spec cfg name a (inr exc) = fails _

  launch-Spec :
      (cfg : Settings) (task_id : String) (initial : TaskDict) (name : String) (a : Attempt)
      (volumes : List Bind)
      → Spec Recovered (launch {H = H} cfg task_id initial name a volumes)
  unfolding launch
  launch-Spec cfg task_id initial name a volumes =
      Spec-bind _
        (call (
          H.run (record {
            image = cfg.task_image;
            name = name;
            labels = build_labels task_id initial.project_alias;
            volumes = volumes;
          })))
        _ (Silent-call _) raised (after_run-Spec cfg name a)

  recover_interrupted-Spec :
      (cfg : Settings) (task_id : String) (initial : TaskDict)
      → Spec Recovered (recover_interrupted {H = H} cfg task_id initial)
  unfolding recover_interrupted
  recover_interrupted-Spec cfg task_id initial =
      let name = get_or initial.container_name (container_name task_id) in
      let work = or_else initial.worktree_path "" in
      let is_project = not (str_eq work "") && str_eq (get_or initial.kind "") "project" in
      Spec-bind _ (call (H.get name)) _ (Silent-call _) raised λ old.
        Spec-bind _ (git_state_of work is_project) _ (git_state_of-Silent work is_project) raised
          λ git.
            Spec-bind {A = Unit {0}} _ (call (λ s. (tt, H.widen_log s))) _ (Silent-call _) raised
              λ _. Spec-bind _ (stop_and_remove old) _ (stop_and_remove-Silent old) raised λ _.
                Spec-bind {A = Unit {0}} _ (call (λ s. (tt, H.banner (bumped initial) git s))) _
                  (Silent-call _) raised
                  λ _.
                    Spec-bind {A = Unit {0}} _ (call (λ s. (tt, H.make_storage s))) _
                      (Silent-call _) raised
                      λ _. Spec-bind _ (look H.resolve) _ (Silent-look _) raised λ resolve.
                        Spec-bind _
                          (from_result (
                            volumes_error (
                              build_volumes resolve cfg.data_root cfg.host_root
                                (cfg.data_root ++ "tasks" ∷ task_id ∷ [])
                                (get_or initial.secrets []))))
                          _ (from_result-Silent _) raised
                          (launch-Spec cfg task_id initial name (attempt_of cfg initial old git))

  recover_read-Spec :
      (cfg : Settings) (task_id : String) (initial : TaskDict) (b : Bool)
      → Spec Recovered (recover_read {H = H} cfg task_id initial b)
  unfolding recover_read
  recover_read-Spec cfg task_id initial true = recover_interrupted-Spec cfg task_id initial
  recover_read-Spec cfg task_id initial false = fails _

  -- Whatever Docker, git and other processes do, a recovery publishes nothing and raises; or it
  -- returns and publishes one dict, in place of one that says interrupted at that moment: it says
  -- running, with one more recovery and its entry in the history, and keeps the offset in the
  -- journal and the limit of the log.
  pub recover-Recovered :
      (cfg : Settings) (task_id : String) → Spec Recovered (recover {H = H} cfg task_id)
  unfolding recover
  recover-Recovered cfg task_id =
      Spec-bind _ (attempt read_task) _ (record { at = λ w. Silent-read_task.at w }) raised
        λ r. Spec-bind _ (from_result (read_error r)) _ (from_result-Silent _) raised λ initial.
          recover_read-Spec cfg task_id initial
            (str_eq (get_or initial.status "None") "interrupted")
