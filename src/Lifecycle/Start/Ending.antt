-- ===== src/Lifecycle/Start/Ending.antt =====
-- How a start ends.
use neotolis_ai_workbench.Base.{
  ◌≡◌, refl, String, Bool, true, false, Option, none, some, List, [], ◌∷◌, ◌++◌, ◌⊎◌, inl, inr,
  str_eq, Bool-cases, ◌==◌,
}
use neotolis_ai_workbench.Model.{running, Task, TaskKind, project, generic, TaskDict}
use neotolis_ai_workbench.Effects.{
  Host, M, Exn, start_failed, DockerError, Container, Result, ok, err, ◌>>=◌, pure, call, look,
  attempt, GitResult,
}
use neotolis_ai_workbench.Effects.Rules.{
  Published, Silent, Spec, Spec-bind, Spec-seq, Spec-call, Silent-if, Spec-now, Spec-weaken,
  Silent-pure, Silent-raise, Silent-call, Silent-look, Silent-bind,
}
use neotolis_ai_workbench.Store.{write_task, update_task}
use neotolis_ai_workbench.Lifecycle.Recover.{Settings, from_result}
use neotolis_ai_workbench.Lifecycle.Recover.Ending.{from_result-Silent}
use neotolis_ai_workbench.Volumes.{build_volumes, build_labels}
use neotolis_ai_workbench.Lifecycle.Teardown.{container_name, or_else}
use neotolis_ai_workbench.Lifecycle.Start.{
  try_refs, resolve_base, added, worktree_add, project_path, prepare_project, attach_project,
  or_raise, record_running, launch_task, bring_up, give_up, handle, except, start,
}
use neotolis_ai_workbench.Lifecycle.Start.Entries.{
  Request, started, start_failure, is_caught, start_failed_for, kind_of, initial_task,
}

-- The last dict of a history, with the one it replaced.
pub data LastIs (change : TaskDict × TaskDict) : Published → Type 0 where
  here : LastIs change (change ∷ [])
  there : (c : TaskDict × TaskDict) {l : Published} → LastIs change l → LastIs change (c ∷ l)

last-after :
    {change : TaskDict × TaskDict} (front : Published) {l : Published}
    → LastIs change l
    → LastIs change (front ++ l)
last-after [] h = h
last-after (c ∷ front) h = there c (last-after front h)

-- A start returns a running task, and its last dict says so, with a digest; or it raises StartFailed,
-- and its last dict says failed; or it raises an exception that it does not handle.
pub data Started : Published → Result Task → Type 0 where
  up :
      (d : TaskDict) (ts digest : String) (t : Task) {new : Published}
      → str_eq digest "" ≡ false
      → t.status ≡ running
      → LastIs (d, started ts digest d) new
      → Started new (ok t)
  down :
      (d : TaskDict) (ts reason msg : String) {new : Published}
      → LastIs (d, start_failure ts reason d) new
      → Started new (err (start_failed msg))
  unhandled : (e : Exn) {new : Published} → is_caught e ≡ false → Started new (err e)

-- What the body of `try` does.
data Tried : Published → Result Task → Type 0 where
  up :
      (d : TaskDict) (ts digest : String) (t : Task) {new : Published}
      → str_eq digest "" ≡ false
      → t.status ≡ running
      → LastIs (d, started ts digest d) new
      → Tried new (ok t)
  broken : (e : Exn) {new : Published} → Tried new (err e)

append-Tried :
    (front : Published) (l : Published) (r : Result Task) → Tried l r → Tried (front ++ l) r
append-Tried front l _ (up d ts digest t h s p) = up d ts digest t h s (last-after front p)
append-Tried front l _ (broken e) = broken e

abbrev Anything : {A : Type 0} → Published → Result A → Type 0
Anything new r = Unit {0}

-- `attempt` never raises.
abbrev CaughtResult : Published → Result (Result Task) → Type 0
CaughtResult new (ok r) = Tried new r
CaughtResult new (err e) = ⊥

append-Started :
    (front : Published) (l : Published) (r : Result Task) → Started l r → Started (front ++ l) r
append-Started front l _ (up d ts digest t h s p) = up d ts digest t h s (last-after front p)
append-Started front l _ (down d ts reason msg p) = down d ts reason msg (last-after front p)
append-Started front l _ (unhandled e n) = unhandled e n

last-append-nil :
    {change : TaskDict × TaskDict} {l : Published} → LastIs change l → LastIs change (l ++ [])
last-append-nil here = here
last-append-nil (there c h) = there c (last-append-nil h)

-- An action that returns.
abbrev Returns : {A : Type 0} → Published → Result A → Type 0
Returns new (ok a) = Unit {0}
Returns new (err e) = ⊥

module _ {H : Host} where
  try_refs-Silent : (repo : String) (refs : List String) → Silent (try_refs {H = H} repo refs)
  unfolding try_refs
  try_refs-Silent repo [] = Silent-raise _
  try_refs-Silent repo (ref ∷ refs) =
      Silent-bind (call (H.git repo ("rev-parse" ∷ "--verify" ∷ "--short" ∷ ref ∷ []))) _
        (Silent-call _)
        (λ r.
          Silent-if (r.returncode == 0) (pure (ref, H.strip r.stdout)) _ (Silent-pure _)
            (try_refs-Silent repo refs))

  added-Silent :
      (branch work_path : String) (r : GitResult) → Silent (added {H = H} branch work_path r)
  unfolding added
  added-Silent branch work_path r = elim (Bool-cases (r.returncode == 0)) [
    | inl e ↦ rw e (Silent-pure _)
    | inr n ↦ rw n (Silent-raise _)
  ]

  project_path-Silent : (alias : String) (p : Option String) → Silent (project_path {H = H} alias p)
  unfolding project_path
  project_path-Silent alias none = Silent-raise _
  project_path-Silent alias (some p) = Silent-pure _

  or_raise-Silent : (r : Container ⊎ DockerError) → Silent (or_raise {H = H} r)
  unfolding or_raise
  or_raise-Silent (inl c) = Silent-pure _
  or_raise-Silent (inr e) = Silent-raise _

  worktree_add-Silent :
      (repo task_id work_path base : String)
      → Silent (worktree_add {H = H} repo task_id work_path base)
  unfolding worktree_add
  worktree_add-Silent repo task_id work_path base = search (Silent-call, Silent-bind, added-Silent)

  prepare_project-Silent :
      (cfg : Settings) (task_id : String) (r : Request)
      → Silent (prepare_project {H = H} cfg task_id r)
  unfolding prepare_project resolve_base
  prepare_project-Silent cfg task_id r =
      search
        (
          Silent-pure, Silent-call, Silent-look, Silent-bind, try_refs-Silent, worktree_add-Silent,
          project_path-Silent, from_result-Silent,
        )
        depth 16

  attach_project-Anything :
      (cfg : Settings) (task_id : String) (r : Request) (task : Task) (k : TaskKind)
      → Spec Anything (attach_project {H = H} cfg task_id r task k)
  unfolding attach_project update_task
  attach_project-Anything cfg task_id r task generic = Spec-now Anything (ok task) tt
  attach_project-Anything cfg task_id r task project =
      Spec-bind Anything (prepare_project cfg task_id r) _ (prepare_project-Silent cfg task_id r)
        (λ e. tt) (λ m. record { at = λ w. (_, refl, tt) })

  record_running-Tried :
      (cfg : Settings) (task : Task) (digest : String)
      → Spec Tried (record_running {H = H} cfg task digest)
  unfolding record_running update_task
  record_running-Tried cfg task digest = elim (Bool-cases (str_eq digest "")) [
    | inl e ↦ rw e (Spec-now Tried (err _) (broken _))
    | inr n ↦ rw n (record { at = λ w. (_, refl, up _ _ digest _ n refl here) })
  ]

  launch_task-Tried :
      (cfg : Settings) (task_id : String) (r : Request) (task : Task)
      → Spec Tried (launch_task {H = H} cfg task_id r task)
  unfolding launch_task
  launch_task-Tried cfg task_id r task =
      Spec-bind Tried (look H.resolve) _ (Silent-look _) broken λ resolve.
        Spec-bind Tried
          (from_result (
            build_volumes resolve cfg.data_root cfg.host_root
              (cfg.data_root ++ "tasks" ∷ task_id ∷ []) r.secrets))
          _ (from_result-Silent _) broken
          λ volumes.
            Spec-bind Tried
              (call (
                H.run (record {
                  image = cfg.task_image;
                  name = container_name task_id;
                  labels = build_labels task_id r.alias;
                  volumes = volumes;
                })))
              _ (Silent-call _) broken
              λ run. Spec-bind Tried (or_raise run) _ (or_raise-Silent run) broken λ container.
                Spec-bind Tried (call (H.reload container)) _ (Silent-call _) broken λ reload.
                  Spec-bind Tried (or_raise reload) _ (or_raise-Silent reload) broken
                    λ shown. record_running-Tried cfg task (or_else shown.image "")

  bring_up-Tried :
      (cfg : Settings) (task_id : String) (r : Request) (task : Task)
      → Spec Tried (bring_up {H = H} cfg task_id r task)
  unfolding bring_up
  bring_up-Tried cfg task_id r task =
      Spec-seq Anything Tried (attach_project cfg task_id r task (kind_of r.alias)) _
        (attach_project-Anything cfg task_id r task (kind_of r.alias)) (λ new e _. broken e)
        (λ new t _. Spec-weaken Tried _ _ (append-Tried new) (launch_task-Tried cfg task_id r t))

  handle-Started :
      (cfg : Settings) (task_id : String) (e : Exn) (b : Bool)
      → is_caught e ≡ b
      → Spec Started (handle {H = H} cfg task_id e b)
  unfolding handle give_up update_task start_failed_for
  handle-Started cfg task_id e false n = Spec-now Started (err e) (unhandled e n)
  handle-Started cfg task_id (start_failed msg) true n = record {
    at = λ w. (_, refl, down _ _ _ msg here);
  }
  handle-Started cfg task_id e true n = record { at = λ w. (_, refl, down _ _ _ _ here) }

  except-Started :
      (cfg : Settings) (task_id : String) (new : Published) (r : Result Task)
      → Tried new r
      → Spec (λ more s. Started (new ++ more) s) (except {H = H} cfg task_id r)
  unfolding except
  except-Started cfg task_id new _ (up d ts digest t h s p) =
      Spec-now _ (ok t) (up d ts digest t h s (last-append-nil p))
  except-Started cfg task_id new _ (broken e) =
      Spec-weaken Started _ _ (append-Started new) (handle-Started cfg task_id e (is_caught e) refl)

  then_except :
      (cfg : Settings) (task_id : String) (m : M H Task)
      → Spec Tried m
      → Spec Started (attempt m >>= except cfg task_id)
  then_except cfg task_id m s =
      Spec-seq CaughtResult Started (attempt m) _
        (record { at = λ w. let (new, p, q) = s.at w in (new, p, q) }) (λ new e x. absurd x)
        (λ new r x. except-Started cfg task_id new r x)

  -- Whatever Docker, git and other processes do, a start returns a running task, and the last dict
  -- that it publishes says running and has a digest that is not empty; or it raises StartFailed, and
  -- the last dict that it publishes says failed; or it raises an exception that it does not handle.
  pub start-Started :
      (cfg : Settings) (task_id : String) (r : Request) → Spec Started (start {H = H} cfg task_id r)
  unfolding start write_task update_task
  start-Started cfg task_id r = Spec-call Started H.now _ λ ts.
      Spec-seq Returns Started (write_task (initial_task cfg ts task_id r)) _
        (record { at = λ w. (_, refl, tt) }) (λ new e x. absurd x)
        (λ new d x. Spec-weaken Started _ _ (append-Started new) (
          then_except cfg task_id (bring_up cfg task_id r (initial_task cfg ts task_id r))
            (bring_up-Tried cfg task_id r (initial_task cfg ts task_id r))))
