-- ===== src/Lifecycle/Teardown/Outcome.antt =====
-- How a teardown ends, and what it leaves in task.json.
use mathlib.Core.List.{append-nil}
use neotolis_ai_workbench.Base.{
  refl, sym, String, Bool, true, false, not, ◌&&◌, Option, none, some, List, [], ◌∷◌, ◌⊎◌, inl, inr,
  get_or, str_eq,
}
use neotolis_ai_workbench.Model.{Status, TaskDict, FinishPolicy, ask, delete_worktree}
use neotolis_ai_workbench.Effects.{
  Host, Exn, file_not_found, unsupported_schema, value_error, bind_mount_escape, system_exit,
  DockerError, Container, Result, ok, err, pure, look, call,
}
use neotolis_ai_workbench.Effects.Rules.{
  Published, Silent, Spec, Silent-pure, Silent-raise, Silent-call, Silent-look, Silent-bind,
  Silent-if, Spec-bind, Spec-then, Ends, ends, goes_on,
}
use neotolis_ai_workbench.Store.{read_task, update_task}
use neotolis_ai_workbench.Store.Rules.{Silent-read_task}
use neotolis_ai_workbench.Lifecycle.Teardown.{
  teardown_and_mark, finish_failed, to_terminal, stop_and_remove, fail_with, finalize, prompt,
  resolve_ask, resolve_stored, of_option, resolve_given, resolve_finish_policy, prune, remove_there,
  after_remove, remove_known, teardown_project, worktree_remove, delete_tree, apply_policy,
  teardown_worktree, after_check, container_name, survivor_of, Survivor, gone, present, unknown,
  of_projects, from_projects, repo_path, or_else,
}

-- A teardown returns after it has published the terminal dict; or exits with status 1 after it has
-- published the failed dict; or raises and has published nothing.
pub data Outcome (status : Status) (reason : Option String)
    : Published → Result (Unit {0}) → Type 0 where
  finished :
      (ts : String) (d : TaskDict)
      → Outcome status reason ((d, to_terminal ts status reason d) ∷ []) (ok tt)
  failed :
      (ts why : String) (d : TaskDict)
      → Outcome status reason ((d, finish_failed ts why d) ∷ []) (err (system_exit 1))
  raised : (e : Exn) → Outcome status reason [] (err e)

ruleset silent =
    (Silent-pure, Silent-raise, Silent-call, Silent-look, Silent-bind, Silent-if, Silent-read_task)

abbrev Ending : Status → Option String → Published → Result (Unit {0}) → Type 0
Ending status reason = Ends (Outcome status reason)

raised_ends : (status : Status) (reason : Option String) (e : Exn) → Ending status reason [] (err e)
raised_ends status reason e = ends (raised e)

module _ {H : Host} where
  pub stop_and_remove-Silent : (c : Container ⊎ DockerError) → Silent (stop_and_remove {H = H} c)
  unfolding stop_and_remove
  stop_and_remove-Silent (inl c) = search silent
  stop_and_remove-Silent (inr e) = search silent

  prompt-Silent : (b : Bool) → Silent (prompt {H = H} b)
  unfolding prompt
  prompt-Silent true = search silent
  prompt-Silent false = search silent

  resolve_ask-Silent : (b : Bool) → Silent (resolve_ask {H = H} b)
  unfolding resolve_ask
  resolve_ask-Silent b = Silent-bind _ _ (Silent-look _) (λ tty. prompt-Silent (b && tty))

  resolve_stored-Silent : (b : Bool) (p : Option FinishPolicy) → Silent (resolve_stored {H = H} b p)
  unfolding resolve_stored
  resolve_stored-Silent b none = search silent
  resolve_stored-Silent b (some ask) = resolve_ask-Silent b
  resolve_stored-Silent b (some p) = search silent

  of_option-Silent : (p : Option FinishPolicy) → Silent (of_option {H = H} p)
  unfolding of_option
  of_option-Silent none = search silent
  of_option-Silent (some p) = search silent

  resolve_given-Silent :
      (g : Bool) (cli : Option FinishPolicy) (b : Bool) (stored : Option FinishPolicy)
      → Silent (resolve_given {H = H} g cli b stored)
  unfolding resolve_given
  resolve_given-Silent true cli b stored = of_option-Silent cli
  resolve_given-Silent false cli b stored = resolve_stored-Silent b stored

  remove_there-Silent : (repo tree : String) (b : Bool) → Silent (remove_there {H = H} repo tree b)
  unfolding remove_there
  remove_there-Silent repo tree true = search silent
  remove_there-Silent repo tree false = search silent

  prune-Silent : (repo : String) (f : Option (String × String)) → Silent (prune {H = H} repo f)
  unfolding prune
  prune-Silent repo none = search silent
  prune-Silent repo (some e) = search silent

  worktree_remove-Silent : (repo tree : String) → Silent (worktree_remove {H = H} repo tree)
  unfolding worktree_remove
  worktree_remove-Silent repo tree = search (silent, remove_there-Silent, prune-Silent)

  of_projects-Silent :
      (alias : String) (known : Result (List (String × String)))
      → Silent (of_projects {H = H} alias known)
  unfolding of_projects
  of_projects-Silent alias (ok map) = search silent
  of_projects-Silent alias (err file_not_found) = search silent
  of_projects-Silent alias (err unsupported_schema) = search silent
  of_projects-Silent alias (err (value_error msg)) = search silent
  of_projects-Silent alias (err (bind_mount_escape msg)) = search silent
  of_projects-Silent alias (err e) = search silent

  from_projects-Silent :
      (alias : String) (known : Result (List (String × String)))
      → Silent (from_projects {H = H} alias known)
  unfolding from_projects
  from_projects-Silent alias known = search (silent, of_projects-Silent)

  repo_path-Silent :
      (d : TaskDict) (known : Result (List (String × String))) → Silent (repo_path {H = H} d known)
  unfolding repo_path
  repo_path-Silent d known = Silent-if _ _ _ (from_projects-Silent _ known) (Silent-pure _)

  module _ (status : Status) (reason : Option String) where
    fail_with-Spec : (why : String) → Spec (Outcome status reason) (fail_with {H = H} why)
    unfolding fail_with update_task
    fail_with-Spec why = record { at = λ w. (_, refl, failed _ why _) }

    finalize-Spec : Spec (Outcome status reason) (finalize {H = H} status reason)
    unfolding finalize update_task
    finalize-Spec = record { at = λ w. (_, refl, finished _ _) }

    pure-Ending : Spec {H = H} (Ending status reason) (pure tt)
    pure-Ending = record { at = λ w. ([], sym (append-nil w.writes), goes_on) }

    fail_with-Ending : (why : String) → Spec (Ending status reason) (fail_with {H = H} why)
    unfolding fail_with update_task
    fail_with-Ending why = record { at = λ w. (_, refl, ends (failed _ why _)) }

    after_remove-Ending :
        (f : Option (String × String)) → Spec (Ending status reason) (after_remove {H = H} f)
    unfolding after_remove
    after_remove-Ending none = pure-Ending
    after_remove-Ending (some (message, stderr)) = fail_with-Ending _

    remove_known-Ending :
        (repo tree : String) (b : Bool)
        → Spec (Ending status reason) (remove_known {H = H} repo tree b)
    unfolding remove_known
    remove_known-Ending repo tree false = pure-Ending
    remove_known-Ending repo tree true =
        Spec-bind (Ending status reason) _ _ (worktree_remove-Silent repo tree)
          (raised_ends status reason) after_remove-Ending

    delete_tree-Ending : (d : TaskDict) → Spec (Ending status reason) (delete_tree {H = H} d)
    unfolding delete_tree
    delete_tree-Ending d =
        Spec-bind (Ending status reason) (look H.projects) _ (Silent-look _)
          (raised_ends status reason)
          (λ known.
            Spec-bind (Ending status reason) (repo_path d known) _ (repo_path-Silent d known)
              (raised_ends status reason)
              (λ repo.
                remove_known-Ending repo (or_else d.worktree_path "")
                  (not (str_eq repo "") && not (str_eq (or_else d.worktree_path "") ""))))

    apply_policy-Ending :
        (d : TaskDict) (p : FinishPolicy) → Spec (Ending status reason) (apply_policy {H = H} d p)
    unfolding apply_policy
    apply_policy-Ending d delete_worktree = delete_tree-Ending d
    apply_policy-Ending d _ = pure-Ending

    teardown_project-Ending :
        (d : TaskDict) (p : Option String) (a b : Bool)
        → Spec (Ending status reason) (teardown_project {H = H} d p a b)
    unfolding teardown_project resolve_finish_policy
    teardown_project-Ending d p a false = pure-Ending
    teardown_project-Ending d p a true =
        Spec-bind (Ending status reason) _ _ (resolve_given-Silent _ _ a _)
          (raised_ends status reason) (apply_policy-Ending d)

    after_check-Spec :
        (name : String) (d : TaskDict) (p : Option String) (a : Bool) (s : Survivor)
        → Spec (Outcome status reason) (after_check {H = H} name d status p a reason s)
    unfolding after_check teardown_worktree
    after_check-Spec name d p a (unknown exc) = fail_with-Spec _
    after_check-Spec name d p a (present state) = fail_with-Spec _
    after_check-Spec name d p a gone =
        Spec-bind {A = Unit {0}} _ (call (λ s. (tt, H.capture d s))) _ (Silent-call _) raised (λ _.
          Spec-then _ _ _ (teardown_project-Ending d p a (str_eq (get_or d.kind "") "project"))
            finalize-Spec)

    -- Whatever Docker, git and other processes do, a teardown publishes one dict and returns or
    -- exits with status 1, or publishes nothing and raises: as `Outcome` says.
    pub teardown_and_mark-Outcome :
        (task_id : String) (policy_override : Option String) (allow_prompt : Bool)
        → Spec
            (Outcome status reason)
            (teardown_and_mark {H = H} task_id status policy_override allow_prompt reason)
    unfolding teardown_and_mark
    teardown_and_mark-Outcome task_id p a = Spec-bind _ read_task _ Silent-read_task raised λ d.
        let name = get_or d.container_name (container_name task_id) in
        Spec-bind _ (call (H.get name)) _ (Silent-call _) raised λ before.
          Spec-bind _ (stop_and_remove before) _ (stop_and_remove-Silent before) raised λ _.
            Spec-bind _ (call (H.get name)) _ (Silent-call _) raised
              λ after. after_check-Spec name d p a (survivor_of after)
