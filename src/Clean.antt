-- ===== src/Clean.antt =====
-- src/naiw_tasks/naiw_tasks/clean.py: removing old finished tasks, and containers with no task. A
-- directory whose removal fails counts as still there.
pub mod Candidates
mod Rounds
pub mod Steps
pub mod Sweep
pub mod Removal
use Prim.Native.String
use Prim.Native.String.{String}
use neotolis_ai_workbench.Base.{
  ℕ, ◌+◌, Bool, true, false, not, ◌&&◌, Option, List, [], ◌∷◌, ◌==◌, str_eq, one_of, if◌then◌else◌,
}
use neotolis_ai_workbench.Lifecycle.Teardown.{or_else}
use neotolis_ai_workbench.Clean.Candidates.{Entry, Candidate, Clock, enumerate_candidates}

pub record Managed : Type 0 where
  pub name : String
  pub task_id : Option String
  pub status : Option String

pub names : List Entry → List String
names [] = []
names (e ∷ entries) = e.name ∷ names entries

-- A container with a task id whose folder is missing. The label is taken to be one name, as those are that
-- `start` sets.
unfoldable pub is_orphan : List Entry → Managed → Bool
unfolding names
is_orphan entries c =
    let tid = or_else c.task_id "" in not (str_eq tid "") && not (one_of tid (names entries))

keep : (Managed → Bool) → List Managed → List Managed
keep p [] = []
keep p (c ∷ cs) = let rest = keep p cs in if p c then c ∷ rest else rest

-- `_enumerate_orphans`, of the containers that there are; `false`: there is no client, or its listing of
-- them fails.
unfoldable pub enumerate_orphans : List Entry → Bool → List Managed → List Managed
unfolding keep is_orphan
enumerate_orphans entries false managed = []
enumerate_orphans entries true managed = keep (is_orphan entries) managed

-- Tasks, containers, and the repositories in which `git worktree prune` was called.
pub record Namespace : Type 0 where
  pub entries : List Entry
  pub managed : List Managed
  pub pruned : List String

-- Which removals succeed, what the operator answers, whether each of the two listings of the containers
-- works, and which repositories exist.
pub record Outcomes : Type 0 where
  pub first_listing : Bool
  pub final_listing : Bool
  pub repo_exists : String → Bool
  pub rmtree : String → Bool
  pub remove : Managed → Bool
  pub confirm : Bool

without {ℓ} : {A : Type ℓ} → (A → String) → String → List A → List A
without name_of name [] = []
without name_of name (x ∷ xs) =
    let rest = without name_of name xs in if str_eq (name_of x) name then rest else x ∷ rest

-- `git_ops.worktree_prune`; an OSError of the call is logged.
worktree_prune : Outcomes → String → List String → List String
worktree_prune O repo pruned = if O.repo_exists repo then repo ∷ pruned else pruned

prune_of : Outcomes → Candidate → List String → List String
unfolding worktree_prune
prune_of O c pruned =
    let repo = or_else c.project_repo_path "" in
    let after = worktree_prune O repo pruned in
    if str_eq c.kind "project" && not (str_eq repo "") then after else pruned

-- A `for` loop that changes a state.
unfoldable pub each {ℓ κ} : {A : Type ℓ} {S : Type κ} → (A → S → S) → List A → S → S
each f [] s = s
each f (x ∷ xs) s = each f xs (f x s)

-- One candidate, with the number of failures.
unfoldable pub remove_task : Outcomes → Candidate → Namespace × ℕ → Namespace × ℕ
unfolding without prune_of
remove_task O c (n, failures) =
    if O.rmtree c.task_id
    then (
      record n {
        entries = without (λ e. e.name) c.task_id n.entries;
        pruned = prune_of O c n.pruned;
      },
      failures,
    )
    else (n, failures + 1)

-- One orphan.
unfoldable pub remove_orphan : Outcomes → Managed → Namespace × ℕ → Namespace × ℕ
unfolding without
remove_orphan O c (n, failures) =
    if O.remove c
    then (record n { managed = without (λ c. c.name) c.name n.managed }, failures)
    else (n, failures + 1)

unfoldable pub prune_orphans : Outcomes → Namespace × ℕ → Namespace × ℕ
unfolding each remove_orphan enumerate_orphans
prune_orphans O (n, failures) =
    each (remove_orphan O) (enumerate_orphans n.entries O.final_listing n.managed) (n, failures)

unfoldable pub exit_code : Namespace × ℕ → Namespace × ℕ
exit_code (n, failures) = (n, if failures == 0 then 0 else 1)

unfoldable pub nothing_to_do : List Candidate → List Managed → Bool
nothing_to_do [] [] = true
nothing_to_do cs os = false

-- The namespace afterwards, and the exit code.
unfoldable pub run : Clock → Outcomes → ℕ → Bool → Bool → Namespace → Namespace × ℕ
unfolding nothing_to_do remove_task each prune_orphans exit_code
run K O older_than dry_run skip_prompt n =
    let candidates = enumerate_candidates K older_than n.entries in
    if nothing_to_do candidates (enumerate_orphans n.entries O.first_listing n.managed)
    then (n, 0)
    else if dry_run
    then (n, 0)
    else if not skip_prompt && not O.confirm
    then (n, 0)
    else exit_code (prune_orphans O (each (remove_task O) candidates (n, 0)))
