-- ===== src/List/Run/Histories.antt =====
-- What `list` and `reap` publish, over all tasks.
use mathlib.Core.Path.{subst}
use neotolis_ai_workbench.Base.{
  [], ◌≡◌, refl, sym, ◌∙◌, String, true, Option, none, some, List, ◌∷◌, get_or, All,
}
use neotolis_ai_workbench.Model.{TaskDict}
use neotolis_ai_workbench.Tail.{Formats}
use neotolis_ai_workbench.Effects.{
  Host, World, M, Exn, Container, Result, ok, err, ◌>>=◌, continue, pure,
}
use neotolis_ai_workbench.Effects.Rules.{Published, Silent, Silent-bind, Silent-pure}
use neotolis_ai_workbench.Clean.Candidates.{Entry}
use neotolis_ai_workbench.List.Update.{Mode}
use neotolis_ai_workbench.List.Planned.{Listed, read_only, broken, updated, kept_open, closed}
use neotolis_ai_workbench.List.Ending.{reconcile_one-Listed}
use neotolis_ai_workbench.List.Rows.{ListRequest}
use neotolis_ai_workbench.List.{Row, reread, reconcile_one}
use neotolis_ai_workbench.List.Reads.{reread-Silent}
use neotolis_ai_workbench.List.Run.Label.{Theirs, by_task_id-Theirs}
use neotolis_ai_workbench.List.Run.{
  enumerate_tasks, by_task_id, Listing, collected, displayed, one_task, loop, run,
}

-- The exception that a run ends with.
pub error_of {ℓ} : {A : Type ℓ} → Result A → Option Exn
error_of (ok a) = none
error_of (err e) = some e

module _ (H : Host) (F : Formats) (m : Mode) (managed : List (Option String × Container)) where
  abbrev fresh : TaskDict → H.State → World H
  fresh d s = record { task = some d; writes = []; host = s }

  -- What was published in the task.json of a task: by one `_reconcile_one`, of that task by its id, with
  -- its container, and as `Listed` says.
  pub record OfOne (task : String × TaskDict) (history : TaskDict × Published) : Type 0 where
    pub same : history.0 ≡ task.1
    pub container : Option Container
    pub theirs : Theirs managed (get_or task.1.id task.0) container
    pub state : H.State
    pub wrote :
        history.1
        ≡ (reconcile_one F
            (get_or task.1.id task.0)
            task.1
            container
            m
            (fresh task.1 state)).1.writes
    pub listed :
        Listed H F task.1 m history.1
          (reconcile_one F (get_or task.1.id task.0) task.1 container m (fresh task.1 state)).0

  -- One history for each task, in order; after an exception, for none that follows.
  pub data Rounds
      : List (String × TaskDict) → Option Exn → List (TaskDict × Published) → Type 0 where
    no_more : Rounds [] none []
    round :
        {task : String × TaskDict} {tasks : List (String × TaskDict)} {o : Option Exn}
        {h : TaskDict × Published} {hs : List (TaskDict × Published)}
        → OfOne task h
        → Rounds tasks o hs
        → Rounds (task ∷ tasks) o (h ∷ hs)
    stopped :
        {task : String × TaskDict} {tasks : List (String × TaskDict)} {h : TaskDict × Published}
        (e : Exn)
        → OfOne task h
        → Rounds (task ∷ tasks) (some e) (h ∷ [])

  continue-writes :
      {A B : Type 0} (r : Result A) (w : World H) (k : A → M H B)
      → ((a : A) → Silent (k a))
      → (continue r k w).1.writes ≡ w.writes
  continue-writes (ok a) w k s = (s a).at w
  continue-writes (err e) w k s = refl

  one_task-OfOne :
      (name : String) (d : TaskDict) (s : H.State)
      → OfOne (name, d) (d, (one_task H F m managed name d (fresh d s)).1.writes)
  unfolding one_task
  one_task-OfOne name d s =
      let task_id = get_or d.id name in
      let container = by_task_id managed task_id in
      let (r, w) = reconcile_one F task_id d container m (fresh d s) in
      let (new, e, h) = (reconcile_one-Listed {H = H} task_id d container m F).at (fresh d s) in
      let k =
        continue-writes r w (λ row. reread d >>= λ d'. pure (d', row))
          (λ row.
            Silent-bind (reread d) (λ d'. pure (d', row)) (reread-Silent d)
              (λ d'. Silent-pure (d', row))) in
      record {
        same = refl;
        container = container;
        theirs = by_task_id-Theirs managed task_id;
        state = s;
        wrote = k;
        listed = subst (λ (l : Published). Listed H F d m l r) (sym (k ∙ e)) h;
      }

  error_of-collected :
      (a : TaskDict × Row) (l : Result Listing) → error_of (collected (ok a) l) ≡ error_of l
  unfolding collected error_of
  error_of-collected (d, row) (ok l) = refl
  error_of-collected (d, row) (err e) = refl

  loop-Rounds :
      (tasks : List (String × TaskDict)) (s : H.State)
      → Rounds tasks (error_of (loop H F m managed tasks s).0) (loop H F m managed tasks s).1
  unfolding loop error_of collected
  loop-Rounds [] s = no_more
  loop-Rounds ((name, d) ∷ tasks) s =
      let w = (one_task H F m managed name d (fresh d s)).1 in
      ended (loop H F m managed tasks w.host).0 (one_task H F m managed name d (fresh d s)).0
        (one_task-OfOne name d s) (loop-Rounds tasks w.host)
    where
      ended :
          {h : TaskDict × Published} {hs : List (TaskDict × Published)} (l : Result Listing)
          (r : Result (TaskDict × Row))
          → OfOne (name, d) h
          → Rounds tasks (error_of l) hs
          → Rounds
              ((name, d) ∷ tasks)
              (error_of (collected r l))
              (h ∷ elim r [ ok a ↦ hs | err e ↦ [] ])
      ended l (ok a) one rest = rw (error_of-collected a l) (round one rest)
      ended l (err e) one rest = stopped e one

  error_of-displayed :
      (q : ListRequest) (l : Result Listing) → error_of (displayed q l) ≡ error_of l
  unfolding displayed error_of
  error_of-displayed q (ok l) = refl
  error_of-displayed q (err e) = refl

  -- A run of `list` or `reap`, whatever Docker, git and other processes do. It comes to the
  -- tasks that `_enumerate_tasks` gives in their order, to all of them if it returns, and to
  -- none after an exception. What it publishes in the task.json of a task is what one
  -- `_reconcile_one` publishes that is given the id and the dict of that task, and the last
  -- container with that id in its label, if there is one; and it is one of the ways of
  -- `Listed`, for the plan made from the journal of the task.
  pub run-Rounds :
      (q : ListRequest) (entries : List Entry) (s : H.State)
      → Rounds
          (enumerate_tasks entries)
          (error_of (run H F m managed q entries s).0)
          (run H F m managed q entries s).1
  unfolding run
  run-Rounds q entries s =
      rw (error_of-displayed q (loop H F m managed (enumerate_tasks entries) s).0)
        (loop-Rounds (enumerate_tasks entries) s)

  -- What holds of every history that `Listed` allows.
  pub Rounds-All :
      (P : TaskDict × Published → Type 0) {tasks : List (String × TaskDict)} {o : Option Exn}
      {hs : List (TaskDict × Published)}
      → ((d d' : TaskDict) (new : Published) (r : Result Row) → Listed H F d m new r → P (d', new))
      → Rounds tasks o hs
      → All P hs
  Rounds-All P f no_more = tt
  Rounds-All P f (round one rest) = (f _ _ _ _ one.listed, Rounds-All P f rest)
  Rounds-All P f (stopped e one) = (f _ _ _ _ one.listed, tt)

  Listed-dry :
      (d : TaskDict) (new : Published) (r : Result Row)
      → m.dry_run ≡ true
      → Listed H F d m new r
      → new ≡ []
  Listed-dry d new r dry (read_only r' k) = refl
  Listed-dry d new r dry (broken e) = refl
  Listed-dry d new r dry (updated p k o n r' live a b) = absurd (cc (dry, live))
  Listed-dry d new r dry (kept_open p k o n e ts why r' live a b c g i) = absurd (cc (dry, live))
  Listed-dry d new r dry (closed p k o n e f ts row live a b c g i j) = absurd (cc (dry, live))

  -- A dry run publishes nothing, in no task.json.
  pub run-dry :
      (q : ListRequest) (entries : List Entry) (s : H.State)
      → m.dry_run ≡ true
      → All (λ h. h.1 ≡ []) (run H F m managed q entries s).1
  run-dry q entries s dry =
      Rounds-All (λ h. h.1 ≡ []) (λ d d' new r l. Listed-dry d new r dry l) (run-Rounds q entries s)
