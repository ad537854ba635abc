-- ===== src/Lifecycle/Finish/Ending.antt =====
-- How a `finish` ends.
use neotolis_ai_workbench.Base.{
  ◌≡◌, refl, sym, ap, ◌∙◌, String, Bool, true, false, not, ◌&&◌, Option, none, some, [], inl, inr,
  get_or,
}
use neotolis_ai_workbench.Model.{Status, completed, status_str, status_of_str, TaskDict}
use mathlib.Core.Option.{some-injective}
use neotolis_ai_workbench.Model.Names.{
  name-cases, status_of_str-status_str, status_of_str_of_Unnamed,
}
use neotolis_ai_workbench.Effects.{Host, Exn, Result, ok, err, call}
use neotolis_ai_workbench.Effects.Rules.{
  Published, Spec, Spec-bind, Spec-now, Spec-weaken, Silent-call,
}
use neotolis_ai_workbench.Lifecycle.Teardown.{container_name}
use neotolis_ai_workbench.Lifecycle.Teardown.Outcome.{Outcome, teardown_and_mark-Outcome}
use neotolis_ai_workbench.Lifecycle.Finish.{
  is_final, is_present, is_given, final_status, tear_down, after_probe, probe, finish_or_probe,
  finish_task,
}

-- The ways a finish of a task with the dict `d` ends.
pub data Finished (d : TaskDict) (policy : Option String) (force : Bool)
    : Published → Result (Unit {0}) → Type 0 where
  -- The short-circuit.
  nothing_to_do :
      is_final d ≡ true → force ≡ false → policy ≡ none → Finished d policy force [] (ok tt)
  -- A teardown that keeps a final status, and gives every other task the status completed.
  torn_down :
      (status : Status) {new : Published} {r : Result (Unit {0})}
      → (is_final d ≡ true → d.status ≡ some (status_str status))
      → (is_final d ≡ false → status ≡ completed)
      → Outcome status none new r
      → Finished d policy force new r
  raised : (e : Exn) → Finished d policy force [] (err e)

named_status : (s : String) (st : Status) → status_of_str s ≡ some st → s ≡ status_str st
named_status s st h = elim (name-cases s) [
  | inl (st', e) ↦
      e
      ∙ ap status_str
          (some-injective _ _ (sym (status_of_str-status_str st') ∙ ap status_of_str (sym e) ∙ h))
  | inr u ↦ absurd (cc (status_of_str_of_Unnamed s u, h))
]

kept :
    (d : TaskDict) (s : Option String) (st : Status)
    → d.status ≡ s
    → final_status d ≡ some st
    → is_final d ≡ true
    → d.status ≡ some (status_str st)
unfolding final_status
kept d none st e h f = absurd (cc (rw e at f))
kept d (some s) st e h f = e ∙ ap some (named_status s st (rw e at (rw f at h)))

fresh :
    (d : TaskDict) (st : Status) → final_status d ≡ some st → is_final d ≡ false → st ≡ completed
unfolding final_status
fresh d st h f = sym (some-injective _ _ (rw f at h))

module _ {H : Host} (task_id : String) (policy : Option String) (force : Bool) (d : TaskDict) where
  tear_down-Spec :
      (o : Option Status)
      → final_status d ≡ o
      → Spec (Finished d policy force) (tear_down {H = H} task_id policy o)
  unfolding tear_down
  tear_down-Spec none e = Spec-now _ _ (raised _)
  tear_down-Spec (some st) e =
      Spec-weaken (Outcome st none) (Finished d policy force) _
        (λ new r. torn_down st (kept d d.status st refl e) (fresh d st e))
        (teardown_and_mark-Outcome st none task_id policy true)

  after_probe-Spec :
      (b : Bool)
      → is_final d ≡ true
      → force ≡ false
      → policy ≡ none
      → Spec (Finished d policy force) (after_probe {H = H} task_id policy d b)
  unfolding after_probe
  after_probe-Spec false f n p = Spec-now _ _ (nothing_to_do f n p)
  after_probe-Spec true f n p = tear_down-Spec (final_status d) refl

  finish_or_probe-Spec :
      (b : Bool)
      → (b ≡ true → (is_final d ≡ true) × (force ≡ false) × (policy ≡ none))
      → Spec (Finished d policy force) (finish_or_probe {H = H} b task_id policy d)
  unfolding finish_or_probe probe
  finish_or_probe-Spec true h =
      Spec-bind _ (call (H.get (get_or d.container_name (container_name task_id)))) _
        (Silent-call _) raised
        (λ c. let (f, n, p) = h refl in after_probe-Spec (is_present c) f n p)
  finish_or_probe-Spec false h = tear_down-Spec (final_status d) refl

short_circuit :
    (f force : Bool) (policy : Option String)
    → f && not force && not (is_given policy) ≡ true
    → (f ≡ true) × (force ≡ false) × (policy ≡ none)
unfolding is_given
short_circuit true false none h = (refl, refl, refl)
short_circuit true false (some p) h = cc h
short_circuit true true p h = cc h
short_circuit false force p h = cc h

-- From the dict on that `finish` has read, whatever Docker, git and other processes do: it returns
-- with nothing published only for a final status, with no force and no policy given; or it is a
-- teardown, which ends as `Outcome` says, keeps a final status and makes every other one completed;
-- or it raises with nothing published.
pub finish_task-Finished :
    {H : Host} (task_id : String) (policy : Option String) (force : Bool) (d : TaskDict)
    → Spec (Finished d policy force) (finish_task {H = H} task_id policy force d)
unfolding finish_task
finish_task-Finished task_id policy force d =
    finish_or_probe-Spec task_id policy force d (is_final d && not force && not (is_given policy))
      (short_circuit (is_final d) force policy)
