-- ===== src/List/Reads.antt =====
-- The parts of `_reconcile_one` that publish nothing.
use mathlib.Core.List.{append-nil}
use neotolis_ai_workbench.Base.{
  ℕ, ◌≡◌, refl, sym, ◌∙◌, String, Bool, true, false, ◌&&◌, Option, none, some, List, [], ◌∷◌, ◌++◌,
  ◌⊎◌, inl, inr, get_or, str_eq, Bool-cases,
}
use neotolis_ai_workbench.Model.{TaskDict}
use neotolis_ai_workbench.Reconcile.{ComputedRow}
use neotolis_ai_workbench.Tail.{Tailed, Malformed}
use neotolis_ai_workbench.Effects.{
  Host, World, file_not_found, unsupported_schema, system_exit, docker_error, DockerError,
  not_found, api, Container, Result, ok, err,
}
use neotolis_ai_workbench.Effects.Rules.{
  Published, Silent, Spec, Spec-bind, Spec-seq, Spec-call, Spec-Silent, Spec-now, Silent-pure,
  Silent-raise, Silent-call, Silent-look, Silent-bind, Silent-attempt,
}
use neotolis_ai_workbench.Store.{check_schema, is_supported, read_task}
use neotolis_ai_workbench.Store.Rules.{Silent-read_task, Spec-noting}
use neotolis_ai_workbench.List.Update.{
  Plan, Closing, nothing_pending, deferred, would_close, inline_teardown,
}
use neotolis_ai_workbench.List.{
  after_reload, state_of, container_state, observe, log_errors, or_before, reread, tailed, probed,
  reload_then_observe, reprobe, is_missing, teardown_failed, finished_row, after_teardown,
  plain_row, pending_row, current, stale_row, after_update,
}

pub ruleset silent = (
  Silent-pure, Silent-raise, Silent-call, Silent-look, Silent-bind, Silent-attempt,
  Silent-read_task,
)

module _ {H : Host} where
  after_reload-Silent : (r : Container ⊎ DockerError) → Silent (after_reload {H = H} r)
  unfolding after_reload
  after_reload-Silent (inl c) = search silent
  after_reload-Silent (inr (not_found msg)) = search silent
  after_reload-Silent (inr (api code msg)) = search silent

  state_of-Silent : (c : Container) (b : Bool) → Silent (state_of {H = H} c b)
  unfolding state_of
  state_of-Silent c false = search silent
  state_of-Silent c true = search (silent, after_reload-Silent)

  container_state-Silent : (c : Container) → Silent (container_state {H = H} c)
  unfolding container_state
  container_state-Silent c =
      state_of-Silent c (str_eq (get_or c.status "notfound") "exited" && is_missing c.exit_code)

  pub observe-Silent : (c : Option Container) → Silent (observe {H = H} c)
  unfolding observe
  observe-Silent none = search silent
  observe-Silent (some c) = container_state-Silent c

  pub log_errors-Silent : (b : Bool) (l : List Malformed) → Silent (log_errors {H = H} b l)
  unfolding log_errors
  log_errors-Silent true (m ∷ l) = Silent-call _
  log_errors-Silent true [] = search silent
  log_errors-Silent false l = search silent

  or_before-Silent : (d : TaskDict) (r : Result TaskDict) → Silent (or_before {H = H} d r)
  unfolding or_before
  or_before-Silent d (ok new) = search silent
  or_before-Silent d (err file_not_found) = search silent
  or_before-Silent d (err unsupported_schema) = search silent
  or_before-Silent d (err e) = search silent

  pub reread-Silent : (d : TaskDict) → Silent (reread {H = H} d)
  unfolding reread
  reread-Silent d = search (silent, or_before-Silent)

  pub tailed-Silent : (t : Option Tailed) → Silent (tailed {H = H} t)
  unfolding tailed
  tailed-Silent none = search silent
  tailed-Silent (some t) = search silent

  probed-Silent :
      (b : String × Option ℕ) (r : Result (String × Option ℕ)) → Silent (probed {H = H} b r)
  unfolding probed
  probed-Silent b (ok now) = search silent
  probed-Silent b (err (docker_error (not_found msg))) = search silent
  probed-Silent b (err (docker_error (api code msg))) = search silent
  probed-Silent b (err e) = search silent

  reload_then_observe-Silent :
      (r : Container ⊎ DockerError) → Silent (reload_then_observe {H = H} r)
  unfolding reload_then_observe
  reload_then_observe-Silent (inl c) = container_state-Silent c
  reload_then_observe-Silent (inr e) = search silent

  reprobe-Silent : (c : Option Container) (b : String × Option ℕ) → Silent (reprobe {H = H} c b)
  unfolding reprobe
  reprobe-Silent none b = search silent
  reprobe-Silent (some c) b = search (silent, reload_then_observe-Silent, probed-Silent)

  pub teardown_failed-Silent : (r : Result (Unit {0})) → Silent (teardown_failed {H = H} r)
  unfolding teardown_failed
  teardown_failed-Silent (ok u) = search silent
  teardown_failed-Silent (err (system_exit code)) = search silent
  teardown_failed-Silent (err e) = search silent

  pub stale_row-Silent : (d : TaskDict) (ctr : String × Option ℕ) → Silent (stale_row {H = H} d ctr)
  unfolding stale_row
  stale_row-Silent d ctr = search (silent, reread-Silent)

  plain_row-Silent :
      (r : ComputedRow) (notes : List String) (ctr : String × Option ℕ) (n : ℕ)
      → Silent (plain_row {H = H} r notes ctr n)
  unfolding plain_row
  plain_row-Silent r notes ctr n = search silent

  pending_row-Silent :
      (p : Plan) (notes : List String) (d : TaskDict) (ctr : String × Option ℕ) (n : ℕ)
      → Silent (pending_row {H = H} p notes d ctr n)
  unfolding pending_row plain_row
  pending_row-Silent p notes d ctr n = search silent

  -- Without a teardown, nothing is published after the locked update.
  pub after_update-Silent :
      (task_id : String) (container : Option Container) (p : Plan) (notes : List String)
      (d : TaskDict) (ctr : String × Option ℕ) (kind : Option String) (c : Closing) (stale : Bool)
      → (c ≡ inline_teardown → stale ≡ true)
      → Silent (after_update {H = H} task_id container p notes d ctr kind c stale)
  unfolding after_update current
  after_update-Silent i co p notes d ctr kind c true h = stale_row-Silent d ctr
  after_update-Silent i co p notes d ctr kind nothing_pending false h =
      plain_row-Silent p.computed notes ctr 0
  after_update-Silent i co p notes d ctr kind deferred false h = pending_row-Silent p notes d ctr 0
  after_update-Silent i co p notes d ctr kind would_close false h =
      pending_row-Silent p notes d ctr 1
  after_update-Silent i co p notes d ctr kind inline_teardown false h = absurd (cc (h refl))

  pub after_failure-Silent :
      (container : Option Container) (p : Plan) (notes : List String) (d : TaskDict)
      (ctr : String × Option ℕ)
      → Silent (after_teardown {H = H} container p notes d ctr true)
  unfolding after_teardown finished_row
  after_failure-Silent co p notes d ctr = search (silent, reprobe-Silent)

-- Nothing published, and a result.
abbrev pub Quiet : {A : Type 0} → Published → Result A → Type 0
Quiet new (ok a) = new ≡ []
Quiet new (err e) = ⊥

check_schema-cases :
    (t : Option TaskDict)
    → ((d : TaskDict) × (check_schema t ≡ ok d))
      ⊎ (check_schema t ≡ err file_not_found)
      ⊎ (check_schema t ≡ err unsupported_schema)
unfolding check_schema
check_schema-cases none = inr (inl refl)
check_schema-cases (some d) = elim (Bool-cases (is_supported d.schema_version)) [
  | inl e ↦ inl (d, rw e)
  | inr n ↦ inr (inr (rw n))
]

module _ {H : Host} where
  or_before-Quiet :
      (d : TaskDict) (r : Result TaskDict) (w w' : World H)
      → ((d' : TaskDict) × (r ≡ ok d')) ⊎ (r ≡ err file_not_found) ⊎ (r ≡ err unsupported_schema)
      → w'.writes ≡ w.writes
      → (new : Published) × ((or_before {H = H} d r w').1.writes ≡ w.writes ++ new)
        × Quiet new (or_before {H = H} d r w').0
  unfolding or_before
  or_before-Quiet d r w w' (inl (d', e)) p = rw e ([], p ∙ sym (append-nil w.writes), refl)
  or_before-Quiet d r w w' (inr (inl e)) p = rw e ([], p ∙ sym (append-nil w.writes), refl)
  or_before-Quiet d r w w' (inr (inr e)) p = rw e ([], p ∙ sym (append-nil w.writes), refl)

  -- A read with its errors suppressed returns.
  pub reread-Quiet : (d : TaskDict) → Spec Quiet (reread {H = H} d)
  unfolding reread read_task
  reread-Quiet d = record {
    at = λ w.
        let (t, h) = H.interleave w.task w.host in
        or_before-Quiet d (check_schema t) w (record { task = t; writes = w.writes; host = h })
          (check_schema-cases t) refl;
  }
