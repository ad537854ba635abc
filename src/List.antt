-- ===== src/List.antt =====
-- src/naiw_tasks/naiw_tasks/list_cmd.py: `_reconcile_one`, which `naiw-tasks list` and `reap` run on
-- each task. The container is what `by_task_id` has for the id of the task.
pub mod Update
pub mod Swap
mod Reads
pub mod Planned
pub mod Ending
pub mod Rows
pub mod Progress
pub mod Signalled
pub mod Run
use neotolis_ai_workbench.Base.{
  ℕ, String, Bool, true, false, not, ◌&&◌, ◌||◌, Option, none, some, List, [], ◌∷◌, ◌⊎◌, inl, inr,
  get_or, ltb, str_eq, if◌then◌else◌,
}
use neotolis_ai_workbench.Model.{Status, TaskDict}
use neotolis_ai_workbench.Reconcile.{ComputedRow, compute_status}
use neotolis_ai_workbench.Tail.{Formats, Tailed, Malformed, tail_events}
use neotolis_ai_workbench.Effects.{
  Host, M, Exn, file_not_found, unsupported_schema, unexpected, system_exit, docker_error,
  DockerError, not_found, api, Container, Result, ok, err, ◌>>=◌, ◌>>◌, pure, raise, call, look,
  attempt,
}
use neotolis_ai_workbench.Store.{read_task, update_task, update_noting}
use neotolis_ai_workbench.Lifecycle.Teardown.{teardown_and_mark}
use Update.{
  Plan, Mode, Closing, nothing_pending, deferred, would_close, inline_teardown, closing,
  is_deferred, plan_of, notes_of, mutator, stale_state, latest_kind, auto_pending, closing_status,
  add_note, add_notes,
}

-- What `_reconcile_one` returns.
pub record Row : Type 0 where
  pub computed : ComputedRow
  pub ctr_state : String
  pub exit_code : Option ℕ
  pub reaped : ℕ
  pub would_reap : ℕ

-- The status and exit code of a reloaded container: the status is the one from before the reload.
pub reloaded : Option ℕ → String × Option ℕ
reloaded exit_code = ("exited", exit_code)

exit_code_if : String → Option ℕ → Option ℕ
exit_code_if status exit_code = if str_eq status "exited" then exit_code else none

is_missing : Option ℕ → Bool
is_missing none = true
is_missing (some n) = false

module _ {H : Host} where
  after_reload : Container ⊎ DockerError → M H (String × Option ℕ)
  unfolding reloaded
  after_reload (inl c) = pure (reloaded c.exit_code)
  after_reload (inr (not_found msg)) = pure ("notfound", none)
  after_reload (inr e) = raise (docker_error e)

  state_of : Container → Bool → M H (String × Option ℕ)
  unfolding after_reload exit_code_if
  state_of c false =
      let status = get_or c.status "notfound" in pure (status, exit_code_if status c.exit_code)
  state_of c true = do r ← call (H.reload c); after_reload r

  -- `_container_state`.
  pub container_state : Container → M H (String × Option ℕ)
  unfolding state_of is_missing
  container_state c =
      state_of c (str_eq (get_or c.status "notfound") "exited" && is_missing c.exit_code)

  unfoldable pub observe : Option Container → M H (String × Option ℕ)
  unfolding container_state
  observe none = pure ("notfound", none)
  observe (some c) = container_state c

  -- `_append_events_errors`.
  pub log_errors : Bool → List Malformed → M H Unit
  log_errors true (m ∷ malformed) = call (λ s. (tt, H.append_errors (m ∷ malformed) s))
  log_errors _ _ = pure tt

  -- `contextlib.suppress` around a read: the dict from before, where there is none to read.
  or_before : TaskDict → Result TaskDict → M H TaskDict
  or_before d (ok new) = pure new
  or_before d (err file_not_found) = pure d
  or_before d (err unsupported_schema) = pure d
  or_before d (err e) = raise e

  pub reread : TaskDict → M H TaskDict
  unfolding or_before
  reread d = do r ← attempt read_task; or_before d r

  -- The locked update, with whether the state was stale.
  pub persist : Bool → Plan → M H Bool
  persist true p = pure false
  persist false p = update_noting (mutator p) (stale_state p)

  pub tailed : Option Tailed → M H Tailed
  tailed none = raise unexpected
  tailed (some t) = pure t

  -- The second look at the container after a teardown that failed.
  probed : String × Option ℕ → Result (String × Option ℕ) → M H (String × Option ℕ)
  probed before (ok now) = pure now
  probed before (err (docker_error (not_found msg))) = pure ("notfound", none)
  probed before (err (docker_error (api code msg))) = pure before
  probed before (err e) = raise e

  reload_then_observe : Container ⊎ DockerError → M H (String × Option ℕ)
  unfolding container_state
  reload_then_observe (inl c) = container_state c
  reload_then_observe (inr e) = raise (docker_error e)

  reprobe : Option Container → String × Option ℕ → M H (String × Option ℕ)
  unfolding reload_then_observe probed
  reprobe none before = pure ("notfound", none)
  reprobe (some c) before = do
    r ← attempt (call (H.reload c) >>= reload_then_observe)
    probed before r

  -- Whether the teardown failed: SystemExit is caught, every other exception is not.
  pub teardown_failed : Result (Unit {0}) → M H Bool
  teardown_failed (ok u) = pure false
  teardown_failed (err (system_exit code)) = pure true
  teardown_failed (err e) = raise e

  finished_row : Plan → List String → TaskDict → String × Option ℕ → ℕ → M H Row
  finished_row p notes d ctr reaped =
      let computed = compute_status d ctr.0 ctr.1 none in
      pure (record {
        computed = record computed { notes = add_notes computed.notes notes };
        ctr_state = ctr.0;
        exit_code = ctr.1;
        reaped = reaped;
        would_reap = 0;
      })

  pub after_teardown :
      Option Container → Plan → List String → TaskDict → String × Option ℕ → Bool → M H Row
  unfolding reprobe finished_row
  after_teardown container p notes d ctr true = do
    ctr' ← reprobe container ctr
    finished_row p notes d ctr' 0
  after_teardown container p notes d ctr false = do
    d' ← update_task (λ e. ok (record e { events_offset = some p.new_offset }))
    finished_row p notes d' ("notfound", none) 1

  pub inline :
      String
      → Option Container
      → Plan
      → List String
      → TaskDict
      → String × Option ℕ
      → Option String
      → M H Row
  unfolding teardown_failed reread after_teardown
  inline task_id container p notes d ctr kind = do
    r ← attempt (teardown_and_mark task_id (closing_status kind) none false p.fail_reason)
    failed ← teardown_failed r
    d' ← reread d
    after_teardown container p notes d' ctr failed

  plain_row : ComputedRow → List String → String × Option ℕ → ℕ → M H Row
  plain_row computed notes ctr would_reap = pure (record {
    computed = record computed { notes = notes };
    ctr_state = ctr.0;
    exit_code = ctr.1;
    reaped = 0;
    would_reap = would_reap;
  })

  pending_row : Plan → List String → TaskDict → String × Option ℕ → ℕ → M H Row
  unfolding plain_row
  pending_row p notes d ctr would_reap =
      plain_row
        (record {
          status = get_or d.status p.computed.status;
          transitioned = false;
          notes = [];
          failure_reason = none;
        })
        (add_note "auto_finish pending" notes) ctr would_reap

  -- From the locked update on, with the state not stale.
  pub current :
      String
      → Option Container
      → Plan
      → List String
      → TaskDict
      → String × Option ℕ
      → Option String
      → Closing
      → M H Row
  unfolding inline plain_row pending_row
  current task_id container p notes d ctr kind nothing_pending = plain_row p.computed notes ctr 0
  current task_id container p notes d ctr kind deferred = pending_row p notes d ctr 0
  current task_id container p notes d ctr kind would_close = pending_row p notes d ctr 1
  current task_id container p notes d ctr kind inline_teardown =
      inline task_id container p notes d ctr kind

  pub stale_row : TaskDict → String × Option ℕ → M H Row
  unfolding reread
  stale_row d ctr = do
    d' ← reread d
    pure (record {
      computed = compute_status d' ctr.0 ctr.1 none;
      ctr_state = ctr.0;
      exit_code = ctr.1;
      reaped = 0;
      would_reap = 0;
    })

  pub after_update :
      String
      → Option Container
      → Plan
      → List String
      → TaskDict
      → String × Option ℕ
      → Option String
      → Closing
      → Bool
      → M H Row
  unfolding stale_row current
  after_update task_id container p notes d ctr kind c true = stale_row d ctr
  after_update task_id container p notes d ctr kind c false =
      current task_id container p notes d ctr kind c

  unfoldable pub reconcile_one : Formats → String → TaskDict → Option Container → Mode → M H Row
  unfolding observe tailed log_errors persist after_update plan_of notes_of
  reconcile_one F task_id d container m = do
    ctr ← observe container
    journal ← look H.journal
    t ← tailed (tail_events F journal.0 journal.1 (get_or d.events_offset 0))
    let kind = latest_kind t.valid
    let computed = compute_status d ctr.0 ctr.1 kind
    size ← look (λ s. get_or (H.log_size s) 0)
    let c = closing (auto_pending d kind) m
    log_errors (not (is_deferred c || m.dry_run)) t.malformed
    ts_now ← call H.now
    let p = plan_of d t size computed c ts_now
    stale ← persist m.dry_run p
    after_update task_id container p (notes_of d size computed) d ctr kind c stale
