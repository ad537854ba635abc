-- ===== src/Tests/Status.antt =====
-- Runs of src/naiw_tasks/naiw_tasks/reconcile.py and model.py.
use neotolis_ai_workbench.Base.{◌≡◌, ◌≢◌, ◌↔◌, refl, String, true, false, none, some}
use neotolis_ai_workbench.Model.{running, TaskDict, empty_dict}
use neotolis_ai_workbench.Reconcile.{compute_status}
use neotolis_ai_workbench.Reconcile.Laws.{
  Follows, compute_status-Follows, compute_status-transitioned,
}
use neotolis_ai_workbench.Reconcile.Stable.{compute_status_stable}

abbrev stored : String → TaskDict
stored s = record empty_dict { status = some s }

compute_status-Follows_example :
    Follows running (compute_status (stored "running") "exited" (some 1) none)
compute_status-Follows_example =
    compute_status-Follows running (stored "running") "exited" (some 1) none refl

compute_status-transitioned_example :
    let r = compute_status (stored "running") "paused" none none in
    (r.transitioned ≡ true) ↔ (r.status ≢ "running")
compute_status-transitioned_example =
    compute_status-transitioned (stored "running") "paused" none none

compute_status_stable_example :
    (compute_status
      (stored (compute_status (stored "waiting_for_user") "exited" (some 0) none).status)
      "exited"
      (some 0)
      none).transitioned
    ≡ false
compute_status_stable_example =
    compute_status_stable (stored "waiting_for_user") "exited" (some 0) none
