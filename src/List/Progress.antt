-- ===== src/List/Progress.antt =====
-- A closing event is consumed: with nobody else at work, one `list` writes its status.
use neotolis_ai_workbench.Base.{
  ℕ, ◌≡◌, ◌≢◌, refl, sym, ◌∙◌, String, Bool, true, false, Option, none, some, List, [], ◌∷◌, inl,
  inr, get_or, str_eq, ◌==◌, Bool-cases, str-cases, eq_iff, arith,
}
use neotolis_ai_workbench.Model.{
  Status, status_str, completed, failed, created, running, waiting_for_user, TaskDict,
}
use neotolis_ai_workbench.Reconcile.{ComputedRow, compute_status}
use neotolis_ai_workbench.Reconcile.Laws.{is_live, terminal_event_wins, compute_status-transitioned}
use neotolis_ai_workbench.Tail.{Formats, Tailed, Malformed, tail_events}
use neotolis_ai_workbench.Effects.{Host, World, M, Container, Result, ok, ◌>>=◌, call}
use neotolis_ai_workbench.Store.{update_noting, lock}
use neotolis_ai_workbench.List.Update.{
  Plan, Mode, Closing, nothing_pending, closing, plan_of, notes_of, mutator, stale_state,
  transition, latest_kind, auto_pending, is_closing, closing_status, is_deferred,
}
use neotolis_ai_workbench.List.{
  Row, observe, log_errors, tailed, persist, after_update, current, plain_row, reconcile_one,
}

-- No other process touches task.json, and nothing happens while the lock is taken.
pub record Quiet (H : Host) : Type 0 where
  pub alone : (t : Option TaskDict) (s : H.State) → H.interleave t s ≡ (t, s)

closing_status-computed :
    (st : Status) (d : TaskDict) (c : String) (x : Option ℕ) (kind : Option String)
    → d.status ≡ some (status_str st)
    → is_live st ≡ true
    → is_closing kind ≡ true
    → (compute_status d c x kind).status ≡ status_str (closing_status kind)
unfolding is_closing closing_status
closing_status-computed st d c x none e l h = cc h
closing_status-computed st d c x (some kind) e l h =
    let (done, fail) = terminal_event_wins st d c x e l in
    elim (str-cases kind "done") [
      | inl q ↦ rw q done
      | inr n ↦ elim (str-cases kind "fail") [ inl q ↦ rw q fail | inr m ↦ cc (rw (n, m) at h) ]
    ]

live-ne :
    (st : Status)
    → is_live st ≡ true
    → (status_str completed ≢ status_str st) × (status_str failed ≢ status_str st)
live-ne created l = (λ h. cc h, λ h. cc h)
live-ne running l = (λ h. cc h, λ h. cc h)
live-ne waiting_for_user l = (λ h. cc h, λ h. cc h)
live-ne _ l = cc l

closing_status-ne :
    (st : Status) (kind : Option String)
    → is_live st ≡ true
    → status_str (closing_status kind) ≢ status_str st
unfolding closing_status
closing_status-ne st none l = (live-ne st l).1
closing_status-ne st (some kind) l = elim (Bool-cases (str_eq kind "done")) [
  | inl e ↦ rw e (live-ne st l).0
  | inr e ↦ rw e (live-ne st l).1
]

module _ {H : Host} where
  log_errors-ok :
      (b : Bool) (l : List Malformed) (w : World H)
      → (s : H.State) × (log_errors b l w ≡ (ok tt, record w { host = s }))
  unfolding log_errors
  log_errors-ok true [] w = (w.host, refl)
  log_errors-ok true (m ∷ l) w = (_, refl)
  log_errors-ok false l w = (w.host, refl)

  persist-fresh :
      (q : Quiet H) (p : Plan) (d : TaskDict) (w : World H)
      → w.task ≡ some d
      → stale_state p d ≡ false
      → (w' : World H) × (persist false p w ≡ (ok false, w')) × (w'.task ≡ some (mutator p d))
  unfolding persist update_noting lock
  persist-fresh q p d w t s = rw (q.alone w.task w.host, t, s) (_, refl, refl)

stale_state_own :
    (d : TaskDict) (t : Tailed) (size : ℕ) (computed : ComputedRow) (c : Closing) (ts : String)
    → stale_state (plan_of d t size computed c ts) d ≡ false
unfolding stale_state plan_of
stale_state_own d t size computed c ts =
    let e : get_or d.events_offset 0 == get_or d.events_offset 0 ≡ true = ground arith in
    rw (e, (eq_iff (get_or d.status "") (get_or d.status "")).1 refl) refl

mutator-plan :
    (d : TaskDict) (t : Tailed) (size : ℕ) (computed : ComputedRow) (ts : String)
    → computed.transitioned ≡ true
    → let new = mutator (plan_of d t size computed nothing_pending ts) d in
      (new.status ≡ some computed.status) × (new.events_offset ≡ some t.offset)
unfolding mutator transition plan_of
mutator-plan d t size computed ts h =
    rw (stale_state_own d t size computed nothing_pending ts, h) (refl, refl)

-- A row is returned with this status, and task.json has it too, with the offset behind what was read.
pub record Closes {H : Host} (status : String) (offset : ℕ) (r : Result Row × World H)
    : Type 0 where
  pub row : Row
  pub new : TaskDict
  pub returned : r.0 ≡ ok row
  pub shown : row.computed.status ≡ status
  pub stored : r.1.task ≡ some new
  pub has_status : new.status ≡ some status
  pub has_offset : new.events_offset ≡ some offset

module _ {H : Host} where
  bind-ok :
      {A B : Type 0} (m : M H A) (f : A → M H B) {a : A} {w w' : World H}
      → m w ≡ (ok a, w')
      → (m >>= f) w ≡ f a w'
  bind-ok m f e = rw e refl

  -- From the time on.
  rest-Closes :
      (q : Quiet H) (task_id : String) (d : TaskDict) (container : Option Container)
      (ctr : String × Option ℕ) (t : Tailed) (size : ℕ) (computed : ComputedRow)
      (kind : Option String) (w : World H)
      → w.task ≡ some d
      → computed.transitioned ≡ true
      → Closes computed.status t.offset (
          (call H.now >>= λ ts.
          let p = plan_of d t size computed nothing_pending ts in
          persist false p >>= λ stale.
          after_update task_id container p
            (notes_of d size computed)
            d
            ctr
            kind
            nothing_pending
            stale)
            w)
  unfolding after_update current plain_row plan_of
  rest-Closes q task_id d container ctr t size computed kind w wt moves =
      let (ts, h) = H.now w.host in
      let p = plan_of d t size computed nothing_pending ts in
      let (w', e, n) =
        persist-fresh q p d (record w { host = h }) wt
          (stale_state_own d t size computed nothing_pending ts) in
      let (a, b) = mutator-plan d t size computed ts moves in
      rw e (record {
        row = _;
        new = mutator p d;
        returned = refl;
        shown = refl;
        stored = n;
        has_status = a;
        has_offset = b;
      })

  -- With nobody else at work: from a task whose stored status is live, whose container can be seen at once,
  -- and whose journal has a `done` or `fail` as the latest new event, which auto_finish does not claim, one
  -- `_reconcile_one` that is no dry run returns a row with the status completed or failed that the event asks
  -- for, and leaves it in task.json, with the offset behind the event.
  pub reconcile_one-Closes :
      (q : Quiet H) (F : Formats) (task_id : String) (st : Status) (d : TaskDict)
      (container : Option Container) (ctr : String × Option ℕ) (m : Mode) (t : Tailed) (w : World H)
      → w.task ≡ some d
      → d.status ≡ some (status_str st)
      → is_live st ≡ true
      → m.dry_run ≡ false
      → observe container w ≡ (ok ctr, w)
      → tail_events F (H.journal w.host).0 (H.journal w.host).1 (get_or d.events_offset 0) ≡ some t
      → is_closing (latest_kind t.valid) ≡ true
      → auto_pending d (latest_kind t.valid) ≡ false
      → Closes
          (status_str (closing_status (latest_kind t.valid)))
          t.offset
          (reconcile_one F task_id d container m w)
  unfolding reconcile_one tailed closing is_deferred
  reconcile_one-Closes q F task_id st d container ctr m t w wt s l dry o j k a =
      let kind = latest_kind t.valid in
      let computed = compute_status d ctr.0 ctr.1 kind in
      let c = closing_status-computed st d ctr.0 ctr.1 kind s l k in
      let size = get_or (H.log_size w.host) 0 in
      let (h, e) = log_errors-ok true t.malformed w in
      let moves =
        (compute_status-transitioned d ctr.0 ctr.1 kind).1
          (λ u. closing_status-ne st kind l (sym c ∙ u ∙ rw s refl)) in
      rw (o, j, a, dry, ← c, e)
        (rest-Closes q task_id d container ctr t size computed kind (record w { host = h }) wt
          moves)
