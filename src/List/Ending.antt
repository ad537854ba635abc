-- ===== src/List/Ending.antt =====
-- What `_reconcile_one` publishes, and when.
use neotolis_ai_workbench.Base.{
  ℕ, ◌≡◌, refl, sym, ◌∙◌, String, Bool, true, false, not, ◌||◌, Option, none, List, [], ◌∷◌, ◌++◌,
  arith, get_or,
}
use neotolis_ai_workbench.Model.{Status, TaskDict}
use neotolis_ai_workbench.Reconcile.{compute_status}
use neotolis_ai_workbench.Tail.{Formats, tail_events}
use neotolis_ai_workbench.Effects.{
  Host, system_exit, Container, Result, ok, err, ◌>>=◌, call, look, attempt,
}
use neotolis_ai_workbench.Effects.Rules.{
  Published, Silent, Spec, Spec-bind, Spec-seq, Spec-Silent, Spec-now, Silent-call, Silent-look,
  Silent-bind,
}
use neotolis_ai_workbench.Store.{update_task}
use neotolis_ai_workbench.Store.Rules.{Spec-noting}
use neotolis_ai_workbench.Lifecycle.Teardown.{teardown_and_mark, to_terminal}
use neotolis_ai_workbench.Lifecycle.Teardown.Outcome.{
  Outcome, finished, failed, raised, teardown_and_mark-Outcome,
}
use neotolis_ai_workbench.List.Update.{
  Plan, Mode, Closing, inline_teardown, closing, is_deferred, plan_of, notes_of, mutator,
  stale_state, latest_kind, auto_pending, is_closing, closing_status, holds,
}
use neotolis_ai_workbench.List.Reads.{
  reread-Silent, after_failure-Silent, observe-Silent, log_errors-Silent, stale_row-Silent,
  after_update-Silent, Quiet, reread-Quiet,
}
use neotolis_ai_workbench.List.Swap.{Reconciled, mutator-Reconciled}
use neotolis_ai_workbench.List.Planned.{
  Planned, Listed, read_only, broken, updated, kept_open, closed, Spec-look, Spec-tailed,
}
use neotolis_ai_workbench.List.{
  Row, observe, log_errors, reread, persist, teardown_failed, finished_row, after_teardown, inline,
  current, after_update, reconcile_one,
}

-- What a caught teardown hands on.
abbrev Caught : Status → Option String → Published → Result (Result (Unit {0})) → Type 0
Caught status reason new (ok r) = Outcome status reason new r
Caught status reason new (err e) = ⊥

module _ {H : Host} (F : Formats) (d : TaskDict) (m : Mode) (p : Plan) (kind : Option String)
    (old new : TaskDict) (live : m.dry_run ≡ false) (plan : Planned H F d m p kind)
    (rec : Reconciled p old new) where
  single : (r : Result Row) → Listed H F d m ((old, new) ∷ []) r
  single r = updated p kind old new r live plan rec

  -- From the result of the teardown on.
  after_failed_teardown :
      (container : Option Container) (notes : List String) (d' : TaskDict) (ctr : String × Option ℕ)
      → Silent {H = H} (reread d' >>= λ e. after_teardown container p notes e ctr true)
  after_failed_teardown container notes d' ctr =
      Silent-bind (reread d') _ (reread-Silent d')
        (λ e. after_failure-Silent container p notes e ctr)

  module _ (apply : m.apply_auto_finish ≡ true) (hold : p.hold_offset ≡ true)
      (k : is_closing kind ≡ true) where
    advance_offset :
        (container : Option Container) (notes : List String) (d' d₀ : TaskDict)
        (ctr : String × Option ℕ) (ts : String)
        → Spec {H = H}
            (λ more r.
              Listed H F d m
                ((old, new) ∷ (d₀, to_terminal ts (closing_status kind) p.fail_reason d₀) ∷ more)
                r)
            (after_teardown container p notes d' ctr false)
    unfolding after_teardown finished_row update_task
    advance_offset container notes d' d₀ ctr ts = record {
      at = λ w. (_, refl, closed p kind old new d₀ _ ts _ live plan rec apply hold k refl);
    }

    after-Outcome :
        (container : Option Container) (notes : List String) (d' : TaskDict)
        (ctr : String × Option ℕ) (written : Published) (r : Result (Unit {0}))
        → Outcome (closing_status kind) p.fail_reason written r
        → Spec {H = H}
            (λ more s. Listed H F d m ((old, new) ∷ (written ++ more)) s)
            (teardown_failed r >>= λ failed.
              reread d' >>= λ e. after_teardown container p notes e ctr failed)
    unfolding teardown_failed
    after-Outcome container notes d' ctr _ _ (finished ts d₀) =
        Spec-seq Quiet _ (reread d') _ (reread-Quiet d') (λ new' e x. absurd x)
          (λ new' e x. rw x (advance_offset container notes e d₀ ctr ts))
    after-Outcome container notes d' ctr _ _ (failed ts why d₀) =
        Spec-Silent _ _ (after_failed_teardown container notes d' ctr)
          (λ s. kept_open p kind old new d₀ ts why s live plan rec apply hold k)
    after-Outcome container notes d' ctr _ _ (raised (system_exit code)) =
        Spec-Silent _ _ (after_failed_teardown container notes d' ctr) single
    after-Outcome container notes d' ctr _ _ (raised e) = Spec-now _ (err e) (single (err e))

    inline-Listed :
        (task_id : String) (container : Option Container) (notes : List String) (d' : TaskDict)
        (ctr : String × Option ℕ)
        → Spec
            (λ more r. Listed H F d m ((old, new) ∷ more) r)
            (inline {H = H} task_id container p notes d' ctr kind)
    unfolding inline
    inline-Listed task_id container notes d' ctr =
        Spec-seq (Caught (closing_status kind) p.fail_reason) _
          (attempt (teardown_and_mark task_id (closing_status kind) none false p.fail_reason)) _
          (record {
            at = λ w.
                (teardown_and_mark-Outcome (closing_status kind) p.fail_reason task_id none
                    false).at
                  w;
          })
          (λ new' e x. absurd x) (λ written r x. after-Outcome container notes d' ctr written r x)

    after_update-Listed :
        (task_id : String) (container : Option Container) (notes : List String) (d' : TaskDict)
        (ctr : String × Option ℕ) (stale : Bool)
        → Spec
            (λ more r. Listed H F d m ((old, new) ∷ more) r)
            (after_update {H = H} task_id container p notes d' ctr kind inline_teardown stale)
    unfolding after_update current
    after_update-Listed task_id container notes d' ctr true =
        Spec-Silent _ _ (stale_row-Silent d' ctr) single
    after_update-Listed task_id container notes d' ctr false =
        inline-Listed task_id container notes d' ctr

closing-inline :
    (d : TaskDict) (kind : Option String) (m : Mode)
    → closing (auto_pending d kind) m ≡ inline_teardown
    → (m.dry_run ≡ false) × (m.apply_auto_finish ≡ true) × (is_closing kind ≡ true)
unfolding closing auto_pending
closing-inline d kind m h = ground arith

module _ {H : Host} (task_id : String) (d : TaskDict) (container : Option Container) (m : Mode)
    (F : Formats) where
  after_plan :
      (p : Plan) (notes : List String) (ctr : String × Option ℕ) (kind : Option String)
      (c : Closing)
      → c ≡ closing (auto_pending d kind) m
      → p.hold_offset ≡ holds c
      → Planned H F d m p kind
      → ((old : TaskDict) → Reconciled p old (mutator p old))
      → (dry : Bool) → m.dry_run ≡ dry
      → Spec {H = H}
          (Listed H F d m)
          (persist dry p >>= λ stale. after_update task_id container p notes d ctr kind c stale)
  unfolding persist
  after_plan p notes ctr kind c e h plan rec true dry =
      Spec-Silent _ _
        (after_update-Silent task_id container p notes d ctr kind c false
          (λ i. absurd (cc (dry, (closing-inline d kind m (sym e ∙ i)).0))))
        (λ r. read_only r dry)
  after_plan p notes ctr kind inline_teardown e h plan rec false dry =
      Spec-noting (Listed H F d m) (mutator p) (stale_state p) _ λ old.
        let (_, a, k) = closing-inline d kind m (sym e) in
        after_update-Listed F d m p kind old (mutator p old) dry plan (rec old) a
          (h ∙ (unfold holds in refl)) k task_id container notes d ctr (stale_state p old)
  after_plan p notes ctr kind c e h plan rec false dry =
      Spec-noting (Listed H F d m) (mutator p) (stale_state p) _ λ old.
        Spec-Silent _ _
          (after_update-Silent task_id container p notes d ctr kind c (stale_state p old)
            (λ i. cc i))
          (λ r. updated p kind old (mutator p old) r dry plan (rec old))

  pub reconcile_one-Listed : Spec {H = H} (Listed H F d m) (reconcile_one F task_id d container m)
  unfolding reconcile_one
  reconcile_one-Listed = Spec-bind _ (observe container) _ (observe-Silent container) broken λ ctr.
      Spec-look _ H.journal _ λ s j looked.
        Spec-tailed _ (tail_events F j.0 j.1 (get_or d.events_offset 0)) _ broken λ t reads.
          let kind = latest_kind t.valid in
          let computed = compute_status d ctr.0 ctr.1 kind in
          let c = closing (auto_pending d kind) m in
          Spec-bind _ (look (λ s. get_or (H.log_size s) 0)) _ (Silent-look _) broken λ size.
            Spec-bind _ (log_errors (not (is_deferred c || m.dry_run)) t.malformed) _
              (log_errors-Silent _ _) broken
              λ _. Spec-bind _ (call H.now) _ (Silent-call _) broken λ ts.
                let p = plan_of d t size computed c ts in
                after_plan p (notes_of d size computed) ctr kind c refl (unfold plan_of in refl)
                  (record {
                    state = s;
                    read = t;
                    reads = rw looked reads;
                    is_latest = refl;
                    ctr = ctr;
                    size = size;
                    ts = ts;
                    planned = refl;
                  })
                  (λ old.
                    mutator-Reconciled p old d ctr.0 ctr.1 kind (unfold plan_of in refl)
                      (unfold plan_of in refl))
                  m.dry_run refl
