-- ===== src/List/Planned.antt =====
-- The plan of `_reconcile_one`, with the journal that it was made from; and how it ends.
use neotolis_ai_workbench.Base.{
  ℕ, ◌≡◌, refl, String, Option, none, some, [], ◌∷◌, true, false, get_or,
}
use neotolis_ai_workbench.Model.{TaskDict}
use neotolis_ai_workbench.Reconcile.{compute_status}
use neotolis_ai_workbench.Tail.{Formats, Tailed, tail_events}
use neotolis_ai_workbench.Effects.{Host, M, Exn, Result, ok, err, ◌>>=◌, look}
use neotolis_ai_workbench.Effects.Rules.{Published, Spec, Spec-now}
use neotolis_ai_workbench.Lifecycle.Teardown.{to_terminal, finish_failed}
use neotolis_ai_workbench.List.Swap.{Reconciled}
use neotolis_ai_workbench.List.Update.{
  Plan, Mode, closing, plan_of, latest_kind, auto_pending, is_closing, closing_status,
}
use neotolis_ai_workbench.List.{Row, tailed}

-- The journal was read from the offset of the task, `kind` is that of the latest event, and the plan is
-- made from what was read and the state of the container.
pub record Planned (H : Host) (F : Formats) (d : TaskDict) (m : Mode) (p : Plan)
    (kind : Option String) : Type 0 where
  pub state : H.State
  pub read : Tailed
  pub reads :
      tail_events F (H.journal state).0 (H.journal state).1 (get_or d.events_offset 0) ≡ some read
  pub is_latest : kind ≡ latest_kind read.valid
  pub ctr : String × Option ℕ
  pub size : ℕ
  pub ts : String
  pub planned :
      p
      ≡ plan_of d read size (compute_status d ctr.0 ctr.1 kind) (closing (auto_pending d kind) m) ts

-- The ways that `_reconcile_one` ends, for the task that it was given as `d`.
pub data Listed (H : Host) (F : Formats) (d : TaskDict) (m : Mode)
    : Published → Result Row → Type 0 where
  read_only : (r : Result Row) → m.dry_run ≡ true → Listed H F d m [] r
  broken : (e : Exn) → Listed H F d m [] (err e)
  -- The locked update only.
  updated :
      (p : Plan) (kind : Option String) (old new : TaskDict) (r : Result Row)
      → m.dry_run ≡ false
      → Planned H F d m p kind
      → Reconciled p old new
      → Listed H F d m ((old, new) ∷ []) r
  -- The update held the offset, and the teardown of the container failed.
  kept_open :
      (p : Plan) (kind : Option String) (old new : TaskDict) (e : TaskDict) (ts why : String)
      (r : Result Row)
      → m.dry_run ≡ false
      → Planned H F d m p kind
      → Reconciled p old new
      → m.apply_auto_finish ≡ true
      → p.hold_offset ≡ true
      → is_closing kind ≡ true
      → Listed H F d m ((old, new) ∷ (e, finish_failed ts why e) ∷ []) r
  -- The update held the offset, the teardown wrote the final status that the latest event asks for, and
  -- only then the offset passed the event.
  closed :
      (p : Plan) (kind : Option String) (old new : TaskDict) (e f : TaskDict) (ts : String)
      (row : Row)
      → m.dry_run ≡ false
      → Planned H F d m p kind
      → Reconciled p old new
      → m.apply_auto_finish ≡ true
      → p.hold_offset ≡ true
      → is_closing kind ≡ true
      → row.reaped ≡ 1
      → Listed H F d m
          ((old, new)
            ∷ (e, to_terminal ts (closing_status kind) p.fail_reason e)
            ∷ (f, record f { events_offset = some p.new_offset })
            ∷ [])
          (ok row)

module _ {H : Host} {B : Type 0} (P : Published → Result B → Type 0) where
  -- A look at the host, at some state of it.
  pub Spec-look :
      {A : Type 0} (f : H.State → A) (k : A → M H B)
      → ((s : H.State) (a : A) → f s ≡ a → Spec P (k a))
      → Spec P (look f >>= k)
  Spec-look f k s = record { at = λ w. (s w.host (f w.host) refl).at w }

  -- A tail that returned, or raised.
  pub Spec-tailed :
      (o : Option Tailed) (k : Tailed → M H B)
      → ((e : Exn) → P [] (err e))
      → ((t : Tailed) → o ≡ some t → Spec P (k t))
      → Spec P (tailed o >>= k)
  unfolding tailed
  Spec-tailed none k h s = Spec-now P _ (h _)
  Spec-tailed (some t) k h s = s t refl
