-- ===== src/Reconcile/Laws.antt =====
-- What the truth table of `compute_status` promises.
use neotolis_ai_workbench.Base.{
  ℕ, ◌≡◌, refl, sym, ◌∙◌, ◌≢◌, ◌↔◌, ◌⊎◌, inl, inr, String, Bool, true, false, not, Option, none,
  some, ◌∷◌, [], arith, eq_iff, str_eq, one_of, get_or, ◌||◌,
}
use neotolis_ai_workbench.Model.{
  Status, created, running, interrupted, waiting_for_user, completed, failed, cancelled, status_str,
  TaskDict,
}
use neotolis_ai_workbench.Model.Names.{Unnamed, name-cases}
use neotolis_ai_workbench.Reconcile.{ComputedRow, compute_status, compute_from, terminal_statuses}

-- The transitions that `list` may write by itself.
infix 40 ◌⟶◌
pub data ◌⟶◌ : Status → Status → Type 0 where
  come_up : created ⟶ running
  start_failed : created ⟶ failed
  start_done : created ⟶ completed
  ask_user : running ⟶ waiting_for_user
  lose : running ⟶ interrupted
  give_up : running ⟶ failed
  finish : running ⟶ completed
  lose_waiting : waiting_for_user ⟶ interrupted
  give_up_waiting : waiting_for_user ⟶ failed
  finish_waiting : waiting_for_user ⟶ completed

-- A row that stays at `st`.
abbrev pub Stays : Status → ComputedRow → Type 0
Stays st r = (r.status ≡ status_str st) × (r.transitioned ≡ false)

-- A row that moves to `st`, and says so.
abbrev pub Moves : Status → ComputedRow → Type 0
Moves st r = (r.status ≡ status_str st) × (r.transitioned ≡ true)

pub from_created :
    (c : String) (x : Option ℕ) (e : Option String)
    → let r = compute_from "created" c x e in Moves running r ⊎ Moves failed r ⊎ Moves completed r
unfolding compute_from
from_created c x e = ground arith

from_running :
    (c : String) (x : Option ℕ) (e : Option String)
    → let r = compute_from "running" c x e in
      Stays running r
      ⊎ Moves waiting_for_user r
      ⊎ Moves interrupted r
      ⊎ Moves failed r
      ⊎ Moves completed r
unfolding compute_from
from_running c x e = ground arith

from_waiting :
    (c : String) (x : Option ℕ) (e : Option String)
    → let r = compute_from "waiting_for_user" c x e in
      Stays waiting_for_user r ⊎ Moves interrupted r ⊎ Moves failed r ⊎ Moves completed r
unfolding compute_from
from_waiting c x e = ground arith

-- A row that keeps its status or follows an edge of the diagram.
abbrev pub Follows : Status → ComputedRow → Type 0
Follows st r = Stays st r ⊎ ((st' : Status) × (st ⟶ st') × Moves st' r)

pub compute_from-Follows :
    (st : Status) (c : String) (x : Option ℕ) (e : Option String)
    → Follows st (compute_from (status_str st) c x e)
compute_from-Follows created c x e = elim (from_created c x e) [
  | inl m ↦ inr (running, come_up, m)
  | inr (inl m) ↦ inr (failed, start_failed, m)
  | inr (inr m) ↦ inr (completed, start_done, m)
]
compute_from-Follows running c x e = elim (from_running c x e) [
  | inl s ↦ inl s
  | inr (inl m) ↦ inr (waiting_for_user, ask_user, m)
  | inr (inr (inl m)) ↦ inr (interrupted, lose, m)
  | inr (inr (inr (inl m))) ↦ inr (failed, give_up, m)
  | inr (inr (inr (inr m))) ↦ inr (completed, finish, m)
]
compute_from-Follows waiting_for_user c x e = elim (from_waiting c x e) [
  | inl s ↦ inl s
  | inr (inl m) ↦ inr (interrupted, lose_waiting, m)
  | inr (inr (inl m)) ↦ inr (failed, give_up_waiting, m)
  | inr (inr (inr m)) ↦ inr (completed, finish_waiting, m)
]
compute_from-Follows st c x e = unfold compute_from in ground arith

-- A text that names no status is passed through, with the note that says so.
pub compute_status_unknown :
    (d : TaskDict) (c : String) (x : Option ℕ) (e : Option String)
    → Unnamed (get_or d.status "")
    → compute_status d c x e ≡ record {
      status = get_or d.status "";
      transitioned = false;
      notes = "unknown status" ∷ [];
      failure_reason = none;
    }
unfolding compute_status
compute_status_unknown d c x e u =
    rw (u created, u running, u interrupted, u waiting_for_user, u completed, u failed, u cancelled)

-- For a stored status of the model, the status is kept with no transition, or an edge of the diagram
-- is followed with a transition.
pub compute_status-Follows :
    (st : Status) (d : TaskDict) (c : String) (x : Option ℕ) (e : Option String)
    → d.status ≡ some (status_str st)
    → Follows st (compute_status d c x e)
unfolding compute_status
compute_status-Follows st d c x e h = rw h (compute_from-Follows st c x e)

⟶-differs : {st st' : Status} → st ⟶ st' → status_str st' ≢ status_str st
⟶-differs come_up e = ground (arith, eq_iff "running" "created")
⟶-differs start_failed e = ground (arith, eq_iff "failed" "created")
⟶-differs start_done e = ground (arith, eq_iff "completed" "created")
⟶-differs ask_user e = ground (arith, eq_iff "waiting_for_user" "running")
⟶-differs lose e = ground (arith, eq_iff "interrupted" "running")
⟶-differs give_up e = ground (arith, eq_iff "failed" "running")
⟶-differs finish e = ground (arith, eq_iff "completed" "running")
⟶-differs lose_waiting e = ground (arith, eq_iff "interrupted" "waiting_for_user")
⟶-differs give_up_waiting e = ground (arith, eq_iff "failed" "waiting_for_user")
⟶-differs finish_waiting e = ground (arith, eq_iff "completed" "waiting_for_user")

Follows-transitioned :
    (st : Status) (r : ComputedRow)
    → Follows st r
    → (r.transitioned ≡ true) ↔ (r.status ≢ status_str st)
Follows-transitioned st r (inl s) = ground arith
Follows-transitioned st r (inr (st', edge, m)) = (λ _ e. ⟶-differs edge (sym m.0 ∙ e), λ _. m.1)

-- `transitioned` says exactly whether the computed status differs from the stored one.
pub compute_status-transitioned :
    (d : TaskDict) (c : String) (x : Option ℕ) (e : Option String)
    → let r = compute_status d c x e in (r.transitioned ≡ true) ↔ (r.status ≢ get_or d.status "")
compute_status-transitioned d c x e = elim (name-cases (get_or d.status "")) [
  | inl (st, named) ↦ rw named (
      Follows-transitioned st (compute_status d c x e)
        (unfold compute_status in rw named (compute_from-Follows st c x e)))
  | inr u ↦ rw (compute_status_unknown d c x e u) (λ h. cc, λ h. absurd (h refl))
]

abbrev pub is_terminal : Status → Bool
is_terminal st = one_of (status_str st) terminal_statuses

abbrev pub is_live : Status → Bool
is_live st = not (is_terminal st || str_eq (status_str st) "interrupted")

-- A pending `done` or `fail` decides the status of a live task, whatever the container does.
pub terminal_event_wins :
    (st : Status) (d : TaskDict) (c : String) (x : Option ℕ)
    → d.status ≡ some (status_str st)
    → is_live st ≡ true
    → ((compute_status d c x (some "done")).status ≡ "completed")
      × ((compute_status d c x (some "fail")).status ≡ "failed")
unfolding compute_status
terminal_event_wins created d c x e h = rw e (refl, refl)
terminal_event_wins running d c x e h = rw e (refl, refl)
terminal_event_wins waiting_for_user d c x e h = rw e (refl, refl)
terminal_event_wins _ d c x e h = cc

-- A reason is given only for a task whose container is missing while it is being created.
compute_from-reason :
    (st : Status) (c : String) (x : Option ℕ) (e : Option String)
    → (compute_from (status_str st) c x e).failure_reason ≢ none
    → (status_str st ≡ "created") × (c ≡ "notfound")
unfolding compute_from
compute_from-reason created c x e h = ground (arith, eq_iff c "notfound")
compute_from-reason _ c x e h = absurd (ground arith)

-- A reason is given only for a task in status created whose container is missing.
pub compute_status-reason :
    (d : TaskDict) (c : String) (x : Option ℕ) (e : Option String)
    → (compute_status d c x e).failure_reason ≢ none
    → (get_or d.status "" ≡ "created") × (c ≡ "notfound")
compute_status-reason d c x e h = elim (name-cases (get_or d.status "")) [
  | inl (st, named) ↦
      rw named (compute_from-reason st c x e (λ z. h (unfold compute_status in rw named z)))
  | inr u ↦ absurd (h (rw (compute_status_unknown d c x e u)))
]
