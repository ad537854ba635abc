-- ===== src/Reconcile/Stable.antt =====
-- A row of the truth table, stored, is a fixed point of it.
use neotolis_ai_workbench.Base.{
  ℕ, ◌≡◌, refl, inl, inr, String, true, false, Option, none, some, ◌∷◌, arith, eq_iff, one_of,
  get_or,
}
use neotolis_ai_workbench.Model.{
  Status, created, running, interrupted, waiting_for_user, completed, failed, status_str, TaskDict,
}
use neotolis_ai_workbench.Model.Names.{name-cases}
use neotolis_ai_workbench.Reconcile.{compute_status, compute_from, terminal_statuses}
use neotolis_ai_workbench.Reconcile.Laws.{
  ◌⟶◌, come_up, start_failed, start_done, ask_user, lose, give_up, finish, lose_waiting,
  give_up_waiting, finish_waiting, compute_from-Follows, compute_status_unknown,
}

settled :
    (st : Status) (c : String) (x : Option ℕ)
    → one_of (status_str st) ("interrupted" ∷ terminal_statuses) ≡ true
    → (compute_from (status_str st) c x none).transitioned ≡ false
unfolding compute_from
settled st c x h = ground arith

up_is_stable :
    (c : String) (x : Option ℕ) (e : Option String)
    → (compute_from "created" c x e).status ≡ "running"
    → (compute_from "running" c x none).transitioned ≡ false
unfolding compute_from
up_is_stable c x e h = ground (arith, eq_iff "failed" "running", eq_iff "completed" "running")

running_is_stable :
    (c : String) (x : Option ℕ) (e : Option String)
    → (compute_from "running" c x e).transitioned ≡ false
    → (compute_from "running" c x none).transitioned ≡ false
unfolding compute_from
running_is_stable c x e h = ground arith

waiting_is_stable :
    (c : String) (x : Option ℕ) (e : Option String)
    → (compute_from "waiting_for_user" c x e).transitioned ≡ false
    → (compute_from "waiting_for_user" c x none).transitioned ≡ false
unfolding compute_from
waiting_is_stable c x e h = ground arith

asked_is_stable :
    (c : String) (x : Option ℕ) (e : Option String)
    → (compute_from "running" c x e).status ≡ "waiting_for_user"
    → (compute_from "waiting_for_user" c x none).transitioned ≡ false
unfolding compute_from
asked_is_stable c x e h = ground (
  arith,
  eq_iff "failed" "waiting_for_user",
  eq_iff "completed" "waiting_for_user",
  eq_iff "running" "waiting_for_user",
  eq_iff "interrupted" "waiting_for_user",
)

moved_is_stable :
    {st st' : Status} (c : String) (x : Option ℕ) (e : Option String)
    → st ⟶ st'
    → (compute_from (status_str st) c x e).status ≡ status_str st'
    → (compute_from (status_str st') c x none).transitioned ≡ false
moved_is_stable c x e come_up m = up_is_stable c x e m
moved_is_stable c x e ask_user m = asked_is_stable c x e m
moved_is_stable c x e start_failed m = settled failed c x refl
moved_is_stable c x e start_done m = settled completed c x refl
moved_is_stable c x e lose m = settled interrupted c x refl
moved_is_stable c x e give_up m = settled failed c x refl
moved_is_stable c x e finish m = settled completed c x refl
moved_is_stable c x e lose_waiting m = settled interrupted c x refl
moved_is_stable c x e give_up_waiting m = settled failed c x refl
moved_is_stable c x e finish_waiting m = settled completed c x refl

created_moves :
    (c : String) (x : Option ℕ) (e : Option String)
    → (compute_from "created" c x e).transitioned ≡ true
unfolding compute_from
created_moves c x e = ground arith

kept_is_stable :
    (st : Status) (c : String) (x : Option ℕ) (e : Option String)
    → (compute_from (status_str st) c x e).transitioned ≡ false
    → (compute_from (status_str st) c x none).transitioned ≡ false
kept_is_stable created c x e h = cc (created_moves c x e)
kept_is_stable running c x e h = running_is_stable c x e h
kept_is_stable waiting_for_user c x e h = waiting_is_stable c x e h
kept_is_stable st c x e h = settled st c x refl

compute_from_stable :
    (st : Status) (c : String) (x : Option ℕ) (e : Option String)
    → (compute_from (compute_from (status_str st) c x e).status c x none).transitioned ≡ false
compute_from_stable st c x e = elim (compute_from-Follows st c x e) [
  | inl s ↦ rw s.0 (kept_is_stable st c x e s.1)
  | inr (st', edge, m) ↦ rw m.0 (moved_is_stable c x e edge m.0)
]

-- Once the computed status is stored, a second look at the same container with no new event
-- changes nothing.
pub compute_status_stable :
    (d : TaskDict) (c : String) (x : Option ℕ) (e : Option String)
    → let d' : TaskDict = record d { status = some (compute_status d c x e).status } in
      (compute_status d' c x none).transitioned ≡ false
compute_status_stable d c x e = elim (name-cases (get_or d.status "")) [
  | inl (st, named) ↦ unfold compute_status in rw named (compute_from_stable st c x e)
  | inr u ↦
      rw (compute_status_unknown d c x e u)
        (rw (compute_status_unknown (record d { status = some (get_or d.status "") }) c x none u))
]
