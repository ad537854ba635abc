-- ===== src/List/Swap.antt =====
-- What the locked update of `_reconcile_one` does to the dict that it finds.
use neotolis_ai_workbench.Base.{
  ℕ, ◌≤◌, ◌≡◌, refl, ap, ◌∙◌, String, true, false, Option, none, some, ◌⊎◌, inl, inr, arith, get_or,
  eq_iff, Bool-cases,
}
use neotolis_ai_workbench.Model.{Status, created, status_str, TaskDict}
use neotolis_ai_workbench.Model.Names.{name-cases}
use neotolis_ai_workbench.Reconcile.{compute_status}
use neotolis_ai_workbench.Reconcile.Laws.{◌⟶◌, compute_status-Follows, compute_status_unknown}
use neotolis_ai_workbench.List.Update.{Plan, mutator, transition, stale_state, max}

-- The new status is the old one, or a successor in the diagram.
abbrev pub StepsTo : Option String → Option String → Type 0
StepsTo s s' =
    (s' ≡ s)
    ⊎ ((st : Status) × (st' : Status) × (s ≡ some (status_str st))
        × (st ⟶ st')
        × (s' ≡ some (status_str st')))

-- `new` is `old` after an update by the plan: only five fields differ; the size of the log does not
-- fall; the offset stays, or moves from where the plan read to where it read to; the status stays, or
-- follows the diagram and the offset moves with it; a held plan moves neither.
pub record Reconciled (p : Plan) (old new : TaskDict) : Type 0 where
  pub log_grows : get_or old.terminal_log_max_size 0 ≤ get_or new.terminal_log_max_size 0
  pub offset :
      (new.events_offset ≡ old.events_offset)
      ⊎ ((get_or old.events_offset 0 ≡ p.current_offset) × (new.events_offset ≡ some p.new_offset))
  pub status : StepsTo old.status new.status
  pub together : (new.status ≡ old.status) ⊎ (new.events_offset ≡ some p.new_offset)
  pub held :
      p.hold_offset ≡ true
      → (new.events_offset ≡ old.events_offset)
        × (new.status ≡ old.status)
        × (new.failure_reason ≡ old.failure_reason)
  pub rest : new ≡ record old {
    terminal_log_max_size = new.terminal_log_max_size;
    events_offset = new.events_offset;
    status = new.status;
    updated_at = new.updated_at;
    failure_reason = new.failure_reason;
  }

same_status :
    (o : Option String) (st : Status) → get_or o "" ≡ status_str st → o ≡ some (status_str st)
same_status (some s) st h = ap some h
same_status none created h = cc h
same_status none _ h = cc h

max_grows : (a b : ℕ) → a ≤ max a b
max_grows a b = ground arith

module _ (p : Plan) (old : TaskDict) where
  -- The dict of a stale or held update, and those of an update that moves the offset.
  abbrev grown : TaskDict
  grown = record old {
    terminal_log_max_size = some (max (get_or old.terminal_log_max_size 0) p.new_max_size);
  }

  abbrev moved : TaskDict
  moved = record grown { events_offset = some p.new_offset }

  grown-Reconciled : Reconciled p old grown
  grown-Reconciled = record {
    log_grows = max_grows (get_or old.terminal_log_max_size 0) p.new_max_size;
    offset = inl refl;
    status = inl refl;
    together = inl refl;
    held = λ h. (refl, refl, refl);
    rest = refl;
  }

  moved-Reconciled :
      get_or old.events_offset 0 ≡ p.current_offset → p.hold_offset ≡ false → Reconciled p old moved
  moved-Reconciled e f = record {
    log_grows = max_grows (get_or old.terminal_log_max_size 0) p.new_max_size;
    offset = inr (e, refl);
    status = inl refl;
    together = inl refl;
    held = λ h. absurd (cc (f, h));
    rest = refl;
  }

  transition-Reconciled :
      get_or old.events_offset 0 ≡ p.current_offset
      → p.hold_offset ≡ false
      → StepsTo old.status (some p.computed.status)
      → Reconciled p old (transition p moved)
  unfolding transition
  transition-Reconciled e f s = record {
    log_grows = max_grows (get_or old.terminal_log_max_size 0) p.new_max_size;
    offset = inr (e, refl);
    status = s;
    together = inr refl;
    held = λ h. absurd (cc (f, h));
    rest = refl;
  }

  -- The update is one of these three, and the last two only for a dict that is not stale.
  mutator-cases :
      (mutator p old ≡ grown)
      ⊎ ((stale_state p old ≡ false)
          × (p.hold_offset ≡ false)
          × (p.computed.transitioned ≡ false)
          × (mutator p old ≡ moved))
      ⊎ ((stale_state p old ≡ false)
          × (p.hold_offset ≡ false)
          × (p.computed.transitioned ≡ true)
          × (mutator p old ≡ transition p moved))
  unfolding mutator
  mutator-cases = elim (Bool-cases (stale_state p old)) [
    | inl s ↦ inl (rw s)
    | inr s ↦ elim (Bool-cases p.hold_offset) [
      | inl h ↦ inl (rw (s, h))
      | inr h ↦ elim (Bool-cases p.computed.transitioned) [
        | inl t ↦ inr (inr (s, h, t, rw (s, h, t)))
        | inr t ↦ inr (inl (s, h, t, rw (s, h, t)))
      ]
    ]
  ]

  fresh :
      stale_state p old ≡ false
      → (get_or old.events_offset 0 ≡ p.current_offset) × (get_or old.status "" ≡ p.original_status)
  unfolding stale_state
  fresh h = (ground arith, ground (arith, eq_iff (get_or old.status "") p.original_status))

  module _ (d : TaskDict) (c : String) (x : Option ℕ) (k : Option String) where
    same_computed :
        get_or old.status "" ≡ get_or d.status ""
        → compute_status old c x k ≡ compute_status d c x k
    unfolding compute_status
    same_computed h = rw h

    steps :
        get_or old.status "" ≡ get_or d.status ""
        → (compute_status d c x k).transitioned ≡ true
        → StepsTo old.status (some (compute_status d c x k).status)
    steps h t = elim (name-cases (get_or old.status "")) [
      | inl (st, named) ↦
          let s = same_status old.status st named in
          elim (compute_status-Follows st old c x k s) [
            | inl stays ↦ absurd (cc (stays.1, t, same_computed h))
            | inr (st', edge, m) ↦ inr (st, st', s, edge, cc (m.0, same_computed h))
          ]
      | inr u ↦ absurd (cc (compute_status_unknown old c x k u, t, same_computed h))
    ]

    -- The locked update of a plan that was made from `d` and a look at its container.
    pub mutator-Reconciled :
        p.original_status ≡ get_or d.status ""
        → p.computed ≡ compute_status d c x k
        → Reconciled p old (mutator p old)
    mutator-Reconciled o q = elim mutator-cases [
      | inl e ↦ rw e grown-Reconciled
      | inr (inl (s, h, t, e)) ↦ rw e (moved-Reconciled (fresh s).0 h)
      | inr (inr (s, h, t, e)) ↦
          rw e (transition-Reconciled (fresh s).0 h (rw q (steps ((fresh s).1 ∙ o) (rw (← q) t))))
    ]
