-- ===== src/List/Run/Finality.antt =====
-- A plain `list` leaves finished tasks finished.
use neotolis_ai_workbench.Base.{
  ◌≡◌, refl, sym, ◌∙◌, String, true, false, Option, some, List, inl, inr, one_of, All,
}
use neotolis_ai_workbench.Model.{Status, status_str, TaskDict}
use neotolis_ai_workbench.Reconcile.{terminal_statuses}
use neotolis_ai_workbench.Reconcile.Laws.{
  ◌⟶◌, come_up, start_failed, start_done, ask_user, lose, give_up, finish, lose_waiting,
  give_up_waiting, finish_waiting,
}
use neotolis_ai_workbench.Tail.{Formats}
use neotolis_ai_workbench.Effects.{Host, Container, Result}
use neotolis_ai_workbench.Effects.Rules.{Published}
use neotolis_ai_workbench.Clean.Candidates.{Entry}
use neotolis_ai_workbench.List.Update.{Mode}
use neotolis_ai_workbench.List.Swap.{StepsTo}
use neotolis_ai_workbench.List.Planned.{Listed, read_only, broken, updated, kept_open, closed}
use neotolis_ai_workbench.List.Rows.{ListRequest}
use neotolis_ai_workbench.List.{Row}
use neotolis_ai_workbench.List.Run.{run}
use neotolis_ai_workbench.List.Run.Histories.{Rounds-All, run-Rounds}

-- If the dict that was replaced has a final status, the new one has the same.
abbrev pub KeepsFinal : TaskDict × TaskDict → Type 0
KeepsFinal (old, new) =
    (s : String) → old.status ≡ some s → one_of s terminal_statuses ≡ true → new.status ≡ old.status

⟶-live : {st st' : Status} → st ⟶ st' → one_of (status_str st) terminal_statuses ≡ false
⟶-live come_up = refl
⟶-live start_failed = refl
⟶-live start_done = refl
⟶-live ask_user = refl
⟶-live lose = refl
⟶-live give_up = refl
⟶-live finish = refl
⟶-live lose_waiting = refl
⟶-live give_up_waiting = refl
⟶-live finish_waiting = refl

some-text : {s t : String} → some s ≡ some t → s ≡ t
some-text h = cc h

StepsTo-final :
    (old new : Option String) (s : String)
    → StepsTo old new
    → old ≡ some s
    → one_of s terminal_statuses ≡ true
    → new ≡ old
StepsTo-final old new s (inl e) o t = e
StepsTo-final old new s (inr (st, st', e, edge, n)) o t =
    let q : s ≡ status_str st = some-text (sym o ∙ e) in absurd (cc (⟶-live edge, rw q at t))

module _ (H : Host) (F : Formats) (m : Mode) (managed : List (Option String × Container)) where
  Listed-KeepsFinal :
      (d : TaskDict) (new : Published) (r : Result Row)
      → m.apply_auto_finish ≡ false
      → Listed H F d m new r
      → All KeepsFinal new
  Listed-KeepsFinal d new r a (read_only r' k) = tt
  Listed-KeepsFinal d new r a (broken e) = tt
  Listed-KeepsFinal d new r a (updated p k old e r' live plan rec) =
      ((λ s. StepsTo-final old.status e.status s rec.status), tt)
  Listed-KeepsFinal d new r a (kept_open p k o n e ts why r' live b c g h i) = absurd (cc (a, g))
  Listed-KeepsFinal d new r a (closed p k o n e f ts row live b c g h i j) = absurd (cc (a, g))

  -- A run of `list` that does not apply auto_finish never changes a final status, whatever Docker and other
  -- processes do: each dict that it publishes in place of one with a final status has the same status.
  pub run-KeepsFinal :
      (q : ListRequest) (entries : List Entry) (s : H.State)
      → m.apply_auto_finish ≡ false
      → All (λ h. All KeepsFinal h.1) (run H F m managed q entries s).1
  run-KeepsFinal q entries s a =
      Rounds-All H F m managed (λ h. All KeepsFinal h.1)
        (λ d d' new r l. Listed-KeepsFinal d new r a l) (run-Rounds H F m managed q entries s)
