-- ===== src/Tests/Journal.antt =====
-- A run of `naiw-signal` and of looks at the journal.
use mathlib.Core.Path.{subst}
use neotolis_ai_workbench.Base.{◌≡◌, refl, String, true, some, List, [], ◌∷◌}
use neotolis_ai_workbench.Events
use neotolis_ai_workbench.Events.{Event}
use neotolis_ai_workbench.Tail.{is_iso_datetime, replace_z}
use neotolis_ai_workbench.Tail.Lines.{Bytes}
use neotolis_ai_workbench.Tail.Tests.{io, dumps, moment, done_event, toy}
use neotolis_ai_workbench.Signal.{Command, done, fail, signal, append_event, event_of, success}
use neotolis_ai_workbench.Signal.RoundTrip.{Dumps}
use neotolis_ai_workbench.Signal.Queue.{
  Op, emit, look, Sound, queue_run, journal_run, journal_run-queue_run,
}

abbrev green : Command
green = done (some "all green")

-- What `Sound` asks for an event.
abbrev Delivered : Event → Type 0
Delivered e =
    (is_iso_datetime toy moment ≡ true)
    × ((line : String) × Dumps toy dumps (Events.as_dict e) line)
    × ((file : Bytes) → (signal dumps io moment green file).1 ≡ success)

green-Delivered : Delivered done_event
unfolding signal Events.done Events.as_dict is_iso_datetime replace_z append_event event_of
green-Delivered =
    (refl, ("d", record { one_line = (refl, tt); decoded = refl; loaded = refl }), λ file. refl)

some-event : {e f : Event} → some e ≡ some f → e ≡ f
some-event h = cc h

green-Sound : Sound toy dumps (emit io moment green)
unfolding event_of
green-Sound e p = subst Delivered (some-event p) green-Delivered

refused-Sound : Sound toy dumps (emit io moment (fail ""))
unfolding event_of Events.fail
refused-Sound e p = cc p

abbrev ops : List Op
ops =
    emit io moment green
    ∷ look
    ∷ emit io moment (fail "")
    ∷ look
    ∷ emit io moment green
    ∷ emit io moment green
    ∷ look
    ∷ []

journal_run-queue_run_example :
    journal_run toy dumps ops [] 0
    ≡ some ((done_event ∷ []) ∷ [] ∷ (done_event ∷ done_event ∷ []) ∷ [])
unfolding queue_run event_of Events.fail
journal_run-queue_run_example =
    journal_run-queue_run toy dumps ops
      (green-Sound, (tt, (refused-Sound, (tt, (green-Sound, (green-Sound, (tt, tt)))))))
