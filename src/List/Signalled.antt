-- ===== src/List/Signalled.antt =====
-- From `naiw-signal` in the container to the status in task.json.
use neotolis_ai_workbench.Base.{
  ℕ, ◌≡◌, refl, String, true, false, Option, some, [], ◌∷◌, get_or, length,
}
use neotolis_ai_workbench.Model.{Status, status_str, TaskDict}
use neotolis_ai_workbench.Json.{Fields}
use neotolis_ai_workbench.Events
use neotolis_ai_workbench.Events.{Event}
use neotolis_ai_workbench.Tail.{Formats, regular, bytes, is_iso_datetime}
use neotolis_ai_workbench.Tail.Lines.{Bytes}
use neotolis_ai_workbench.Reconcile.Laws.{is_live}
use neotolis_ai_workbench.Effects.{Host, World, Container, ok}
use neotolis_ai_workbench.Signal.{Io, Command, success, signal, event_of}
use neotolis_ai_workbench.Signal.RoundTrip.{Dumps, tail_events-signal}
use neotolis_ai_workbench.List.Update.{Mode, latest_kind, is_closing, closing_status, auto_pending}
use neotolis_ai_workbench.List.{observe, reconcile_one}
use neotolis_ai_workbench.List.Progress.{Quiet, Closes, reconcile_one-Closes}

auto_pending-off :
    (d : TaskDict) (kind : Option String)
    → get_or d.auto_finish false ≡ false
    → auto_pending d kind ≡ false
unfolding auto_pending
auto_pending-off d kind h = rw h refl

module _ {H : Host} (F : Formats) (dumps : Fields → Bytes) where
  -- An event that `naiw-signal` has appended to a journal that was read to its end reaches task.json: if it
  -- is a `done` or a `fail`, the task is live and has no auto_finish, its container can be seen at once, and
  -- nobody else is at work, then one `_reconcile_one` that is no dry run stores and shows the status that
  -- the event asks for, and the new end of the journal as its offset. The time is read as a date, and the
  -- dump of the event is one line that decodes and loads back.
  pub signal-reconcile_one :
      (io : Io) (ts : String) (c : Command) (file : Bytes) (line : String) (e : Event) (q : Quiet H)
      (task_id : String) (st : Status) (d : TaskDict) (container : Option Container)
      (ctr : String × Option ℕ) (m : Mode) (w : World H)
      → event_of ts c ≡ some e
      → is_iso_datetime F ts ≡ true
      → Dumps F dumps (Events.as_dict e) line
      → (signal dumps io ts c file).1 ≡ success
      → is_closing (some e.kind) ≡ true
      → H.journal w.host
        ≡ (regular (length (signal dumps io ts c file).0), bytes (signal dumps io ts c file).0)
      → get_or d.events_offset 0 ≡ length file
      → w.task ≡ some d
      → d.status ≡ some (status_str st)
      → is_live st ≡ true
      → get_or d.auto_finish false ≡ false
      → m.dry_run ≡ false
      → observe container w ≡ (ok ctr, w)
      → Closes
          (status_str (closing_status (some e.kind)))
          (length (signal dumps io ts c file).0)
          (reconcile_one F task_id d container m w)
  unfolding latest_kind
  signal-reconcile_one io ts c file line e q task_id st d container ctr m w p iso u good k j o t s l
        a dry see =
      reconcile_one-Closes q F task_id st d container ctr m
        (record { offset = length (signal dumps io ts c file).0; valid = e ∷ []; malformed = [] }) w
        t s l dry see (rw (j, o) (tail_events-signal F dumps io ts c file line p iso u good)) k
        (auto_pending-off d (some e.kind) a)
