-- ===== src/Signal/Queue.antt =====
-- The journal between `naiw-signal` and `tail_events` is a queue of events.
use neotolis_ai_workbench.Base.{
  ℕ, ◌≤◌, ◌≡◌, refl, ap, ◌∙◌, String, true, false, Option, none, some, List, [], ◌∷◌, ◌++◌, All,
  length, length-append, arith, inl, inr, Option-cases, ltb, ◌==◌,
}
use neotolis_ai_workbench.Json.{Fields}
use neotolis_ai_workbench.Events
use neotolis_ai_workbench.Events.{Event}
use neotolis_ai_workbench.Tail.{Formats, Tailed, tail_events, is_iso_datetime}
use neotolis_ai_workbench.Tail.Lines.{Bytes}
use neotolis_ai_workbench.Tail.Resume.{tail_file, tail_events-resume}
use neotolis_ai_workbench.Signal.{Io, Command, Exit, success, signal, serialise, event_of}
use neotolis_ai_workbench.Signal.RoundTrip.{
  Dumps, tail_events-signal, signal_of_event, appended_line,
}

-- A command run in the container at a time, or a look at the journal by the controller.
pub data Op : Type 0 where
  emit : Io → String → Command → Op
  look : Op

-- The specification: `look` takes all that the queue holds.
enqueue : Option Event → List Event → List Event
enqueue none queue = queue
enqueue (some e) queue = queue ++ e ∷ []

unfoldable pub queue_run : List Op → List Event → List (List Event)
unfolding enqueue
queue_run [] queue = []
queue_run (emit io ts c ∷ ops) queue = queue_run ops (enqueue (event_of ts c) queue)
queue_run (look ∷ ops) queue = queue ∷ queue_run ops []

module _ (F : Formats) (dumps : Fields → Bytes) where
  looked : Option Tailed → (ℕ → Option (List (List Event))) → Option (List (List Event))
  looked none rest = none
  looked (some t) rest = elim (rest t.offset) [ none ↦ none | some seen ↦ some (t.valid ∷ seen) ]

  -- The code: a look goes on from the offset that the last one returned. `none`: a look raises.
  unfoldable pub journal_run : List Op → Bytes → ℕ → Option (List (List Event))
  unfolding looked
  journal_run [] file offset = some []
  journal_run (emit io ts c ∷ ops) file offset =
      journal_run ops (signal dumps io ts c file).0 offset
  journal_run (look ∷ ops) file offset = looked (tail_file F file offset) (journal_run ops file)

  -- The command succeeds, at a time that is read as a date, and with an event whose dump is one line that
  -- decodes and loads back; or it is refused for an empty reason.
  abbrev pub Sound : Op → Type 0
  Sound look = Unit
  Sound (emit io ts c) =
      (e : Event)
      → event_of ts c ≡ some e
      → (is_iso_datetime F ts ≡ true)
        × ((line : String) × Dumps F dumps (Events.as_dict e) line)
        × ((file : Bytes) → (signal dumps io ts c file).1 ≡ success)

  -- The bytes from the offset on hold this queue.
  abbrev pub Holds : Bytes → ℕ → List Event → Type 0
  Holds file offset queue =
      (offset ≤ length file)
      × (tail_file F file offset
          ≡ some (record { offset = length file; valid = queue; malformed = [] }))

  empty-Holds : (file : Bytes) → Holds file (length file) []
  unfolding tail_events
  empty-Holds file =
      let n = length file in
      let e : ltb n n ≡ false = ground arith in
      let f : n == n ≡ true = ground arith in (omega arith, rw (e, f) refl)

  signal-none :
      (io : Io) (ts : String) (c : Command) (file : Bytes)
      → event_of ts c ≡ none
      → (signal dumps io ts c file).0 ≡ file
  unfolding signal
  signal-none io ts c file h = rw (h, signal) refl

  signal-Holds :
      (io : Io) (ts : String) (c : Command) (file : Bytes) (offset : ℕ) (queue : List Event)
      → Sound (emit io ts c)
      → Holds file offset queue
      → Holds (signal dumps io ts c file).0 offset (enqueue (event_of ts c) queue)
  unfolding enqueue
  signal-Holds io ts c file offset queue s (h, r) = elim (Option-cases (event_of ts c)) [
    | inl n ↦ rw (n, signal-none io ts c file n) (h, r)
    | inr (e, p) ↦
        let (iso, (line, d), good) = s e p in
        let w = serialise dumps (Events.as_dict e) in
        let k = signal_of_event F dumps io ts c file p in
        let a : (signal dumps io ts c file).0 ≡ file ++ w =
          ap (λ (x : Bytes × Exit). x.0) k
          ∙ appended_line F dumps io (Events.as_dict e) file (rw k at (good file)) in
        let new = tail_events-signal F dumps io ts c file line p iso d (good file) in
        rw (a, p)
          (
            omega (arith, length-append file w),
            tail_events-resume F file w offset h r ∙ rw (rw a at new) refl,
          )
  ]

  looked-some :
      (t : Tailed) (rest : ℕ → Option (List (List Event))) (seen : List (List Event))
      → rest t.offset ≡ some seen
      → looked (some t) rest ≡ some (t.valid ∷ seen)
  unfolding looked
  looked-some t rest seen h = rw (looked, h) refl

  run-queue :
      (ops : List Op) (file : Bytes) (offset : ℕ) (queue : List Event)
      → All Sound ops
      → Holds file offset queue
      → journal_run ops file offset ≡ some (queue_run ops queue)
  unfolding journal_run queue_run
  run-queue [] file offset queue s h = refl
  run-queue (emit io ts c ∷ ops) file offset queue (s, ss) h =
      run-queue ops (signal dumps io ts c file).0 offset (enqueue (event_of ts c) queue) ss
        (signal-Holds io ts c file offset queue s h)
  run-queue (look ∷ ops) file offset queue (s, ss) (h, r) = rw r (
      looked-some (record { offset = length file; valid = queue; malformed = [] })
        (journal_run ops file) (queue_run ops [])
        (run-queue ops file (length file) [] ss (empty-Holds file)))

  -- Any sequence of `naiw-signal` commands and of looks at the journal, each look from the offset that the last
  -- one returned: the looks return what a queue of the events would, so each event once, in order, and raise
  -- never. The journal begins empty, and each command that has an event succeeds, at a time that is read as a
  -- date, with a dump that is one line that decodes and loads back.
  pub journal_run-queue_run :
      (ops : List Op) → All Sound ops → journal_run ops [] 0 ≡ some (queue_run ops [])
  journal_run-queue_run ops s = run-queue ops [] 0 [] s (empty-Holds [])
