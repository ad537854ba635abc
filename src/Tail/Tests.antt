-- ===== src/Tail/Tests.antt =====
-- Runs of src/naiw_tasks/naiw_tasks/events_tail.py and of src/naiw_signal/naiw_signal on a toy format:
-- a line `d` loads as one event, a line `k` as an object whose kind is a list.
use neotolis_ai_workbench.Base.{
  ◌≡◌, refl, String, true, ◌<>◌, none, some, [], ◌∷◌, arith, str_eq, ◌==◌, if◌then◌else◌,
}
use neotolis_ai_workbench.Json.{get, equals_one, Fields, arr, nil, obj, field, end}
use neotolis_ai_workbench.Events
use neotolis_ai_workbench.Events.{Event}
use neotolis_ai_workbench.Tail.{
  Formats, Tailed, text, Loaded, value, unparsable, tail_events, read_line, validate_event,
  replace_z, is_iso_datetime,
}
use neotolis_ai_workbench.Tail.Lines.{Bytes, init, last, split}
use neotolis_ai_workbench.Tail.Resume.{tail_file, both, tail_events-resume}
use neotolis_ai_workbench.Tail.Validity.{unread_lines, tail_events_raises}
use neotolis_ai_workbench.Tail.Account.{Reports, tail_events-Reports}
use neotolis_ai_workbench.Signal.{Io, done, signal, append_event}
use neotolis_ai_workbench.Signal.RoundTrip.{tail_events-signal}

abbrev pub moment : String
moment = "2026-01-02T03:04:05+00:00"

abbrev pub done_event : Event
done_event = Events.done moment (some "all green")

abbrev list_kind : Fields
list_kind = field "kind" (arr nil) end

abbrev toy_text : Bytes → String
toy_text [] = ""
toy_text (c ∷ s) = (if c == 100 then "d" else if c == 107 then "k" else "?") <> toy_text s

abbrev toy_loads : String → Loaded
toy_loads s =
    if str_eq s "d"
    then value (obj (Events.as_dict done_event))
    else if str_eq s "k"
    then value (obj list_kind)
    else unparsable "Expecting value"

abbrev pub toy : Formats
toy = record {
  decode = λ s. text (toy_text s);
  loads = toy_loads;
  from_iso = λ s. str_eq s moment;
  repr = λ v. "value";
}

-- A whole line and the beginning of the next.
abbrev pub journal : Bytes
journal = 100 ∷ 10 ∷ 63 ∷ []

abbrev pub first_read : Tailed
first_read = record { offset = 2; valid = done_event ∷ []; malformed = [] }

pub first : tail_file toy journal 0 ≡ some first_read
unfolding tail_events Events.done Events.as_dict init split read_line validate_event get equals_one
    replace_z last
first = refl

tail_events-resume_example :
    tail_file toy (100 ∷ 10 ∷ 63 ∷ 10 ∷ 100 ∷ 10 ∷ []) 0
    ≡ both (some first_read) (tail_file toy (100 ∷ 10 ∷ 63 ∷ 10 ∷ 100 ∷ 10 ∷ []) 2)
tail_events-resume_example =
    tail_events-resume toy journal (10 ∷ 100 ∷ 10 ∷ []) 0 (omega arith) first

tail_events-Reports_example : Reports toy (unread_lines toy journal 0) (done_event ∷ []) []
unfolding init split
tail_events-Reports_example = tail_events-Reports toy journal 0 (omega arith) first

tail_events_raises_example : tail_file toy (107 ∷ 10 ∷ 100 ∷ 10 ∷ []) 0 ≡ none
unfolding init split get
tail_events_raises_example =
    tail_events_raises toy (107 ∷ 10 ∷ 100 ∷ 10 ∷ []) 0 [] ((100 ∷ []) ∷ []) (107 ∷ []) "k"
      list_kind nil (omega arith) refl refl refl refl

abbrev pub io : Io
io = record { open_ok = true; write = some 2; fsync_ok = true; close_ok = true }

abbrev pub dumps : Fields → Bytes
dumps d = 100 ∷ []

tail_events-signal_example :
    tail_file toy (signal dumps io moment (done (some "all green")) (63 ∷ 10 ∷ [])).0 2
    ≡ some (record { offset = 4; valid = done_event ∷ []; malformed = [] })
unfolding signal Events.done Events.as_dict is_iso_datetime replace_z append_event
tail_events-signal_example =
    tail_events-signal toy dumps io moment (done (some "all green")) (63 ∷ 10 ∷ []) "d" refl refl
      (record { one_line = (refl, tt); decoded = refl; loaded = refl }) refl
