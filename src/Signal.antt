-- ===== src/Signal.antt =====
-- src/naiw_signal/naiw_signal: `naiw-signal done|fail|wait`, run in the task container. It appends
-- one line to the journal.
pub mod RoundTrip
pub mod Queue
use neotolis_ai_workbench.Base.{ℕ, String, Bool, true, false, Option, none, some, List, [], ◌∷◌}
use neotolis_ai_workbench.Base.{◌++◌, leb, ◌==◌, if◌then◌else◌, length, take}
use neotolis_ai_workbench.Json.{Fields}
use neotolis_ai_workbench.Events
use neotolis_ai_workbench.Events.{Event}
use neotolis_ai_workbench.Tail.Lines.{Bytes, newline}

abbrev pub pipe_buf_limit : ℕ
pipe_buf_limit = 4096

-- How the system calls end: `os.write` raises, or writes a number of bytes.
pub record Io : Type 0 where
  pub open_ok : Bool
  pub write : Option ℕ
  pub fsync_ok : Bool
  pub close_ok : Bool

-- The process succeeds, exits with 1 after a message, or ends by a ValueError.
pub data Exit : Type 0 where
  success too_large open_failed write_failed short_write fsync_failed close_failed : Exit
  value_error : Exit

pub data Command : Type 0 where
  done : Option String → Command
  fail : String → Command
  wait : String → Command

-- The event of a command, at the time that `now_iso` gave.
unfoldable pub event_of : String → Command → Option Event
event_of ts (done summary) = some (Events.done ts summary)
event_of ts (fail reason) = Events.fail ts reason
event_of ts (wait reason) = Events.wait ts reason

-- `json.dumps` with its arguments, encoded, is a parameter.
module _ (dumps : Fields → Bytes) where
  unfoldable pub serialise : Fields → Bytes
  serialise event = dumps event ++ newline ∷ []

  -- `finally`: an error of `close` replaces the exit that is under way.
  closing : Io → Exit → Exit
  closing io exit = if io.close_ok then exit else close_failed

  write_all : Io → Bytes → Bytes → Bytes × Exit
  write_all io encoded file = elim io.write [
    | none ↦ (file, closing io write_failed)
    | some n ↦ (
      file ++ take n encoded,
      closing io (
          if n == length encoded
          then if io.fsync_ok then success else fsync_failed
          else short_write),
    )
  ]

  unfoldable pub append_event : Io → Fields → Bytes → Bytes × Exit
  unfolding serialise write_all closing
  append_event io event file =
      let encoded = serialise event in
      if leb pipe_buf_limit (length encoded)
      then (file, too_large)
      else if io.open_ok
      then write_all io encoded file
      else (file, open_failed)

  unfoldable pub signal : Io → String → Command → Bytes → Bytes × Exit
  unfolding event_of
  signal io ts command file = elim (event_of ts command) [
    | none ↦ (file, value_error)
    | some event ↦ append_event io (Events.as_dict event) file
  ]
