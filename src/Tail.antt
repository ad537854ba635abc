-- ===== src/Tail.antt =====
-- src/naiw_tasks/naiw_tasks/events_tail.py: the tail of the event journal, over its bytes.
pub mod Lines
mod Split
pub mod Resume
pub mod Validity
pub mod Account
pub mod Tests
use Prim.Native.Char.{code}
use Prim.Native.String
use neotolis_ai_workbench.Base.{
  ℕ, ◌+◌, ◌-◌, String, ◌<>◌, Bool, true, false, not, ◌||◌, Option, none,
}
use neotolis_ai_workbench.Base.{some, List, [], ◌∷◌, ltb, ◌==◌, str_eq, one_of}
use neotolis_ai_workbench.Base.{if◌then◌else◌, length, take, drop}
use neotolis_ai_workbench.Json
use neotolis_ai_workbench.Json.{Json, Fields, str, arr, obj}
use neotolis_ai_workbench.Events.{Event}
use Lines.{Bytes, split, init, last}

pub record Malformed : Type 0 where
  pub raw_line : String
  pub reason : String

-- A text, or an error: its message, and the text to show for it.
pub data Decoded : Type 0 where
  text : String → Decoded
  undecodable : String → String → Decoded

-- A value, a JSONDecodeError with its message, or another exception: `json.loads` raises a plain
-- ValueError on an integer of more than 4300 digits, and RecursionError on deep nesting.
pub data Loaded : Type 0 where
  value : Json → Loaded
  unparsable : String → Loaded
  fails : Loaded

-- Python's decoder of UTF-8, `json.loads`, the test of `datetime.fromisoformat`, and `repr`.
pub record Formats : Type 0 where
  pub decode : Bytes → Decoded
  pub loads : String → Loaded
  pub from_iso : String → Bool
  pub repr : Option Json → String

-- `events_path.lstat()`: the mode of what is no regular file, or the size.
pub data Lstat : Type 0 where
  missing : Lstat
  special : String → Lstat
  regular : ℕ → Lstat

-- `os.open` with O_NOFOLLOW: an error, or the bytes that the file has when it is read.
pub data Opened : Type 0 where
  refused : String → Opened
  bytes : Bytes → Opened

-- What becomes of one complete line. `raises` is an exception that nothing in the function catches.
pub data Line : Type 0 where
  event : Event → Line
  bad : Malformed → Line
  raises : Line

pub record Tailed : Type 0 where
  pub offset : ℕ
  pub valid : List Event
  pub malformed : List Malformed

-- `value.replace("Z", "+00:00")`
unfoldable pub replace_z : String → String
replace_z String.[] = ""
replace_z (String.◌∷◌ c s) =
    if code c == b'Z' then "+00:00" <> replace_z s else String.◌∷◌ c (replace_z s)

abbrev pub valid_kinds : List String
valid_kinds = "done" ∷ "fail" ∷ "wait" ∷ []

abbrev needs_reason : String → Bool
needs_reason kind = one_of kind ("fail" ∷ "wait" ∷ [])

abbrev pub nothing : ℕ → Tailed
nothing offset = record { offset = offset; valid = []; malformed = [] }

abbrev refuse : ℕ → String → Tailed
refuse offset why = record {
  offset = offset;
  valid = [];
  malformed = record { raw_line = ""; reason = why } ∷ [];
}

module _ (F : Formats) where
  abbrev reject : String → String → Option Json → Line
  reject raw what v = bad (record { raw_line = raw; reason = what <> F.repr v })

  unfoldable pub is_iso_datetime : String → Bool
  is_iso_datetime s = F.from_iso (replace_z s)

  -- `payload.get("reason")` is a text, and not empty.
  pub has_reason : Option Json → Bool
  has_reason (some (str r)) = not (str_eq r "")
  has_reason _ = false

  check_payload : Fields → String → String → String → Json → Option Json → Line
  check_payload o raw kind ts sv (some (obj payload)) =
      let e : Event = record { ts = ts; kind = kind; payload = payload; schema_version = sv } in
      if needs_reason kind
      then if has_reason (Json.get "reason" payload)
        then event e
        else reject raw "bad reason: " (Json.get "reason" payload)
      else event e
  check_payload o raw kind ts sv _ =
      bad (record { raw_line = raw; reason = "bad payload: not an object" })

  check_ts : Fields → String → String → Json → Option Json → Line
  check_ts o raw kind sv (some (str ts)) =
      if is_iso_datetime ts
      then check_payload o raw kind ts sv (Json.get "payload" o)
      else reject raw "bad ts: " (some (str ts))
  check_ts o raw kind sv v = reject raw "bad ts: " v

  check_version : Fields → String → String → Option Json → Line
  check_version o raw kind none = reject raw "bad schema_version: " none
  check_version o raw kind (some sv) =
      if Json.equals_one (some sv)
      then check_ts o raw kind sv (Json.get "ts" o)
      else reject raw "bad schema_version: " (some sv)

  -- The test `kind in _VALID_KINDS` hashes its argument, so a list or a dict raises TypeError.
  check_kind : Fields → String → Option Json → Line
  check_kind o raw (some (str kind)) =
      if one_of kind valid_kinds
      then check_version o raw kind (Json.get "schema_version" o)
      else reject raw "bad kind: " (some (str kind))
  check_kind o raw (some (arr items)) = raises
  check_kind o raw (some (obj fields)) = raises
  check_kind o raw v = reject raw "bad kind: " v

  pub validate_event : Fields → String → Line
  unfolding check_kind check_version check_ts check_payload has_reason is_iso_datetime
  validate_event o raw = check_kind o raw (Json.get "kind" o)

  load_line : String → Loaded → Line
  load_line line (unparsable msg) = bad (record { raw_line = line; reason = "json: " <> msg })
  load_line line fails = raises
  load_line line (value (obj o)) = validate_event o line
  load_line line (value v) = bad (record { raw_line = line; reason = "not an object" })

  decode_line : Decoded → Line
  decode_line (undecodable msg shown) = bad (record { raw_line = shown; reason = "utf-8: " <> msg })
  decode_line (text line) = load_line line (F.loads line)

  -- One round of the loop over the complete lines.
  pub read_line : Bytes → Line
  unfolding decode_line load_line
  read_line raw = decode_line (F.decode raw)

  put : Line → Option Tailed → Option Tailed
  put raises _ = none
  put _ none = none
  put (event e) (some t) = some (record t { valid = e ∷ t.valid })
  put (bad line) (some t) = some (record t { malformed = line ∷ t.malformed })

  -- The loop: events and malformed lines, each in the order of the file. `none` is an exception.
  pub read_lines : ℕ → List Bytes → Option Tailed
  read_lines new_offset [] = some (nothing new_offset)
  read_lines new_offset (raw ∷ complete) = put (read_line raw) (read_lines new_offset complete)

  -- From the split of the chunk on.
  pub read_chunk : ℕ → Bytes → Option Tailed
  read_chunk offset chunk =
      let lines = split chunk in
      read_lines (offset + (length chunk - length (last lines))) (init lines)

  open_file : ℕ → ℕ → Opened → Option Tailed
  open_file offset size (refused exc) =
      some (refuse offset ("refused: open failed (" <> exc <> ")"))
  open_file offset size (bytes contents) =
      read_chunk offset (take (size - offset) (drop offset contents))

  unfoldable pub tail_events : Lstat → Opened → ℕ → Option Tailed
  unfolding open_file read_chunk read_lines put
  tail_events missing file offset = some (nothing offset)
  tail_events (special mode) file offset =
      some (refuse offset ("refused: not a regular file (mode=" <> mode <> ")"))
  tail_events (regular size) file offset =
      let from : ℕ = if ltb size offset then 0 else offset in
      if from == size then some (nothing from) else open_file from size file
