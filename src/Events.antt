-- ===== src/Events.antt =====
-- src/naiw_common/naiw_common/events.py: the schema of one line of /io/.naiw/events.jsonl.
use neotolis_ai_workbench.Base.{ℕ, String, Option, none, some, str_eq, if◌then◌else◌}
use neotolis_ai_workbench.Json.{Json, Fields, int, str, obj, end, field}

abbrev pub schema_version : ℕ
schema_version = 1

pub record Event : Type 0 where
  pub ts : String
  pub kind : String
  pub payload : Fields
  pub schema_version : Json

-- `none` is the ValueError of an empty reason. `ts` is what `now_iso` returned.
unfoldable pub done : String → Option String → Event
done ts none = record { ts = ts; kind = "done"; payload = end; schema_version = int 1 }
done ts (some summary) = record {
  ts = ts;
  kind = "done";
  payload = field "summary" (str summary) end;
  schema_version = int 1;
}

with_reason : String → String → String → Option Event
with_reason ts kind reason =
    if str_eq reason ""
    then none
    else some (record {
      ts = ts;
      kind = kind;
      payload = field "reason" (str reason) end;
      schema_version = int 1;
    })

unfoldable pub fail : String → String → Option Event
unfolding with_reason
fail ts reason = with_reason ts "fail" reason

unfoldable pub wait : String → String → Option Event
unfolding with_reason
wait ts reason = with_reason ts "wait" reason

-- `asdict`: the fields in the order of the dataclass.
unfoldable pub as_dict : Event → Fields
as_dict e = field "ts" (str e.ts) (
    field "kind" (str e.kind)
      (field "payload" (obj e.payload) (field "schema_version" e.schema_version end)))
