-- ===== src/Tests/Listing.antt =====
-- Runs of `list`.
use neotolis_ai_workbench.Base.{◌≡◌, refl, String, true, false, none, some, List, [], ◌∷◌}
use neotolis_ai_workbench.Base.Sort.{sorted, text_le}
use neotolis_ai_workbench.Model.{TaskDict, empty_dict}
use neotolis_ai_workbench.Tail.Tests.{
  io, dumps, moment, done_event, toy, journal, first_read, first,
}
use neotolis_ai_workbench.List.Update.{latest_kind, closing_status, auto_pending, is_closing}
use neotolis_ai_workbench.List.Progress.{Quiet, Closes, reconcile_one-Closes}
use neotolis_ai_workbench.Signal.{done, signal, append_event}
use neotolis_ai_workbench.Tail.{is_iso_datetime, replace_z}
use neotolis_ai_workbench.List.Signalled.{signal-reconcile_one}
use neotolis_ai_workbench.Effects.{Host, World}
use neotolis_ai_workbench.Events
use neotolis_ai_workbench.Model.{running}
use neotolis_ai_workbench.Tail.{regular, bytes, Formats, text, unparsable}
use neotolis_ai_workbench.List.{reconcile_one, observe}
use neotolis_ai_workbench.List.Update.{Mode}
use neotolis_ai_workbench.List.Rows.{TableRow, ListRequest, select_rows}
use neotolis_ai_workbench.List.Rows.Newest.{Shown, select_rows-Shown}
use neotolis_ai_workbench.Tests.Containers.{host}

-- Formats in which no line can be loaded.
abbrev formats : Formats
formats = record {
  decode = λ s. text "";
  loads = λ s. unparsable "no value";
  from_iso = λ s. true;
  repr = λ v. "value";
}

abbrev reap : Mode
reap = record { apply_auto_finish = true; dry_run = false }

abbrev running_dict : TaskDict
running_dict = record empty_dict { status = some "running"; auto_finish = some true }

abbrev row : String → String → TableRow
row id updated = record {
  dict = record empty_dict { id = some id; updated_at = some updated };
  computed = record { status = "running"; transitioned = false; notes = []; failure_reason = none };
  ctr_state = "running";
  exit_code = none;
}

abbrev pub latest_two : ListRequest
latest_two = record {
  limit = some 2;
  statuses = "running" ∷ [];
  project_filter = none;
  show_all = false;
  as_json = false;
  limit_was_explicit = false;
}

abbrev three_rows : List TableRow
three_rows = row "b" "2026-01-01" ∷ row "c" "2026-01-02" ∷ row "a" "2026-01-01" ∷ []

newest_first : select_rows latest_two three_rows ≡ row "c" "2026-01-02" ∷ row "a" "2026-01-01" ∷ []
unfolding select_rows sorted text_le
newest_first = refl

select_rows-Shown_example :
    (rest : List TableRow) × Shown latest_two three_rows (select_rows latest_two three_rows) rest
select_rows-Shown_example = select_rows-Shown latest_two three_rows

-- A host with one whole line in the journal.
abbrev pub host_with_journal : Host
host_with_journal = record host { journal = λ s. (regular 3, bytes journal) }

host_with_journal-Quiet : Quiet host_with_journal
host_with_journal-Quiet = record { alone = λ t s. refl }

abbrev pub manual_dict : TaskDict
manual_dict = record empty_dict { status = some "running" }

abbrev world : World host_with_journal
world = record { task = some manual_dict; writes = []; host = false }

abbrev pub plain_list : Mode
plain_list = record { apply_auto_finish = false; dry_run = false }

reconcile_one-Closes_example :
    Closes {H = host_with_journal} "completed" 2
      (reconcile_one toy "demo-001" manual_dict none plain_list world)
unfolding latest_kind closing_status auto_pending observe Events.done
reconcile_one-Closes_example =
    reconcile_one-Closes host_with_journal-Quiet toy "demo-001" running manual_dict none
      ("notfound", none) plain_list first_read world refl refl refl refl refl first refl refl

abbrev signalled : Host
signalled = record host { journal = λ s. (regular 4, bytes (63 ∷ 10 ∷ 100 ∷ 10 ∷ [])) }

signalled-Quiet : Quiet signalled
signalled-Quiet = record { alone = λ t s. refl }

-- The journal was read to its end.
abbrev read_dict : TaskDict
read_dict = record manual_dict { events_offset = some 2 }

abbrev signalled_world : World signalled
signalled_world = record { task = some read_dict; writes = []; host = false }

signal-reconcile_one_example :
    Closes {H = signalled} "completed" 4
      (reconcile_one toy "demo-001" read_dict none plain_list signalled_world)
unfolding signal Events.done Events.as_dict is_iso_datetime replace_z append_event closing_status
    observe is_closing
signal-reconcile_one_example =
    signal-reconcile_one toy dumps io moment (done (some "all green")) (63 ∷ 10 ∷ []) "d" done_event
      signalled-Quiet "demo-001" running read_dict none ("notfound", none) plain_list
      signalled_world refl refl (record { one_line = (refl, tt); decoded = refl; loaded = refl })
      refl refl refl refl refl refl refl refl refl refl
