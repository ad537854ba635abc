-- ===== src/Tests/Reaping.antt =====
-- Runs of `list` and `reap` over all tasks.
use neotolis_ai_workbench.List.Run.Finality.{KeepsFinal, run-KeepsFinal}
use neotolis_ai_workbench.Base.{◌≡◌, refl, true, false, List, [], ◌∷◌, All}
use neotolis_ai_workbench.Tail.Tests.{toy}
use neotolis_ai_workbench.Effects.{ok, err, file_not_found}
use neotolis_ai_workbench.Base.Sort.{sorted, text_le}
use neotolis_ai_workbench.Clean.Candidates.{Entry}
use neotolis_ai_workbench.List.Update.{Mode}
use neotolis_ai_workbench.List.Run.{run, enumerate_tasks}
use neotolis_ai_workbench.List.Run.Histories.{Rounds, error_of, run-Rounds, run-dry}
use neotolis_ai_workbench.Tests.Listing.{host_with_journal, manual_dict, plain_list, latest_two}

abbrev entries : List Entry
entries =
    record { name = "task-002"; is_dir = true; dict = ok manual_dict }
    ∷ record { name = "task-001"; is_dir = true; dict = err file_not_found }
    ∷ record { name = "demo-001"; is_dir = true; dict = ok manual_dict }
    ∷ record { name = "notes"; is_dir = false; dict = err file_not_found }
    ∷ []

by_name : enumerate_tasks entries ≡ ("demo-001", manual_dict) ∷ ("task-002", manual_dict) ∷ []
unfolding enumerate_tasks sorted text_le
by_name = refl

abbrev rehearsal : Mode
rehearsal = record { apply_auto_finish = true; dry_run = true }

run-Rounds_example :
    Rounds host_with_journal toy plain_list []
      (enumerate_tasks entries)
      (error_of (run host_with_journal toy plain_list [] latest_two entries false).0)
      (run host_with_journal toy plain_list [] latest_two entries false).1
run-Rounds_example = run-Rounds host_with_journal toy plain_list [] latest_two entries false

run-dry_example :
    All (λ h. h.1 ≡ []) (run host_with_journal toy rehearsal [] latest_two entries false).1
run-dry_example = run-dry host_with_journal toy rehearsal [] latest_two entries false refl

run-KeepsFinal_example :
    All
      (λ h. All KeepsFinal h.1)
      (run host_with_journal toy plain_list [] latest_two entries false).1
run-KeepsFinal_example =
    run-KeepsFinal host_with_journal toy plain_list [] latest_two entries false refl
