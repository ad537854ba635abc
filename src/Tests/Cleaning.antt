-- ===== src/Tests/Cleaning.antt =====
-- Runs of `clean`.
use mathlib.Core.List.{Memᴰ}
use neotolis_ai_workbench.Base.{◌≡◌, refl, ap, String, true, false, some, [], ◌∷◌, ◌⊎◌}
use neotolis_ai_workbench.Model.{empty_dict}
use neotolis_ai_workbench.Effects.{ok}
use neotolis_ai_workbench.Clean.{Namespace, Managed, Outcomes, run}
use neotolis_ai_workbench.Clean.Candidates.{Entry, Clock, enumerate_candidates}
use neotolis_ai_workbench.Base.Sort.{sorted, text_le}
use neotolis_ai_workbench.Clean.Sweep.{IsApproved, OldName, OrphanName}
use neotolis_ai_workbench.Clean.Removal.{run-entries, Clear, run-managed, run-Clear}

abbrev clock : Clock
clock = record { now = 1000; parse_iso = λ s. some 100 }

abbrev all_succeed : Outcomes
all_succeed = record {
  first_listing = true;
  final_listing = true;
  repo_exists = λ s. true;
  rmtree = λ s. true;
  remove = λ c. true;
  confirm = true;
}

abbrev old_entry : Entry
old_entry = record {
  name = "old-001";
  is_dir = true;
  dict = ok (record empty_dict { status = some "completed"; finished_at = some "2026-01-01" });
}

abbrev live_entry : Entry
live_entry = record {
  name = "live-001";
  is_dir = true;
  dict = ok (record empty_dict { status = some "running"; updated_at = some "2026-01-01" });
}

abbrev container_of : String → Managed
container_of id = record { name = id; task_id = some id; status = some "exited" }

abbrev before : Namespace
before = record {
  entries = old_entry ∷ live_entry ∷ [];
  managed = container_of "old-001" ∷ container_of "live-001" ∷ [];
  pruned = [];
}

-- The old task goes, and with it the container that has then no task.
cleaned :
    run clock all_succeed 500 false true before
    ≡ (record { entries = live_entry ∷ []; managed = container_of "live-001" ∷ []; pruned = [] }, 0)
unfolding run enumerate_candidates sorted text_le
cleaned = refl

run-entries_example :
    Memᴰ old_entry (run clock all_succeed 500 false true before).0.entries
    ⊎ (IsApproved all_succeed false true × OldName clock 500 before.entries "old-001")
run-entries_example = run-entries clock all_succeed 500 false true before old_entry (Memᴰ.head refl)

run-managed_example :
    Memᴰ (container_of "old-001") ((run clock all_succeed 500 false true before).0.managed)
    ⊎ (IsApproved all_succeed false true
        × OrphanName
            (run clock all_succeed 500 false true before).0.entries
            before.managed
            "old-001")
run-managed_example =
    run-managed clock all_succeed 500 false true before (container_of "old-001") (Memᴰ.head refl)

run-Clear_example : Clear clock all_succeed 500 (run clock all_succeed 500 false true before).0
run-Clear_example =
    run-Clear clock all_succeed 500 false true before (refl, refl) (ap (λ r. r.1) cleaned)

-- With no listing of the containers, the orphan stays, and the exit code is 0.
unlisted :
    run clock (record all_succeed { final_listing = false }) 500 false true before
    ≡ (record before { entries = live_entry ∷ [] }, 0)
unfolding run enumerate_candidates sorted text_le
unlisted = refl
