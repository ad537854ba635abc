-- ===== src/Tests/Storing.antt =====
-- Runs of the writing of task.json.
use neotolis_ai_workbench.Base.{
  ◌≡◌, refl, ◌==◌, true, false, Option, none, some, [], ◌∷◌, All, length, if◌then◌else◌,
}
use neotolis_ai_workbench.Model.{TaskDict, empty_dict}
use neotolis_ai_workbench.Store.Replace.{
  Bytes, Disk, Working, returned, raised, after, clean_up, writing, whole, fail, replaced, synced,
  flushed, ended, dumped, created, replace_file,
}
use neotolis_ai_workbench.Store.Atomic.{OldOrNew, Ended, replace_file-Atomic}

abbrev new_dict : TaskDict
new_dict = record empty_dict { status = some "running" }

abbrev dumps : TaskDict → Bytes
dumps d = 123 ∷ 125 ∷ []

-- Three bytes load, as the dump and a newline are; fewer do not.
abbrev loads : Bytes → Option TaskDict
loads bytes = if length bytes == 3 then some new_dict else none

-- The disk is full at the newline.
abbrev full_disk : Working
full_disk = record {
  create = true;
  dump = none;
  newline = some 2;
  flush = none;
  fsync = true;
  replace = true;
  unlink = true;
}

abbrev works : Working
works = record full_disk { newline = none }

abbrev old_disk : Disk
old_disk = record {
  target = some (record { bytes = 91 ∷ []; synced = true });
  tmp = none;
  former = [];
}

abbrev new_disk : Disk
new_disk = record {
  target = some (record { bytes = 123 ∷ 125 ∷ 10 ∷ []; synced = true });
  tmp = none;
  former = some (record { bytes = 91 ∷ []; synced = true }) ∷ [];
}

writes : replace_file works (dumps new_dict) old_disk ≡ record {
  outcome = returned;
  disks =
      record old_disk { tmp = some (record { bytes = []; synced = false }) }
      ∷ record old_disk { tmp = some (record { bytes = 123 ∷ 125 ∷ 10 ∷ []; synced = false }) }
      ∷ record old_disk { tmp = some (record { bytes = 123 ∷ 125 ∷ 10 ∷ []; synced = true }) }
      ∷ new_disk
      ∷ [];
}
unfolding replace_file created after writing dumped ended flushed synced replaced whole
writes = refl

fails : replace_file full_disk (dumps new_dict) old_disk ≡ record {
  outcome = raised;
  disks =
      record old_disk { tmp = some (record { bytes = []; synced = false }) }
      ∷ record old_disk { tmp = some (record { bytes = 123 ∷ 125 ∷ []; synced = false }) }
      ∷ old_disk
      ∷ [];
}
unfolding replace_file created after writing dumped ended fail clean_up whole
fails = refl

replace_file-Atomic_example :
    All (OldOrNew loads 1 old_disk new_dict) (replace_file works (dumps new_dict) old_disk).disks
    × Ended loads 1 old_disk new_dict (replace_file works (dumps new_dict) old_disk)
replace_file-Atomic_example = replace_file-Atomic dumps loads works 1 old_disk new_dict refl
