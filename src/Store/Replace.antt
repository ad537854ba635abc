-- ===== src/Store/Replace.antt =====
-- How `update_task` of src/naiw_tasks/naiw_tasks/store.py puts a new task.json in place: every state of
-- the disk on the way, with the operations that fail. A file has what has been written, and whether
-- that is on the disk for sure; after a loss of power the rest of it may be missing. A replacement is
-- seen at once, but a loss of power may undo it.
use neotolis_ai_workbench.Base.{
  ℕ, zero, suc, Bool, true, false, Option, none, some, List, [], ◌∷◌, ◌++◌, take, if◌then◌else◌,
}
use neotolis_ai_workbench.Model.{TaskDict}

abbrev pub Bytes : Type 0
Bytes = List ℕ

pub record File : Type 0 where
  pub bytes : Bytes
  pub synced : Bool

-- task.json and the temporary file beside it; and what task.json was before, the last one first. No
-- `fsync` of the directory follows a replacement, so a loss of power may undo the last ones.
pub record Disk : Type 0 where
  pub target : Option File
  pub tmp : Option File
  pub former : List (Option File)

-- Which operations work. A write that fails has written some bytes; so has one that works, but they
-- may still be in the buffer.
pub record Working : Type 0 where
  pub create : Bool
  pub dump : Option ℕ
  pub newline : Option ℕ
  pub flush : Option ℕ
  pub fsync : Bool
  pub replace : Bool
  pub unlink : Bool

pub data Outcome : Type 0 where
  returned raised : Outcome

-- What has happened: the outcome, and the disks that there were, the first one first.
pub record Run : Type 0 where
  pub outcome : Outcome
  pub disks : List Disk

unfoldable pub after : Disk → Run → Run
after d r = record { outcome = r.outcome; disks = d ∷ r.disks }

-- `except` of the writing: the temporary file is removed, and the exception goes on.
unfoldable pub clean_up : Bool → Disk → Run
clean_up true d = record { outcome = raised; disks = record d { tmp = none } ∷ [] }
clean_up false d = record { outcome = raised; disks = [] }

-- What is in the temporary file so far.
unfoldable pub writing : Disk → Bytes → Bool → Disk
writing d bytes synced = record d { tmp = some (record { bytes = bytes; synced = synced }) }

module _ (W : Working) (text : Bytes) where
  unfoldable pub whole : Bytes
  whole = text ++ 10 ∷ []

  -- A failure at a point of the writing.
  unfoldable pub fail : Disk → Bytes → Run
  unfolding after clean_up writing
  fail d bytes = after (writing d bytes false) (clean_up W.unlink (writing d bytes false))

  -- `os.replace`: the temporary file becomes task.json.
  unfoldable pub replaced : Bool → Disk → Run
  unfolding clean_up
  replaced true s = record {
    outcome = returned;
    disks = record { target = s.tmp; tmp = none; former = s.target ∷ s.former } ∷ [];
  }
  replaced false s = clean_up W.unlink s

  unfoldable pub synced : Bool → Disk → Run
  unfolding after replaced writing fail whole
  synced true d = let s = writing d whole true in after s (replaced W.replace s)
  synced false d = fail d whole

  unfoldable pub flushed : Option ℕ → Disk → Run
  unfolding after synced fail whole writing
  flushed none d = after (writing d whole false) (synced W.fsync d)
  flushed (some n) d = fail d (take n whole)

  unfoldable pub ended : Option ℕ → Disk → Run
  unfolding after flushed fail whole writing
  ended none d = flushed W.flush d
  ended (some n) d = fail d (take n whole)

  unfoldable pub dumped : Option ℕ → Disk → Run
  unfolding ended fail
  dumped none d = ended W.newline d
  dumped (some n) d = fail d (take n text)

  -- Everything from the creation of the temporary file on.
  unfoldable pub created : Bool → Disk → Run
  unfolding after writing dumped
  created true d = after (writing d [] false) (dumped W.dump d)
  created false d = record { outcome = raised; disks = [] }

  unfoldable pub replace_file : Disk → Run
  unfolding created
  replace_file d = created W.create d

-- What task.json is after a loss of power that undoes the last `k` replacements.
unfoldable pub survivor : Option File → List (Option File) → ℕ → Option File
survivor target former zero = target
survivor target [] (suc k) = target
survivor target (f ∷ former) (suc k) = survivor f former k

-- What is read from a file of which a loss of power leaves `n` bytes, if it was not synced.
unfoldable pub contents : (Bytes → Option TaskDict) → ℕ → Option File → Option TaskDict
contents loads n none = none
contents loads n (some f) = if f.synced then loads f.bytes else loads (take n f.bytes)

unfoldable pub after_loss : (Bytes → Option TaskDict) → ℕ → ℕ → Disk → Option TaskDict
unfolding contents survivor
after_loss loads n k d = contents loads n (survivor d.target d.former k)

-- What is read with no loss of power.
unfoldable pub read_now : (Bytes → Option TaskDict) → Option File → Option TaskDict
read_now loads none = none
read_now loads (some f) = loads f.bytes
