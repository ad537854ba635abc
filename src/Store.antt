-- ===== src/Store.antt =====
-- src/naiw_tasks/naiw_tasks/store.py: reading and replacing task.json under its lock. The lock
-- makes a read-modify-write one step, and os.replace publishes it whole, so a step has the file as
-- other processes left it before, and nothing in between. How the file is put in place, with the errors
-- of the disk, is in the child modules.
pub mod Rules
pub mod Replace
pub mod Atomic
use neotolis_ai_workbench.Base.{
  ℕ, ◌≡◌, Bool, true, false, Option, none, some, List, [], ◌∷◌, ◌++◌, get_or, ◌==◌,
}
use neotolis_ai_workbench.Base.{if◌then◌else◌}
use neotolis_ai_workbench.Model.{Task, TaskDict, empty_dict, as_dict, schema_version}
use neotolis_ai_workbench.Effects.{
  Host, World, M, Exn, file_not_found, unsupported_schema, Result, ok, err, ◌>>=◌, ◌>>◌, pure,
  raise,
}

pub is_supported : Option ℕ → Bool
is_supported none = false
is_supported (some v) = v == schema_version

unfoldable pub check_schema : Option TaskDict → Result TaskDict
unfolding is_supported
check_schema none = err file_not_found
check_schema (some d) = if is_supported d.schema_version then ok d else err unsupported_schema

module _ {H : Host} where
  -- Waiting for the lock: the others act, and task.json is what they left.
  unfoldable pub lock : M H (Option TaskDict)
  lock w =
      let (t, s) = H.interleave w.task w.host in
      (ok t, record { task = t; writes = w.writes; host = s })

  unfoldable pub read_task : M H TaskDict
  unfolding lock check_schema
  read_task = do found ← lock; λ w. (check_schema found, w)

  pub publish : TaskDict → Result TaskDict → M H TaskDict
  publish old (err e) w = (err e, w)
  publish old (ok new) w =
      (ok new, record { task = some new; writes = w.writes ++ (old, new) ∷ []; host = w.host })

  -- The mutator may raise, and then nothing is published.
  unfoldable pub update_task : (TaskDict → Result TaskDict) → M H TaskDict
  unfolding lock publish
  update_task mutator = do
    found ← lock
    let old = get_or found empty_dict
    publish old (mutator old)

  -- An update with a mutator that does not raise, and that notes something of the dict it found.
  unfoldable pub update_noting : {A : Type 0} → (TaskDict → TaskDict) → (TaskDict → A) → M H A
  unfolding lock publish
  update_noting mutator note = do
    found ← lock
    let old = get_or found empty_dict
    publish old (ok (mutator old))
    pure (note old)

  unfoldable pub write_task : Task → M H TaskDict
  unfolding update_task
  write_task task = update_task (λ _. ok (as_dict task))
