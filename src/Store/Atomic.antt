-- ===== src/Store/Atomic.antt =====
-- The writing of task.json is atomic.
use neotolis_ai_workbench.Base.{
  ◌≡◌, refl, ap, ℕ, zero, suc, ◌⊎◌, inl, inr, Bool, true, false, Option, none, some, List, [], ◌∷◌,
  ◌++◌, All,
}
use neotolis_ai_workbench.Model.{TaskDict}
use neotolis_ai_workbench.Store.Replace.{
  Bytes, File, Disk, Working, returned, raised, Run, after, clean_up, writing, whole, fail,
  replaced, synced, flushed, ended, dumped, created, replace_file, survivor, contents, after_loss,
  read_now,
}

-- The last disk, or the one before all.
pub final : Disk → List Disk → Disk
final d [] = d
final d (s ∷ disks) = final s disks

-- task.json is as before, and so is what it was before that.
abbrev Same : Disk → Disk → Type 0
Same d s = (s.target ≡ d.target) × (s.former ≡ d.former)

-- task.json is as before on every disk; or so it is until the last one, where it is the new file.
data Replaces (d : Disk) (file : File) : Run → Type 0 where
  kept :
      {disks : List Disk}
      → All (Same d) disks
      → Replaces d file (record { outcome = raised; disks = disks })
  put :
      (disks : List Disk)
      → All (Same d) disks
      → Replaces d file (record {
        outcome = returned;
        disks =
            disks ++ record { target = some file; tmp = none; former = d.target ∷ d.former } ∷ [];
      })

module _ (d : Disk) (file : File) where
  after-Replaces : (s : Disk) (r : Run) → Same d s → Replaces d file r → Replaces d file (after s r)
  unfolding after
  after-Replaces s r e (kept h) = kept (e, h)
  after-Replaces s r e (put disks h) = put (s ∷ disks) (e, h)

  clean_up-Replaces : (b : Bool) (s : Disk) → Same d s → Replaces d file (clean_up b s)
  unfolding clean_up
  clean_up-Replaces true s e = kept (e, tt)
  clean_up-Replaces false s e = kept tt

module _ (W : Working) (text : Bytes) (d : Disk) where
  abbrev new_file : File
  new_file = record { bytes = text ++ 10 ∷ []; synced = true }

  fail-Replaces : (bytes : Bytes) → Replaces d new_file (fail W text d bytes)
  unfolding fail writing
  fail-Replaces bytes =
      after-Replaces d new_file _ _ (refl, refl)
        (clean_up-Replaces d new_file W.unlink _ (refl, refl))

  replaced-Replaces :
      (b : Bool) → Replaces d new_file (replaced W text b (writing d (whole W text) true))
  unfolding replaced writing whole
  replaced-Replaces true = put [] tt
  replaced-Replaces false = clean_up-Replaces d new_file W.unlink _ (refl, refl)

  synced-Replaces : (b : Bool) → Replaces d new_file (synced W text b d)
  unfolding synced writing
  synced-Replaces false = fail-Replaces _
  synced-Replaces true = after-Replaces d new_file _ _ (refl, refl) (replaced-Replaces W.replace)

  flushed-Replaces : (o : Option ℕ) → Replaces d new_file (flushed W text o d)
  unfolding flushed writing
  flushed-Replaces none = after-Replaces d new_file _ _ (refl, refl) (synced-Replaces W.fsync)
  flushed-Replaces (some n) = fail-Replaces _

  ended-Replaces : (o : Option ℕ) → Replaces d new_file (ended W text o d)
  unfolding ended
  ended-Replaces none = flushed-Replaces W.flush
  ended-Replaces (some n) = fail-Replaces _

  dumped-Replaces : (o : Option ℕ) → Replaces d new_file (dumped W text o d)
  unfolding dumped
  dumped-Replaces none = ended-Replaces W.newline
  dumped-Replaces (some n) = fail-Replaces _

  created-Replaces : (b : Bool) → Replaces d new_file (created W text b d)
  unfolding created writing
  created-Replaces true = after-Replaces d new_file _ _ (refl, refl) (dumped-Replaces W.dump)
  created-Replaces false = kept tt

module _ (loads : Bytes → Option TaskDict) (n : ℕ) (d : Disk) (new : TaskDict) where
  -- What is read after a loss of power, whatever it undoes, is what could have been read after one
  -- before, or the new dict.
  abbrev pub OldOrNew : Disk → Type 0
  OldOrNew s =
      (k : ℕ)
      → ((j : ℕ) × (after_loss loads n k s ≡ after_loss loads n j d))
        ⊎ (after_loss loads n k s ≡ some new)

  -- At the end, with no loss of power: the old one after an exception, and the new one after a return.
  pub Ended : Run → Type 0
  Ended r =
      ((r.outcome ≡ raised) × (read_now loads (final d r.disks).target ≡ read_now loads d.target))
      ⊎ ((r.outcome ≡ returned) × (read_now loads (final d r.disks).target ≡ some new))

  kept-OldOrNew : (disks : List Disk) → All (Same d) disks → All OldOrNew disks
  unfolding after_loss
  kept-OldOrNew [] h = tt
  kept-OldOrNew (s ∷ disks) ((e, f), h) = ((λ k. inl (k, rw (e, f) refl)), kept-OldOrNew disks h)

  put-OldOrNew :
      (disks : List Disk) (s : Disk)
      → All (Same d) disks
      → OldOrNew s
      → All OldOrNew (disks ++ s ∷ [])
  put-OldOrNew [] s h k = (k, tt)
  put-OldOrNew (t ∷ disks) s (e, h) k =
      let (one, none_more) = kept-OldOrNew (t ∷ []) (e, tt) in (one, put-OldOrNew disks s h k)

  final-kept :
      (t : Disk) (disks : List Disk)
      → t.target ≡ d.target
      → All (Same d) disks
      → (final t disks).target ≡ d.target
  unfolding final
  final-kept t [] e h = e
  final-kept t (s ∷ disks) e (k, h) = final-kept s disks k.0 h

  final-put : (t s : Disk) (disks : List Disk) → final t (disks ++ s ∷ []) ≡ s
  unfolding final
  final-put t s [] = refl
  final-put t s (u ∷ disks) = final-put u s disks

  abbrev put_in_place : File → Disk
  put_in_place file = record { target = some file; tmp = none; former = d.target ∷ d.former }

  put_in_place-OldOrNew :
      (file : File) → contents loads n (some file) ≡ some new → OldOrNew (put_in_place file)
  unfolding after_loss survivor
  put_in_place-OldOrNew file e zero = inr e
  put_in_place-OldOrNew file e (suc k) = inl (k, refl)

  Replaces-Atomic :
      (file : File) (r : Run)
      → contents loads n (some file) ≡ some new
      → read_now loads (some file) ≡ some new
      → Replaces d file r
      → All OldOrNew r.disks × Ended r
  unfolding Ended
  Replaces-Atomic file r e q (kept {disks = disks} h) =
      (kept-OldOrNew disks h, inl (refl, ap (read_now loads) (final-kept d disks refl h)))
  Replaces-Atomic file r e q (put disks h) =
      let last = put_in_place file in
      (
        put-OldOrNew disks last h (put_in_place-OldOrNew file e),
        inr (refl, rw (final-put d last disks) q),
      )

-- Let the dump of a dict load back, with its newline. Whichever operations fail, and wherever they do:
-- if the power is lost at any point of the writing or right after it, and whichever of the last
-- replacements that undoes, what is then read from task.json is what could have been read after a loss
-- before the writing, or the new dict. With no loss, it is the old one after an exception, and the new
-- one after a return.
pub replace_file-Atomic :
    (dumps : TaskDict → Bytes) (loads : Bytes → Option TaskDict) (W : Working) (n : ℕ) (d : Disk)
    (new : TaskDict)
    → loads (dumps new ++ 10 ∷ []) ≡ some new
    → All (OldOrNew loads n d new) (replace_file W (dumps new) d).disks
      × Ended loads n d new (replace_file W (dumps new) d)
unfolding replace_file contents read_now
replace_file-Atomic dumps loads W n d new e =
    Replaces-Atomic loads n d new (new_file W (dumps new) d) (replace_file W (dumps new) d) e e
      (created-Replaces W (dumps new) d W.create)
