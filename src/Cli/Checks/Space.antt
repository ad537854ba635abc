-- ===== src/Cli/Checks/Space.antt =====
-- The check of the disk.
use mathlib.Core.List.{append-nil}
use Prim.Native.String.{String}
use neotolis_ai_workbench.Base.{[], ◌≡◌, ap, ℕ, ◌+◌, Bool, true, false, List, ◌∷◌, ◌++◌, arith}
use neotolis_ai_workbench.Cli.{Outside, du, Log, Exit, startup_check_failed, Result, ok, err}
use neotolis_ai_workbench.Cli.Rules.{AnyWorld, Spec, Spec-now, Spec-weaken, Spec-seq, Spec-ask-then}
use neotolis_ai_workbench.Cli.Disk.{
  Row, du_sb, rows_of, compute_rows, over_threshold, subdir_order, over, sb,
}
use neotolis_ai_workbench.Cli.Startup.{check_disk_threshold, refuse_if, gate}
use neotolis_ai_workbench.Cli.Traces.{Full, too_much, Measured, Room, no_gate, enough}
use neotolis_ai_workbench.Cli.Checks.{Check, good, bad}

-- The sizes.
data Counted (names : List String) (total : ℕ) : Log → Result (List Row × ℕ) → Type 0 where
  counted :
      {log : Log} (rows : List Row) {t n : ℕ}
      → Measured names n log
      → t ≡ total + n
      → Counted names total log (ok (rows, t))

data Above (O : Outside) (max_bytes : ℕ) : Log → Result Bool → Type 0 where
  above :
      {log : Log} {n : ℕ} (b : Bool)
      → Measured subdir_order n log
      → over O n max_bytes 95 ≡ b
      → Above O max_bytes log (ok b)

pub data NoRoom (O : Outside) (max_bytes : ℕ) (gated : Bool) : Exit → Log → Type 0 where
  filled :
      {log : Log} → Full O max_bytes gated log → NoRoom O max_bytes gated startup_check_failed log

more-Counted :
    {name : String} {names : List String} {size total : ℕ} {partial : Bool} {log : Log}
    {r : Result (List Row × ℕ)}
    → Counted names (total + size) log r
    → Counted (name ∷ names) total (du name size partial ∷ log) r
more-Counted (counted rows m e) = counted rows (Measured.more m) (omega (arith, e))

no_error :
    {names : List String} {total : ℕ} {log : Log} {e : Exit} → Counted names total log (err e) → ⊥
no_error c = elim c [ ]

module _ {O : Outside} where
  rows_of-Counted :
      (names : List String) (rows : List Row) (total : ℕ)
      → Spec {O = O} AnyWorld (Counted names total) (rows_of names rows total)
  unfolding rows_of du_sb
  rows_of-Counted [] rows total =
      Spec-now _ (ok (rows, total)) (counted rows Measured.nothing (omega arith))
  rows_of-Counted (name ∷ names) rows total =
      Spec-ask-then (Counted (name ∷ names) total) (λ s. sb O name (O.exists name s))
        (λ r. du name r.0 r.1) _
        λ (size, partial).
          Spec-weaken (Counted names (total + size)) _ _ (λ new r c. more-Counted c)
            (rows_of-Counted names
              (rows ++ record { name = name; bytes = size; partial = partial } ∷ []) (total + size))

  rows-Above :
      (max_bytes : ℕ) {log : Log} {x : List Row × ℕ}
      → Counted subdir_order 0 log (ok x)
      → Above O max_bytes log (ok (over O x.1 max_bytes 95))
  rows-Above max_bytes (counted rows m e) =
      above _ m (rw e (ap (λ (k : ℕ). over O k max_bytes 95) (omega arith)))

  over-Above :
      (max_bytes : ℕ) → Spec {O = O} AnyWorld (Above O max_bytes) (over_threshold max_bytes 95)
  unfolding over_threshold compute_rows
  over-Above max_bytes =
      Spec-seq (Counted subdir_order 0) (Above O max_bytes) (rows_of subdir_order [] 0) _
        (rows_of-Counted subdir_order [] 0) (λ new e c. absurd (no_error c))
        λ new x c.
          Spec-now _ (ok (over O x.1 max_bytes 95)) (rw (append-nil new) (rows-Above max_bytes c))

  over-refused :
      (max_bytes : ℕ) (b : Bool) {log : Log} {n : ℕ}
      → Measured subdir_order n log
      → over O n max_bytes 95 ≡ b
      → Spec {O = O} AnyWorld
          (λ more r. Check (Room O max_bytes true) (NoRoom O max_bytes true) (log ++ more) r)
          (refuse_if b startup_check_failed)
  unfolding refuse_if
  over-refused max_bytes true m e =
      Spec-now _ (err startup_check_failed) (rw (append-nil _) (bad (filled (too_much m e))))
  over-refused max_bytes false m e = Spec-now _ (ok tt) (rw (append-nil _) (good (enough m e)))

  no_Above : {max_bytes : ℕ} {log : Log} {e : Exit} → Above O max_bytes log (err e) → ⊥
  no_Above c = elim c [ ]

  pub gate-Check :
      (gated : Bool) (max_bytes : ℕ)
      → Spec {O = O} AnyWorld
          (Check (Room O max_bytes gated) (NoRoom O max_bytes gated))
          (gate gated max_bytes)
  unfolding gate check_disk_threshold
  gate-Check false max_bytes = Spec-now _ (ok tt) (good no_gate)
  gate-Check true max_bytes =
      Spec-seq (Above O max_bytes) (Check (Room O max_bytes true) (NoRoom O max_bytes true))
        (over_threshold max_bytes 95) _ (over-Above max_bytes) (λ new e a. absurd (no_Above a))
        λ new b a. refused new a
    where
      refused :
          (new : Log) {b : Bool}
          → Above O max_bytes new (ok b)
          → Spec {O = O} AnyWorld
              (λ more r. Check (Room O max_bytes true) (NoRoom O max_bytes true) (new ++ more) r)
              (refuse_if b startup_check_failed)
      refused new (above b m e) = over-refused max_bytes b m e
