-- ===== src/Cli/Disk.antt =====
-- src/naiw_tasks/naiw_tasks/disk.py: the sizes of what is below the data root. Of `run` it has what is
-- printed, without the layout, and without the free space of the host.
use Prim.Native.String.{String}
use neotolis_ai_workbench.Base.{
  ℕ, ◌+◌, Bool, true, false, not, Option, none, some, List, [], ◌∷◌, ◌++◌, str_eq, ◌==◌, map,
  text_before, if◌then◌else◌,
}
use neotolis_ai_workbench.Cli.{Outside, M, du, ◌>>=◌, pure, ask}

abbrev pub subdir_order : List String
subdir_order = "projects.yaml" ∷ "secrets" ∷ "pi-packages" ∷ "workspace/repos" ∷ "tasks" ∷ []

pub record Row : Type 0 where
  pub name : String
  pub bytes : ℕ
  pub partial : Bool

-- The size and whether it is partial, from what `int` gives, and from what `du` gives.
pub sized_by : ℕ → Option ℕ → ℕ × Bool
sized_by returncode none = (0, true)
sized_by returncode (some size) = (size, not (returncode == 0))

pub parse_du : (String → String) → (String → Option ℕ) → ℕ → String → ℕ × Bool
unfolding sized_by text_before
parse_du strip int returncode stdout =
    if str_eq stdout "" then (0, true) else sized_by returncode (int (strip (text_before 9 stdout)))

-- `pct > limit`, where `pct` is 0.0 if there is no maximum.
abbrev pub over : Outside → ℕ → ℕ → ℕ → Bool
over O used max_bytes limit = if max_bytes == 0 then false else O.exceeds used max_bytes limit

-- `du_sb`, in one step; a path that does not exist has no size.
pub sb : (O : Outside) → String → Bool × O.State → (ℕ × Bool) × O.State
unfolding parse_du
sb O name (false, s) = ((0, false), s)
sb O name (true, s) =
    let ((returncode, stdout), s) = O.run_du name s in (parse_du O.strip O.int returncode stdout, s)

module _ {O : Outside} where
  unfoldable pub du_sb : String → M O (ℕ × Bool)
  unfolding sb
  du_sb name = ask (λ s. sb O name (O.exists name s)) λ r. du name r.0 r.1

  -- The loop of `_compute_rows`, with the rows and the total so far.
  unfoldable pub rows_of : List String → List Row → ℕ → M O (List Row × ℕ)
  unfolding du_sb
  rows_of [] rows total = pure (rows, total)
  rows_of (name ∷ names) rows total = do
    (size, partial) ← du_sb name
    rows_of names (rows ++ record { name = name; bytes = size; partial = partial } ∷ [])
        (total + size)

  unfoldable pub compute_rows : M O (List Row × ℕ)
  unfolding rows_of
  compute_rows = rows_of subdir_order [] 0

  -- `threshold`, with the test of its percentage.
  unfoldable pub over_threshold : ℕ → ℕ → M O Bool
  unfolding compute_rows
  over_threshold max_data_size limit = do
    (rows, used) ← compute_rows
    pure (over O used max_data_size limit)

-- What `run` prints.
pub record Report : Type 0 where
  pub rows : List Row
  pub total : ℕ
  pub partial_names : List String
  pub warning : Bool

pub partial_rows : List Row → List Row
partial_rows [] = []
partial_rows (r ∷ rows) = let rest = partial_rows rows in if r.partial then r ∷ rest else rest

module _ {O : Outside} where
  unfoldable pub run : ℕ → M O Report
  unfolding compute_rows partial_rows
  run max_data_size = do
    (rows, total) ← compute_rows
    pure (record {
      rows = rows;
      total = total;
      partial_names = map (λ r. r.name) (partial_rows rows);
      warning = over O total max_data_size 80;
    })
