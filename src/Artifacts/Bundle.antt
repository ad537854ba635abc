-- ===== src/Artifacts/Bundle.antt =====
-- `replicate_output_tree` and `capture_bundle` of src/naiw_tasks/naiw_tasks/artifacts.py.
use neotolis_ai_workbench.Base.{
  String, Bool, true, false, not, ◌&&◌, Option, none, some, List, [], ◌∷◌, ◌++◌, ◌==◌, str_eq,
  get_or, if◌then◌else◌,
}
use neotolis_ai_workbench.Paths.{FilePath}
use neotolis_ai_workbench.Artifacts.{
  Bytes, Outside, World, Git, done, escaped, Step, and_then, kept, write_to, copy_io_file,
  replicate_file,
}

module _ {O : Outside} where
  -- A question to the outside, and then a step that depends on the answer.
  abbrev pub ask : {A : Type 0} → (O.State → A × O.State) → (A → Step O) → Step O
  ask f k w = let (a, s) = f w.state in k a (record w { state = s })

  abbrev pub return : Step O
  return w = (done, w)

  unfoldable pub remove_below : FilePath → (FilePath → Bool) → World O → World O
  unfolding kept
  remove_below root keeps w = record w { files = kept root keeps w.files }

  unfoldable pub wipe : FilePath → Step O → Bool → Step O
  unfolding remove_below
  wipe root next true = ask (O.rmtree root) λ keeps w. next (remove_below root keeps w)
  wipe root next false = next

  -- The names of one directory of the walk.
  unfoldable pub each_file : FilePath → FilePath → List String → Step O
  unfolding and_then replicate_file
  each_file src dst [] w = (done, w)
  each_file src dst (fname ∷ filenames) w =
      and_then (each_file src dst filenames)
        (replicate_file (src ++ fname ∷ []) (dst ++ fname ∷ []) w)

  unfoldable pub made_dir : Step O → Bool → Step O
  made_dir next true w = next w
  made_dir next false w = (escaped, w)

  unfoldable pub each_dir : FilePath → FilePath → List (FilePath × List String) → Step O
  unfolding and_then each_file made_dir
  each_dir src_root dst_root [] w = (done, w)
  each_dir src_root dst_root ((rel, filenames) ∷ dirs) w =
      and_then (each_dir src_root dst_root dirs) (
        ask (O.mkdir (dst_root ++ rel))
          (made_dir (each_file (src_root ++ rel) (dst_root ++ rel) filenames)) w)

  unfoldable pub walk_if : FilePath → FilePath → Bool → Step O
  unfolding each_dir
  walk_if src_root dst_root true = ask (O.walk src_root) (each_dir src_root dst_root)
  walk_if src_root dst_root false = return

  unfoldable pub replicate_output_tree : FilePath → FilePath → Step O
  unfolding wipe walk_if
  replicate_output_tree src_root dst_root =
      ask (O.exists dst_root) (wipe dst_root (ask (O.exists src_root) (walk_if src_root dst_root)))

  -- Every OSError of git, and of the writing of its output, is swallowed.
  unfoldable pub saved : FilePath → (Bytes → Bytes) → Option Git → World O → World O
  unfolding write_to
  saved dst text none w = w
  saved dst text (some r) w = write_to dst (text r.stdout) w

  unfoldable pub save_git : FilePath → List String → FilePath → (Bytes → Bytes) → World O → World O
  unfolding saved
  save_git work_path args dst text w =
      let (r, s) = O.git work_path args w.state in saved dst text r (record w { state = s })

abbrev pub is_empty : Bytes → Bool
is_empty [] = true
is_empty (b ∷ bs) = false

-- `??\t<line>\n`, of each line that is not empty.
pub tagged : List Bytes → Bytes
tagged [] = []
tagged (line ∷ lines) =
    let rest = tagged lines in if is_empty line then rest else b'?' ∷ b'?' ∷ 9 ∷ (line ++ 10 ∷ rest)

-- `split(b"\0")`, but for the pieces that are empty, which the loop skips.
pub nul_pieces : Bytes → Bytes → List Bytes
nul_pieces piece [] = if is_empty piece then [] else piece ∷ []
nul_pieces piece (b ∷ bs) =
    let split = nul_pieces [] bs in
    let same = nul_pieces (piece ++ b ∷ []) bs in
    if b == 0 then if is_empty piece then split else piece ∷ split else same

module _ {O : Outside} where
  unfoldable pub with_untracked : FilePath → Bytes → Option Git → World O → World O
  unfolding tagged write_to
  with_untracked dst changed none w = w
  with_untracked dst changed (some r) w =
      if r.returncode == 0 && not (is_empty r.stdout)
      then write_to dst (O.text changed ++ tagged (O.splitlines (O.text r.stdout))) w
      else write_to dst (O.text changed) w

  unfoldable pub with_changed : FilePath → FilePath → Option Git → World O → World O
  unfolding with_untracked
  with_changed work_path dst none w = w
  with_changed work_path dst (some r) w =
      let (u, s) = O.git work_path ("ls-files" ∷ "--others" ∷ "--exclude-standard" ∷ []) w.state in
      with_untracked dst r.stdout u (record w { state = s })

  unfoldable pub changed_files : FilePath → String → FilePath → World O → World O
  unfolding with_changed
  changed_files work_path base dst w =
      let (r, s) = O.git work_path ("diff" ∷ "--name-status" ∷ base ∷ []) w.state in
      with_changed work_path dst r (record w { state = s })

  unfoldable pub copy_made : FilePath → FilePath → Bool → Step O
  unfolding copy_io_file
  copy_made src dst true = copy_io_file src dst
  copy_made src dst false = return

  unfoldable pub untracked_file : FilePath → FilePath → Option FilePath → Step O
  unfolding copy_made
  untracked_file work_path root none = return
  untracked_file work_path root (some rel) =
      ask (O.mkdir_parent (root ++ rel)) (copy_made (work_path ++ rel) (root ++ rel))

  unfoldable pub untracked_files : FilePath → FilePath → List Bytes → Step O
  unfolding and_then untracked_file
  untracked_files work_path root [] w = (done, w)
  untracked_files work_path root (rel_bytes ∷ pieces) w =
      and_then (untracked_files work_path root pieces)
        (untracked_file work_path root (O.decode rel_bytes) w)

  unfoldable pub listed_untracked : FilePath → FilePath → Option Git → Step O
  unfolding untracked_files nul_pieces
  listed_untracked work_path root none = return
  listed_untracked work_path root (some r) =
      if not (r.returncode == 0)
      then return
      else untracked_files work_path root (nul_pieces [] r.stdout)

  unfoldable pub since : FilePath → FilePath → String → Step O
  unfolding changed_files save_git listed_untracked
  since artifacts work_path base w =
      let w = changed_files work_path base (artifacts ++ "changed-files.txt" ∷ []) w in
      let w =
        save_git work_path ("diff" ∷ "--binary" ∷ base ∷ []) (artifacts ++ "diff.patch" ∷ [])
          (λ b. b) w in
      ask (O.git work_path ("ls-files" ∷ "--others" ∷ "--exclude-standard" ∷ "-z" ∷ []))
        (listed_untracked work_path (artifacts ++ "untracked" ∷ [])) w

  unfoldable pub git_captures : FilePath → FilePath → String → Bool → Step O
  unfolding save_git since
  git_captures artifacts work_path base false w = (done, w)
  git_captures artifacts work_path base true w =
      let w =
        save_git work_path ("status" ∷ "--porcelain=v2" ∷ "--branch" ∷ [])
          (artifacts ++ "git-status.txt" ∷ []) O.text w in
      if str_eq base "" then (done, w) else since artifacts work_path base w

  unfoldable pub project_captures :
      FilePath → Option String → Option String → Option FilePath → Step O
  unfolding git_captures
  project_captures artifacts kind base none = return
  project_captures artifacts kind base (some work_path) =
      if str_eq (get_or kind "") "project"
      then ask (O.exists work_path) (git_captures artifacts work_path (get_or base ""))
      else return

  unfoldable pub captures :
      FilePath → Option String → Option String → Option FilePath → Bool → Step O
  unfolding and_then copy_io_file replicate_output_tree project_captures
  captures task_dir kind base work_path false w = (done, w)
  captures task_dir kind base work_path true w =
      let artifacts = task_dir ++ "meta" ∷ "artifacts" ∷ [] in
      let io_dir = task_dir ++ "io" ∷ [] in
      and_then (project_captures artifacts kind base work_path) (
        and_then (replicate_output_tree (io_dir ++ "output" ∷ []) (artifacts ++ "output" ∷ [])) (
          and_then (copy_io_file (io_dir ++ "summary.md" ∷ []) (artifacts ++ "summary.md" ∷ []))
            (copy_io_file (io_dir ++ "terminal.log" ∷ []) (artifacts ++ "terminal.log" ∷ []) w)))

  -- `kind` and `base_commit` are those of the dict.
  unfoldable pub capture_bundle :
      FilePath → Option String → Option String → Option FilePath → Step O
  unfolding captures
  capture_bundle task_dir kind base work_path =
      ask (O.mkdir (task_dir ++ "meta" ∷ "artifacts" ∷ [])) (captures task_dir kind base work_path)
