-- ===== src/Artifacts/Capture.antt =====
-- `capture_bundle` keeps links out of the bundle.
use neotolis_ai_workbench.Base.{
  String, Bool, true, false, not, ◌&&◌, Option, none, some, List, [], ◌∷◌, ◌++◌, ◌==◌, str_eq,
  get_or, Bool-cases, inl, inr, if◌then◌else◌,
}
use neotolis_ai_workbench.Paths.{FilePath}
use neotolis_ai_workbench.Artifacts.{Bytes, Git, Outside, World, done}
use neotolis_ai_workbench.Artifacts.Bundle.{
  saved, save_git, is_empty, with_untracked, with_changed, changed_files, copy_made, untracked_file,
  untracked_files, listed_untracked, since, git_captures, project_captures, captures,
  capture_bundle,
}
use neotolis_ai_workbench.Artifacts.Safe.{Clean, Works, moved, write_to-Clean, copy_io_file-Clean}
use neotolis_ai_workbench.Artifacts.Tree.{
  Keeps, Keeps-ask, Keeps-return, and_then-Clean, copy_io_file-Keeps, replicate_output_tree-Keeps,
}

module _ {O : Outside} where
  -- What git prints is written into the bundle.
  saved-Clean :
      (dst : FilePath) (text : Bytes → Bytes) (r : Option Git) (w : World O)
      → Clean w
      → Clean (saved dst text r w)
  unfolding saved
  saved-Clean dst text none w c = c
  saved-Clean dst text (some r) w c = write_to-Clean dst (text r.stdout) w c

  save_git-Clean :
      (work_path : FilePath) (args : List String) (dst : FilePath) (text : Bytes → Bytes)
      (w : World O)
      → Clean w
      → Clean (save_git work_path args dst text w)
  unfolding save_git
  save_git-Clean work_path args dst text w c =
      let (r, s) = O.git work_path args w.state in
      saved-Clean dst text r (record w { state = s }) (moved w s c)

  with_untracked-Clean :
      (dst : FilePath) (changed : Bytes) (r : Option Git) (w : World O)
      → Clean w
      → Clean (with_untracked dst changed r w)
  unfolding with_untracked
  with_untracked-Clean dst changed none w c = c
  with_untracked-Clean dst changed (some r) w c =
      elim (Bool-cases (r.returncode == 0 && not (is_empty r.stdout))) [
        | inl e ↦ rw e (write_to-Clean dst _ w c)
        | inr e ↦ rw e (write_to-Clean dst _ w c)
      ]

  with_changed-Clean :
      (work_path dst : FilePath) (r : Option Git) (w : World O)
      → Clean w
      → Clean (with_changed work_path dst r w)
  unfolding with_changed
  with_changed-Clean work_path dst none w c = c
  with_changed-Clean work_path dst (some r) w c =
      let (u, s) = O.git work_path ("ls-files" ∷ "--others" ∷ "--exclude-standard" ∷ []) w.state in
      with_untracked-Clean dst r.stdout u (record w { state = s }) (moved w s c)

  changed_files-Clean :
      (work_path : FilePath) (base : String) (dst : FilePath) (w : World O)
      → Clean w
      → Clean (changed_files work_path base dst w)
  unfolding changed_files
  changed_files-Clean work_path base dst w c =
      let (r, s) = O.git work_path ("diff" ∷ "--name-status" ∷ base ∷ []) w.state in
      with_changed-Clean work_path dst r (record w { state = s }) (moved w s c)

  untracked_file-Keeps :
      (work_path root : FilePath) (rel : Option FilePath)
      → Keeps {O = O} (untracked_file work_path root rel)
  unfolding untracked_file copy_made
  untracked_file-Keeps work_path root none = Keeps-return
  untracked_file-Keeps work_path root (some rel) = Keeps-ask (O.mkdir_parent (root ++ rel)) _ made
    where
      made : (b : Bool) → Keeps {O = O} (copy_made (work_path ++ rel) (root ++ rel) b)
      made true = copy_io_file-Keeps {O = O} (work_path ++ rel) (root ++ rel)
      made false = Keeps-return

  untracked_files-Keeps :
      (work_path root : FilePath) (pieces : List Bytes)
      → Keeps {O = O} (untracked_files work_path root pieces)
  unfolding untracked_files
  untracked_files-Keeps work_path root [] = Keeps-return
  untracked_files-Keeps work_path root (piece ∷ pieces) = record {
    at = λ w c.
        and_then-Clean (untracked_files work_path root pieces) _
          (untracked_files-Keeps work_path root pieces)
          ((untracked_file-Keeps work_path root (O.decode piece)).at w c);
  }

  listed_untracked-Keeps :
      (work_path root : FilePath) (r : Option Git)
      → Keeps {O = O} (listed_untracked work_path root r)
  unfolding listed_untracked
  listed_untracked-Keeps work_path root none = Keeps-return
  listed_untracked-Keeps work_path root (some r) = elim (Bool-cases (r.returncode == 0)) [
    | inl e ↦ rw e (untracked_files-Keeps work_path root _)
    | inr e ↦ rw e Keeps-return
  ]

  since-Keeps :
      (artifacts work_path : FilePath) (base : String)
      → Keeps {O = O} (since artifacts work_path base)
  unfolding since
  since-Keeps artifacts work_path base = record {
    at = λ w c.
        let changed =
          changed_files-Clean work_path base (artifacts ++ "changed-files.txt" ∷ []) w c in
        let patched =
          save_git-Clean work_path ("diff" ∷ "--binary" ∷ base ∷ [])
            (artifacts ++ "diff.patch" ∷ []) (λ b. b) _ changed in
        (Keeps-ask (O.git work_path ("ls-files" ∷ "--others" ∷ "--exclude-standard" ∷ "-z" ∷ [])) _
            (listed_untracked-Keeps work_path (artifacts ++ "untracked" ∷ []))).at
          _ patched;
  }

  base-Clean :
      (artifacts work_path : FilePath) (base : String) (w : World O)
      → Clean w
      → Clean (if str_eq base "" then (done, w) else since artifacts work_path base w).1
  base-Clean artifacts work_path base w c = elim (Bool-cases (str_eq base "")) [
    | inl e ↦ rw e c
    | inr e ↦ rw e ((since-Keeps artifacts work_path base).at w c)
  ]

  git_captures-Keeps :
      (artifacts work_path : FilePath) (base : String) (b : Bool)
      → Keeps {O = O} (git_captures artifacts work_path base b)
  unfolding git_captures
  git_captures-Keeps artifacts work_path base false = record { at = λ w c. c }
  git_captures-Keeps artifacts work_path base true = record {
    at = λ w c. base-Clean artifacts work_path base _ (
        save_git-Clean work_path ("status" ∷ "--porcelain=v2" ∷ "--branch" ∷ [])
          (artifacts ++ "git-status.txt" ∷ []) O.text w c);
  }

  project_captures-Keeps :
      (artifacts : FilePath) (kind base : Option String) (work_path : Option FilePath)
      → Keeps {O = O} (project_captures artifacts kind base work_path)
  unfolding project_captures
  project_captures-Keeps artifacts kind base none = Keeps-return
  project_captures-Keeps artifacts kind base (some work_path) =
      elim (Bool-cases (str_eq (get_or kind "") "project")) [
        | inl e ↦ rw e (Keeps-ask (O.exists work_path) _ (git_captures-Keeps artifacts work_path _))
        | inr e ↦ rw e Keeps-return
      ]

  captures-Keeps :
      (works : Works O) (task_dir : FilePath) (kind base : Option String)
      (work_path : Option FilePath) (b : Bool)
      → Keeps {O = O} (captures task_dir kind base work_path b)
  unfolding captures
  captures-Keeps works task_dir kind base work_path false = Keeps-return
  captures-Keeps works task_dir kind base work_path true = record {
    at = λ w c. and_then-Clean _ _ (project_captures-Keeps _ kind base work_path) (
        and_then-Clean _ _ (replicate_output_tree-Keeps works _ _)
          (and_then-Clean _ _ (copy_io_file-Keeps _ _) (copy_io_file-Clean _ _ w c)));
  }

  -- Let `lstat` and `unlink` work in the bundle, which only the controller writes. If a capture starts
  -- with no symbolic link in the bundle, and with nothing written through one, then so it ends, by a
  -- return or by an OSError, whatever the task makes of its files between any two calls, and whatever
  -- git and the disk answer.
  pub capture_bundle-Clean :
      (works : Works O) (task_dir : FilePath) (kind base : Option String)
      (work_path : Option FilePath) (w : World O)
      → Clean w
      → Clean (capture_bundle task_dir kind base work_path w).1
  unfolding capture_bundle
  capture_bundle-Clean works task_dir kind base work_path w c =
      (Keeps-ask (O.mkdir (task_dir ++ "meta" ∷ "artifacts" ∷ [])) _
          (captures-Keeps works task_dir kind base work_path)).at
        w c
