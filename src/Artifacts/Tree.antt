-- ===== src/Artifacts/Tree.antt =====
-- Steps that keep links out of the bundle, and `replicate_output_tree` among them.
use neotolis_ai_workbench.Base.{String, Bool, true, false, List, [], ◌∷◌, ◌++◌}
use neotolis_ai_workbench.Paths.{FilePath}
use neotolis_ai_workbench.Artifacts.{
  Outside, World, Outcome, done, escaped, Step, and_then, copy_io_file,
}
use neotolis_ai_workbench.Artifacts.Bundle.{
  ask, return, remove_below, wipe, each_file, made_dir, each_dir, walk_if, replicate_output_tree,
}
use neotolis_ai_workbench.Artifacts.Safe.{
  Clean, Works, moved, kept-NoLinks, copy_io_file-Clean, replicate_file-Clean,
}

module _ {O : Outside} where
  pub record Keeps (step : Step O) : Type 0 where
    pub at : (w : World O) → Clean w → Clean (step w).1

  pub Keeps-ask :
      {A : Type 0} (f : O.State → A × O.State) (k : A → Step O)
      → ((a : A) → Keeps (k a))
      → Keeps (ask f k)
  Keeps-ask f k h = record {
    at = λ w c. let (a, s) = f w.state in (h a).at (record w { state = s }) (moved w s c);
  }

  pub Keeps-return : Keeps return
  Keeps-return = record { at = λ w c. c }

  pub and_then-Clean :
      (k : Step O) (r : Outcome × World O) → Keeps k → Clean r.1 → Clean (and_then k r).1
  unfolding and_then
  and_then-Clean k (done, w) h c = h.at w c
  and_then-Clean k (escaped, w) h c = c

  pub copy_io_file-Keeps : (src dst : FilePath) → Keeps (copy_io_file src dst)
  copy_io_file-Keeps src dst = record { at = copy_io_file-Clean src dst }

  module _ (works : Works O) where
    each_file-Keeps :
        (src dst : FilePath) (filenames : List String) → Keeps (each_file src dst filenames)
    unfolding each_file
    each_file-Keeps src dst [] = Keeps-return
    each_file-Keeps src dst (fname ∷ filenames) = record {
      at = λ w c.
          and_then-Clean (each_file src dst filenames) _ (each_file-Keeps src dst filenames)
            (replicate_file-Clean works (src ++ fname ∷ []) (dst ++ fname ∷ []) w c);
    }

    made_dir-Keeps : (next : Step O) (b : Bool) → Keeps next → Keeps (made_dir next b)
    unfolding made_dir
    made_dir-Keeps next true h = record { at = h.at }
    made_dir-Keeps next false h = record { at = λ w c. c }

    each_dir-Keeps :
        (src_root dst_root : FilePath) (dirs : List (FilePath × List String))
        → Keeps (each_dir src_root dst_root dirs)
    unfolding each_dir
    each_dir-Keeps src_root dst_root [] = Keeps-return
    each_dir-Keeps src_root dst_root ((rel, filenames) ∷ dirs) = record {
      at = λ w c.
          and_then-Clean (each_dir src_root dst_root dirs) _ (each_dir-Keeps src_root dst_root dirs)
            ((Keeps-ask (O.mkdir (dst_root ++ rel)) _ (λ b.
                made_dir-Keeps _ b
                  (each_file-Keeps (src_root ++ rel) (dst_root ++ rel) filenames))).at
              w c);
    }

    walk_if-Keeps : (src_root dst_root : FilePath) (b : Bool) → Keeps (walk_if src_root dst_root b)
    unfolding walk_if
    walk_if-Keeps src_root dst_root true =
        Keeps-ask (O.walk src_root) _ (each_dir-Keeps src_root dst_root)
    walk_if-Keeps src_root dst_root false = Keeps-return

    wipe-Keeps :
        (root : FilePath) (next : Step O) (b : Bool) → Keeps next → Keeps (wipe root next b)
    unfolding wipe remove_below
    wipe-Keeps root next false h = h
    wipe-Keeps root next true h =
        Keeps-ask (O.rmtree root) (λ keeps w. next (remove_below root keeps w))
          λ keeps. record {
            at = λ w c.
                h.at (remove_below root keeps w)
                  (record { files = kept-NoLinks root keeps w.files c.files; through = c.through });
          }

    pub replicate_output_tree-Keeps :
        (src_root dst_root : FilePath) → Keeps (replicate_output_tree {O = O} src_root dst_root)
    unfolding replicate_output_tree
    replicate_output_tree-Keeps src_root dst_root = Keeps-ask (O.exists dst_root) _ λ b.
        wipe-Keeps dst_root _ b (Keeps-ask (O.exists src_root) _ (walk_if-Keeps src_root dst_root))
