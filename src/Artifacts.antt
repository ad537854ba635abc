-- ===== src/Artifacts.antt =====
-- src/naiw_tasks/naiw_tasks/artifacts.py: the bundle of what a task has left, in meta/artifacts/. The
-- task owns the sources and may replace them between two calls: what a call on them gives is a
-- parameter. The files of the bundle are part of the world here; their times and modes are not.
pub mod Bundle
pub mod Safe
pub mod Tree
pub mod Capture
mod Tests
use neotolis_ai_workbench.Base.{
  ◌≡◌, ℕ, String, ◌<>◌, Bool, true, false, not, ◌&&◌, Option, none, some, List, [], ◌∷◌, ◌++◌, take,
  str_eq, if◌then◌else◌,
}
use neotolis_ai_workbench.Paths.{FilePath}
use neotolis_ai_workbench.Volumes.{same_path}

abbrev pub Bytes : Type 0
Bytes = List ℕ

-- A file of the bundle.
pub data Inode : Type 0 where
  regular : Bytes → Inode
  symlink : FilePath → Inode
  special : Inode

-- `lstat` of a source.
pub data Stat : Type 0 where
  missing other_error not_regular is_regular : Stat

-- `os.link` with `follow_symlinks=False`: it gives the inode that is there at that moment. `retried` is
-- EXDEV, EPERM or EMLINK.
pub data Linking : Type 0 where
  linked : Inode → Linking
  retried refused : Linking

-- `write_bytes` and `copystat`: all is written, or an OSError comes after some bytes, or before the file
-- is there.
pub data Writing : Type 0 where
  complete not_opened : Writing
  partial : ℕ → Writing

pub record Git : Type 0 where
  pub returncode : ℕ
  pub stdout : Bytes

pub record Outside : Type 1 where
  pub State : Type 0
  pub exists : FilePath → State → Bool × State
  pub lstat : FilePath → State → Stat × State
  pub link : FilePath → State → Linking × State
  -- `os.open` with O_NOFOLLOW, and what is read: `none` is its OSError.
  pub open_nofollow : FilePath → State → Option Bytes × State
  pub write : FilePath → State → Writing × State
  -- `true` where it works: of a file of the bundle, and of its directories.
  pub lstat_dst : FilePath → State → Bool × State
  pub unlink : FilePath → State → Bool × State
  pub mkdir : FilePath → State → Bool × State
  pub mkdir_parent : FilePath → State → Bool × State
  -- `rmtree(ignore_errors=True)`: which files below the directory it leaves.
  pub rmtree : FilePath → State → (FilePath → Bool) × State
  -- `os.walk`, not into links: directories relative to the root, with the names of their files.
  pub walk : FilePath → State → List (FilePath × List String) × State
  -- `none` is an OSError.
  pub git : FilePath → List String → State → Option Git × State
  -- The path in strict UTF-8; what `text=True` and `write_text` make of some output; and its lines.
  pub decode : Bytes → Option FilePath
  pub text : Bytes → Bytes
  pub splitlines : Bytes → List Bytes

abbrev pub Files : Type 0
Files = List (FilePath × Inode)

module _ (O : Outside) where
  -- `through` has the targets of the links that something has been written through.
  pub record World : Type 0 where
    pub files : Files
    pub through : List FilePath
    pub state : O.State

unfoldable pub find : FilePath → Files → Option Inode
find path [] = none
find path (f ∷ files) = let rest = find path files in if same_path f.0 path then some f.1 else rest

unfoldable pub delete : FilePath → Files → Files
delete path [] = []
delete path (f ∷ files) =
    let rest = delete path files in if same_path f.0 path then rest else f ∷ rest

unfoldable pub put : FilePath → Inode → Files → Files
unfolding delete
put path inode files = (path, inode) ∷ delete path files

-- What is left below a directory.
unfoldable pub below : FilePath → FilePath → Bool
below [] path = true
below (d ∷ root) [] = false
below (d ∷ root) (e ∷ path) = let rest = below root path in str_eq d e && rest

unfoldable pub kept : FilePath → (FilePath → Bool) → Files → Files
unfolding below
kept root keeps [] = []
kept root keeps (f ∷ files) =
    let rest = kept root keeps files in
    if below root f.0 then if keeps f.0 then f ∷ rest else rest else f ∷ rest

-- What an action does: it returns, or an OSError escapes from it.
pub data Outcome : Type 0 where
  done escaped : Outcome

abbrev pub Step : Outside → Type 0
Step O = World O → Outcome × World O

module _ {O : Outside} where
  unfoldable pub and_then : Step O → Outcome × World O → Outcome × World O
  and_then k (done, w) = k w
  and_then k (escaped, w) = (escaped, w)

  -- `dst.write_bytes(content)`, which follows a link at `dst`.
  unfoldable pub store : FilePath → Bytes → Option Inode → World O → World O
  unfolding put
  store dst content (some (symlink target)) w = record w { through = target ∷ w.through }
  store dst content inode w = record w { files = put dst (regular content) w.files }

  unfoldable pub written : FilePath → Bytes → Writing → World O → World O
  unfolding store find
  written dst content complete w = store dst content (find dst w.files) w
  written dst content (partial n) w = store dst (take n content) (find dst w.files) w
  written dst content not_opened w = w

  unfoldable pub write_to : FilePath → Bytes → World O → World O
  unfolding written
  write_to dst content w =
      let (writing, s) = O.write dst w.state in written dst content writing (record w { state = s })

  -- The copy by way of a descriptor that follows no link.
  unfoldable pub copied : FilePath → Option Bytes → World O → World O
  unfolding write_to
  copied dst none w = w
  copied dst (some content) w = write_to dst content w

  unfoldable pub copy : FilePath → FilePath → World O → World O
  unfolding copied
  copy src dst w = let (b, s) = O.open_nofollow src w.state in copied dst b (record w { state = s })

  unfoldable pub copy_if : FilePath → FilePath → Stat → World O → Outcome × World O
  unfolding copy
  copy_if src dst missing w = (done, w)
  copy_if src dst other_error w = (escaped, w)
  copy_if src dst not_regular w = (done, w)
  copy_if src dst is_regular w = (done, copy src dst w)

  unfoldable pub copy_io_file : FilePath → FilePath → Step O
  unfolding copy_if
  copy_io_file src dst w =
      let (st, s) = O.lstat src w.state in copy_if src dst st (record w { state = s })

  -- A link came out at `dst`: it is removed, if that works, and the source is copied.
  unfoldable pub unlinked : FilePath → Bool → World O → World O
  unfolding delete
  unlinked dst true w = record w { files = delete dst w.files }
  unlinked dst false w = w

  unfoldable pub recheck : FilePath → FilePath → Option Inode → World O → World O
  unfolding unlinked copy
  recheck src dst (some (symlink target)) w =
      let (b, s) = O.unlink dst w.state in copy src dst (unlinked dst b (record w { state = s }))
  recheck src dst inode w = w

  -- The new entry is looked at, unless `lstat` fails.
  unfoldable pub seen : FilePath → FilePath → Bool → World O → World O
  unfolding recheck find
  seen src dst false w = w
  seen src dst true w = recheck src dst (find dst w.files) w

  unfoldable pub after_link : FilePath → FilePath → Linking → World O → World O
  unfolding seen copy put
  after_link src dst (linked inode) w =
      let w' = record w { files = put dst inode w.files } in
      let (b, s) = O.lstat_dst dst w'.state in seen src dst b (record w' { state = s })
  after_link src dst retried w = copy src dst w
  after_link src dst refused w = w

  -- `os.link` fails with EEXIST where there is an entry already.
  unfoldable pub link_to : FilePath → FilePath → Option Inode → World O → World O
  unfolding after_link
  link_to src dst (some inode) w = w
  link_to src dst none w =
      let (l, s) = O.link src w.state in after_link src dst l (record w { state = s })

  unfoldable pub replicate_if : FilePath → FilePath → Stat → World O → Outcome × World O
  unfolding link_to find
  replicate_if src dst missing w = (done, w)
  replicate_if src dst other_error w = (escaped, w)
  replicate_if src dst not_regular w = (done, w)
  replicate_if src dst is_regular w = (done, link_to src dst (find dst w.files) w)

  -- A file of the walk.
  unfoldable pub replicate_file : FilePath → FilePath → Step O
  unfolding replicate_if
  replicate_file src dst w =
      let (st, s) = O.lstat src w.state in replicate_if src dst st (record w { state = s })
