-- ===== src/Effects.antt =====
-- The world around one task, and actions on it: what the controller reads and writes between two
-- lines of its code. Docker, git, the clock and the file system are a parameter.
pub mod Rules
use neotolis_ai_workbench.Base.{
  ◌≡◌, ℕ, String, Bool, true, false, Option, none, some, List, [], ◌∷◌,
}
use neotolis_ai_workbench.Base.{◌⊎◌, ◌++◌, get_or, ◌==◌, if◌then◌else◌}
use neotolis_ai_workbench.Model.{TaskDict, empty_dict, schema_version}
use neotolis_ai_workbench.Paths.{FilePath}
use neotolis_ai_workbench.Tail.{Malformed, Lstat, Opened}

-- `docker.errors.NotFound` and every other `docker.errors.APIError`.
pub data DockerError : Type 0 where
  not_found : String → DockerError
  api : Option ℕ → String → DockerError

-- What `inspect` shows of a container: its id, `State.Status`, `State.ExitCode` and `Image`.
pub record Container : Type 0 where
  pub id : String
  pub status : Option String
  pub exit_code : Option ℕ
  pub image : Option String

pub record Bind : Type 0 where
  pub source : FilePath
  pub target : String
  pub read_only : Bool

-- The arguments of `containers.run` that depend on the task.
pub record RunArgs : Type 0 where
  pub image : String
  pub name : String
  pub labels : List (String × String)
  pub volumes : List Bind

pub record GitResult : Type 0 where
  pub returncode : ℕ
  pub stdout : String
  pub stderr : String

pub data Exn : Type 0 where
  file_not_found unsupported_schema : Exn
  value_error bind_mount_escape : String → Exn
  git_worktree_error : String → String → Exn
  docker_error : DockerError → Exn
  unexpected : Exn
  start_failed recover_failed recover_not_interrupted : String → Exn
  system_exit : ℕ → Exn

pub data Result {ℓ} (A : Type ℓ) : Type ℓ where
  ok : A → Result A
  err : Exn → Result A

-- Everything outside task.json. `interleave` is what other processes do to task.json before the
-- controller has its lock; the other operations are calls of Docker, git, the clock and the disk.
pub record Host : Type 1 where
  pub State : Type 0
  pub interleave : Option TaskDict → State → Option TaskDict × State
  pub now : State → String × State
  pub get : String → State → (Container ⊎ DockerError) × State
  pub run : RunArgs → State → (Container ⊎ DockerError) × State
  pub reload : Container → State → (Container ⊎ DockerError) × State
  pub stop : Container → State → Option DockerError × State
  pub remove : Container → State → Option DockerError × State
  pub resolve : State → FilePath → Option FilePath
  pub exists : State → String → Bool
  pub is_dir : State → String → Bool
  pub git : String → List String → State → GitResult × State
  pub projects : State → Result (List (String × String))
  pub capture : TaskDict → State → State
  pub banner : ℕ → List String → State → State
  -- Widening the mode of terminal.log, and creating a missing storage/.
  pub widen_log : State → State
  pub make_storage : State → State
  -- The first line of git's stderr, stripped; `none` where it is blank.
  pub first_line : String → Option String
  pub strip : String → String
  -- `str` of an exception, and `Path.resolve` on the text of a path.
  pub str_of : Exn → String
  pub real_path : State → String → String
  -- The journal, the size of terminal.log (`none` if it is missing), and events-error.log.
  pub journal : State → Lstat × Opened
  pub log_size : State → Option ℕ
  pub append_errors : List Malformed → State → State
  -- Widening the modes of a new worktree.
  pub make_writable : String → State → State
  pub isatty : State → Bool
  pub confirm : State → Bool × State

module _ (H : Host) where
  -- `writes` is the history of what this process has published: the dict before and the one after.
  pub record World : Type 0 where
    pub task : Option TaskDict
    pub writes : List (TaskDict × TaskDict)
    pub host : H.State

  abbrev pub M : Type 0 → Type 0
  M A = World → Result A × World

module _ {H : Host} where
  abbrev pub continue : {A B : Type 0} → Result A → (A → M H B) → M H B
  continue (ok a) f w = f a w
  continue (err e) f w = (err e, w)

  infixl 5 ◌>>=◌ ◌>>◌
  abbrev pub ◌>>=◌ : {A B : Type 0} → M H A → (A → M H B) → M H B
  ◌>>=◌ m f w = let (r, w') = m w in continue r f w'

  abbrev pub ◌>>◌ : {A B : Type 0} → M H A → M H B → M H B
  m >> k = m >>= λ _. k

  abbrev pub pure : {A : Type 0} → A → M H A
  pure a w = (ok a, w)

  abbrev pub raise : {A : Type 0} → Exn → M H A
  raise e w = (err e, w)

  abbrev pub when : Bool → M H Unit → M H Unit
  when true m = m
  when false m = pure tt

  -- A call that changes the outside, and one that only looks.
  abbrev pub call : {A : Type 0} → (H.State → A × H.State) → M H A
  call f w = let (a, s) = f w.host in (ok a, record w { host = s })

  abbrev pub look : {A : Type 0} → (H.State → A) → M H A
  look f w = (ok (f w.host), w)

  -- `try`: the exception becomes a value.
  abbrev pub attempt : {A : Type 0} → M H A → M H (Result A)
  attempt m w = let (r, w') = m w in (ok r, w')
