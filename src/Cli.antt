-- ===== src/Cli.antt =====
-- src/naiw_tasks/naiw_tasks/cli.py with startup_checks.py and disk.py: what runs before a command, and
-- how a command ends. The components that a command calls are a parameter here, with click, the
-- proxy, the file system and `du`.
pub mod Disk
pub mod Startup
pub mod Options
pub mod Commands
pub mod Rules
pub mod Traces
pub mod Checks
pub mod Reach
pub mod Gate
pub mod Statuses
use neotolis_ai_workbench.Base.{ℕ, String, Bool, Option, List, [], ◌∷◌, ◌++◌}
use neotolis_ai_workbench.Base.Integers.{ℤ}

-- What the listing of one container gives: an answer, a `DockerException` or another exception.
pub data Listing : Type 0 where
  answered docker_exception broken : Listing

-- What `urlopen` gives.
pub data Reply : Type 0 where
  success url_error other_error : Reply
  http_error : ℕ → Reply

-- How a command, or a check, ends if it does not return. `raised` is any other exception.
pub data Exit : Type 0 where
  startup_check_failed docker_check_failed usage_error : Exit
  start_failed recover_failed recover_not_interrupted : Exit
  system_exit : ℕ → Exit
  raised : Exit

-- The exit code of the process; Python's for an exception that nothing catches.
unfoldable pub status : Exit → ℕ
status startup_check_failed = 2
status docker_check_failed = 2
status usage_error = 2
status (system_exit n) = n
status _ = 1

pub data Result (A : Type 0) : Type 0 where
  ok : A → Result A
  err : Exit → Result A

pub record ListRequest : Type 0 where
  pub limit : Option ℕ
  pub statuses : List String
  pub project_filter : Option String
  pub show_all : Bool
  pub as_json : Bool
  pub limit_was_explicit : Bool
  pub apply_auto_finish : Bool
  pub dry_run : Bool

-- The calls into the components, with their arguments. The flag of `clean_run` is whether there is a
-- client.
pub data Act : Type 0 where
  lifecycle_start : Option String → Option String → String → List String → Bool → Act
  attach_to_task : String → String → Act
  list_run : ListRequest → Act
  output_run : String → ℤ → Act
  lifecycle_finish : String → Option String → Bool → Act
  lifecycle_recover : String → Act
  clean_run : Bool → ℕ → Bool → Bool → Act
  disk_run : Act

-- What is called, with what comes back. `du` has the bytes, and whether the size is partial.
pub data Call : Type 0 where
  client_made : Bool → Call
  symlink : Bool → Call
  resolved_to : String → Call
  marker : Bool → Call
  touched : Call
  listed : Listing → Call
  slept : Call
  probed : String → String → Reply → Call
  du : String → ℕ → Bool → Call
  acted : Act → Call

abbrev pub Log : Type 0
Log = List Call

pub record Outside : Type 1 where
  pub State : Type 0
  -- `platform.system()` is Linux, and NAIW_ACCEPT_WINDOWS_FS_RISK.
  pub linux : Bool
  pub ack : Option String
  -- `make_client` returns, or raises.
  pub make_client : State → Bool × State
  -- Of the data root.
  pub is_symlink : State → Bool × State
  pub resolved : State → String × State
  pub marker_exists : State → Bool × State
  pub touch : State → Unit {0} × State
  -- The proxy.
  pub list_one : State → Listing × State
  pub sleep : State → Unit {0} × State
  pub uuid : State → String × State
  pub urlopen : String → String → State → Reply × State
  -- Of a name below the data root: it exists; and the status, the output of `du -sb`.
  pub exists : String → State → Bool × State
  pub run_du : String → State → (ℕ × String) × State
  pub strip : String → String
  pub int : String → Option ℕ
  -- `100.0 * used / max_bytes > limit`, in floating point.
  pub exceeds : ℕ → ℕ → ℕ → Bool
  -- The components.
  pub act : Act → State → Result ℕ × State

module _ (O : Outside) where
  -- `client`: the context has one. `log` is what has been called.
  pub record World : Type 0 where
    pub client : Bool
    pub log : Log
    pub state : O.State

  abbrev pub M : Type 0 → Type 0
  M A = World → Result A × World

module _ {O : Outside} where
  abbrev pub continue : {A B : Type 0} → Result A → (A → M O B) → M O B
  continue (ok a) f w = f a w
  continue (err e) f w = (err e, w)

  infixl 5 ◌>>=◌ ◌>>◌
  abbrev pub ◌>>=◌ : {A B : Type 0} → M O A → (A → M O B) → M O B
  ◌>>=◌ m f w = let (r, w') = m w in continue r f w'

  abbrev pub ◌>>◌ : {A B : Type 0} → M O A → M O B → M O B
  m >> k = m >>= λ _. k

  abbrev pub pure : {A : Type 0} → A → M O A
  pure a w = (ok a, w)

  abbrev pub raise : {A : Type 0} → Exit → M O A
  raise e w = (err e, w)

  -- A call, and what it leaves in the log.
  abbrev pub ask : {A : Type 0} → (O.State → A × O.State) → (A → Call) → M O A
  ask f call w =
      let (a, s) = f w.state in (ok a, record w { log = w.log ++ call a ∷ []; state = s })

  -- A look that the log leaves out.
  abbrev pub look : {A : Type 0} → (O.State → A × O.State) → M O A
  look f w = let (a, s) = f w.state in (ok a, record w { state = s })
