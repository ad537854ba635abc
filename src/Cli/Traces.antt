-- ===== src/Cli/Traces.antt =====
-- What the checks leave in the log: how they pass, and how they fail.
use Prim.Native.String.{String}
use neotolis_ai_workbench.Base.{
  [], ◌≡◌, ℕ, suc, ◌+◌, ◌<>◌, Bool, true, false, some, List, ◌∷◌, ◌++◌, ◌==◌, str_eq, get_or,
}
use neotolis_ai_workbench.Cli.{
  Outside, Call, client_made, symlink, resolved_to, marker, touched, listed, slept, probed, du, Log,
  answered, docker_exception, Reply, success, url_error, http_error, other_error, broken, Exit,
  startup_check_failed, docker_check_failed, raised,
}
use neotolis_ai_workbench.Cli.Disk.{subdir_order, over}
use neotolis_ai_workbench.Cli.Startup.{on_windows_fs}

-- The data root is on no Windows file system under Linux, or the operator has accepted that.
pub data Fs (O : Outside) : Log → Type 0 where
  other_system : O.linux ≡ false → Fs O []
  native : {path : String} → on_windows_fs path ≡ false → Fs O (resolved_to path ∷ [])
  marked : {path : String} → O.ack ≡ some "1" → Fs O (resolved_to path ∷ marker true ∷ [])
  warned :
      {path : String} → O.ack ≡ some "1" → Fs O (resolved_to path ∷ marker false ∷ touched ∷ [])

-- A listing is answered, within a number of attempts; or none is.
pub data Reached : ℕ → Log → Type 0 where
  at_once : {n : ℕ} → Reached (suc n) (listed answered ∷ [])
  again :
      {n : ℕ} {log : Log}
      → Reached (suc n) log
      → Reached (suc (suc n)) (listed docker_exception ∷ slept ∷ log)

-- `e` is the exception that then ends the command.
pub data Unreached : ℕ → Exit → Log → Type 0 where
  no_attempt : Unreached 0 docker_check_failed []
  last_attempt : Unreached 1 docker_check_failed (listed docker_exception ∷ [])
  other_exception : {n : ℕ} → Unreached (suc n) raised (listed broken ∷ [])
  again :
      {n : ℕ} {e : Exit} {log : Log}
      → Unreached (suc n) e log
      → Unreached (suc (suc n)) e (listed docker_exception ∷ slept ∷ log)

abbrev pub exec_start : String → Reply → Call
exec_start id = probed "POST" ("/exec/" <> id <> "/start")

abbrev pub container_start : String → Reply → Call
container_start id = probed "POST" ("/containers/" <> id <> "/start")

abbrev pub container_stop : String → Reply → Call
container_stop id = probed "POST" ("/containers/" <> id <> "/stop")

-- A reply that is not the status that is expected.
pub data Wrong (expected : ℕ) : Exit → Reply → Type 0 where
  through : Wrong expected docker_check_failed success
  no_proxy : Wrong expected docker_check_failed url_error
  no_reply : Wrong expected raised other_error
  other_status :
      {code : ℕ} → code == expected ≡ false → Wrong expected docker_check_failed (http_error code)

-- The proxy refuses `exec` and lets the start and stop of a container pass; or it does not.
pub data Allowlist : Log → Type 0 where
  as_expected :
      (id : String)
      → Allowlist (
          exec_start id (http_error 403)
          ∷ container_start id (http_error 404)
          ∷ container_stop id (http_error 404)
          ∷ [])

pub data Drift : Exit → Log → Type 0 where
  at_exec :
      (id : String) {e : Exit} {reply : Reply}
      → Wrong 403 e reply
      → Drift e (exec_start id reply ∷ [])
  at_start :
      (id : String) {e : Exit} {reply : Reply}
      → Wrong 404 e reply
      → Drift e (exec_start id (http_error 403) ∷ container_start id reply ∷ [])
  at_stop :
      (id : String) {e : Exit} {reply : Reply}
      → Wrong 404 e reply
      → Drift e (
          exec_start id (http_error 403)
          ∷ container_start id (http_error 404)
          ∷ container_stop id reply
          ∷ [])

-- The sizes below the data root, with their sum.
pub data Measured : List String → ℕ → Log → Type 0 where
  nothing : Measured [] 0 []
  more :
      {name : String} {names : List String} {size n : ℕ} {partial : Bool} {log : Log}
      → Measured names n log
      → Measured (name ∷ names) (size + n) (du name size partial ∷ log)

-- The disk is not looked at, or is not above the limit of 95 percent.
pub data Room (O : Outside) (max_bytes : ℕ) : Bool → Log → Type 0 where
  no_gate : Room O max_bytes false []
  enough :
      {n : ℕ} {log : Log}
      → Measured subdir_order n log
      → over O n max_bytes 95 ≡ false
      → Room O max_bytes true log

-- All checks pass.
pub data Passed (O : Outside) (gated : Bool) (max_bytes : ℕ) : Log → Type 0 where
  passed :
      {fs listings probes disk : Log}
      → Fs O fs
      → Reached 5 listings
      → Allowlist probes
      → Room O max_bytes gated disk
      → Passed O gated max_bytes
          (client_made true ∷ symlink false ∷ (fs ++ (listings ++ (probes ++ disk))))

-- The data root is on a Windows file system under Linux, and the operator has not accepted that.
pub data BadFs (O : Outside) : Log → Type 0 where
  refused :
      {path : String}
      → O.linux ≡ true
      → on_windows_fs path ≡ true
      → str_eq (get_or O.ack "") "1" ≡ false
      → BadFs O (resolved_to path ∷ [])

-- The disk is looked at, and is above the limit.
pub data Full (O : Outside) (max_bytes : ℕ) : Bool → Log → Type 0 where
  too_much :
      {n : ℕ} {log : Log}
      → Measured subdir_order n log
      → over O n max_bytes 95 ≡ true
      → Full O max_bytes true log

-- A check fails, or raises, and which exception ends the command.
pub data Stopped (O : Outside) (gated : Bool) (max_bytes : ℕ) : Exit → Log → Type 0 where
  no_client : Stopped O gated max_bytes raised (client_made false ∷ [])
  linked_root :
      Stopped O gated max_bytes startup_check_failed (client_made true ∷ symlink true ∷ [])
  bad_fs :
      {fs : Log}
      → BadFs O fs
      → Stopped O gated max_bytes startup_check_failed (client_made true ∷ symlink false ∷ fs)
  unreachable :
      {e : Exit} {fs listings : Log}
      → Fs O fs
      → Unreached 5 e listings
      → Stopped O gated max_bytes e (client_made true ∷ symlink false ∷ (fs ++ listings))
  drifted :
      {e : Exit} {fs listings probes : Log}
      → Fs O fs
      → Reached 5 listings
      → Drift e probes
      → Stopped O gated max_bytes e
          (client_made true ∷ symlink false ∷ (fs ++ (listings ++ probes)))
  full :
      {fs listings probes disk : Log}
      → Fs O fs
      → Reached 5 listings
      → Allowlist probes
      → Full O max_bytes gated disk
      → Stopped O gated max_bytes startup_check_failed
          (client_made true ∷ symlink false ∷ (fs ++ (listings ++ (probes ++ disk))))
