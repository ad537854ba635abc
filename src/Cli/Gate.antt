-- ===== src/Cli/Gate.antt =====
-- What a command may do, and after which checks; and its exit code.
pub mod Runs
pub mod Halts
pub mod Every
pub mod Sweep
pub mod Invoke
use Prim.Native.String.{String}
use neotolis_ai_workbench.Base.{
  [], ◌≡◌, ℕ, Bool, true, false, ◌&&◌, Option, none, some, List, ◌∷◌, ◌++◌,
}
use neotolis_ai_workbench.Ids.{validate_task_id}
use neotolis_ai_workbench.Base.Integers.{ℤ}
use neotolis_ai_workbench.Numbers.{Digits}
use neotolis_ai_workbench.Config.{Config, Env, Yaml, loaded, load}
use neotolis_ai_workbench.Clean.Candidates.{age, value_error, overflow_error, parse_older_than}
use neotolis_ai_workbench.Cli.{
  Outside, acted, Log, Exit, docker_check_failed, usage_error, start_failed, recover_failed,
  recover_not_interrupted, system_exit, raised, Result, ok, err, Act, lifecycle_start,
  attach_to_task, list_run, output_run, lifecycle_finish, lifecycle_recover, clean_run, disk_run,
}
use neotolis_ai_workbench.Cli.Traces.{Passed, Stopped}
use neotolis_ai_workbench.Cli.Commands.{
  Command, start, attach, doctor, disk, list, reap, output, finish, recover, clean, alias_ok,
  all_secrets, finish_policy,
}
use neotolis_ai_workbench.Cli.Options.{parse_statuses}

-- The ids, the alias and the names of secrets are valid.
pub names_valid : Command → Bool
names_valid (start project base_ref policy secrets auto_finish) =
    alias_ok project && all_secrets secrets
names_valid (attach task_id) = validate_task_id task_id
names_valid (output task_id lines) = validate_task_id task_id
names_valid (finish task_id keep delete force) = validate_task_id task_id
names_valid (recover task_id) = validate_task_id task_id
names_valid _ = true

-- How a component's result ends the command.
pub ended : Command → Result ℕ → Result (Unit {0})
ended (start p b f s a) (err start_failed) = err (system_exit 1)
ended (recover task_id) (err recover_not_interrupted) = err (system_exit 2)
ended (recover task_id) (err recover_failed) = err (system_exit 1)
ended (clean older_than dry_run skip_prompt) (ok rc) = err (system_exit rc)
ended disk (ok rc) = err (system_exit rc)
ended command (ok n) = ok tt
ended command (err e) = err e

-- The checks before a command: none, or those with (true) or without (false) the limit of the disk.
pub gate_of : Command → Option Bool
gate_of (start project base_ref policy secrets auto_finish) = some true
gate_of (recover task_id) = some true
gate_of (output task_id lines) = none
gate_of disk = none
gate_of _ = some false

-- The command goes on after the exception.
pub tolerates : Command → Exit → Bool
tolerates (clean older_than dry_run skip_prompt) docker_check_failed = true
tolerates _ e = false

module _ (O : Outside) (D : Digits) (cfg : Config) where
  -- The call of a component that a command is for, with what is in the log before.
  pub data Acts : Command → Log → Act → Type 0 where
    starts :
        {p b : Option String} {f : String} {s : List String} {a : Bool} {log : Log}
        → Passed O true cfg.max_data_size log
        → Acts (start p b f s a) log (lifecycle_start p b f s a)
    attaches :
        {task_id : String} {log : Log}
        → Passed O false cfg.max_data_size log
        → Acts (attach task_id) log (attach_to_task cfg.docker_proxy_url task_id)
    lists :
        {limit : ℕ} {explicit all json : Bool} {value statuses : List String} {p : Option String}
        {log : Log}
        → parse_statuses O.strip value ≡ some statuses
        → Passed O false cfg.max_data_size log
        → Acts (list limit explicit value p all json) log (
            list_run (record {
              limit = some limit;
              statuses = statuses;
              project_filter = p;
              show_all = all;
              as_json = json;
              limit_was_explicit = explicit;
              apply_auto_finish = false;
              dry_run = false;
            }))
    reaps :
        {json dry_run : Bool} {log : Log}
        → Passed O false cfg.max_data_size log
        → Acts (reap json dry_run) log (
            list_run (record {
              limit = none;
              statuses = [];
              project_filter = none;
              show_all = true;
              as_json = json;
              limit_was_explicit = false;
              apply_auto_finish = true;
              dry_run = dry_run;
            }))
    outputs :
        {task_id : String} {lines : ℤ} → Acts (output task_id lines) [] (output_run task_id lines)
    finishes :
        {task_id : String} {keep delete force : Bool} {log : Log}
        → keep && delete ≡ false
        → Passed O false cfg.max_data_size log
        → Acts
            (finish task_id keep delete force)
            log
            (lifecycle_finish task_id (finish_policy keep delete) force)
    recovers :
        {task_id : String} {log : Log}
        → Passed O true cfg.max_data_size log
        → Acts (recover task_id) log (lifecycle_recover task_id)
    cleans :
        {older_than : String} {dry_run skip_prompt : Bool} {td : ℕ} {log : Log}
        → parse_older_than D O.strip older_than ≡ age td
        → Passed O false cfg.max_data_size log
        → Acts (clean older_than dry_run skip_prompt) log (clean_run true td dry_run skip_prompt)
    cleans_disk :
        {older_than : String} {dry_run skip_prompt : Bool} {td : ℕ} {log : Log}
        → parse_older_than D O.strip older_than ≡ age td
        → Stopped O false cfg.max_data_size docker_check_failed log
        → Acts (clean older_than dry_run skip_prompt) log (clean_run false td dry_run skip_prompt)
    disks : Acts disk [] disk_run

  -- Options that exclude each other, or that cannot be read.
  pub data Unusable : Command → Type 0 where
    both_policies : {task_id : String} {force : Bool} → Unusable (finish task_id true true force)
    no_status :
        {limit : ℕ} {explicit all json : Bool} {value : List String} {p : Option String}
        → parse_statuses O.strip value ≡ none
        → Unusable (list limit explicit value p all json)
    no_duration :
        {older_than : String} {dry_run skip_prompt : Bool}
        → parse_older_than D O.strip older_than ≡ value_error
        → Unusable (clean older_than dry_run skip_prompt)

  -- What a command leaves in the log, and how it ends.
  pub data Gated (command : Command) : Log → Result (Unit {0}) → Type 0 where
    unusable : Unusable command → Gated command [] (err usage_error)
    invalid : names_valid command ≡ false → Gated command [] (err (system_exit 3))
    too_long :
        {older_than : String} {dry_run skip_prompt : Bool}
        → command ≡ clean older_than dry_run skip_prompt
        → parse_older_than D O.strip older_than ≡ overflow_error
        → Gated command [] (err raised)
    stopped :
        {log : Log} {e : Exit} {gated : Bool}
        → names_valid command ≡ true
        → gate_of command ≡ some gated
        → tolerates command e ≡ false
        → Stopped O gated cfg.max_data_size e log
        → Gated command log (err e)
    healthy :
        {log : Log}
        → command ≡ doctor
        → Passed O false cfg.max_data_size log
        → Gated command log (ok tt)
    acts :
        {log : Log} {a : Act} (r : Result ℕ)
        → names_valid command ≡ true
        → Acts command log a
        → Gated command (log ++ acted a ∷ []) (ended command r)

-- From the start: config.yaml cannot be loaded, or the command runs.
pub data Invoked (O : Outside) (D : Digits) (env : Env) (yaml : Option Yaml) (command : Command)
    : Log → Result (Unit {0}) → Type 0 where
  no_config :
      ((cfg : Config) → load D O.strip env yaml ≡ loaded cfg → ⊥)
      → Invoked O D env yaml command [] (err (system_exit 2))
  configured :
      {log : Log} {r : Result (Unit {0})} (cfg : Config)
      → load D O.strip env yaml ≡ loaded cfg
      → Gated O D cfg command log r
      → Invoked O D env yaml command log r
