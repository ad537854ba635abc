-- ===== src/Cli/Commands.antt =====
-- src/naiw_tasks/naiw_tasks/cli.py: the commands, with their arguments as click has read them.
use Prim.Native.String.{String}
use neotolis_ai_workbench.Base.{
  ℕ, Bool, true, false, ◌&&◌, Option, none, some, List, [], ◌∷◌, ◌++◌, if◌then◌else◌,
}
use neotolis_ai_workbench.Ids.{validate_task_id, validate_project_alias, validate_secret_name}
use neotolis_ai_workbench.Base.Integers.{ℤ}
use neotolis_ai_workbench.Numbers.{Digits}
use neotolis_ai_workbench.Config.{Config, Env, Yaml, Loading, loaded, load}
use neotolis_ai_workbench.Clean.Candidates.{Age, age, value_error, overflow_error, parse_older_than}
use neotolis_ai_workbench.Cli.{
  Outside, M, client_made, acted, docker_check_failed, usage_error, start_failed, recover_failed,
  recover_not_interrupted, system_exit, raised, Result, ok, err, Act, lifecycle_start,
  attach_to_task, list_run, output_run, lifecycle_finish, lifecycle_recover, clean_run, disk_run,
  ListRequest, ◌>>=◌, ◌>>◌, pure, raise, ask,
}
use neotolis_ai_workbench.Cli.Startup.{run_all}
use neotolis_ai_workbench.Cli.Options.{parse_statuses}

pub data Command : Type 0 where
  start : Option String → Option String → String → List String → Bool → Command
  attach : String → Command
  doctor disk : Command
  -- The limit and whether it was given, --status, --project, --all and --json.
  list : ℕ → Bool → List String → Option String → Bool → Bool → Command
  -- --json and --dry-run.
  reap : Bool → Bool → Command
  output : String → ℤ → Command
  -- --keep-worktree, --delete-worktree and --force.
  finish : String → Bool → Bool → Bool → Command
  recover : String → Command
  -- --older-than, --dry-run and --yes.
  clean : String → Bool → Bool → Command

unfoldable pub all_secrets : List String → Bool
all_secrets [] = true
all_secrets (name ∷ secrets) = validate_secret_name name && all_secrets secrets

unfoldable pub alias_ok : Option String → Bool
alias_ok none = true
alias_ok (some project) = validate_project_alias project

unfoldable pub finish_policy : Bool → Bool → Option String
finish_policy keep_worktree delete_worktree =
    if keep_worktree
    then some "keep_worktree"
    else if delete_worktree
    then some "delete_worktree"
    else none

module _ {O : Outside} where
  unfoldable pub perform : Act → M O ℕ
  perform a w =
      let (r, s) = O.act a w.state in (r, record w { log = w.log ++ acted a ∷ []; state = s })

  -- What the code after a call does with its exceptions.
  unfoldable pub except : {A : Type 0} → M O A → (Result A → M O Unit) → M O Unit
  except m f w = let (r, w') = m w in f r w'

  unfoldable pub set_client : M O Unit
  set_client w = (ok tt, record w { client = true })

  unfoldable pub make : Bool → M O Unit
  make true = pure tt
  make false = raise raised

  -- The context keeps the client once the checks have passed.
  unfoldable pub new_client : Config → Bool → M O Unit
  unfolding make set_client run_all
  new_client cfg gate_disk_threshold = do
    made ← ask O.make_client client_made
    make made
    run_all gate_disk_threshold cfg.max_data_size
    set_client

  -- `has_client`: `"client" in ctx.obj`.
  unfoldable pub client_unless : Bool → Config → Bool → M O Unit
  unfolding new_client
  client_unless has_client cfg gate_disk_threshold =
      if has_client then pure tt else new_client cfg gate_disk_threshold

  unfoldable pub client_for : Config → Bool → M O Unit
  unfolding client_unless
  client_for cfg gate_disk_threshold w = client_unless w.client cfg gate_disk_threshold w

  -- A validation of `ids` that fails is exit 3.
  unfoldable pub checked : Bool → M O Unit → M O Unit
  checked true m = m
  checked false m = raise (system_exit 3)

  unfoldable pub done : Result ℕ → M O Unit
  done (ok n) = pure tt
  done (err e) = raise e

  unfoldable pub start_ended : Result ℕ → M O Unit
  unfolding done
  start_ended (err start_failed) = raise (system_exit 1)
  start_ended r = done r

  unfoldable pub recover_ended : Result ℕ → M O Unit
  unfolding done
  recover_ended (err recover_not_interrupted) = raise (system_exit 2)
  recover_ended (err recover_failed) = raise (system_exit 1)
  recover_ended r = done r

  -- The client of `clean`, or none where Docker cannot be reached.
  unfoldable pub client_or_none : Result (Unit {0}) → M O Bool
  client_or_none (ok x) = pure true
  client_or_none (err docker_check_failed) = pure false
  client_or_none (err e) = raise e

  unfoldable pub clean_client : Config → M O Bool
  unfolding client_or_none client_for
  clean_client cfg w = let (r, w') = client_for cfg false w in client_or_none r w'

  unfoldable pub exits : ℕ → M O Unit
  exits rc = raise (system_exit rc)

  unfoldable pub clean_from : Config → Bool → Bool → Age → M O Unit
  unfolding clean_client perform exits
  clean_from cfg dry_run skip_prompt value_error = raise usage_error
  clean_from cfg dry_run skip_prompt overflow_error = raise raised
  clean_from cfg dry_run skip_prompt (age td) =
      clean_client cfg >>= λ client. perform (clean_run client td dry_run skip_prompt) >>= exits

  unfoldable pub list_from : Config → Option (List String) → (List String → ListRequest) → M O Unit
  unfolding client_for perform
  list_from cfg none request = raise usage_error
  list_from cfg (some statuses) request =
      client_for cfg false >> perform (list_run (request statuses)) >> pure tt

  module _ (D : Digits) (cfg : Config) where
    unfoldable pub start_command :
        Option String → Option String → String → List String → Bool → M O Unit
    unfolding checked alias_ok all_secrets client_for perform except start_ended
    start_command project base_ref finish_policy secrets auto_finish = checked (alias_ok project) (
        checked (all_secrets secrets) (
          except
            (client_for cfg true
              >> perform (lifecycle_start project base_ref finish_policy secrets auto_finish))
            start_ended))

    unfoldable pub attach_command : String → M O Unit
    unfolding checked client_for perform
    attach_command task_id =
        checked (validate_task_id task_id)
          (client_for cfg false >> perform (attach_to_task cfg.docker_proxy_url task_id) >> pure tt)

    unfoldable pub doctor_command : M O Unit
    unfolding client_for
    doctor_command = client_for cfg false

    unfoldable pub disk_command : M O Unit
    unfolding perform exits
    disk_command = perform disk_run >>= exits

    unfoldable pub list_command : ℕ → Bool → List String → Option String → Bool → Bool → M O Unit
    unfolding list_from
    list_command limit limit_was_explicit value project_filter show_all as_json =
        list_from cfg (parse_statuses O.strip value) λ statuses. record {
          limit = some limit;
          statuses = statuses;
          project_filter = project_filter;
          show_all = show_all;
          as_json = as_json;
          limit_was_explicit = limit_was_explicit;
          apply_auto_finish = false;
          dry_run = false;
        }

    unfoldable pub reap_command : Bool → Bool → M O Unit
    unfolding list_from
    reap_command as_json dry_run = list_from cfg (some []) λ statuses. record {
      limit = none;
      statuses = statuses;
      project_filter = none;
      show_all = true;
      as_json = as_json;
      limit_was_explicit = false;
      apply_auto_finish = true;
      dry_run = dry_run;
    }

    unfoldable pub output_command : String → ℤ → M O Unit
    unfolding checked perform
    output_command task_id lines =
        checked (validate_task_id task_id) (perform (output_run task_id lines) >> pure tt)

    unfoldable pub finish_command : String → Bool → Bool → Bool → M O Unit
    unfolding checked client_for perform finish_policy
    finish_command task_id keep_worktree delete_worktree force =
        if keep_worktree && delete_worktree
        then raise usage_error
        else checked (validate_task_id task_id) (
            client_for cfg false
            >> perform
                (lifecycle_finish task_id (finish_policy keep_worktree delete_worktree) force)
            >> pure tt)

    unfoldable pub recover_command : String → M O Unit
    unfolding checked client_for perform except recover_ended
    recover_command task_id =
        checked (validate_task_id task_id)
          (except (client_for cfg true >> perform (lifecycle_recover task_id)) recover_ended)

    unfoldable pub clean_command : String → Bool → Bool → M O Unit
    unfolding clean_from
    clean_command older_than dry_run skip_prompt =
        clean_from cfg dry_run skip_prompt (parse_older_than D O.strip older_than)

    unfoldable pub run_command : Command → M O Unit
    unfolding start_command attach_command doctor_command disk_command list_command reap_command
        output_command finish_command recover_command clean_command
    run_command (start project base_ref finish_policy secrets auto_finish) =
        start_command project base_ref finish_policy secrets auto_finish
    run_command (attach task_id) = attach_command task_id
    run_command doctor = doctor_command
    run_command disk = disk_command
    run_command (list limit limit_was_explicit value project_filter show_all as_json) =
        list_command limit limit_was_explicit value project_filter show_all as_json
    run_command (reap as_json dry_run) = reap_command as_json dry_run
    run_command (output task_id lines) = output_command task_id lines
    run_command (finish task_id keep_worktree delete_worktree force) =
        finish_command task_id keep_worktree delete_worktree force
    run_command (recover task_id) = recover_command task_id
    run_command (clean older_than dry_run skip_prompt) =
        clean_command older_than dry_run skip_prompt

  -- The group's callback comes first. A ValueError of `config.load` is exit 2.
  unfoldable pub with_config : Digits → Loading → Command → M O Unit
  unfolding run_command
  with_config D (loaded cfg) command = run_command D cfg command
  with_config D e command = raise (system_exit 2)

  unfoldable pub cli : Digits → Env → Option Yaml → Command → M O Unit
  unfolding with_config load
  cli D env yaml command = with_config D (load D O.strip env yaml) command
