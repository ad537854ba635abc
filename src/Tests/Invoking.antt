-- ===== src/Tests/Invoking.antt =====
-- Runs of `naiw-tasks` with a proxy that answers at the third listing.
use Prim.Native.Nat.{ℕ, zero, suc}
use text.Mathlib.Text.{starts_with}
use neotolis_ai_workbench.Base.{
  ◌≡◌, refl, ◌*◌, true, false, none, some, [], ◌∷◌, ltb, str_eq, text_before, split_text,
  split_from, if◌then◌else◌,
}
use neotolis_ai_workbench.Ids.{validate_task_id, id_rest}
use neotolis_ai_workbench.Config.{Env, load}
use neotolis_ai_workbench.Tests.Sizes.{ascii}
use neotolis_ai_workbench.Cli.{
  Outside, World, Log, client_made, symlink, listed, slept, probed, acted, Listing, answered,
  docker_exception, http_error, system_exit, ok, err, lifecycle_finish, docker_check_failed,
  startup_check_failed,
}
use neotolis_ai_workbench.Cli.Disk.{du_sb, rows_of, compute_rows, over_threshold}
use neotolis_ai_workbench.Cli.Startup.{
  check_docker_reachable, check_naiw_data_not_symlink, check_not_on_windows_fs_on_linux,
  check_if_linux, check_proxy_allowlist_drift, run_all, refuse_if, after_listing, judge,
  expect_http_status, gate, check_disk_threshold,
}
use neotolis_ai_workbench.Cli.Commands.{
  finish, cli, run_command, with_config, checked, client_for, client_unless, new_client, make,
  set_client, perform, finish_policy,
}
use neotolis_ai_workbench.Cli.Commands.{finish_command}
use neotolis_ai_workbench.Cli.Options.{parse_statuses, add_items, add_pieces, add_status, then_with}
use neotolis_ai_workbench.Cli.Reach.{ComesUp, Waits, check_docker_reachable-Waits}
use neotolis_ai_workbench.Cli.Rules.{Spec}
use neotolis_ai_workbench.Cli.Checks.Client.{NoClient}
use neotolis_ai_workbench.Cli.Gate.{Invoked}
use neotolis_ai_workbench.Cli.Gate.Invoke.{cli-Invoked}
use neotolis_ai_workbench.Cli.Statuses.{Parsed, parse_statuses-Parsed}

-- The state is the number of listings that fail still.
abbrev try_listing : ℕ → Listing × ℕ
try_listing zero = (answered, zero)
try_listing (suc k) = (docker_exception, k)

abbrev outside : Outside
outside = record {
  State = ℕ;
  linux = false;
  ack = none;
  make_client = λ s. (true, s);
  is_symlink = λ s. (false, s);
  resolved = λ s. ("/srv/data", s);
  marker_exists = λ s. (false, s);
  touch = λ s. (tt, s);
  list_one = try_listing;
  sleep = λ s. (tt, s);
  uuid = λ s. ("00ff", s);
  urlopen =
      λ method path s. (if starts_with path "/exec/" then http_error 403 else http_error 404, s);
  exists = λ name s. (str_eq name "tasks", s);
  run_du = λ name s. ((0, "70\t/srv/data/tasks"), s);
  strip = λ s. s;
  int = λ s. if str_eq s "70" then some 70 else none;
  exceeds = λ used max_bytes limit. ltb (limit * max_bytes) (100 * used);
  act = λ a s. (ok 0, s);
}

abbrev env : Env
env = record {
  naiw_data = none;
  naiw_data_host = none;
  naiw_docker_proxy_url = none;
  home = "home" ∷ [];
  expanduser = λ s. s ∷ [];
}

abbrev world : World outside
world = record { client = false; log = []; state = 2 }

comes_up : ComesUp outside 2 2
unfolding ComesUp
comes_up = (refl, (refl, refl))

check_docker_reachable-Waits_example : Waits outside 5 2 world
check_docker_reachable-Waits_example = check_docker_reachable-Waits outside 5 2 world comes_up

gives_up : (check_docker_reachable {O = outside} 2 world).0 ≡ err docker_check_failed
unfolding check_docker_reachable after_listing
gives_up = refl

cli-Invoked_example :
    Spec
      (NoClient outside)
      (Invoked outside ascii env none (finish "demo-001" true false false))
      (cli ascii env none (finish "demo-001" true false false))
cli-Invoked_example = cli-Invoked outside ascii env none (finish "demo-001" true false false)

parse_statuses-Parsed_example :
    Parsed []
      ("running" ∷ "failed" ∷ "running" ∷ "" ∷ [])
      (parse_statuses (λ s. s) ("running,failed" ∷ "running," ∷ []))
unfolding split_text split_from
parse_statuses-Parsed_example = parse_statuses-Parsed (λ s. s) ("running,failed" ∷ "running," ∷ [])

statuses :
    parse_statuses (λ s. s) ("running,failed" ∷ "running," ∷ []) ≡ some ("running" ∷ "failed" ∷ [])
unfolding parse_statuses add_items add_pieces add_status then_with split_text split_from
statuses = refl

bad_status : parse_statuses (λ s. s) ("running,gone" ∷ []) ≡ none
unfolding parse_statuses add_items add_pieces add_status then_with split_text split_from
bad_status = refl

invalid_name :
    (cli {O = outside} ascii env none (finish "../x" true false false) world).0
    ≡ err (system_exit 3)
unfolding cli load with_config run_command finish_command checked validate_task_id
invalid_name = refl

abbrev finish_log : Log
finish_log =
    client_made true
    ∷ symlink false
    ∷ listed docker_exception
    ∷ slept
    ∷ listed docker_exception
    ∷ slept
    ∷ listed answered
    ∷ probed "POST" "/exec/naiw-probe-00ff/start" (http_error 403)
    ∷ probed "POST" "/containers/naiw-probe-00ff/start" (http_error 404)
    ∷ probed "POST" "/containers/naiw-probe-00ff/stop" (http_error 404)
    ∷ acted (lifecycle_finish "demo-001" (some "keep_worktree") false)
    ∷ []

finishes :
    (cli {O = outside} ascii env none (finish "demo-001" true false false) world).1.log ≡ finish_log
unfolding cli load with_config run_command finish_command checked validate_task_id id_rest
    client_for client_unless new_client make set_client run_all check_naiw_data_not_symlink
    refuse_if check_not_on_windows_fs_on_linux check_if_linux check_docker_reachable after_listing
    check_proxy_allowlist_drift expect_http_status judge gate perform finish_policy
finishes = refl

-- The disk is full: 70 of 73 bytes are more than 95 percent.
full : (check_disk_threshold {O = outside} 73 world).0 ≡ err startup_check_failed
unfolding check_disk_threshold over_threshold compute_rows rows_of du_sb refuse_if text_before
full = refl

not_full : (check_disk_threshold {O = outside} 74 world).0 ≡ ok tt
unfolding check_disk_threshold over_threshold compute_rows rows_of du_sb refuse_if text_before
not_full = refl
