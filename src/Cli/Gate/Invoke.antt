-- ===== src/Cli/Gate/Invoke.antt =====
-- A run of `naiw-tasks`, from the configuration on.
use neotolis_ai_workbench.Base.{◌≡◌, refl, Option}
use neotolis_ai_workbench.Numbers.{Digits}
use neotolis_ai_workbench.Config.{
  Config, Env, Yaml, Loading, loaded, cannot_parse, not_a_mapping, unknown_key, unsupported_version,
  bad_proxy_url, bad_task_image, bad_size, load,
}
use neotolis_ai_workbench.Cli.{Outside, system_exit, err, raise}
use neotolis_ai_workbench.Cli.Rules.{Spec, Spec-now, Spec-weaken}
use neotolis_ai_workbench.Cli.Checks.Client.{NoClient}
use neotolis_ai_workbench.Cli.Commands.{
  Command, start, attach, doctor, disk, list, reap, output, finish, recover, clean, run_command,
  with_config, cli,
}
use neotolis_ai_workbench.Cli.Gate.{Invoked, no_config, configured}
use neotolis_ai_workbench.Cli.Gate.Every.{
  Ends, start-Ends, attach-Ends, doctor-Ends, disk-Ends, list-Ends, reap-Ends, output-Ends,
  finish-Ends, recover-Ends,
}
use neotolis_ai_workbench.Cli.Gate.Sweep.{clean-Ends}

module _ {O : Outside} (D : Digits) (cfg : Config) where
  run_command-Ends : (command : Command) → Ends {O = O} D cfg command (run_command D cfg command)
  run_command-Ends (start p b f s a) = start-Ends D cfg p b f s a
  run_command-Ends (attach t) = attach-Ends D cfg t
  run_command-Ends doctor = doctor-Ends D cfg
  run_command-Ends disk = disk-Ends D cfg
  run_command-Ends (list l x v p a j) = list-Ends D cfg l x v p a j
  run_command-Ends (reap j d) = reap-Ends D cfg j d
  run_command-Ends (output t n) = output-Ends D cfg t n
  run_command-Ends (finish t k d f) = finish-Ends D cfg t k d f
  run_command-Ends (recover t) = recover-Ends D cfg t
  run_command-Ends (clean o d s) = clean-Ends D cfg o d s

module _ (O : Outside) (D : Digits) (env : Env) (yaml : Option Yaml) (command : Command) where
  unloaded :
      ((cfg : Config) → load D O.strip env yaml ≡ loaded cfg → ⊥)
      → Spec (NoClient O) (Invoked O D env yaml command) (raise (system_exit 2))
  unloaded h = Spec-now _ (err (system_exit 2)) (no_config h)

  with_config-Invoked :
      (l : Loading)
      → load D O.strip env yaml ≡ l
      → Spec (NoClient O) (Invoked O D env yaml command) (with_config D l command)
  unfolding with_config
  with_config-Invoked (loaded cfg) e =
      Spec-weaken _ (Invoked O D env yaml command) (run_command D cfg command)
        (λ new r g. configured cfg e g) (run_command-Ends D cfg command)
  with_config-Invoked cannot_parse e = unloaded λ cfg k. cc (e, k)
  with_config-Invoked not_a_mapping e = unloaded λ cfg k. cc (e, k)
  with_config-Invoked unknown_key e = unloaded λ cfg k. cc (e, k)
  with_config-Invoked unsupported_version e = unloaded λ cfg k. cc (e, k)
  with_config-Invoked bad_proxy_url e = unloaded λ cfg k. cc (e, k)
  with_config-Invoked bad_task_image e = unloaded λ cfg k. cc (e, k)
  with_config-Invoked (bad_size x) e = unloaded λ cfg k. cc (e, k)

  -- A run of `naiw-tasks` from a context with no client, whatever Docker, the proxy, the disk
  -- and the components do. Without a valid configuration it exits with 2 and has called
  -- nothing. Otherwise it calls nothing, and ends with a usage error for options that are
  -- unusable, with exit code 3 for a name that is invalid, and with an exception for a duration
  -- that is too long; or no client can be made, or a check fails, as the log shows, and that
  -- exception ends the command with no component called; or it calls one component, the one
  -- that the command is for, as the last thing, and ends as its result says. `disk` and
  -- `output` have no checks and call theirs at once. The others call it once all checks have
  -- passed: the data root is no symbolic link, and on a Windows file system under Linux only if
  -- that is accepted; a listing is answered within five attempts; the proxy refuses exec and
  -- lets the start and stop of a container pass; and, for `start` and `recover`, the sizes
  -- measured are not above 95 percent of the limit. Only `clean` goes on after
  -- DockerCheckFailed, and only if the checks of the data root have passed. `doctor` ends once
  -- the checks have passed.
  pub cli-Invoked : Spec (NoClient O) (Invoked O D env yaml command) (cli D env yaml command)
  unfolding cli
  cli-Invoked = with_config-Invoked (load D O.strip env yaml) refl
