-- ===== src/Cli/Gate/Sweep.antt =====
-- `clean` ends as `Gated` says, with a client or without.
use mathlib.Core.List.{append-nil}
use Prim.Native.String.{String}
use neotolis_ai_workbench.Base.{◌≡◌, refl, ℕ, Bool, true, false, ◌++◌}
use neotolis_ai_workbench.Numbers.{Digits}
use neotolis_ai_workbench.Config.{Config}
use neotolis_ai_workbench.Clean.Candidates.{age, value_error, overflow_error, parse_older_than}
use neotolis_ai_workbench.Cli.{
  Outside, Log, Exit, startup_check_failed, docker_check_failed, usage_error, raised, Result, ok,
  err, Act, clean_run, continue,
}
use neotolis_ai_workbench.Cli.Rules.{AnyWorld, Spec, Spec-now, Spec-seq, Spec-then}
use neotolis_ai_workbench.Cli.Traces.{Passed, Stopped}
use neotolis_ai_workbench.Cli.Checks.{Check, good, bad}
use neotolis_ai_workbench.Cli.Checks.Client.{NoClient, client_for-Check}
use neotolis_ai_workbench.Cli.Commands.{
  clean, perform, client_for, client_or_none, clean_client, exits, clean_from, run_command,
  clean_command,
}
use neotolis_ai_workbench.Cli.Gate.{
  names_valid, ended, Acts, cleans, cleans_disk, no_duration, gate_of, tolerates, Gated, unusable,
  too_long, stopped, acts,
}
use neotolis_ai_workbench.Cli.Gate.Runs.{Performed, performed, now_as, perform-Performed}
use neotolis_ai_workbench.Cli.Gate.Halts.{Stop, no_startup, no_docker, exception, Stopped-Stop}
use neotolis_ai_workbench.Cli.Gate.Every.{Ends, exited}

-- `clean` has a client, or goes on without.
data Client (O : Outside) (max_bytes : ℕ) : Log → Result Bool → Type 0 where
  there : {log : Log} → Passed O false max_bytes log → Client O max_bytes log (ok true)
  absent :
      {log : Log}
      → Stopped O false max_bytes docker_check_failed log
      → Client O max_bytes log (ok false)
  unfit :
      {log : Log}
      → Stopped O false max_bytes startup_check_failed log
      → Client O max_bytes log (err startup_check_failed)
  broken_off :
      {log : Log} → Stopped O false max_bytes raised log → Client O max_bytes log (err raised)

module _ {O : Outside} (D : Digits) (cfg : Config) where
  not_given :
      {log : Log} {e : Exit}
      → Stop e
      → Stopped O false cfg.max_data_size e log
      → Spec AnyWorld
          (λ more r. Client O cfg.max_data_size (log ++ more) r)
          (client_or_none {O = O} (err e))
  unfolding client_or_none
  not_given no_docker b = Spec-now _ (ok false) (rw (append-nil _) (absent b))
  not_given no_startup b = Spec-now _ (err startup_check_failed) (rw (append-nil _) (unfit b))
  not_given exception b = Spec-now _ (err raised) (rw (append-nil _) (broken_off b))

  given :
      {log : Log} {r : Result (Unit {0})}
      → Check (Passed O false cfg.max_data_size) (Stopped O false cfg.max_data_size) log r
      → Spec AnyWorld
          (λ more r. Client O cfg.max_data_size (log ++ more) r)
          (client_or_none {O = O} r)
  unfolding client_or_none
  given (good q) = Spec-now _ (ok true) (rw (append-nil _) (there q))
  given (bad b) = not_given (Stopped-Stop b) b

  clean_client-Client : Spec (NoClient O) (Client O cfg.max_data_size) (clean_client {O = O} cfg)
  unfolding clean_client
  clean_client-Client =
      Spec-then _ (Client O cfg.max_data_size) (client_for cfg false) client_or_none
        (client_for-Check O cfg false) λ new r c. given c

  module _ (older_than : String) (dry_run skip_prompt : Bool) where
    swept :
        (td : ℕ) (client : Bool) {log : Log}
        → parse_older_than D O.strip older_than ≡ age td
        → Client O cfg.max_data_size log (ok client)
        → Acts O D cfg
            (clean older_than dry_run skip_prompt)
            log
            (clean_run client td dry_run skip_prompt)
    swept td client e (there q) = cleans e q
    swept td client e (absent b) = cleans_disk e b

    unswept :
        {log : Log} {e : Exit}
        → Client O cfg.max_data_size log (err e)
        → Gated O D cfg (clean older_than dry_run skip_prompt) log (err e)
    unfolding names_valid gate_of tolerates
    unswept (unfit s) = stopped refl refl refl s
    unswept (broken_off s) = stopped refl refl refl s

    swept-Gated :
        {a : Act} {log more : Log} {r : Result ℕ}
        → Acts O D cfg (clean older_than dry_run skip_prompt) log a
        → Performed a more r
        → Spec AnyWorld
            (λ rest r.
              Gated O D cfg (clean older_than dry_run skip_prompt) (log ++ (more ++ rest)) r)
            (continue {O = O} r exits)
    unfolding names_valid ended
    swept-Gated x (performed r) = now_as _ _ _ (exited D cfg r) (acts r refl x)

    pub clean-Ends :
        Ends {O = O} D cfg
          (clean older_than dry_run skip_prompt)
          (run_command D cfg (clean older_than dry_run skip_prompt))
    unfolding run_command clean_command clean_from
    clean-Ends =
        elim (parse_older_than D O.strip older_than)
            as (λ x.
              parse_older_than D O.strip older_than ≡ x
              → Ends {O = O} D cfg (clean older_than dry_run skip_prompt)
                  (clean_from cfg dry_run skip_prompt x)) [
                    | value_error ↦ λ e. Spec-now _ (err usage_error) (unusable (no_duration e))
                    | overflow_error ↦ λ e. Spec-now _ (err raised) (too_long refl e)
                    | age td ↦ λ e.
                        Spec-seq (Client O cfg.max_data_size) _ (clean_client cfg) _
                          clean_client-Client (λ new x c. unswept c)
                          λ new client c.
                            Spec-then (Performed (clean_run client td dry_run skip_prompt)) _
                              (perform (clean_run client td dry_run skip_prompt))
                              (λ r. continue r exits) (perform-Performed _)
                              λ more r p. swept-Gated (swept td client e c) p
                  ]
          refl
