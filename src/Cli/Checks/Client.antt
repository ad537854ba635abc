-- ===== src/Cli/Checks/Client.antt =====
-- All checks, and the client.
use mathlib.Core.List.{append-nil}
use neotolis_ai_workbench.Base.{[], ◌≡◌, sym, ℕ, Bool, true, false, ◌∷◌, ◌++◌}
use neotolis_ai_workbench.Config.{Config}
use neotolis_ai_workbench.Cli.{
  Exit, Outside, World, client_made, Log, raised, Result, ok, err, ◌>>=◌,
}
use neotolis_ai_workbench.Cli.Rules.{AnyWorld, Spec, Spec-now, Spec-seq, Spec-ask-then}
use neotolis_ai_workbench.Cli.Startup.{run_all}
use neotolis_ai_workbench.Cli.Traces.{
  Fs, Reached, Unreached, Allowlist, Drift, Room, Passed, passed, Stopped, no_client, linked_root,
  bad_fs, unreachable, drifted, full,
}
use neotolis_ai_workbench.Cli.Commands.{client_for, new_client, make, set_client, client_unless}
use neotolis_ai_workbench.Cli.Checks.{
  Check, good, bad, Both, both, Either, first, second, Check-seq,
}
use neotolis_ai_workbench.Cli.Checks.Root.{
  Plain, plain, Linked, link, WrongFs, wrong, symlink-Check, windows-Check,
}
use neotolis_ai_workbench.Cli.Checks.Docker.{check_docker_reachable-Check, probes-Check}
use neotolis_ai_workbench.Cli.Checks.Space.{NoRoom, filled, gate-Check}

module _ (O : Outside) (gated : Bool) (max_bytes : ℕ) where
  abbrev Good : Log → Type 0
  Good = Both Plain (Both (Fs O) (Both (Reached 5) (Both Allowlist (Room O max_bytes gated))))

  abbrev Bad : Exit → Log → Type 0
  Bad = Either Plain Linked (
      Either (Fs O) (WrongFs O)
        (Either (Reached 5) (Unreached 5) (Either Allowlist Drift (NoRoom O max_bytes gated))))

  run_all-Check : Spec {O = O} AnyWorld (Check Good Bad) (run_all gated max_bytes)
  unfolding run_all
  run_all-Check = Check-seq _ _ _ _ _ _ symlink-Check (
      Check-seq _ _ _ _ _ _ windows-Check (
        Check-seq _ _ _ _ _ _ (check_docker_reachable-Check 5)
          (Check-seq _ _ _ _ _ _ probes-Check (gate-Check gated max_bytes))))

  made :
      {log : Log} {r : Result (Unit {0})}
      → Check Good Bad log r
      → Check (Passed O gated max_bytes) (Stopped O gated max_bytes) (client_made true ∷ log) r
  made (good (both plain (both f (both l (both p d))))) = good (passed f l p d)
  made (bad (first link)) = bad linked_root
  made (bad (second plain (first (wrong b)))) = bad (bad_fs b)
  made (bad (second plain (second f (first u)))) = bad (unreachable f u)
  made (bad (second plain (second f (second l (first d))))) = bad (drifted f l d)
  made (bad (second plain (second f (second l (second p (filled d)))))) = bad (full f l p d)

  make_client-Check :
      (b : Bool)
      → Spec {O = O} AnyWorld
          (λ more r.
            Check (Passed O gated max_bytes) (Stopped O gated max_bytes) (client_made b ∷ more) r)
          (make b >>= λ _. run_all gated max_bytes >>= λ _. set_client)
  unfolding make set_client
  make_client-Check false = Spec-now _ (err raised) (bad no_client)
  make_client-Check true =
      Spec-seq (Check Good Bad) _ (run_all gated max_bytes) (λ _. set_client) run_all-Check
        (λ new e c. made c) λ new a c. kept new (made c)
    where
      kept :
          (new : Log)
          → Check
              (Passed O gated max_bytes)
              (Stopped O gated max_bytes)
              (client_made true ∷ new)
              (ok tt)
          → Spec {O = O} AnyWorld
              (λ more r.
                Check
                  (Passed O gated max_bytes)
                  (Stopped O gated max_bytes)
                  (client_made true ∷ (new ++ more))
                  r)
              set_client
      kept new c = record { at = λ w i. ([], sym (append-nil w.log), rw (append-nil new) c) }

-- A context that has no client yet.
abbrev pub NoClient : (O : Outside) → World O → Type 0
NoClient O w = w.client ≡ false

module _ (O : Outside) (cfg : Config) (gated : Bool) where
  new_client-Check :
      Spec {O = O} AnyWorld
        (Check (Passed O gated cfg.max_data_size) (Stopped O gated cfg.max_data_size))
        (new_client cfg gated)
  unfolding new_client
  new_client-Check =
      Spec-ask-then (Check (Passed O gated cfg.max_data_size) (Stopped O gated cfg.max_data_size))
        O.make_client client_made _ λ b. make_client-Check O gated cfg.max_data_size b

  unless-Check :
      (b : Bool) (w : World O)
      → b ≡ false
      → (new : Log) × ((client_unless b cfg gated w).1.log ≡ w.log ++ new)
        × Check
            (Passed O gated cfg.max_data_size)
            (Stopped O gated cfg.max_data_size)
            new
            (client_unless b cfg gated w).0
  unfolding client_unless
  unless-Check true w h = cc h
  unless-Check false w h = new_client-Check.at w tt

  -- In a context with no client.
  pub client_for-Check :
      Spec {O = O}
        (NoClient O)
        (Check (Passed O gated cfg.max_data_size) (Stopped O gated cfg.max_data_size))
        (client_for cfg gated)
  unfolding client_for
  client_for-Check = record { at = λ w i. unless-Check w.client w i }
