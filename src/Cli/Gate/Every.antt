-- ===== src/Cli/Gate/Every.antt =====
-- The commands but `clean` end as `Gated` says.
use Prim.Native.String.{String}
use neotolis_ai_workbench.Base.{
  [], ◌≡◌, refl, ℕ, Bool, true, false, Option, some, List, inl, inr, Option-cases,
}
use neotolis_ai_workbench.Ids.{validate_task_id}
use neotolis_ai_workbench.Base.Integers.{ℤ}
use neotolis_ai_workbench.Numbers.{Digits}
use neotolis_ai_workbench.Config.{Config}
use neotolis_ai_workbench.Cli.{
  Outside, M, Log, Exit, startup_check_failed, docker_check_failed, usage_error, start_failed,
  recover_failed, recover_not_interrupted, system_exit, raised, Result, ok, err, Act, output_run,
  disk_run, ◌>>=◌, ◌>>◌, pure, continue,
}
use neotolis_ai_workbench.Cli.Rules.{Spec, Spec-now, Spec-weaken, Spec-any}
use neotolis_ai_workbench.Cli.Traces.{Passed, Stopped}
use neotolis_ai_workbench.Cli.Checks.{Check, good, bad}
use neotolis_ai_workbench.Cli.Checks.Client.{NoClient, client_for-Check}
use neotolis_ai_workbench.Cli.Commands.{
  Command, start, attach, doctor, disk, list, reap, output, finish, recover, alias_ok, all_secrets,
  perform, except, client_for, checked, start_ended, recover_ended, exits, list_from, run_command,
  start_command, attach_command, doctor_command, disk_command, list_command, reap_command,
  output_command, finish_command, recover_command, done,
}
use neotolis_ai_workbench.Cli.Gate.{
  names_valid, ended, Acts, starts, attaches, lists, reaps, outputs, finishes, recovers, disks,
  both_policies, no_status, gate_of, tolerates, Gated, unusable, invalid, stopped, healthy,
}
use neotolis_ai_workbench.Cli.Gate.Runs.{with_client, alone, ends_as}
use neotolis_ai_workbench.Cli.Options.{parse_statuses}
use neotolis_ai_workbench.Cli.Gate.Halts.{Stopped-Stop, ended-Stop}

module _ {O : Outside} (D : Digits) (cfg : Config) where
  abbrev pub Ends : Command → M O Unit → Type 0
  Ends command m = Spec (NoClient O) (Gated O D cfg command) m

  -- A failed check ends the command, unless it goes on after the exception.
  Stopped-Gated :
      (command : Command) (gated : Bool)
      → names_valid command ≡ true
      → gate_of command ≡ some gated
      → ((e : Exit) → tolerates command e ≡ false)
      → (e : Exit) (log : Log) → Stopped O gated cfg.max_data_size e log
      → Gated O D cfg command log (ended command (err e))
  Stopped-Gated command gated v g t e log s =
      rw (ended-Stop command e (Stopped-Stop s)) (stopped v g (t e) s)

  -- A validation before the rest.
  checked-Ends :
      (command : Command) (b : Bool) (m : M O Unit)
      → (b ≡ false → names_valid command ≡ false)
      → (b ≡ true → Ends command m)
      → Ends command (checked b m)
  unfolding checked
  checked-Ends command true m f k = k refl
  checked-Ends command false m f k = Spec-now _ (err (system_exit 3)) (invalid (f refl))

  start_ended_as :
      (p b : Option String) (f : String) (s : List String) (a : Bool) (r : Result ℕ)
      → start_ended {O = O} r ≡ (λ w. (ended (start p b f s a) r, w))
  unfolding start_ended ended done
  start_ended_as p b f s a (ok n) = refl
  start_ended_as p b f s a (err startup_check_failed) = refl
  start_ended_as p b f s a (err docker_check_failed) = refl
  start_ended_as p b f s a (err usage_error) = refl
  start_ended_as p b f s a (err start_failed) = refl
  start_ended_as p b f s a (err recover_failed) = refl
  start_ended_as p b f s a (err recover_not_interrupted) = refl
  start_ended_as p b f s a (err (system_exit n)) = refl
  start_ended_as p b f s a (err raised) = refl

  recover_ended_as :
      (t : String) (r : Result ℕ) → recover_ended {O = O} r ≡ (λ w. (ended (recover t) r, w))
  unfolding recover_ended ended done
  recover_ended_as t (ok n) = refl
  recover_ended_as t (err startup_check_failed) = refl
  recover_ended_as t (err docker_check_failed) = refl
  recover_ended_as t (err usage_error) = refl
  recover_ended_as t (err start_failed) = refl
  recover_ended_as t (err recover_failed) = refl
  recover_ended_as t (err recover_not_interrupted) = refl
  recover_ended_as t (err (system_exit n)) = refl
  recover_ended_as t (err raised) = refl

  pub start-Ends :
      (p b : Option String) (f : String) (s : List String) (a : Bool)
      → Ends (start p b f s a) (run_command D cfg (start p b f s a))
  unfolding run_command start_command except names_valid gate_of tolerates
  start-Ends p b f s a =
      checked-Ends (start p b f s a) (alias_ok p) _ (λ h. rw h refl)
        λ h.
          checked-Ends (start p b f s a) (all_secrets s) _ (λ k. rw (h, k) refl)
            λ k.
              ends_as cfg D (start p b f s a) (Passed O true cfg.max_data_size)
                (Stopped O true cfg.max_data_size) _ _ start_ended (with_client cfg true _)
                (rw (h, k) refl) (λ log q. starts q)
                (Stopped-Gated (start p b f s a) true (rw (h, k) refl) refl λ e. refl)
                (start_ended_as p b f s a)

  pub recover-Ends : (t : String) → Ends (recover t) (run_command D cfg (recover t))
  unfolding run_command recover_command except names_valid gate_of tolerates
  recover-Ends t =
      checked-Ends (recover t) (validate_task_id t) _ (λ h. h)
        λ h.
          ends_as cfg D (recover t) (Passed O true cfg.max_data_size)
            (Stopped O true cfg.max_data_size) _ _ recover_ended (with_client cfg true _) h
            (λ log q. recovers q) (Stopped-Gated (recover t) true h refl λ e. refl)
            (recover_ended_as t)

  returned :
      (command : Command)
      → ((n : ℕ) → ended command (ok n) ≡ ok tt)
      → ((e : Exit) → ended command (err e) ≡ err e)
      → (r : Result ℕ) → continue {O = O} r (λ _. pure tt) ≡ (λ w. (ended command r, w))
  returned command plain_ok plain_err (ok n) = rw (plain_ok n) refl
  returned command plain_ok plain_err (err e) = rw (plain_err e) refl

  pub exited : (r : Result ℕ) → continue {O = O} r exits ≡ (λ w. (ended disk r, w))
  unfolding exits ended
  exited (ok n) = refl
  exited (err e) = refl

  -- A command that returns after its component.
  returns :
      (command : Command) (gated : Bool) (a : Act)
      → names_valid command ≡ true
      → gate_of command ≡ some gated
      → ((e : Exit) → tolerates command e ≡ false)
      → ((log : Log) → Passed O gated cfg.max_data_size log → Acts O D cfg command log a)
      → ((n : ℕ) → ended command (ok n) ≡ ok tt)
      → ((e : Exit) → ended command (err e) ≡ err e)
      → Ends command (client_for cfg gated >> perform a >> pure tt)
  returns command gated a v g t f plain_ok plain_err =
      ends_as cfg D command (Passed O gated cfg.max_data_size) (Stopped O gated cfg.max_data_size) a
        (client_for cfg gated >>= λ _. perform a) (λ r. continue r λ _. pure tt)
        (with_client cfg gated a) v f (Stopped-Gated command gated v g t)
        (returned command plain_ok plain_err)

  pub attach-Ends : (t : String) → Ends (attach t) (run_command D cfg (attach t))
  unfolding run_command attach_command names_valid ended gate_of tolerates
  attach-Ends t =
      checked-Ends (attach t) (validate_task_id t) _ (λ h. h)
        λ h.
          returns (attach t) false _ h refl (λ e. refl) (λ log q. attaches q) (λ n. refl)
            (λ e. refl)

  pub finish-Ends :
      (t : String) (k d f : Bool) → Ends (finish t k d f) (run_command D cfg (finish t k d f))
  unfolding run_command finish_command names_valid ended gate_of tolerates
  finish-Ends t true true f = Spec-now _ (err usage_error) (unusable both_policies)
  finish-Ends t true false f =
      checked-Ends (finish t true false f) (validate_task_id t) _ (λ h. h)
        λ h.
          returns (finish t true false f) false _ h refl (λ e. refl) (λ log q. finishes refl q)
            (λ n. refl) (λ e. refl)
  finish-Ends t false d f =
      checked-Ends (finish t false d f) (validate_task_id t) _ (λ h. h)
        λ h.
          returns (finish t false d f) false _ h refl (λ e. refl) (λ log q. finishes refl q)
            (λ n. refl) (λ e. refl)

  pub reap-Ends : (j d : Bool) → Ends (reap j d) (run_command D cfg (reap j d))
  unfolding run_command reap_command list_from names_valid ended gate_of tolerates
  reap-Ends j d =
      returns (reap j d) false _ refl refl (λ e. refl) (λ log q. reaps q) (λ n. refl) (λ e. refl)

  pub list-Ends :
      (l : ℕ) (x : Bool) (v : List String) (p : Option String) (a j : Bool)
      → Ends (list l x v p a j) (run_command D cfg (list l x v p a j))
  unfolding run_command list_command list_from names_valid ended gate_of tolerates
  list-Ends l x v p a j = elim (Option-cases (parse_statuses O.strip v)) [
    | inl e ↦ rw e (Spec-now _ (err usage_error) (unusable (no_status e)))
    | inr (statuses, e) ↦ rw e (
        returns (list l x v p a j) false _ refl refl (λ e. refl) (λ log q. lists e q) (λ n. refl)
          (λ e. refl))
  ]

  pub output-Ends : (t : String) (n : ℤ) → Ends (output t n) (run_command D cfg (output t n))
  unfolding run_command output_command names_valid ended gate_of tolerates
  output-Ends t n =
      checked-Ends (output t n) (validate_task_id t) _ (λ h. h)
        λ h.
          ends_as cfg D (output t n) (λ log. log ≡ []) (λ e log. ⊥) _ (perform (output_run t n))
            (λ r. continue r λ _. pure tt) (Spec-any _ _ (alone cfg _)) h (λ log q. rw q outputs)
            (λ e log s. absurd s) (returned (output t n) (λ m. refl) (λ e. refl))

  pub disk-Ends : Ends disk (run_command D cfg disk)
  unfolding run_command disk_command exits names_valid ended gate_of tolerates
  disk-Ends =
      ends_as cfg D disk (λ log. log ≡ []) (λ e log. ⊥) _ (perform disk_run) (λ r. continue r exits)
        (Spec-any _ _ (alone cfg _)) refl (λ log q. rw q disks) (λ e log s. absurd s) exited

  healthy-Gated :
      {log : Log} {r : Result (Unit {0})}
      → Check (Passed O false cfg.max_data_size) (Stopped O false cfg.max_data_size) log r
      → Gated O D cfg doctor log r
  unfolding names_valid gate_of tolerates
  healthy-Gated (good q) = healthy refl q
  healthy-Gated (bad b) = stopped refl refl refl b

  pub doctor-Ends : Ends doctor (run_command D cfg doctor)
  unfolding run_command doctor_command
  doctor-Ends =
      Spec-weaken _ (Gated O D cfg doctor) (client_for cfg false) (λ new r c. healthy-Gated c)
        (client_for-Check O cfg false)
