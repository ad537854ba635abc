-- ===== src/Cli/Gate/Halts.antt =====
-- A check that fails ends a command with the check's own exception.
use neotolis_ai_workbench.Base.{◌≡◌, refl, ℕ, Bool}
use neotolis_ai_workbench.Cli.{
  Outside, Log, Exit, startup_check_failed, docker_check_failed, raised, err, Reply,
}
use neotolis_ai_workbench.Cli.Traces.{
  Wrong, through, no_proxy, no_reply, other_status, Unreached, Drift, at_exec, at_start, at_stop,
  Stopped, no_client, linked_root, bad_fs, unreachable, drifted, full,
}
use neotolis_ai_workbench.Cli.Commands.{
  Command, start, attach, doctor, disk, list, reap, output, finish, recover, clean,
}
use neotolis_ai_workbench.Cli.Gate.{ended}

-- How a check can end a command.
pub data Stop : Exit → Type 0 where
  no_startup : Stop startup_check_failed
  no_docker : Stop docker_check_failed
  exception : Stop raised

Wrong-Stop : {n : ℕ} {e : Exit} {reply : Reply} → Wrong n e reply → Stop e
Wrong-Stop through = no_docker
Wrong-Stop no_proxy = no_docker
Wrong-Stop no_reply = exception
Wrong-Stop (other_status h) = no_docker

Unreached-Stop : {n : ℕ} {e : Exit} {log : Log} → Unreached n e log → Stop e
Unreached-Stop Unreached.no_attempt = no_docker
Unreached-Stop Unreached.last_attempt = no_docker
Unreached-Stop Unreached.other_exception = exception
Unreached-Stop (Unreached.again u) = Unreached-Stop u

Drift-Stop : {e : Exit} {log : Log} → Drift e log → Stop e
Drift-Stop (at_exec id w) = Wrong-Stop w
Drift-Stop (at_start id w) = Wrong-Stop w
Drift-Stop (at_stop id w) = Wrong-Stop w

pub Stopped-Stop :
    {O : Outside} {gated : Bool} {max_bytes : ℕ} {e : Exit} {log : Log}
    → Stopped O gated max_bytes e log
    → Stop e
Stopped-Stop no_client = exception
Stopped-Stop linked_root = no_startup
Stopped-Stop (bad_fs b) = no_startup
Stopped-Stop (unreachable f u) = Unreached-Stop u
Stopped-Stop (drifted f l d) = Drift-Stop d
Stopped-Stop (full f l p d) = no_startup

pub ended-Stop : (command : Command) → (e : Exit) → Stop e → ended command (err e) ≡ err e
unfolding ended
ended-Stop (start p b f s a) e no_startup = refl
ended-Stop (start p b f s a) e no_docker = refl
ended-Stop (start p b f s a) e exception = refl
ended-Stop (recover task_id) e no_startup = refl
ended-Stop (recover task_id) e no_docker = refl
ended-Stop (recover task_id) e exception = refl
ended-Stop (attach task_id) e s = refl
ended-Stop doctor e s = refl
ended-Stop disk e s = refl
ended-Stop (list l x v p a j) e s = refl
ended-Stop (reap j d) e s = refl
ended-Stop (output t n) e s = refl
ended-Stop (finish t k d f) e s = refl
ended-Stop (clean t d s') e s = refl
