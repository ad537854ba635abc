-- ===== src/Tests/Containers.antt =====
-- Runs of the parts that call Docker, git and the file system.
use neotolis_ai_workbench.Base.{
  ◌≡◌, refl, String, Bool, true, false, Option, none, some, [], ◌∷◌, ◌++◌, inl, inr, ◌⊎◌,
}
use neotolis_ai_workbench.Model.{ask, TaskDict, completed, empty_dict}
use neotolis_ai_workbench.Paths.{
  FilePath, resolved, validate_bind_source, validate_bind_source_sound,
}
use neotolis_ai_workbench.Tail.{missing, refused}
use neotolis_ai_workbench.Effects.{Host, Container, DockerError, not_found, ok}
use neotolis_ai_workbench.Effects.Rules.{Spec}
use neotolis_ai_workbench.Lifecycle.Teardown.{teardown_and_mark}
use neotolis_ai_workbench.Lifecycle.Teardown.Outcome.{Outcome, teardown_and_mark-Outcome}
use neotolis_ai_workbench.Lifecycle.Finish.{finish_task}
use neotolis_ai_workbench.Lifecycle.Finish.Ending.{Finished, finish_task-Finished}
use neotolis_ai_workbench.Lifecycle.Start.{start}
use neotolis_ai_workbench.Lifecycle.Start.Entries.{Request}
use neotolis_ai_workbench.Lifecycle.Start.Ending.{Started, start-Started}
use neotolis_ai_workbench.Lifecycle.Recover.{Settings, recover}
use neotolis_ai_workbench.Lifecycle.Recover.Ending.{Recovered, recover-Recovered}

-- No path is a link.
abbrev plain : FilePath → Option FilePath
plain p = some p

abbrev pub data_root : FilePath
data_root = "home" ∷ "naiw-data" ∷ []

accepted :
    validate_bind_source plain (data_root ++ "io" ∷ []) data_root data_root
    ≡ resolved (data_root ++ "io" ∷ [])
unfolding validate_bind_source
accepted = refl

validate_bind_source_sound_example :
    (pfx : FilePath) × (plain (data_root ++ "io" ∷ []) ≡ some (data_root ++ "io" ∷ []))
    × (plain data_root ≡ some pfx)
    × ((rest : FilePath) × (data_root ++ "io" ∷ [] ≡ pfx ++ rest))
validate_bind_source_sound_example =
    validate_bind_source_sound plain (data_root ++ "io" ∷ []) data_root data_root accepted

abbrev found : String → Bool → Container ⊎ DockerError
found name true =
    inl (record { id = name; status = some "running"; exit_code = none; image = none })
found name false = inr (not_found "no such container")

-- A host where the state tells whether the container is there.
abbrev pub host : Host
host = record {
  State = Bool;
  interleave = λ t s. (t, s);
  now = λ s. ("2026-01-02T03:04:05Z", s);
  get = λ name there. (found name there, there);
  run = λ a s. (
    inl (record { id = a.name; status = some "running"; exit_code = none; image = some a.image }),
    true,
  );
  reload = λ c s. (inl c, s);
  stop = λ c s. (none, s);
  remove = λ c s. (none, false);
  resolve = λ s p. some p;
  exists = λ s p. true;
  is_dir = λ s p. true;
  git = λ repo args s. (record { returncode = 0; stdout = ""; stderr = "" }, s);
  projects = λ s. ok [];
  capture = λ d s. s;
  banner = λ n state s. s;
  widen_log = λ s. s;
  make_storage = λ s. s;
  first_line = λ s. none;
  strip = λ s. s;
  str_of = λ e. "error";
  real_path = λ s p. p;
  journal = λ s. (missing, refused "");
  log_size = λ s. none;
  append_errors = λ m s. s;
  make_writable = λ p s. s;
  isatty = λ s. false;
  confirm = λ s. (true, s);
}

teardown_and_mark-Outcome_example :
    Spec
      (Outcome completed none)
      (teardown_and_mark {H = host} "demo-001" completed none false none)
teardown_and_mark-Outcome_example = teardown_and_mark-Outcome completed none "demo-001" none false

abbrev done_dict : TaskDict
done_dict = record empty_dict { status = some "completed" }

finish_task-Finished_example :
    Spec (Finished done_dict none false) (finish_task {H = host} "demo-001" none false done_dict)
finish_task-Finished_example = finish_task-Finished "demo-001" none false done_dict

abbrev settings : Settings
settings = record {
  data_root = data_root;
  host_root = data_root;
  task_image = "image";
  docker_proxy_url = "tcp://127.0.0.1:2375";
  docker_api_version = "1.43";
}

recover-Recovered_example : Spec Recovered (recover {H = host} settings "demo-001")
recover-Recovered_example = recover-Recovered settings "demo-001"

abbrev request : Request
request = record {
  alias = none;
  base_ref = none;
  finish_policy = ask;
  secrets = [];
  auto_finish = false;
}

start-Started_example : Spec Started (start {H = host} settings "task-001" request)
start-Started_example = start-Started settings "task-001" request
