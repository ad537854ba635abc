-- ===== src/Volumes/Tests.antt =====
-- A run of `_build_volumes` with one secret, where no path is a link.
use neotolis_ai_workbench.Base.{
  ◌≡◌, refl, String, Bool, true, false, Option, some, List, [], ◌∷◌, ◌++◌, All,
}
use neotolis_ai_workbench.Paths.{FilePath, validate_bind_source, is_relative_to}
use neotolis_ai_workbench.Effects.{Bind, ok}
use neotolis_ai_workbench.Volumes.{build_volumes, relative_to, same_path, put, mount_secrets}
use neotolis_ai_workbench.Volumes.Mounts.{Safe, build_volumes-Safe}

abbrev plain : FilePath → Option FilePath
plain p = some p

abbrev data_root : FilePath
data_root = "naiw-data" ∷ []

abbrev host_root : FilePath
host_root = "home" ∷ "naiw-data" ∷ []

abbrev task_dir : FilePath
task_dir = "naiw-data" ∷ "tasks" ∷ "demo-001" ∷ []

abbrev bound : FilePath → String → Bool → Bind
bound source target read_only = record {
  source = host_root ++ source;
  target = target;
  read_only = read_only;
}

abbrev volumes : List Bind
volumes =
    bound ("tasks" ∷ "demo-001" ∷ "work" ∷ []) "/work" false
    ∷ bound ("tasks" ∷ "demo-001" ∷ "io" ∷ []) "/io" false
    ∷ bound ("tasks" ∷ "demo-001" ∷ "storage" ∷ []) "/home/pi" false
    ∷ bound ("pi-packages" ∷ []) "/pi-packages" true
    ∷ bound ("secrets" ∷ "token" ∷ []) "/run/secrets/token" true
    ∷ []

built : build_volumes plain data_root host_root task_dir ("token" ∷ []) ≡ ok volumes
unfolding build_volumes mount_secrets validate_bind_source is_relative_to relative_to same_path put
built = refl

build_volumes-Safe_example : All (Safe plain data_root host_root task_dir ("token" ∷ [])) volumes
build_volumes-Safe_example =
    build_volumes-Safe plain data_root host_root task_dir ("token" ∷ []) built
