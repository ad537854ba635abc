-- ===== src/Volumes.antt =====
-- `_build_volumes` and `_build_labels` of src/naiw_tasks/naiw_tasks/lifecycle.py: what a task
-- container is given. A secret's name is the last component of its path, as it was given.
pub mod Mounts
mod Tests
use neotolis_ai_workbench.Base.{
  ◌≡◌, String, ◌<>◌, Bool, true, false, ◌&&◌, Option, none, some, List, [], ◌∷◌, ◌++◌, str_eq,
  if◌then◌else◌,
}
use neotolis_ai_workbench.Paths.{
  FilePath, Validated, resolved, missing, escapes, validate_bind_source,
}
use neotolis_ai_workbench.Effects.{Bind, Exn, value_error, bind_mount_escape, Result, ok, err}

pub and_then : {A B : Type 0} → Result A → (A → Result B) → Result B
and_then (ok a) f = f a
and_then (err e) f = err e

-- `Path.relative_to`, with `none` for its ValueError.
unfoldable pub relative_to : FilePath → FilePath → Option FilePath
relative_to path [] = some path
relative_to [] (q ∷ prefix) = none
relative_to (p ∷ path) (q ∷ prefix) =
    let rest = relative_to path prefix in if str_eq p q then rest else none

unfoldable pub same_path : FilePath → FilePath → Bool
same_path [] [] = true
same_path (p ∷ ps) (q ∷ qs) = str_eq p q && same_path ps qs
same_path _ _ = false

-- `volumes[source] = …`.
pub put : Bind → List Bind → List Bind
unfolding same_path
put b [] = b ∷ []
put b (c ∷ cs) = let rest = put b cs in if same_path c.source b.source then b ∷ cs else c ∷ rest

pub source_of : Validated → Result FilePath
source_of (resolved path) = ok path
source_of missing =
    err (bind_mount_escape "bind mount source does not exist or has missing link target")
source_of escapes = err (bind_mount_escape "bind mount source escapes prefix")

pub below : FilePath → Option FilePath → Result FilePath
below host_root (some rest) = ok (host_root ++ rest)
below host_root none = err (value_error "path is not in the subpath")

module _ (resolve : FilePath → Option FilePath) (data_root host_root : FilePath) where
  -- `_to_host`, with the entry that its result is the key of.
  pub mount : FilePath → String → Bool → List Bind → Result (List Bind)
  unfolding and_then below relative_to put
  mount path target read_only volumes =
      and_then (below host_root (relative_to path data_root)) λ source.
        ok (put (record { source = source; target = target; read_only = read_only }) volumes)

  pub validated : FilePath → FilePath → Result FilePath
  unfolding source_of
  validated source prefix = source_of (validate_bind_source resolve source data_root prefix)

  -- The loop over the secrets.
  pub mount_secrets : List String → List Bind → Result (List Bind)
  unfolding mount validated
  mount_secrets [] volumes = ok volumes
  mount_secrets (name ∷ secrets) volumes =
      let secrets_dir = data_root ++ "secrets" ∷ [] in
      and_then (validated (secrets_dir ++ name ∷ []) secrets_dir) λ secret_src.
        and_then (mount secret_src ("/run/secrets/" <> name) true volumes) (mount_secrets secrets)

  unfoldable pub build_volumes : FilePath → List String → Result (List Bind)
  unfolding mount_secrets
  build_volumes task_dir secrets =
      and_then (validated (task_dir ++ "work" ∷ []) data_root) λ work_src.
        and_then (validated (task_dir ++ "io" ∷ []) data_root) λ io_src.
          and_then (validated (task_dir ++ "storage" ∷ []) data_root) λ storage_src.
            and_then (validated (data_root ++ "pi-packages" ∷ []) data_root) λ pi_pkgs_src.
              and_then (mount work_src "/work" false []) λ v.
                and_then (mount io_src "/io" false v) λ v.
                  and_then (mount storage_src "/home/pi" false v)
                    λ v. and_then (mount pi_pkgs_src "/pi-packages" true v) (mount_secrets secrets)

unfoldable pub build_labels : String → Option String → List (String × String)
build_labels task_id none =
    ("naiw.managed", "1") ∷ ("naiw.task-id", task_id) ∷ ("naiw.role", "task-container") ∷ []
build_labels task_id (some project) =
    ("naiw.managed", "1")
    ∷ ("naiw.task-id", task_id)
    ∷ ("naiw.role", "task-container")
    ∷ ("naiw.project", project)
    ∷ []
