-- ===== src/Projects.antt =====
-- src/naiw_tasks/naiw_tasks/projects.py: projects.yaml names the repositories that a task may work on.
-- What `yaml.safe_load` returns is a parameter; its keys are texts here.
pub mod Below
mod Tests
use Prim.Native.String.{String}
use text.Mathlib.Text.{starts_with}
use neotolis_ai_workbench.Base.{
  ℕ, zero, suc, Bool, true, false, ◌&&◌, Option, none, some, List, [], ◌∷◌, ◌++◌, str_eq,
  if◌then◌else◌, text_after,
}
use neotolis_ai_workbench.Json.{Json, str, obj, Fields, end, field, get}
use neotolis_ai_workbench.Config.{Yaml, unparsable, empty, other_value, mapping}
use neotolis_ai_workbench.Paths.{
  FilePath, Validated, resolved, missing, escapes, validate_bind_source,
}
use neotolis_ai_workbench.Volumes.{relative_to}

-- `pathlib`, with the environment: the path of a text, `path / text` (the text may be absolute),
-- `Path.resolve(strict=True)` and `str(path)`.
pub record Outside : Type 0 where
  pub path_of : String → FilePath
  pub join : FilePath → String → FilePath
  pub resolve : FilePath → Option FilePath
  pub path_str : FilePath → String
  pub naiw_data_host : Option String

-- The result of `load`, with its exceptions; those of an entry have its alias.
pub data Loading : Type 0 where
  loaded : List (String × String) → Loading
  file_not_found cannot_parse no_projects not_a_mapping : Loading
  bad_spec unknown_keys no_path bad_path source_missing source_escapes : String → Loading

-- `out[alias] = {"path": path}`.
pub put : String → String → List (String × String) → List (String × String)
put alias path [] = (alias, path) ∷ []
put alias path (entry ∷ out) =
    let rest = put alias path out in
    if str_eq entry.0 alias then (alias, path) ∷ out else entry ∷ rest

-- Is `path` the only key?
pub allowed_keys : Fields → Bool
allowed_keys end = true
allowed_keys (field k v spec) = str_eq k "path" && allowed_keys spec

module _ (O : Outside) (data_root : FilePath) where
  -- Of a path under NAIW_DATA_HOST: below the data root. Any other path is passed through.
  pub translated : FilePath → Option FilePath → FilePath
  translated path none = path
  translated path (some rel) = data_root ++ rel

  pub from_host : String → Option String → FilePath
  unfolding translated relative_to
  from_host raw_path none = O.path_of raw_path
  from_host raw_path (some host_root) =
      if str_eq host_root ""
      then O.path_of raw_path
      else translated (O.path_of raw_path) (relative_to (O.path_of raw_path) (O.path_of host_root))

  unfoldable pub resolve_project_path : String → FilePath
  unfolding from_host text_after
  resolve_project_path raw_path =
      if str_eq raw_path "~/naiw-data"
      then data_root
      else if starts_with raw_path "~/naiw-data/"
      then O.join data_root (text_after 12 raw_path)
      else from_host raw_path O.naiw_data_host

  abbrev pub repos : FilePath
  repos = data_root ++ "workspace" ∷ "repos" ∷ []

  -- `load` goes on with `next` after an entry that passes.
  pub validated : String → Validated → (String → Loading) → Loading
  validated alias (resolved path) next = next (O.path_str path)
  validated alias missing next = source_missing alias
  validated alias escapes next = source_escapes alias

  pub with_path : String → Option Json → (String → Loading) → Loading
  unfolding validated resolve_project_path
  with_path alias none next = no_path alias
  with_path alias (some (str raw_path)) next =
      if str_eq raw_path ""
      then bad_path alias
      else validated alias
          (validate_bind_source O.resolve (resolve_project_path raw_path) data_root repos) next
  with_path alias (some v) next = bad_path alias

  pub with_spec : String → Json → (String → Loading) → Loading
  unfolding with_path allowed_keys
  with_spec alias (obj spec) next =
      if allowed_keys spec then with_path alias (get "path" spec) next else unknown_keys alias
  with_spec alias v next = bad_spec alias

  -- The loop over the entries.
  pub load_all : Fields → List (String × String) → Loading
  unfolding with_spec put
  load_all end out = loaded out
  load_all (field alias spec projects) out =
      with_spec alias spec λ path. load_all projects (put alias path out)

  pub with_projects : Option Json → Loading
  unfolding load_all
  with_projects none = no_projects
  with_projects (some (obj projects)) = load_all projects []
  with_projects (some v) = not_a_mapping

  -- `none`: there is no projects.yaml.
  unfoldable pub load : Option Yaml → Loading
  unfolding with_projects
  load none = file_not_found
  load (some unparsable) = cannot_parse
  load (some empty) = no_projects
  load (some other_value) = no_projects
  load (some (mapping raw)) = with_projects (get "projects" raw)
