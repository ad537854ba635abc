-- ===== src/Projects/Tests.antt =====
-- Runs of `load` of projects.yaml.
use Prim.Native.String.{String}
use neotolis_ai_workbench.Base.{
  ◌≡◌, refl, some, [], ◌∷◌, ◌++◌, All, str_eq, if◌then◌else◌, text_after,
}
use neotolis_ai_workbench.Json.{str, obj, int, Fields, end, field, get}
use neotolis_ai_workbench.Config.{mapping}
use neotolis_ai_workbench.Paths.{FilePath, validate_bind_source, is_relative_to}
use neotolis_ai_workbench.Projects.{
  Outside, loaded, source_escapes, unknown_keys, load, load_all, resolve_project_path, put,
  allowed_keys, with_spec, with_path, from_host,
}
use neotolis_ai_workbench.Volumes.{relative_to}
use neotolis_ai_workbench.Projects.Below.{Below, load-Below}

-- Paths of at most one component in place of `pathlib`; no path is a link.
abbrev outside : Outside
outside = record {
  path_of = λ s.
      if str_eq s "/srv/data/workspace/repos/b"
      then "srv" ∷ "data" ∷ "workspace" ∷ "repos" ∷ "b" ∷ []
      else if str_eq s "/srv/data"
      then "srv" ∷ "data" ∷ []
      else s ∷ [];
  join = λ path s.
      if str_eq s "workspace/repos/a"
      then path ++ "workspace" ∷ "repos" ∷ "a" ∷ []
      else path ++ s ∷ [];
  resolve = λ path. some path;
  path_str = λ path. elim path [ [] ↦ "" | d ∷ p ↦ d ];
  naiw_data_host = some "/srv/data";
}

abbrev data_root : FilePath
data_root = "naiw-data" ∷ []

abbrev at_path : String → Fields
at_path s = field "path" (str s) end

abbrev projects : Fields
projects =
    field "a" (obj (at_path "~/naiw-data/workspace/repos/a"))
      (field "b" (obj (at_path "/srv/data/workspace/repos/b")) end)

loads :
    load outside data_root (some (mapping (field "projects" (obj projects) end)))
    ≡ loaded (("a", "naiw-data") ∷ ("b", "naiw-data") ∷ [])
unfolding load load_all resolve_project_path text_after put allowed_keys with_spec with_path
    from_host validate_bind_source is_relative_to relative_to get
loads = refl

-- A path next to the repositories is refused, and a key that is no path.
escapes :
    load outside data_root (
      some (
        mapping (field "projects" (obj (field "a" (obj (at_path "~/naiw-data/secrets")) end)) end)))
    ≡ source_escapes "a"
unfolding load load_all resolve_project_path text_after put allowed_keys with_spec with_path
    from_host validate_bind_source is_relative_to relative_to get
escapes = refl

unknown :
    load outside data_root
      (some (mapping (field "projects" (obj (field "a" (obj (field "url" (int 3) end)) end)) end)))
    ≡ unknown_keys "a"
unfolding load load_all put allowed_keys with_spec get
unknown = refl

load-Below_example :
    (raw : Fields) × (some (mapping (field "projects" (obj projects) end)) ≡ some (mapping raw))
    × ((ps : Fields) × (get "projects" raw ≡ some (obj ps))
        × All (Below outside data_root ps) (("a", "naiw-data") ∷ ("b", "naiw-data") ∷ []))
load-Below_example =
    load-Below outside data_root (some (mapping (field "projects" (obj projects) end))) loads
