-- ===== src/Projects/Below.antt =====
-- Every project that is loaded lies below workspace/repos/.
use mathlib.Core.Path.{subst}
use Prim.Native.String.{String}
use neotolis_ai_workbench.Base.{
  ◌≡◌, refl, true, false, Option, none, some, List, [], ◌∷◌, ◌++◌, All, inl, inr, Bool-cases,
  str_eq,
}
use neotolis_ai_workbench.Json.{
  Json, null, bool, int, other, arr, str, obj, Fields, end, field, get,
}
use neotolis_ai_workbench.Config.{Yaml, unparsable, empty, other_value, mapping}
use neotolis_ai_workbench.Paths.{
  FilePath, Validated, resolved, missing, escapes, validate_bind_source, validate_bind_source_sound,
}
use neotolis_ai_workbench.Projects.{
  Outside, Loading, loaded, put, allowed_keys, resolve_project_path, repos, validated, with_path,
  with_spec, load_all, with_projects, load,
}

-- A mapping has the value at the key.
pub data Has : Fields → String → Json → Type 0 where
  here : {k : String} {v : Json} {rest : Fields} → Has (field k v rest) k v
  there : {j k : String} {u v : Json} {rest : Fields} → Has rest k v → Has (field j u rest) k v

module _ (O : Outside) (data_root : FilePath) where
  -- An entry of the result: projects.yaml has its alias, with a path that is not empty and resolves
  -- below the resolved workspace/repos/, to the path of the entry.
  pub record Below (projects : Fields) (entry : String × String) : Type 0 where
    pub spec : Fields
    pub raw_path : String
    pub path : FilePath
    pub pfx : FilePath
    pub rest : FilePath
    pub listed : Has projects entry.0 (obj spec)
    pub only : allowed_keys spec ≡ true
    pub given : get "path" spec ≡ some (str raw_path)
    pub filled : str_eq raw_path "" ≡ false
    pub resolves : O.resolve (resolve_project_path O data_root raw_path) ≡ some path
    pub prefix : O.resolve (repos O data_root) ≡ some pfx
    pub below : path ≡ pfx ++ rest
    pub printed : entry.1 ≡ O.path_str path

  put-All :
      (P : String × String → Type 0) (alias path : String) (out : List (String × String))
      → P (alias, path)
      → All P out
      → All P (put alias path out)
  unfolding put
  put-All P alias path [] h hs = (h, tt)
  put-All P alias path (entry ∷ out) h (k, ks) = elim (Bool-cases (str_eq entry.0 alias)) [
    | inl e ↦ rw e (h, ks)
    | inr n ↦ rw n (k, put-All P alias path out h ks)
  ]

  -- Where a step returns, the rest of the loop has been reached with a path.
  validated_sound :
      (alias : String) (v : Validated) (next : String → Loading) {out : List (String × String)}
      → validated O data_root alias v next ≡ loaded out
      → (path : FilePath) × (v ≡ resolved path) × (next (O.path_str path) ≡ loaded out)
  unfolding validated
  validated_sound alias (resolved path) next h = (path, refl, h)
  validated_sound alias missing next h = cc
  validated_sound alias escapes next h = cc

  with_path_sound :
      (alias : String) (v : Option Json) (next : String → Loading) {out : List (String × String)}
      → with_path O data_root alias v next ≡ loaded out
      → (raw : String) × (v ≡ some (str raw))
        × (str_eq raw "" ≡ false)
        × ((path : FilePath) × (validate_bind_source O.resolve
                (resolve_project_path O data_root raw)
                data_root
                (repos O data_root)
              ≡ resolved path)
            × (next (O.path_str path) ≡ loaded out))
  unfolding with_path
  with_path_sound alias none next h = cc
  with_path_sound alias (some (str raw)) next h = elim (Bool-cases (str_eq raw "")) [
    | inl e ↦ cc (rw e at h)
    | inr n ↦ (raw, refl, n, validated_sound alias _ next (rw n at h))
  ]
  with_path_sound alias (some null) next h = cc
  with_path_sound alias (some (bool b)) next h = cc
  with_path_sound alias (some (int n)) next h = cc
  with_path_sound alias (some (other b)) next h = cc
  with_path_sound alias (some (arr vs)) next h = cc
  with_path_sound alias (some (obj fields)) next h = cc

  with_spec_sound :
      (alias : String) (v : Json) (next : String → Loading) {out : List (String × String)}
      → with_spec O data_root alias v next ≡ loaded out
      → (spec : Fields) × (v ≡ obj spec)
        × (allowed_keys spec ≡ true)
        × (with_path O data_root alias (get "path" spec) next ≡ loaded out)
  unfolding with_spec
  with_spec_sound alias (obj spec) next h = elim (Bool-cases (allowed_keys spec)) [
    | inl e ↦ (spec, refl, e, rw e at h)
    | inr n ↦ cc (rw n at h)
  ]
  with_spec_sound alias null next h = cc
  with_spec_sound alias (bool b) next h = cc
  with_spec_sound alias (int n) next h = cc
  with_spec_sound alias (other b) next h = cc
  with_spec_sound alias (str s) next h = cc
  with_spec_sound alias (arr vs) next h = cc

  load_all_sound :
      (whole projects : Fields) (out : List (String × String)) {done : List (String × String)}
      → ((k : String) (v : Json) → Has projects k v → Has whole k v)
      → All (Below whole) out
      → load_all O data_root projects out ≡ loaded done
      → All (Below whole) done
  unfolding load_all
  load_all_sound whole end out sub hs h = subst (All (Below whole)) (cc h) hs
  load_all_sound whole (field alias v projects) out sub hs h =
      let (spec, e, only, k) = with_spec_sound alias v _ h in
      let (raw, given, filled, (path, ok, more)) = with_path_sound alias (get "path" spec) _ k in
      let (pfx, res, pre, (rest, below)) =
        validate_bind_source_sound O.resolve _ data_root (repos O data_root) ok in
      let entry : Below whole (alias, O.path_str path) = record {
        spec = spec;
        raw_path = raw;
        path = path;
        pfx = pfx;
        rest = rest;
        listed = sub alias (obj spec) (rw e here);
        only = only;
        given = given;
        filled = filled;
        resolves = res;
        prefix = pre;
        below = below;
        printed = refl;
      } in
      load_all_sound whole projects _ (λ k v m. sub k v (there m))
        (put-All (Below whole) alias _ out entry hs) more

  with_projects_sound :
      (v : Option Json) {out : List (String × String)}
      → with_projects O data_root v ≡ loaded out
      → (projects : Fields) × (v ≡ some (obj projects)) × All (Below projects) out
  unfolding with_projects
  with_projects_sound (some (obj projects)) h =
      (projects, refl, load_all_sound projects projects [] (λ k v m. m) tt h)
  with_projects_sound none h = cc
  with_projects_sound (some null) h = cc
  with_projects_sound (some (bool b)) h = cc
  with_projects_sound (some (int n)) h = cc
  with_projects_sound (some (other b)) h = cc
  with_projects_sound (some (str s)) h = cc
  with_projects_sound (some (arr vs)) h = cc

  -- If projects.yaml is loaded, it is a mapping with a mapping of projects. Every entry of the result
  -- has an alias that is listed there with a mapping whose only key is a path, a text that is not
  -- empty; the path, as the controller sees it, resolves below the resolved workspace/repos/, and the
  -- entry holds the resolved path.
  pub load-Below :
      (yaml : Option Yaml) {out : List (String × String)}
      → load O data_root yaml ≡ loaded out
      → (raw : Fields) × (yaml ≡ some (mapping raw))
        × ((projects : Fields) × (get "projects" raw ≡ some (obj projects))
            × All (Below projects) out)
  unfolding load
  load-Below (some (mapping raw)) h = (raw, refl, with_projects_sound (get "projects" raw) h)
  load-Below none h = cc
  load-Below (some unparsable) h = cc
  load-Below (some empty) h = cc
  load-Below (some other_value) h = cc
