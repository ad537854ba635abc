-- ===== src/Config.antt =====
-- src/naiw_tasks/naiw_tasks/config.py: the size limit, and the controller's configuration. What
-- `yaml.safe_load` returns is a parameter, and so are the environment and the home directory.
pub mod Valid
use Prim.Native.String
use Prim.Native.String.{String}
use neotolis_ai_workbench.Base.{
  ℕ, ◌+◌, ◌*◌, ◌^◌, Bool, true, false, not, ◌&&◌, ◌||◌, Option, none, some, List, [], ◌∷◌, ◌++◌,
  ◌==◌, get_or, str_eq, one_of, if◌then◌else◌,
}
use neotolis_ai_workbench.Json.{Json, str, Fields, end, field, get, equals_one}
use neotolis_ai_workbench.Paths.{FilePath}
use neotolis_ai_workbench.Numbers.{Digits, number, span}

-- `_IEC_UNIT_BYTES`.
unfoldable pub unit_bytes : String → Option ℕ
unit_bytes unit =
    if str_eq unit "KiB"
    then some 1024
    else if str_eq unit "MiB"
    then some (1024 * 1024)
    else if str_eq unit "GiB"
    then some (1024 * 1024 * 1024)
    else if str_eq unit "TiB"
    then some (1024 * 1024 * 1024 * 1024)
    else none

-- `ok`, or which ValueError.
pub data Size : Type 0 where
  size : ℕ → Size
  not_a_text not_positive decimal_unit fractional malformed : Size

abbrev pub decimal_units : List String
decimal_units = "KB" ∷ "MB" ∷ "GB" ∷ "TB" ∷ []

is_empty : List ℕ → Bool
is_empty [] = true
is_empty (d ∷ ds) = false

is_unit : String → Bool
unfolding unit_bytes
is_unit s = elim (unit_bytes s) [ none ↦ false | some n ↦ true ]

-- `\.\d+(KiB|MiB|GiB|TiB)$`, from the point on.
fraction : Digits → String → Bool
unfolding is_empty is_unit
fraction D String.[] = false
fraction D (String.◌∷◌ c s) =
    str_eq (String.◌∷◌ c "") "." && not (is_empty (span D s).0) && is_unit (span D s).1

-- What the digits at the front, and the unit after them, say.
sized_by : Digits → ℕ → String → Option ℕ → Size
unfolding fraction
sized_by D n rest (some bytes) =
    let result = n * bytes in if result == 0 then not_positive else size result
sized_by D n rest none =
    if one_of rest decimal_units
    then decimal_unit
    else if fraction D rest
    then fractional
    else malformed

-- The three patterns, after the digits at the front. The text is stripped, so `$` is its end.
sized : Digits → List ℕ → String → Size
unfolding sized_by unit_bytes
sized D [] rest = malformed
sized D (d ∷ ds) rest = sized_by D (number 0 (d ∷ ds)) rest (unit_bytes rest)

-- `_parse_max_data_size`, of a text; `strip` is that of Python.
unfoldable pub parse_max_data_size : Digits → (String → String) → String → Size
unfolding sized
parse_max_data_size D strip raw = let value = strip raw in sized D (span D value).0 (span D value).1

-- `_parse_max_data_size`, of a value that is no text too.
parse_size : Digits → (String → String) → Json → Size
unfolding parse_max_data_size
parse_size D strip (str raw) = parse_max_data_size D strip raw
parse_size D strip _ = not_a_text

abbrev pub default_docker_proxy_url : String
default_docker_proxy_url = "tcp://naiw-docker-proxy:2375"

abbrev pub default_task_image : String
default_task_image = "ghcr.io/d954mas/naiw-task-image:latest"

abbrev pub default_max_data_size_bytes : ℕ
default_max_data_size_bytes = 50 * 1024 * 1024 * 1024

abbrev pub allowed_config_keys : List String
allowed_config_keys = "schema_version" ∷ "docker_proxy_url" ∷ "task_image" ∷ "max_data_size" ∷ []

pub record Config : Type 0 where
  pub data_root : FilePath
  pub docker_proxy_url : String
  pub task_image : String
  pub data_root_host : Option FilePath
  pub max_data_size : ℕ

-- `Config.host_root`.
unfoldable pub host_root : Config → FilePath
host_root c = get_or c.data_root_host c.data_root

-- The environment, with `expanduser`.
pub record Env : Type 0 where
  pub naiw_data : Option String
  pub naiw_data_host : Option String
  pub naiw_docker_proxy_url : Option String
  pub home : FilePath
  pub expanduser : String → FilePath

-- A text that is not empty.
given : Option String → Option String
given none = none
given (some s) = if str_eq s "" then none else some s

-- `_resolve_data_root` and `_resolve_data_root_host`.
unfoldable pub resolve_data_root : Env → FilePath
unfolding given
resolve_data_root env = elim (given env.naiw_data) [
  | none ↦ env.home ++ "naiw-data" ∷ []
  | some path ↦ env.expanduser path
]

unfoldable pub resolve_data_root_host : Env → Option FilePath
unfolding given
resolve_data_root_host env = elim (given env.naiw_data_host) [
  | none ↦ none
  | some path ↦ some (env.expanduser path)
]

-- `_resolve_docker_proxy_url`, with the value in config.yaml, which is a text there.
unfoldable pub resolve_docker_proxy_url : Env → Option String → String
unfolding given
resolve_docker_proxy_url env raw =
    get_or (given env.naiw_docker_proxy_url) (get_or raw default_docker_proxy_url)

-- What config.yaml holds: nothing that is true, a mapping, or another value; or it cannot be parsed.
pub data Yaml : Type 0 where
  unparsable empty other_value : Yaml
  mapping : Fields → Yaml

-- The ValueErrors of `load`.
pub data Loading : Type 0 where
  loaded : Config → Loading
  cannot_parse not_a_mapping unknown_key unsupported_version bad_proxy_url bad_task_image : Loading
  bad_size : Size → Loading

known_keys : Fields → Bool
known_keys end = true
known_keys (field k v fields) = one_of k allowed_config_keys && known_keys fields

-- Of a key that may be missing: its text, if the value is one that is not empty.
pub data Text : Type 0 where
  missing bad : Text
  text : String → Text

text_at : Option Json → Text
text_at none = missing
text_at (some (str s)) = if str_eq s "" then bad else text s
text_at (some v) = bad

module _ (D : Digits) (strip : String → String) (env : Env) where
  configured : Option String → String → ℕ → Config
  configured url task_image max_data_size = record {
    data_root = resolve_data_root env;
    docker_proxy_url = resolve_docker_proxy_url env url;
    task_image = task_image;
    data_root_host = resolve_data_root_host env;
    max_data_size = max_data_size;
  }

  with_parsed : Option String → String → Size → Loading
  unfolding configured
  with_parsed url task_image (size n) = loaded (configured url task_image n)
  with_parsed url task_image e = bad_size e

  with_size : Option String → String → Option Json → Loading
  unfolding with_parsed parse_size
  with_size url task_image none = loaded (configured url task_image default_max_data_size_bytes)
  with_size url task_image (some v) = with_parsed url task_image (parse_size D strip v)

  with_image : Fields → Option String → Text → Loading
  unfolding with_size
  with_image raw url missing = with_size url default_task_image (get "max_data_size" raw)
  with_image raw url bad = bad_task_image
  with_image raw url (text image) = with_size url image (get "max_data_size" raw)

  with_url : Fields → Text → Loading
  unfolding with_image text_at
  with_url raw missing = with_image raw none (text_at (get "task_image" raw))
  with_url raw bad = bad_proxy_url
  with_url raw (text url) = with_image raw (some url) (text_at (get "task_image" raw))

  with_version : Fields → Option Json → Loading
  unfolding with_url
  with_version raw none = with_url raw (text_at (get "docker_proxy_url" raw))
  with_version raw (some v) =
      if equals_one (some v)
      then with_url raw (text_at (get "docker_proxy_url" raw))
      else unsupported_version

  with_keys : Fields → Loading
  unfolding with_version known_keys
  with_keys raw =
      if known_keys raw then with_version raw (get "schema_version" raw) else unknown_key

  from_yaml : Yaml → Loading
  unfolding with_keys
  from_yaml unparsable = cannot_parse
  from_yaml other_value = not_a_mapping
  from_yaml empty = with_keys end
  from_yaml (mapping raw) = with_keys raw

  -- `none`: there is no config.yaml.
  unfoldable pub load : Option Yaml → Loading
  unfolding from_yaml
  load none = loaded (configured none default_task_image default_max_data_size_bytes)
  load (some yaml) = from_yaml yaml
