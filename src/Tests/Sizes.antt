-- ===== src/Tests/Sizes.antt =====
-- Runs of the parsers of sizes and ages.
use Prim.Native.String.{String}
use neotolis_ai_workbench.Base.{
  ℕ, ◌+◌, ◌-◌, ◌∷◌, ◌*◌, ◌<◌, ◌≡◌, refl, ◌&&◌, Bool, true, false, Option, none, some, [], leb,
  arith, decimal, ◌<>◌,
}
use neotolis_ai_workbench.Numbers.{Digits, IsAscii}
use neotolis_ai_workbench.Config.{
  Env, Config, resolve_data_root, resolve_data_root_host, size, loaded, load, parse_max_data_size,
  unit_bytes, resolve_docker_proxy_url,
}
use neotolis_ai_workbench.Config.Valid.{IsValid, parse-decimal, load-IsValid}
use neotolis_ai_workbench.Clean.Candidates.{timedelta, unit_seconds, parse_older_than}
use neotolis_ai_workbench.Clean.Candidates.Threshold.{parse_older_than-decimal}

abbrev pub digits_of : ℕ → Bool → Option ℕ
digits_of c true = some (c - 48)
digits_of c false = none

-- No digits but the ten of ASCII.
abbrev pub ascii : Digits
ascii = record { value = λ c. digits_of c (leb 48 c && leb c 57); other_digit = λ c. false }

ascii-digit : (n : ℕ) → n < 10 → digits_of (n + 48) (leb 48 (n + 48) && leb (n + 48) 57) ≡ some n
ascii-digit n h =
    let e : leb 48 (n + 48) && leb (n + 48) 57 ≡ true = ground arith in
    let m : (n + 48) - 48 ≡ n = omega arith in rw (e, m) refl

ascii-no_value :
    (c : ℕ) → c < 128 → (leb 48 c && leb c 57) ≡ false → digits_of c (leb 48 c && leb c 57) ≡ none
ascii-no_value c h e = rw e refl

pub ascii-IsAscii : IsAscii ascii
ascii-IsAscii = record { digit = ascii-digit; no_value = ascii-no_value }

abbrev plain : String → String
plain s = s

gib : unit_bytes "GiB" ≡ some (1024 * 1024 * 1024)
unfolding unit_bytes
gib = refl

parse-decimal_example :
    parse_max_data_size ascii plain (decimal 20 <> "GiB") ≡ size (20 * (1024 * 1024 * 1024))
parse-decimal_example = parse-decimal ascii ascii-IsAscii plain 20 "GiB" (omega arith) gib refl

weeks : unit_seconds "w" ≡ some (7 * 24 * 60 * 60)
unfolding unit_seconds
weeks = refl

parse_older_than-decimal_example :
    parse_older_than ascii plain (decimal 2 <> "w") ≡ timedelta (2 * (7 * 24 * 60 * 60))
parse_older_than-decimal_example =
    parse_older_than-decimal ascii ascii-IsAscii plain 2 "w" weeks refl

abbrev env : Env
env = record {
  naiw_data = none;
  naiw_data_host = none;
  naiw_docker_proxy_url = some "tcp://127.0.0.1:2375";
  home = "home" ∷ [];
  expanduser = λ s. s ∷ [];
}

abbrev by_default : Config
by_default = record {
  data_root = "home" ∷ "naiw-data" ∷ [];
  docker_proxy_url = "tcp://127.0.0.1:2375";
  task_image = "ghcr.io/d954mas/naiw-task-image:latest";
  data_root_host = none;
  max_data_size = 50 * 1024 * 1024 * 1024;
}

loads : load ascii plain env none ≡ loaded by_default
unfolding load resolve_data_root resolve_data_root_host resolve_docker_proxy_url
loads = refl

load-IsValid_example : IsValid by_default
load-IsValid_example = load-IsValid ascii plain env none loads
