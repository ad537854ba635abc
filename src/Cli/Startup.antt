-- ===== src/Cli/Startup.antt =====
-- src/naiw_tasks/naiw_tasks/startup_checks.py: the checks before a command that needs Docker. What
-- they print is left out, and with it the note on the user's id, which does nothing else.
use Prim.Native.Char.{code}
use Prim.Native.String.{String}
use text.Mathlib.Text.{starts_with}
use neotolis_ai_workbench.Base.{
  ℕ, zero, suc, ◌<>◌, Bool, true, false, ◌&&◌, ◌||◌, str_eq, ◌==◌, leb, get_or, text_after,
  if◌then◌else◌,
}
use neotolis_ai_workbench.Cli.{
  Outside, M, symlink, resolved_to, marker, touched, listed, slept, probed, Listing, answered,
  docker_exception, broken, Reply, success, url_error, other_error, http_error, Exit,
  startup_check_failed, docker_check_failed, raised, ◌>>=◌, ◌>>◌, pure, raise, ask, look,
}
use neotolis_ai_workbench.Cli.Disk.{over_threshold}

pub is_letter : ℕ → Bool
is_letter c = leb b'A' c && leb c b'Z' || leb b'a' c && leb c b'z'

-- `[A-Za-z]/`, and then anything.
pub drive : String → Bool
unfolding is_letter
drive (String.◌∷◌ c (String.◌∷◌ d s)) = is_letter (code c) && code d == b'/'
drive _ = false

-- `_WINDOWS_FS_ON_LINUX_RE.match`.
unfoldable pub on_windows_fs : String → Bool
unfolding drive
on_windows_fs path = starts_with path "/mnt/" && drive (text_after 5 path)

module _ {O : Outside} where
  unfoldable pub refuse_if : Bool → Exit → M O Unit
  refuse_if true e = raise e
  refuse_if false e = pure tt

  unfoldable pub check_naiw_data_not_symlink : M O Unit
  unfolding refuse_if
  check_naiw_data_not_symlink = do
    is_link ← ask O.is_symlink symlink
    refuse_if is_link startup_check_failed

  -- The marker keeps the warning from being printed twice.
  unfoldable pub acknowledged : Bool → M O Unit
  acknowledged true = pure tt
  acknowledged false = ask O.touch λ _. touched

  unfoldable pub check_ack : Bool → M O Unit
  unfolding acknowledged
  check_ack true = do marked ← ask O.marker_exists marker; acknowledged marked
  check_ack false = raise startup_check_failed

  unfoldable pub check_fs : Bool → M O Unit
  unfolding check_ack
  check_fs true = check_ack (str_eq (get_or O.ack "") "1")
  check_fs false = pure tt

  unfoldable pub check_if_linux : Bool → M O Unit
  unfolding check_fs on_windows_fs
  check_if_linux false = pure tt
  check_if_linux true = do path ← ask O.resolved resolved_to; check_fs (on_windows_fs path)

  unfoldable pub check_not_on_windows_fs_on_linux : M O Unit
  unfolding check_if_linux
  check_not_on_windows_fs_on_linux = check_if_linux O.linux

  -- After the reply to an attempt, with the number of those that are left, and what they do.
  unfoldable pub after_listing : ℕ → M O Unit → Listing → M O Unit
  after_listing left rest answered = pure tt
  after_listing left rest broken = raise raised
  after_listing zero rest docker_exception = rest
  after_listing (suc left) rest docker_exception = ask O.sleep (λ _. slept) >> rest

  unfoldable pub check_docker_reachable : ℕ → M O Unit
  unfolding after_listing
  check_docker_reachable zero = raise docker_check_failed
  check_docker_reachable (suc attempts) =
      ask O.list_one listed >>= after_listing attempts (check_docker_reachable attempts)

  -- What `urlopen` gave, against the status that is expected.
  unfoldable pub judge : ℕ → Reply → M O Unit
  judge expected success = raise docker_check_failed
  judge expected url_error = raise docker_check_failed
  judge expected other_error = raise raised
  judge expected (http_error code) = if code == expected then pure tt else raise docker_check_failed

  unfoldable pub expect_http_status : String → String → ℕ → M O Unit
  unfolding judge
  expect_http_status method path expected = do
    reply ← ask (O.urlopen method path) (probed method path)
    judge expected reply

  unfoldable pub check_proxy_allowlist_drift : M O Unit
  unfolding expect_http_status
  check_proxy_allowlist_drift = do
    id ← look O.uuid
    let probe_id = "naiw-probe-" <> id
    expect_http_status "POST" ("/exec/" <> probe_id <> "/start") 403
    expect_http_status "POST" ("/containers/" <> probe_id <> "/start") 404
    expect_http_status "POST" ("/containers/" <> probe_id <> "/stop") 404

  unfoldable pub check_disk_threshold : ℕ → M O Unit
  unfolding over_threshold refuse_if
  check_disk_threshold max_data_size = do
    above ← over_threshold max_data_size 95
    refuse_if above startup_check_failed

  unfoldable pub gate : Bool → ℕ → M O Unit
  unfolding check_disk_threshold
  gate true max_data_size = check_disk_threshold max_data_size
  gate false max_data_size = pure tt

  unfoldable pub run_all : Bool → ℕ → M O Unit
  unfolding gate check_naiw_data_not_symlink check_not_on_windows_fs_on_linux check_docker_reachable
      check_proxy_allowlist_drift
  run_all gate_disk_threshold max_data_size = do
    check_naiw_data_not_symlink
    check_not_on_windows_fs_on_linux
    check_docker_reachable 5
    check_proxy_allowlist_drift
    gate gate_disk_threshold max_data_size
