-- ===== src/Cli/Checks/Docker.antt =====
-- The checks of Docker and of the proxy.
use Prim.Native.String.{String}
use neotolis_ai_workbench.Base.{
  [], ◌≡◌, ℕ, zero, suc, ◌<>◌, true, ◌∷◌, ◌==◌, inl, inr, Bool-cases, arith,
}
use neotolis_ai_workbench.Cli.{
  Outside, listed, slept, probed, Log, Listing, answered, docker_exception, broken, Reply, success,
  url_error, other_error, http_error, Exit, docker_check_failed, raised, Result, ok, err,
}
use neotolis_ai_workbench.Cli.Rules.{
  AnyWorld, Spec, Spec-now, Spec-weaken, Spec-ask-then, Spec-look-then,
}
use neotolis_ai_workbench.Cli.Startup.{
  check_docker_reachable, check_proxy_allowlist_drift, after_listing, judge, expect_http_status,
}
use neotolis_ai_workbench.Cli.Traces.{
  Reached, at_once, Unreached, Wrong, through, no_proxy, no_reply, other_status, Allowlist,
  as_expected, Drift, at_exec, at_start, at_stop,
}
use neotolis_ai_workbench.Cli.Checks.{
  Check, good, bad, Both, both, Either, first, second, Check-seq, Check-map,
}

slept-Check :
    (n : ℕ) {log : Log} {r : Result (Unit {0})}
    → Check (Reached (suc n)) (Unreached (suc n)) log r
    → Check
        (Reached (suc (suc n)))
        (Unreached (suc (suc n)))
        (listed docker_exception ∷ slept ∷ log)
        r
slept-Check n (good g) = good (Reached.again g)
slept-Check n (bad b) = bad (Unreached.again b)

module _ {O : Outside} where
  after_listing-Check :
      (n : ℕ) (reply : Listing)
      → Spec {O = O} AnyWorld (Check (Reached n) (Unreached n)) (check_docker_reachable n)
      → Spec {O = O} AnyWorld
          (λ more r. Check (Reached (suc n)) (Unreached (suc n)) (listed reply ∷ more) r)
          (after_listing n (check_docker_reachable n) reply)
  unfolding after_listing check_docker_reachable
  after_listing-Check n answered s = Spec-now _ (ok tt) (good at_once)
  after_listing-Check n broken s = Spec-now _ (err raised) (bad Unreached.other_exception)
  after_listing-Check zero docker_exception s =
      Spec-now _ (err docker_check_failed) (bad Unreached.last_attempt)
  after_listing-Check (suc n) docker_exception s =
      Spec-ask-then
        (λ more r.
          Check (Reached (suc (suc n))) (Unreached (suc (suc n))) (listed docker_exception ∷ more)
            r)
        O.sleep (λ _. slept) (λ _. check_docker_reachable (suc n))
        λ x.
          Spec-weaken (Check (Reached (suc n)) (Unreached (suc n))) _
            (check_docker_reachable (suc n)) (λ new r p. slept-Check n p) s

  -- A number of attempts: one of them is answered, or they are used up, or one raises.
  pub check_docker_reachable-Check :
      (n : ℕ) → Spec {O = O} AnyWorld (Check (Reached n) (Unreached n)) (check_docker_reachable n)
  unfolding check_docker_reachable
  check_docker_reachable-Check zero =
      Spec-now _ (err docker_check_failed) (bad Unreached.no_attempt)
  check_docker_reachable-Check (suc n) =
      Spec-ask-then (Check (Reached (suc n)) (Unreached (suc n))) O.list_one listed _
        λ reply. after_listing-Check n reply (check_docker_reachable-Check n)

same_eq : (n : ℕ) → (n == n) ≡ true
same_eq n = ground arith

-- One probe.
data Met (method path : String) (expected : ℕ) : Log → Type 0 where
  met : Met method path expected (probed method path (http_error expected) ∷ [])

data Missed (method path : String) (expected : ℕ) : Exit → Log → Type 0 where
  missed :
      {e : Exit} {reply : Reply}
      → Wrong expected e reply
      → Missed method path expected e (probed method path reply ∷ [])

allowed :
    (id : String) {log : Log}
    → Both
        (Met "POST" ("/exec/" <> id <> "/start") 403)
        (Both
          (Met "POST" ("/containers/" <> id <> "/start") 404)
          (Met "POST" ("/containers/" <> id <> "/stop") 404))
        log
    → Allowlist log
allowed id (both met (both met met)) = as_expected id

drift :
    (id : String) {e : Exit} {log : Log}
    → Either
        (Met "POST" ("/exec/" <> id <> "/start") 403)
        (Missed "POST" ("/exec/" <> id <> "/start") 403)
        (Either
          (Met "POST" ("/containers/" <> id <> "/start") 404)
          (Missed "POST" ("/containers/" <> id <> "/start") 404)
          (Missed "POST" ("/containers/" <> id <> "/stop") 404))
        e
        log
    → Drift e log
drift id (first (missed w)) = at_exec id w
drift id (second met (first (missed w))) = at_start id w
drift id (second met (second met (missed w))) = at_stop id w

module _ {O : Outside} where
  judge-Check :
      (m p : String) (n : ℕ) (reply : Reply)
      → Spec {O = O} AnyWorld
          (λ more r. Check (Met m p n) (Missed m p n) (probed m p reply ∷ more) r)
          (judge n reply)
  unfolding judge
  judge-Check m p n success = Spec-now _ (err docker_check_failed) (bad (missed through))
  judge-Check m p n url_error = Spec-now _ (err docker_check_failed) (bad (missed no_proxy))
  judge-Check m p n other_error = Spec-now _ (err raised) (bad (missed no_reply))
  judge-Check m p n (http_error code) = elim (Bool-cases (code == n)) [
    | inr e ↦ rw e (Spec-now _ (err docker_check_failed) (bad (missed (other_status e))))
    | inl e ↦
        let same : code ≡ n = ground arith in rw (same, same_eq n) (Spec-now _ (ok tt) (good met))
  ]

  expect-Check :
      (m p : String) (n : ℕ)
      → Spec {O = O} AnyWorld (Check (Met m p n) (Missed m p n)) (expect_http_status m p n)
  unfolding expect_http_status
  expect-Check m p n =
      Spec-ask-then (Check (Met m p n) (Missed m p n)) (O.urlopen m p) (probed m p) _
        λ reply. judge-Check m p n reply

  pub probes-Check : Spec {O = O} AnyWorld (Check Allowlist Drift) check_proxy_allowlist_drift
  unfolding check_proxy_allowlist_drift
  probes-Check = Spec-look-then (Check Allowlist Drift) O.uuid _ λ uuid.
      let id = "naiw-probe-" <> uuid in
      Spec-weaken _ (Check Allowlist Drift) _
        (λ new r p. Check-map (λ l h. allowed id h) (λ e l h. drift id h) p)
        (Check-seq _ _ _ _ _ _ (expect-Check _ _ _)
          (Check-seq _ _ _ _ _ _ (expect-Check _ _ _) (expect-Check _ _ _)))
