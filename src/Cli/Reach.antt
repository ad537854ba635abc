-- ===== src/Cli/Reach.antt =====
-- `check_docker_reachable` waits for a proxy that comes up in time.
use mathlib.Core.List.{append-nil, append_assoc}
use neotolis_ai_workbench.Base.{
  ◌≡◌, refl, sym, ◌∙◌, ℕ, zero, suc, ◌<◌, ◌≤◌, ◌⊎◌, inl, inr, [], ◌∷◌, ◌++◌, arith,
}
use neotolis_ai_workbench.Cli.{
  Outside, World, listed, slept, Log, answered, docker_exception, docker_check_failed, Result, ok,
  err,
}
use neotolis_ai_workbench.Cli.Startup.{check_docker_reachable, after_listing}

-- The next `k` listings fail with a DockerException, each followed by a sleep, and the one after them
-- is answered.
unfoldable pub ComesUp : (O : Outside) → ℕ → O.State → Type 0
ComesUp O zero s = (O.list_one s).0 ≡ answered
ComesUp O (suc k) s =
    ((O.list_one s).0 ≡ docker_exception) × ComesUp O k (O.sleep (O.list_one s).1).1

-- `k` listings that fail, and one that is answered; and `n` listings that fail.
pub waited : ℕ → Log
waited zero = listed answered ∷ []
waited (suc k) = listed docker_exception ∷ slept ∷ waited k

pub in_vain : ℕ → Log
in_vain zero = []
in_vain (suc zero) = listed docker_exception ∷ []
in_vain (suc (suc n)) = listed docker_exception ∷ slept ∷ in_vain (suc n)

module _ (O : Outside) where
  pub Waits : ℕ → ℕ → World O → Type 0
  Waits n k w =
      let (r, w') = check_docker_reachable {O = O} n w in
      ((k < n) × (r ≡ ok tt) × (w'.log ≡ w.log ++ waited k))
      ⊎ ((n ≤ k) × (r ≡ err docker_check_failed) × (w'.log ≡ w.log ++ in_vain n))

  twice :
      (before log : Log)
      → ((before ++ listed docker_exception ∷ []) ++ slept ∷ []) ++ log
        ≡ before ++ listed docker_exception ∷ slept ∷ log
  twice before log =
      append_assoc (before ++ listed docker_exception ∷ []) (slept ∷ []) log
      ∙ append_assoc before (listed docker_exception ∷ []) (slept ∷ log)

  -- A try more, on both sides.
  again :
      (n k : ℕ) (before log : Log) (r : Result (Unit {0}))
      → ((k < suc n)
          × (r ≡ ok tt)
          × (log ≡ ((before ++ listed docker_exception ∷ []) ++ slept ∷ []) ++ waited k))
        ⊎ ((suc n ≤ k)
            × (r ≡ err docker_check_failed)
            × (log ≡ ((before ++ listed docker_exception ∷ []) ++ slept ∷ []) ++ in_vain (suc n)))
      → ((suc k < suc (suc n)) × (r ≡ ok tt) × (log ≡ before ++ waited (suc k)))
        ⊎ ((suc (suc n) ≤ suc k)
            × (r ≡ err docker_check_failed)
            × (log ≡ before ++ in_vain (suc (suc n))))
  unfolding waited in_vain
  again n k before log r (inl (h, e, p)) = inl (omega arith, e, p ∙ twice before (waited k))
  again n k before log r (inr (h, e, p)) = inr (omega arith, e, p ∙ twice before (in_vain (suc n)))

  -- Let the next `k` listings fail with a DockerException, each followed by a sleep, and the one after
  -- them be answered. With more than `k` attempts, `check_docker_reachable` returns after it has
  -- listed `k + 1` times and slept `k` times. With `k` or fewer, it raises DockerCheckFailed after it
  -- has listed as often as it may, with a sleep between any two.
  pub check_docker_reachable-Waits : (n k : ℕ) (w : World O) → ComesUp O k w.state → Waits n k w
  unfolding Waits ComesUp check_docker_reachable after_listing waited in_vain
  check_docker_reachable-Waits zero k w h = inr (omega arith, refl, sym (append-nil w.log))
  check_docker_reachable-Waits (suc n) zero w h = rw h (inl (omega arith, refl, refl))
  check_docker_reachable-Waits (suc zero) (suc k) w (h, up) = rw h (inr (omega arith, refl, refl))
  check_docker_reachable-Waits (suc (suc n)) (suc k) w (h, up) = rw h (
      again n k w.log _ _ (
        check_docker_reachable-Waits (suc n) k
          (record {
            client = w.client;
            log = (w.log ++ listed docker_exception ∷ []) ++ slept ∷ [];
            state = (O.sleep (O.list_one w.state).1).1;
          })
          up))
