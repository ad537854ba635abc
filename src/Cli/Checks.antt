-- ===== src/Cli/Checks.antt =====
-- How checks end, and checks in order.
pub mod Root
pub mod Docker
pub mod Space
pub mod Client
use neotolis_ai_workbench.Base.{◌+◌, ◌++◌}
use neotolis_ai_workbench.Cli.{Outside, M, Log, Exit, Result, ok, err, ◌>>=◌, ◌>>◌}
use neotolis_ai_workbench.Cli.Rules.{AnyWorld, Spec, Spec-weaken, Spec-seq}

-- How a check ends: it passes as `G` says, or fails as `B` says of the exception and the log.
pub data Check (G : Log → Type 0) (B : Exit → Log → Type 0) : Log → Result (Unit {0}) → Type 0 where
  good : {log : Log} → G log → Check G B log (ok tt)
  bad : {e : Exit} {log : Log} → B e log → Check G B log (err e)

-- Two checks in order.
pub data Both (G H : Log → Type 0) : Log → Type 0 where
  both : {xs ys : Log} → G xs → H ys → Both G H (xs ++ ys)

pub data Either (G : Log → Type 0) (B C : Exit → Log → Type 0) : Exit → Log → Type 0 where
  first : {e : Exit} {xs : Log} → B e xs → Either G B C e xs
  second : {e : Exit} {xs ys : Log} → G xs → C e ys → Either G B C e (xs ++ ys)

module _ (G : Log → Type 0) (B : Exit → Log → Type 0) (H : Log → Type 0)
    (C : Exit → Log → Type 0) where
  Check-append :
      {xs ys : Log} {r : Result (Unit {0})}
      → G xs
      → Check H C ys r
      → Check (Both G H) (Either G B C) (xs ++ ys) r
  Check-append g (good h) = good (both g h)
  Check-append g (bad c) = bad (second g c)

  Check-err :
      {xs : Log} {e : Exit} → Check G B xs (err e) → Check (Both G H) (Either G B C) xs (err e)
  Check-err (bad b) = bad (first b)

  Check-ok : {xs : Log} {x : Unit {0}} → Check G B xs (ok x) → G xs
  Check-ok (good g) = g

  pub Check-seq :
      {O : Outside} (m k : M O Unit)
      → Spec AnyWorld (Check G B) m
      → Spec AnyWorld (Check H C) k
      → Spec AnyWorld (Check (Both G H) (Either G B C)) (m >>= λ _. k)
  Check-seq m k sm sk =
      Spec-seq (Check G B) (Check (Both G H) (Either G B C)) m (λ _. k) sm (λ new e p. Check-err p)
        λ new a p.
          Spec-weaken (Check H C) (λ more r. Check (Both G H) (Either G B C) (new ++ more) r) k
            (λ more r q. Check-append (Check-ok p) q) sk

pub Check-map :
    {G H : Log → Type 0} {B C : Exit → Log → Type 0} {log : Log} {r : Result (Unit {0})}
    → ((l : Log) → G l → H l)
    → ((e : Exit) (l : Log) → B e l → C e l)
    → Check G B log r
    → Check H C log r
Check-map f g (good x) = good (f _ x)
Check-map f g (bad x) = bad (g _ _ x)
