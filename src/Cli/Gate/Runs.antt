-- ===== src/Cli/Gate/Runs.antt =====
-- Every command runs as `Gated` says, whatever is outside.
use mathlib.Core.List.{append-nil}
use neotolis_ai_workbench.Base.{[], ◌≡◌, refl, ℕ, Bool, true, ◌∷◌, ◌++◌}
use neotolis_ai_workbench.Numbers.{Digits}
use neotolis_ai_workbench.Config.{Config}
use neotolis_ai_workbench.Cli.{Outside, World, M, acted, Log, Exit, Result, ok, err, Act, ◌>>=◌}
use neotolis_ai_workbench.Cli.Rules.{AnyWorld, Spec, Spec-now, Spec-weaken, Spec-seq, Spec-then}
use neotolis_ai_workbench.Cli.Traces.{Passed, Stopped}
use neotolis_ai_workbench.Cli.Checks.{Check, good, bad}
use neotolis_ai_workbench.Cli.Checks.Client.{NoClient, client_for-Check}
use neotolis_ai_workbench.Cli.Commands.{Command, perform, client_for}
use neotolis_ai_workbench.Cli.Gate.{names_valid, ended, Acts, Gated, acts}

pub data Performed (a : Act) : Log → Result ℕ → Type 0 where
  performed : (r : Result ℕ) → Performed a (acted a ∷ []) r

pub perform-Performed : {O : Outside} (a : Act) → Spec {O = O} AnyWorld (Performed a) (perform a)
unfolding perform
perform-Performed {O} a = record { at = λ w i. (acted a ∷ [], refl, performed (O.act a w.state).0) }

-- A component is called after a log as `B` says, or what is before stops the command as `S` says.
pub data Ran (B : Log → Type 0) (S : Exit → Log → Type 0) (a : Act) : Log → Result ℕ → Type 0 where
  ran : {log : Log} → B log → (r : Result ℕ) → Ran B S a (log ++ acted a ∷ []) r
  halted : {log : Log} {e : Exit} → S e log → Ran B S a log (err e)

pub now_as :
    {O : Outside} {A : Type 0} (P : Log → Result A → Type 0) (m : M O A) (r : Result A)
    → m ≡ (λ w. (r, w))
    → P [] r
    → Spec AnyWorld P m
now_as P m r e h = rw e (Spec-now P r h)

module _ {O : Outside} (cfg : Config) where
  halt :
      {B : Log → Type 0} {gated : Bool} {a : Act} {log : Log} {e : Exit}
      → Check (Passed O gated cfg.max_data_size) (Stopped O gated cfg.max_data_size) log (err e)
      → Ran B (Stopped O gated cfg.max_data_size) a log (err e)
  halt (bad b) = halted b

  go_on :
      {S : Exit → Log → Type 0} {gated : Bool} {a : Act} {log more : Log} {x : Unit {0}}
      {r : Result ℕ}
      → Check (Passed O gated cfg.max_data_size) (Stopped O gated cfg.max_data_size) log (ok x)
      → Performed a more r
      → Ran (Passed O gated cfg.max_data_size) S a (log ++ more) r
  go_on (good p) (performed r) = ran p r

  pub with_client :
      (gated : Bool) (a : Act)
      → Spec {O = O}
          (NoClient O)
          (Ran (Passed O gated cfg.max_data_size) (Stopped O gated cfg.max_data_size) a)
          (client_for cfg gated >>= λ _. perform a)
  with_client gated a =
      Spec-seq (Check (Passed O gated cfg.max_data_size) (Stopped O gated cfg.max_data_size)) _
        (client_for cfg gated) (λ _. perform a) (client_for-Check O cfg gated) (λ new e c. halt c)
        λ new x c.
          Spec-weaken (Performed a) _ (perform a) (λ more r p. go_on c p) (perform-Performed a)

  pub alone : (a : Act) → Spec {O = O} AnyWorld (Ran (λ log. log ≡ []) (λ e log. ⊥) a) (perform a)
  alone a = Spec-weaken (Performed a) _ (perform a) (λ new r p. from p) (perform-Performed a)
    where
      from :
          {log : Log} {r : Result ℕ}
          → Performed a log r
          → Ran (λ log. log ≡ []) (λ e log. ⊥) a log r
      from (performed r) = ran refl r

  module _ (D : Digits) (command : Command) where
    Ran-Gated :
        {B : Log → Type 0} {S : Exit → Log → Type 0} {a : Act} {log : Log} {r : Result ℕ}
        → names_valid command ≡ true
        → ((log : Log) → B log → Acts O D cfg command log a)
        → ((e : Exit) (log : Log) → S e log → Gated O D cfg command log (ended command (err e)))
        → Ran B S a log r
        → Gated O D cfg command log (ended command r)
    Ran-Gated v f stop (ran b r) = acts r v (f _ b)
    Ran-Gated v f stop (halted s) = stop _ _ s

    -- A command that calls one component and ends as its result says.
    pub ends_as :
        {I : World O → Type 0} (B : Log → Type 0) (S : Exit → Log → Type 0) (a : Act) (m : M O ℕ)
        (f : Result ℕ → M O Unit)
        → Spec I (Ran B S a) m
        → names_valid command ≡ true
        → ((log : Log) → B log → Acts O D cfg command log a)
        → ((e : Exit) (log : Log) → S e log → Gated O D cfg command log (ended command (err e)))
        → ((r : Result ℕ) → f r ≡ (λ w. (ended command r, w)))
        → Spec I (Gated O D cfg command) (λ w. let (r, w') = m w in f r w')
    ends_as B S a m f s v b stop h = Spec-then (Ran B S a) (Gated O D cfg command) m f s λ new r p.
        now_as (λ more r. Gated O D cfg command (new ++ more) r) (f r) (ended command r) (h r)
          (rw (append-nil new) (Ran-Gated v b stop p))
