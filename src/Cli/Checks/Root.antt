-- ===== src/Cli/Checks/Root.antt =====
-- The checks of the data root.
use Prim.Native.String.{String}
use neotolis_ai_workbench.Base.{
  [], ◌≡◌, refl, ap, Bool, true, false, Option, none, some, ◌∷◌, inl, inr, Bool-cases, str_eq,
  get_or, eq_iff,
}
use neotolis_ai_workbench.Cli.{
  Exit, Outside, symlink, resolved_to, marker, touched, Log, startup_check_failed, ok, err,
}
use neotolis_ai_workbench.Cli.Rules.{AnyWorld, Spec, Spec-now, Spec-ask, Spec-ask-then}
use neotolis_ai_workbench.Cli.Startup.{
  check_naiw_data_not_symlink, check_if_linux, check_not_on_windows_fs_on_linux, refuse_if,
  check_fs, check_ack, acknowledged, on_windows_fs,
}
use neotolis_ai_workbench.Cli.Traces.{BadFs, refused, Fs, other_system, native, marked, warned}
use neotolis_ai_workbench.Cli.Checks.{Check, good, bad}

pub data Plain : Log → Type 0 where
  plain : Plain (symlink false ∷ [])

pub data Linked : Exit → Log → Type 0 where
  link : Linked startup_check_failed (symlink true ∷ [])

pub data WrongFs (O : Outside) : Exit → Log → Type 0 where
  wrong : {log : Log} → BadFs O log → WrongFs O startup_check_failed log

get_or-some : (o : Option String) → str_eq (get_or o "") "1" ≡ true → o ≡ some "1"
get_or-some none h = cc h
get_or-some (some s) h = ap some ((eq_iff s "1").0 h)

module _ {O : Outside} where
  linked :
      (b : Bool)
      → Spec {O = O} AnyWorld
          (λ more r. Check Plain Linked (symlink b ∷ more) r)
          (refuse_if b startup_check_failed)
  unfolding refuse_if
  linked true = Spec-now _ (err startup_check_failed) (bad link)
  linked false = Spec-now _ (ok tt) (good plain)

  pub symlink-Check : Spec {O = O} AnyWorld (Check Plain Linked) check_naiw_data_not_symlink
  unfolding check_naiw_data_not_symlink
  symlink-Check =
      Spec-ask-then (Check Plain Linked) O.is_symlink symlink _ λ is_link. linked is_link

  acknowledged-Check :
      (path : String) (b : Bool)
      → O.ack ≡ some "1"
      → Spec {O = O} AnyWorld
          (λ more r. Check (Fs O) (WrongFs O) (resolved_to path ∷ marker b ∷ more) r)
          (acknowledged b)
  unfolding acknowledged
  acknowledged-Check path true h = Spec-now _ (ok tt) (good (marked h))
  acknowledged-Check path false h =
      Spec-ask (λ more r. Check (Fs O) (WrongFs O) (resolved_to path ∷ marker false ∷ more) r)
        O.touch (λ _. touched) λ a. good (warned h)

  check_fs-Check :
      (path : String)
      → O.linux ≡ true
      → Spec {O = O} AnyWorld
          (λ more r. Check (Fs O) (WrongFs O) (resolved_to path ∷ more) r)
          (check_fs (on_windows_fs path))
  unfolding check_fs check_ack
  check_fs-Check path l = elim (Bool-cases (on_windows_fs path)) [
    | inr n ↦ rw n (Spec-now _ (ok tt) (good (native n)))
    | inl e ↦ elim (Bool-cases (str_eq (get_or O.ack "") "1")) [
      | inl a ↦
          rw (e, a)
            (Spec-ask-then (λ more r. Check (Fs O) (WrongFs O) (resolved_to path ∷ more) r)
              O.marker_exists marker _ λ b. acknowledged-Check path b (get_or-some O.ack a))
      | inr a ↦ rw (e, a) (Spec-now _ (err startup_check_failed) (bad (wrong (refused l e a))))
    ]
  ]

  linux-Check :
      (b : Bool) → O.linux ≡ b → Spec {O = O} AnyWorld (Check (Fs O) (WrongFs O)) (check_if_linux b)
  unfolding check_if_linux
  linux-Check true h =
      Spec-ask-then (Check (Fs O) (WrongFs O)) O.resolved resolved_to _
        λ path. check_fs-Check path h
  linux-Check false h = Spec-now _ (ok tt) (good (other_system h))

  pub windows-Check :
      Spec {O = O} AnyWorld (Check (Fs O) (WrongFs O)) check_not_on_windows_fs_on_linux
  unfolding check_not_on_windows_fs_on_linux
  windows-Check = linux-Check O.linux refl
