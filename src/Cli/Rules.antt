-- ===== src/Cli/Rules.antt =====
-- Rules for what actions leave in the log, whatever is outside.
use mathlib.Core.List.{append-nil, append_assoc}
use neotolis_ai_workbench.Base.{◌≡◌, refl, sym, ap, ◌∙◌, [], ◌∷◌, ◌++◌}
use neotolis_ai_workbench.Cli.{
  Outside, World, M, Call, Log, Exit, Result, ok, err, ◌>>=◌, ask, look, continue,
}

module _ {O : Outside} where
  abbrev pub AnyWorld : World O → Type 0
  AnyWorld w = Unit

  -- From a world in `I`: what `m` adds to the log, with its result, satisfies `P`.
  pub record Spec {A : Type 0} (I : World O → Type 0) (P : Log → Result A → Type 0) (m : M O A)
      : Type 0 where
    pub at : (w : World O) → I w → (new : Log) × ((m w).1.log ≡ w.log ++ new) × P new (m w).0

  pub Spec-now :
      {A : Type 0} {I : World O → Type 0} (P : Log → Result A → Type 0) (r : Result A)
      → P [] r
      → Spec I P (λ w. (r, w))
  Spec-now P r h = record { at = λ w i. ([], sym (append-nil w.log), h) }

  pub Spec-weaken :
      {A : Type 0} {I : World O → Type 0} (P Q : Log → Result A → Type 0) (m : M O A)
      → ((new : Log) (r : Result A) → P new r → Q new r)
      → Spec I P m
      → Spec I Q m
  Spec-weaken P Q m f s = record {
    at = λ w i. let (new, p, q) = s.at w i in (new, p, f new (m w).0 q);
  }

  pub Spec-any :
      {A : Type 0} {I : World O → Type 0} (P : Log → Result A → Type 0) (m : M O A)
      → Spec AnyWorld P m
      → Spec I P m
  Spec-any P m s = record { at = λ w i. s.at w tt }

  -- A call, alone and before the rest.
  pub Spec-ask :
      {A : Type 0} (P : Log → Result A → Type 0) (f : O.State → A × O.State) (call : A → Call)
      → ((a : A) → P (call a ∷ []) (ok a))
      → Spec AnyWorld P (ask f call)
  Spec-ask P f call h = record { at = λ w i. let (a, s) = f w.state in (call a ∷ [], refl, h a) }

  -- An action, and then one that depends on its result, an exception included.
  pub Spec-then :
      {A B : Type 0} {I : World O → Type 0} (P : Log → Result A → Type 0)
      (Q : Log → Result B → Type 0) (m : M O A) (f : Result A → M O B)
      → Spec I P m
      → ((new : Log) (r : Result A) → P new r → Spec AnyWorld (λ more r. Q (new ++ more) r) (f r))
      → Spec I Q (λ w. let (r, w') = m w in f r w')
  Spec-then P Q m f s k = record {
    at = λ w i.
        let (new, p, q) = s.at w i in
        let (more, p', q') = (k new (m w).0 q).at (m w).1 tt in
        (new ++ more, p' ∙ ap (λ (l : Log). l ++ more) p ∙ append_assoc w.log new more, q');
  }

  rest_Spec :
      {A B : Type 0} (P : Log → Result A → Type 0) (Q : Log → Result B → Type 0) (f : A → M O B)
      (new : Log) (r : Result A)
      → P new r
      → ((new : Log) (e : Exit) → P new (err e) → Q new (err e))
      → ((new : Log) (a : A) → P new (ok a) → Spec AnyWorld (λ more r. Q (new ++ more) r) (f a))
      → Spec AnyWorld (λ more r. Q (new ++ more) r) (continue r f)
  rest_Spec P Q f new (ok a) p bad good = good new a p
  rest_Spec P Q f new (err e) p bad good =
      Spec-now (λ more r. Q (new ++ more) r) (err e) (rw (append-nil new) (bad new e p))

  pub Spec-seq :
      {A B : Type 0} {I : World O → Type 0} (P : Log → Result A → Type 0)
      (Q : Log → Result B → Type 0) (m : M O A) (f : A → M O B)
      → Spec I P m
      → ((new : Log) (e : Exit) → P new (err e) → Q new (err e))
      → ((new : Log) (a : A) → P new (ok a) → Spec AnyWorld (λ more r. Q (new ++ more) r) (f a))
      → Spec I Q (m >>= f)
  Spec-seq P Q m f s bad good =
      Spec-then P Q m (λ r. continue r f) s λ new r p. rest_Spec P Q f new r p bad good

  pub Spec-ask-then :
      {A B : Type 0} (Q : Log → Result B → Type 0) (f : O.State → A × O.State) (call : A → Call)
      (k : A → M O B)
      → ((a : A) → Spec AnyWorld (λ more r. Q (call a ∷ more) r) (k a))
      → Spec AnyWorld Q (ask f call >>= k)
  Spec-ask-then Q f call k s = record {
    at = λ w i.
        let (a, st) = f w.state in
        let (more, p, q) = (s a).at (record w { log = w.log ++ call a ∷ []; state = st }) tt in
        (call a ∷ more, p ∙ append_assoc w.log (call a ∷ []) more, q);
  }

  pub Spec-look-then :
      {A B : Type 0} (Q : Log → Result B → Type 0) (f : O.State → A × O.State) (k : A → M O B)
      → ((a : A) → Spec AnyWorld Q (k a))
      → Spec AnyWorld Q (look f >>= k)
  Spec-look-then Q f k s = record {
    at = λ w i. let (a, st) = f w.state in (s a).at (record w { state = st }) tt;
  }
