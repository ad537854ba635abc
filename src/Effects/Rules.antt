-- ===== src/Effects/Rules.antt =====
-- Rules for what actions publish in task.json, whatever Docker, git and other processes do.
use mathlib.Core.Path.{subst}
use mathlib.Core.List.{append-nil, append_assoc}
use neotolis_ai_workbench.Base.{
  ◌≡◌, refl, sym, ap, ◌∙◌, Bool, true, false, if◌then◌else◌, List, [], ◌++◌,
}
use neotolis_ai_workbench.Model.{TaskDict}
use neotolis_ai_workbench.Effects.{
  Host, World, M, Exn, Result, ok, err, ◌>>=◌, pure, raise, attempt, call, look, continue,
}

abbrev pub Published : Type 0
Published = List (TaskDict × TaskDict)

module _ {H : Host} where
  -- `m` publishes nothing.
  pub record Silent {A : Type 0} (m : M H A) : Type 0 where
    pub at : (w : World H) → (m w).1.writes ≡ w.writes

  -- What `m` publishes, with its result, satisfies `P`.
  pub record Spec {A : Type 0} (P : Published → Result A → Type 0) (m : M H A) : Type 0 where
    pub at : (w : World H) → (new : Published) × ((m w).1.writes ≡ w.writes ++ new) × P new (m w).0

  pub Spec-weaken :
      {A : Type 0} (P Q : Published → Result A → Type 0) (m : M H A)
      → ((new : Published) (r : Result A) → P new r → Q new r)
      → Spec P m
      → Spec Q m
  Spec-weaken P Q m f s = record { at = λ w. let (new, p, q) = s.at w in (new, p, f new (m w).0 q) }

  -- A result that is there at once.
  pub Spec-now :
      {A : Type 0} (P : Published → Result A → Type 0) (r : Result A)
      → P [] r
      → Spec P (λ (w : World H). (r, w))
  Spec-now P r h = record { at = λ w. ([], sym (append-nil w.writes), h) }

  -- An action that publishes nothing, where every result will do.
  pub Spec-Silent :
      {A : Type 0} (P : Published → Result A → Type 0) (m : M H A)
      → Silent m
      → ((r : Result A) → P [] r)
      → Spec P m
  Spec-Silent P m s h = record { at = λ w. ([], s.at w ∙ sym (append-nil w.writes), h (m w).0) }

  pub Silent-attempt : {A : Type 0} (m : M H A) → Silent m → Silent (attempt m)
  Silent-attempt m s = record { at = λ w. s.at w }

  pub Silent-pure : {A : Type 0} (a : A) → Silent (pure a)
  Silent-pure a = record { at = λ w. refl }

  pub Silent-raise : {A : Type 0} (e : Exn) → Silent (raise {A = A} e)
  Silent-raise e = record { at = λ w. refl }

  pub Silent-call : {A : Type 0} (f : H.State → A × H.State) → Silent (call f)
  Silent-call f = record { at = λ w. refl }

  pub Silent-look : {A : Type 0} (f : H.State → A) → Silent (look f)
  Silent-look f = record { at = λ w. refl }

  pub Silent-if :
      {A : Type 0} (b : Bool) (m k : M H A) → Silent m → Silent k → Silent (if b then m else k)
  Silent-if true m k sm sk = sm
  Silent-if false m k sm sk = sk

  -- A call of the host does not raise.
  pub Spec-call :
      {A B : Type 0} (P : Published → Result B → Type 0) (f : H.State → A × H.State) (k : A → M H B)
      → ((a : A) → Spec P (k a))
      → Spec P (call f >>= k)
  Spec-call P f k s = record {
    at = λ w.
        let (a, h) = f w.host in (s a).at (record { task = w.task; writes = w.writes; host = h });
  }

  rest-Silent :
      {A B : Type 0} (r : Result A) (w w' : World H) (f : A → M H B)
      → w'.writes ≡ w.writes
      → ((a : A) → Silent (f a))
      → (continue r f w').1.writes ≡ w.writes
  rest-Silent (ok a) w w' f e s = (s a).at w' ∙ e
  rest-Silent (err x) w w' f e s = e

  pub Silent-bind :
      {A B : Type 0} (m : M H A) (f : A → M H B)
      → Silent m
      → ((a : A) → Silent (f a))
      → Silent (m >>= f)
  Silent-bind m f sm sf = record {
    at = λ w. let (r, w') = m w in rest-Silent r w w' f (sm.at w) sf;
  }

  rest-Spec :
      {A B : Type 0} (P : Published → Result B → Type 0) (r : Result A) (w w' : World H)
      (f : A → M H B)
      → w'.writes ≡ w.writes
      → ((e : Exn) → P [] (err e))
      → ((a : A) → Spec P (f a))
      → (new : Published) × ((continue r f w').1.writes ≡ w.writes ++ new)
        × P new (continue r f w').0
  rest-Spec P (ok a) w w' f e h s = let (new, p, q) = (s a).at w' in (new, rw (← e) p, q)
  rest-Spec P (err x) w w' f e h s = ([], e ∙ sym (append-nil w.writes), h x)

  -- A silent action before the rest; its exceptions are the result of the whole.
  pub Spec-bind :
      {A B : Type 0} (P : Published → Result B → Type 0) (m : M H A) (f : A → M H B)
      → Silent m
      → ((e : Exn) → P [] (err e))
      → ((a : A) → Spec P (f a))
      → Spec P (m >>= f)
  Spec-bind P m f sm h sf = record {
    at = λ w. let (r, w') = m w in rest-Spec P r w w' f (sm.at w) h sf;
  }

-- An action that publishes nothing and returns, or that ends the whole by an exception.
pub data Ends (P : Published → Result (Unit {0}) → Type 0)
    : Published → Result (Unit {0}) → Type 0 where
  goes_on : Ends P [] (ok tt)
  ends : {new : Published} {e : Exn} → P new (err e) → Ends P new (err e)

module _ {H : Host} (P : Published → Result (Unit {0}) → Type 0) where
  then_rest :
      {r : Result (Unit {0})} {new : Published} (w w' : World H) (k : M H Unit)
      → w'.writes ≡ w.writes ++ new
      → Ends P new r
      → Spec P k
      → (all : Published) × ((continue r (λ _. k) w').1.writes ≡ w.writes ++ all)
        × P all (continue r (λ _. k) w').0
  then_rest w w' k p goes_on s =
      let (new, q, h) = s.at w' in
      (new, q ∙ ap (λ (l : Published). l ++ new) (p ∙ append-nil w.writes), h)
  then_rest w w' k p (ends h) s = (_, p, h)

  pub Spec-then : (m k : M H Unit) → Spec (Ends P) m → Spec P k → Spec P (m >>= λ _. k)
  Spec-then m k sm sk = record {
    at = λ w. let (new, p, q) = sm.at w in then_rest w (m w).1 k p q sk;
  }

  pub Spec-Ends :
      (m : M H Unit) → ((w : World H) → (e : Exn) × ((m w).0 ≡ err e)) → Spec P m → Spec (Ends P) m
  Spec-Ends m h s = record {
    at = λ w. let (new, p, q) = s.at w in let (e, x) = h w in (new, p, rw x (ends (rw x at q)));
  }

module _ {H : Host} {A B : Type 0} (P : Published → Result A → Type 0)
    (Q : Published → Result B → Type 0) where
  rest-Ends :
      (r : Result A) (new : Published) (w w' : World H) (f : A → M H B)
      → w'.writes ≡ w.writes ++ new
      → ((e : Exn) → r ≡ err e → Q new (err e))
      → ((a : A) → r ≡ ok a → Spec (λ more r. Q (new ++ more) r) (f a))
      → (all : Published) × ((continue r f w').1.writes ≡ w.writes ++ all)
        × Q all (continue r f w').0
  rest-Ends (err e) new w w' f p bad good = (new, p, bad e refl)
  rest-Ends (ok a) new w w' f p bad good =
      let (more, q, h) = (good a refl).at w' in
      (new ++ more, q ∙ ap (λ (l : Published). l ++ more) p ∙ append_assoc w.writes new more, h)

  -- An action that may publish, before the rest.
  pub Spec-seq :
      (m : M H A) (f : A → M H B)
      → Spec P m
      → ((new : Published) (e : Exn) → P new (err e) → Q new (err e))
      → ((new : Published) (a : A) → P new (ok a) → Spec (λ more r. Q (new ++ more) r) (f a))
      → Spec Q (m >>= f)
  Spec-seq m f s bad good = record {
    at = λ w.
        let (new, p, q) = s.at w in
        rest-Ends (m w).0 new w (m w).1 f p (λ e x. bad new e (subst (P new) x q))
          (λ a x. good new a (subst (P new) x q));
  }
