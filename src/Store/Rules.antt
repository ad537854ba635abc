-- ===== src/Store/Rules.antt =====
-- What reading and updating task.json publish.
use mathlib.Core.List.{append-nil, append_assoc}
use neotolis_ai_workbench.Base.{◌≡◌, refl, sym, ◌∙◌, [], ◌∷◌, ◌++◌, get_or, some}
use neotolis_ai_workbench.Model.{TaskDict, empty_dict}
use neotolis_ai_workbench.Effects.{Host, World, M, Exn, Result, ok, err, ◌>>=◌, attempt}
use neotolis_ai_workbench.Effects.Rules.{Published, Silent, Spec}
use neotolis_ai_workbench.Store.{read_task, update_task, update_noting, publish}

pub Silent-read_task : {H : Host} → Silent (read_task {H = H})
unfolding read_task
Silent-read_task = record { at = λ w. refl }

module _ {H : Host} {A : Type 0} (P : Published → Result A → Type 0) where
  update_ends :
      (r : Result TaskDict) (old : TaskDict) (k : Result TaskDict → M H A)
      → ((r : Result TaskDict) → Silent (k r))
      → ((new : TaskDict) (w : World H) → r ≡ ok new → P ((old, new) ∷ []) (k (ok new) w).0)
      → ((e : Exn) (w : World H) → r ≡ err e → P [] (k (err e) w).0)
      → (w : World H)
      → (new : Published) × (((attempt (publish old r) >>= k) w).1.writes ≡ w.writes ++ new)
        × P new ((attempt (publish old r) >>= k) w).0
  unfolding publish
  update_ends (ok new) old k s good bad w = ((old, new) ∷ [], (s (ok new)).at _, good new _ refl)
  update_ends (err e) old k s good bad w =
      ([], (s (err e)).at w ∙ sym (append-nil w.writes), bad e w refl)

  -- An update whose exception is caught, and then an action that publishes nothing.
  pub Spec-update :
      (f : TaskDict → Result TaskDict) (k : Result TaskDict → M H A)
      → ((r : Result TaskDict) → Silent (k r))
      → ((old new : TaskDict) (w : World H) → f old ≡ ok new → P ((old, new) ∷ []) (k (ok new) w).0)
      → ((old : TaskDict) (e : Exn) (w : World H) → f old ≡ err e → P [] (k (err e) w).0)
      → Spec P (attempt (update_task f) >>= k)
  unfolding update_task
  Spec-update f k s good bad = record {
    at = λ w.
        let (t, h) = H.interleave w.task w.host in
        update_ends (f (get_or t empty_dict)) (get_or t empty_dict) k s (good (get_or t empty_dict))
          (bad (get_or t empty_dict)) (record { task = t; writes = w.writes; host = h });
  }

  -- An update that notes something of the dict it found, before the rest.
  pub Spec-noting :
      {B : Type 0} (f : TaskDict → TaskDict) (note : TaskDict → B) (k : B → M H A)
      → ((old : TaskDict) → Spec (λ more r. P ((old, f old) ∷ more) r) (k (note old)))
      → Spec P (update_noting f note >>= k)
  unfolding update_noting publish
  Spec-noting f note k s = record {
    at = λ w.
        let (t, h) = H.interleave w.task w.host in
        let old = get_or t empty_dict in
        let w' : World H = record {
          task = some (f old);
          writes = w.writes ++ (old, f old) ∷ [];
          host = h;
        } in
        let (more, q, x) = (s old).at w' in
        ((old, f old) ∷ more, q ∙ append_assoc w.writes ((old, f old) ∷ []) more, x);
  }
