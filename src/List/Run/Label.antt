-- ===== src/List/Run/Label.antt =====
-- The container of a task, by its label.
use mathlib.Core.List.{Memᴰ}
use mathlib.Core.List.Memᴰ
use mathlib.Core.Option.{some-injective}
use neotolis_ai_workbench.Base.{
  refl, ◌≡◌, ◌≢◌, sym, ap, String, true, false, Option, none, some, List, [], ◌∷◌, ◌++◌, inl, inr,
  Bool-cases, eq_iff, if◌then◌else◌,
}
use neotolis_ai_workbench.Effects.{Container}
use neotolis_ai_workbench.List.Run.{has_id, by_task_id}

-- The container that has the id of the task in its label: of several, the last.
pub data Theirs (managed : List (Option String × Container)) (task_id : String)
    : Option Container → Type 0 where
  no_container :
      ((c : Container) → Memᴰ (some task_id, c) managed → ⊥) → Theirs managed task_id none
  last_one :
      (before after : List (Option String × Container)) (c : Container)
      → managed ≡ before ++ (some task_id, c) ∷ after
      → ((d : Container) → Memᴰ (some task_id, d) after → ⊥)
      → Theirs managed task_id (some c)

has_id-ne :
    (task_id : String) (tid : Option String) → has_id task_id tid ≡ false → tid ≢ some task_id
unfolding has_id
has_id-ne task_id none h e = cc e
has_id-ne task_id (some tid) h e =
    let same : tid ≡ task_id = some-injective _ _ e in absurd (cc ((eq_iff tid task_id).1 same, h))

has_id-same :
    (task_id : String) (tid : Option String) → has_id task_id tid ≡ true → tid ≡ some task_id
unfolding has_id
has_id-same task_id none h = cc h
has_id-same task_id (some tid) h = ap some ((eq_iff tid task_id).0 h)

pub by_task_id-Theirs :
    (managed : List (Option String × Container)) (task_id : String)
    → Theirs managed task_id (by_task_id managed task_id)
unfolding by_task_id
by_task_id-Theirs [] task_id = no_container (λ c m. Memᴰ.not-nil m)
by_task_id-Theirs ((tid, c) ∷ managed) task_id =
    more (by_task_id managed task_id) (by_task_id-Theirs managed task_id)
  where
    none_more :
        tid ≢ some task_id
        → ((d : Container) → Memᴰ (some task_id, d) managed → ⊥)
        → (d : Container) → Memᴰ (some task_id, d) ((tid, c) ∷ managed)
        → ⊥
    none_more n h d m = elim (Memᴰ.cases_cons m) [
      | inl q ↦ n (sym (ap (λ x. x.0) q))
      | inr r ↦ h d r
    ]

    more :
        (later : Option Container)
        → Theirs managed task_id later
        → Theirs
            ((tid, c) ∷ managed)
            task_id
            (elim later [ some d ↦ some d | none ↦ if has_id task_id tid then some c else none ])
    more (some d) (last_one before after _ e h) =
        last_one ((tid, c) ∷ before) after d (ap (λ l. (tid, c) ∷ l) e) h
    more none (no_container h) = elim (Bool-cases (has_id task_id tid)) [
      | inl e ↦ rw e (last_one [] managed c (rw (has_id-same task_id tid e) refl) h)
      | inr n ↦ rw n (no_container (none_more (has_id-ne task_id tid n) h))
    ]
