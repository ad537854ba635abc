-- ===== src/Clean/Removal.antt =====
-- `clean` removes what it may remove; and what a run without a failure leaves, if it could list the containers.
use mathlib.Core.List.{Memᴰ}
use mathlib.Core.List.Memᴰ
use neotolis_ai_workbench.Base.{
  ℕ, ◌≡◌, refl, sym, ◌∙◌, Bool, true, false, ◌&&◌, List, [], ◌∷◌, ◌⊎◌, inl, inr, arith, Bool-cases,
  str_eq, eq_iff,
}
use neotolis_ai_workbench.Clean.{
  Namespace, Managed, Outcomes, is_orphan, enumerate_orphans, remove_task, remove_orphan,
  prune_orphans, exit_code, nothing_to_do, run,
}
use neotolis_ai_workbench.Clean.Candidates.{Entry, Candidate, Clock, enumerate_candidates}
use neotolis_ai_workbench.Clean.Candidates.Old.{IsOld, enumerate_candidates-Listed}
use neotolis_ai_workbench.Clean.Steps.{
  remove_task-cleared, remove_orphan-cleared, remove_orphan-zero,
}
use neotolis_ai_workbench.Clean.Rounds.{each-back, each-marked}
use neotolis_ai_workbench.Clean.Sweep.{
  IsApproved, OldName, OrphanName, true-ne-false, Memᴰ-enumerate_orphans, swept, Went, nothing,
  through, run-swept, run-cases, swept-entries, swept-managed, prune_orphans-entries,
  exit_code-namespace, prune_orphans-managed,
}

and-false : (b : Bool) → b && false ≡ false
and-false true = refl
and-false false = refl

module _ (K : Clock) (O : Outcomes) (threshold : ℕ) where
  -- The task folders that a run of `clean` removes: the run was approved, and an entry of that name was
  -- a finished task, at least the threshold old. Every other entry is still there.
  pub run-entries :
      (dry_run skip_prompt : Bool) (n : Namespace) (e : Entry)
      → Memᴰ e n.entries
      → Memᴰ e (run K O threshold dry_run skip_prompt n).0.entries
        ⊎ (IsApproved O dry_run skip_prompt × OldName K threshold n.entries e.name)
  run-entries dry_run skip_prompt n e m = elim (run-cases K O threshold dry_run skip_prompt n) [
    | inl h ↦ inl (rw h m)
    | inr a ↦ went (run-swept K O threshold dry_run skip_prompt n a) a
  ]
    where
      went :
          {r : Namespace × ℕ}
          → Went K O threshold n r
          → IsApproved O dry_run skip_prompt
          → Memᴰ e r.0.entries
            ⊎ (IsApproved O dry_run skip_prompt × OldName K threshold n.entries e.name)
      went (nothing h) a = inl m
      went through a = elim (swept-entries K O threshold n e m) [
        | inl k ↦ inl (
            rw
              (
                exit_code-namespace (prune_orphans O (swept K O threshold n)),
                prune_orphans-entries O (swept K O threshold n),
              )
              k)
        | inr o ↦ inr (a, o)
      ]

  -- The containers that a run of `clean` removes: the run was approved, and a container of that name had a
  -- task id with no entry among those that the run leaves. Every other container is still there.
  pub run-managed :
      (dry_run skip_prompt : Bool) (n : Namespace) (c : Managed)
      → Memᴰ c (n.managed)
      → Memᴰ c ((run K O threshold dry_run skip_prompt n).0.managed)
        ⊎ (IsApproved O dry_run skip_prompt
            × OrphanName (run K O threshold dry_run skip_prompt n).0.entries (n.managed) c.name)
  run-managed dry_run skip_prompt n c m = elim (run-cases K O threshold dry_run skip_prompt n) [
    | inl h ↦ inl (rw h m)
    | inr a ↦ went (run-swept K O threshold dry_run skip_prompt n a) a
  ]
    where
      went :
          {r : Namespace × ℕ}
          → Went K O threshold n r
          → IsApproved O dry_run skip_prompt
          → Memᴰ c r.0.managed
            ⊎ (IsApproved O dry_run skip_prompt × OrphanName r.0.entries n.managed c.name)
      went (nothing h) a = inl m
      went through a =
          elim (prune_orphans-managed O (swept K O threshold n) c
            (rw (swept-managed K O threshold n) m)) [
              | inl k ↦ inl (rw (exit_code-namespace (prune_orphans O (swept K O threshold n))) k)
              | inr (o, k, h, q) ↦ inr (
                a,
                (
                  o,
                  rw (swept-managed K O threshold n) at k,
                  rw
                      (
                        exit_code-namespace (prune_orphans O (swept K O threshold n)),
                        prune_orphans-entries O (swept K O threshold n),
                      )
                      h,
                  q,
                ),
              )
            ]

  exit_code-zero : (r : Namespace × ℕ) → (exit_code r).1 ≡ 0 → r.1 ≡ 0
  unfolding exit_code
  exit_code-zero (n, f) h = ground arith

  prune_orphans-zero : (r : Namespace × ℕ) → (prune_orphans O r).1 ≡ 0 → r.1 ≡ 0
  unfolding prune_orphans
  prune_orphans-zero (n, f) h =
      each-back (remove_orphan O) (λ r. r.1 ≡ 0) (λ _. Unit {0})
        (λ c r h. (remove_orphan-zero O c r h, tt))
        (enumerate_orphans n.entries O.final_listing n.managed) (n, f) h

  swept-clear :
      (n : Namespace) (e : Entry)
      → Memᴰ e (swept K O threshold n).0.entries
      → (swept K O threshold n).1 ≡ 0
      → IsOld K threshold e
      → ⊥
  unfolding swept
  swept-clear n e m z o =
      let cs = enumerate_candidates K threshold n.entries in
      let P : Namespace × ℕ → Type 0 = λ r. Memᴰ e r.0.entries × (r.1 ≡ 0) in
      let Q : Candidate → Type 0 = λ c. str_eq e.name c.task_id ≡ false in
      let back = λ (c : Candidate) (r : Namespace × ℕ). remove_task-cleared O c r e in
      let (there, _) = each-back (remove_task O) P Q back cs (n, 0) (m, z) in
      let (c, k, q) = enumerate_candidates-Listed K threshold e n.entries o there in
      true-ne-false (
        sym ((eq_iff e.name c.task_id).1 (sym q))
        ∙ each-marked (remove_task O) P Q back cs (n, 0) (m, z) c k)

  prune_orphans-clear :
      (r : Namespace × ℕ) (c : Managed)
      → Memᴰ c ((prune_orphans O r).0.managed)
      → (prune_orphans O r).1 ≡ 0
      → O.final_listing ≡ true
      → is_orphan r.0.entries c ≡ true
      → ⊥
  unfolding prune_orphans
  prune_orphans-clear (n, f) c m z works t =
      let os = enumerate_orphans n.entries O.final_listing n.managed in
      let P : Namespace × ℕ → Type 0 = λ r. Memᴰ c (r.0.managed) × (r.1 ≡ 0) in
      let Q : Managed → Type 0 = λ o. str_eq c.name o.name ≡ false in
      let back = λ (o : Managed) (r : Namespace × ℕ). remove_orphan-cleared O o r c in
      let (there, _) = each-back (remove_orphan O) P Q back os (n, f) (m, z) in
      let k : Memᴰ c os = rw works (Memᴰ-enumerate_orphans n.entries c n.managed there t) in
      true-ne-false (
        sym ((eq_iff c.name c.name).1 refl)
        ∙ each-marked (remove_orphan O) P Q back os (n, f) (m, z) c k)

  -- What is left: no finished task that is old enough; and no container with a task id and no task, unless
  -- a listing of the containers did not work.
  abbrev pub Clear : Namespace → Type 0
  Clear n =
      ((e : Entry) → Memᴰ e n.entries → IsOld K threshold e → ⊥)
      × ((O.first_listing && O.final_listing ≡ false)
          ⊎ ((c : Managed) → Memᴰ c n.managed → is_orphan n.entries c ≡ false))

  none-listed :
      (cs : List Candidate) (os : List Managed) → nothing_to_do cs os ≡ true → (cs ≡ []) × (os ≡ [])
  unfolding nothing_to_do
  none-listed [] [] h = (refl, refl)
  none-listed [] (o ∷ os) h = cc h
  none-listed (c ∷ cs) os h = cc h

  nothing-Clear :
      (n : Namespace)
      → nothing_to_do
          (enumerate_candidates K threshold n.entries)
          (enumerate_orphans n.entries O.first_listing n.managed)
        ≡ true
      → Clear n
  nothing-Clear n h =
      let (no_candidates, no_orphans) = none-listed _ _ h in
      (
        (λ e m o.
            let (c, k, q) = enumerate_candidates-Listed K threshold e n.entries o m in
            Memᴰ.not-nil (rw no_candidates at k)),
        elim (Bool-cases O.first_listing) [
          | inr f ↦ inl (rw f refl)
          | inl f ↦ inr (λ c m. elim (Bool-cases (is_orphan n.entries c)) [
            | inr i ↦ i
            | inl i ↦ absurd (
                Memᴰ.not-nil
                  (rw (rw f at no_orphans) at (Memᴰ-enumerate_orphans n.entries c n.managed m i)))
          ])
        ],
      )

  swept-Clear :
      (n : Namespace)
      → (exit_code (prune_orphans O (swept K O threshold n))).1 ≡ 0
      → Clear (exit_code (prune_orphans O (swept K O threshold n))).0
  swept-Clear n z =
      let none_failed : (prune_orphans O (swept K O threshold n)).1 ≡ 0 = exit_code-zero _ z in
      let failures : (swept K O threshold n).1 ≡ 0 = prune_orphans-zero _ none_failed in
      rw
        (
          exit_code-namespace (prune_orphans O (swept K O threshold n)),
          prune_orphans-entries O (swept K O threshold n),
        )
        (
          (λ e m o. swept-clear n e m failures o),
          elim (Bool-cases O.final_listing) [
            | inr f ↦ inl (rw f (and-false O.first_listing))
            | inl f ↦ inr (λ c m.
                elim (Bool-cases (is_orphan (swept K O threshold n).0.entries c)) [
                  | inl t ↦ absurd (prune_orphans-clear (swept K O threshold n) c m none_failed f t)
                  | inr h ↦ h
                ])
          ],
        )

  -- A run that was approved and exits with 0 leaves no finished task that is old enough. It leaves no
  -- container with a task id and no task, if there was a client and both listings of the containers worked.
  pub run-Clear :
      (dry_run skip_prompt : Bool) (n : Namespace)
      → IsApproved O dry_run skip_prompt
      → (run K O threshold dry_run skip_prompt n).1 ≡ 0
      → Clear (run K O threshold dry_run skip_prompt n).0
  run-Clear dry_run skip_prompt n a z = went (run-swept K O threshold dry_run skip_prompt n a) z
    where
      went : {r : Namespace × ℕ} → Went K O threshold n r → r.1 ≡ 0 → Clear r.0
      went (nothing h) k = nothing-Clear n h
      went through k = swept-Clear n k
