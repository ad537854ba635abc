-- ===== src/Clean/Sweep.antt =====
-- An approved run of `clean`: the loop over the candidates, then the one over the orphans.
use mathlib.Core.List.{Memᴰ}
use mathlib.Core.List.Memᴰ
use mathlib.Core.Path.{subst}
use Prim.Native.String.{String}
use neotolis_ai_workbench.Base.{
  ℕ, ◌≡◌, refl, sym, ◌∙◌, Bool, true, false, not, ◌&&◌, List, [], ◌∷◌, ◌⊎◌, inl, inr, Bool-cases,
  All,
}
use neotolis_ai_workbench.Clean.{
  Namespace, Managed, Outcomes, is_orphan, keep, enumerate_orphans, remove_task, each,
  remove_orphan, prune_orphans, exit_code, nothing_to_do, run,
}
use neotolis_ai_workbench.Clean.Candidates.{Entry, Candidate, Clock, enumerate_candidates}
use neotolis_ai_workbench.Clean.Candidates.Old.{IsOld, Found, enumerate_candidates-Found}
use neotolis_ai_workbench.Clean.Steps.{
  remove_task-entries, remove_task-managed, remove_orphan-entries, remove_orphan-managed,
}
use neotolis_ai_workbench.Clean.Rounds.{each-kept, each-blamed}

-- It is no dry run, and the operator has agreed or was not asked.
abbrev pub IsApproved : Outcomes → Bool → Bool → Type 0
IsApproved O dry_run skip_prompt = (dry_run ≡ false) × (not skip_prompt && not O.confirm ≡ false)

-- An entry of that name is old.
abbrev pub OldName : Clock → ℕ → List Entry → String → Type 0
OldName K threshold entries name =
    (o : Entry) × Memᴰ o entries × IsOld K threshold o × (o.name ≡ name)

-- A container of that name has no task among the entries.
abbrev pub OrphanName : List Entry → List Managed → String → Type 0
OrphanName entries cs name =
    (o : Managed) × Memᴰ o cs × (is_orphan entries o ≡ true) × (o.name ≡ name)

keep-Memᴰ :
    (p : Managed → Bool) (c : Managed) (cs : List Managed)
    → Memᴰ c (keep p cs)
    → Memᴰ c cs × (p c ≡ true)
unfolding keep
keep-Memᴰ p c [] m = absurd (Memᴰ.not-nil m)
keep-Memᴰ p c (x ∷ cs) m = elim (Bool-cases (p x)) [
  | inr n ↦ let (k, h) = keep-Memᴰ p c cs (rw n at m) in (Memᴰ.tail k, h)
  | inl e ↦ elim (Memᴰ.cases_cons (rw e at m)) [
    | inl q ↦ (Memᴰ.head q, rw q e)
    | inr r ↦ let (k, h) = keep-Memᴰ p c cs r in (Memᴰ.tail k, h)
  ]
]

Memᴰ-keep :
    (p : Managed → Bool) (c : Managed) (cs : List Managed)
    → Memᴰ c cs
    → p c ≡ true
    → Memᴰ c (keep p cs)
unfolding keep
Memᴰ-keep p c [] m h = m
Memᴰ-keep p c (x ∷ cs) m h = elim (Bool-cases (p x)) [
  | inl e ↦
      rw e (elim (Memᴰ.cases_cons m) [
        | inl q ↦ Memᴰ.head q
        | inr r ↦ Memᴰ.tail (Memᴰ-keep p c cs r h)
      ])
  | inr n ↦ rw n (elim (Memᴰ.cases_cons m) [
    | inl q ↦ absurd (cc ((rw q at h), n))
    | inr r ↦ Memᴰ-keep p c cs r h
  ])
]

enumerate_orphans-Memᴰ :
    (entries : List Entry) (c : Managed) (listing : Bool) (cs : List Managed)
    → Memᴰ c (enumerate_orphans entries listing cs)
    → Memᴰ c cs × (is_orphan entries c ≡ true)
unfolding enumerate_orphans
enumerate_orphans-Memᴰ entries c false cs m = absurd (Memᴰ.not-nil m)
enumerate_orphans-Memᴰ entries c true cs m = keep-Memᴰ (is_orphan entries) c cs m

pub Memᴰ-enumerate_orphans :
    (entries : List Entry) (c : Managed) (cs : List Managed)
    → Memᴰ c cs
    → is_orphan entries c ≡ true
    → Memᴰ c (enumerate_orphans entries true cs)
unfolding enumerate_orphans
Memᴰ-enumerate_orphans entries c cs m h = Memᴰ-keep (is_orphan entries) c cs m h

All-Memᴰ :
    (P : Candidate → Type 0) (c : Candidate) (cs : List Candidate) → Memᴰ c cs → All P cs → P c
All-Memᴰ P c [] m h = absurd (Memᴰ.not-nil m)
All-Memᴰ P c (x ∷ cs) m (h, hs) = elim (Memᴰ.cases_cons m) [
  | inl q ↦ subst P (sym q) h
  | inr r ↦ All-Memᴰ P c cs r hs
]

pub true-ne-false : true ≡ false → ⊥
true-ne-false h = cc h

pub exit_code-namespace : (r : Namespace × ℕ) → (exit_code r).0 ≡ r.0
unfolding exit_code
exit_code-namespace (n, f) = refl

module _ (O : Outcomes) where
  pub prune_orphans-entries : (r : Namespace × ℕ) → (prune_orphans O r).0.entries ≡ r.0.entries
  unfolding prune_orphans
  prune_orphans-entries (n, f) =
      each-kept (remove_orphan O) (λ r. r.0.entries ≡ n.entries)
        (λ c r h. remove_orphan-entries O c r ∙ h)
        (enumerate_orphans n.entries O.final_listing n.managed) (n, f) refl

  pub prune_orphans-managed :
      (r : Namespace × ℕ) (c : Managed)
      → Memᴰ c (r.0.managed)
      → Memᴰ c ((prune_orphans O r).0.managed) ⊎ OrphanName r.0.entries (r.0.managed) c.name
  unfolding prune_orphans
  prune_orphans-managed (n, f) c m =
      let os = enumerate_orphans n.entries O.final_listing n.managed in
      elim (each-blamed (remove_orphan O) (λ r. Memᴰ c (r.0.managed)) (λ o. c.name ≡ o.name)
        (λ o r. remove_orphan-managed O o r c) os (n, f) m) [
          | inl k ↦ inl k
          | inr (o, k, q) ↦
              let (l, h) = enumerate_orphans-Memᴰ n.entries o O.final_listing n.managed k in
              inr (o, l, h, sym q)
        ]

module _ (K : Clock) (O : Outcomes) (threshold : ℕ) where
  unfoldable pub swept : Namespace → Namespace × ℕ
  swept n = each (remove_task O) (enumerate_candidates K threshold n.entries) (n, 0)

  -- There is nothing to remove; or the run goes on, and the listing decides what is removed.
  pub data Went (n : Namespace) : Namespace × ℕ → Type 0 where
    nothing :
        nothing_to_do
            (enumerate_candidates K threshold n.entries)
            (enumerate_orphans n.entries O.first_listing n.managed)
          ≡ true
        → Went n (n, 0)
    through : Went n (exit_code (prune_orphans O (swept n)))

  pub run-swept :
      (dry_run skip_prompt : Bool) (n : Namespace)
      → IsApproved O dry_run skip_prompt
      → Went n (run K O threshold dry_run skip_prompt n)
  unfolding run swept
  run-swept dry_run skip_prompt n (d, p) =
      let cs = enumerate_candidates K threshold n.entries in
      elim (Bool-cases (nothing_to_do cs (enumerate_orphans n.entries O.first_listing n.managed))) [
        | inl e ↦ rw e (nothing e)
        | inr a ↦ rw (a, d, p) through
      ]

  pub run-cases :
      (dry_run skip_prompt : Bool) (n : Namespace)
      → (run K O threshold dry_run skip_prompt n ≡ (n, 0)) ⊎ IsApproved O dry_run skip_prompt
  unfolding run
  run-cases true skip_prompt n =
      elim (Bool-cases (
        nothing_to_do (enumerate_candidates K threshold n.entries)
          (enumerate_orphans n.entries O.first_listing n.managed))) [
            | inl e ↦ rw e (inl refl)
            | inr a ↦ rw a (inl refl)
          ]
  run-cases false skip_prompt n = elim (Bool-cases (not skip_prompt && not O.confirm)) [
    | inr d ↦ inr (refl, d)
    | inl d ↦
        elim (Bool-cases (
          nothing_to_do (enumerate_candidates K threshold n.entries)
            (enumerate_orphans n.entries O.first_listing n.managed))) [
              | inl e ↦ rw e (inl refl)
              | inr a ↦ rw (a, d) (inl refl)
            ]
  ]

  pub swept-entries :
      (n : Namespace) (e : Entry)
      → Memᴰ e n.entries
      → Memᴰ e (swept n).0.entries ⊎ OldName K threshold n.entries e.name
  unfolding swept
  swept-entries n e m =
      let cs = enumerate_candidates K threshold n.entries in
      elim (each-blamed (remove_task O) (λ r. Memᴰ e r.0.entries) (λ c. e.name ≡ c.task_id)
        (λ c r. remove_task-entries O c r e) cs (n, 0) m) [
          | inl k ↦ inl k
          | inr (c, k, q) ↦
              let (o, l, i, h) =
                All-Memᴰ (Found K threshold (λ e. Memᴰ e n.entries)) c cs k
                  (enumerate_candidates-Found K threshold n.entries) in
              inr (o, l, i, sym h ∙ sym q)
        ]

  pub swept-managed : (n : Namespace) → (swept n).0.managed ≡ n.managed
  unfolding swept
  swept-managed n =
      each-kept (remove_task O) (λ r. r.0.managed ≡ n.managed)
        (λ c r h. remove_task-managed O c r ∙ h) (enumerate_candidates K threshold n.entries) (n, 0)
        refl
