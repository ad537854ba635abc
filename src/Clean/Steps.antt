-- ===== src/Clean/Steps.antt =====
-- One round of `clean`'s loops: what it removes, and what it leaves.
use mathlib.Core.List.{Memᴰ}
use mathlib.Core.List.Memᴰ
use Prim.Native.String.{String}
use neotolis_ai_workbench.Base.{
  ℕ, ◌≡◌, refl, ◌∙◌, false, List, [], ◌∷◌, ◌⊎◌, inl, inr, arith, Bool-cases, str_eq, eq_iff, ap,
}
use neotolis_ai_workbench.Clean.{Namespace, Managed, Outcomes, without, remove_task, remove_orphan}
use neotolis_ai_workbench.Clean.Candidates.{Entry, Candidate}

module _ {A : Type 0} (name_of : A → String) (name : String) where
  without-Memᴰ :
      (x : A) (xs : List A) → Memᴰ x xs → Memᴰ x (without name_of name xs) ⊎ (name_of x ≡ name)
  unfolding without
  without-Memᴰ x [] m = inl m
  without-Memᴰ x (y ∷ ys) m = elim (Bool-cases (str_eq (name_of y) name)) [
    | inl e ↦ rw e (elim (Memᴰ.cases_cons m) [
      | inl q ↦ inr (ap name_of q ∙ (eq_iff (name_of y) name).0 e)
      | inr r ↦ without-Memᴰ x ys r
    ])
    | inr n ↦ rw n (elim (Memᴰ.cases_cons m) [
      | inl q ↦ inl (Memᴰ.head q)
      | inr r ↦ elim (without-Memᴰ x ys r) [ inl k ↦ inl (Memᴰ.tail k) | inr k ↦ inr k ]
    ])
  ]

  without-ne :
      (x : A) (xs : List A)
      → Memᴰ x (without name_of name xs)
      → Memᴰ x xs × (str_eq (name_of x) name ≡ false)
  unfolding without
  without-ne x [] m = absurd (Memᴰ.not-nil m)
  without-ne x (y ∷ ys) m = elim (Bool-cases (str_eq (name_of y) name)) [
    | inl e ↦ let (k, h) = without-ne x ys (rw e at m) in (Memᴰ.tail k, h)
    | inr n ↦ elim (Memᴰ.cases_cons (rw n at m)) [
      | inl q ↦ (Memᴰ.head q, rw q n)
      | inr r ↦ let (k, h) = without-ne x ys r in (Memᴰ.tail k, h)
    ]
  ]

module _ (O : Outcomes) where
  -- One round leaves every entry but that of its candidate.
  pub remove_task-entries :
      (c : Candidate) (r : Namespace × ℕ) (e : Entry)
      → Memᴰ e r.0.entries
      → Memᴰ e (remove_task O c r).0.entries ⊎ (e.name ≡ c.task_id)
  unfolding remove_task
  remove_task-entries c (n, f) e m = elim (Bool-cases (O.rmtree c.task_id)) [
    | inl t ↦ rw t (without-Memᴰ (λ e. e.name) c.task_id e n.entries m)
    | inr t ↦ rw t (inl m)
  ]

  -- A round without a failure leaves no entry of that name.
  pub remove_task-cleared :
      (c : Candidate) (r : Namespace × ℕ) (e : Entry)
      → Memᴰ e (remove_task O c r).0.entries × ((remove_task O c r).1 ≡ 0)
      → (Memᴰ e r.0.entries × (r.1 ≡ 0)) × (str_eq e.name c.task_id ≡ false)
  unfolding remove_task
  remove_task-cleared c (n, f) e (m, z) = elim (Bool-cases (O.rmtree c.task_id)) [
    | inl t ↦
        let (k, h) = without-ne (λ e. e.name) c.task_id e n.entries (rw t at m) in
        ((k, rw t at z), h)
    | inr t ↦ absurd (omega (arith, (rw t at z)))
  ]

  pub remove_task-managed :
      (c : Candidate) (r : Namespace × ℕ) → (remove_task O c r).0.managed ≡ r.0.managed
  unfolding remove_task
  remove_task-managed c (n, f) = elim (Bool-cases (O.rmtree c.task_id)) [
    | inl t ↦ rw t refl
    | inr t ↦ rw t refl
  ]

  pub remove_orphan-entries :
      (c : Managed) (r : Namespace × ℕ) → (remove_orphan O c r).0.entries ≡ r.0.entries
  unfolding remove_orphan
  remove_orphan-entries c (n, f) = elim (Bool-cases (O.remove c)) [
    | inl t ↦ rw t refl
    | inr t ↦ rw t refl
  ]

  pub remove_orphan-managed :
      (o : Managed) (r : Namespace × ℕ) (c : Managed)
      → Memᴰ c r.0.managed
      → Memᴰ c (remove_orphan O o r).0.managed ⊎ (c.name ≡ o.name)
  unfolding remove_orphan
  remove_orphan-managed o (n, f) c m = elim (Bool-cases (O.remove o)) [
    | inl t ↦ rw t (without-Memᴰ (λ c. c.name) o.name c n.managed m)
    | inr t ↦ rw t (inl m)
  ]

  pub remove_orphan-cleared :
      (o : Managed) (r : Namespace × ℕ) (c : Managed)
      → Memᴰ c (remove_orphan O o r).0.managed × ((remove_orphan O o r).1 ≡ 0)
      → (Memᴰ c r.0.managed × (r.1 ≡ 0)) × (str_eq c.name o.name ≡ false)
  unfolding remove_orphan
  remove_orphan-cleared o (n, f) c (m, z) = elim (Bool-cases (O.remove o)) [
    | inl t ↦
        let (k, h) = without-ne (λ c. c.name) o.name c n.managed (rw t at m) in ((k, rw t at z), h)
    | inr t ↦ absurd (omega (arith, (rw t at z)))
  ]

  pub remove_orphan-zero : (c : Managed) (r : Namespace × ℕ) → (remove_orphan O c r).1 ≡ 0 → r.1 ≡ 0
  unfolding remove_orphan
  remove_orphan-zero c (n, f) h = elim (Bool-cases (O.remove c)) [
    | inl t ↦ rw t at h
    | inr t ↦ absurd (omega (arith, (rw t at h)))
  ]
