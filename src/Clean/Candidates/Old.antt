-- ===== src/Clean/Candidates/Old.antt =====
-- What `_enumerate_candidates` finds: the finished tasks that are old enough, and all of them.
use mathlib.Core.Path.{subst}
use mathlib.Core.List.{Memᴰ}
use mathlib.Core.List.Memᴰ
use Prim.Native.String.{String}
use neotolis_ai_workbench.Base.{
  ℕ, ◌+◌, ◌≤◌, ◌≡◌, refl, Bool, true, false, Option, none, some, List, [], ◌∷◌, inl, inr, arith,
  Bool-cases, Option-cases, ltb, get_or, str_eq, one_of, All,
}
use neotolis_ai_workbench.Base.Sort.{sorted, insert, text_le, All-sorted}
use neotolis_ai_workbench.Model.{TaskDict}
use neotolis_ai_workbench.Effects.{Result, ok, err}
use neotolis_ai_workbench.Reconcile.{terminal_statuses}
use neotolis_ai_workbench.Clean.Candidates.{
  Entry, Candidate, Clock, candidate, candidate_of, old_enough, collect, enumerate_candidates,
  reference,
}

module _ (K : Clock) (threshold : ℕ) where
  -- A directory with a readable task.json, a terminal status, and a time of reference that lies at
  -- least the threshold before now.
  pub record IsOld (e : Entry) : Type 0 where
    pub dict : TaskDict
    pub at : ℕ
    pub is_dir : e.is_dir ≡ true
    pub reads : e.dict ≡ ok dict
    pub has_ended : one_of (get_or dict.status "") terminal_statuses ≡ true
    pub has_time : str_eq (reference dict) "" ≡ false
    pub time : K.parse_iso (reference dict) ≡ some at
    pub age : at + threshold ≤ K.now

  old_enough-age :
      (name : String) (d : TaskDict) (time : Option ℕ) {c : Candidate}
      → old_enough K threshold name d time ≡ some c
      → (at : ℕ) × (time ≡ some at) × (at + threshold ≤ K.now) × (c.task_id ≡ name)
  unfolding old_enough
  old_enough-age name d none h = cc h
  old_enough-age name d (some at) h = elim (Bool-cases (ltb K.now (at + threshold))) [
    | inl e ↦ cc (rw e at h)
    | inr n ↦ (at, refl, ground arith, cc (rw n at h))
  ]

  candidate_of-IsOld :
      (e : Entry) (d : TaskDict) {c : Candidate}
      → e.is_dir ≡ true
      → e.dict ≡ ok d
      → candidate_of K threshold e.name d ≡ some c
      → IsOld e × (c.task_id ≡ e.name)
  unfolding candidate_of
  candidate_of-IsOld e d i r h = elim (Bool-cases (one_of (get_or d.status "") terminal_statuses)) [
    | inr n ↦ cc (rw n at h)
    | inl t ↦ elim (Bool-cases (str_eq (reference d) "")) [
      | inl n ↦ cc (rw (t, n) at h)
      | inr g ↦
          let (at, p, a, k) =
            old_enough-age e.name d (K.parse_iso (reference d)) (rw (t, g) at h) in
          (
            record {
              dict = d;
              at = at;
              is_dir = i;
              reads = r;
              has_ended = t;
              has_time = g;
              time = p;
              age = a;
            },
            k,
          )
    ]
  ]

  candidate-IsOld :
      (e : Entry) (is_dir : Bool) (r : Result TaskDict) {c : Candidate}
      → e.is_dir ≡ is_dir
      → e.dict ≡ r
      → candidate K threshold e.name is_dir r ≡ some c
      → IsOld e × (c.task_id ≡ e.name)
  unfolding candidate
  candidate-IsOld e true (ok d) i r h = candidate_of-IsOld e d i r h
  candidate-IsOld e true (err x) i r h = cc h
  candidate-IsOld e false r i q h = cc h

  -- Each candidate comes from an old entry of that name.
  abbrev pub Found : (Entry → Type 0) → Candidate → Type 0
  Found Q c = (e : Entry) × Q e × IsOld e × (c.task_id ≡ e.name)

  collect-Found :
      (Q : Entry → Type 0) (entries : List Entry)
      → All Q entries
      → All (Found Q) (collect K threshold entries)
  unfolding collect
  collect-Found Q [] h = tt
  collect-Found Q (e ∷ entries) (h, hs) =
      elim (Option-cases (candidate K threshold e.name e.is_dir e.dict)) [
        | inl n ↦ rw (n, All) (collect-Found Q entries hs)
        | inr (c, k) ↦
            let (o, i) = candidate-IsOld e e.is_dir e.dict refl refl k in
            rw (k, All) ((e, h, o, i), collect-Found Q entries hs)
      ]

  Memᴰ-All :
      (entries l : List Entry)
      → ((e : Entry) → Memᴰ e l → Memᴰ e entries)
      → All (λ e. Memᴰ e entries) l
  Memᴰ-All entries [] f = tt
  Memᴰ-All entries (e ∷ l) f = (f e (Memᴰ.head refl), Memᴰ-All entries l (λ o m. f o (Memᴰ.tail m)))

  -- The candidates are old entries of the directory.
  pub enumerate_candidates-Found :
      (entries : List Entry)
      → All (Found (λ e. Memᴰ e entries)) (enumerate_candidates K threshold entries)
  unfolding enumerate_candidates
  enumerate_candidates-Found entries =
      let by_name = λ (e f : Entry). text_le e.name f.name in
      collect-Found (λ e. Memᴰ e entries) (sorted by_name entries)
        (All-sorted by_name (λ e. Memᴰ e entries) entries (Memᴰ-All entries entries (λ e m. m)))

  -- What a candidate is an old entry for, the other way round.
  abbrev pub Listed : String → List Candidate → Type 0
  Listed name cs = (c : Candidate) × Memᴰ c cs × (c.task_id ≡ name)

  candidate_of-task_id :
      (e : Entry) (d : TaskDict) (at : ℕ)
      → one_of (get_or d.status "") terminal_statuses ≡ true
      → str_eq (reference d) "" ≡ false
      → K.parse_iso (reference d) ≡ some at
      → at + threshold ≤ K.now
      → (c : Candidate) × (candidate_of K threshold e.name d ≡ some c) × (c.task_id ≡ e.name)
  unfolding candidate_of old_enough
  candidate_of-task_id e d at t g p a =
      let n : ltb K.now (at + threshold) ≡ false = ground arith in rw (t, g, p, n) (_, refl, refl)

  candidate-task_id :
      (e : Entry)
      → IsOld e
      → (c : Candidate) × (candidate K threshold e.name e.is_dir e.dict ≡ some c)
        × (c.task_id ≡ e.name)
  unfolding candidate
  candidate-task_id e o =
      rw (o.is_dir, o.reads)
        (candidate_of-task_id e o.dict o.at o.has_ended o.has_time o.time o.age)

  Memᴰ-insert :
      (le : Entry → Entry → Bool) (e x : Entry) (ys : List Entry)
      → Memᴰ e (x ∷ ys)
      → Memᴰ e (insert le x ys)
  unfolding insert
  Memᴰ-insert le e x [] m = m
  Memᴰ-insert le e x (y ∷ ys) m = elim (Bool-cases (le x y)) [
    | inl t ↦ rw t m
    | inr n ↦ rw n (elim (Memᴰ.cases_cons m) [
      | inl q ↦ Memᴰ.tail (Memᴰ-insert le e x ys (Memᴰ.head q))
      | inr r ↦ elim (Memᴰ.cases_cons r) [
        | inl q ↦ Memᴰ.head q
        | inr u ↦ Memᴰ.tail (Memᴰ-insert le e x ys (Memᴰ.tail u))
      ]
    ])
  ]

  Memᴰ-sorted :
      (le : Entry → Entry → Bool) (e : Entry) (xs : List Entry) → Memᴰ e xs → Memᴰ e (sorted le xs)
  unfolding sorted
  Memᴰ-sorted le e [] m = m
  Memᴰ-sorted le e (x ∷ xs) m =
      Memᴰ-insert le e x (sorted le xs) (elim (Memᴰ.cases_cons m) [
        | inl q ↦ Memᴰ.head q
        | inr r ↦ Memᴰ.tail (Memᴰ-sorted le e xs r)
      ])

  further :
      (name : String) (c : Candidate) (cs : List Candidate) → Listed name cs → Listed name (c ∷ cs)
  further name c cs (d, m, q) = (d, Memᴰ.tail m, q)

  collect-skip :
      (name : String) (x : Entry) (entries : List Entry)
      → Listed name (collect K threshold entries)
      → Listed name (collect K threshold (x ∷ entries))
  unfolding collect
  collect-skip name x entries l =
      elim (Option-cases (candidate K threshold x.name x.is_dir x.dict)) [
        | inl n ↦ rw (n, collect) l
        | inr (c, k) ↦ rw (k, collect) (further name c (collect K threshold entries) l)
      ]

  collect-here :
      (e : Entry) (entries : List Entry)
      → IsOld e
      → Listed e.name (collect K threshold (e ∷ entries))
  unfolding collect
  collect-here e entries o =
      let (c, k, q) = candidate-task_id e o in rw (k, collect) (c, Memᴰ.head refl, q)

  collect-Listed :
      (e : Entry) (entries : List Entry)
      → IsOld e
      → Memᴰ e entries
      → Listed e.name (collect K threshold entries)
  collect-Listed e [] o m = absurd (Memᴰ.not-nil m)
  collect-Listed e (x ∷ entries) o m = elim (Memᴰ.cases_cons m) [
    | inl q ↦
        subst (λ y. Listed e.name (collect K threshold (y ∷ entries))) q (collect-here e entries o)
    | inr r ↦ collect-skip e.name x entries (collect-Listed e entries o r)
  ]

  -- Each old entry is a candidate.
  pub enumerate_candidates-Listed :
      (e : Entry) (entries : List Entry)
      → IsOld e
      → Memᴰ e entries
      → Listed e.name (enumerate_candidates K threshold entries)
  unfolding enumerate_candidates
  enumerate_candidates-Listed e entries o m =
      let by_name = λ (e f : Entry). text_le e.name f.name in
      collect-Listed e (sorted by_name entries) o (Memᴰ-sorted by_name e entries m)
