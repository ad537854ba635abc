-- ===== src/Ids/Allocate/Fresh.antt =====
-- An id that is allocated is new.
use Prim.Native.String.{String}
use text.Mathlib.TextLemmas
use mathlib.Core.Option.{some-injective}
use text.Mathlib.TextPositions.{starts_with-append}
use neotolis_ai_workbench.Base.{
  ℕ, ◌<◌, ◌≡◌, ◌≢◌, ◌∙◌, refl, sym, ap, ◌<>◌, true, false, Option, none, some, List, inl, inr,
  arith, one_of, decimal, Bool-cases, Option-cases,
}
use neotolis_ai_workbench.Base.Integers.{ℤ, pos, negsuc, int_text}
use neotolis_ai_workbench.Numbers.{Digits, IsAscii, number, span}
use neotolis_ai_workbench.Ids.{validate_project_alias, validate_task_id}
use neotolis_ai_workbench.Ids.Allocate.{
  after_dash, existing_ids, maximum, next, next_candidate, zero_padded, padded, allocated,
  publish_id, numbered, read_counter, allocate_task_id,
}
use neotolis_ai_workbench.Ids.Allocate.Suffix.{
  after_dash-append, span-zero_padded, zero_padded-suffix, existing_ids-maximum, next-lt,
}

-- What `allocate_task_id` has done when it returns.
pub record Allocated (counter : ℕ) (names : List String) (project id text : String) : Type 0 where
  pub number : ℕ
  pub shape : id ≡ (project <> "-") <> zero_padded number
  pub grows : counter < number
  pub written : text ≡ decimal number
  pub is_new : one_of id names ≡ false
  pub is_valid : validate_task_id id ≡ true

pos-inj : {m n : ℕ} → pos m ≡ pos n → m ≡ n
pos-inj h = cc h

module _ (D : Digits) (A : IsAscii D) where
  -- An id of the project with that number is among the names only if the loop found as large a number.
  fresh_name :
      (project : String) (n : ℕ) (names : List String) (l : List ℕ)
      → existing_ids D project names ≡ some l
      → maximum l < n
      → one_of ((project <> "-") <> zero_padded n) names ≡ false
  fresh_name project n names l e h =
      let id = (project <> "-") <> zero_padded n in
      let (d, i, f) = zero_padded-suffix D A n in
      let s : after_dash id ≡ zero_padded n =
        rw (TextLemmas.append_assoc project "-" (zero_padded n))
          (after_dash-append project (zero_padded n) f) in
      elim (Bool-cases (one_of id names)) [
        | inr k ↦ k
        | inl m ↦ absurd (
            omega (
              arith,
              existing_ids-maximum D A project id n names l
                  (starts_with-append (project <> "-") (zero_padded n)) (rw s d) (rw s i) e m,
            ))
      ]

  allocated-inj : {a b c d : String} → allocated a b ≡ allocated c d → (a ≡ c) × (b ≡ d)
  allocated-inj h = (cc h, cc h)

  numbered-Allocated :
      (names : List String) (project id text : String) (counter : ℕ) (l : Option (List ℕ))
      → existing_ids D project names ≡ l
      → numbered project (some (pos counter)) l ≡ allocated id text
      → Allocated counter names project id text
  unfolding numbered publish_id next_candidate padded int_text
  numbered-Allocated names project id text counter none e h = cc h
  numbered-Allocated names project id text counter (some l) e h =
      let n = next counter l in
      let (a, b) = next-lt D A counter l in
      elim (Bool-cases (validate_task_id ((project <> "-") <> zero_padded n))) [
        | inr v ↦ cc (rw v at h)
        | inl v ↦
            let k = rw v at h in
            let (p, q) = allocated-inj k in
            record {
              number = n;
              shape = sym p;
              grows = b;
              written = sym q;
              is_new = rw (← p) (fresh_name project n names l e a);
              is_valid = rw (← p) v;
            }
      ]

  -- Let the counter in the file not be negative. An id that `allocate_task_id` returns is the
  -- project with a number in three digits or more, is a valid task id, and no name in tasks/;
  -- the number is larger than the counter was, and is what the counter file holds afterwards.
  pub allocate_task_id-Allocated :
      (read_int : String → Option ℤ) (counter : Option String) (names : List String)
      (project id text : String)
      → ((k : ℕ) → read_counter read_int counter ≢ some (negsuc k))
      → allocate_task_id D read_int counter names project ≡ allocated id text
      → (n : ℕ) × (read_counter read_int counter ≡ some (pos n)) × Allocated n names project id text
  unfolding allocate_task_id numbered
  allocate_task_id-Allocated read_int counter names project id text plus h =
      elim (Bool-cases (validate_project_alias project)) [
        | inr v ↦ cc (rw v at h)
        | inl v ↦ elim (Option-cases (read_counter read_int counter)) [
          | inl r ↦ cc (rw (v, r) at h)
          | inr (negsuc k, r) ↦ absurd (plus k r)
          | inr (pos n, r) ↦ (
            n,
            r,
            numbered-Allocated names project id text n (existing_ids D project names) refl
                (rw (v, r) at h),
          )
        ]
      ]

  zero_padded-inj : (m n : ℕ) → zero_padded m ≡ zero_padded n → m ≡ n
  zero_padded-inj m n h =
      sym (span-zero_padded D A m).0
      ∙ ap (λ s. number 0 (span D s).0) h
      ∙ (span-zero_padded D A n).0

  -- Let the counter in the file not be negative, and `int` read a printed number back. Two ids
  -- of a project are different if the second was allocated from the counter file that the first
  -- one left, even if the folder of the first is gone by then.
  pub allocate_task_id-ne :
      (read_int : String → Option ℤ) (counter : Option String) (names names' : List String)
      (project id id' text text' : String)
      → ((k : ℕ) → read_counter read_int counter ≢ some (negsuc k))
      → ((n : ℕ) → read_int (decimal n) ≡ some (pos n))
      → allocate_task_id D read_int counter names project ≡ allocated id text
      → allocate_task_id D read_int (some text) names' project ≡ allocated id' text'
      → id ≢ id'
  unfolding read_counter
  allocate_task_id-ne read_int counter names names' project id id' text text' plus r h h' e =
      let (n, _, a) = allocate_task_id-Allocated read_int counter names project id text plus h in
      let (n', c, a') =
        allocate_task_id-Allocated read_int (some text) names' project id' text'
          (λ k q. cc (q, a.written, r a.number)) h' in
      let same = zero_padded-inj a.number a'.number (
        TextLemmas.append_cancel_left (project <> "-") (zero_padded a.number)
          (zero_padded a'.number) (sym a.shape ∙ e ∙ a'.shape)) in
      let q : n' ≡ a.number = pos-inj (some-injective _ _ (sym c ∙ rw a.written (r a.number))) in
      omega (arith, a'.grows, same, q)
