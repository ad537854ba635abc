-- ===== src/Ids/Allocate/Suffix.antt =====
-- The number in an id is read back, and the loop over the names finds it.
use Prim.Native.Char.{code}
use Prim.Native.String.{String}
use text.Mathlib.Text.{starts_with}
use text.Mathlib.TextLemmas
use neotolis_ai_workbench.Base.{
  ℕ, ◌+◌, ◌≤◌, ◌<◌, ◌≡◌, ◌∙◌, refl, ap, ◌<>◌, Bool, true, false, ◌&&◌, ◌||◌, Option, none, some,
  List, [], ◌∷◌, inl, inr, arith, ltb, ◌==◌, str_eq, one_of, decimal, Bool-cases, Option-cases,
  str-cases,
}
use neotolis_ai_workbench.Numbers.{Digits, IsAscii, number, span}
use neotolis_ai_workbench.Numbers.RoundTrip.{span-decimal, span-some, span-zero}
use neotolis_ai_workbench.Ids.Allocate.{
  has_dash, after_dash, is_digit_at, all_digits, is_digits, int_of, cons_if, existing_ids, max,
  maximum, next, zero_padded,
}

dash-cons : (s : String) → "-" <> s ≡ String.◌∷◌ "-" s
dash-cons s = TextLemmas.cons-append "-" "" s ∙ ap (String.◌∷◌ "-") (TextLemmas.nil-append s)

has_dash-append : (p s : String) → has_dash (p <> ("-" <> s)) ≡ true
unfolding has_dash
has_dash-append String.[] s = rw (TextLemmas.nil-append ("-" <> s), dash-cons s) refl
has_dash-append (String.◌∷◌ c p) s =
    rw (TextLemmas.cons-append c p ("-" <> s), has_dash-append p s) (ground arith)

pub after_dash-append : (p s : String) → has_dash s ≡ false → after_dash (p <> ("-" <> s)) ≡ s
unfolding after_dash
after_dash-append String.[] s h = rw (TextLemmas.nil-append ("-" <> s), dash-cons s, h) refl
after_dash-append (String.◌∷◌ c p) s h =
    rw (TextLemmas.cons-append c p ("-" <> s), has_dash-append p s) (after_dash-append p s h)

or_no : (a b : Bool) → a ≡ false → b ≡ false → (a || b) ≡ false
or_no a b h k = rw (h, k) refl

pub some-inj : (a b : ℕ) → some a ≡ some b → a ≡ b
some-inj a b h = cc h

module _ (D : Digits) (A : IsAscii D) where
  value-dash : (c : ℕ) (n : ℕ) → D.value c ≡ some n → (c == b'-') ≡ false
  value-dash c n v = elim (Bool-cases (c == b'-')) [
    | inr h ↦ h
    | inl e ↦
        let q : c ≡ b'-' = ground arith in
        absurd (cc ((rw q at v), A.no_value b'-' (omega arith) refl))
  ]

  -- A text that is read to its end has digits only.
  span-all : (s : String) → (span D s).1 ≡ "" → (all_digits D s ≡ true) × (has_dash s ≡ false)
  unfolding span all_digits has_dash is_digit_at
  span-all String.[] h = (refl, refl)
  span-all (String.◌∷◌ c s) h = elim (Option-cases (D.value (code c))) [
    | inl v ↦ cc (rw v at h)
    | inr (n, v) ↦
        let (a, d) = span-all s (rw v at h) in
        ((rw (is_digit_at, v) a), or_no (code c == b'-') (has_dash s) (value-dash (code c) n v) d)
  ]

  pub span-zero_padded :
      (n : ℕ) → (number 0 (span D (zero_padded n)).0 ≡ n) × ((span D (zero_padded n)).1 ≡ "")
  unfolding zero_padded number span
  span-zero_padded n =
      let (e, r) = span-decimal D A n "" refl in
      let q = TextLemmas.append-nil (decimal n) in
      elim (Bool-cases (ltb n 10)) [
        | inl h ↦
            rw (h, span-zero D A ("0" <> decimal n), span-zero D A (decimal n))
              (rw q at e, rw q at r)
        | inr h ↦ elim (Bool-cases (ltb n 100)) [
          | inl k ↦ rw (h, k, span-zero D A (decimal n)) (rw q at e, rw q at r)
          | inr k ↦ rw (h, k) (rw q at e, rw q at r)
        ]
      ]

  zero_padded-some : (n : ℕ) → (span D (zero_padded n)).0 ≡ [] → ⊥
  unfolding zero_padded
  zero_padded-some n e =
      let s = span-some D A n "" in
      let q = TextLemmas.append-nil (decimal n) in
      elim (Bool-cases (ltb n 10)) [
        | inl h ↦ cc (rw (h, span-zero D A ("0" <> decimal n)) at e)
        | inr h ↦ elim (Bool-cases (ltb n 100)) [
          | inl k ↦ cc (rw (h, k, span-zero D A (decimal n)) at e)
          | inr k ↦ s (rw q (rw (h, k) at e))
        ]
      ]

  zero_padded-ne : (n : ℕ) → str_eq (zero_padded n) "" ≡ false
  unfolding span
  zero_padded-ne n = elim (str-cases (zero_padded n) "") [
    | inl e ↦ absurd (zero_padded-some n (rw e refl))
    | inr h ↦ h
  ]

  -- What the loop over the names makes of a printed number.
  pub zero_padded-suffix :
      (n : ℕ)
      → (is_digits D (zero_padded n) ≡ true)
        × (int_of D (zero_padded n) ≡ some n)
        × (has_dash (zero_padded n) ≡ false)
  unfolding is_digits int_of
  zero_padded-suffix n =
      let (e, r) = span-zero_padded n in
      let (a, d) = span-all (zero_padded n) r in (rw (zero_padded-ne n, a) refl, rw (r, e) refl, d)

  max_left : (a b : ℕ) → a ≤ max a b
  max_left a b = ground arith

  max_right : (a b : ℕ) → b ≤ max a b
  max_right a b = ground arith

  cons_if-some :
      (o : Option ℕ) (rest : Option (List ℕ)) {l : List ℕ}
      → cons_if o rest ≡ some l
      → (n : ℕ) × (ns : List ℕ) × (o ≡ some n) × (rest ≡ some ns) × (l ≡ n ∷ ns)
  unfolding cons_if
  cons_if-some (some n) (some ns) h = (n, ns, refl, refl, cc h)
  cons_if-some none rest h = cc h
  cons_if-some (some n) none h = cc h

  -- The maximum bounds the number of every id of the project.
  pub existing_ids-maximum :
      (project name : String) (n : ℕ) (names : List String) (l : List ℕ)
      → starts_with name (project <> "-") ≡ true
      → is_digits D (after_dash name) ≡ true
      → int_of D (after_dash name) ≡ some n
      → existing_ids D project names ≡ some l
      → one_of name names ≡ true
      → n ≤ maximum l
  unfolding existing_ids maximum
  existing_ids-maximum project name n [] l p d i e m = cc m
  existing_ids-maximum project name n (x ∷ names) l p d i e m = elim (str-cases name x) [
    | inl q ↦
        let (k, ns, a, b, c) =
          cons_if-some (some n) (existing_ids D project names) (rw (← q, p, d, i) at e) in
        rw c (omega (arith, max_left k (maximum ns), some-inj n k a))
    | inr q ↦ elim (Bool-cases (starts_with x (project <> "-") && is_digits D (after_dash x))) [
      | inl t ↦
          let (k, ns, a, b, c) =
            cons_if-some (int_of D (after_dash x)) (existing_ids D project names) (rw t at e) in
          rw c (
            omega (
              arith,
              max_right k (maximum ns),
              existing_ids-maximum project name n names ns p d i b (rw q at m),
            ))
      | inr t ↦ existing_ids-maximum project name n names l p d i (rw t at e) (rw q at m)
    ]
  ]

  pub next-lt :
      (counter : ℕ) (l : List ℕ) → (maximum l < next counter l) × (counter < next counter l)
  unfolding next maximum
  next-lt counter [] = (omega arith, omega arith)
  next-lt counter (n ∷ ns) =
      let m = max n (maximum ns) in
      (
        omega (arith, max_right (counter + 1) (m + 1)),
        omega (arith, max_left (counter + 1) (m + 1)),
      )
