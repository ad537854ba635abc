-- ===== src/Numbers/RoundTrip.antt =====
-- A number that is printed and read again.
use Prim.Native.Char.{Char, code}
use Prim.Native.String.{String}
use text.Mathlib.TextLemmas
use mathlib.Core.List.{append_assoc, append-nil}
use neotolis_ai_workbench.Base.{
  ℕ, zero, suc, ◌+◌, ◌*◌, ◌/◌, ◌%◌, ◌<◌, ◌≤◌, ◌≡◌, refl, sym, ap, ◌∙◌, ◌<>◌, List, [], ◌∷◌, ◌++◌,
  inl, inr, arith, Bool-cases, ltb, ltb→lt, if◌then◌else◌, decimal,
}
use neotolis_ai_workbench.Base.Decimal.{digit, digits}
use neotolis_ai_workbench.Numbers.{Digits, IsAscii, number, span}

-- The digits of a number, as `digits` prints them.
values : ℕ → ℕ → List ℕ
values zero n = n ∷ []
values (suc fuel) n =
    let rest = values fuel (n / 10) in if ltb n 10 then n ∷ [] else rest ++ (n % 10) ∷ []

number-append : (acc : ℕ) (xs ys : List ℕ) → number acc (xs ++ ys) ≡ number (number acc xs) ys
unfolding number
number-append acc [] ys = refl
number-append acc (x ∷ xs) ys = number-append (acc * 10 + x) xs ys

number-values : (fuel n : ℕ) → n ≤ fuel → number 0 (values fuel n) ≡ n
unfolding number values
number-values zero n h = omega arith
number-values (suc fuel) n h = elim (Bool-cases (ltb n 10)) [
  | inl e ↦ rw e (omega arith)
  | inr e ↦
      rw (e, number-append 0 (values fuel (n / 10)) ((n % 10) ∷ []))
        (rw (number-values fuel (n / 10) (ground arith)) (omega arith))
]

-- A digit is printed as one character.
digit-char : (d : ℕ) → d < 10 → (c : Char) × (digit d ≡ String.◌∷◌ c "") × (code c ≡ d + 48)
digit-char zero h = ("0", refl, refl)
digit-char (suc zero) h = ("1", refl, refl)
digit-char (suc (suc zero)) h = ("2", refl, refl)
digit-char (suc (suc (suc zero))) h = ("3", refl, refl)
digit-char (suc (suc (suc (suc zero)))) h = ("4", refl, refl)
digit-char (suc (suc (suc (suc (suc zero))))) h = ("5", refl, refl)
digit-char (suc (suc (suc (suc (suc (suc zero)))))) h = ("6", refl, refl)
digit-char (suc (suc (suc (suc (suc (suc (suc zero))))))) h = ("7", refl, refl)
digit-char (suc (suc (suc (suc (suc (suc (suc (suc zero)))))))) h = ("8", refl, refl)
digit-char (suc (suc (suc (suc (suc (suc (suc (suc (suc zero))))))))) h = ("9", refl, refl)
digit-char (suc (suc (suc (suc (suc (suc (suc (suc (suc (suc n)))))))))) h = absurd (omega arith)

module _ (D : Digits) (A : IsAscii D) where
  span-digit :
      (d : ℕ) (t : String) → d < 10 → span D (digit d <> t) ≡ (d ∷ (span D t).0, (span D t).1)
  unfolding span
  span-digit d t h =
      let (c, e, k) = digit-char d h in
      rw (e, TextLemmas.cons-append c "" t, TextLemmas.nil-append t, k, A.digit d h) refl

  span-digits :
      (fuel n : ℕ) (t : String)
      → n ≤ fuel
      → span D (digits fuel n <> t) ≡ (values fuel n ++ (span D t).0, (span D t).1)
  unfolding digits values
  span-digits zero n t h = span-digit n t (omega arith)
  span-digits (suc fuel) n t h = elim (Bool-cases (ltb n 10)) [
    | inl e ↦ rw e (span-digit n t (ltb→lt n 10 e))
    | inr e ↦
        let last = digit (n % 10) <> t in
        rw (e, TextLemmas.append_assoc (digits fuel (n / 10)) (digit (n % 10)) t)
          (span-digits fuel (n / 10) last (ground arith)
            ∙ rw (span-digit (n % 10) t (omega arith)) (
                ap (λ (l : List ℕ). (l, (span D t).1))
                  (sym (append_assoc (values fuel (n / 10)) ((n % 10) ∷ []) (span D t).0))))
  ]

  -- A printed number, in front of a text that begins with no digit, is read back, up to that text.
  pub span-decimal :
      (n : ℕ) (t : String)
      → span D t ≡ ([], t)
      → (number 0 (span D (decimal n <> t)).0 ≡ n) × ((span D (decimal n <> t)).1 ≡ t)
  unfolding decimal
  span-decimal n t h =
      rw (span-digits n n t (omega arith), h, append-nil (values n n))
        (number-values n n (omega arith), refl)

  values-some : (fuel n : ℕ) (l : List ℕ) → values fuel n ++ l ≡ [] → ⊥
  unfolding values
  values-some zero n l h = cc h
  values-some (suc fuel) n l h = elim (Bool-cases (ltb n 10)) [
    | inl e ↦ cc (rw e at h)
    | inr e ↦
        values-some fuel (n / 10) ((n % 10) ∷ l)
          (sym (append_assoc (values fuel (n / 10)) ((n % 10) ∷ []) l) ∙ (rw e at h))
  ]

  -- A printed number has a digit.
  pub span-some : (n : ℕ) (t : String) → (span D (decimal n <> t)).0 ≡ [] → ⊥
  unfolding decimal
  span-some n t h = values-some n n (span D t).0 (rw (span-digits n n t (omega arith)) at h)

  -- A zero in front is a digit more.
  pub span-zero : (t : String) → span D ("0" <> t) ≡ (0 ∷ (span D t).0, (span D t).1)
  span-zero t = span-digit 0 t (omega arith)
