-- ===== src/Clean/Candidates/Threshold.antt =====
-- `--older-than`, read back.
use Prim.Native.String.{String}
use neotolis_ai_workbench.Base.{
  ℕ, ◌*◌, ◌≡◌, refl, ◌<>◌, some, List, [], ◌∷◌, inl, inr, arith, str-cases, decimal,
}
use neotolis_ai_workbench.Numbers.{Digits, IsAscii, number, span}
use neotolis_ai_workbench.Numbers.RoundTrip.{span-decimal, span-some}
use neotolis_ai_workbench.Clean.Candidates.{
  timedelta, unit_seconds, seconds_by, aged, parse_older_than,
}

module _ (D : Digits) (A : IsAscii D) where
  -- A unit begins with no digit.
  span-unit :
      (unit : String) {seconds : ℕ} → unit_seconds unit ≡ some seconds → span D unit ≡ ([], unit)
  unfolding span unit_seconds
  span-unit unit h = elim (str-cases unit "s") [
    | inl e ↦ rw (e, A.no_value b's' (omega arith) refl)
    | inr n₁ ↦ elim (str-cases unit "m") [
      | inl e ↦ rw (e, A.no_value b'm' (omega arith) refl)
      | inr n₂ ↦ elim (str-cases unit "h") [
        | inl e ↦ rw (e, A.no_value b'h' (omega arith) refl)
        | inr n₃ ↦ elim (str-cases unit "d") [
          | inl e ↦ rw (e, A.no_value b'd' (omega arith) refl)
          | inr n₄ ↦ elim (str-cases unit "w") [
            | inl e ↦ rw (e, A.no_value b'w' (omega arith) refl)
            | inr n₅ ↦ absurd (cc (rw (n₁, n₂, n₃, n₄, n₅) at h))
          ]
        ]
      ]
    ]
  ]

  aged-unit :
      (ds : List ℕ) (unit : String) (n : ℕ) {seconds : ℕ}
      → number 0 ds ≡ n
      → (ds ≡ [] → ⊥)
      → unit_seconds unit ≡ some seconds
      → aged ds unit ≡ timedelta (n * seconds)
  unfolding aged seconds_by
  aged-unit [] unit n e p u = absurd (p refl)
  aged-unit (d ∷ ds) unit n e p u = rw (u, e) refl

  -- A number and a unit, written together, are read as that many seconds of that unit, if a time
  -- difference can be as long; otherwise the result is the OverflowError of `timedelta`.
  pub parse_older_than-decimal :
      (strip : String → String) (n : ℕ) (unit : String) {seconds : ℕ}
      → unit_seconds unit ≡ some seconds
      → strip (decimal n <> unit) ≡ decimal n <> unit
      → parse_older_than D strip (decimal n <> unit) ≡ timedelta (n * seconds)
  unfolding parse_older_than
  parse_older_than-decimal strip n unit u s =
      let (e, r) = span-decimal D A n unit (span-unit unit u) in
      rw (s, r) (aged-unit (span D (decimal n <> unit)).0 unit n e (span-some D A n unit) u)
