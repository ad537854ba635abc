-- ===== src/Numbers.antt =====
-- How Python reads natural numbers from texts: `\d`, `str.isdigit` and `int`. What they do outside
-- ASCII is a parameter.
pub mod RoundTrip
use Prim.Native.Char.{Char, code}
use Prim.Native.String
use Prim.Native.String.{String}
use neotolis_ai_workbench.Base.{
  ℕ, ◌+◌, ◌-◌, ◌*◌, ◌<◌, ◌≡◌, Bool, true, false, ◌&&◌, ◌||◌, Option, none, some, List, [], ◌∷◌, leb,
}

-- The value of a decimal digit, by its code point (`\d`, which `int` reads), and the other characters
-- for which `isdigit` holds, which `int` does not read.
pub record Digits : Type 0 where
  pub value : ℕ → Option ℕ
  pub other_digit : ℕ → Bool

-- What holds of ASCII: the ten digits have their values, and no other character has one.
pub record IsAscii (D : Digits) : Type 0 where
  pub digit : (n : ℕ) → n < 10 → D.value (n + 48) ≡ some n
  pub no_value : (c : ℕ) → c < 128 → (leb b'0' c && leb c b'9') ≡ false → D.value c ≡ none

-- The number with these digits, after those that are read.
unfoldable pub number : ℕ → List ℕ → ℕ
number acc [] = acc
number acc (d ∷ ds) = number (acc * 10 + d) ds

module _ (D : Digits) where
  start : Option ℕ → Char → String → List ℕ × String → List ℕ × String
  start none c s (ds, rest) = ([], String.◌∷◌ c s)
  start (some d) c s (ds, rest) = (d ∷ ds, rest)

  -- The longest `\d*` at the front, and the rest.
  unfoldable pub span : String → List ℕ × String
  unfolding start
  span String.[] = ([], String.[])
  span (String.◌∷◌ c s) = start (D.value (code c)) c s (span s)
