-- ===== src/Output/LineEnds.antt =====
-- What a file that is opened as text gives for the line ends of the log.
use Prim.Native.Char.{Char, code}
use Prim.Native.String.{String}
use neotolis_ai_workbench.Base.{
  ◌≡◌, refl, ◌<>◌, Bool, true, false, ◌==◌, arith, Bool-cases, inl, inr,
}
use neotolis_ai_workbench.Output.{universal, as_text}

pub starts_with_newline : String → Bool
starts_with_newline String.[] = false
starts_with_newline (String.◌∷◌ c s) = code c == 10

-- Each `\r\n`, and each `\r` with no `\n` after it, is a `\n` in the text; every other character is kept.
pub data LineEnds : String → String → Type 0 where
  nothing : LineEnds "" ""
  both :
      {r n : Char} {s t : String}
      → code r == 13 ≡ true
      → code n == 10 ≡ true
      → LineEnds s t
      → LineEnds (String.◌∷◌ r (String.◌∷◌ n s)) ("\n" <> t)
  alone :
      {r : Char} {s t : String}
      → code r == 13 ≡ true
      → starts_with_newline s ≡ false
      → LineEnds s t
      → LineEnds (String.◌∷◌ r s) ("\n" <> t)
  kept :
      {c : Char} {s t : String}
      → code c == 13 ≡ false
      → LineEnds s t
      → LineEnds (String.◌∷◌ c s) (String.◌∷◌ c t)

no_newline : (c : Char) → code c == 13 ≡ true → code c == 10 ≡ false
no_newline c h = ground arith

universal-LineEnds :
    (s : String)
    → LineEnds s (universal false s)
      × ((r : Char) → code r == 13 ≡ true → LineEnds (String.◌∷◌ r s) ("\n" <> universal true s))
unfolding universal starts_with_newline
universal-LineEnds String.[] = (nothing, λ r e. alone e refl nothing)
universal-LineEnds (String.◌∷◌ c s) =
    let (plain, returned) = universal-LineEnds s in
    elim (Bool-cases (code c == 13)) [
      | inl e ↦ rw e (returned c e, λ r h. alone h (no_newline c e) (returned c e))
      | inr n ↦ elim (Bool-cases (code c == 10)) [
        | inl e ↦ rw (n, e) (kept n plain, λ r h. both h e plain)
        | inr m ↦ rw (n, m) (kept n plain, λ r h. alone h m (kept n plain))
      ]
    ]

pub as_text-LineEnds : (log : String) → LineEnds log (as_text log)
unfolding as_text
as_text-LineEnds log = (universal-LineEnds log).0
