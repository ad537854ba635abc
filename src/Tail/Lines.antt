-- ===== src/Tail/Lines.antt =====
-- Python's `split(b"\n")` on bytes, and the two ends of a list.
use neotolis_ai_workbench.Base.{ℕ, List, [], ◌∷◌, ◌==◌}
use neotolis_ai_workbench.Base.{if◌then◌else◌}

abbrev pub Bytes : Type 0
Bytes = List ℕ

abbrev pub newline : ℕ
newline = 10

-- Puts a byte in front of the first line.
unfoldable pub prepend : ℕ → List Bytes → List Bytes
prepend c [] = (c ∷ []) ∷ []
prepend c (l ∷ ls) = (c ∷ l) ∷ ls

unfoldable pub split : Bytes → List Bytes
unfolding prepend
split [] = [] ∷ []
split (c ∷ s) = let rest = split s in if c == newline then [] ∷ rest else prepend c rest

-- `lines[:-1]`
unfoldable pub init : List Bytes → List Bytes
init [] = []
init (l ∷ []) = []
init (l ∷ m ∷ ls) = l ∷ init (m ∷ ls)

-- `lines[-1]`
unfoldable pub last : List Bytes → Bytes
last [] = []
last (l ∷ []) = l
last (l ∷ m ∷ ls) = last (m ∷ ls)
