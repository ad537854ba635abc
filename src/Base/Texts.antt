-- ===== src/Base/Texts.antt =====
-- Python's operations on texts that the components share.
use Prim.Native.Char.{code}
use Prim.Native.String.{String}
use Prim.Native.Nat.{ℕ, zero, suc}
use mathlib.Core.List.{List, [], ◌∷◌}
use neotolis_ai_workbench.Base.Tests.{◌==◌, if◌then◌else◌}

-- `text[n:]`.
unfoldable pub text_after : ℕ → String → String
text_after zero s = s
text_after (suc n) String.[] = ""
text_after (suc n) (String.◌∷◌ c s) = text_after n s

-- `text.split(sep, 1)[0]`, of a separator that is one character.
unfoldable pub text_before : ℕ → String → String
text_before sep String.[] = ""
text_before sep (String.◌∷◌ c s) =
    let rest = text_before sep s in if code c == sep then "" else String.◌∷◌ c rest

-- `text.split(sep)`: the first piece, and the others.
unfoldable pub split_from : ℕ → String → String × List String
split_from sep String.[] = ("", [])
split_from sep (String.◌∷◌ c s) =
    let (piece, pieces) = split_from sep s in
    if code c == sep then ("", piece ∷ pieces) else (String.◌∷◌ c piece, pieces)

unfoldable pub split_text : ℕ → String → List String
unfolding split_from
split_text sep s = let (piece, pieces) = split_from sep s in piece ∷ pieces
