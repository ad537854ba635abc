-- ===== src/Ids.antt =====
-- src/naiw_tasks/naiw_tasks/ids.py: which texts are task ids, project aliases and secret names.
pub mod Shape
pub mod Allocate
mod Tests
use Prim.Native.Char.{Char, code}
use Prim.Native.String
use text.Mathlib.Text.{starts_with}
use neotolis_ai_workbench.Base.{
  ℕ, zero, suc, String, Bool, true, false, not, ◌&&◌, ◌||◌, leb, ◌==◌, str_eq, if◌then◌else◌,
}

-- `[a-z]`, `[0-9]`.
abbrev pub is_lower : ℕ → Bool
is_lower c = leb b'a' c && leb c b'z'

abbrev pub is_digit : ℕ → Bool
is_digit c = leb b'0' c && leb c b'9'

-- `[a-z0-9]` and `[a-z0-9-]`.
abbrev pub first_char : ℕ → Bool
first_char c = is_lower c || is_digit c

abbrev pub id_char : ℕ → Bool
id_char c = first_char c || c == b'-'

-- `[a-zA-Z0-9_.-]`.
abbrev pub secret_char : ℕ → Bool
secret_char c = id_char c || leb b'A' c && leb c b'Z' || c == b'_' || c == b'.'

-- `$` holds at the end of the text, and before a newline that ends it.
pub at_end : String → Bool
at_end String.[] = true
at_end (String.◌∷◌ c String.[]) = code c == 10
at_end (String.◌∷◌ c s) = false

-- `[a-z0-9-]{0,n}$`.
unfoldable pub id_rest : ℕ → String → Bool
unfolding at_end
id_rest n String.[] = true
id_rest zero s = at_end s
id_rest (suc n) (String.◌∷◌ c s) =
    let rest = id_rest n s in if id_char (code c) then rest else at_end (String.◌∷◌ c s)

-- `^[a-z0-9][a-z0-9-]{0,n}$`.
pub matches_label : ℕ → String → Bool
unfolding id_rest
matches_label n String.[] = false
matches_label n (String.◌∷◌ c s) = first_char (code c) && id_rest n s

-- `true` where the source returns, `false` where it raises ValueError.
unfoldable pub validate_task_id : String → Bool
unfolding matches_label
validate_task_id task_id = matches_label 63 task_id

unfoldable pub validate_project_alias : String → Bool
unfolding matches_label
validate_project_alias alias = not (str_eq alias "") && matches_label 59 alias

-- `[a-zA-Z0-9_.-]*$`.
pub secret_rest : String → Bool
unfolding at_end
secret_rest String.[] = true
secret_rest (String.◌∷◌ c s) =
    let rest = secret_rest s in if secret_char (code c) then rest else at_end (String.◌∷◌ c s)

pub matches_secret : String → Bool
unfolding secret_rest
matches_secret String.[] = false
matches_secret (String.◌∷◌ c s) = secret_char (code c) && secret_rest s

-- `".." in name`.
pub has_dots : String → Bool
has_dots String.[] = false
has_dots (String.◌∷◌ c s) =
    let rest = has_dots s in if starts_with (String.◌∷◌ c s) ".." then true else rest

unfoldable pub validate_secret_name : String → Bool
unfolding matches_secret has_dots
validate_secret_name name =
    not (str_eq name "") && matches_secret name && not (has_dots name) && not (str_eq name ".")
