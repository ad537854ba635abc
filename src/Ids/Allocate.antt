-- ===== src/Ids/Allocate.antt =====
-- src/naiw_tasks/naiw_tasks/ids.py: `allocate_task_id`, under the lock of the project. The state is
-- the text of the counter file, if there is one, and the names in tasks/. `read_int` is `int` of a
-- stripped text; `none` is its ValueError.
mod Suffix
pub mod Fresh
use Prim.Native.Char.{code}
use Prim.Native.String
use Prim.Native.String.{String}
use text.Mathlib.Text.{starts_with}
use neotolis_ai_workbench.Base.{
  ℕ, zero, suc, ◌+◌, ◌<>◌, Bool, true, false, not, ◌&&◌, ◌||◌, Option, none, some, List, [], ◌∷◌,
  ltb, ◌==◌, str_eq, decimal, if◌then◌else◌,
}
use neotolis_ai_workbench.Base.Integers.{ℤ, pos, negsuc, int_text}
use neotolis_ai_workbench.Numbers.{Digits, number, span}
use neotolis_ai_workbench.Ids.{validate_project_alias, validate_task_id}

pub has_dash : String → Bool
has_dash String.[] = false
has_dash (String.◌∷◌ c s) = code c == b'-' || has_dash s

-- `name.rsplit("-", 1)[-1]`.
unfoldable pub after_dash : String → String
unfolding has_dash
after_dash String.[] = String.[]
after_dash (String.◌∷◌ c s) =
    let rest = after_dash s in
    if has_dash s then rest else if code c == b'-' then s else String.◌∷◌ c s

-- A character for which `isdigit` holds.
is_digit_at : Digits → ℕ → Bool
is_digit_at D c = elim (D.value c) [ none ↦ D.other_digit c | some n ↦ true ]

all_digits : Digits → String → Bool
unfolding is_digit_at
all_digits D String.[] = true
all_digits D (String.◌∷◌ c s) = is_digit_at D (code c) && all_digits D s

-- `str.isdigit`.
unfoldable pub is_digits : Digits → String → Bool
unfolding all_digits
is_digits D s = not (str_eq s "") && all_digits D s

-- `int`, of a text for which `isdigit` holds.
unfoldable pub int_of : Digits → String → Option ℕ
int_of D s = if str_eq (span D s).1 "" then some (number 0 (span D s).0) else none

cons_if : Option ℕ → Option (List ℕ) → Option (List ℕ)
cons_if (some n) (some ns) = some (n ∷ ns)
cons_if n ns = none

-- The loop over the glob: the numbers of the existing ids, or a ValueError.
unfoldable pub existing_ids : Digits → String → List String → Option (List ℕ)
unfolding cons_if
existing_ids D project [] = some []
existing_ids D project (name ∷ names) =
    let rest = existing_ids D project names in
    let suffix = after_dash name in
    if starts_with name (project <> "-") && is_digits D suffix
    then cons_if (int_of D suffix) rest
    else rest

abbrev pub max : ℕ → ℕ → ℕ
max a b = if ltb a b then b else a

unfoldable pub maximum : List ℕ → ℕ
maximum [] = 0
maximum (n ∷ ns) = max n (maximum ns)

unfoldable pub next : ℕ → List ℕ → ℕ
unfolding maximum
next counter [] = counter + 1
next counter (n ∷ ns) = max (counter + 1) (maximum (n ∷ ns) + 1)

-- One more than the counter, or than the largest of the numbers; a counter may be negative.
unfoldable pub next_candidate : ℤ → List ℕ → ℤ
unfolding next maximum
next_candidate (pos counter) ids = pos (next counter ids)
next_candidate (negsuc zero) [] = pos 0
next_candidate (negsuc (suc k)) [] = negsuc k
next_candidate (negsuc k) (n ∷ ns) = pos (maximum (n ∷ ns) + 1)

-- `f"{n:03d}"`.
unfoldable pub zero_padded : ℕ → String
zero_padded n =
    if ltb n 10
    then "0" <> ("0" <> decimal n)
    else if ltb n 100
    then "0" <> decimal n
    else decimal n

unfoldable pub padded : ℤ → String
unfolding zero_padded
padded (pos n) = zero_padded n
padded (negsuc n) = "-" <> (if ltb n 9 then "0" <> decimal (n + 1) else decimal (n + 1))

-- The new id with the new text of the counter file; or a ValueError, and nothing is written.
pub data Allocation : Type 0 where
  allocated : String → String → Allocation
  value_error : Allocation

publish_id : String → ℤ → Allocation
unfolding int_text
publish_id new_id n = if validate_task_id new_id then allocated new_id (int_text n) else value_error

numbered : String → Option ℤ → Option (List ℕ) → Allocation
unfolding publish_id padded next_candidate
numbered project (some counter) (some ids) =
    let n = next_candidate counter ids in publish_id ((project <> "-") <> padded n) n
numbered project counter ids = value_error

unfoldable pub read_counter : (String → Option ℤ) → Option String → Option ℤ
read_counter read_int none = some (pos 0)
read_counter read_int (some text) = read_int text

unfoldable pub allocate_task_id :
    Digits → (String → Option ℤ) → Option String → List String → String → Allocation
unfolding numbered read_counter existing_ids
allocate_task_id D read_int counter names project =
    if validate_project_alias project
    then numbered project (read_counter read_int counter) (existing_ids D project names)
    else value_error
