-- ===== src/Tests/Allocation.antt =====
-- Runs of `allocate_task_id`.
use Prim.Native.String.{String}
use neotolis_ai_workbench.Base.{ℕ, ◌≡◌, ◌≢◌, refl, Option, none, some, [], ◌∷◌, decimal}
use text.Mathlib.TextLemmas
use neotolis_ai_workbench.Base.Integers.{ℤ, pos, negsuc, int_text}
use neotolis_ai_workbench.Numbers.{number, span}
use neotolis_ai_workbench.Numbers.RoundTrip.{span-decimal}
use neotolis_ai_workbench.Ids.{validate_task_id, validate_project_alias}
use neotolis_ai_workbench.Ids.Allocate.{
  allocate_task_id, next_candidate, padded, allocated, read_counter, int_of, after_dash, is_digits,
}
use neotolis_ai_workbench.Ids.Allocate.Fresh.{
  Allocated, allocate_task_id-Allocated, allocate_task_id-ne,
}
use neotolis_ai_workbench.Tests.Sizes.{ascii, ascii-IsAscii}

abbrev to_int : Option ℕ → Option ℤ
to_int none = none
to_int (some n) = some (pos n)

abbrev read_int : String → Option ℤ
read_int s = to_int (int_of ascii s)

first_id :
    allocate_task_id ascii read_int (some "4") ("demo-007" ∷ "demo-x" ∷ "task-012" ∷ []) "demo"
    ≡ allocated "demo-008" "8"
unfolding allocate_task_id validate_project_alias int_of span is_digits after_dash validate_task_id
    number decimal int_text padded next_candidate
first_id = refl

second_id : allocate_task_id ascii read_int (some "8") [] "demo" ≡ allocated "demo-009" "9"
unfolding allocate_task_id validate_project_alias int_of span is_digits after_dash validate_task_id
    number decimal int_text padded next_candidate
second_id = refl

read_int-decimal : (n : ℕ) → read_int (decimal n) ≡ some (pos n)
unfolding int_of span
read_int-decimal n =
    let (e, r) = span-decimal ascii ascii-IsAscii n "" refl in
    let q = TextLemmas.append-nil (decimal n) in rw (rw q at r, rw q at e) refl

four : (k : ℕ) → read_counter read_int (some "4") ≢ some (negsuc k)
unfolding int_of span number read_counter
four k h = cc h

allocate_task_id-Allocated_example :
    (n : ℕ) × (read_counter read_int (some "4") ≡ some (pos n))
    × Allocated n ("demo-007" ∷ "demo-x" ∷ "task-012" ∷ []) "demo" "demo-008" "8"
allocate_task_id-Allocated_example =
    allocate_task_id-Allocated ascii ascii-IsAscii read_int (some "4")
      ("demo-007" ∷ "demo-x" ∷ "task-012" ∷ []) "demo" "demo-008" "8" four first_id

allocate_task_id-ne_example : ◌≢◌ {A = String} "demo-008" "demo-009"
allocate_task_id-ne_example =
    allocate_task_id-ne ascii ascii-IsAscii read_int (some "4")
      ("demo-007" ∷ "demo-x" ∷ "task-012" ∷ []) [] "demo" "demo-008" "demo-009" "8" "9" four
      read_int-decimal first_id second_id
