-- ===== src/Output/Tests.antt =====
-- Runs of `output` and `attach`.
use neotolis_ai_workbench.Base.{
  ◌≡◌, refl, ◌-◌, ◌<>◌, String, true, some, [], ◌∷◌, length, drop, arith,
}
use neotolis_ai_workbench.Ids.{validate_task_id, id_rest}
use neotolis_ai_workbench.Base.Integers.{pos, negsuc}
use neotolis_ai_workbench.Output.{
  lines_of, add_char, as_text, universal, last_lines, deque, append, join, Outside, is_regular, run,
  printed, usage_error, attach_to_task, exec,
}
use neotolis_ai_workbench.Output.LineEnds.{LineEnds}
use neotolis_ai_workbench.Output.Last.{last_lines-End}

abbrev log : String
log = "one\ntwo\nthree"

lines_of_log : lines_of log ≡ "one\n" ∷ "two\n" ∷ "three" ∷ []
unfolding lines_of add_char
lines_of_log = refl

last_two : last_lines 2 log ≡ "two\nthree"
unfolding last_lines lines_of add_char deque append join as_text universal
last_two = refl

-- The log of a terminal, with its own line ends.
crlf : last_lines 2 "one\r\ntwo\rthree\r\n" ≡ "two\nthree\n"
unfolding last_lines lines_of add_char deque append join as_text universal
crlf = refl

last_lines-End_example :
    (text : String) × (front : String) × LineEnds log text
    × (text ≡ front <> last_lines 2 log)
    × (lines_of (last_lines 2 log) ≡ drop (length (lines_of text) - 2) (lines_of text))
last_lines-End_example = last_lines-End 2 log (omega arith)

abbrev outside : Outside
outside = record { task_exists = true; lstat = is_regular; open_nofollow = some log }

prints : run outside "demo-001" (pos 1) ≡ printed "three"
unfolding run validate_task_id id_rest last_lines lines_of add_char deque append join as_text
    universal
prints = refl

refuses : run outside "demo-001" (negsuc 0) ≡ usage_error
unfolding run validate_task_id id_rest
refuses = refl

attaches :
    attach_to_task "tcp://127.0.0.1:2375" (
      record {
        name = "naiw-task-demo-001";
        listed = some "created";
        reloaded = some (some "running");
      }
      ∷ [])
    ≡ exec
        ("docker" ∷ "-H" ∷ "tcp://127.0.0.1:2375" ∷ "attach" ∷ "naiw-task-demo-001" ∷ [])
        (("DOCKER_API_VERSION", "1.43") ∷ [])
unfolding attach_to_task
attaches = refl
