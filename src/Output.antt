-- ===== src/Output.antt =====
-- src/naiw_tasks/naiw_tasks/output_cmd.py and attach.py: the end of terminal.log, and the terminal of a
-- task. What the file system and Docker give is a parameter.
pub mod LineEnds
pub mod Last
mod Tests
use Prim.Native.String
use Prim.Native.Char.{Char, code}
use Prim.Native.String.{String}
use neotolis_ai_workbench.Base.{
  ℕ, zero, suc, ◌<>◌, Bool, true, false, ◌&&◌, Option, none, some, List, [], ◌∷◌, ◌++◌, length,
  drop, ◌==◌, str_eq, get_or, if◌then◌else◌,
}
use neotolis_ai_workbench.Ids.{validate_task_id}
use neotolis_ai_workbench.Base.Integers.{ℤ, pos, negsuc}

-- The lines that a text file gives, each with its newline; the last one may have none.
pub add_char : Char → List String → List String
add_char c [] = String.◌∷◌ c "" ∷ []
add_char c (line ∷ lines) = String.◌∷◌ c line ∷ lines

unfoldable pub lines_of : String → List String
unfolding add_char
lines_of String.[] = []
lines_of (String.◌∷◌ c s) =
    let lines = lines_of s in if code c == 10 then String.◌∷◌ c "" ∷ lines else add_char c lines

-- `deque(lines, maxlen=n)`: a full deque loses its first item when one is appended.
pub append : ℕ → List String → String → List String
append maxlen tail line =
    if length tail == maxlen then drop 1 (tail ++ line ∷ []) else tail ++ line ∷ []

pub deque : ℕ → List String → List String → List String
unfolding append
deque maxlen tail [] = tail
deque maxlen tail (line ∷ lines) = deque maxlen (append maxlen tail line) lines

-- `"".join(tail)`.
pub join : List String → String
join [] = ""
join (line ∷ lines) = line <> join lines

-- How a file that is opened as text gives its line ends: `\r\n` and `\r` become `\n`. The flag is
-- whether the character before was `\r`.
pub universal : Bool → String → String
universal after_return String.[] = ""
universal after_return (String.◌∷◌ c s) =
    let plain = universal false s in
    let returned = universal true s in
    if code c == 13
    then "\n" <> returned
    else if after_return && code c == 10
    then plain
    else String.◌∷◌ c plain

unfoldable pub as_text : String → String
unfolding universal
as_text log = universal false log

unfoldable pub last_lines : ℕ → String → String
unfolding join deque lines_of as_text
last_lines n log = join (deque n [] (lines_of (as_text log)))

-- `lstat` of terminal.log, and its opening with O_NOFOLLOW. A text is what the bytes
-- of the file decode to.
pub data Stat : Type 0 where
  missing other_error not_regular is_regular : Stat

pub record Outside : Type 0 where
  pub task_exists : Bool
  pub lstat : Stat
  pub open_nofollow : Option String

-- What `run` prints, or how it ends.
pub data Printed : Type 0 where
  printed : String → Printed
  value_error usage_error os_error : Printed
  system_exit : ℕ → Printed

pub opened : ℕ → Option String → Printed
unfolding last_lines
opened lines none = system_exit 1
opened lines (some log) = printed (last_lines lines log)

pub looked_at : Outside → ℕ → Printed
unfolding opened
looked_at O lines = elim O.lstat [
  | missing ↦ printed ""
  | other_error ↦ os_error
  | not_regular ↦ system_exit 1
  | is_regular ↦ opened lines O.open_nofollow
]

pub positive : Outside → ℤ → Printed
unfolding looked_at
positive O (negsuc n) = usage_error
positive O (pos zero) = usage_error
positive O (pos (suc n)) = if O.task_exists then looked_at O (suc n) else system_exit 1

unfoldable pub run : Outside → String → ℤ → Printed
unfolding positive
run O task_id lines = if validate_task_id task_id then positive O lines else value_error

-- A container of the task, as it was listed, and its state after `reload`, if that works.
pub record Match : Type 0 where
  pub name : String
  pub listed : Option String
  pub reloaded : Option (Option String)

-- `execvpe` replaces the process: its arguments and what is set in the environment.
pub data Attached : Type 0 where
  exec : List String → List (String × String) → Attached
  system_exit : ℕ → Attached

abbrev pub pinned_docker_api_version : String
pinned_docker_api_version = "1.43"

unfoldable pub attach_to_task : String → List Match → Attached
attach_to_task proxy_url [] = Attached.system_exit 1
attach_to_task proxy_url (container ∷ matches) =
    let state = get_or (get_or container.reloaded container.listed) "<unknown>" in
    if str_eq state "running"
    then exec ("docker" ∷ "-H" ∷ proxy_url ∷ "attach" ∷ container.name ∷ [])
        (("DOCKER_API_VERSION", pinned_docker_api_version) ∷ [])
    else Attached.system_exit 1
