-- ===== src/Lib.antt =====
-- A verification library for the Neotolis AI Workbench: the Python packages under src/naiw_common,
-- src/naiw_signal and src/naiw_tasks, which run coding agents in task containers and track them.
--
-- The parts. The controller (`naiw-tasks`) keeps one task.json per task, with a status. In the
-- container, `naiw-signal` appends events to a journal, one JSON object per line; `naiw-tasks list`
-- reads new events from the journal, looks at the container, and computes the status from the two.
-- `naiw-tasks finish` and an automatic finish stop and remove the container, remove the worktree
-- by the task's policy, and write the final status.
--
-- The files:
--   Base        the shared names, tests, and lists measured by native numbers
--   Model       src/naiw_tasks/naiw_tasks/model.py: statuses, policies, tasks and the dicts on disk
--   Reconcile   src/naiw_tasks/naiw_tasks/reconcile.py: the truth table of `list`
--   Json        the values of `json.loads`, as far as the readers look at them
--   Events      src/naiw_common/naiw_common/events.py: the schema of an event
--   Tail        src/naiw_tasks/naiw_tasks/events_tail.py: reading the journal from an offset
--   Signal      src/naiw_signal/naiw_signal: writing one event
--   Paths       src/naiw_tasks/naiw_tasks/path_validation.py: where a bind source may lie
--   Ids         src/naiw_tasks/naiw_tasks/ids.py: the shapes of ids, aliases and secret
--               names, and the allocation of an id
--   Numbers     how digits are read, and a printed number read back
--   Config      src/naiw_tasks/naiw_tasks/config.py: the size limit, and the configuration
--   Clean       src/naiw_tasks/naiw_tasks/clean.py: removing old tasks and orphaned containers
--   Volumes     src/naiw_tasks/naiw_tasks/lifecycle.py: the mounts and labels of a container
--   Effects     the world around one task, the actions on it, and rules for what they publish
--   Store       src/naiw_tasks/naiw_tasks/store.py: task.json under its lock, and how a new
--               one is put in place
--   Lifecycle   src/naiw_tasks/naiw_tasks/lifecycle.py: start, teardown, finish
--               and recover, with src/naiw_tasks/naiw_tasks/git_ops.py
--   List        src/naiw_tasks/naiw_tasks/list_cmd.py: `list` and `reap`, with what they write, and
--               which rows are shown
--   Projects    src/naiw_tasks/naiw_tasks/projects.py: the repositories that a task may work on
--   Artifacts   src/naiw_tasks/naiw_tasks/artifacts.py: the bundle of what a task has left
--   Output      src/naiw_tasks/naiw_tasks/output_cmd.py and attach.py: the end of the log, and the
--               terminal of a task
--   Cli         src/naiw_tasks/naiw_tasks/cli.py, with startup_checks.py and disk.py: the commands,
--               the checks before them, and the exit codes
--   Tests       runs at concrete inputs
--
-- How the code is modelled. A function of the source is a definition of the same name; a `get`
-- with a default is `get_or`; a raised exception is a value of the result. Stateful code is an
-- action on a `World`: task.json, the history of what this process has published in it, and the
-- host. The host is a parameter: Docker, git, the clock, the disk and the operator answer as
-- they like, and before the controller gets its lock on task.json other processes may have
-- replaced it. Where the writing of task.json itself is modelled, any of its operations may
-- fail, and a loss of power may tear a file that was not synced and undo the last replacements.
-- The file lock makes a read-modify-write one step, which is taken to meet no error of the
-- disk. `Cli` and `Artifacts` have worlds of their own: a log of every call that a command
-- makes, with the components as calls, and the files of the bundle. All recursion is
-- structural, on lists, texts and bytes, and on the digits of a number, at most as many as its
-- value.
--
-- Not modelled: log lines, messages to the operator, the constant part of an exception's message
-- where nothing reads it, file modes and times, a task.json that does not parse, what
-- click does before a command runs, and the parts that are text for display or directories only:
-- tables and JSON for display, the skeleton of a task's directories, the constants of the container's
-- hardening. UTF-8, JSON, YAML, ISO dates, `repr`, `strip`, floating point, the environment,
-- `pathlib`, `du` and `Path.resolve` are parameters. A file that blocks when it is opened is taken to
-- fail. `int` is taken to read any number of digits.
pub mod Base
pub mod Model
pub mod Reconcile
pub mod Json
pub mod Events
pub mod Tail
pub mod Signal
pub mod Ids
pub mod Paths
pub mod Numbers
pub mod Config
pub mod Clean
pub mod Effects
pub mod Volumes
pub mod Store
pub mod Lifecycle
pub mod List
pub mod Projects
pub mod Cli
pub mod Artifacts
pub mod Output
mod Tests
