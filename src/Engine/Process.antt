-- ===== src/Engine/Process.antt =====
-- internal/engine/executor.go: `run`, with `setupProcessGroup` and `killProcessGroup` of
-- internal/engine/process_unix.go and internal/engine/process_windows.go, as a step relation between
-- the goroutine that runs the command, the one that waits for it, the processes of the command and
-- the clock.
pub mod Orphans
pub mod Timeout
use gremlins.Prelude.{ℕ, negsuc, ◌≡◌, Bool, true, false, Option, none, some}
use gremlins.Engine.Executor.{WaitError, exit_error, other_error}

pub data Platform : Type 0 where
  unix windows : Platform

-- The process of the command: there is none yet, it runs, or it has ended.
pub data Leader : Type 0 where
  absent running : Leader
  exited : WaitError → Leader

-- The attributes of a command that the two files set, each of them on its own platform.
pub record SysProcAttr : Type 0 where
  pub setpgid : Bool
  pub creation_flags : ℕ

-- What `cmd.SysProcAttr == nil` is replaced by.
no_attributes : SysProcAttr
no_attributes = record { setpgid = false; creation_flags = 0 }

-- `setupProcessGroup` of process_unix.go.
setup_on_unix : Option SysProcAttr → SysProcAttr
unfolding no_attributes
setup_on_unix none = record no_attributes { setpgid = true }
setup_on_unix (some attr) = record attr { setpgid = true }

-- `setupProcessGroup` of process_windows.go; CREATE_NEW_PROCESS_GROUP is 0x200.
setup_on_windows : Option SysProcAttr → SysProcAttr
unfolding no_attributes
setup_on_windows none = record no_attributes { creation_flags = 512 }
setup_on_windows (some attr) = record attr { creation_flags = 512 }

-- `setupProcessGroup`.
unfoldable pub setup_process_group : Platform → Option SysProcAttr → SysProcAttr
unfolding setup_on_unix setup_on_windows
setup_process_group unix attr = setup_on_unix attr
setup_process_group windows attr = setup_on_windows attr

-- The processes of the command: whether the first was started as the leader of a group of its own,
-- the first, whether some child of it or of a child runs in its group, and whether one runs that has
-- left the group (a child can: `setpgid` and `setsid` do it). The first is the `go` command, which
-- stays.
pub record Group : Type 0 where
  pub leads : Bool
  pub leader : Leader
  pub children : Bool
  pub strays : Bool

-- A process that is killed ends with the exit code -1; one that has ended stays as it is.
killed_leader : Leader → Leader
killed_leader absent = absent
killed_leader running = exited (exit_error (negsuc 0))
killed_leader (exited e) = exited e

-- `killProcessGroup` of process_unix.go: what is in the group, and nothing where there is no process or it
-- leads no group.
kill_on_unix : Group → Group
unfolding killed_leader
kill_on_unix g = elim g.leads [
  | true ↦ record g { leader = killed_leader g.leader; children = false }
  | false ↦ g
]

-- `killProcessGroup` of process_windows.go: the first process, if there is one.
kill_on_windows : Group → Group
unfolding killed_leader
kill_on_windows g = record g { leader = killed_leader g.leader }

-- `killProcessGroup`.
unfoldable pub kill_process_group : Platform → Group → Group
unfolding kill_on_unix kill_on_windows
kill_process_group unix g = kill_on_unix g
kill_process_group windows g = kill_on_windows g

-- Where the goroutine of `run` is: before `cmd.Start`, in the `select`, in the receipt after the
-- kill, before the deferred kill, before the deferred release, or back at its caller.
pub data Place : Type 0 where
  starting selecting receiving : Place
  killing releasing returned : WaitError → Place

-- `done` is the channel of that name, with room for one; `timed` is whether the `select` took the case
-- `ctx.Done()`.
pub record State : Type 0 where
  pub place : Place
  pub group : Group
  pub deadline : Bool
  pub timed : Bool
  pub done : Option WaitError
  pub released : Bool

abbrev pub init : State
init = record {
  place = starting;
  group = record { leads = false; leader = absent; children = false; strays = false };
  deadline = false;
  timed = false;
  done = none;
  released = false;
}

-- The steps of the two goroutines of `run`.
pub data Own (p : Platform) (s t : State) : Type 0 where
  -- `cmd.Start` fails, and `run` returns at once.
  fail : s.place ≡ starting → t ≡ record s { place = returned other_error } → Own p s t
  -- `setupProcessGroup` of `runTests`, for a command with no attributes yet, and `cmd.Start`.
  begin :
      s.place ≡ starting
      → t ≡ record s {
        place = selecting;
        group = record s.group { leads = (setup_process_group p none).setpgid; leader = running };
      }
      → Own p s t
  -- `cmd.Wait` returns, and its result is sent.
  wait :
      (e : WaitError)
      → s.group.leader ≡ exited e
      → s.done ≡ none
      → t ≡ record s { done = some e }
      → Own p s t
  -- The case `ctx.Done()` of the `select`, with its kill.
  late :
      s.place ≡ selecting
      → s.deadline ≡ true
      → t ≡ record s { place = receiving; group = kill_process_group p s.group; timed = true }
      → Own p s t
  -- The case `done`.
  finish :
      (e : WaitError)
      → s.place ≡ selecting
      → s.done ≡ some e
      → t ≡ record s { place = killing e }
      → Own p s t
  -- The receipt after the kill; the result is `ctx.Err()`.
  receive :
      (e : WaitError)
      → s.place ≡ receiving
      → s.done ≡ some e
      → t ≡ record s { place = killing other_error }
      → Own p s t
  -- The deferred kill, and the deferred release.
  kill :
      (e : WaitError)
      → s.place ≡ killing e
      → t ≡ record s { place = releasing e; group = kill_process_group p s.group }
      → Own p s t
  release :
      (e : WaitError)
      → s.place ≡ releasing e
      → t ≡ record s { place = returned e; released = true }
      → Own p s t

-- The steps of the others: a process starts a child, a child leaves the group, the children end, the first process ends, and
-- the deadline passes.
pub data Other (s t : State) : Type 0 where
  fork :
      s.group.leader ≡ running
      → t ≡ record s { group = record s.group { children = true } }
      → Other s t
  fork_more :
      s.group.children ≡ true
      → t ≡ record s { group = record s.group { children = true } }
      → Other s t
  leave :
      s.group.children ≡ true
      → t ≡ record s { group = record s.group { strays = true } }
      → Other s t
  strays_end : t ≡ record s { group = record s.group { strays = false } } → Other s t
  children_end : t ≡ record s { group = record s.group { children = false } } → Other s t
  exit :
      (e : WaitError)
      → s.group.leader ≡ running
      → t ≡ record s { group = record s.group { leader = exited e } }
      → Other s t
  pass : t ≡ record s { deadline = true } → Other s t

pub data Reach (p : Platform) (s : State) : State → Type 0 where
  here : Reach p s s
  own : {t u : State} → Reach p s t → Own p t u → Reach p s u
  other : {t u : State} → Reach p s t → Other t u → Reach p s u
