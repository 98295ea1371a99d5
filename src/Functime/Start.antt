-- ===== src/Functime/Start.antt =====
-- set_realtime and run_debuggee of functime_debugger/functime.c: how a run of the tracee is
-- started.
use blackbox_profiling.Base.{ℕ, if◌then◌else◌, Bool, ◌&&◌, Option, none, some}

-- PARENT_CPU and CHILD_CPU.
abbrev pub parent_cpu : ℕ
parent_cpu = 2

abbrev pub child_cpu : ℕ
child_cpu = 2

-- The priority and the processor that a process gets.
pub record Realtime : Type 0 where
  pub prio : ℕ
  pub cpu : ℕ

-- The two tests are the success of sched_setscheduler and of sched_setaffinity; `none` is
-- `exit (EXIT_FAILURE)`. The argument `cpu` is not used.
unfoldable pub set_realtime : Bool → Bool → ℕ → ℕ → Option Realtime
set_realtime scheduled pinned prio cpu =
    if scheduled && pinned then some (record { prio = prio; cpu = parent_cpu }) else none

-- Which of the calls succeed that the child makes.
pub record ChildCalls : Type 0 where
  pub scheduled : Bool
  pub pinned : Bool
  pub traceme : Bool
  pub getcpu : Bool
  pub execv : Bool

-- The child is replaced by the program, or ends with EXIT_FAILURE.
pub data ChildStart : Type 0 where
  executes : Realtime → ChildStart
  child_fails : ChildStart

-- The branch of the child.
unfoldable pub run_child : ChildCalls → ChildStart
unfolding set_realtime
run_child c = elim (set_realtime c.scheduled c.pinned 2 child_cpu) [
  | none ↦ child_fails
  | some r ↦ if c.traceme && c.getcpu && c.execv then executes r else child_fails
]

-- `fork` gives the pid of the child, with the tracee as it is then; `start` is the tracee that the
-- child becomes.
pub record Spawn (T : Type 0) : Type 0 where
  pub fork : T → Option (ℕ × T)
  pub calls : T → ChildCalls
  pub start : ChildStart → T → T

-- What the parent gets: the pid, or 0.
unfoldable pub run_debuggee : {T : Type 0} → Spawn T → T → ℕ × T
run_debuggee sp t = elim (sp.fork t) [
  | none ↦ (0, t)
  | some (child_pid, t') ↦ (child_pid, sp.start (run_child (sp.calls t')) t')
]
