-- ===== src/Functime/Child.antt =====
-- child_exit_handler of functime_debugger/functime.c, the handler of SIGCHLD.
pub mod Ends
use blackbox_profiling.Base.{
  ℕ, if◌then◌else◌, ◌==◌, zero, suc, Bool, true, Option, none, some, List,
}
use blackbox_profiling.Functime.Trace.{
  tracee_exit, tracee_init, tracee_entry, Ptrace, handle_trace_event, crashed, Tracer, exit_failure,
  next,
}
use blackbox_profiling.Functime.Maps.{MapsLine}

pub data WaitStatus : Type 0 where
  stopped_by : ℕ → WaitStatus
  exited_with : ℕ → WaitStatus
  killed_by : ℕ → WaitStatus

-- `waitpid (-1, &wstat, WNOHANG)`: 0, a child with its status, or -1, with ECHILD or another error.
-- Where it does not give a child it leaves `wstat` as it is.
pub data WaitResult : Type 0 where
  no_change : WaitResult
  child : ℕ → WaitStatus → WaitResult
  no_child : WaitResult
  wait_error : WaitResult

-- The handler returns, with the new value of `done`; the profiler ends with EXIT_FAILURE; or it
-- crashes or acts on a variable that was never set. `spins` is no more fuel.
pub data Handled (T : Type 0) : Type 0 where
  returned : Bool → Tracer → T → Handled T
  failed_exit fault spins : Handled T

module _ {T : Type 0} (os : Ptrace T) (sscanf : List ℕ → Option MapsLine)
    (waitpid : T → WaitResult × T) where
  -- An event for the pid -1: every request of ptrace fails, and the maps cannot be opened.
  unfoldable pub lost_event : Tracer → Handled T
  lost_event g = elim g.stage [
    | tracee_entry ↦ if g.maps.heap_size == 0 then fault else failed_exit
    | tracee_exit ↦ failed_exit
    | tracee_init ↦ failed_exit
  ]

  -- What follows a status; `continue` is the next round of the loop.
  unfoldable pub act : WaitStatus → Tracer → T → (Tracer → T → Handled T) → Handled T
  act (stopped_by sig) g t continue = elim (handle_trace_event os sscanf g t) [
    | next g' t' ↦ continue g' t'
    | exit_failure ↦ failed_exit
    | crashed ↦ fault
  ]
  act (exited_with code) g t continue = returned true g t
  act (killed_by sig) g t continue = continue g t

  -- The same where the status is an old one, and the pid -1.
  unfoldable pub act_stale : Option WaitStatus → Tracer → T → (Tracer → T → Handled T) → Handled T
  unfolding lost_event
  act_stale none g t continue = fault
  act_stale (some (stopped_by sig)) g t continue = lost_event g
  act_stale (some (exited_with code)) g t continue = returned true g t
  act_stale (some (killed_by sig)) g t continue = continue g t

  -- The endless loop of the handler; `wstat` is the variable, `none` as long as nothing has set it.
  unfoldable pub child_loop : ℕ → Bool → Option WaitStatus → Tracer → T → Handled T
  unfolding act act_stale
  child_loop zero done wstat g t = spins
  child_loop (suc fuel) done wstat g t = elim ((waitpid t).0) [
    | no_change ↦ returned done g (waitpid t).1
    | wait_error ↦ failed_exit
    | child pid status ↦ act status g (waitpid t).1 (child_loop fuel done (some status))
    | no_child ↦ act_stale wstat g (waitpid t).1 (child_loop fuel done wstat)
  ]

  unfoldable pub child_exit_handler : ℕ → Bool → Tracer → T → Handled T
  unfolding child_loop
  child_exit_handler fuel done g t = child_loop fuel done none g t
