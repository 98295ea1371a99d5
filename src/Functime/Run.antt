-- ===== src/Functime/Run.antt =====
-- One run of the tracee in functime_debugger/functime.c: run_debuggee, then handle_tracee_signals,
-- whose handler child_exit_handler is called for each SIGCHLD that arrives.
pub mod Serves
pub mod Stages
use blackbox_profiling.Base.{
  ℕ, ◌==◌, zero, suc, Bool, true, false, Option, none, some, List, if◌then◌else◌,
}
use blackbox_profiling.Functime.Trace.{Ptrace, Tracer}
use blackbox_profiling.Functime.Maps.{MapsLine}
use blackbox_profiling.Functime.Start.{run_debuggee, Spawn}
use blackbox_profiling.Functime.Child.{
  failed_exit, spins, fault, WaitResult, returned, child_exit_handler,
}

-- The wait ends, with `done` cleared; no signal comes any more; the profiler ends in the handler,
-- or crashes; or the fuel ends.
pub data Waited (T : Type 0) : Type 0 where
  finished_run : Tracer → T → Waited T
  waits_forever waited_exit waited_fault waited_spins : Waited T

module _ {T : Type 0} (os : Ptrace T) (sscanf : List ℕ → Option MapsLine)
    (waitpid : T → WaitResult × T) where
  -- while (!done) sigsuspend: `deliver` is the tracee at the next SIGCHLD. `rounds` is the fuel of
  -- the loop, and `fuel` that of each call of the handler.
  pub signal_loop : (T → Option T) → ℕ → ℕ → Bool → Tracer → T → Waited T
  signal_loop deliver fuel rounds true g t = finished_run g t
  signal_loop deliver fuel zero false g t = waited_spins
  signal_loop deliver fuel (suc rounds) false g t = elim (deliver t) [
    | none ↦ waits_forever
    | some t1 ↦ elim (child_exit_handler os sscanf waitpid fuel false g t1) [
      | returned done g' t' ↦ signal_loop deliver fuel rounds done g' t'
      | failed_exit ↦ waited_exit
      | fault ↦ waited_fault
      | spins ↦ waited_spins
    ]
  ]

  -- `done` is 0 before the first run, and is cleared behind each.
  unfoldable pub handle_tracee_signals : (T → Option T) → ℕ → ℕ → Tracer → T → Waited T
  unfolding signal_loop
  handle_tracee_signals deliver fuel rounds g t = signal_loop deliver fuel rounds false g t

  -- Behind which results of the wait main goes on.
  abbrev pub after_wait : Waited T → Option (Tracer × T)
  after_wait (finished_run g t) = some (g, t)
  after_wait waits_forever = none
  after_wait waited_exit = none
  after_wait waited_fault = none
  after_wait waited_spins = none

  -- The wait, if there is a child.
  unfoldable pub wait_for : (T → Option T) → ℕ → ℕ → Tracer → ℕ × T → Option (Tracer × T)
  unfolding handle_tracee_signals
  wait_for deliver fuel rounds g (pid, t) =
      let waited = handle_tracee_signals deliver fuel rounds (record g { tracee_pid = pid }) t in
      if pid == 0 then none else after_wait waited

  -- A run as main makes it. `none` is a run behind which main does not go on.
  unfoldable pub run_once : Spawn T → (T → Option T) → ℕ → ℕ → Tracer → T → Option (Tracer × T)
  unfolding run_debuggee wait_for
  run_once sp deliver fuel rounds g t = wait_for deliver fuel rounds g (run_debuggee sp t)
