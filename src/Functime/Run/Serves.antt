-- ===== src/Functime/Run/Serves.antt =====
-- A run in which each signal reports one stop, and the last one the exit.
use blackbox_profiling.Base.{
  ℕ, zero, suc, ◌<◌, ◌≡◌, refl, ap, true, false, Option, some, List, arith,
}
use blackbox_profiling.Functime.Trace.{Ptrace, next, Tracer, handle_trace_event}
use blackbox_profiling.Functime.Maps.{MapsLine}
use blackbox_profiling.Functime.Run.{signal_loop, finished_run}
use blackbox_profiling.Functime.Child.{
  stopped_by, child, exited_with, act, WaitResult, child_loop, returned, child_exit_handler,
  no_change,
}

module _ {T : Type 0} (os : Ptrace T) (sscanf : List ℕ → Option MapsLine)
    (waitpid : T → WaitResult × T) (deliver : T → Option T) where
  -- `Serves n g t g' t'`: `n` stops that are handled lead from the first state to the last, in
  -- which the tracee has exited.
  pub data Serves : ℕ → Tracer → T → Tracer → T → Type 0 where
    exits_now :
        {g : Tracer} {t t1 t2 : T} (pid code : ℕ)
        → deliver t ≡ some t1
        → waitpid t1 ≡ (child pid (exited_with code), t2)
        → Serves zero g t g t2
    stops :
        {n : ℕ} {g g1 g' : Tracer} {t t1 t2 t3 t4 t' : T} (pid sig : ℕ)
        → deliver t ≡ some t1
        → waitpid t1 ≡ (child pid (stopped_by sig), t2)
        → handle_trace_event os sscanf g t2 ≡ next g1 t3
        → waitpid t3 ≡ (no_change, t4)
        → Serves n g1 t4 g' t'
        → Serves (suc n) g t g' t'

  handler-exits :
      (fuel pid code : ℕ) (g : Tracer) (t1 t2 : T)
      → waitpid t1 ≡ (child pid (exited_with code), t2)
      → child_exit_handler os sscanf waitpid (suc fuel) false g t1 ≡ returned true g t2
  unfolding child_exit_handler child_loop act
  handler-exits fuel pid code g t1 t2 e =
      rw (ap (λ (x : WaitResult × T). x.0) e, child_loop, ap (λ (x : WaitResult × T). x.1) e) refl

  handler-stops :
      (fuel pid sig : ℕ) (g g1 : Tracer) (t1 t2 t3 t4 : T)
      → waitpid t1 ≡ (child pid (stopped_by sig), t2)
      → handle_trace_event os sscanf g t2 ≡ next g1 t3
      → waitpid t3 ≡ (no_change, t4)
      → child_exit_handler os sscanf waitpid (suc (suc fuel)) false g t1 ≡ returned false g1 t4
  unfolding child_exit_handler child_loop act
  handler-stops fuel pid sig g g1 t1 t2 t3 t4 e h n =
      rw
        (
          ap (λ (x : WaitResult × T). x.0) e,
          child_loop,
          ap (λ (x : WaitResult × T). x.1) e,
          act,
          h,
          ap (λ (x : WaitResult × T). x.0) n,
          ap (λ (x : WaitResult × T). x.1) n,
        )
        refl

  -- With a round for each stop and one more, the wait ends in the last state.
  pub signal_loop-Serves :
      (fuel rounds n : ℕ) (g g' : Tracer) (t t' : T)
      → n < rounds
      → Serves n g t g' t'
      → signal_loop os sscanf waitpid deliver (suc (suc fuel)) rounds false g t ≡ finished_run g' t'
  unfolding signal_loop
  signal_loop-Serves fuel zero n g g' t t' lt s = absurd (omega arith)
  signal_loop-Serves fuel (suc rounds) zero g g' t t' lt (exits_now pid code d w) =
      rw (d, handler-exits (suc fuel) pid code _ _ _ w, signal_loop) refl
  signal_loop-Serves fuel (suc rounds) (suc n) g g' t t' lt (stops pid sig d w h q s) =
      rw (d, handler-stops fuel pid sig _ _ _ _ _ _ w h q, signal_loop)
        (signal_loop-Serves fuel rounds n _ g' _ t' (omega arith) s)
