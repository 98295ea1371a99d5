-- ===== src/Functime/Run/Stages.antt =====
-- A run as a whole: that it ends, and the stage in which it leaves the profiler.
use blackbox_profiling.Base.{
  ℕ, zero, suc, ◌%◌, ◌<◌, ◌≡◌, refl, sym, ap, ◌∙◌, ◌↔◌, inl, inr, Option, some, List, arith, missed,
}
use blackbox_profiling.Functime.Trace.{
  on_init, on_exit, handle_trace_event, dispatch, on_entry, Stage, next, Ptrace, measured_entry,
  Tracer, tracee_exit, tracee_init, tracee_entry,
}
use blackbox_profiling.Functime.Maps.{MapsLine}
use blackbox_profiling.Functime.Run.{run_once, handle_tracee_signals, wait_for, after_wait}
use blackbox_profiling.Functime.Start.{Spawn, run_debuggee}
use blackbox_profiling.Functime.Child.{WaitResult}
use blackbox_profiling.Functime.Run.Serves.{Serves, exits_now, stops, signal_loop-Serves}
use blackbox_profiling.Functime.Trace.Handles.{next_stage, Stage-cases}

-- The stage behind a number of events.
abbrev pub stage_after : ℕ → Stage → Stage
stage_after zero s = s
stage_after (suc n) s = stage_after n (next_stage s)

next_stage-thrice : (s : Stage) → next_stage (next_stage (next_stage s)) ≡ s
next_stage-thrice tracee_init = refl
next_stage-thrice tracee_entry = refl
next_stage-thrice tracee_exit = refl

stage_after-same : (n : ℕ) (s : Stage) → (stage_after n s ≡ s) ↔ (n % 3 ≡ 0)
stage_after-same zero s = ground arith
stage_after-same (suc zero) tracee_init = ground arith
stage_after-same (suc zero) tracee_entry = ground arith
stage_after-same (suc zero) tracee_exit = ground arith
stage_after-same (suc (suc zero)) tracee_init = ground arith
stage_after-same (suc (suc zero)) tracee_entry = ground arith
stage_after-same (suc (suc zero)) tracee_exit = ground arith
stage_after-same (suc (suc (suc n))) s = ground (arith, stage_after-same n s, next_stage-thrice s)

module _ {T : Type 0} (os : Ptrace T) (sscanf : List ℕ → Option MapsLine) where
  pub handle_trace_event-stage :
      (g g' : Tracer) (t t' : T)
      → handle_trace_event os sscanf g t ≡ next g' t'
      → g'.stage ≡ next_stage g.stage
  unfolding handle_trace_event dispatch on_init measured_entry on_entry on_exit
  handle_trace_event-stage g g' t t' h = elim (Stage-cases g.stage) [
    | inl s ↦ ground (arith, h, s)
    | inr (inl s) ↦ ground (arith, h, s)
    | inr (inr s) ↦ ground (arith, h, s)
  ]

  -- What the request names stays, whatever the stage.
  handle_trace_event-asked :
      (g g' : Tracer) (t t' : T)
      → handle_trace_event os sscanf g t ≡ next g' t'
      → (g'.params.should_skip ≡ g.params.should_skip) × (g'.params.buff ≡ g.params.buff)
  unfolding handle_trace_event dispatch on_init measured_entry on_entry on_exit
  handle_trace_event-asked g g' t t' h = elim (Stage-cases g.stage) [
    | inl s ↦ (ground (arith, h, s), ground (arith, h, s))
    | inr (inl s) ↦ (ground (arith, h, s), ground (arith, h, s))
    | inr (inr s) ↦ (ground (arith, h, s), ground (arith, h, s))
  ]

  pub Serves-asked :
      (waitpid : T → WaitResult × T) (deliver : T → Option T) (n : ℕ) (g g' : Tracer) (t t' : T)
      → Serves os sscanf waitpid deliver n g t g' t'
      → (g'.params.should_skip ≡ g.params.should_skip) × (g'.params.buff ≡ g.params.buff)
  Serves-asked waitpid deliver zero g g' t t' (exits_now pid code d w) = (refl, refl)
  Serves-asked waitpid deliver (suc n) g g' t t'
        (stops {g1 = g1} {t2 = t2} {t3 = t3} {t4 = t4} pid sig d w h q s) =
      let (skip, asked) = Serves-asked waitpid deliver n g1 g' t4 t' s in
      let (skip1, asked1) = handle_trace_event-asked g g1 t2 t3 h in (skip ∙ skip1, asked ∙ asked1)

  Serves-stage :
      (waitpid : T → WaitResult × T) (deliver : T → Option T) (n : ℕ) (g g' : Tracer) (t t' : T)
      → Serves os sscanf waitpid deliver n g t g' t'
      → g'.stage ≡ stage_after n g.stage
  Serves-stage waitpid deliver zero g g' t t' (exits_now pid code d w) = refl
  Serves-stage waitpid deliver (suc n) g g' t t'
        (stops {g1 = g1} {t2 = t2} {t3 = t3} {t4 = t4} pid sig d w h q s) =
      Serves-stage waitpid deliver n g1 g' t4 t' s
      ∙ ap (stage_after n) (handle_trace_event-stage g g1 t2 t3 h)

-- Where a child is started, and `n` stops that are handled lead from its start to its exit, a run
-- with a round for each stop and one more ends in the last state. The stage is not reset between
-- runs: it is as before the run exactly if 3 divides n, so that a program that exits inside the
-- function that is timed leaves the next run in the wrong stage.
pub run_once_lem :
    {T : Type 0} (os : Ptrace T) (sscanf : List ℕ → Option MapsLine) (waitpid : T → WaitResult × T)
    (deliver : T → Option T) (sp : Spawn T) (fuel rounds n pid : ℕ) (g g' : Tracer) (t t1 t' : T)
    → run_debuggee sp t ≡ (suc pid, t1)
    → Serves os sscanf waitpid deliver n (record g { tracee_pid = suc pid }) t1 g' t'
    → n < rounds
    → (run_once os sscanf waitpid sp deliver (suc (suc fuel)) rounds g t ≡ some (g', t'))
      × ((g'.stage ≡ g.stage) ↔ (n % 3 ≡ 0))
unfolding run_once wait_for handle_tracee_signals
run_once_lem os sscanf waitpid deliver sp fuel rounds n pid g g' t t1 t' start events enough =
    let waited =
      signal_loop-Serves os sscanf waitpid deliver fuel rounds n _ g' t1 t' enough events in
    let stage' = Serves-stage os sscanf waitpid deliver n _ g' t1 t' events in
    let same = stage_after-same n g.stage in
    (
      ap (wait_for os sscanf waitpid deliver (suc (suc fuel)) rounds g) start
          ∙ rw (missed (suc pid) 0 (omega arith), wait_for)
              (ap (after_wait os sscanf waitpid) waited),
      (λ e. same.0 (sym stage' ∙ e), λ e. stage' ∙ same.1 e),
    )
