-- ===== src/Functime/Child/Ends.antt =====
-- When the handler does not end.
use blackbox_profiling.Base.{ℕ, ◌≡◌, Option, List, zero, suc, refl, Bool, some, ap}
use blackbox_profiling.Functime.Trace.{Ptrace, Tracer}
use blackbox_profiling.Functime.Maps.{MapsLine}
use blackbox_profiling.Functime.Child.{
  WaitResult, no_child, child, killed_by, spins, child_exit_handler, child_loop, act, act_stale,
}

module _ {T : Type 0} (os : Ptrace T) (sscanf : List ℕ → Option MapsLine)
    (waitpid : T → WaitResult × T) where
  -- After a killed child, with no child left, the loop repeats the old status for ever.
  child_loop-stale :
      (fuel : ℕ) (done : Bool) (sig : ℕ) (g : Tracer) (t : T)
      → waitpid t ≡ (no_child, t)
      → child_loop os sscanf waitpid fuel done (some (killed_by sig)) g t ≡ spins
  unfolding child_loop act_stale
  child_loop-stale zero done sig g t e = refl
  child_loop-stale (suc fuel) done sig g t e =
      rw (ap (λ (x : WaitResult × T). x.0) e, child_loop, ap (λ (x : WaitResult × T). x.1) e)
        (child_loop-stale fuel done sig g t e)

  -- A tracee that is killed by a signal, and leaves no child behind, is never reported as done: the
  -- handler does not return, whatever number of rounds it is given.
  pub killed_tracee_spins :
      (fuel : ℕ) (done : Bool) (pid sig : ℕ) (g : Tracer) (t t' : T)
      → waitpid t ≡ (child pid (killed_by sig), t')
      → waitpid t' ≡ (no_child, t')
      → child_exit_handler os sscanf waitpid fuel done g t ≡ spins
  unfolding child_exit_handler child_loop act
  killed_tracee_spins zero done pid sig g t t' e n = refl
  killed_tracee_spins (suc fuel) done pid sig g t t' e n =
      rw (ap (λ (x : WaitResult × T). x.0) e, child_loop, ap (λ (x : WaitResult × T). x.1) e)
        (child_loop-stale fuel done sig g t' n)
